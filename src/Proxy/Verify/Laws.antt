-- ===== src/Proxy/Verify/Laws.antt =====
-- The pipeline as a table of checks, and who is punished.
use oxidized_wall.Base.{
  ◌==◌, ==_iff, nat_eq, ip_eq, ltb, leb, from_secs, ◌+◌, ◌≢◌, sym, ◌∙◌, ◌&&◌, err, false,
  if◌then◌else◌, refl, Option-cases, inl, inr, ◌≤◌, ℕ, ◌≡◌, Bool, true, not, Option, none, some,
  List, [], ◌∷◌, arith, list_eq, IpAddr, Str, is_err, ok, Instant,
}
use oxidized_wall.Ban
use oxidized_wall.Ban.Laws.{punish-is_banned, check-is_banned}
use oxidized_wall.Ban.Spec.{is_banned}
use oxidized_wall.Ban.{duration_sec, BanManager, Violation, punish}
use oxidized_wall.Config.{Config}
use oxidized_wall.Dict.{DashMap}
use oxidized_wall.Http.{Http}
use oxidized_wall.Protocol.{validate}
use oxidized_wall.Proxy.{error_response, ErrorResponse, SocketAddr, Parts, get_real_ip}
use oxidized_wall.Proxy.Verify.{is_served, uri_len, Verified, refuse, inspect, verify_request}
use oxidized_wall.RateLimit
use oxidized_wall.RateLimit.{RateState, RateLimiter}
use oxidized_wall.Waf
use oxidized_wall.Waf.{Engines}

abbrev pub first_violation : List (Bool × Violation × ℕ) → Option (Violation × ℕ)
first_violation [] = none
first_violation ((failed, violation, status) ∷ checks) =
    if failed then some (violation, status) else first_violation checks

module _ (D : DashMap IpAddr RateState) (H : Http) (E : Engines)
    (parse_ip : Str → Option IpAddr) where
  -- What each check punishes and answers, in their order.
  abbrev pub checks : Bool → Parts H → Config → List (Bool × Violation × ℕ)
  checks allowed req config =
      (not allowed, Violation.rate_limit, 429)
      ∷ (is_err (validate H req.headers req.method req.uri), Violation.protocol, 400)
      ∷ (ltb config.limit.max_header_count (H.len req.headers), Violation.protocol, 400)
      ∷ (ltb config.limit.max_uri_size (uri_len H req.uri), Violation.protocol, 414)
      ∷ (not (is_served req.method), Violation.protocol, 405)
      ∷ (is_err (Waf.header H E req.uri req.method req.headers), Violation.waf, 403)
      ∷ []

  abbrev pub conclude :
      Instant
      → IpAddr
      → Config
      → BanManager
      → RateLimiter D
      → Option (Violation × ℕ)
      → Option (Verified D H)
  conclude ban_at ip config bans limiter none = some (bans, limiter, ok tt)
  conclude ban_at ip config bans limiter (some (v, s)) =
      refuse D H ban_at ip v s config bans limiter

  inspect-conclude :
      (ban_at : Instant) (ip : IpAddr) (req : Parts H) (config : Config) (bans : BanManager)
      (limiter : RateLimiter D)
      → inspect D H E ban_at ip req config bans limiter
        ≡ conclude ban_at ip config bans limiter (first_violation (checks true req config))
  unfolding inspect
  inspect-conclude ban_at ip req config bans limiter = ground arith

  -- The pipeline stops at the first check that fails, punishes the client's address for it and
  -- answers with its status; if none fails, it changes nothing but the rate counter.
  pub verify_request-conclude :
      (at ban_at : Instant) (req : Parts H) (remote_addr : SocketAddr) (config : Config)
      (bans : BanManager) (limiter : RateLimiter D)
      → verify_request D H E parse_ip at ban_at req remote_addr config bans limiter ≡ (
          let ip = get_real_ip H parse_ip req.headers remote_addr in
          let (limiter', allowed) = RateLimit.check D at ip config limiter in
          conclude ban_at ip config bans limiter' (first_violation (checks allowed req config)))
  unfolding verify_request
  verify_request-conclude at ban_at req remote_addr config bans limiter =
      let ip = get_real_ip H parse_ip req.headers remote_addr in
      let l = (RateLimit.check D at ip config limiter).0 in
      ground (arith, inspect-conclude ban_at ip req config bans l)

  conclude_passes :
      (ban_at : Instant) (ip : IpAddr) (config : Config) (bans bans' : BanManager)
      (limiter limiter' : RateLimiter D) (o : Option (Violation × ℕ))
      → conclude ban_at ip config bans limiter o ≡ some (bans', limiter', ok tt)
      → (o ≡ none) × (bans' ≡ bans) × (limiter' ≡ limiter)
  unfolding refuse
  conclude_passes ban_at ip config bans bans' limiter limiter' none e =
      (refl, ground arith, ground arith)
  conclude_passes ban_at ip config bans bans' limiter limiter' (some (v, s)) e =
      elim (Option-cases (punish ban_at ip v config bans)) [
        | inl panics ↦ absurd (ground arith)
        | inr (b, p) ↦ absurd (ground arith)
      ]

  conclude_refuses :
      (ban_at : Instant) (ip : IpAddr) (config : Config) (bans bans' : BanManager)
      (limiter limiter' : RateLimiter D) (resp : ErrorResponse H) (o : Option (Violation × ℕ))
      → conclude ban_at ip config bans limiter o ≡ some (bans', limiter', err resp)
      → (v : Violation) × (s : ℕ) × (o ≡ some (v, s))
        × (resp ≡ error_response H s)
        × (punish ban_at ip v config bans ≡ some bans')
  unfolding refuse
  conclude_refuses ban_at ip config bans bans' limiter limiter' resp none e = absurd (ground arith)
  conclude_refuses ban_at ip config bans bans' limiter limiter' resp (some (v, s)) e =
      elim (Option-cases (punish ban_at ip v config bans)) [
        | inl panics ↦ absurd (ground arith)
        | inr (b, p) ↦ (v, s, refl, ground arith, ground arith)
      ]

  checks_pass :
      (allowed : Bool) (req : Parts H) (config : Config)
      → first_violation (checks allowed req config) ≡ none
      → (allowed ≡ true)
        × (is_err (validate H req.headers req.method req.uri) ≡ false)
        × (H.len req.headers ≤ config.limit.max_header_count)
        × (uri_len H req.uri ≤ config.limit.max_uri_size)
        × (is_served req.method ≡ true)
        × (is_err (Waf.header H E req.uri req.method req.headers) ≡ false)
  checks_pass allowed req config e = ground arith

  module _ (at ban_at : Instant) (req : Parts H) (remote_addr : SocketAddr) (config : Config)
      (bans bans' : BanManager) (limiter limiter' : RateLimiter D) where
    pub verify_request_passes :
        verify_request D H E parse_ip at ban_at req remote_addr config bans limiter
          ≡ some (bans', limiter', ok tt)
        → (bans' ≡ bans)
          × ((RateLimit.check D at (get_real_ip H parse_ip req.headers remote_addr) config limiter)
              ≡ (limiter', true))
          × (is_err (validate H req.headers req.method req.uri) ≡ false)
          × (H.len req.headers ≤ config.limit.max_header_count)
          × (uri_len H req.uri ≤ config.limit.max_uri_size)
          × (is_served req.method ≡ true)
          × (is_err (Waf.header H E req.uri req.method req.headers) ≡ false)
    verify_request_passes e =
        let ip = get_real_ip H parse_ip req.headers remote_addr in
        let checked = RateLimit.check D at ip config limiter in
        let concluded =
          sym (verify_request-conclude at ban_at req remote_addr config bans limiter) ∙ e in
        let (clean, kept_bans, counted) =
          conclude_passes ban_at ip config bans bans' checked.0 limiter'
            (first_violation (checks checked.1 req config)) concluded in
        let (allowed, a, b, c, d, f) = checks_pass checked.1 req config clean in
        (kept_bans, (λ i. (sym counted i, allowed i)), a, b, c, d, f)

    -- A refused request is answered with the status of the first check that failed. It bans the
    -- client's address for the seconds that are set for that check's violation, if they are not
    -- zero, and changes nothing for any other address.
    pub verify_request_refuses :
        (resp : ErrorResponse H) (t : Instant) (j : IpAddr)
        → verify_request D H E parse_ip at ban_at req remote_addr config bans limiter
          ≡ some (bans', limiter', err resp)
        → (v : Violation) × (s : ℕ) × (first_violation (
              checks
                (RateLimit.check D at
                  (get_real_ip H parse_ip req.headers remote_addr)
                  config
                  limiter).1
                req
                config)
            ≡ some (v, s))
          × (resp ≡ error_response H s)
          × (is_banned t j bans' ≡ (
              if (get_real_ip H parse_ip req.headers remote_addr == j)
                && ltb 0 (duration_sec v config)
              then leb t (ban_at + from_secs (duration_sec v config))
              else is_banned t j bans))
    verify_request_refuses resp t j e =
        let ip = get_real_ip H parse_ip req.headers remote_addr in
        let checked = RateLimit.check D at ip config limiter in
        let concluded =
          sym (verify_request-conclude at ban_at req remote_addr config bans limiter) ∙ e in
        let (v, s, failed, answer, punished) =
          conclude_refuses ban_at ip config bans bans' checked.0 limiter' resp
            (first_violation (checks checked.1 req config)) concluded in
        (v, s, failed, answer, punish-is_banned ban_at ip v config bans bans' t j punished)

    -- Where the client's address, taken from CF-Connecting-IP, is not the peer's own, a refused
    -- request changes no answer of the ban list about the peer's address.
    pub verify_request_spares_peer :
        (resp : ErrorResponse H) (t : Instant)
        → get_real_ip H parse_ip req.headers remote_addr ≢ remote_addr.ip
        → verify_request D H E parse_ip at ban_at req remote_addr config bans limiter
          ≡ some (bans', limiter', err resp)
        → (Ban.check t remote_addr.ip bans').1 ≡ (Ban.check t remote_addr.ip bans).1
    verify_request_spares_peer resp t other e =
        let ip = get_real_ip H parse_ip req.headers remote_addr in
        let peer = remote_addr.ip in
        let (v, s, failed, answer, same) = verify_request_refuses resp t peer e in
        (check-is_banned t t peer peer bans' (omega arith)).0
        ∙ ground (arith, ==_iff ip peer)
        ∙ sym (check-is_banned t t peer peer bans (omega arith)).0
