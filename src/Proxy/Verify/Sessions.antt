-- ===== src/Proxy/Verify/Sessions.antt =====
-- A sequence of requests through the pipeline, from any clients.
use oxidized_wall.Base.{
  ℕ, suc, ◌-◌, ◌≤◌, ◌<◌, ◌≡◌, refl, sym, ◌∙◌, ap, inl, inr, ◌⊎◌, Bool, true, false, ◌&&◌, not,
  Option, none, some, List, [], ◌∷◌, map, arith, ◌==◌, ip_eq, nat_eq, list_eq, IpAddr, Str,
  if◌then◌else◌, Option-cases, Result, ok, err, is_err, All, Instant, from_secs, duration_since,
}
use oxidized_wall.Ban.{BanManager, Violation, punish}
use oxidized_wall.Config.{Config}
use oxidized_wall.Dict.{DashMap}
use oxidized_wall.Http.{Http}
use oxidized_wall.Proxy.{SocketAddr, Parts, ErrorResponse, get_real_ip}
use oxidized_wall.Proxy.Verify.{verify_request, refuse}
use oxidized_wall.Proxy.Verify.Laws.{verify_request_passes, verify_request-conclude, conclude}
use oxidized_wall.RateLimit
use oxidized_wall.RateLimit.{RateState, RateLimiter, u32_mod}
use oxidized_wall.RateLimit.Window.{run, run-within_window}
use oxidized_wall.Waf.{Engines}

module _ (H : Http) where
  -- A request with its peer and the instants of its two readings of the clock.
  pub record Arrival : Type 0 where
    pub at : Instant
    pub ban_at : Instant
    pub req : Parts H
    pub remote_addr : SocketAddr

module _ (D : DashMap IpAddr RateState) (H : Http) (E : Engines) (parse_ip : Str → Option IpAddr)
    (config : Config) where
  abbrev pub client_of : Arrival H → IpAddr
  client_of a = get_real_ip H parse_ip a.req.headers a.remote_addr

  -- One request: the managers after it, and whether it passes. One that panics has been counted by
  -- then and bans nobody.
  unfoldable pub pipeline :
      Arrival H → BanManager → RateLimiter D → BanManager × RateLimiter D × Bool
  pipeline a bans limiter =
      elim (verify_request D H E parse_ip a.at a.ban_at a.req a.remote_addr config bans limiter) [
        | none ↦ (bans, (RateLimit.check D a.at (client_of a) config limiter).0, false)
        | some (bans', limiter', answer) ↦ (bans', limiter', not (is_err answer))
      ]

  -- The requests one after the other; the result counts those of the address that pass.
  unfoldable pub session :
      IpAddr → List (Arrival H) → BanManager → RateLimiter D → BanManager × RateLimiter D × ℕ
  unfolding pipeline
  session ip [] bans limiter = (bans, limiter, 0)
  session ip (a ∷ arrivals) bans limiter =
      let (bans1, limiter1, passes) = pipeline a bans limiter in
      let (bans2, limiter2, n) = session ip arrivals bans1 limiter1 in
      (bans2, limiter2, if (ip == client_of a) && passes then suc n else n)

  -- What the rate limiter sees of the requests.
  abbrev pub seen : List (Arrival H) → List (Instant × IpAddr)
  seen = map (λ (a : Arrival H). (a.at, client_of a))

  All-seen :
      (s : RateState) (arrivals : List (Arrival H))
      → All (λ (a : Arrival H). duration_since a.at s.last_reset < from_secs 1) arrivals
      → All (λ r. duration_since r.0 s.last_reset < from_secs 1) (seen arrivals)
  All-seen s [] h = tt
  All-seen s (a ∷ arrivals) (h, hs) = (h, All-seen s arrivals hs)

  conclude_limiter :
      (ban_at : Instant) (ip : IpAddr) (bans bans' : BanManager) (limiter limiter' : RateLimiter D)
      (answer : Result (ErrorResponse H) (Unit {0})) (o : Option (Violation × ℕ))
      → conclude D H E parse_ip ban_at ip config bans limiter o ≡ some (bans', limiter', answer)
      → limiter' ≡ limiter
  unfolding refuse
  conclude_limiter ban_at ip bans bans' limiter limiter' answer none e = ground arith
  conclude_limiter ban_at ip bans bans' limiter limiter' answer (some (v, s)) e =
      elim (Option-cases (punish ban_at ip v config bans)) [
        | inl panics ↦ absurd (ground arith)
        | inr (b, p) ↦ ground arith
      ]

  verify_request-check :
      (a : Arrival H) (bans bans' : BanManager) (limiter limiter' : RateLimiter D)
      (answer : Result (ErrorResponse H) (Unit {0}))
      → verify_request D H E parse_ip a.at a.ban_at a.req a.remote_addr config bans limiter
        ≡ some (bans', limiter', answer)
      → limiter' ≡ (RateLimit.check D a.at (client_of a) config limiter).0
  verify_request-check a bans bans' limiter limiter' answer e =
      conclude_limiter a.ban_at (client_of a) bans bans'
        (RateLimit.check D a.at (client_of a) config limiter).0 limiter' answer _
        (sym (
            verify_request-conclude D H E parse_ip a.at a.ban_at a.req a.remote_addr config bans
              limiter)
          ∙ e)

  -- A request that passes is one that the limiter allowed.
  pipeline-check :
      (a : Arrival H) (bans : BanManager) (limiter : RateLimiter D)
      → ((pipeline a bans limiter).1 ≡ (RateLimit.check D a.at (client_of a) config limiter).0)
        × (((pipeline a bans limiter).2 ≡ false)
            ⊎ ((RateLimit.check D a.at (client_of a) config limiter).1 ≡ true))
  unfolding pipeline
  pipeline-check a bans limiter =
      elim (Option-cases
        (verify_request D H E parse_ip a.at a.ban_at a.req a.remote_addr config bans limiter)) [
          | inl panics ↦ rw (panics, pipeline) (refl, inl refl)
          | inr ((bans', limiter', err resp), e) ↦
              rw (e, pipeline)
                (verify_request-check a bans bans' limiter limiter' (err resp) e, inl refl)
          | inr ((bans', limiter', ok _), e) ↦
              let counted =
                (verify_request_passes D H E parse_ip a.at a.ban_at a.req a.remote_addr config bans
                  bans' limiter limiter' e).1 in
              rw (e, pipeline)
                (
                  verify_request-check a bans bans' limiter limiter' (ok tt) e,
                  inr (ap (λ (c : RateLimiter D × Bool). c.1) counted),
                )
        ]

  session-run :
      (ip : IpAddr) (arrivals : List (Arrival H)) (bans : BanManager) (limiter : RateLimiter D)
      → (session ip arrivals bans limiter).2 ≤ (run D config ip (seen arrivals) limiter).1
  unfolding session run
  session-run ip [] bans limiter = omega arith
  session-run ip (a ∷ arrivals) bans limiter =
      let (same, allowed) = pipeline-check a bans limiter in
      let after = pipeline a bans limiter in
      let n = (session ip arrivals after.0 after.1).2 in
      let ih : n
          ≤ (run D config ip (seen arrivals)
              (RateLimit.check D a.at (client_of a) config limiter).0).1 =
        rw (← same) (session-run ip arrivals after.0 after.1) in
      ground arith

  -- While the window that is open for an address lasts, however the requests of any clients follow
  -- each other, no more requests of the address pass the pipeline than the limit has left; the
  -- limit is positive and below 2^32, and the window's count is within it.
  pub session-within_window :
      (ip : IpAddr) (arrivals : List (Arrival H)) (bans : BanManager) (limiter : RateLimiter D)
      (s : RateState)
      → 0 < config.limit.max_rps
      → config.limit.max_rps < u32_mod
      → D.get limiter.records ip ≡ some s
      → s.count ≤ config.limit.max_rps
      → All (λ (a : Arrival H). duration_since a.at s.last_reset < from_secs 1) arrivals
      → (session ip arrivals bans limiter).2 ≤ config.limit.max_rps - s.count
  session-within_window ip arrivals bans limiter s pos small e le within = omega (
    arith,
    session-run ip arrivals bans limiter,
    run-within_window D config ip (seen arrivals) limiter s pos small e le
        (All-seen s arrivals within),
  )
