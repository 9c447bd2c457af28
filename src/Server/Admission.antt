-- ===== src/Server/Admission.antt =====
-- Whom the accept loops turn away.
use oxidized_wall.Base.{
  ◌+◌, ◌≡◌, sym, ◌∙◌, ◌&&◌, ◌==◌, Option, some, arith, ip_eq, nat_eq, list_eq, ltb, leb, ℕ, refl,
  ap, opt_map, if◌then◌else◌, IpAddr, Str, err, Result, Instant, from_secs, none,
}
use oxidized_wall.Ban.{BanManager, Violation, duration_sec, punish, ban}
use oxidized_wall.Ban.Laws.{check-is_banned}
use oxidized_wall.Ban.Spec.{is_banned}
use oxidized_wall.Config.{Config}
use oxidized_wall.Dict.{DashMap}
use oxidized_wall.Http.{Http}
use oxidized_wall.Proxy.{SocketAddr, Parts, ErrorResponse, error_response, get_real_ip}
use oxidized_wall.Proxy.Verify.{Verified, refuse, verify_request}
use oxidized_wall.Proxy.Verify.Laws.{
  first_violation, checks, conclude, verify_request-conclude, verify_request_refuses,
}
use oxidized_wall.RateLimit
use oxidized_wall.RateLimit.{RateState, RateLimiter}
use oxidized_wall.Server.{accepting, acquiring, on_accept}
use oxidized_wall.Waf.{Engines}

on_accept-is_banned :
    (now : Instant) (peer : SocketAddr) (bans : BanManager)
    → (on_accept now (some peer) bans).1
      ≡ (if is_banned now peer.ip bans then accepting else acquiring peer)
unfolding on_accept
on_accept-is_banned now peer bans =
    rw ((check-is_banned now now peer.ip peer.ip bans (omega arith)).0, on_accept) refl

module _ (D : DashMap IpAddr RateState) (H : Http) (E : Engines)
    (parse_ip : Str → Option IpAddr) where
  -- A refused request is answered with the status of the first check that failed, and the accept
  -- loop of every server then turns its client away for the seconds that are set for that check's
  -- violation, if they are not zero, and lets it in after them; the loops treat every other peer as
  -- before. The client is the address that the request gives.
  pub on_accept-verify_request :
      (at ban_at : Instant) (req : Parts H) (remote_addr : SocketAddr) (config : Config)
      (bans bans' : BanManager) (limiter limiter' : RateLimiter D) (resp : ErrorResponse H)
      (t : Instant) (peer : SocketAddr)
      → verify_request D H E parse_ip at ban_at req remote_addr config bans limiter
        ≡ some (bans', limiter', err resp)
      → (v : Violation) × (s : ℕ) × (first_violation (
            checks D H E parse_ip
              (RateLimit.check D at
                (get_real_ip H parse_ip req.headers remote_addr)
                config
                limiter).1
              req
              config)
          ≡ some (v, s))
        × (resp ≡ error_response H s)
        × ((on_accept t (some peer) bans').1 ≡ (
            if (get_real_ip H parse_ip req.headers remote_addr == peer.ip)
              && ltb 0 (duration_sec v config)
            then (if leb t (ban_at + from_secs (duration_sec v config))
                then accepting
                else acquiring peer)
            else (on_accept t (some peer) bans).1))
  on_accept-verify_request at ban_at req remote_addr config bans bans' limiter limiter' resp t peer
        e =
      let (v, s, failed, answer, banned) =
        verify_request_refuses D H E parse_ip at ban_at req remote_addr config bans bans' limiter
          limiter' resp t peer.ip e in
      (
        v,
        s,
        failed,
        answer,
        ground (arith, banned, on_accept-is_banned t peer bans, on_accept-is_banned t peer bans'),
      )

  -- The answer of a request, without the list of bans.
  abbrev pub answer : Verified D H → RateLimiter D × Result (ErrorResponse H) (Unit {0})
  answer v = (v.1, v.2)

  refuse_ignores_bans :
      (ban_at : Instant) (ip : IpAddr) (v : Violation) (s : ℕ) (config : Config)
      (bans bans' : BanManager) (limiter : RateLimiter D)
      → opt_map answer (refuse D H ban_at ip v s config bans limiter)
        ≡ opt_map answer (refuse D H ban_at ip v s config bans' limiter)
  unfolding refuse punish ban
  refuse_ignores_bans ban_at ip v s config bans bans' limiter = ground arith

  conclude_ignores_bans :
      (ban_at : Instant) (ip : IpAddr) (config : Config) (bans bans' : BanManager)
      (limiter : RateLimiter D) (o : Option (Violation × ℕ))
      → opt_map answer (conclude D H E parse_ip ban_at ip config bans limiter o)
        ≡ opt_map answer (conclude D H E parse_ip ban_at ip config bans' limiter o)
  conclude_ignores_bans ban_at ip config bans bans' limiter none = refl
  conclude_ignores_bans ban_at ip config bans bans' limiter (some (v, s)) =
      refuse_ignores_bans ban_at ip v s config bans bans' limiter

  -- The bans decide nothing in the pipeline: over any two lists of bans a request has the same
  -- answer, panics included, and the same effect on the rate counters.
  pub verify_request_ignores_bans :
      (at ban_at : Instant) (req : Parts H) (remote_addr : SocketAddr) (config : Config)
      (bans bans' : BanManager) (limiter : RateLimiter D)
      → opt_map answer (verify_request D H E parse_ip at ban_at req remote_addr config bans limiter)
        ≡ opt_map answer
            (verify_request D H E parse_ip at ban_at req remote_addr config bans' limiter)
  verify_request_ignores_bans at ban_at req remote_addr config bans bans' limiter =
      let ip = get_real_ip H parse_ip req.headers remote_addr in
      let checked = RateLimit.check D at ip config limiter in
      ap (opt_map answer)
        (verify_request-conclude D H E parse_ip at ban_at req remote_addr config bans limiter)
      ∙ conclude_ignores_bans ban_at ip config bans bans' checked.0
          (first_violation (checks D H E parse_ip checked.1 req config))
      ∙ ap (opt_map answer) (
          sym
            (verify_request-conclude D H E parse_ip at ban_at req remote_addr config bans' limiter))
