-- ===== src/Proxy/Verify.antt =====
-- `verify_request` of src/proxy.rs. `at` is the instant of the rate check and `ban_at` that of a
-- ban; `none` is the panic of a ban whose end cannot be represented.
pub mod Laws
pub mod Sessions
pub mod Limits
use oxidized_wall.Base.{
  ℕ, ◌+◌, Bool, true, false, not, Option, some, ip_eq, nat_eq, list_eq, IpAddr, Str, if◌then◌else◌,
  ltb, opt_map, unwrap_or, head, Result, ok, err, Instant, utf8_len,
}
use oxidized_wall.Ban
use oxidized_wall.Ban.{BanManager, Violation, punish}
use oxidized_wall.Config.{Config}
use oxidized_wall.Dict.{DashMap}
use oxidized_wall.Http.{Http, Method}
use oxidized_wall.Protocol.{validate}
use oxidized_wall.Proxy.{SocketAddr, Parts, ErrorResponse, error_response, get_real_ip}
use oxidized_wall.RateLimit
use oxidized_wall.RateLimit.{RateState, RateLimiter}
use oxidized_wall.Waf
use oxidized_wall.Waf.{Engines}

-- The methods that the proxy serves.
unfoldable pub is_served : Method → Bool
is_served Method.get = true
is_served Method.post = true
is_served Method.put = true
is_served Method.delete = true
is_served Method.patch = true
is_served Method.head = true
is_served Method.options = true
is_served _ = false

module _ (H : Http) where
  -- The length of the path, and of the query with its question mark.
  unfoldable pub uri_len : H.Uri → ℕ
  uri_len uri = utf8_len (H.path uri) + unwrap_or (opt_map (λ q. utf8_len q + 1) (H.query uri)) 0

module _ (D : DashMap IpAddr RateState) (H : Http) where
  -- The managers after a request, and the answer.
  abbrev pub Verified : Type 0
  Verified = BanManager × RateLimiter D × Result (ErrorResponse H) (Unit {0})

  -- A punishment and the refusal that goes with it.
  unfoldable pub refuse :
      Instant → IpAddr → Violation → ℕ → Config → BanManager → RateLimiter D → Option Verified
  refuse ban_at ip violation status config bans limiter =
      opt_map (λ bans'. (bans', limiter, err (error_response H status)))
        (punish ban_at ip violation config bans)

module _ (D : DashMap IpAddr RateState) (H : Http) (E : Engines) where
  -- Tasks 2 to 4, which leave the rate limiter alone.
  unfoldable pub inspect :
      Instant → IpAddr → Parts H → Config → BanManager → RateLimiter D → Option (Verified D H)
  inspect ban_at ip req config bans limiter = elim (validate H req.headers req.method req.uri) [
    | err e ↦ refuse D H ban_at ip Violation.protocol 400 config bans limiter
    | ok _ ↦
        if ltb config.limit.max_header_count (H.len req.headers)
        then refuse D H ban_at ip Violation.protocol 400 config bans limiter
        else (if ltb config.limit.max_uri_size (uri_len H req.uri)
            then refuse D H ban_at ip Violation.protocol 414 config bans limiter
            else (if not (is_served req.method)
                then refuse D H ban_at ip Violation.protocol 405 config bans limiter
                else elim (Waf.header H E req.uri req.method req.headers) [
                  | err reason ↦ refuse D H ban_at ip Violation.waf 403 config bans limiter
                  | ok _ ↦ some (bans, limiter, ok tt)
                ]))
  ]

  module _ (parse_ip : Str → Option IpAddr) where
    unfoldable pub verify_request :
        Instant
        → Instant
        → Parts H
        → SocketAddr
        → Config
        → BanManager
        → RateLimiter D
        → Option (Verified D H)
    verify_request at ban_at req remote_addr config bans limiter =
        let ip = get_real_ip H parse_ip req.headers remote_addr in
        let (limiter', allowed) = RateLimit.check D at ip config limiter in
        if not allowed
        then refuse D H ban_at ip Violation.rate_limit 429 config bans limiter'
        else inspect ban_at ip req config bans limiter'
