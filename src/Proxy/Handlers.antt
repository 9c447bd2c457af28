-- ===== src/Proxy/Handlers.antt =====
-- `http_proxy` and `https_proxy` of src/proxy.rs, up to the outcomes of the
-- network. `none` is the panic of a ban whose end cannot be represented.
pub mod Laws
pub mod Routing
pub mod Redirect
pub mod Loaded
pub mod Probed
pub mod Sent
use oxidized_wall.Base.{
  ℕ, String, Bool, Option, none, some, ip_eq, nat_eq, list_eq, IpAddr, Str, if◌then◌else◌, opt_map,
  head, Result, ok, err, Instant,
}
use oxidized_wall.Ban.{BanManager, Violation, punish}
use oxidized_wall.Config.{Config}
use oxidized_wall.Dict.{DashMap, get, insert}
use oxidized_wall.Http.{Http}
use oxidized_wall.Proxy.{SocketAddr, Parts, error_response, get_real_ip, get_host}
use oxidized_wall.Proxy.Balance.{select_upstream}
use oxidized_wall.Proxy.Routes.{best_match}
use oxidized_wall.Proxy.Verify.{verify_request}
use oxidized_wall.RateLimit.{RateState, RateLimiter}
use oxidized_wall.Waf
use oxidized_wall.Waf.{Engines, Bodies}
use oxidized_wall.Proxy.Upstream.{
  Request, Response, Network, empty_response, redirect, deliver, admit,
}

module _ (H : Http) (is_healthy : Str → Bool) where
  -- The synchronous part of step 3, with the counter of the chosen route; the upstream, if any.
  unfoldable pub route : Config → Parts H → Config × Option Str
  route config req =
      let domain = get_host H req.uri req.headers in
      elim (get config.vhosts domain) [
        | none ↦ (config, none)
        | some vhost ↦ elim (best_match (H.path req.uri) vhost.routers vhost.routers_state) [
          | none ↦ (config, none)
          | some (route_path, upstreams, counter) ↦
              let (counter', choice) = select_upstream is_healthy upstreams counter in
              let state = insert vhost.routers_state route_path counter' in
              (
                record config {
                  vhosts = insert config.vhosts domain (record vhost { routers_state = state });
                },
                choice,
              )
        ]
      ]

-- The state that the handlers share.
pub record Shared (D : DashMap IpAddr RateState) : Type 0 where
  pub config : Config
  pub bans : BanManager
  pub limiter : RateLimiter D

module _ (D : DashMap IpAddr RateState) (H : Http) (E : Engines) (B : Bodies)
    (parse_ip : Str → Option IpAddr) where
  -- The state after a request, and the response, or hyper's error.
  abbrev pub Handled : Type 0
  Handled = Shared D × Result String (Response H B)

  -- A punishment and the error response that goes with it.
  unfoldable pub rejected : Instant → IpAddr → Violation → ℕ → Shared D → Option Handled
  rejected ban_at ip violation status s =
      opt_map
        (λ bans. (record s { bans = bans }, ok (empty_response H B (error_response H status))))
        (punish ban_at ip violation s.config s.bans)

  -- Goes on with a request that passes the pipeline.
  unfoldable pub verified :
      Instant
      → Instant
      → Request H B
      → SocketAddr
      → (Shared D → Option Handled)
      → Shared D
      → Option Handled
  verified at ban_at req remote_addr continue s =
      elim (verify_request D H E parse_ip at ban_at req.head remote_addr s.config s.bans
        s.limiter) [
          | none ↦ none
          | some (bans, limiter, err res) ↦
              some (record s { bans = bans; limiter = limiter }, ok (empty_response H B res))
          | some (bans, limiter, ok _) ↦ continue (record s { bans = bans; limiter = limiter })
        ]

  unfoldable pub http_proxy :
      Instant → Instant → Request H B → SocketAddr → Shared D → Option Handled
  unfolding verified
  http_proxy at ban_at req remote_addr s =
      verified at ban_at req remote_addr (λ s. some (s, ok (redirect H B req.head))) s

  module _ (N : Network H B) (is_healthy : Str → Bool) where
    -- Steps 3 and 4. The timeout first polls the block, which waits only once an upstream is chosen.
    unfoldable pub dispatch : Instant → Request H B → IpAddr → Shared D → Option Handled
    unfolding route deliver rejected
    dispatch ban_at req remote_ip s =
        let (config, choice) = route H is_healthy s.config req.head in
        let s' = record s { config = config } in
        elim choice [
          | none ↦ some (s', ok (empty_response H B (error_response H 502)))
          | some addr ↦
              if N.is_late
              then rejected ban_at remote_ip Violation.timeout 504 s'
              else (elim (deliver H B E N req addr remote_ip config.limit.max_bandwidth) [
                | some answer ↦ some (s', answer)
                | none ↦ some (s', ok (empty_response H B (error_response H 502)))
              ])
        ]

    -- Steps 2 to 4.
    unfoldable pub forward : Instant → Request H B → IpAddr → Shared D → Option Handled
    unfolding dispatch admit rejected
    forward ban_at req remote_ip s = elim (admit H B E N s.config req) [
      | err (violation, status) ↦ rejected ban_at remote_ip violation status s
      | ok body ↦ dispatch ban_at (record req { body = body }) remote_ip s
    ]

    unfoldable pub https_proxy :
        Instant → Instant → Request H B → SocketAddr → Shared D → Option Handled
    unfolding verified forward
    https_proxy at ban_at req remote_addr s =
        verified at ban_at req remote_addr
          (forward ban_at req (get_real_ip H parse_ip req.head.headers remote_addr)) s
