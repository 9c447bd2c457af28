-- ===== src/Proxy/Handlers/Routing.antt =====
-- The upstream that a request is sent to.
use oxidized_wall.Base.{
  ℕ, ◌+◌, ◌%◌, ◌<◌, ◌≡◌, ap, inl, inr, Bool, true, some, List, arith, ==_refl, ip_eq, nat_eq,
  list_eq, Str, Option-cases, opt_map, length, get_elem?,
}
use oxidized_wall.Config.{Config, VHostConfig}
use oxidized_wall.Dict.{get, insert, get-insert}
use oxidized_wall.Http.{Http}
use oxidized_wall.Proxy.{Parts, get_host}
use oxidized_wall.Proxy.Balance.{select_upstream, usize_mod}
use oxidized_wall.Proxy.Balance.Laws.{
  lt_of_get_elem?, select_upstream_sound, select_upstream_complete,
}
use oxidized_wall.Proxy.Handlers.{route}
use oxidized_wall.Proxy.Routes.{best_match}

module _ (H : Http) (is_healthy : Str → Bool) where
  -- The upstream of a request is a healthy one of the route that matches in the virtual host of its
  -- name.
  pub route_sound :
      (config config' : Config) (req : Parts H) (addr : Str)
      → route H is_healthy config req ≡ (config', some addr)
      → (vhost : VHostConfig) × (get config.vhosts (get_host H req.uri req.headers) ≡ some vhost)
        × ((p : Str) × (us : List Str) × (c : ℕ) × (best_match
                (H.path req.uri)
                vhost.routers
                vhost.routers_state
              ≡ some (p, us, c))
            × (is_healthy addr ≡ true)
            × ((k : ℕ) × (get_elem? us k ≡ some addr)))
  unfolding route
  route_sound config config' req addr e =
      elim (Option-cases (get config.vhosts (get_host H req.uri req.headers))) [
        | inl unknown ↦ absurd (ground arith)
        | inr (vhost, known) ↦
            elim (Option-cases (best_match (H.path req.uri) vhost.routers vhost.routers_state)) [
              | inl unmatched ↦ absurd (ground arith)
              | inr ((p, us, c), matched) ↦
                  let (well, listed) = select_upstream_sound is_healthy us c addr (ground arith) in
                  (vhost, known, (p, us, c, matched, well, listed))
            ]
      ]

  -- A request for a virtual host of which a route matches is sent to a healthy upstream if one of
  -- the route's is healthy and its counter does not reach the limit of `usize` within the turn;
  -- the route's counter moves by one.
  pub route_complete :
      (config : Config) (req : Parts H) (vhost : VHostConfig) (p : Str) (us : List Str) (c k : ℕ)
      (addr : Str)
      → get config.vhosts (get_host H req.uri req.headers) ≡ some vhost
      → best_match (H.path req.uri) vhost.routers vhost.routers_state ≡ some (p, us, c)
      → c + length us < usize_mod
      → get_elem? us k ≡ some addr
      → is_healthy addr ≡ true
      → (a : Str) × ((route H is_healthy config req).1 ≡ some a)
        × (is_healthy a ≡ true)
        × (opt_map
              (λ (v : VHostConfig). get v.routers_state p)
              (get (route H is_healthy config req).0.vhosts (get_host H req.uri req.headers))
            ≡ some (some (c + 1)))
  unfolding route select_upstream
  route_complete config req vhost p us c k addr known matched small at good =
      let (a, chosen, well, listed) =
        select_upstream_complete is_healthy us c k addr (omega arith) at good in
      let domain = get_host H req.uri req.headers in
      let pos = lt_of_get_elem? us k at in
      let counter = (c + 1) % usize_mod in
      let bump : counter ≡ c + 1 = omega arith in
      let moved : VHostConfig = record vhost {
        routers_state = insert vhost.routers_state p counter;
      } in
      let here = get-insert config.vhosts domain moved domain in
      let there = get-insert vhost.routers_state p counter p in
      (
        a,
        ground arith,
        well,
        rw (known, matched, route, here, ==_refl domain, there, ==_refl p)
            (ap (λ n. some (some n)) bump),
      )
