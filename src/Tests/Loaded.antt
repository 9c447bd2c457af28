-- ===== src/Tests/Loaded.antt =====
-- A request over a configuration that was loaded.
use oxidized_wall.Base.{
  ℕ, ◌≤◌, ◌≡◌, refl, inl, inr, Bool, true, some, List, [], ◌∷◌, arith, ip_eq, nat_eq, list_eq, Str,
  codes, get_elem?, starts_with, utf8_len, ap, sym,
}
use mathlib.Core.Path.{subst}
use oxidized_wall.Config.Load.Laws.{last_vhost}
use oxidized_wall.Proxy.{get_host}
use oxidized_wall.Proxy.Handlers.{route}
use oxidized_wall.Proxy.Handlers.Loaded.{HasHealthy, route-load}
use oxidized_wall.Proxy.Routes.Laws.{In}
use oxidized_wall.Tests.Config.{tls, disk, raw, host, loaded, loads}
use oxidized_wall.Tests.Instances.{http}
use oxidized_wall.Tests.Proxy.{request}

abbrev all_well : Str → Bool
all_well _ = true

host_found :
    last_vhost
      (get_host http (request (codes "/api/x")).uri (request (codes "/api/x")).headers)
      raw.vhosts
    ≡ some host
unfolding get_host oxidized_wall.Waf.Structure.split_next
host_found = refl

one_healthy : (addr : Str) → HasHealthy http all_well (addr ∷ [])
one_healthy addr = (omega arith, (0, addr, refl, refl))

of_route :
    (q addr p : Str) (us : List Str)
    → ◌≡◌ {A = Str × List Str} (p, us) (q, addr ∷ [])
    → HasHealthy http all_well us
of_route q addr p us e =
    subst (HasHealthy http all_well) (sym (ap (λ (r : Str × List Str). r.1) e)) (one_healthy addr)

upstreams_healthy :
    (p : Str) (us : List Str) → In (p, us) host.routers → HasHealthy http all_well us
upstreams_healthy p us (inl e) = of_route (codes "/") (codes "10.0.0.1:80") p us e
upstreams_healthy p us (inr (inl e)) = of_route (codes "/api") (codes "10.0.0.2:80") p us e
upstreams_healthy p us (inr (inr m)) = absurd m

route-load_example :
    (p : Str) × (us : List Str) × (a : Str) × In (p, us) host.routers
    × (starts_with (codes "/api/x") p ≡ true)
    × (utf8_len (codes "/") ≤ utf8_len p)
    × ((route http all_well loaded.config (request (codes "/api/x"))).1 ≡ some a)
    × (all_well a ≡ true)
    × ((j : ℕ) × (get_elem? us j ≡ some a))
route-load_example =
    route-load http all_well tls (disk (1 ∷ [])) (codes "config.toml") (codes "ok") loaded raw host
      (request (codes "/api/x")) (codes "/") (codes "10.0.0.1:80" ∷ []) loads refl refl host_found
      (inl refl) refl upstreams_healthy
