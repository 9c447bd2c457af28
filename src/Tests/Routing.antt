-- ===== src/Tests/Routing.antt =====
-- The choice of an upstream at a concrete request.
use oxidized_wall.Base.{
  ◌+◌, ◌≡◌, refl, true, some, [], ◌∷◌, arith, ip_eq, nat_eq, list_eq, Str, codes, opt_map,
}
use oxidized_wall.Dict.{get}
use oxidized_wall.Proxy.Handlers.Routing.{route_complete}
use oxidized_wall.Config.{VHostConfig}
use oxidized_wall.Http.{Method}
use oxidized_wall.Proxy.{get_host}
use oxidized_wall.Proxy.Routes.{best_match}
use oxidized_wall.Proxy.Handlers.{route}
use oxidized_wall.Waf
use oxidized_wall.Tests.Instances.{config, http}
use oxidized_wall.Tests.Handlers.{request, all_well}

-- The virtual host of the configuration.
abbrev vhost : VHostConfig
vhost = record {
  cert_path = [];
  key_path = [];
  routers =
      (codes "/", codes "10.0.0.1:80" ∷ [])
      ∷ (codes "/api", codes "10.0.0.2:80" ∷ codes "10.0.0.1:80" ∷ [])
      ∷ [];
  routers_state = (codes "/", 0) ∷ (codes "/api", 0) ∷ [];
}

vhost_found :
    get
      (config 3 60).vhosts
      (get_host http (request Method.get []).head.uri (request Method.get []).head.headers)
    ≡ some vhost
unfolding get get_host oxidized_wall.Waf.Structure.split_next
vhost_found = refl

root_matched :
    best_match (codes "/api/x") vhost.routers vhost.routers_state
    ≡ some (codes "/", codes "10.0.0.1:80" ∷ [], 0)
unfolding best_match get
root_matched = refl

route_complete_example :
    (a : Str) × ((route http all_well (config 3 60) (request Method.get []).head).1 ≡ some a)
    × (all_well a ≡ true)
    × (opt_map
          (λ (v : VHostConfig). get v.routers_state (codes "/"))
          (get
            (route http all_well (config 3 60) (request Method.get []).head).0.vhosts
            (get_host http (request Method.get []).head.uri (request Method.get []).head.headers))
        ≡ some (some (0 + 1)))
route_complete_example =
    route_complete http all_well (config 3 60) (request Method.get []).head vhost (codes "/")
      (codes "10.0.0.1:80" ∷ []) 0 0 (codes "10.0.0.1:80") vhost_found root_matched (omega arith)
      refl refl
