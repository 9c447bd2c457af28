-- ===== src/Tests/Health.antt =====
-- The health checker at a concrete configuration.
use oxidized_wall.Health
use oxidized_wall.Health.{is_healthy, check_round}
use oxidized_wall.Proxy.Handlers.{route}
use oxidized_wall.Proxy.Handlers.Probed.{route-check_round}
use oxidized_wall.Tests.Instances.{http}
use oxidized_wall.Tests.Proxy.{request}
use oxidized_wall.Base.{
  ◌≡◌, refl, Bool, true, Option, none, some, [], ◌∷◌, ◌==◌, ip_eq, nat_eq, list_eq, Str, codes,
  if◌then◌else◌,
}
use oxidized_wall.Health.{upstreams_of, listed}
use oxidized_wall.Dict.{DashMap, list_map}
use oxidized_wall.Tests.Instances.{config}

abbrev statuses : DashMap Str Bool
statuses = list_map

both_probed : upstreams_of (config 3 0) ≡ codes "10.0.0.1:80" ∷ codes "10.0.0.2:80" ∷ []
unfolding upstreams_of
both_probed = refl

-- The first upstream answers, the second does not within two seconds.
abbrev connect : Str → Option Bool
connect a = if a == codes "10.0.0.1:80" then some true else none

-- The request goes to the upstream that answered.
sent :
    route http
      (λ a.
        is_healthy statuses a
          (check_round statuses connect (upstreams_of (config 3 0)) (Health.new statuses)))
      (config 3 0)
      (request (codes "/api/x"))
    ≡ (
      (route http
          (λ a.
            is_healthy statuses a
              (check_round statuses connect (upstreams_of (config 3 0)) (Health.new statuses)))
          (config 3 0)
          (request (codes "/api/x"))).0,
      some (codes "10.0.0.1:80"),
    )
unfolding route oxidized_wall.Dict.get oxidized_wall.Proxy.get_host
    oxidized_wall.Waf.Structure.split_next oxidized_wall.Proxy.Routes.best_match
    oxidized_wall.Proxy.Balance.select_upstream is_healthy check_round upstreams_of
    oxidized_wall.Dict.insert Health.new
sent = refl

route-check_round_example : connect (codes "10.0.0.1:80") ≡ some true
route-check_round_example =
    route-check_round http statuses connect (Health.new statuses) (config 3 0) _
      (request (codes "/api/x")) (codes "10.0.0.1:80") sent
