-- ===== src/Proxy/Handlers/Probed.antt =====
-- From the health checker to the upstream of a request.
use oxidized_wall.Base.{
  ℕ, zero, suc, ◌≡◌, ◌∙◌, inl, inr, Bool, true, Option, some, List, [], ◌∷◌, arith, ◌==◌, ==_iff,
  ip_eq, nat_eq, list_eq, Str, Option-cases, Bool-cases, get_elem?, starts_with,
}
use oxidized_wall.Config.{Config, VHostConfig}
use oxidized_wall.Dict.{DashMap, HashMap, get}
use oxidized_wall.Health.{
  listed, upstreams_of, HealthManager, is_healthy, check_round, probe_upstream,
}
use oxidized_wall.Health.Laws.{in_routes, in_vhosts, upstreams_of_lem, is_healthy-check_round}
use oxidized_wall.Http.{Http}
use oxidized_wall.Proxy.{Parts, get_host}
use oxidized_wall.Proxy.Handlers.{route}
use oxidized_wall.Proxy.Handlers.Routing.{route_sound}
use oxidized_wall.Proxy.Routes.{best_match}

listed_of_get_elem? :
    (us : List Str) (k : ℕ) (a : Str) → get_elem? us k ≡ some a → listed a us ≡ true
unfolding listed
listed_of_get_elem? [] k a e = absurd (ground arith)
listed_of_get_elem? (u ∷ us) zero a e = ground (arith, ==_iff u a)
listed_of_get_elem? (u ∷ us) (suc k) a e = ground (arith, listed_of_get_elem? us k a e)

-- A route that is chosen stands among the routes.
in_routes-best_match :
    (a path : Str) (routes : List (Str × List Str)) (state : HashMap Str ℕ) (p : Str)
    (us : List Str) (c : ℕ)
    → best_match path routes state ≡ some (p, us, c)
    → listed a us ≡ true
    → in_routes a routes ≡ true
unfolding best_match
in_routes-best_match a path [] state p us c e h = absurd (ground arith)
in_routes-best_match a path ((q, vs) ∷ routes) state p us c e h = elim (Bool-cases (listed a vs)) [
  | inl here ↦ ground arith
  | inr absent ↦ elim (Bool-cases (starts_with path q)) [
    | inr other ↦ ground (arith, in_routes-best_match a path routes state p us c)
    | inl begins ↦ elim (Option-cases (get state q)) [
      | inl missing ↦ ground (arith, in_routes-best_match a path routes state p us c)
      | inr (d, counted) ↦ let same : vs ≡ us = ground arith in absurd (ground arith)
    ]
  ]
]

in_vhosts_of_get :
    (a domain : Str) (vhosts : HashMap Str VHostConfig) (vhost : VHostConfig)
    → get vhosts domain ≡ some vhost
    → in_routes a vhost.routers ≡ true
    → in_vhosts a vhosts ≡ true
unfolding get
in_vhosts_of_get a domain [] vhost e h = absurd (ground arith)
in_vhosts_of_get a domain ((d, v) ∷ vhosts) vhost e h = elim (Bool-cases (d == domain)) [
  | inl same ↦ let eq : v ≡ vhost = ground arith in rw eq (ground arith)
  | inr other ↦ ground (arith, in_vhosts_of_get a domain vhosts vhost)
]

module _ (H : Http) (D : DashMap Str Bool) where
  -- After a round of the health checker, whatever the statuses were before, a request is only sent
  -- to an upstream whose probe in that round connected in time.
  pub route-check_round :
      (connect : Str → Option Bool) (h : HealthManager D) (config config' : Config) (req : Parts H)
      (addr : Str)
      → route H (λ a. is_healthy D a (check_round D connect (upstreams_of config) h)) config req
        ≡ (config', some addr)
      → connect addr ≡ some true
  unfolding probe_upstream
  route-check_round connect h config config' req addr e =
      let (vhost, known, (p, us, c, matched, well, (k, at))) =
        route_sound H (λ a. is_healthy D a (check_round D connect (upstreams_of config) h)) config
          config' req addr e in
      let among =
        in_routes-best_match addr (H.path req.uri) vhost.routers vhost.routers_state p us c matched
          (listed_of_get_elem? us k addr at) in
      let probed : listed addr (upstreams_of config) ≡ true =
        (upstreams_of_lem config).1 addr
        ∙ in_vhosts_of_get addr (get_host H req.uri req.headers) config.vhosts vhost known among in
      let status : is_healthy D addr (check_round D connect (upstreams_of config) h)
          ≡ probe_upstream connect addr =
        ground (arith, is_healthy-check_round D connect (upstreams_of config) h addr) in
      elim (Option-cases (connect addr)) [
        | inl late ↦ absurd (ground arith)
        | inr (answer, e) ↦ ground arith
      ]
