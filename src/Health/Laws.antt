-- ===== src/Health/Laws.antt =====
-- What the checker probes, and what a round records.
use oxidized_wall.Base.{
  ◌≡◌, refl, inl, inr, Bool, false, ◌||◌, Option, List, [], ◌∷◌, ◌++◌, arith, ◌==◌, ==_iff, ip_eq,
  nat_eq, list_eq, Str, if◌then◌else◌, Bool-cases,
}
use oxidized_wall.Health.{
  listed, collect_addrs, collect_routes, collect_vhosts, upstreams_of, HealthManager, is_healthy,
  check_round, probe_upstream,
}
use oxidized_wall.Config.{Config, VHostConfig}
use oxidized_wall.Dict.{DashMap}

-- An address stands among the upstreams of a route, of a host, of the configuration.
abbrev pub in_routes : Str → List (Str × List Str) → Bool
in_routes a [] = false
in_routes a ((_, addrs) ∷ routes) = listed a addrs || in_routes a routes

abbrev pub in_vhosts : Str → List (Str × VHostConfig) → Bool
in_vhosts a [] = false
in_vhosts a ((_, vhost) ∷ vhosts) = in_routes a vhost.routers || in_vhosts a vhosts

listed-concat : (a b : Str) (us : List Str) → listed a (us ++ b ∷ []) ≡ (listed a us || b == a)
unfolding listed
listed-concat a b [] = ground arith
listed-concat a b (u ∷ us) = ground (arith, listed-concat a b us)

listed-collect_addrs :
    (a : Str) (addrs us : List Str)
    → listed a (collect_addrs addrs us) ≡ (listed a us || listed a addrs)
unfolding collect_addrs
listed-collect_addrs a [] us = ground arith
listed-collect_addrs a (b ∷ addrs) us = ground (
  arith,
  listed-collect_addrs a addrs us,
  listed-collect_addrs a addrs (us ++ b ∷ []),
  listed-concat a b us,
  ==_iff b a,
)

listed-collect_routes :
    (a : Str) (routes : List (Str × List Str)) (us : List Str)
    → listed a (collect_routes routes us) ≡ (listed a us || in_routes a routes)
unfolding collect_routes
listed-collect_routes a [] us = ground arith
listed-collect_routes a ((_, addrs) ∷ routes) us = ground (
  arith,
  listed-collect_routes a routes (collect_addrs addrs us),
  listed-collect_addrs a addrs us,
)

listed-collect_vhosts :
    (a : Str) (vhosts : List (Str × VHostConfig)) (us : List Str)
    → listed a (collect_vhosts vhosts us) ≡ (listed a us || in_vhosts a vhosts)
unfolding collect_vhosts
listed-collect_vhosts a [] us = ground arith
listed-collect_vhosts a ((_, v) ∷ vhosts) us = ground (
  arith,
  listed-collect_vhosts a vhosts (collect_routes v.routers us),
  listed-collect_routes a v.routers us,
)

-- No address twice.
abbrev pub Unique : List Str → Type 0
Unique [] = Unit
Unique (a ∷ rest) = (listed a rest ≡ false) × Unique rest

Unique-concat : (us : List Str) (b : Str) → Unique us → listed b us ≡ false → Unique (us ++ b ∷ [])
unfolding listed
Unique-concat [] b u h = ground arith
Unique-concat (a ∷ us) b (fresh, u) h = (
  ground (arith, listed-concat a b us, ==_iff a b, ==_iff b a),
  Unique-concat us b u (ground arith),
)

collect_addrs-Unique : (addrs us : List Str) → Unique us → Unique (collect_addrs addrs us)
unfolding collect_addrs
collect_addrs-Unique [] us u = u
collect_addrs-Unique (b ∷ addrs) us u = elim (Bool-cases (listed b us)) [
  | inl old ↦ rw (old, collect_addrs) (collect_addrs-Unique addrs us u)
  | inr fresh ↦
      rw (fresh, collect_addrs)
        (collect_addrs-Unique addrs (us ++ b ∷ []) (Unique-concat us b u fresh))
]

collect_routes-Unique :
    (routes : List (Str × List Str)) (us : List Str) → Unique us → Unique (collect_routes routes us)
unfolding collect_routes
collect_routes-Unique [] us u = u
collect_routes-Unique ((_, addrs) ∷ routes) us u =
    collect_routes-Unique routes (collect_addrs addrs us) (collect_addrs-Unique addrs us u)

collect_vhosts-Unique :
    (vhosts : List (Str × VHostConfig)) (us : List Str)
    → Unique us
    → Unique (collect_vhosts vhosts us)
unfolding collect_vhosts
collect_vhosts-Unique [] us u = u
collect_vhosts-Unique ((_, v) ∷ vhosts) us u =
    collect_vhosts-Unique vhosts (collect_routes v.routers us)
      (collect_routes-Unique v.routers us u)

-- The checker's list holds exactly the upstreams of all routes of all hosts, each once.
pub upstreams_of_lem :
    (config : Config)
    → Unique (upstreams_of config)
      × ((a : Str) → listed a (upstreams_of config) ≡ in_vhosts a config.vhosts)
unfolding upstreams_of
upstreams_of_lem config = (
  collect_vhosts-Unique config.vhosts [] tt,
  λ a. ground (arith, listed-collect_vhosts a config.vhosts []),
)

module _ (D : DashMap Str Bool) where
  -- After a round an address that the checker lists is healthy exactly if its probe connected in
  -- time; any other keeps its status.
  pub is_healthy-check_round :
      (connect : Str → Option Bool) (upstreams : List Str) (h : HealthManager D) (a : Str)
      → is_healthy D a (check_round D connect upstreams h)
        ≡ (if listed a upstreams then probe_upstream connect a else is_healthy D a h)
  unfolding is_healthy check_round listed
  is_healthy-check_round connect [] h a = refl
  is_healthy-check_round connect (b ∷ us) h a =
      let ih =
        is_healthy-check_round connect us
          (record { statuses = D.insert h.statuses b (probe_upstream connect b) }) a in
      ground (arith, ih, D.get-insert h.statuses b (probe_upstream connect b) a, ==_iff b a)
