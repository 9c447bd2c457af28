-- ===== src/Health.antt =====
-- src/health.rs: the last known status of each upstream. A TCP probe is the argument `connect`: the
-- outcome of connecting within two seconds.
pub mod Laws
use oxidized_wall.Base.{
  Bool, true, false, ◌||◌, Option, List, [], ◌∷◌, ◌++◌, ◌==◌, ip_eq, nat_eq, list_eq, Str,
  if◌then◌else◌, unwrap_or,
}
use oxidized_wall.Config.{Config, VHostConfig}
use oxidized_wall.Dict.{DashMap}

-- `Vec::contains`.
unfoldable pub listed : Str → List Str → Bool
listed addr [] = false
listed addr (a ∷ rest) = a == addr || listed addr rest

-- The loop that collects the upstreams: one of the addresses of a route.
unfoldable pub collect_addrs : List Str → List Str → List Str
unfolding listed
collect_addrs [] upstreams = upstreams
collect_addrs (addr ∷ addrs) upstreams =
    collect_addrs addrs (if listed addr upstreams then upstreams else upstreams ++ addr ∷ [])

unfoldable pub collect_routes : List (Str × List Str) → List Str → List Str
unfolding collect_addrs
collect_routes [] upstreams = upstreams
collect_routes ((_, addrs) ∷ routes) upstreams =
    collect_routes routes (collect_addrs addrs upstreams)

unfoldable pub collect_vhosts : List (Str × VHostConfig) → List Str → List Str
unfolding collect_routes
collect_vhosts [] upstreams = upstreams
collect_vhosts ((_, vhost) ∷ vhosts) upstreams =
    collect_vhosts vhosts (collect_routes vhost.routers upstreams)

unfoldable pub upstreams_of : Config → List Str
unfolding collect_vhosts
upstreams_of config = collect_vhosts config.vhosts []

-- `probe_upstream`: the connection attempt's outcome, `none` where two seconds passed first.
unfoldable pub probe_upstream : (Str → Option Bool) → Str → Bool
probe_upstream connect addr = unwrap_or (connect addr) false

module _ (D : DashMap Str Bool) where
  pub record HealthManager : Type 0 where
    pub statuses : D.Map

  unfoldable pub new : HealthManager
  new = record { statuses = D.new }

  -- An address that was never probed counts as healthy.
  unfoldable pub is_healthy : Str → HealthManager → Bool
  is_healthy addr h = unwrap_or (D.get h.statuses addr) true

  -- One round of the checker's loop.
  unfoldable pub check_round : (Str → Option Bool) → List Str → HealthManager → HealthManager
  unfolding probe_upstream
  check_round connect [] h = h
  check_round connect (addr ∷ upstreams) h =
      check_round connect upstreams
        (record { statuses = D.insert h.statuses addr (probe_upstream connect addr) })
