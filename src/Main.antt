-- ===== src/Main.antt =====
-- `main` of src/main.rs: the start of the program, up to the point where the servers run, and its
-- end. `none` is a panic.
pub mod Laws
pub mod Watcher
use oxidized_wall.Base.{ℕ, ltb}
use oxidized_wall.Base.{
  Option, none, some, List, [], ◌∷◌, ◌++◌, Bool, true, false, String, if◌then◌else◌, Result, ok,
  err, ip_eq, nat_eq, list_eq, IpAddr, Str, codes, opt_map, and_then, ◌>>=◌, ◌≡◌,
}
use oxidized_wall.Ban
use oxidized_wall.Bandwidth
use oxidized_wall.Bandwidth.{TokenBucket, BandwidthLimiter}
use oxidized_wall.Bandwidth.Float.{Float64}
use oxidized_wall.Config.Load.{Tls, Disk, LoadError, Loaded, load}
use oxidized_wall.Dict.{DashMap}
use oxidized_wall.Health
use oxidized_wall.Health.{HealthManager}
use oxidized_wall.Proxy.{SocketAddr}
use oxidized_wall.RateLimit
use oxidized_wall.RateLimit.{RateState, RateLimiter}
use oxidized_wall.Server.{Server, accepting, stopped}
use oxidized_wall.Server.System.{System}

-- What `main` takes from its surroundings: the parser of socket addresses, the addresses that can
-- be bound, the number of permits above which `Semaphore::new` panics, the watcher, whether `certs` exists, and the outcome of watching it.
pub record Platform : Type 0 where
  pub parse : Str → Option SocketAddr
  pub bind : SocketAddr → Bool
  pub max_permits : ℕ
  pub recommended_watcher : Result String (Unit {0})
  pub exists : Str → Bool
  pub watch : Str → Result String (Unit {0})

-- The errors that `main` returns.
pub data Error : Type 0 where
  load_failed : LoadError → Error
  notify : String → Error

-- A server when it has tried to bind: where that fails its task ends with a panic.
unfoldable pub spawned : Platform → Bool → SocketAddr → Server
spawned P tls addr = record {
  tls = tls;
  listening = if P.bind addr then accepting else stopped;
  conn_set = [];
}

-- The loop over the addresses of one kind.
unfoldable pub spawn_servers : Platform → Bool → List Str → List Server → Option (List Server)
unfolding spawned
spawn_servers P tls [] server_set = some server_set
spawn_servers P tls (addr_str ∷ addrs) server_set = elim (P.parse addr_str) [
  | none ↦ none
  | some addr ↦ spawn_servers P tls addrs (server_set ++ spawned P tls addr ∷ [])
]

-- The watcher and the directory that it watches.
unfoldable pub watch_certs : Platform → Result Error (Unit {0})
watch_certs P = elim P.recommended_watcher [
  | err e ↦ err (notify e)
  | ok _ ↦
      if P.exists (codes "certs")
      then (elim (P.watch (codes "certs")) [ err e ↦ err (notify e) | ok _ ↦ ok tt ])
      else ok tt
]

module _ (T : Tls) (R : Float64) (L : DashMap IpAddr RateState) (B : DashMap IpAddr (TokenBucket R))
    (S : DashMap Str Bool) where
  -- What runs once the servers are spawned; the list of bans stands in the system.
  pub record Running : Type 0 where
    pub loaded : Loaded T
    pub rate_limiter : RateLimiter L
    pub bandwidth_limiter : BandwidthLimiter R B
    pub health_manager : HealthManager S
    pub system : System

  -- Steps 4 to 9, with the configuration.
  unfoldable pub orchestrate : Platform → Loaded T → Option (Result Error Running)
  unfolding watch_certs spawn_servers
  orchestrate P loaded = elim (watch_certs P) [
    | err e ↦ some (err e)
    | ok _ ↦
        let network = loaded.config.network in
        if ltb P.max_permits network.max_connections
        then none
        else opt_map
            (λ server_set. ok (record {
              loaded = loaded;
              rate_limiter = RateLimit.new L;
              bandwidth_limiter = Bandwidth.new R B;
              health_manager = Health.new S;
              system = record {
                site = record {
                  permits = network.max_connections;
                  cancelled = false;
                  bans = Ban.new;
                };
                servers = server_set;
              };
            }))
            (and_then (spawn_servers P false network.http_addrs [])
              (spawn_servers P true network.https_addrs))
  ]

  -- Steps 1 to 9.
  unfoldable pub start : Platform → Disk → Option (Result Error Running)
  unfolding orchestrate
  start P disk = elim (load T disk (codes "config.toml")) [
    | err e ↦ some (err (load_failed e))
    | ok loaded ↦ orchestrate P loaded
  ]

-- The shutdown signal; an error in waiting for it counts as one.
unfoldable pub ctrl_c : System → System
ctrl_c system = record system { site = record system.site { cancelled = true } }
