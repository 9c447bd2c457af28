-- ===== src/Tests/Main.antt =====
-- The program started over a concrete disk and platform, and a reload.
use oxidized_wall.Base.{
  ◌-◌, ◌^◌, ℕ, ◌≤◌, ◌≡◌, refl, ◌==◌, Bool, true, false, none, some, List, [], ◌∷◌, arith, ip_eq,
  nat_eq, list_eq, IpAddr, Str, codes, if◌then◌else◌, ok, All, is_some,
}
use oxidized_wall.Ban
use oxidized_wall.Bandwidth
use oxidized_wall.Bandwidth.{TokenBucket}
use oxidized_wall.Config.Certs
use oxidized_wall.Config.Certs.{CertResolver, reload_certs}
use oxidized_wall.Config.Load.{Loaded, load}
use oxidized_wall.Config.Load.Names.{bears}
use oxidized_wall.Dict.{DashMap, list_map, insert}
use oxidized_wall.Health
use oxidized_wall.Main.{Platform, Running, start, ctrl_c}
use oxidized_wall.Main.Laws.{
  site_of, servers_of, Spell, start_lem, start-within_limit, start-comes_to_end, start-serves,
}
use oxidized_wall.Main.Watcher.{EventKind, Watched, Reload, reading, done, advance, Change, Changes}
use oxidized_wall.Proxy.{SocketAddr}
use oxidized_wall.RateLimit
use oxidized_wall.RateLimit.{RateState}
use oxidized_wall.Server.{Server, accepting, draining, Move}
use oxidized_wall.Server.Permits.{all_live}
use oxidized_wall.Server.Shutdown.{HasStopped}
use oxidized_wall.Server.System.{System, turn, cancel, Reach, here, next}
use oxidized_wall.Tests.Config.{tls, disk, loaded}
use oxidized_wall.Tests.Instances.{client, whole}

abbrev rates : DashMap IpAddr RateState
rates = list_map

abbrev buckets : DashMap IpAddr (TokenBucket whole)
buckets = list_map

abbrev statuses : DashMap Str Bool
statuses = list_map

abbrev socket : ℕ → SocketAddr
socket port = record { ip = client; port = port }

-- The two addresses of the configuration.
abbrev platform : Platform
platform = record {
  parse = λ s.
      if s == codes ":80"
      then some (socket 80)
      else (if s == codes ":443" then some (socket 443) else none);
  bind = λ _. true;
  max_permits = 2 ^ 61 - 1;
  recommended_watcher = ok tt;
  exists = λ path. path == codes "certs";
  watch = λ _. ok tt;
}

abbrev plain : Server
plain = record { tls = false; listening = accepting; conn_set = [] }

abbrev secure : Server
secure = record { tls = true; listening = accepting; conn_set = [] }

abbrev running : Running tls whole rates buckets statuses
running = record {
  loaded = loaded;
  rate_limiter = RateLimit.new rates;
  bandwidth_limiter = Bandwidth.new whole buckets;
  health_manager = Health.new statuses;
  system = record {
    site = record { permits = 100; cancelled = false; bans = Ban.new };
    servers = plain ∷ secure ∷ [];
  };
}

starts : start tls whole rates buckets statuses platform (disk (1 ∷ [])) ≡ some (ok running)
unfolding start load insert oxidized_wall.Config.Load.load_key
starts = refl

start_lem_example :
    (load tls (disk (1 ∷ [])) (codes "config.toml") ≡ ok running.loaded)
    × (running.system.site ≡ site_of tls whole rates buckets statuses platform running.loaded)
    × (http : List SocketAddr) × (https : List SocketAddr) × Spell platform
        running.loaded.config.network.http_addrs http
    × Spell platform running.loaded.config.network.https_addrs https
    × (running.system.servers ≡ servers_of tls whole rates buckets statuses platform http https)
start_lem_example =
    start_lem tls whole rates buckets statuses platform (disk (1 ∷ [])) running starts

-- The signal, and the end of the first server's loop.
abbrev told : System
told = ctrl_c running.system

abbrev half : System
half = record told { servers = record plain { listening = draining } ∷ secure ∷ [] }

to_half : Reach running.system half
unfolding ctrl_c
to_half = next (next here (cancel refl)) (
    turn [] (secure ∷ []) plain (record plain { listening = draining })
      (Move.stop refl refl refl refl) refl refl)

start-within_limit_example : all_live half.servers ≤ running.loaded.config.network.max_connections
start-within_limit_example =
    start-within_limit tls whole rates buckets statuses platform (disk (1 ∷ [])) running starts half
      to_half

start-comes_to_end_example : (z : System) × Reach (ctrl_c half) z × All HasStopped z.servers
start-comes_to_end_example =
    start-comes_to_end tls whole rates buckets statuses platform (disk (1 ∷ [])) running starts half
      to_half (omega arith)

-- A reload that has begun.
abbrev before_event : Watched tls
before_event = record { cert_resolver = Certs.new tls loaded.cert_resolver; tasks = [] }

abbrev reloading : Watched tls
reloading = record before_event { tasks = reading loaded.config.vhosts tls.new ∷ [] }

begins : Changes tls loaded.config.vhosts before_event reloading
unfolding oxidized_wall.Main.Watcher.on_event
begins = Changes.next Changes.here (Change.event (ok EventKind.modify) refl)

start-serves_example :
    is_some (Certs.resolve tls reloading.cert_resolver (codes "A.Example"))
    ≡ bears (codes "A.Example") loaded.config.vhosts
start-serves_example =
    start-serves tls whole rates buckets statuses platform (disk (1 ∷ [])) running starts reloading
      (codes "A.Example") begins
