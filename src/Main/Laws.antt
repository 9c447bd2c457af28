-- ===== src/Main/Laws.antt =====
-- What runs after the start.
use oxidized_wall.Base.{ltb, Bool-cases}
use oxidized_wall.Base.{
  ◌≤◌, ◌<◌, ◌≡◌, refl, ap, sym, ◌∙◌, inl, inr, Bool, true, false, some, List, [], ◌∷◌, ◌++◌, map,
  arith, ip_eq, nat_eq, list_eq, IpAddr, Str, codes, Option-cases, Result-cases, ok, All,
  total-append, is_some,
}
use mathlib.Core.Path.{subst}
use mathlib.Core.List.{append_assoc, append-nil}
use oxidized_wall.Ban
use oxidized_wall.Bandwidth.{TokenBucket}
use oxidized_wall.Bandwidth.Float.{Float64}
use oxidized_wall.Config.Certs
use oxidized_wall.Config.Load.{Tls, Disk, Loaded, load}
use oxidized_wall.Config.Load.Names.{bears, load-bears}
use oxidized_wall.Dict.{DashMap}
use oxidized_wall.Main.{
  Platform, spawned, spawn_servers, watch_certs, Running, orchestrate, start, ctrl_c,
}
use oxidized_wall.Main.Watcher.{Watched, Changes}
use oxidized_wall.Main.Watcher.Laws.{Changes-IsSound}
use oxidized_wall.Proxy.{SocketAddr}
use oxidized_wall.RateLimit.{RateState}
use oxidized_wall.Server.{Site, Server}
use oxidized_wall.Server.Permits.{live, all_live, Reach-permits}
use oxidized_wall.Server.Shutdown.{HasStopped}
use oxidized_wall.Server.Shutdown.Progress.{comes_to_end}
use oxidized_wall.Server.System.{System, Reach}

-- The addresses that some texts spell.
abbrev pub Spell : Platform → List Str → List SocketAddr → Type 0
Spell P addrs sockets = map P.parse addrs ≡ map some sockets

spawn_servers_lem :
    (P : Platform) (tls : Bool) (addrs : List Str) (before servers : List Server)
    → spawn_servers P tls addrs before ≡ some servers
    → (sockets : List SocketAddr) × Spell P addrs sockets
      × (servers ≡ before ++ map (spawned P tls) sockets)
unfolding spawn_servers
spawn_servers_lem P tls [] before servers e =
    let same : servers ≡ before = ground arith in ([], refl, same ∙ sym (append-nil before))
spawn_servers_lem P tls (addr_str ∷ addrs) before servers e =
    elim (Option-cases (P.parse addr_str)) [
      | inl bad ↦ absurd (ground arith)
      | inr (addr, parses) ↦
          let (sockets, spell, all) =
            spawn_servers_lem P tls addrs (before ++ spawned P tls addr ∷ []) servers
              (ground arith) in
          (
            addr ∷ sockets,
            (λ i. parses i ∷ spell i),
            all ∙ append_assoc before (spawned P tls addr ∷ []) (map (spawned P tls) sockets),
          )
    ]

live-spawned :
    (P : Platform) (tls : Bool) (sockets : List SocketAddr)
    → all_live (map (spawned P tls) sockets) ≡ 0
unfolding spawned
live-spawned P tls [] = refl
live-spawned P tls (addr ∷ sockets) = omega (arith, live-spawned P tls sockets)

module _ (T : Tls) (R : Float64) (L : DashMap IpAddr RateState) (B : DashMap IpAddr (TokenBucket R))
    (S : DashMap Str Bool) (P : Platform) where
  -- The site at the start.
  abbrev pub site_of : Loaded T → Site
  site_of loaded = record {
    permits = loaded.config.network.max_connections;
    cancelled = false;
    bans = Ban.new;
  }

  -- The servers of a configuration, for the addresses of each kind.
  abbrev pub servers_of : List SocketAddr → List SocketAddr → List Server
  servers_of http https = map (spawned P false) http ++ map (spawned P true) https

  orchestrate_lem :
      (loaded : Loaded T) (r : Running T R L B S)
      → orchestrate T R L B S P loaded ≡ some (ok r)
      → (r.loaded ≡ loaded)
        × (r.system.site ≡ site_of loaded)
        × (http : List SocketAddr) × (https : List SocketAddr) × Spell P
            loaded.config.network.http_addrs http
        × Spell P loaded.config.network.https_addrs https
        × (r.system.servers ≡ servers_of http https)
  unfolding orchestrate
  orchestrate_lem loaded r e = elim (Result-cases (watch_certs P)) [
    | inl (error, fails) ↦ absurd (ground arith)
    | inr (done, watches) ↦
        elim (Bool-cases (ltb P.max_permits loaded.config.network.max_connections)) [
          | inl many ↦ absurd (ground arith)
          | inr few ↦
              elim (Option-cases (spawn_servers P false loaded.config.network.http_addrs [])) [
                | inl panics ↦ absurd (ground arith)
                | inr (plain, a) ↦
                    elim (Option-cases
                      (spawn_servers P true loaded.config.network.https_addrs plain)) [
                        | inl panics ↦ absurd (ground arith)
                        | inr (all, b) ↦
                            let (http, spell, one) = spawn_servers_lem P false _ [] plain a in
                            let (https, spell', two) = spawn_servers_lem P true _ plain all b in
                            let all_run : r.system.servers ≡ all = ground arith in
                            (
                              ground arith,
                              ground arith,
                              http,
                              https,
                              spell,
                              spell',
                              all_run
                                  ∙ two
                                  ∙ ap (λ servers. servers ++ map (spawned P true) https) one,
                            )
                      ]
              ]
        ]
  ]

  module _ (disk : Disk) (r : Running T R L B S) (e : start T R L B S P disk ≡ some (ok r)) where
    -- A program that starts runs with the configuration in `config.toml`, with as many permits as
    -- `max_connections`, with no ban, and with one server for each of its addresses, in their
    -- order, those for HTTP first; every address could be parsed.
    pub start_lem :
        (load T disk (codes "config.toml") ≡ ok r.loaded)
        × (r.system.site ≡ site_of r.loaded)
        × (http : List SocketAddr) × (https : List SocketAddr) × Spell P
            r.loaded.config.network.http_addrs http
        × Spell P r.loaded.config.network.https_addrs https
        × (r.system.servers ≡ servers_of http https)
    unfolding start
    start_lem = elim (Result-cases (load T disk (codes "config.toml"))) [
      | inl (error, fails) ↦ absurd (ground arith)
      | inr (loaded, loads) ↦
          let (same, site, http, https, a, b, all) =
            orchestrate_lem loaded r (sym (rw (loads, start) refl) ∙ e) in
          (
            loads ∙ ap ok (sym same),
            site ∙ ap site_of (sym same),
            http,
            https,
            subst (λ (l : Loaded T). Spell P l.config.network.http_addrs http) (sym same) a,
            subst (λ (l : Loaded T). Spell P l.config.network.https_addrs https) (sym same) b,
            all,
          )
    ]

    none_live : all_live r.system.servers ≡ 0
    none_live =
        let (loads, site, http, https, a, b, all) = start_lem in
        omega (
          arith,
          ap all_live all,
          total-append live (map (spawned P false) http) (map (spawned P true) https),
          live-spawned P false http,
          live-spawned P true https,
        )

    -- From the start of the program on, however its servers, the clients and the scheduler
    -- interleave, all servers together serve at most `max_connections` connections.
    pub start-within_limit :
        (y : System)
        → Reach r.system y
        → all_live y.servers ≤ r.loaded.config.network.max_connections
    start-within_limit y run =
        let site = start_lem.1 in
        omega (arith, none_live, Reach-permits run, ap (λ (s : Site). s.permits) site)

    -- Whatever has happened since the start, once the shutdown signal has arrived some steps lead
    -- to the end of all servers, if `max_connections` is not zero.
    pub start-comes_to_end :
        (y : System)
        → Reach r.system y
        → 0 < r.loaded.config.network.max_connections
        → (z : System) × Reach (ctrl_c y) z × All HasStopped z.servers
    unfolding ctrl_c
    start-comes_to_end y run some_permit =
        let site = start_lem.1 in
        comes_to_end (ctrl_c y) refl
          (omega (arith, none_live, Reach-permits run, ap (λ (s : Site). s.permits) site))

    -- From the start of the program on, whatever the watcher reports, however the reloads interleave
    -- and whatever they find on the disk, a name is answered with a certificate exactly if it is
    -- the domain of a configured host, up to the case of letters.
    pub start-serves :
        (w : Watched T) (name : Str)
        → Changes T r.loaded.config.vhosts
            (record { cert_resolver = Certs.new T r.loaded.cert_resolver; tasks = [] })
            w
        → is_some (Certs.resolve T w.cert_resolver name) ≡ bears name r.loaded.config.vhosts
    unfolding Certs.new Certs.resolve
    start-serves w name changes =
        let loads = start_lem.0 in
        (Changes-IsSound T r.loaded.config.vhosts changes
            ((λ name. load-bears T disk _ r.loaded name loads), tt)).0
          name
