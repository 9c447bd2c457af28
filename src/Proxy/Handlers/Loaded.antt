-- ===== src/Proxy/Handlers/Loaded.antt =====
-- From the configuration file to the upstream of a request.
use oxidized_wall.Base.{
  ℕ, ◌<◌, ◌≤◌, ◌≡◌, sym, ap, ◌∙◌, Bool, true, some, List, arith, ip_eq, nat_eq, list_eq, Str,
  opt_map, length, get_elem?, starts_with, utf8_len, ok,
}
use oxidized_wall.Config.Load.{Tls, Disk, Loaded, RawConfig, RawVHost, load, load_vhost}
use oxidized_wall.Config.Load.Laws.{last_vhost, load_parts}
use oxidized_wall.Config.Load.Routing.{
  prefix_of_In, best_match-load_vhost_iff, best_match-load_vhost,
}
use oxidized_wall.Dict.{get}
use oxidized_wall.Http.{Http}
use oxidized_wall.Proxy.{Parts, get_host}
use oxidized_wall.Proxy.Balance.{usize_mod}
use oxidized_wall.Proxy.Balance.Laws.{select_upstream_complete}
use oxidized_wall.Proxy.Handlers.{route}
use oxidized_wall.Proxy.Routes.Laws.{In}

module _ (H : Http) (is_healthy : Str → Bool) where
  -- One of the upstreams is healthy, and there are fewer of them than `usize` has numbers.
  abbrev pub HasHealthy : List Str → Type 0
  HasHealthy us =
      (length us < usize_mod)
      × ((k : ℕ) × (addr : Str) × (get_elem? us k ≡ some addr) × (is_healthy addr ≡ true))

  module _ (T : Tls) (disk : Disk) where
    get-load :
        (path content : Str) (l : Loaded T) (raw : RawConfig) (domain : Str) (rv : RawVHost)
        → load T disk path ≡ ok l
        → disk.read_to_string path ≡ some content
        → T.parse_config content ≡ some raw
        → last_vhost domain raw.vhosts ≡ some rv
        → get l.config.vhosts domain ≡ some (load_vhost rv)
    get-load path content l raw domain rv loads found parsed last =
        let (content', raw', found', parsed', a, b, c, d, hosts, key) =
          load_parts T disk path l domain domain loads in
        let same : content' ≡ content = ground (arith) in
        let parsed_same : T.parse_config content ≡ some raw' =
          ap T.parse_config (sym same) ∙ parsed' in
        let same_raw : raw' ≡ raw = ground (arith) in
        hosts
        ∙ ap (λ (r : RawConfig). opt_map load_vhost (last_vhost domain r.vhosts)) same_raw
        ∙ ap (opt_map load_vhost) last

    -- In a configuration as it was loaded, a request for a host of the file (the last of its domain,
    -- letter for letter) whose path begins with a path that the file gives the host is sent to a
    -- healthy upstream of a route of the host, whose path the request begins with too and is at
    -- least as long, if every route of the host has a healthy upstream and fewer upstreams than
    -- `usize` has numbers.
    pub route-load :
        (path content : Str) (l : Loaded T) (raw : RawConfig) (rv : RawVHost) (req : Parts H)
        (q : Str) (vs : List Str)
        → load T disk path ≡ ok l
        → disk.read_to_string path ≡ some content
        → T.parse_config content ≡ some raw
        → last_vhost (get_host H req.uri req.headers) raw.vhosts ≡ some rv
        → In (q, vs) rv.routers
        → starts_with (H.path req.uri) q ≡ true
        → ((p : Str) (us : List Str) → In (p, us) rv.routers → HasHealthy us)
        → (p : Str) × (us : List Str) × (a : Str) × In (p, us) rv.routers
          × (starts_with (H.path req.uri) p ≡ true)
          × (utf8_len q ≤ utf8_len p)
          × ((route H is_healthy l.config req).1 ≡ some a)
          × (is_healthy a ≡ true)
          × ((j : ℕ) × (get_elem? us j ≡ some a))
    unfolding route
    route-load path content l raw rv req q vs loads found parsed last m begins healthy =
        let known =
          get-load path content l raw (get_host H req.uri req.headers) rv loads found parsed last in
        let ((p, us, c), matched) =
          (best_match-load_vhost_iff (H.path req.uri) rv).1
            (prefix_of_In (H.path req.uri) q vs rv.routers m begins) in
        let (listed, matches, fresh, longest) =
          best_match-load_vhost (H.path req.uri) rv p q us vs c matched m begins in
        let (small, (k, addr, at, good)) = healthy p us listed in
        let (a, chosen, well, among) =
          select_upstream_complete is_healthy us c k addr (omega arith) at good in
        (p, us, a, listed, matches, longest, ground arith, well, among)
