-- ===== src/Tests/Config.antt =====
-- A configuration on a disk, loaded and reloaded.
use oxidized_wall.Config.{VHostConfig}
use oxidized_wall.Config.Load.Content.{IsLoaded, certificate_of, load_lem}
use oxidized_wall.Base.{◌⊎◌}
use oxidized_wall.Base.{
  ◌≡◌, refl, ap, ◌⊎◌, false, Option, none, some, List, [], ◌∷◌, arith, ◌==◌, ip_eq, nat_eq, list_eq,
  Str, Bytes, codes, if◌then◌else◌, ok, err, any, to_ascii_lowercase, utf8_len,
}
use oxidized_wall.Config.Certs
use oxidized_wall.Config.Certs.{CertResolver, reload_certs}
use oxidized_wall.Config.Certs.Laws.{current_key, is_unusable, reload_certs_lem}
use oxidized_wall.Config.Load.{
  RawVHost, RawConfig, LoadError, Tls, Disk, Loaded, load, load_vhost, load_vhosts,
}
use oxidized_wall.Config.Load.Laws.{last_vhost}
use oxidized_wall.Dict.{get, insert}
use oxidized_wall.Proxy.Routes.{best_match, sort_routes}
use oxidized_wall.Tests.Instances.{config}

abbrev pub host : RawVHost
host = record {
  domain = codes "a.example";
  cert_path = codes "a.pem";
  key_path = codes "a.key";
  routers = (codes "/", codes "10.0.0.1:80" ∷ []) ∷ (codes "/api", codes "10.0.0.2:80" ∷ []) ∷ [];
}

abbrev pub raw : RawConfig
raw = record {
  network = (config 3 60).network;
  timeout = (config 3 60).timeout;
  limit = (config 3 60).limit;
  ban = (config 3 60).ban;
  vhosts = host ∷ [];
}

pub record CertifiedKey : Type 0 where
  pub cert : Bytes
  pub key : Bytes

-- Certificates and keys are their bytes; a resolver is a list with the last name first.
abbrev pub find_key : List (Str × CertifiedKey) → Str → Option CertifiedKey
find_key [] name = none
find_key ((domain, k) ∷ r) name =
    if to_ascii_lowercase domain == to_ascii_lowercase name then some k else find_key r name

pub find_key-cons :
    (r r' : List (Str × CertifiedKey)) (domain : Str) (k : CertifiedKey) (name : Str)
    → some ((domain, k) ∷ r) ≡ some r'
    → find_key r' name
      ≡ (if to_ascii_lowercase domain == to_ascii_lowercase name then some k else find_key r name)
find_key-cons r r' domain k name e =
    let same : r' ≡ (domain, k) ∷ r = ground arith in ap (λ l. find_key l name) same

abbrev pub tls : Tls
tls = record {
  parse_config = λ content. if content == codes "ok" then some raw else none;
  Certs = Bytes;
  PrivateKey = Bytes;
  CertifiedKey = CertifiedKey;
  certs = λ b. some b;
  private_key = λ b. some (some b);
  certified = λ c k. some (record { cert = c; key = k });
  Resolver = List (Str × CertifiedKey);
  new = [];
  add = λ r domain k. some ((domain, k) ∷ r);
  resolve = find_key;
  resolve-new = λ name. refl;
  resolve-add = find_key-cons;
}

-- A disk with the two files of the host, in their version.
abbrev pub disk : Bytes → Disk
disk version = record {
  read = λ path.
      if path == codes "a.pem"
      then some version
      else (if path == codes "a.key" then some (0 ∷ version) else none);
  read_to_string = λ path. if path == codes "config.toml" then some (codes "ok") else none;
}

-- The result of the load.
abbrev pub loaded : Loaded tls
loaded = record {
  config = record {
    network = raw.network;
    timeout = raw.timeout;
    limit = raw.limit;
    ban = raw.ban;
    vhosts = (codes "a.example", load_vhost host) ∷ [];
  };
  alpn_protocols = codes "h2" ∷ codes "http/1.1" ∷ [];
  cert_resolver = (codes "a.example", record { cert = 1 ∷ []; key = 0 ∷ 1 ∷ [] }) ∷ [];
}

pub loads : load tls (disk (1 ∷ [])) (codes "config.toml") ≡ ok loaded
unfolding load insert oxidized_wall.Config.Load.load_key
loads = refl

load_lem_example :
    (content : Str) × (r : RawConfig) × ((disk (1 ∷ [])).read_to_string (codes "config.toml")
      ≡ some content)
    × (tls.parse_config content ≡ some r)
    × (loaded.config.network ≡ r.network)
    × (loaded.config.timeout ≡ r.timeout)
    × (loaded.config.limit ≡ r.limit)
    × (loaded.config.ban ≡ r.ban)
    × (((last_vhost (codes "a.example") r.vhosts ≡ none)
          × (get loaded.config.vhosts (codes "a.example") ≡ none))
        ⊎ ((rv : RawVHost) × (vhost : VHostConfig) × (last_vhost (codes "a.example") r.vhosts
              ≡ some rv)
            × (get loaded.config.vhosts (codes "a.example") ≡ some vhost)
            × IsLoaded rv vhost))
    × (tls.resolve loaded.cert_resolver (codes "A.example")
        ≡ certificate_of tls (disk (1 ∷ [])) (codes "A.example") r.vhosts)
load_lem_example =
    load_lem tls (disk (1 ∷ [])) (codes "config.toml") loaded (codes "a.example")
      (codes "A.example") loads

chosen :
    best_match (codes "/api/x") (load_vhost host).routers (load_vhost host).routers_state
    ≡ some (codes "/api", codes "10.0.0.2:80" ∷ [], 0)
unfolding best_match load_vhost sort_routes get insert utf8_len
chosen = refl

-- The cell after the load, and the disk with a renewed certificate.
abbrev pub cell : CertResolver tls
cell = record { inner = loaded.cert_resolver }

reload_certs_lem_example :
    (((reload_certs tls (disk (2 ∷ [])) loaded.config.vhosts cell).1 ≡ ok tt)
      × (any (is_unusable tls (disk (2 ∷ []))) loaded.config.vhosts ≡ false)
      × (Certs.resolve tls
            (reload_certs tls (disk (2 ∷ [])) loaded.config.vhosts cell).0
            (codes "a.example")
          ≡ current_key tls (disk (2 ∷ [])) (codes "a.example") loaded.config.vhosts))
    ⊎ ((e : LoadError) × ((reload_certs tls (disk (2 ∷ [])) loaded.config.vhosts cell).1 ≡ err e)
        × (Certs.resolve tls
              (reload_certs tls (disk (2 ∷ [])) loaded.config.vhosts cell).0
              (codes "a.example")
            ≡ Certs.resolve tls cell (codes "a.example")))
reload_certs_lem_example =
    reload_certs_lem tls (disk (2 ∷ [])) loaded.config.vhosts cell (codes "a.example")
