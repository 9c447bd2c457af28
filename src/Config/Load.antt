-- ===== src/Config/Load.antt =====
-- `Config::load` of src/config.rs over the contents of the disk. The parsers of TOML and PEM and
-- rustls are the interface `Tls`.
pub mod Laws
pub mod Routing
pub mod Names
pub mod Content
use oxidized_wall.Base.{
  ok_or, ℕ, zero, suc, ◌+◌, ◌-◌, ◌*◌, ◌/◌, ◌%◌, ◌^◌, ◌≤◌, ◌<◌, String, ◌≡◌, refl, sym, ap, ◌∙◌, ◌≢◌,
  ◌↔◌, ◌⊎◌, inl, inr, Bool, true, false, not, ◌&&◌, ◌||◌, Option, none, some, List, [], ◌∷◌, ◌++◌,
  map, arith, Eq, ◌==◌, ==_iff, ==_refl, ip_eq, nat_eq, list_eq, IpAddr, Str, Bytes, codes,
  if◌then◌else◌, ltb, leb, nat_eqb, Bool-cases, Option-cases, zero-or-pos, opt_map, and_then,
  unwrap_or, or_else, is_err, is_some, head, is_empty, count_if, replicate, >>=-eq-ok, Result, ok,
  err, ◌>>=◌, ◌>>◌, length-append, starts_with-append, starts_with-split, lower_char, length,
  get_elem?, get_elem?-some, any, All, Instant, Duration, from_secs, duration_since, starts_with,
  contains, to_ascii_lowercase, is_control, as_bytes, encode_char, utf8_len, from_utf8_lossy,
}
use oxidized_wall.Config.{NetworkConfig, TimeoutConfig, LimitConfig, BanConfig, VHostConfig, Config}
use oxidized_wall.Dict.{HashMap, insert}
use oxidized_wall.Proxy.Routes.{sort_routes}

pub record RawVHost : Type 0 where
  pub domain : Str
  pub cert_path : Str
  pub key_path : Str
  pub routers : HashMap Str (List Str)

pub record RawConfig : Type 0 where
  pub network : NetworkConfig
  pub timeout : TimeoutConfig
  pub limit : LimitConfig
  pub ban : BanConfig
  pub vhosts : List RawVHost

-- Why a load or a reload fails.
pub data LoadError : Type 0 where
  unreadable : Str → LoadError
  no_config bad_certs bad_key no_private_key invalid_private_key : LoadError
  bad_domain : Str → LoadError

-- The libraries' parts: `toml::from_str`, `rustls_pemfile`, the signing keys of ring, and
-- `ResolvesServerCertUsingSni`, which compares names without regard to ASCII case and fails to add
-- a name that is none or that the certificate does not bear.
pub record Tls : Type 1 where
  pub parse_config : Str → Option RawConfig
  pub Certs : Type 0
  pub PrivateKey : Type 0
  pub CertifiedKey : Type 0
  pub certs : Bytes → Option Certs
  pub private_key : Bytes → Option (Option PrivateKey)
  pub certified : Certs → PrivateKey → Option CertifiedKey
  pub Resolver : Type 0
  pub new : Resolver
  pub add : Resolver → Str → CertifiedKey → Option Resolver
  pub resolve : Resolver → Str → Option CertifiedKey
  pub resolve-new : (name : Str) → resolve new name ≡ none
  pub resolve-add :
      (r r' : Resolver) (domain : Str) (k : CertifiedKey) (name : Str)
      → add r domain k ≡ some r'
      → resolve r' name
        ≡ (if to_ascii_lowercase domain == to_ascii_lowercase name then some k else resolve r name)

-- The disk: the files that can be read, and those that are text.
pub record Disk : Type 0 where
  pub read : Str → Option Bytes
  pub read_to_string : Str → Option Str

-- The loop over the routes of a host: the counters, and the routes before they are sorted.
unfoldable pub load_routers :
    HashMap Str (List Str)
    → HashMap Str ℕ
    → List (Str × List Str)
    → HashMap Str ℕ × List (Str × List Str)
load_routers [] routers_state routers = (routers_state, routers)
load_routers ((path, upstreams) ∷ more) routers_state routers =
    load_routers more (insert routers_state path 0) (routers ++ (path, upstreams) ∷ [])

unfoldable pub load_vhost : RawVHost → VHostConfig
unfolding load_routers
load_vhost rv =
    let (routers_state, routers) = load_routers rv.routers [] [] in
    record {
      cert_path = rv.cert_path;
      key_path = rv.key_path;
      routers = sort_routes routers;
      routers_state = routers_state;
    }

module _ (T : Tls) (disk : Disk) where
  -- The certificate and the key of a host, as both `load` and `reload_certs` read them.
  unfoldable pub load_key : Str → Str → Result LoadError T.CertifiedKey
  load_key cert_path key_path = do
    cert_bytes ← ok_or (disk.read cert_path) (unreadable cert_path)
    key_bytes ← ok_or (disk.read key_path) (unreadable key_path)
    certs ← ok_or (T.certs cert_bytes) bad_certs
    found ← ok_or (T.private_key key_bytes) bad_key
    private_key ← ok_or found no_private_key
    ok_or (T.certified certs private_key) invalid_private_key

  -- The loop over the hosts.
  unfoldable pub load_vhosts :
      List RawVHost
      → HashMap Str VHostConfig
      → T.Resolver
      → Result LoadError (HashMap Str VHostConfig × T.Resolver)
  load_vhosts [] vhosts resolver = ok (vhosts, resolver)
  load_vhosts (rv ∷ more) vhosts resolver = load_key rv.cert_path rv.key_path >>= λ key.
      ok_or (T.add resolver rv.domain key) (bad_domain rv.domain) >>= λ resolver'.
      load_vhosts more (insert vhosts rv.domain (load_vhost rv)) resolver'

-- A configuration with its TLS settings and the resolver in the cell of its `CertResolver`.
pub record Loaded (T : Tls) : Type 0 where
  pub config : Config
  pub alpn_protocols : List Bytes
  pub cert_resolver : T.Resolver

unfoldable pub load : (T : Tls) → Disk → Str → Result LoadError (Loaded T)
unfolding load_vhosts
load T disk path = do
  content ← ok_or (disk.read_to_string path) (unreadable path)
  raw ← ok_or (T.parse_config content) no_config
  (vhosts, resolver) ← load_vhosts T disk raw.vhosts [] T.new
  ok (record {
    config = record {
      network = raw.network;
      timeout = raw.timeout;
      limit = raw.limit;
      ban = raw.ban;
      vhosts = vhosts;
    };
    alpn_protocols = codes "h2" ∷ codes "http/1.1" ∷ [];
    cert_resolver = resolver;
  })
