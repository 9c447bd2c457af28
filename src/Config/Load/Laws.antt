-- ===== src/Config/Load/Laws.antt =====
-- What a loaded configuration holds.
use oxidized_wall.Config.Load.{
  RawConfig, no_config, unreadable, Loaded, load, RawVHost, Tls, Disk, load_vhost, load_key,
  load_vhosts, ok_or, bad_domain,
}
use oxidized_wall.Dict.{get-nil, HashMap, get, insert, get-insert}
use oxidized_wall.Base.{
  ◌≡◌, Option, none, some, List, [], ◌∷◌, arith, ◌==◌, ip_eq, nat_eq, list_eq, Str, if◌then◌else◌,
  opt_map, or_else, >>=-eq-ok, Result, ok, err, to_ascii_lowercase,
}
use oxidized_wall.Config.{VHostConfig}

-- `Result::ok`.
abbrev pub ok_part {ℓ κ} : {E : Type ℓ} {A : Type κ} → Result E A → Option A
ok_part (ok a) = some a
ok_part (err e) = none

-- The last host of the domain, letter for letter.
abbrev pub last_vhost : Str → List RawVHost → Option RawVHost
last_vhost domain [] = none
last_vhost domain (rv ∷ more) =
    or_else (last_vhost domain more) (if rv.domain == domain then some rv else none)

pub ok_or-eq-ok {ℓ κ} :
    {E : Type ℓ} {A : Type κ} (o : Option A) (e : E) {a : A} → ok_or o e ≡ ok a → o ≡ some a
ok_or-eq-ok none e h = cc
ok_or-eq-ok (some a) e h = cc

module _ (T : Tls) (disk : Disk) where
  -- The certificate of the last host that a name means to TLS.
  abbrev pub last_key : Str → List RawVHost → Option T.CertifiedKey
  last_key name [] = none
  last_key name (rv ∷ more) = or_else (last_key name more) (
      if to_ascii_lowercase rv.domain == to_ascii_lowercase name
      then ok_part (load_key T disk rv.cert_path rv.key_path)
      else none)

  -- One round of the loop over the hosts.
  pub load_vhosts-cons :
      (rv : RawVHost) (more : List RawVHost) (vhosts : HashMap Str VHostConfig)
      (resolver : T.Resolver) {out : HashMap Str VHostConfig × T.Resolver}
      → load_vhosts T disk (rv ∷ more) vhosts resolver ≡ ok out
      → (key : T.CertifiedKey) × (resolver' : T.Resolver) × (load_key T disk rv.cert_path
            rv.key_path
          ≡ ok key)
        × (T.add resolver rv.domain key ≡ some resolver')
        × (load_vhosts T disk more (insert vhosts rv.domain (load_vhost rv)) resolver' ≡ ok out)
  unfolding load_vhosts
  load_vhosts-cons rv more vhosts resolver e =
      let (key, read, e1) = >>=-eq-ok (load_key T disk rv.cert_path rv.key_path) _ e in
      let (resolver', added, e2) =
        >>=-eq-ok (ok_or (T.add resolver rv.domain key) (bad_domain rv.domain)) _ e1 in
      (key, resolver', read, ok_or-eq-ok _ _ added, e2)

  get-load_vhosts :
      (rvs : List RawVHost) (vhosts vhosts' : HashMap Str VHostConfig) (r r' : T.Resolver)
      (domain : Str)
      → load_vhosts T disk rvs vhosts r ≡ ok (vhosts', r')
      → get vhosts' domain
        ≡ or_else (opt_map load_vhost (last_vhost domain rvs)) (get vhosts domain)
  unfolding load_vhosts
  get-load_vhosts [] vhosts vhosts' r r' domain e = ground arith
  get-load_vhosts (rv ∷ more) vhosts vhosts' r r' domain e =
      let (key, r1, read, added, rest) = load_vhosts-cons rv more vhosts r e in
      ground (
        arith,
        get-load_vhosts more (insert vhosts rv.domain (load_vhost rv)) vhosts' r1 r' domain rest,
        get-insert vhosts rv.domain (load_vhost rv) domain,
      )

  resolve-load_vhosts :
      (rvs : List RawVHost) (vhosts vhosts' : HashMap Str VHostConfig) (r r' : T.Resolver)
      (name : Str)
      → load_vhosts T disk rvs vhosts r ≡ ok (vhosts', r')
      → T.resolve r' name ≡ or_else (last_key name rvs) (T.resolve r name)
  unfolding load_vhosts
  resolve-load_vhosts [] vhosts vhosts' r r' name e = ground arith
  resolve-load_vhosts (rv ∷ more) vhosts vhosts' r r' name e =
      let (key, r1, read, added, rest) = load_vhosts-cons rv more vhosts r e in
      ground (
        arith,
        resolve-load_vhosts more (insert vhosts rv.domain (load_vhost rv)) vhosts' r1 r' name rest,
        T.resolve-add r r1 rv.domain key name added,
      )

  -- The parts of a load.
  pub load_parts :
      (path : Str) (l : Loaded T) (domain name : Str)
      → load T disk path ≡ ok l
      → (content : Str) × (raw : RawConfig) × (disk.read_to_string path ≡ some content)
        × (T.parse_config content ≡ some raw)
        × (l.config.network ≡ raw.network)
        × (l.config.timeout ≡ raw.timeout)
        × (l.config.limit ≡ raw.limit)
        × (l.config.ban ≡ raw.ban)
        × (get l.config.vhosts domain ≡ opt_map load_vhost (last_vhost domain raw.vhosts))
        × (T.resolve l.cert_resolver name ≡ last_key name raw.vhosts)
  unfolding load
  load_parts path l domain name e =
      let (content, found, e1) =
        >>=-eq-ok (ok_or (disk.read_to_string path) (unreadable path)) _ e in
      let (raw, parsed, e2) = >>=-eq-ok (ok_or (T.parse_config content) no_config) _ e1 in
      let (out, built, e3) = >>=-eq-ok (load_vhosts T disk raw.vhosts [] T.new) _ e2 in
      (
        content,
        raw,
        ok_or-eq-ok _ _ found,
        ok_or-eq-ok _ _ parsed,
        ground arith,
        ground arith,
        ground arith,
        ground arith,
        ground (
          arith,
          get-load_vhosts raw.vhosts [] out.0 T.new out.1 domain built,
          get-nil {V = VHostConfig} domain,
        ),
        ground (
          arith,
          resolve-load_vhosts raw.vhosts [] out.0 T.new out.1 name built,
          T.resolve-new name,
        ),
      )
