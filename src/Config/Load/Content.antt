-- ===== src/Config/Load/Content.antt =====
-- What a loaded configuration holds, in the terms of the file.
use oxidized_wall.Base.{
  ℕ, ◌≡◌, refl, sym, ap, ◌∙◌, ◌↔◌, ◌⊎◌, inl, inr, Option, none, some, List, [], ◌∷◌, arith, ◌==◌,
  ip_eq, nat_eq, list_eq, Str, if◌then◌else◌, opt_map, or_else, and_then, Option-cases, Result, ok,
  ok_or, ◌>>=◌, to_ascii_lowercase,
}
use mathlib.Core.Path.{subst}
use oxidized_wall.Config.{VHostConfig}
use oxidized_wall.Config.Load.{RawVHost, RawConfig, Tls, Disk, Loaded, load, load_vhost, load_key}
use oxidized_wall.Config.Load.Laws.{ok_part, last_vhost, last_key, load_parts}
use oxidized_wall.Config.Load.Routing.{has_path, get-load_routers, routers-load_vhost}
use oxidized_wall.Dict.{get, get-nil}
use oxidized_wall.Proxy.Routes.Laws.{In, IsSorted, sort_routes-IsSorted, In-sort_routes_iff}

-- A host as the file gives it: the same files and routes, the longest path first, and a counter at
-- zero for each path of the host and for no other.
abbrev pub IsLoaded : RawVHost → VHostConfig → Type 0
IsLoaded rv vhost =
    (vhost.cert_path ≡ rv.cert_path)
    × (vhost.key_path ≡ rv.key_path)
    × IsSorted vhost.routers
    × ((x : Str × List Str) → In x vhost.routers ↔ In x rv.routers)
    × ((q : Str) → get vhost.routers_state q ≡ (if has_path q rv.routers then some 0 else none))

load_vhost-IsLoaded : (rv : RawVHost) → IsLoaded rv (load_vhost rv)
unfolding load_vhost
load_vhost-IsLoaded rv = (
  refl,
  refl,
  subst IsSorted (sym (routers-load_vhost rv)) (sort_routes-IsSorted rv.routers),
  λ x.
      subst (λ (routes : List (Str × List Str)). In x routes ↔ In x rv.routers)
        (sym (routers-load_vhost rv)) (In-sort_routes_iff x rv.routers),
  λ q. ground (arith, get-load_routers rv.routers [] [] q, get-nil {V = ℕ} q),
)

ok_part-bind {ℓ κ μ} :
    {E : Type ℓ} {A : Type κ} {B : Type μ} (o : Option A) (e : E) (f : A → Result E B)
    (g : A → Option B)
    → ((a : A) → ok_part (f a) ≡ g a)
    → ok_part (ok_or o e >>= f) ≡ and_then o g
ok_part-bind none e f g same = refl
ok_part-bind (some a) e f g same = same a

ok_part-ok_or {ℓ κ} : {E : Type ℓ} {A : Type κ} (o : Option A) (e : E) → ok_part (ok_or o e) ≡ o
ok_part-ok_or none e = refl
ok_part-ok_or (some a) e = refl

module _ (T : Tls) (disk : Disk) where
  -- The certificate that the two files of a host hold, if both can be read and used.
  abbrev pub certificate : RawVHost → Option T.CertifiedKey
  certificate rv = and_then (disk.read rv.cert_path) λ cert_bytes.
      and_then (disk.read rv.key_path) λ key_bytes. and_then (T.certs cert_bytes) λ certs.
        and_then (T.private_key key_bytes)
          λ found. and_then found λ private_key. T.certified certs private_key

  -- The certificate of the last host that a name means to TLS.
  abbrev pub certificate_of : Str → List RawVHost → Option T.CertifiedKey
  certificate_of name [] = none
  certificate_of name (rv ∷ more) =
      or_else (certificate_of name more)
        (if to_ascii_lowercase rv.domain == to_ascii_lowercase name then certificate rv else none)

  certificate-load_key :
      (rv : RawVHost) → ok_part (load_key T disk rv.cert_path rv.key_path) ≡ certificate rv
  unfolding load_key
  certificate-load_key rv = ok_part-bind (disk.read rv.cert_path) _ _ _ λ cert_bytes.
      ok_part-bind (disk.read rv.key_path) _ _ _ λ key_bytes.
        ok_part-bind (T.certs cert_bytes) _ _ _ λ certs.
          ok_part-bind (T.private_key key_bytes) _ _ _ λ found.
            ok_part-bind found _ _ _ λ private_key. ok_part-ok_or (T.certified certs private_key) _

  last_key-eq-certificate_of :
      (name : Str) (rvs : List RawVHost) → last_key T disk name rvs ≡ certificate_of name rvs
  last_key-eq-certificate_of name [] = refl
  last_key-eq-certificate_of name (rv ∷ more) =
      rw (last_key-eq-certificate_of name more, certificate-load_key rv) refl

  -- A configuration that loads has the sections of the file. For each domain it has the last host
  -- of that domain, with its routes, the longest path first, and a counter at zero for each of its
  -- paths, and no other hosts; and for each name that a client may send, its resolver gives the
  -- certificate of the last host of that name, if any, whatever the cases of the letters.
  pub load_lem :
      (path : Str) (l : Loaded T) (domain name : Str)
      → load T disk path ≡ ok l
      → (content : Str) × (raw : RawConfig) × (disk.read_to_string path ≡ some content)
        × (T.parse_config content ≡ some raw)
        × (l.config.network ≡ raw.network)
        × (l.config.timeout ≡ raw.timeout)
        × (l.config.limit ≡ raw.limit)
        × (l.config.ban ≡ raw.ban)
        × (((last_vhost domain raw.vhosts ≡ none) × (get l.config.vhosts domain ≡ none))
            ⊎ ((rv : RawVHost) × (vhost : VHostConfig) × (last_vhost domain raw.vhosts ≡ some rv)
                × (get l.config.vhosts domain ≡ some vhost)
                × IsLoaded rv vhost))
        × (T.resolve l.cert_resolver name ≡ certificate_of name raw.vhosts)
  load_lem path l domain name e =
      let (content, raw, found, parsed, a, b, c, d, hosts, key) =
        load_parts T disk path l domain name e in
      (
        content,
        raw,
        found,
        parsed,
        a,
        b,
        c,
        d,
        elim (Option-cases (last_vhost domain raw.vhosts)) [
          | inl absent ↦ inl (absent, hosts ∙ ap (opt_map load_vhost) absent)
          | inr (rv, last) ↦ inr (
            rv,
            load_vhost rv,
            last,
            hosts ∙ ap (opt_map load_vhost) last,
            load_vhost-IsLoaded rv,
          )
        ],
        key ∙ last_key-eq-certificate_of name raw.vhosts,
      )
