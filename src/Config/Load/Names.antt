-- ===== src/Config/Load/Names.antt =====
-- The names that a loaded resolver answers.
use oxidized_wall.Base.{
  ok_or, ◌≡◌, refl, ap, inl, inr, List, [], ◌∷◌, arith, ◌==◌, ==_iff, ◌||◌, Bool, Bool-cases, ip_eq,
  nat_eq, list_eq, Str, >>=-eq-ok, ok, any, is_some, to_ascii_lowercase,
}
use oxidized_wall.Config.{VHostConfig}
use oxidized_wall.Config.Load.{
  RawVHost, Tls, Disk, Loaded, load, load_vhost, load_vhosts, unreadable, no_config,
}
use oxidized_wall.Config.Load.Laws.{load_vhosts-cons}
use oxidized_wall.Dict.{HashMap, insert}

-- A host whose domain a name means to TLS.
abbrev pub bears : Str → HashMap Str VHostConfig → Bool
bears name = any (λ (h : Str × VHostConfig). to_ascii_lowercase h.0 == to_ascii_lowercase name)

bears-insert :
    (name domain : Str) (vhost : VHostConfig) (vhosts : HashMap Str VHostConfig)
    → bears name (insert vhosts domain vhost)
      ≡ (to_ascii_lowercase domain == to_ascii_lowercase name) || bears name vhosts
unfolding insert
bears-insert name domain vhost [] = refl
bears-insert name domain vhost ((other, w) ∷ vhosts) = elim (Bool-cases (other == domain)) [
  | inl same ↦
      let lower : to_ascii_lowercase other ≡ to_ascii_lowercase domain =
        ap to_ascii_lowercase ((==_iff other domain).0 same) in
      rw (same, insert, lower)
        (ground (arith, Bool-cases (to_ascii_lowercase domain == to_ascii_lowercase name)))
  | inr differs ↦ rw (differs, insert) (ground (arith, bears-insert name domain vhost vhosts))
]

module _ (T : Tls) (disk : Disk) where
  bears-load_vhosts :
      (rvs : List RawVHost) (vhosts vhosts' : HashMap Str VHostConfig) (r r' : T.Resolver)
      (name : Str)
      → is_some (T.resolve r name) ≡ bears name vhosts
      → load_vhosts T disk rvs vhosts r ≡ ok (vhosts', r')
      → is_some (T.resolve r' name) ≡ bears name vhosts'
  unfolding load_vhosts
  bears-load_vhosts [] vhosts vhosts' r r' name h e = ground (arith)
  bears-load_vhosts (rv ∷ more) vhosts vhosts' r r' name h e =
      let (key, r1, read, added, rest) = load_vhosts-cons T disk rv more vhosts r e in
      bears-load_vhosts more (insert vhosts rv.domain (load_vhost rv)) vhosts' r1 r' name
        (ground (
          arith,
          bears-insert name rv.domain (load_vhost rv) vhosts,
          T.resolve-add r r1 rv.domain key name added,
        ))
        rest

  pub load-bears :
      (path : Str) (l : Loaded T) (name : Str)
      → load T disk path ≡ ok l
      → is_some (T.resolve l.cert_resolver name) ≡ bears name l.config.vhosts
  unfolding load
  load-bears path l name e =
      let (content, found, e1) =
        >>=-eq-ok (ok_or (disk.read_to_string path) (unreadable path)) _ e in
      let (raw, parsed, e2) = >>=-eq-ok (ok_or (T.parse_config content) no_config) _ e1 in
      let (out, built, e3) = >>=-eq-ok (load_vhosts T disk raw.vhosts [] T.new) _ e2 in
      let kept =
        bears-load_vhosts raw.vhosts [] out.0 T.new out.1 name (ground (arith, T.resolve-new name))
          built in
      ground (arith, kept)
