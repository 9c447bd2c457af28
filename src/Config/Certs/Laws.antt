-- ===== src/Config/Certs/Laws.antt =====
-- What is served after a reload.
use oxidized_wall.Base.{
  ok_or, ◌≡◌, refl, ◌⊎◌, inl, inr, Bool, false, Option, none, some, List, [], ◌∷◌, arith, ◌==◌,
  ip_eq, nat_eq, list_eq, Str, if◌then◌else◌, or_else, is_err, >>=-eq-ok, Result, ok, err, any,
  to_ascii_lowercase,
}
use oxidized_wall.Config.{VHostConfig}
use oxidized_wall.Config.Load.{Tls, Disk, LoadError, load_key, bad_domain}
use oxidized_wall.Config.Load.Laws.{ok_part, ok_or-eq-ok}
use oxidized_wall.Config.Certs.{CertResolver, resolve, reload_vhosts, reload_certs}
use oxidized_wall.Dict.{HashMap}

module _ (T : Tls) (disk : Disk) where
  -- The certificate of the last host that a name means.
  abbrev pub current_key : Str → List (Str × VHostConfig) → Option T.CertifiedKey
  current_key name [] = none
  current_key name ((domain, vhost) ∷ vhosts) = or_else (current_key name vhosts) (
      if to_ascii_lowercase domain == to_ascii_lowercase name
      then ok_part (load_key T disk vhost.cert_path vhost.key_path)
      else none)

  -- A host whose certificate or key cannot be used.
  abbrev pub is_unusable : Str × VHostConfig → Bool
  is_unusable (domain, vhost) = is_err (load_key T disk vhost.cert_path vhost.key_path)

  reload_vhosts-cons :
      (domain : Str) (vhost : VHostConfig) (vhosts : List (Str × VHostConfig)) (r r' : T.Resolver)
      → reload_vhosts T disk ((domain, vhost) ∷ vhosts) r ≡ ok r'
      → (key : T.CertifiedKey) × (r1 : T.Resolver) × (load_key T disk vhost.cert_path vhost.key_path
          ≡ ok key)
        × (T.add r domain key ≡ some r1)
        × (reload_vhosts T disk vhosts r1 ≡ ok r')
  unfolding reload_vhosts
  reload_vhosts-cons domain vhost vhosts r r' e =
      let (key, read, e1) = >>=-eq-ok (load_key T disk vhost.cert_path vhost.key_path) _ e in
      let (r1, added, e2) = >>=-eq-ok (ok_or (T.add r domain key) (bad_domain domain)) _ e1 in
      (key, r1, read, ok_or-eq-ok _ _ added, e2)

  resolve-reload_vhosts :
      (vhosts : List (Str × VHostConfig)) (r r' : T.Resolver) (name : Str)
      → reload_vhosts T disk vhosts r ≡ ok r'
      → T.resolve r' name ≡ or_else (current_key name vhosts) (T.resolve r name)
  unfolding reload_vhosts
  resolve-reload_vhosts [] r r' name e = ground arith
  resolve-reload_vhosts ((domain, vhost) ∷ vhosts) r r' name e =
      let (key, r1, read, added, rest) = reload_vhosts-cons domain vhost vhosts r r' e in
      ground (
        arith,
        resolve-reload_vhosts vhosts r1 r' name rest,
        T.resolve-add r r1 domain key name added,
      )

  reload_vhosts-usable :
      (vhosts : List (Str × VHostConfig)) (r r' : T.Resolver)
      → reload_vhosts T disk vhosts r ≡ ok r'
      → any is_unusable vhosts ≡ false
  unfolding reload_vhosts
  reload_vhosts-usable [] r r' e = refl
  reload_vhosts-usable ((domain, vhost) ∷ vhosts) r r' e =
      let (key, r1, read, added, rest) = reload_vhosts-cons domain vhost vhosts r r' e in
      ground (arith, reload_vhosts-usable vhosts r1 r' rest)

  -- A reload is all or nothing: if it reports an error, every name is answered as before; if it
  -- succeeds, the files of all hosts were usable, and each name gets the certificate that the files
  -- of the last host of that name hold now, and none if there is no such host.
  pub reload_certs_lem :
      (vhosts : HashMap Str VHostConfig) (cell : CertResolver T) (name : Str)
      → (((reload_certs T disk vhosts cell).1 ≡ ok tt)
          × (any is_unusable vhosts ≡ false)
          × (resolve T (reload_certs T disk vhosts cell).0 name ≡ current_key name vhosts))
        ⊎ ((e : LoadError) × ((reload_certs T disk vhosts cell).1 ≡ err e)
            × (resolve T (reload_certs T disk vhosts cell).0 name ≡ resolve T cell name))
  unfolding reload_certs resolve
  reload_certs_lem vhosts cell name = after (reload_vhosts T disk vhosts T.new) refl
    where
      after :
          (out : Result LoadError T.Resolver)
          → reload_vhosts T disk vhosts T.new ≡ out
          → (((reload_certs T disk vhosts cell).1 ≡ ok tt)
              × (any is_unusable vhosts ≡ false)
              × (resolve T (reload_certs T disk vhosts cell).0 name ≡ current_key name vhosts))
            ⊎ ((e : LoadError) × ((reload_certs T disk vhosts cell).1 ≡ err e)
                × (resolve T (reload_certs T disk vhosts cell).0 name ≡ resolve T cell name))
      after (err e) failed = inr (e, rw (failed, reload_certs) refl, rw (failed, reload_certs) refl)
      after (ok r) built = inl (
        rw (built, reload_certs) refl,
        reload_vhosts-usable vhosts T.new r built,
        ground (arith, resolve-reload_vhosts vhosts T.new r name built, T.resolve-new name),
      )
