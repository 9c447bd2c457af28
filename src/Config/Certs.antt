-- ===== src/Config/Certs.antt =====
-- `CertResolver` and `Config::reload_certs` of src/config.rs. The lock of the cell is held for one
-- assignment or one lookup, so the cell is a value that is replaced whole.
pub mod Laws
use oxidized_wall.Base.{
  ok_or, Option, List, [], ◌∷◌, ip_eq, nat_eq, list_eq, Str, Result, ok, err, ◌>>=◌,
}
use oxidized_wall.Config.{VHostConfig}
use oxidized_wall.Config.Load.{Tls, Disk, LoadError, load_key, bad_domain}
use oxidized_wall.Dict.{HashMap}

module _ (T : Tls) where
  pub record CertResolver : Type 0 where
    pub inner : T.Resolver

  unfoldable pub new : T.Resolver → CertResolver
  new resolver = record { inner = resolver }

  unfoldable pub update : T.Resolver → CertResolver → CertResolver
  update resolver cell = record cell { inner = resolver }

  -- `resolve`, for the name that the client sends.
  unfoldable pub resolve : CertResolver → Str → Option T.CertifiedKey
  resolve cell name = T.resolve cell.inner name

  module _ (disk : Disk) where
    -- The loop over the hosts.
    unfoldable pub reload_vhosts :
        List (Str × VHostConfig) → T.Resolver → Result LoadError T.Resolver
    reload_vhosts [] new_resolver = ok new_resolver
    reload_vhosts ((domain, vhost) ∷ vhosts) new_resolver =
        load_key T disk vhost.cert_path vhost.key_path >>= λ key.
        ok_or (T.add new_resolver domain key) (bad_domain domain) >>= λ new_resolver'.
        reload_vhosts vhosts new_resolver'

    -- The cell after a reload, and its outcome.
    unfoldable pub reload_certs :
        HashMap Str VHostConfig → CertResolver → CertResolver × Result LoadError (Unit {0})
    unfolding reload_vhosts update
    reload_certs vhosts cell = elim (reload_vhosts vhosts T.new) [
      | ok new_resolver ↦ (update new_resolver cell, ok tt)
      | err e ↦ (cell, err e)
    ]
