-- ===== src/Main/Watcher.antt =====
-- The callback of the file watcher in src/main.rs and the tasks that it spawns, which interleave:
-- a task reads the files of one host at a step, at whatever contents the disk has then.
pub mod Laws
use oxidized_wall.Base.{
  ◌||◌, Option, none, some, List, [], ◌∷◌, ◌++◌, Bool, true, false, String, if◌then◌else◌, Result,
  ok, err, ip_eq, nat_eq, list_eq, Str, ◌≡◌,
}
use oxidized_wall.Config.{VHostConfig}
use oxidized_wall.Config.Certs.{CertResolver, update, reload_certs}
use oxidized_wall.Config.Load.{Tls, Disk, load_key}
use oxidized_wall.Dict.{HashMap}

-- `notify::EventKind`.
pub data EventKind : Type 0 where
  any access create modify remove other : EventKind

unfoldable pub is_change : EventKind → Bool
is_change modify = true
is_change create = true
is_change remove = true
is_change _ = false

module _ (T : Tls) where
  -- A task in `reload_certs`: the hosts that it has not read, and its new resolver; or its end.
  pub data Reload : Type 0 where
    reading : List (Str × VHostConfig) → T.Resolver → Reload
    done : Reload

  pub record Watched : Type 0 where
    pub cert_resolver : CertResolver T
    pub tasks : List Reload

  -- The callback.
  unfoldable pub on_event : HashMap Str VHostConfig → Result String EventKind → Watched → Watched
  unfolding is_change
  on_event vhosts (ok kind) w =
      if is_change kind then record w { tasks = reading vhosts T.new ∷ w.tasks } else w
  on_event vhosts (err e) w = w

  -- A step of a task, to its next host or, after the last, the exchange of the resolver.
  unfoldable pub advance : Disk → Reload → CertResolver T → Reload × CertResolver T
  unfolding load_key update
  advance disk (reading [] new_resolver) cell = (done, update T new_resolver cell)
  advance disk (reading ((domain, vhost) ∷ vhosts) new_resolver) cell =
      elim (load_key T disk vhost.cert_path vhost.key_path) [
        | err e ↦ (done, cell)
        | ok key ↦ elim (T.add new_resolver domain key) [
          | none ↦ (done, cell)
          | some new_resolver' ↦ (reading vhosts new_resolver', cell)
        ]
      ]
  advance disk done cell = (done, cell)

  -- A step of the whole: an event, or a step of a task with the disk as it is then.
  pub data Change (vhosts : HashMap Str VHostConfig) (x y : Watched) : Type 0 where
    event : (res : Result String EventKind) → y ≡ on_event vhosts res x → Change vhosts x y
    work :
        (disk : Disk) (before after : List Reload) (task : Reload)
        → x.tasks ≡ before ++ task ∷ after
        → y ≡ record {
          cert_resolver = (advance disk task x.cert_resolver).1;
          tasks = before ++ (advance disk task x.cert_resolver).0 ∷ after;
        }
        → Change vhosts x y

  pub data Changes (vhosts : HashMap Str VHostConfig) (x : Watched) : Watched → Type 0 where
    here : Changes vhosts x x
    next : {y z : Watched} → Changes vhosts x y → Change vhosts y z → Changes vhosts x z
