-- ===== src/Main/Watcher/Laws.antt =====
-- What is served while certificates are reloaded.
use oxidized_wall.Base.{
  All-middle, Result-cases, suc, zero, ℕ, ◌≡◌, refl, ap, sym, ◌∙◌, inl, inr, List, [], ◌∷◌, arith,
  ◌||◌, ip_eq, nat_eq, list_eq, Str, Result, ok, err, All, length, is_some, Option-cases,
  Bool-cases,
}
use mathlib.Core.Path.{subst}
use oxidized_wall.Config.{VHostConfig}
use oxidized_wall.Config.Certs.{CertResolver, resolve, update, reload_vhosts, reload_certs}
use oxidized_wall.Config.Load.{Tls, Disk, LoadError, load_key}
use oxidized_wall.Config.Load.Names.{bears}
use oxidized_wall.Dict.{HashMap}
use oxidized_wall.Main.Watcher.{
  is_change, Reload, reading, done, Watched, on_event, advance, Change, event, work, Changes, here,
  next,
}

module _ (T : Tls) where
  abbrev pub run : ℕ → Disk → Reload T × CertResolver T → Reload T × CertResolver T
  run zero disk state = state
  run (suc n) disk state = run n disk (advance T disk state.0 state.1)

  run_done : (n : ℕ) (disk : Disk) (cell : CertResolver T) → run n disk (done, cell) ≡ (done, cell)
  unfolding advance
  run_done zero disk cell = refl
  run_done (suc n) disk cell = run_done n disk cell

  -- What a task makes of the cell.
  abbrev settled : Result LoadError T.Resolver → CertResolver T → CertResolver T
  settled (ok r) cell = update T r cell
  settled (err e) cell = cell

  run_reading :
      (disk : Disk) (hosts : List (Str × VHostConfig)) (r : T.Resolver) (cell : CertResolver T)
      → run (suc (length hosts)) disk (reading hosts r, cell)
        ≡ (done, settled (reload_vhosts T disk hosts r) cell)
  unfolding advance reload_vhosts
  run_reading disk [] r cell = refl
  run_reading disk ((domain, vhost) ∷ hosts) r cell =
      let step = advance T disk (reading ((domain, vhost) ∷ hosts) r) cell in
      let go = run (suc (length hosts)) disk in
      elim (Result-cases (load_key T disk vhost.cert_path vhost.key_path)) [
        | inl (e, fails) ↦
            let stops : step ≡ (done, cell) = rw (fails, advance) refl in
            ap go stops ∙ run_done (suc (length hosts)) disk cell ∙ rw (fails, reload_vhosts) refl
        | inr (key, reads) ↦ elim (Option-cases (T.add r domain key)) [
          | inl refused ↦
              let stops : step ≡ (done, cell) = rw (reads, refused, advance) refl in
              ap go stops
              ∙ run_done (suc (length hosts)) disk cell
              ∙ rw (reads, refused, reload_vhosts) refl
          | inr (r', added) ↦
              let goes_on : step ≡ (reading hosts r', cell) = rw (reads, added, advance) refl in
              ap go goes_on ∙ run_reading disk hosts r' cell ∙ rw (reads, added, reload_vhosts) refl
        ]
      ]

  -- A task that is not disturbed, over files that do not change, does what `reload_certs` does: it
  -- ends after one step for each host and one more, with the same cell.
  pub run-reload_certs :
      (disk : Disk) (vhosts : HashMap Str VHostConfig) (cell : CertResolver T)
      → run (suc (length vhosts)) disk (reading vhosts T.new, cell)
        ≡ (done, (reload_certs T disk vhosts cell).0)
  unfolding reload_certs
  run-reload_certs disk vhosts cell = elim (Result-cases (reload_vhosts T disk vhosts T.new)) [
    | inl (e, fails) ↦ run_reading disk vhosts T.new cell ∙ rw (fails, reload_certs) refl
    | inr (r, builds) ↦ run_reading disk vhosts T.new cell ∙ rw (builds, reload_certs) refl
  ]

  module _ (vhosts : HashMap Str VHostConfig) where
    -- Exactly the names of the hosts get a certificate.
    abbrev pub Serves : CertResolver T → Type 0
    Serves cell = (name : Str) → is_some (resolve T cell name) ≡ bears name vhosts

    -- The new resolver of a task and the hosts that are left to it make up all hosts.
    abbrev pub IsOnTrack : Reload T → Type 0
    IsOnTrack done = Unit
    IsOnTrack (reading hosts r) =
        (name : Str) → (is_some (T.resolve r name) || bears name hosts) ≡ bears name vhosts

    advance-Serves :
        (disk : Disk) (task : Reload T) (cell : CertResolver T)
        → IsOnTrack task
        → Serves cell
        → IsOnTrack (advance T disk task cell).0 × Serves (advance T disk task cell).1
    unfolding advance update resolve
    advance-Serves disk done cell on_track served = (tt, served)
    advance-Serves disk (reading [] r) cell on_track served =
        (tt, λ name. ground (arith, on_track name))
    advance-Serves disk (reading ((domain, vhost) ∷ hosts) r) cell on_track served =
        elim (Result-cases (load_key T disk vhost.cert_path vhost.key_path)) [
          | inl (e, fails) ↦ rw (fails, advance) (tt, served)
          | inr (key, reads) ↦ elim (Option-cases (T.add r domain key)) [
            | inl refused ↦ rw (reads, refused, advance) (tt, served)
            | inr (r', added) ↦
                rw (reads, added, advance)
                  (
                    (λ name.
                        ground (arith, on_track name, T.resolve-add r r' domain key name added)),
                    served,
                  )
          ]
        ]

    -- The cell serves, and all tasks are on track.
    abbrev pub IsSound : Watched T → Type 0
    IsSound w = Serves w.cert_resolver × All IsOnTrack w.tasks

    Change-IsSound : {x y : Watched T} → Change T vhosts x y → IsSound x → IsSound y
    unfolding on_event
    Change-IsSound (event (err e) eq) h = subst IsSound (sym eq) h
    Change-IsSound {x} (event (ok kind) eq) (served, on_track) =
        elim (Bool-cases (is_change kind)) [
          | inl changed ↦ subst IsSound (sym eq) (
              rw (changed, on_event)
                (served, ((λ name. ground (arith, T.resolve-new name)), on_track)))
          | inr other ↦ subst IsSound (sym eq) (rw (other, on_event) (served, on_track))
        ]
    Change-IsSound {x} (work disk before after task e eq) (served, on_track) =
        let (this, replace) =
          All-middle IsOnTrack before after task (subst (All IsOnTrack) e on_track) in
        let (this', served') = advance-Serves disk task x.cert_resolver this served in
        subst IsSound (sym eq) (served', replace _ this')

    pub Changes-IsSound : {x y : Watched T} → Changes T vhosts x y → IsSound x → IsSound y
    Changes-IsSound here h = h
    Changes-IsSound (next r c) h = Change-IsSound c (Changes-IsSound r h)
