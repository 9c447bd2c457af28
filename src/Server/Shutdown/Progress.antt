-- ===== src/Server/Shutdown/Progress.antt =====
-- No deadlock after the shutdown signal.
use oxidized_wall.Base.{
  ℕ, zero, suc, ◌+◌, ◌≤◌, ◌<◌, ◌≡◌, refl, ap, ◌≢◌, ◌⊎◌, inl, inr, true, List, ◌∷◌, ◌++◌, arith,
  ip_eq, nat_eq, list_eq, All,
}
use oxidized_wall.Base.{total-append}
use oxidized_wall.Base.{
  ℕ, zero, suc, ◌+◌, ◌≤◌, ◌<◌, ◌≡◌, refl, ap, ◌≢◌, ◌⊎◌, inl, inr, true, List, ◌∷◌, ◌++◌, arith,
  ip_eq, nat_eq, list_eq, All,
}
use oxidized_wall.Server.{Server, stopped}
use oxidized_wall.Server.Permits.{live, all_live, holds, Step-permits}
use oxidized_wall.Server.Shutdown.{
  all_left, left, HasStopped, Found, find, total-eq-zero, holder_or_free, stopped_or_not,
  end_holder, go_on_freely, Quiet,
}
use oxidized_wall.Server.System.{System, Step, turn, Reach, here, next}

WorkDone : System → Type 0
WorkDone x =
    (y : System) × Step x y × (all_left y.servers < all_left x.servers) × (y.site.cancelled ≡ true)

system_of_server :
    (x : System) (before after : List Server) (s : Server)
    → x.servers ≡ before ++ s ∷ after
    → Quiet x.site s
    → WorkDone x
unfolding WorkDone
system_of_server x before after s e (site', s', m, less, c) = (
  record { site = site'; servers = before ++ s' ∷ after },
  turn before after s s' m e refl,
  omega (
    arith,
    ap all_left e,
    total-append left before (s ∷ after),
    total-append left before (s' ∷ after),
  ),
  c,
)

holder_in : (s : Server) → Found (λ stage. holds stage ≡ 1) s.conn_set ⊎ (live s ≡ 0)
holder_in s =
    elim (find (λ stage. holds stage ≡ 1) (λ stage. holds stage ≡ 0) holder_or_free s.conn_set) [
      | inl found ↦ inl found
      | inr all_free ↦ inr (total-eq-zero holds s.conn_set all_free)
    ]

-- Something is left to do, or all servers have stopped.
progress :
    (x : System)
    → x.site.cancelled ≡ true
    → 0 < x.site.permits + all_live x.servers
    → WorkDone x ⊎ All HasStopped x.servers
progress x c some_permit =
    elim (find (λ s. Found (λ stage. holds stage ≡ 1) s.conn_set) (λ s. live s ≡ 0) holder_in
      x.servers) [
        | inl (before, s, after, e, found) ↦
            inl (system_of_server x before after s e (end_holder x.site s c found))
        | inr all_free ↦
            let none_live = total-eq-zero live x.servers all_free in
            elim (find (λ s. s.listening ≢ stopped) HasStopped stopped_or_not x.servers) [
              | inr all_stopped ↦ inr all_stopped
              | inl (before, s, after, e, going) ↦ inl (
                  system_of_server x before after s e (
                    go_on_freely x.site s c (omega arith)
                      (omega
                        (arith, none_live, ap all_live e, total-append live before (s ∷ after)))
                      going))
            ]
      ]

Reach-cons : {x y z : System} → Step x y → Reach y z → Reach x z
Reach-cons st here = next here st
Reach-cons st (next r last) = next (Reach-cons st r) last

winds_down :
    (n : ℕ) (x : System)
    → all_left x.servers ≤ n
    → x.site.cancelled ≡ true
    → 0 < x.site.permits + all_live x.servers
    → (y : System) × Reach x y × All HasStopped y.servers
unfolding WorkDone
winds_down zero x few c some_permit = elim (progress x c some_permit) [
  | inr all_stopped ↦ (x, here, all_stopped)
  | inl (y, st, less, c') ↦ absurd (omega arith)
]
winds_down (suc n) x few c some_permit = elim (progress x c some_permit) [
  | inr all_stopped ↦ (x, here, all_stopped)
  | inl (y, st, less, c') ↦
      let (z, r, all_stopped) = winds_down n y (omega arith) c' (omega (arith, Step-permits st)) in
      (z, Reach-cons st r, all_stopped)
]

-- Once the shutdown signal has arrived, the servers never block one another: from any state with at
-- least one permit, free or held, some steps end all tasks and stop all servers, whatever the
-- servers were doing.
pub comes_to_end :
    (x : System)
    → x.site.cancelled ≡ true
    → 0 < x.site.permits + all_live x.servers
    → (y : System) × Reach x y × All HasStopped y.servers
comes_to_end x c some_permit = winds_down (all_left x.servers) x (omega arith) c some_permit
