-- ===== src/Ban/History.antt =====
-- The ban list over any sequence of calls, against a record of the bans alone.
use oxidized_wall.Dict.{get-insert}
use oxidized_wall.Ban.Laws.{cleanup-is_banned, check-is_banned}
use oxidized_wall.Ban.Spec.{is_banned}
use oxidized_wall.Base.{
  sym, ap, inr, inl, ◌∙◌, Option-cases, arith, refl, All, ◌≡◌, ◌<◌, ◌+◌, Bool, Option, some, List,
  [], ◌∷◌, IpAddr, ip_eq, ◌==◌, Instant, Duration, leb, if◌then◌else◌, and_then,
}
use oxidized_wall.Ban.{BanEntry, BanManager, ban, check, cleanup}

pub data Call : Type 0 where
  ban_call : IpAddr → Duration → Call
  check_call : IpAddr → Call
  cleanup_call : Call

unfoldable pub step : Instant → Call → BanManager → Option BanManager
step now (ban_call ip d) m = ban now ip d m
step now (check_call ip) m = some (check now ip m).0
step now cleanup_call m = some (cleanup now m)

unfoldable pub run : List (Instant × Call) → BanManager → Option BanManager
run [] m = some m
run ((now, c) ∷ calls) m = and_then (step now c m) (run calls)

-- The history's own account: the last ban of the address decides.
unfoldable pub banned_by : Instant → IpAddr → List (Instant × Call) → Bool → Bool
banned_by t ip [] before = before
banned_by t ip ((now, ban_call j d) ∷ calls) before =
    banned_by t ip calls (if j == ip then leb t (now + d) else before)
banned_by t ip (_ ∷ calls) before = banned_by t ip calls before

step-is_banned :
    (t now : Instant) (ip : IpAddr) (c : Call) (m m' : BanManager)
    → now < t
    → step now c m ≡ some m'
    → is_banned t ip m' ≡ banned_by t ip ((now, c) ∷ []) (is_banned t ip m)
unfolding step banned_by ban
step-is_banned t now ip (ban_call j d) m m' late e =
    let entry : BanEntry = record { expire_at = now + d } in
    ground (arith, get-insert m.banned_ips j entry ip)
step-is_banned t now ip (check_call j) m m' late e =
    ground (arith, (check-is_banned now t j ip m (omega arith)).1)
step-is_banned t now ip cleanup_call m m' late e = ground (arith, cleanup-is_banned now t ip m late)

banned_by-cons :
    (t now : Instant) (ip : IpAddr) (c : Call) (calls : List (Instant × Call)) (before : Bool)
    → banned_by t ip ((now, c) ∷ calls) before
      ≡ banned_by t ip calls (banned_by t ip ((now, c) ∷ []) before)
unfolding banned_by
banned_by-cons t now ip (ban_call j d) calls before = refl
banned_by-cons t now ip (check_call j) calls before = refl
banned_by-cons t now ip cleanup_call calls before = refl

run-is_banned :
    (t : Instant) (ip : IpAddr) (calls : List (Instant × Call)) (m m' : BanManager)
    → All (λ c. c.0 < t) calls
    → run calls m ≡ some m'
    → is_banned t ip m' ≡ banned_by t ip calls (is_banned t ip m)
unfolding run banned_by
run-is_banned t ip [] m m' h e = ground arith
run-is_banned t ip ((now, c) ∷ calls) m m' (late, h) e = elim (Option-cases (step now c m)) [
  | inl panics ↦ absurd (ground arith)
  | inr (m1, first) ↦
      run-is_banned t ip calls m1 m' h (ground arith)
      ∙ ap (banned_by t ip calls) (step-is_banned t now ip c m m1 late first)
      ∙ sym (banned_by-cons t now ip c calls (is_banned t ip m))
]

-- After any sequence of bans, checks and cleanups before the instant `t` that does not panic, an
-- address is banned at `t` exactly if the last ban of it among them lasts until `t`, or, without
-- one, if it was banned at `t` in the list at the start.
pub run-banned_by :
    (t : Instant) (ip : IpAddr) (calls : List (Instant × Call)) (m m' : BanManager)
    → All (λ c. c.0 < t) calls
    → run calls m ≡ some m'
    → (check t ip m').1 ≡ banned_by t ip calls (is_banned t ip m)
run-banned_by t ip calls m m' h e =
    (check-is_banned t t ip ip m' (omega arith)).0 ∙ run-is_banned t ip calls m m' h e
