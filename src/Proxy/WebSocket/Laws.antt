-- ===== src/Proxy/WebSocket/Laws.antt =====
-- What a copying loop writes.
use oxidized_wall.Base.{
  ℕ, ◌≡◌, refl, ap, sym, ◌∙◌, ◌≢◌, inl, inr, true, false, List, [], ◌∷◌, ◌++◌, arith, ip_eq, nat_eq,
  list_eq, IpAddr, Bytes, Bool-cases, length, All, take, drop, take-append-drop,
}
use mathlib.Core.List.{append_assoc, append-nil}
use oxidized_wall.Bandwidth.Float.{Float64}
use oxidized_wall.Bandwidth.{TokenBucket, BandwidthLimiter, try_consume}
use oxidized_wall.Bandwidth.Laws.{burst, try_consume_oversized}
use oxidized_wall.Dict.{DashMap}
use oxidized_wall.Proxy.WebSocket.{
  Outcome, Write, chunk, failed, timed_out, whole, broken, asleep, Turn, try_until, await_tokens,
  copy,
}

-- What there is to read up to the end of the stream, an error or the idle timeout.
abbrev pub readable : List (Outcome × Write) → Bytes
readable [] = []
readable ((failed, _) ∷ _) = []
readable ((timed_out, _) ∷ _) = []
readable ((chunk [], _) ∷ _) = []
readable ((chunk (b ∷ bytes), _) ∷ more) = (b ∷ bytes) ++ readable more

split_chunk :
    (n : ℕ) (before xs more : Bytes)
    → (before ++ take n xs) ++ (drop n xs ++ more) ≡ before ++ (xs ++ more)
split_chunk n before xs more =
    append_assoc before (take n xs) (drop n xs ++ more)
    ∙ ap (◌++◌ before) (
        sym (append_assoc (take n xs) (drop n xs) more)
        ∙ ap (λ ys. ys ++ more) (take-append-drop n xs))

abbrev pub IsWhole : Outcome × Write → Type 0
IsWhole (_, outcome) = outcome ≡ whole

module _ (R : Float64) (D : DashMap IpAddr (TokenBucket R)) (ip : IpAddr) (max_bw : ℕ) where
  -- Whatever the outcomes of the reads and writes are, a loop writes what it reads in its order,
  -- nothing lost, repeated or added before the place where it stops: what was written before and
  -- what there is to read are what has been written and some rest.
  pub copy_in_order :
      (events : List (Outcome × Write)) (turns : List (Turn R D)) (l : BandwidthLimiter R D)
      (before : Bytes)
      → (rest : Bytes) × ((copy R D ip max_bw events turns l before).written ++ rest
          ≡ before ++ readable events)
  unfolding copy
  copy_in_order [] turns l before = ([], refl)
  copy_in_order ((failed, _) ∷ _) turns l before = ([], refl)
  copy_in_order ((timed_out, _) ∷ _) turns l before = ([], refl)
  copy_in_order ((chunk [], _) ∷ _) turns l before = ([], refl)
  copy_in_order ((chunk (b ∷ bytes), broken sent) ∷ more) turns l before =
      elim (Bool-cases (await_tokens R D ip max_bw turns (length (b ∷ bytes)) l).2) [
        | inr refused ↦ (b ∷ bytes ++ readable more, rw (refused, copy) refl)
        | inl granted ↦ (
          drop sent (b ∷ bytes) ++ readable more,
          rw (granted, copy) (split_chunk sent before (b ∷ bytes) (readable more)),
        )
      ]
  copy_in_order ((chunk (b ∷ bytes), whole) ∷ more) turns l before =
      let (turns', l', answer) = await_tokens R D ip max_bw turns (length (b ∷ bytes)) l in
      let (rest, e) = copy_in_order more turns' l' (before ++ b ∷ bytes) in
      elim (Bool-cases (await_tokens R D ip max_bw turns (length (b ∷ bytes)) l).2) [
        | inr refused ↦ (b ∷ bytes ++ readable more, rw (refused, copy) refl)
        | inl granted ↦
            (rest, rw (granted, copy) (e ∙ append_assoc before (b ∷ bytes) (readable more)))
      ]

  -- A loop whose writes all succeed, and that does not wait for tokens at the end, has written all
  -- that there was to read.
  pub copy_complete :
      (events : List (Outcome × Write)) (turns : List (Turn R D)) (l : BandwidthLimiter R D)
      (before : Bytes)
      → All IsWhole events
      → (copy R D ip max_bw events turns l before).status ≢ asleep
      → (copy R D ip max_bw events turns l before).written ≡ before ++ readable events
  unfolding copy
  copy_complete [] turns l before w awake = sym (append-nil before)
  copy_complete ((failed, _) ∷ _) turns l before w awake = sym (append-nil before)
  copy_complete ((timed_out, _) ∷ _) turns l before w awake = sym (append-nil before)
  copy_complete ((chunk [], _) ∷ _) turns l before w awake = sym (append-nil before)
  copy_complete ((chunk (b ∷ bytes), broken sent) ∷ more) turns l before (w, _) awake =
      absurd (ground arith)
  copy_complete ((chunk (b ∷ bytes), whole) ∷ more) turns l before (_, ws) awake =
      let (turns', l', answer) = await_tokens R D ip max_bw turns (length (b ∷ bytes)) l in
      elim (Bool-cases (await_tokens R D ip max_bw turns (length (b ∷ bytes)) l).2) [
        | inr refused ↦ absurd (awake (rw (refused, copy) refl))
        | inl granted ↦
            rw (granted, copy)
              (copy_complete more turns' l' (before ++ b ∷ bytes) ws
                  (λ s. awake (rw (granted, copy) s))
                ∙ append_assoc before (b ∷ bytes) (readable more))
      ]

  try_until_oversized :
      (turns : List (Turn R D)) (n : ℕ) (l : BandwidthLimiter R D)
      → R.gt (R.of_u64 n) (burst R (R.of_u64 max_bw)) ≡ true
      → (try_until R D ip max_bw turns n l).2 ≡ false
  unfolding try_until
  try_until_oversized [] n l big = refl
  try_until_oversized (turn ∷ turns) n l big =
      let refused = try_consume_oversized R D turn.at ip max_bw n (turn.others l) big in
      ground (
        arith,
        try_until_oversized turns n (try_consume R D turn.at ip max_bw n (turn.others l)).0 big,
      )

  -- A chunk longer than twice the limit is never written: whatever the other tasks do and however
  -- often and late the loop tries, it stays asleep with what it had written before.
  pub copy_stuck :
      (b : ℕ) (bytes : Bytes) (outcome : Write) (more : List (Outcome × Write))
      (turns : List (Turn R D)) (l : BandwidthLimiter R D) (before : Bytes)
      → max_bw ≢ 0
      → R.gt (R.of_u64 (length (b ∷ bytes))) (burst R (R.of_u64 max_bw)) ≡ true
      → ((copy R D ip max_bw ((chunk (b ∷ bytes), outcome) ∷ more) turns l before).status ≡ asleep)
        × ((copy R D ip max_bw ((chunk (b ∷ bytes), outcome) ∷ more) turns l before).written
            ≡ before)
  unfolding copy await_tokens
  copy_stuck b bytes outcome more turns l before limited big =
      ground (arith, try_until_oversized turns (length (b ∷ bytes)) l big)
