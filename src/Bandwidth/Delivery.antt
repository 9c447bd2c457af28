-- ===== src/Bandwidth/Delivery.antt =====
-- What a client gets of a throttled body over a sequence of polls.
use oxidized_wall.Base.{
  ℕ, zero, suc, ◌≡◌, refl, sym, ap, ◌∙◌, ◌⊎◌, inl, inr, Option, none, some, List, [], ◌∷◌, ◌++◌,
  ip_eq, nat_eq, list_eq, IpAddr, Option-cases, Bool-cases, nat_eqb, ltb, Result, ok, err, length,
}
use mathlib.Core.Path.{subst}
use mathlib.Core.List.{append_assoc}
use oxidized_wall.Bandwidth.Float.{Float64}
use oxidized_wall.Bandwidth.{Moment, TokenBucket, BandwidthLimiter, try_consume}
use oxidized_wall.Bandwidth.Body.{
  Poll, ready, pending, Inner, ThrottledBody, Polled, throttle, poll_frame,
}
use oxidized_wall.Dict.{DashMap}

-- The first list is the second without some of its elements.
pub data Subseq {ℓ} {A : Type ℓ} : List A → List A → Type ℓ where
  none_of : {ys : List A} → Subseq [] ys
  keep : {xs ys : List A} (a : A) → Subseq xs ys → Subseq (a ∷ xs) (a ∷ ys)
  skip : {xs ys : List A} (a : A) → Subseq xs ys → Subseq xs (a ∷ ys)

module _ {ℓ} {A : Type ℓ} where
  Subseq-keep : (zs : List A) {xs ys : List A} → Subseq xs ys → Subseq (zs ++ xs) (zs ++ ys)
  Subseq-keep [] s = s
  Subseq-keep (z ∷ zs) s = keep z (Subseq-keep zs s)

  Subseq-skip : (zs : List A) {xs ys : List A} → Subseq xs ys → Subseq xs (zs ++ ys)
  Subseq-skip [] s = s
  Subseq-skip (z ∷ zs) s = skip z (Subseq-skip zs s)

  Subseq-append : {xs ys : List A} (zs : List A) → Subseq xs ys → Subseq xs (ys ++ zs)
  Subseq-append zs none_of = none_of
  Subseq-append zs (keep a s) = keep a (Subseq-append zs s)
  Subseq-append zs (skip a s) = skip a (Subseq-append zs s)

module _ (R : Float64) (D : DashMap IpAddr (TokenBucket R)) (I : Inner) where
  -- The frame of an outcome.
  abbrev pub passed : Poll (Option (Result I.Error I.Frame)) → List I.Frame
  passed (ready (some (ok frame))) = frame ∷ []
  passed _ = []

  -- The frames that the inner body gives in some polls.
  unfoldable pub given : ℕ → I.B → List I.Frame
  given zero inner = []
  given (suc n) inner = passed (I.poll_frame inner).1 ++ given n (I.poll_frame inner).0

  -- The frames that the body passes on in polls at some moments, each with what other tasks did to
  -- the limiter before it.
  unfoldable pub drain :
      List (Moment × Moment × (BandwidthLimiter R D → BandwidthLimiter R D))
      → BandwidthLimiter R D
      → ThrottledBody R D I
      → List I.Frame
  drain [] l body = []
  drain ((first, at, others) ∷ polls) l body =
      let (l', body', res) = poll_frame R D I first at (others l) body in
      passed res ++ drain polls l' body'

  given-suc :
      (n : ℕ) (inner : I.B) → (zs : List I.Frame) × (given (suc n) inner ≡ given n inner ++ zs)
  unfolding given
  given-suc zero inner = (passed (I.poll_frame inner).1 ++ [], refl)
  given-suc (suc n) inner =
      let (zs, e) = given-suc n (I.poll_frame inner).0 in
      (
        zs,
        ap (◌++◌ (passed (I.poll_frame inner).1)) e
            ∙ sym
                (append_assoc (passed (I.poll_frame inner).1) (given n (I.poll_frame inner).0) zs),
      )

  -- A poll leaves the inner body and is pending, or polls it and passes its outcome on or is
  -- pending.
  Outcome : ThrottledBody R D I → Polled R D I → Type 0
  Outcome body out =
      ((out.1.inner ≡ body.inner) × (out.2 ≡ pending))
      ⊎ ((out.1.inner ≡ (I.poll_frame body.inner).0)
          × ((out.2 ≡ pending) ⊎ (out.2 ≡ (I.poll_frame body.inner).1)))

  throttle-passes :
      (at : Moment) (l : BandwidthLimiter R D) (body : ThrottledBody R D I)
      (res : Poll (Option (Result I.Error I.Frame)))
      → ((throttle R D I at l body res).1.inner ≡ body.inner)
        × (((throttle R D I at l body res).2 ≡ pending) ⊎ ((throttle R D I at l body res).2 ≡ res))
  unfolding throttle
  throttle-passes at l body (ready (some (ok frame))) = elim (Option-cases (I.data_ref frame)) [
    | inl plain ↦ rw (plain, throttle) (refl, inr refl)
    | inr (bytes, content) ↦
        elim (Bool-cases (try_consume R D at body.ip body.rate (length bytes) l).1) [
          | inl granted ↦ rw (content, granted, throttle) (refl, inr refl)
          | inr refused ↦ rw (content, refused, throttle) (refl, inl refl)
        ]
  ]
  throttle-passes at l body (ready (some (err e))) = (refl, inr refl)
  throttle-passes at l body (ready none) = (refl, inr refl)
  throttle-passes at l body pending = (refl, inr refl)

  poll_frame-Outcome :
      (first at : Moment) (l : BandwidthLimiter R D) (body : ThrottledBody R D I)
      → Outcome body (poll_frame R D I first at l body)
  unfolding Outcome poll_frame
  poll_frame-Outcome first at l body = elim (Bool-cases (nat_eqb body.rate 0)) [
    | inl unlimited ↦ rw (unlimited, poll_frame) (inr (refl, inr refl))
    | inr limited ↦ elim (Bool-cases (ltb 0 body.pending_amount)) [
      | inr idle ↦
          rw (limited, idle, poll_frame)
            (inr (
              throttle-passes at l (record body { inner = (I.poll_frame body.inner).0 })
                (I.poll_frame body.inner).1))
      | inl waits ↦
          elim (Bool-cases (try_consume R D first body.ip body.rate body.pending_amount l).1) [
            | inr refused ↦ rw (limited, waits, refused, poll_frame) (inl (refl, refl))
            | inl granted ↦
                rw (limited, waits, granted, poll_frame)
                  (inr (
                    throttle-passes at
                      (try_consume R D first body.ip body.rate body.pending_amount l).0
                      (record body { inner = (I.poll_frame body.inner).0; pending_amount = 0 })
                      (I.poll_frame body.inner).1))
          ]
    ]
  ]

  -- Whatever the moments of the polls are and the other tasks do to the limiter, the frames that a
  -- body passes on are those that its inner body gives in as many polls, in their order, with some
  -- left out.
  pub drain-Subseq :
      (polls : List (Moment × Moment × (BandwidthLimiter R D → BandwidthLimiter R D)))
      (l : BandwidthLimiter R D) (body : ThrottledBody R D I)
      → Subseq (drain polls l body) (given (length polls) body.inner)
  unfolding drain given Outcome
  drain-Subseq [] l body = none_of
  drain-Subseq ((first, at, others) ∷ polls) l body =
      let out = poll_frame R D I first at (others l) body in
      let ih = drain-Subseq polls out.0 out.1 in
      let (zs, grown) = given-suc (length polls) body.inner in
      let rest = drain polls out.0 out.1 in
      let n = length polls in
      let goes_on : (inner : I.B) → out.1.inner ≡ inner → Subseq rest (given n inner) =
        λ inner e. subst (λ b. Subseq rest (given n b)) e ih in
      elim (poll_frame-Outcome first at (others l) body) [
        | inl (same, waits) ↦
            rw waits (subst (Subseq rest) (sym grown) (Subseq-append zs (goes_on body.inner same)))
        | inr (moved, inl waits) ↦
            rw waits (Subseq-skip (passed (I.poll_frame body.inner).1) (goes_on _ moved))
        | inr (moved, inr passes) ↦
            rw passes (Subseq-keep (passed (I.poll_frame body.inner).1) (goes_on _ moved))
      ]
