-- ===== src/Bandwidth/Laws.antt =====
-- The token bucket: its range, and the answers of a call.
use oxidized_wall.Base.{
  ℕ, ◌≡◌, inl, inr, true, false, none, some, arith, ◌==◌, ip_eq, nat_eq, list_eq, IpAddr,
  if◌then◌else◌, Bool-cases, unwrap_or, Instant, duration_since,
}
use oxidized_wall.Bandwidth.Float.{Float64}
use oxidized_wall.Bandwidth.{
  Moment, TokenBucket, new_bucket, refill, consume, BandwidthLimiter, try_consume,
}
use oxidized_wall.Dict.{or_insert-value, get-insert-or_insert, DashMap}

module _ (R : Float64) where
  abbrev pub IsNonneg : R.F → Type 0
  IsNonneg a = R.ge a (R.of_u64 0) ≡ true

  -- The burst that a rate allows.
  abbrev pub burst : R.F → R.F
  burst rate = R.mul rate (R.of_u64 2)

  -- The tokens lie between zero and twice the rate.
  pub record IsInRange (rate : R.F) (b : TokenBucket R) : Type 0 where
    pub capped : R.ge (burst rate) b.tokens ≡ true
    pub nonneg : IsNonneg b.tokens

  refill_capped :
      (now : Instant) (rate : R.F) (b : TokenBucket R)
      → R.ge (burst rate) (refill R now rate b) ≡ true
  unfolding refill
  refill_capped now rate b =
      let tokens = R.add b.tokens (R.mul (R.as_secs (duration_since now b.last_fill)) rate) in
      ground (arith, R.gt-eq-not_ge tokens (burst rate), R.ge_refl (burst rate))

  refill-IsNonneg :
      (now : Instant) (rate : R.F) (b : TokenBucket R)
      → IsNonneg rate
      → IsNonneg b.tokens
      → IsNonneg (refill R now rate b)
  unfolding refill
  refill-IsNonneg now rate b pos h =
      let secs = R.as_secs (duration_since now b.last_fill) in
      let earned = R.mul_nonneg secs rate (R.as_secs_nonneg _) pos in
      ground (
        arith,
        R.add_nonneg b.tokens (R.mul secs rate) h earned,
        R.mul_nonneg rate (R.of_u64 2) pos (R.of_u64_nonneg 2),
      )

  -- `consume`, with a rate and an amount that are not negative, keeps a bucket whose tokens are
  -- not negative between zero and twice the rate, at any instant.
  pub consume-IsInRange :
      (now : Instant) (rate amount : R.F) (b : TokenBucket R)
      → IsNonneg rate
      → IsNonneg amount
      → IsNonneg b.tokens
      → IsInRange rate (consume R now rate amount b).0
  unfolding consume
  consume-IsInRange now rate amount b pos some_amount h =
      let cap = refill_capped now rate b in
      let low = refill-IsNonneg now rate b pos h in
      let t = refill R now rate b in
      elim (Bool-cases (R.ge t amount)) [
        | inl granted ↦
            rw (granted, consume)
              (record {
                capped = R.ge_trans _ _ _ cap (R.sub-le t amount some_amount);
                nonneg = R.sub_nonneg t amount granted;
              })
        | inr refused ↦ rw (refused, consume) (record { capped = cap; nonneg = low })
      ]

  -- An amount above twice the rate is never granted, whatever the bucket holds and however long
  -- the caller waits.
  pub consume_oversized :
      (now : Instant) (rate amount : R.F) (b : TokenBucket R)
      → R.gt amount (burst rate) ≡ true
      → (consume R now rate amount b).1 ≡ false
  unfolding consume
  consume_oversized now rate amount b big = ground (
    arith,
    R.gt-eq-not_ge amount (burst rate),
    R.ge_trans (burst rate) (refill R now rate b) amount (refill_capped now rate b),
  )

  -- A bucket just made grants only what was earned since.
  consume_first :
      (now created : Instant) (rate amount : R.F)
      → IsNonneg rate
      → R.gt amount (R.mul (R.as_secs (duration_since now created)) rate) ≡ true
      → (consume R now rate amount (new_bucket R created)).1 ≡ false
  unfolding consume refill new_bucket
  consume_first now created rate amount pos big =
      let earned = R.mul (R.as_secs (duration_since now created)) rate in
      let total = R.ge_total (burst rate) earned in
      let all_earned = R.zero-add earned (R.mul_nonneg _ _ (R.as_secs_nonneg _) pos) in
      ground (
        arith,
        all_earned,
        R.gt-eq-not_ge amount earned,
        R.gt-eq-not_ge earned (burst rate),
        R.ge_trans earned (burst rate) amount,
      )

  module _ (D : DashMap IpAddr (TokenBucket R)) where
    -- A call for one address: the answer for an amount above twice the rate, and the buckets of the
    -- others.
    pub try_consume_oversized :
        (at : Moment) (ip : IpAddr) (rate amount : ℕ) (l : BandwidthLimiter R D)
        → R.gt (R.of_u64 amount) (burst (R.of_u64 rate)) ≡ true
        → (try_consume R D at ip rate amount l).1 ≡ false
    unfolding try_consume
    try_consume_oversized at ip rate amount l big = consume_oversized at.now _ _ _ big

    pub get-try_consume :
        (at : Moment) (ip : IpAddr) (rate amount : ℕ) (l : BandwidthLimiter R D) (j : IpAddr)
        → D.get (try_consume R D at ip rate amount l).0.buckets j ≡ (
            if ip == j
            then some
                (consume R at.now
                  (R.of_u64 rate)
                  (R.of_u64 amount)
                  (unwrap_or (D.get l.buckets ip) (new_bucket R at.created))).0
            else D.get l.buckets j)
    unfolding try_consume
    get-try_consume at ip rate amount l j = ground (
      arith,
      get-insert-or_insert D l.buckets ip j (new_bucket R at.created)
          (consume R at.now (R.of_u64 rate) (R.of_u64 amount)
            (unwrap_or (D.get l.buckets ip) (new_bucket R at.created))).0,
      or_insert-value D l.buckets ip (new_bucket R at.created),
    )

    -- The first call for an address that has no bucket is refused where the amount is more than
    -- what is earned between the two readings of the clock in that very call.
    pub try_consume_first :
        (at : Moment) (ip : IpAddr) (rate amount : ℕ) (l : BandwidthLimiter R D)
        → D.get l.buckets ip ≡ none
        → R.gt
            (R.of_u64 amount)
            (R.mul (R.as_secs (duration_since at.now at.created)) (R.of_u64 rate))
          ≡ true
        → (try_consume R D at ip rate amount l).1 ≡ false
    unfolding try_consume
    try_consume_first at ip rate amount l fresh big =
        rw (or_insert-value, fresh)
          (consume_first at.now at.created (R.of_u64 rate) (R.of_u64 amount) (R.of_u64_nonneg rate)
            big)
