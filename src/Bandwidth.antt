-- ===== src/Bandwidth.antt =====
-- src/bandwidth.rs: a token bucket for each address. `Instant::now()` is an argument at each call;
-- `f64` is the interface of Bandwidth/Float and `D` is the concurrent map.
pub mod Float
pub mod Body
pub mod Laws
pub mod Stream
pub mod Delivery
use oxidized_wall.Base.{
  ℕ, Bool, true, false, ip_eq, nat_eq, list_eq, IpAddr, if◌then◌else◌, Instant, duration_since,
}
use oxidized_wall.Bandwidth.Float.{Float64}
use oxidized_wall.Dict.{DashMap, or_insert}

-- The two readings of the clock in `try_consume`: for the bucket that `or_insert` is given, and in
-- `consume`.
pub record Moment : Type 0 where
  pub created : Instant
  pub now : Instant

module _ (R : Float64) where
  pub record TokenBucket : Type 0 where
    pub tokens : R.F
    pub last_fill : Instant

  -- `TokenBucket::new`, at the instant `now`.
  unfoldable pub new_bucket : Instant → TokenBucket
  new_bucket now = record { tokens = R.of_u64 0; last_fill = now }

  -- The tokens after the refill, which stops at twice the rate.
  unfoldable pub refill : Instant → R.F → TokenBucket → R.F
  refill now rate b =
      let tokens = R.add b.tokens (R.mul (R.as_secs (duration_since now b.last_fill)) rate) in
      if R.gt tokens (R.mul rate (R.of_u64 2)) then R.mul rate (R.of_u64 2) else tokens

  unfoldable pub consume : Instant → R.F → R.F → TokenBucket → TokenBucket × Bool
  unfolding refill
  consume now rate amount b =
      if R.ge (refill now rate b) amount
      then (record { tokens = R.sub (refill now rate b) amount; last_fill = now }, true)
      else (record { tokens = refill now rate b; last_fill = now }, false)

  module _ (D : DashMap IpAddr TokenBucket) where
    pub record BandwidthLimiter : Type 0 where
      pub buckets : D.Map

    unfoldable pub new : BandwidthLimiter
    new = record { buckets = D.new }

    unfoldable pub try_consume :
        Moment → IpAddr → ℕ → ℕ → BandwidthLimiter → BandwidthLimiter × Bool
    unfolding new_bucket consume
    try_consume at ip rate amount l =
        let (buckets, bucket) = or_insert D l.buckets ip (new_bucket at.created) in
        let (bucket', answer) = consume at.now (R.of_u64 rate) (R.of_u64 amount) bucket in
        (record { buckets = D.insert buckets ip bucket' }, answer)
