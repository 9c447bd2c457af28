-- ===== src/Bandwidth/Body.antt =====
-- `ThrottledBody` of src/bandwidth.rs. The inner body is a state type `B` with its `poll_frame`;
-- frames and errors are hyper's.
use oxidized_wall.Base.{
  ℕ, Option, none, some, ip_eq, nat_eq, list_eq, IpAddr, Bytes, if◌then◌else◌, ltb, nat_eqb, Result,
  ok, length,
}
use oxidized_wall.Bandwidth.Float.{Float64}
use oxidized_wall.Bandwidth.{Moment, TokenBucket, BandwidthLimiter, try_consume}
use oxidized_wall.Dict.{DashMap}

-- `std::task::Poll`.
pub data Poll {ℓ} (A : Type ℓ) : Type ℓ where
  ready : A → Poll A
  pending : Poll A

-- The frames and errors of hyper, and an inner body.
pub record Inner : Type 1 where
  pub Frame : Type 0
  pub Error : Type 0
  pub data_ref : Frame → Option Bytes
  pub B : Type 0
  pub poll_frame : B → B × Poll (Option (Result Error Frame))

module _ (R : Float64) (D : DashMap IpAddr (TokenBucket R)) (I : Inner) where
  pub record ThrottledBody : Type 0 where
    pub inner : I.B
    pub ip : IpAddr
    pub rate : ℕ
    pub pending_amount : ℕ

  unfoldable pub new : I.B → IpAddr → ℕ → ThrottledBody
  new inner ip rate = record { inner = inner; ip = ip; rate = rate; pending_amount = 0 }

  -- The limiter and the body after a poll, and its outcome.
  abbrev pub Polled : Type 0
  Polled = BandwidthLimiter R D × ThrottledBody × Poll (Option (Result I.Error I.Frame))

  -- What `poll_frame` does with the inner body's outcome.
  unfoldable pub throttle :
      Moment
      → BandwidthLimiter R D
      → ThrottledBody
      → Poll (Option (Result I.Error I.Frame))
      → Polled
  throttle at l body (ready (some (ok frame))) = elim (I.data_ref frame) [
    | some bytes ↦
        let (l', granted) = try_consume R D at body.ip body.rate (length bytes) l in
        if granted
        then (l', body, ready (some (ok frame)))
        else (l', record body { pending_amount = length bytes }, pending)
    | none ↦ (l, body, ready (some (ok frame)))
  ]
  throttle at l body res = (l, body, res)

  -- The part from the poll of the inner body on.
  unfoldable pub poll_inner : Moment → BandwidthLimiter R D → ThrottledBody → Polled
  unfolding throttle
  poll_inner at l body =
      let (inner, res) = I.poll_frame body.inner in
      throttle at l (record body { inner = inner }) res

  -- The early return where there is no limit.
  unfoldable pub unthrottled : BandwidthLimiter R D → ThrottledBody → Polled
  unthrottled l body =
      let (inner, res) = I.poll_frame body.inner in (l, record body { inner = inner }, res)

  -- The part for an amount that waits.
  unfoldable pub retry : Moment → Moment → BandwidthLimiter R D → ThrottledBody → Polled
  unfolding poll_inner
  retry first at l body =
      let (l', granted) = try_consume R D first body.ip body.rate body.pending_amount l in
      if granted then poll_inner at l' (record body { pending_amount = 0 }) else (l', body, pending)

  -- `first` is the moment of the attempt for a waiting amount, `at` that for a new frame.
  unfoldable pub poll_frame : Moment → Moment → BandwidthLimiter R D → ThrottledBody → Polled
  unfolding unthrottled retry poll_inner
  poll_frame first at l body =
      if nat_eqb body.rate 0
      then unthrottled l body
      else if ltb 0 body.pending_amount
      then retry first at l body
      else poll_inner at l body
