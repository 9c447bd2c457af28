-- ===== src/Bandwidth/Stream.antt =====
-- What a throttled body passes on, what it withholds, and what it loses.
use oxidized_wall.Base.{
  ℕ, ◌<◌, ◌≡◌, ◌≢◌, inl, inr, true, false, Option, none, some, arith, ip_eq, nat_eq, list_eq,
  IpAddr, Bytes, if◌then◌else◌, Option-cases, zero-or-pos, Result, ok, err, length,
}
use oxidized_wall.Bandwidth.Float.{Float64}
use oxidized_wall.Bandwidth.{Moment, TokenBucket, BandwidthLimiter, try_consume}
use oxidized_wall.Bandwidth.Body.{
  new, Poll, ready, pending, Inner, ThrottledBody, throttle, poll_frame,
}
use oxidized_wall.Bandwidth.Laws.{burst, try_consume_oversized}
use oxidized_wall.Dict.{DashMap}

module _ (R : Float64) (D : DashMap IpAddr (TokenBucket R)) (I : Inner) where
  -- Without a limit every poll is the inner body's.
  pub poll_frame_unlimited :
      (first at : Moment) (l : BandwidthLimiter R D) (body : ThrottledBody R D I)
      → body.rate ≡ 0
      → poll_frame R D I first at l body
        ≡ (l, record body { inner = (I.poll_frame body.inner).0 }, (I.poll_frame body.inner).1)
  unfolding poll_frame
  poll_frame_unlimited first at l body h = ground arith

  -- A frame of data that arrives while no amount waits is passed on, or, if its tokens are refused,
  -- dropped: what is kept of it is its length.
  pub poll_frame_data :
      (first at : Moment) (l : BandwidthLimiter R D) (body : ThrottledBody R D I) (inner : I.B)
      (frame : I.Frame) (bytes : Bytes)
      → body.rate ≢ 0
      → body.pending_amount ≡ 0
      → I.poll_frame body.inner ≡ (inner, ready (some (ok frame)))
      → I.data_ref frame ≡ some bytes
      → poll_frame R D I first at l body ≡ (
          let (l', granted) = try_consume R D at body.ip body.rate (length bytes) l in
          if granted
          then (l', record body { inner = inner }, ready (some (ok frame)))
          else (l', record body { inner = inner; pending_amount = length bytes }, pending))
  unfolding poll_frame
  poll_frame_data first at l body inner frame bytes limited idle arrives content = ground (arith)

  -- A refused frame of data is lost: take two new bodies with a limit whose next frames differ in
  -- their bytes but not in their length, and after which the inner bodies are the same. If the
  -- tokens for the frame are refused, the poll is pending and leaves the same state for both, so
  -- no later poll can pass the bytes on.
  pub poll_frame_lost :
      (first at : Moment) (l : BandwidthLimiter R D) (ip : IpAddr) (rate : ℕ) (a b inner : I.B)
      (frame_a frame_b : I.Frame) (bytes_a bytes_b : Bytes)
      → rate ≢ 0
      → I.poll_frame a ≡ (inner, ready (some (ok frame_a)))
      → I.poll_frame b ≡ (inner, ready (some (ok frame_b)))
      → I.data_ref frame_a ≡ some bytes_a
      → I.data_ref frame_b ≡ some bytes_b
      → length bytes_a ≡ length bytes_b
      → (try_consume R D at ip rate (length bytes_a) l).1 ≡ false
      → ((poll_frame R D I first at l (new R D I a ip rate)).2 ≡ pending)
        × (poll_frame R D I first at l (new R D I a ip rate)
            ≡ poll_frame R D I first at l (new R D I b ip rate))
  unfolding new
  poll_frame_lost first at l ip rate a b inner frame_a frame_b bytes_a bytes_b limited pa pb da db
        len refused =
      ground (
        arith,
        poll_frame_data first at l (new R D I a ip rate) inner frame_a bytes_a,
        poll_frame_data first at l (new R D I b ip rate) inner frame_b bytes_b,
      )

  throttle_granted :
      (at : Moment) (l : BandwidthLimiter R D) (body : ThrottledBody R D I)
      (res : Poll (Option (Result I.Error I.Frame))) (frame : I.Frame) (bytes : Bytes)
      → I.data_ref frame ≡ some bytes
      → (throttle R D I at l body res).2 ≡ ready (some (ok frame))
      → (try_consume R D at body.ip body.rate (length bytes) l
          ≡ ((throttle R D I at l body res).0, true))
        × ((throttle R D I at l body res).1 ≡ body)
  unfolding throttle
  throttle_granted at l body (ready (some (ok f))) frame bytes content passed =
      elim (Option-cases (I.data_ref f)) [
        | inl e ↦ absurd (ground arith)
        | inr (other, e) ↦ ground arith
      ]
  throttle_granted at l body (ready (some (err e))) frame bytes content passed =
      absurd (ground arith)
  throttle_granted at l body (ready none) frame bytes content passed = absurd (ground arith)
  throttle_granted at l body pending frame bytes content passed = absurd (ground arith)

  -- With a limit a frame of data is passed on only when the tokens for its length were granted in
  -- that poll, and then nothing waits.
  pub poll_frame_granted :
      (first at : Moment) (l : BandwidthLimiter R D) (body : ThrottledBody R D I) (frame : I.Frame)
      (bytes : Bytes)
      → body.rate ≢ 0
      → I.data_ref frame ≡ some bytes
      → (poll_frame R D I first at l body).2 ≡ ready (some (ok frame))
      → (l' : BandwidthLimiter R D) × (try_consume R D at body.ip body.rate (length bytes) l'
          ≡ ((poll_frame R D I first at l body).0, true))
        × ((poll_frame R D I first at l body).1.pending_amount ≡ 0)
  unfolding poll_frame
  poll_frame_granted first at l body frame bytes limited content passed =
      elim (zero-or-pos body.pending_amount) [
        | inl idle ↦
            let inner = I.poll_frame body.inner in
            let granted =
              throttle_granted at l (record body { inner = inner.0 }) inner.1 frame bytes content in
            (l, ground arith, ground arith)
        | inr waits ↦
            let inner = I.poll_frame body.inner in
            let l1 = (try_consume R D first body.ip body.rate body.pending_amount l).0 in
            let granted =
              throttle_granted at l1 (record body { inner = inner.0; pending_amount = 0 }) inner.1
                frame bytes content in
            (l1, ground arith, ground arith)
      ]

  -- A body with a limit that waits for more than twice its rate waits forever: each poll, at
  -- whatever moments, is pending and leaves it as it was.
  pub poll_frame_stuck :
      (first at : Moment) (l : BandwidthLimiter R D) (body : ThrottledBody R D I)
      → body.rate ≢ 0
      → 0 < body.pending_amount
      → R.gt (R.of_u64 body.pending_amount) (burst R (R.of_u64 body.rate)) ≡ true
      → ((poll_frame R D I first at l body).1 ≡ body)
        × ((poll_frame R D I first at l body).2 ≡ pending)
  unfolding poll_frame
  poll_frame_stuck first at l body limited waits big =
      ground (arith, try_consume_oversized R D first body.ip body.rate body.pending_amount l big)
