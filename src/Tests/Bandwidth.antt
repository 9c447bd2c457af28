-- ===== src/Tests/Bandwidth.antt =====
-- The token bucket and a throttled body at concrete data.
use oxidized_wall.Bandwidth.Delivery.{Subseq, drain, given, drain-Subseq}
use oxidized_wall.Dict.{insert, get, DashMap, list_map}
use oxidized_wall.Base.{
  ◌≡◌, refl, true, false, none, some, List, [], ◌∷◌, arith, ip_eq, nat_eq, list_eq, IpAddr, Bytes,
  codes, ok, length, from_secs,
}
use oxidized_wall.Bandwidth
use oxidized_wall.Bandwidth.{Moment, TokenBucket, BandwidthLimiter, try_consume, consume}
use oxidized_wall.Bandwidth.Body.{ThrottledBody, poll_frame, pending, ready}
use oxidized_wall.Bandwidth.Body
use oxidized_wall.Bandwidth.Laws.{IsInRange, consume-IsInRange, try_consume_first}
use oxidized_wall.Bandwidth.Stream.{poll_frame_lost, poll_frame_granted, poll_frame_stuck}
use oxidized_wall.Tests.Instances.{client, whole, frames}

abbrev buckets : DashMap IpAddr (TokenBucket whole)
buckets = list_map

-- The client holds five tokens.
abbrev five : BandwidthLimiter whole buckets
five = record { buckets = (client, record { tokens = 5; last_fill = 0 }) ∷ [] }

abbrev at_once : Moment
at_once = record { created = 0; now = 0 }

half_granted :
    try_consume whole buckets at_once client 10 3 five
    ≡ (record { buckets = (client, record { tokens = 2; last_fill = 0 }) ∷ [] }, true)
unfolding try_consume insert get
half_granted = refl

consume-IsInRange_example :
    IsInRange whole 10 (consume whole (from_secs 9) 10 3 (record { tokens = 5; last_fill = 0 })).0
consume-IsInRange_example =
    consume-IsInRange whole (from_secs 9) 10 3 (record { tokens = 5; last_fill = 0 }) refl refl refl

no_bucket : buckets.get (Bandwidth.new whole buckets).buckets client ≡ none
unfolding Bandwidth.new get
no_bucket = refl

-- Two bodies of one frame each.
abbrev hello : List Bytes
hello = codes "hello" ∷ []

abbrev other : List Bytes
other = codes "other" ∷ []

refused :
    (try_consume whole buckets at_once client 10
      (length (codes "hello"))
      (Bandwidth.new whole buckets)).1
    ≡ false
refused =
    try_consume_first whole buckets at_once client 10 5 (Bandwidth.new whole buckets) no_bucket refl

poll_frame_lost_example :
    ((poll_frame whole buckets frames at_once at_once
        (Bandwidth.new whole buckets)
        (Body.new whole buckets frames hello client 10)).2
      ≡ pending)
    × (poll_frame whole buckets frames at_once at_once
          (Bandwidth.new whole buckets)
          (Body.new whole buckets frames hello client 10)
        ≡ poll_frame whole buckets frames at_once at_once
            (Bandwidth.new whole buckets)
            (Body.new whole buckets frames other client 10))
poll_frame_lost_example =
    poll_frame_lost whole buckets frames at_once at_once (Bandwidth.new whole buckets) client 10
      hello other [] (codes "hello") (codes "other") (codes "hello") (codes "other")
      (λ e. absurd (omega arith)) refl refl refl refl refl refused

-- A body with a frame that its tokens allow.
abbrev affordable : ThrottledBody whole buckets frames
affordable = record { inner = hello; ip = client; rate = 10; pending_amount = 0 }

passed :
    (poll_frame whole buckets frames at_once at_once five affordable).2
    ≡ ready (some (ok (codes "hello")))
unfolding poll_frame try_consume get
passed = refl

poll_frame_granted_example :
    (l' : BandwidthLimiter whole buckets) × (try_consume whole buckets at_once client 10
        (length (codes "hello"))
        l'
      ≡ ((poll_frame whole buckets frames at_once at_once five affordable).0, true))
    × ((poll_frame whole buckets frames at_once at_once five affordable).1.pending_amount ≡ 0)
poll_frame_granted_example =
    poll_frame_granted whole buckets frames at_once at_once five affordable (codes "hello")
      (codes "hello") (λ e. absurd (omega arith)) refl passed

-- A body that waits for 21 tokens at a rate of ten.
abbrev waiting : ThrottledBody whole buckets frames
waiting = record { inner = hello; ip = client; rate = 10; pending_amount = 21 }

poll_frame_stuck_example :
    ((poll_frame whole buckets frames at_once at_once five waiting).1 ≡ waiting)
    × ((poll_frame whole buckets frames at_once at_once five waiting).2 ≡ pending)
poll_frame_stuck_example =
    poll_frame_stuck whole buckets frames at_once at_once five waiting (λ e. absurd (omega arith))
      (omega arith) refl

-- Two polls without what other tasks might do.
abbrev polls :
    List (Moment × Moment × (BandwidthLimiter whole buckets → BandwidthLimiter whole buckets))
polls = (at_once, at_once, λ l. l) ∷ (at_once, at_once, λ l. l) ∷ []

drain-Subseq_example :
    Subseq
      (drain whole buckets frames polls five affordable)
      (given whole buckets frames (length polls) hello)
drain-Subseq_example = drain-Subseq whole buckets frames polls five affordable
