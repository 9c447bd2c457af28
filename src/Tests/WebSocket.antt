-- ===== src/Tests/WebSocket.antt =====
-- A copying loop over concrete chunks.
use oxidized_wall.Base.{
  ◌≡◌, refl, sym, ◌∙◌, ◌++◌, ◌≢◌, List, [], ◌∷◌, ip_eq, nat_eq, list_eq, IpAddr, Bytes, codes,
}
use oxidized_wall.Bandwidth.{TokenBucket, BandwidthLimiter}
use oxidized_wall.Dict.{DashMap, list_map, insert, get}
use oxidized_wall.Proxy.WebSocket.{
  Outcome, Write, chunk, timed_out, broken, asleep, Turn, copy, Status, left,
}
use oxidized_wall.Proxy.WebSocket.Laws.{readable, copy_in_order, copy_complete}
use oxidized_wall.Tests.Instances.{client, whole}

abbrev buckets : DashMap IpAddr (TokenBucket whole)
buckets = list_map

-- The client holds five tokens.
abbrev five : BandwidthLimiter whole buckets
five = record { buckets = (client, record { tokens = 5; last_fill = 0 }) ∷ [] }

abbrev turn : Turn whole buckets
turn = record { at = record { created = 0; now = 0 }; others = λ l. l }

-- Two chunks, for the second of which there is no token left, and then silence.
abbrev messages : Write → List (Outcome × Write)
messages outcome =
    (chunk (codes "hel"), Write.whole)
    ∷ (chunk (codes "lo"), outcome)
    ∷ (timed_out, Write.whole)
    ∷ []

copy_in_order_example :
    (rest : Bytes) × ((copy whole buckets client 10
          (messages (broken 1))
          (turn ∷ turn ∷ [])
          five
          []).written
        ++ rest
      ≡ [] ++ readable (messages (broken 1)))
copy_in_order_example =
    copy_in_order whole buckets client 10 (messages (broken 1)) (turn ∷ turn ∷ []) five []

left_in_time :
    (copy whole buckets client 10 (messages Write.whole) (turn ∷ turn ∷ []) five []).status ≡ left
unfolding copy oxidized_wall.Proxy.WebSocket.await_tokens oxidized_wall.Proxy.WebSocket.try_until
    oxidized_wall.Bandwidth.try_consume get insert
left_in_time = refl

left_not_asleep : left ≢ asleep
left_not_asleep e = cc

awake :
    (copy whole buckets client 10 (messages Write.whole) (turn ∷ turn ∷ []) five []).status ≢ asleep
awake e = left_not_asleep (sym left_in_time ∙ e)

copy_complete_example :
    (copy whole buckets client 10 (messages Write.whole) (turn ∷ turn ∷ []) five []).written
    ≡ [] ++ readable (messages Write.whole)
copy_complete_example =
    copy_complete whole buckets client 10 (messages Write.whole) (turn ∷ turn ∷ []) five []
      (refl, (refl, (refl, tt))) awake
