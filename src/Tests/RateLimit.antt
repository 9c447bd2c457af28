-- ===== src/Tests/RateLimit.antt =====
-- The rate limiter at concrete requests.
use oxidized_wall.Dict.{get, insert, DashMap, list_map}
use Prim.Native.Nat.{min}
use oxidized_wall.Base.{
  none, ◌+◌, ◌-◌, ◌*◌, ◌≡◌, refl, true, List, [], ◌∷◌, ◌++◌, arith, ip_eq, nat_eq, list_eq, IpAddr,
  Instant, from_secs,
}
use oxidized_wall.RateLimit
use oxidized_wall.RateLimit.{RateState, RateLimiter}
use oxidized_wall.RateLimit.Window.{run, requests_of, run-within_window}
use oxidized_wall.RateLimit.Burst.{volley, run-burst}
use oxidized_wall.Tests.Instances.{client, other_client, config}

abbrev table : DashMap IpAddr RateState
table = list_map

-- The client has used two of three requests of a window that began at 1000.
abbrev two_used : RateLimiter table
two_used = record { records = (client, record { count = 2; last_reset = 1000 }) ∷ [] }

third_request :
    RateLimit.check table 1001 client (config 3 0) two_used
    ≡ (record { records = (client, record { count = 3; last_reset = 1000 }) ∷ [] }, true)
unfolding RateLimit.check insert get
third_request = refl

nothing_counted : (j : IpAddr) → table.get (RateLimit.new table).records j ≡ none
unfolding RateLimit.new get
nothing_counted j = refl

abbrev requests : List (Instant × IpAddr)
requests = (1001, client) ∷ (1002, other_client) ∷ (1003, client) ∷ []

run-within_window_example :
    (run table (config 3 0) client requests two_used).1
    ≡ min (requests_of table (config 3 0) client requests) (3 - 2)
unfolding get
run-within_window_example =
    run-within_window table (config 3 0) client requests two_used
      (record { count = 2; last_reset = 1000 }) (omega arith) (omega arith) refl (omega arith)
      (omega arith, (omega arith, (omega arith, tt)))

run-burst_example :
    (run table
      (config 3 0)
      client
      (volley table (config 3 0) client 0 (0 + 999_999_999)
        ++ volley table (config 3 0) client (0 + from_secs 1) (0 + from_secs 1))
      (RateLimit.new table)).1
    ≡ 2 * 3
unfolding RateLimit.new
run-burst_example =
    run-burst table (config 3 0) client 0 (RateLimit.new table) (omega arith) (omega arith)
      (λ s e. absurd (ground (arith, nothing_counted client)))
