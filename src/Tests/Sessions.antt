-- ===== src/Tests/Sessions.antt =====
-- Requests of one client through the pipeline.
use oxidized_wall.Base.{
  ◌-◌, ◌≤◌, ◌≡◌, refl, List, some, [], ◌∷◌, arith, ip_eq, nat_eq, list_eq, codes,
}
use oxidized_wall.Ban
use oxidized_wall.Proxy.Verify.Sessions.{Arrival, session, session-within_window}
use oxidized_wall.Dict.{get}
use oxidized_wall.Tests.Instances.{other_client, config, http, engines}
use oxidized_wall.Tests.Proxy.{table, request, parse_ip, peer, counted}

abbrev arrival : Arrival http
arrival = record { at = 20; ban_at = 30; req = request (codes "/index"); remote_addr = peer }

abbrev arrivals : List (Arrival http)
arrivals = arrival ∷ arrival ∷ arrival ∷ []

open_window : table.get counted.records other_client ≡ some (record { count = 1; last_reset = 10 })
unfolding get
open_window = refl

session-within_window_example :
    (session table http engines parse_ip (config 3 60) other_client arrivals Ban.new counted).2
    ≤ (config 3 60).limit.max_rps - 1
session-within_window_example =
    session-within_window table http engines parse_ip (config 3 60) other_client arrivals Ban.new
      counted (record { count = 1; last_reset = 10 }) (omega arith) (omega arith) open_window
      (omega arith) (omega arith, (omega arith, (omega arith, tt)))
