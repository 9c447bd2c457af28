-- ===== src/Tests/Server.antt =====
-- Two servers over three permits, and whom they turn away.
use oxidized_wall.Base.{
  ℕ, ◌+◌, ◌*◌, ◌≤◌, ◌≡◌, refl, ◌&&◌, ◌==◌, true, false, some, List, [], ◌∷◌, ip_eq, nat_eq, list_eq,
  codes, if◌then◌else◌, ltb, leb, opt_map, from_secs,
}
use oxidized_wall.Ban
use oxidized_wall.Ban.{Violation, duration_sec}
use oxidized_wall.Proxy.{error_response, get_real_ip}
use oxidized_wall.Proxy.Verify.{verify_request}
use oxidized_wall.Proxy.Verify.Laws.{first_violation, checks}
use oxidized_wall.RateLimit
use oxidized_wall.Server.{
  Server, Site, Listening, Stage, accepting, acquiring, draining, serving, handshake, on_accept,
  Move, Task,
}
use oxidized_wall.Server.Admission.{answer, on_accept-verify_request, verify_request_ignores_bans}
use oxidized_wall.Server.Shutdown.{all_left}
use oxidized_wall.Server.Shutdown.Work.{all_work, all_arrivals, Reach-work}
use oxidized_wall.Server.System.{System, Step, turn, Reach, here, next}
use oxidized_wall.Tests.Instances.{other_client, config, http, engines}
use oxidized_wall.Tests.Proxy.{table, request, parse_ip, peer, refused, banned_other, counted}

abbrev fresh : Site
fresh = record { permits = 3; cancelled = false; bans = Ban.new }

abbrev plain : Listening → List Stage → Server
plain listening conn_set = record { tls = false; listening = listening; conn_set = conn_set }

abbrev secure : Listening → List Stage → Server
secure listening conn_set = record { tls = true; listening = listening; conn_set = conn_set }

abbrev idle : System
idle = record { site = fresh; servers = plain accepting [] ∷ secure accepting [] ∷ [] }

-- The second server has a connection in hand, and then in the handshake.
abbrev met : System
met = record { site = fresh; servers = plain accepting [] ∷ secure (acquiring peer) [] ∷ [] }

abbrev shaking : System
shaking = record {
  site = record fresh { permits = 2 };
  servers = plain accepting [] ∷ secure accepting (handshake ∷ []) ∷ [];
}

accepts : (on_accept 7 (some peer) Ban.new) ≡ (Ban.new, acquiring peer)
unfolding on_accept Ban.check Ban.new oxidized_wall.Dict.get
accepts = refl

to_met : Step idle met
unfolding on_accept Ban.check Ban.new oxidized_wall.Dict.get
to_met =
    turn (plain accepting [] ∷ []) [] (secure accepting []) (secure (acquiring peer) [])
      (Move.accept 7 (some peer) refl refl refl) refl refl

to_shaking : Step met shaking
unfolding oxidized_wall.Server.first_stage
to_shaking =
    turn (plain accepting [] ∷ []) [] (secure (acquiring peer) [])
      (secure accepting (handshake ∷ [])) (Move.acquire peer 2 refl refl refl refl) refl refl

visit : Reach idle shaking
visit = next (next here to_met) to_shaking

Reach-work_example :
    all_left shaking.servers + all_work visit ≤ all_left idle.servers + 5 * all_arrivals visit
Reach-work_example = Reach-work visit

-- A server with a connection in hand and no permit left, and one that serves, after the signal.
abbrev busy : System
busy = record {
  site = record { permits = 0; cancelled = true; bans = Ban.new };
  servers = plain (acquiring peer) [] ∷ secure accepting (serving ∷ handshake ∷ []) ∷ [];
}

on_accept-verify_request_example :
    (v : Violation) × (s : ℕ) × (first_violation (
        checks table http engines parse_ip
          (RateLimit.check table 10
            (get_real_ip http parse_ip (request (codes "/../etc")).headers peer)
            (config 3 60)
            (RateLimit.new table)).1
          (request (codes "/../etc"))
          (config 3 60))
      ≡ some (v, s))
    × (error_response http 403 ≡ error_response http s)
    × ((on_accept 30 (some (record { ip = other_client; port = 9 })) banned_other).1 ≡ (
        if (get_real_ip http parse_ip (request (codes "/../etc")).headers peer == other_client)
          && ltb 0 (duration_sec v (config 3 60))
        then (if leb 30 (20 + from_secs (duration_sec v (config 3 60)))
            then accepting
            else acquiring (record { ip = other_client; port = 9 }))
        else (on_accept 30 (some (record { ip = other_client; port = 9 })) Ban.new).1))
on_accept-verify_request_example =
    on_accept-verify_request table http engines parse_ip 10 20 (request (codes "/../etc")) peer
      (config 3 60) Ban.new banned_other (RateLimit.new table) counted (error_response http 403) 30
      (record { ip = other_client; port = 9 }) refused

verify_request_ignores_bans_example :
    opt_map (answer table http engines parse_ip) (
      verify_request table http engines parse_ip 10 20
        (request (codes "/index"))
        peer
        (config 3 60)
        banned_other
        (RateLimit.new table))
    ≡ opt_map (answer table http engines parse_ip) (
        verify_request table http engines parse_ip 10 20
          (request (codes "/index"))
          peer
          (config 3 60)
          Ban.new
          (RateLimit.new table))
verify_request_ignores_bans_example =
    verify_request_ignores_bans table http engines parse_ip 10 20 (request (codes "/index")) peer
      (config 3 60) banned_other Ban.new (RateLimit.new table)
