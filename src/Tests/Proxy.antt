-- ===== src/Tests/Proxy.antt =====
-- The proxy at concrete requests.
use oxidized_wall.Proxy.Routes.Laws.{In, IsFunctional}
use oxidized_wall.Dict.{insert, DashMap, HashMap, list_map, get}
use oxidized_wall.Base.{
  inr, sym, ◌∙◌, ap, inl, ◌↔◌, ◌≢◌, ℕ, ◌+◌, ◌≤◌, ◌≡◌, refl, Bool, true, false, ◌&&◌, Option, none,
  some, List, [], ◌∷◌, arith, ◌==◌, ip_eq, nat_eq, list_eq, IpAddr, Str, codes, if◌then◌else◌, ltb,
  leb, opt_map, unwrap_or, is_err, ok, err, any, from_secs, utf8_len,
}
use oxidized_wall.Ban
use oxidized_wall.Ban.{BanManager, Violation, duration_sec}
use oxidized_wall.Ban.Spec.{is_banned}
use oxidized_wall.RateLimit
use oxidized_wall.RateLimit.{RateState, RateLimiter}
use oxidized_wall.Http.{Method}
use oxidized_wall.Protocol.{validate}
use oxidized_wall.Waf
use oxidized_wall.Proxy.{
  SocketAddr, Parts, error_response, get_real_ip, sanitize_response_headers, removed_headers,
  security_headers,
}
use oxidized_wall.Proxy.Sanitize.{same_name, last_row, get_all-sanitize_response_headers}
use oxidized_wall.Proxy.Balance.{select_upstream}
use oxidized_wall.Proxy.Routes.{best_match, sort_routes}
use oxidized_wall.Proxy.Verify.{verify_request, uri_len, is_served}
use oxidized_wall.Proxy.Verify.Limits.{verify_request-ok_iff, written_len, OneOf, served_methods}
use oxidized_wall.Proxy.Verify.Laws.{checks, first_violation, verify_request_refuses}
use oxidized_wall.Tests.Instances.{client, other_client, config, http, engines}

get_all-sanitize_response_headers_example :
    http.get_all
      (sanitize_response_headers http ((codes "server", codes "nginx") ∷ []))
      (codes "SERVER")
    ≡ unwrap_or
        (opt_map (λ v. http.from_static v ∷ []) (last_row (codes "SERVER") (security_headers http)))
        (if any (same_name (codes "SERVER")) (removed_headers http)
          then []
          else http.get_all ((codes "server", codes "nginx") ∷ []) (codes "SERVER"))
get_all-sanitize_response_headers_example =
    get_all-sanitize_response_headers http ((codes "server", codes "nginx") ∷ []) (codes "SERVER")

abbrev upstreams : List Str
upstreams = codes "a:1" ∷ codes "b:1" ∷ []

-- The first upstream is ill.
abbrev b_only : Str → Bool
b_only a = a == codes "b:1"

skips_ill : select_upstream b_only upstreams 4 ≡ (5, some (codes "b:1"))
unfolding select_upstream
skips_ill = refl

abbrev routes : List (Str × List Str)
routes = (codes "/", codes "a:1" ∷ []) ∷ (codes "/api", codes "b:1" ∷ []) ∷ []

abbrev state : HashMap Str ℕ
state = (codes "/", 0) ∷ (codes "/api", 7) ∷ []

best_of_two :
    best_match (codes "/api/x") (sort_routes routes) state
    ≡ some (codes "/api", codes "b:1" ∷ [], 7)
unfolding best_match sort_routes get utf8_len
best_of_two = refl

abbrev one_route : List (Str × List Str)
one_route = (codes "/", codes "a:1" ∷ []) ∷ []

abbrev same_route_twice : List (Str × List Str)
same_route_twice = (codes "/", codes "a:1" ∷ []) ∷ (codes "/", codes "a:1" ∷ []) ∷ []

one_list_each : IsFunctional (codes "/api/x") state one_route
one_list_each q us vs (inl e) (inl f) =
    ap (λ (r : Str × List Str). r.1) e ∙ sym (ap (λ (r : Str × List Str). r.1) f)
one_list_each q us vs (inl e) (inr k) = absurd k
one_list_each q us vs (inr k) _ = absurd k

same_routes : (x : Str × List Str) → In x one_route ↔ In x same_route_twice
same_routes x = (λ a. inl (ground (arith)), λ a. inl (ground (arith)))

abbrev pub table : DashMap IpAddr RateState
table = list_map

-- A request of the path, which names the other client as its sender.
abbrev pub request : Str → Parts http
request path = record {
  method = Method.get;
  uri = record { authority = none; path_text = path; query_text = none };
  headers = (codes "Host", codes "a.example") ∷ (codes "CF-Connecting-IP", codes "2") ∷ [];
}

-- The parser of addresses, for the two that the tests use.
abbrev pub parse_ip : Str → Option IpAddr
parse_ip s = if s == codes "2" then some other_client else none

abbrev pub peer : SocketAddr
peer = record { ip = client; port = 4000 }

abbrev pub counted : RateLimiter table
counted = record { records = (other_client, record { count = 1; last_reset = 10 }) ∷ [] }

abbrev pub banned_other : BanManager
banned_other = record { banned_ips = (other_client, record { expire_at = 20 + from_secs 60 }) ∷ [] }

pub refused :
    verify_request table http engines parse_ip 10 20
      (request (codes "/../etc"))
      peer
      (config 3 60)
      Ban.new
      (RateLimit.new table)
    ≡ some (banned_other, counted, err (error_response http 403))
unfolding verify_request RateLimit.check RateLimit.new get oxidized_wall.Proxy.Verify.inspect
    validate uri_len utf8_len is_served Waf.header oxidized_wall.Waf.Path.is_traversal
    oxidized_wall.Waf.Path.normalize_url oxidized_wall.Proxy.Verify.refuse Ban.punish insert Ban.new
    get_real_ip
refused = refl

verify_request-ok_iff_example :
    (verify_request table http engines parse_ip 10 20
        (request (codes "/index"))
        peer
        (config 3 60)
        Ban.new
        (RateLimit.new table)
      ≡ some (Ban.new, counted, ok tt))
    ↔ ((Ban.new ≡ Ban.new)
        × ((RateLimit.check table 10
              (get_real_ip http parse_ip (request (codes "/index")).headers peer)
              (config 3 60)
              (RateLimit.new table))
            ≡ (counted, true))
        × (is_err (
              validate http
                (request (codes "/index")).headers
                Method.get
                (request (codes "/index")).uri)
            ≡ false)
        × (http.len (request (codes "/index")).headers ≤ 10)
        × (written_len http (request (codes "/index")).uri ≤ 100)
        × OneOf Method.get served_methods
        × (is_err (
              Waf.header http engines
                (request (codes "/index")).uri
                Method.get
                (request (codes "/index")).headers)
            ≡ false))
verify_request-ok_iff_example =
    verify_request-ok_iff table http engines parse_ip 10 20 (request (codes "/index")) peer
      (config 3 60) Ban.new Ban.new (RateLimit.new table) counted

verify_request_refuses_example :
    (v : Violation) × (s : ℕ) × (first_violation (
        checks table http engines parse_ip
          (RateLimit.check table 10
            (get_real_ip http parse_ip (request (codes "/../etc")).headers peer)
            (config 3 60)
            (RateLimit.new table)).1
          (request (codes "/../etc"))
          (config 3 60))
      ≡ some (v, s))
    × (error_response http 403 ≡ error_response http s)
    × (is_banned 99 client banned_other ≡ (
        if (get_real_ip http parse_ip (request (codes "/../etc")).headers peer == client)
          && ltb 0 (duration_sec v (config 3 60))
        then leb 99 (20 + from_secs (duration_sec v (config 3 60)))
        else is_banned 99 client Ban.new))
verify_request_refuses_example =
    verify_request_refuses table http engines parse_ip 10 20 (request (codes "/../etc")) peer
      (config 3 60) Ban.new banned_other (RateLimit.new table) counted (error_response http 403) 99
      client refused

another_named : get_real_ip http parse_ip (request (codes "/../etc")).headers peer ≢ peer.ip
unfolding get_real_ip
another_named e = absurd (ground arith)
