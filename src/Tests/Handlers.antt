-- ===== src/Tests/Handlers.antt =====
-- The handlers at concrete requests.
use oxidized_wall.Base.{
  nat_eqb, inl, inr, opt_map, ℕ, ◌≤◌, ◌≡◌, refl, ◌⊎◌, Bool, true, false, Option, none, some, List,
  [], ◌∷◌, arith, ip_eq, nat_eq, list_eq, IpAddr, Str, Bytes, codes, if◌then◌else◌, leb, ok, length,
  utf8_len,
}
use oxidized_wall.Dict.{insert, DashMap, list_map, get}
use oxidized_wall.Proxy.Handlers.Redirect.{
  location, IsRedirect, IsError, http_proxy_passes, http_proxy_answers,
}
use oxidized_wall.Proxy.Verify.{verify_request}
use oxidized_wall.Ban
use oxidized_wall.Ban.{Violation}
use oxidized_wall.Proxy.Verify.Laws.{first_violation, checks}
use oxidized_wall.Proxy.Handlers.Sent.{MaySend, other_answers, https_proxy_sends}
use oxidized_wall.Config.{Config}
use oxidized_wall.Http.{Method}
use oxidized_wall.Proxy.{
  sanitize_response_headers, SocketAddr, error_response, get_real_ip, get_host, is_websocket,
}
use oxidized_wall.Proxy.Routes.{best_match}
use oxidized_wall.Proxy.Upstream.{redirect, Version, Request, Response, Network, is_buffered}
use oxidized_wall.Proxy.Handlers.{http_proxy, https_proxy, route, Shared}
use oxidized_wall.Proxy.Handlers.Laws.{https_proxy_served, https_proxy-IsSanitized, IsSanitized}
use oxidized_wall.RateLimit
use oxidized_wall.RateLimit.{RateState, RateLimiter}
use oxidized_wall.Waf
use oxidized_wall.Tests.Instances.{client, config, http, engines, bodies}

abbrev table : DashMap IpAddr RateState
table = list_map

-- A page of an upstream, with an address in it.
abbrev page : Response http bodies
page = record {
  status = 200;
  headers = (codes "Server", codes "nginx") ∷ (codes "Content-Type", codes "text/html") ∷ [];
  body = some (codes "ann@b.cd");
}

abbrev limited : ℕ → Option Bytes → Option Bytes
limited n none = none
limited n (some bytes) = if leb (length bytes) n then some bytes else none

limited_lem :
    (n : ℕ) (body : Option Bytes) (bytes : Bytes) → limited n body ≡ some bytes → length bytes ≤ n
limited_lem n none bytes e = absurd (cc)
limited_lem n (some b) bytes e = ground arith

-- Every upstream answers with the page, in time.
abbrev network : Network http bodies
network = record {
  limited = limited;
  limited_lem = limited_lem;
  throttled = λ _ _ b. b;
  request = λ _. some page;
  connect = λ _. true;
  handshake_error = λ _. none;
  send_request = λ _ _. some page;
  is_late = false;
}

abbrev pub request : Method → List (Str × Str) → Request http bodies
request method more = record {
  head = record {
    method = method;
    uri = record { authority = none; path_text = codes "/api/x"; query_text = none };
    headers = (codes "Host", codes "a.example:443") ∷ more;
  };
  version = Version.http_11;
  body = some (codes "a=1");
}

abbrev upgrade : List (Str × Str)
upgrade = (codes "Upgrade", codes "WebSocket") ∷ []

abbrev peer : SocketAddr
peer = record { ip = client; port = 4000 }

abbrev parse_ip : Str → Option IpAddr
parse_ip s = none

-- The state at the start, and after a request that was counted and routed.
abbrev start : Shared table
start = record { config = config 3 60; bans = Ban.new; limiter = RateLimit.new table }

abbrev pub all_well : Str → Bool
all_well a = true

abbrev routed : Config
routed = (route http all_well (config 3 60) (request Method.get []).head).0

abbrev counted : RateLimiter table
counted = record { records = (client, record { count = 1; last_reset = 10 }) ∷ [] }

routed_to :
    route http all_well (config 3 60) (request Method.get []).head
    ≡ (routed, some (codes "10.0.0.1:80"))
unfolding route get get_host oxidized_wall.Waf.Structure.split_next best_match
    oxidized_wall.Proxy.Balance.select_upstream
routed_to = refl

no_upgrade : is_websocket http (request Method.get []).head.headers ≡ false
unfolding is_websocket
no_upgrade = refl

get_streams : is_buffered Method.get ≡ false
unfolding is_buffered
get_streams = refl

plain_passes :
    verify_request table http engines parse_ip 10 20
      (request Method.get []).head
      peer
      (config 3 60)
      Ban.new
      (RateLimit.new table)
    ≡ some (Ban.new, counted, ok tt)
unfolding verify_request RateLimit.check get RateLimit.new oxidized_wall.Proxy.Verify.inspect
    oxidized_wall.Protocol.validate oxidized_wall.Proxy.Verify.uri_len utf8_len
    oxidized_wall.Proxy.Verify.is_served Waf.header oxidized_wall.Waf.Path.is_traversal
    oxidized_wall.Waf.Path.normalize_url oxidized_wall.Waf.Core.is_attack insert get_real_ip
plain_passes = refl

-- The page as it reaches the client.
abbrev served : Response http bodies
served = record {
  status = 200;
  headers = sanitize_response_headers http page.headers;
  body = Waf.apply_dlp http engines bodies (sanitize_response_headers http page.headers) page.body;
}

answered :
    https_proxy table http engines bodies parse_ip network all_well 10 20
      (request Method.get [])
      peer
      start
    ≡ some (record { config = routed; bans = Ban.new; limiter = counted }, ok served)
answered =
    https_proxy_served table http engines bodies parse_ip network all_well 10 20
      (request Method.get []) peer start Ban.new counted routed (codes "10.0.0.1:80") page
      plain_passes get_streams routed_to refl no_upgrade refl

https_proxy-IsSanitized_example : IsSanitized http bodies served
https_proxy-IsSanitized_example =
    https_proxy-IsSanitized table http engines bodies parse_ip network all_well 10 20
      (request Method.get []) peer start
      (record { config = routed; bans = Ban.new; limiter = counted }) served no_upgrade answered

http_proxy_redirects :
    http_proxy table http engines bodies parse_ip 10 20 (request Method.get []) peer start
    ≡ some (
      record { config = config 3 60; bans = Ban.new; limiter = counted },
      ok (redirect http bodies (request Method.get []).head),
    )
http_proxy_redirects =
    http_proxy_passes table http engines bodies parse_ip 10 20 (request Method.get []) peer start
      Ban.new counted plain_passes

http_proxy_answers_example :
    ((verify_request table http engines parse_ip 10 20
          (request Method.get []).head
          peer
          (config 3 60)
          Ban.new
          (RateLimit.new table)
        ≡ some (Ban.new, counted, ok tt))
      × (Ban.new ≡ Ban.new)
      × (((v : Str) × (http.try_from (location http bodies (request Method.get []).head) ≡ some v)
            × IsRedirect http bodies v (redirect http bodies (request Method.get []).head))
          ⊎ ((http.try_from (location http bodies (request Method.get []).head) ≡ none)
              × IsError http bodies 500 (redirect http bodies (request Method.get []).head))))
    ⊎ ((v : Violation) × (status : ℕ) × (first_violation (
            checks table http engines parse_ip
              (RateLimit.check table 10
                (get_real_ip http parse_ip (request Method.get []).head.headers peer)
                (config 3 60)
                (RateLimit.new table)).1
              (request Method.get []).head
              (config 3 60))
          ≡ some (v, status))
        × IsError http bodies status (redirect http bodies (request Method.get []).head))
http_proxy_answers_example =
    http_proxy_answers table http engines bodies parse_ip 10 20 (request Method.get []) peer start
      (record { config = config 3 60; bans = Ban.new; limiter = counted })
      (redirect http bodies (request Method.get []).head) http_proxy_redirects

-- Upstreams that answer only a pooled request with a body, and only an upgrade whose body is empty.
abbrev ask : Request http bodies → Option (Response http bodies)
ask r = opt_map (λ bytes. page) r.body

abbrev ask_upgrade : Str → Request http bodies → Option (Response http bodies)
ask_upgrade addr r = elim r.body [
  | none ↦ none
  | some bytes ↦ if nat_eqb (length bytes) 0 then some page else none
]

ask-page :
    (r : Request http bodies)
    → MaySend http engines bodies network (config 3 60) (request Method.post []) r.body
    → ask r ≡ some page
ask-page r (inl (bodiless, _)) = absurd (cc)
ask-page r (inr (bytes, there, _, _, _)) = rw there refl

ask_upgrade-page :
    (addr : Str) (r : Request http bodies) → r.body ≡ some [] → ask_upgrade addr r ≡ some page
ask_upgrade-page addr r e = rw e refl

https_proxy_sends_example :
    https_proxy table http engines bodies parse_ip
      (other_answers http engines bodies network ask ask_upgrade)
      all_well
      10
      20
      (request Method.post [])
      peer
      start
    ≡ https_proxy table http engines bodies parse_ip network all_well 10 20
        (request Method.post [])
        peer
        start
https_proxy_sends_example =
    https_proxy_sends http engines bodies network ask ask_upgrade table parse_ip all_well 10 20
      (request Method.post []) peer start
      (λ bans limiter passes.
        (λ r like may. ask-page r may, λ addr r like bare. ask_upgrade-page addr r bare))
