-- ===== src/Proxy/Upstream.antt =====
-- The messages that the handlers of src/proxy.rs pass on, `handle_http`, `handle_websocket`, and the
-- bodies that `https_proxy` admits, up to the outcomes of the network.
use oxidized_wall.Base.{
  ℕ, ◌≤◌, String, ◌≡◌, Bool, true, false, Option, none, some, ◌++◌, ip_eq, nat_eq, list_eq, IpAddr,
  Str, Bytes, codes, if◌then◌else◌, nat_eqb, unwrap_or, Result, ok, err, length,
}
use oxidized_wall.Ban.{Violation}
use oxidized_wall.Config.{Config}
use oxidized_wall.Http.{Http, Method, target, header_text}
use oxidized_wall.Proxy.{
  Parts, ErrorResponse, error_response, is_websocket, sanitize_response_headers,
}
use oxidized_wall.Waf
use oxidized_wall.Waf.{Engines, Bodies, apply_dlp}

-- `hyper::Version`.
pub data Version : Type 0 where
  http_09 http_10 http_11 http_2 http_3 : Version

-- The methods whose bodies are collected and inspected.
unfoldable pub is_buffered : Method → Bool
is_buffered Method.post = true
is_buffered Method.put = true
is_buffered Method.patch = true
is_buffered _ = false

unfoldable pub downgraded : Version → Version
downgraded http_2 = http_11
downgraded version = version

module _ (H : Http) (B : Bodies) where
  pub record Request : Type 0 where
    pub head : Parts H
    pub version : Version
    pub body : B.Body

  pub record Response : Type 0 where
    pub status : ℕ
    pub headers : H.HeaderMap
    pub body : B.Body

  -- An error response with its empty body.
  abbrev pub empty_response : ErrorResponse H → Response
  empty_response e = record { status = e.status; headers = e.headers; body = B.empty }

  -- What the handlers take from the network: a body collected up to a limit, `none` where it is
  -- longer or fails; the boxed `ThrottledBody` over a body; the upstream's response within
  -- `s_response`, by the pooled client and on a connection of its own; whether a connection is made
  -- within `s_connect`; hyper's error in the handshake on it; and whether `c_body_timeout` passes
  -- before the answer is there.
  pub record Network : Type 0 where
    pub limited : ℕ → B.Body → Option Bytes
    pub limited_lem :
        (n : ℕ) (body : B.Body) (bytes : Bytes) → limited n body ≡ some bytes → length bytes ≤ n
    pub throttled : IpAddr → ℕ → B.Body → B.Body
    pub request : Request → Option Response
    pub connect : Str → Bool
    pub handshake_error : Str → Option String
    pub send_request : Str → Request → Option Response
    pub is_late : Bool

  -- The redirect; the builder fails on a location that is no header value.
  unfoldable pub redirect : Parts H → Response
  redirect req =
      let host = unwrap_or (header_text H req.headers (codes "host")) (codes "localhost") in
      elim (H.try_from (codes "https://" ++ (host ++ target H req.uri))) [
        | some location ↦ record {
          status = 308;
          headers = H.insert H.empty (codes "Location") location;
          body = B.empty;
        }
        | none ↦ empty_response (error_response H 500)
      ]

  module _ (E : Engines) (N : Network) where
    -- The request with the version and the URI that the upstream gets.
    unfoldable pub rewritten : Str → Request → Request
    rewritten upstream_addr req =
        let uri_str = codes "http://" ++ (upstream_addr ++ target H req.head.uri) in
        record req {
          head = record req.head { uri = unwrap_or (H.parse_uri uri_str) req.head.uri };
          version = downgraded req.version;
        }

    unfoldable pub handle_http : Request → Str → IpAddr → ℕ → Response
    unfolding rewritten
    handle_http req upstream_addr remote_ip max_bw =
        elim (N.request (rewritten upstream_addr req)) [
          | some res ↦
              let headers = sanitize_response_headers H res.headers in
              record {
                status = res.status;
                headers = headers;
                body = apply_dlp H E B headers (N.throttled remote_ip max_bw res.body);
              }
          | none ↦ empty_response (error_response H 504)
        ]

    -- The two responses to a request for a WebSocket: where the upstream switches protocols, and
    -- where it does not.
    abbrev pub switched : Response → Response
    switched res = record {
      status = 101;
      headers = sanitize_response_headers H res.headers;
      body = B.empty;
    }

    abbrev pub not_switched : Response → IpAddr → ℕ → Response
    not_switched res remote_ip max_bw = record res { body = N.throttled remote_ip max_bw res.body }

    unfoldable pub handle_websocket : Request → Str → IpAddr → ℕ → Result String Response
    handle_websocket req addr remote_ip max_bw = elim (N.handshake_error addr) [
      | some e ↦ err e
      | none ↦ elim (N.send_request addr (record req { body = B.empty })) [
        | none ↦ ok (empty_response (error_response H 504))
        | some res ↦
            if nat_eqb res.status 101
            then ok (switched res)
            else ok (not_switched res remote_ip max_bw)
      ]
    ]

    -- What `https_proxy` does with the chosen upstream; `none` is the outcome without a response.
    unfoldable pub deliver : Request → Str → IpAddr → ℕ → Option (Result String Response)
    unfolding handle_http handle_websocket
    deliver req addr remote_ip max_bw =
        if is_websocket H req.head.headers
        then (if N.connect addr then some (handle_websocket req addr remote_ip max_bw) else none)
        else some (ok (handle_http req addr remote_ip max_bw))

    -- Step 2: the body of the request to the upstream, or the violation and the status.
    unfoldable pub admit : Config → Request → Result (Violation × ℕ) B.Body
    admit config req =
        if is_buffered req.head.method
        then elim (N.limited config.limit.max_body_size req.body) [
          | none ↦ err (Violation.protocol, 413)
          | some bytes ↦ elim (Waf.body H E req.head.headers bytes) [
            | err reason ↦ err (Violation.waf, 403)
            | ok _ ↦ ok (B.full bytes)
          ]
        ]
        else ok req.body
