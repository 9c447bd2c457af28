-- ===== src/Proxy/Handlers/Sent.antt =====
-- What `https_proxy` of src/proxy.rs sends to an upstream.
use oxidized_wall.Proxy.Handlers.Laws.{admit_passes}
use oxidized_wall.Base.{
  err, Result-cases, is_err, ◌≤◌, length, some, ok, Bytes, ◌⊎◌, ℕ, ◌≡◌, refl, inl, inr, Bool, true,
  false, Option, arith, ip_eq, nat_eq, list_eq, IpAddr, Str, Option-cases, Instant,
}
use oxidized_wall.Config.{Config}
use oxidized_wall.Ban.{BanManager}
use oxidized_wall.Proxy.{SocketAddr, get_real_ip}
use oxidized_wall.Proxy.Verify.{verify_request}
use oxidized_wall.Dict.{DashMap}
use oxidized_wall.Http.{Http, Method}
use oxidized_wall.Proxy.Handlers.{https_proxy, forward, route, dispatch, Shared}
use oxidized_wall.Proxy.Upstream.{
  handle_http, handle_websocket, rewritten, is_buffered, admit, Request, Response, Network, deliver,
}
use oxidized_wall.RateLimit.{RateLimiter, RateState}
use oxidized_wall.Waf
use oxidized_wall.Waf.{Engines, Bodies}

-- POST, PUT and PATCH.
abbrev pub has_payload : Method → Bool
has_payload Method.post = true
has_payload Method.put = true
has_payload Method.patch = true
has_payload _ = false

is_buffered-has_payload :
    (method : Method) → is_buffered method ≡ false → has_payload method ≡ false
unfolding is_buffered
is_buffered-has_payload Method.post e = e
is_buffered-has_payload Method.put e = e
is_buffered-has_payload Method.patch e = e
is_buffered-has_payload _ e = refl

module _ (H : Http) (B : Bodies) where
  -- The second request has the method and the headers of the first.
  abbrev pub IsLike : Request H B → Request H B → Type 0
  IsLike req r = (r.head.method ≡ req.head.method) × (r.head.headers ≡ req.head.headers)

module _ (H : Http) (E : Engines) (B : Bodies) (N : Network H B) where
  -- What the body of a request to an upstream is: the client's own where the method is not POST,
  -- PUT or PATCH; otherwise the collected one, which is within the size limit and passed the
  -- inspection.
  abbrev pub MaySend : Config → Request H B → B.Body → Type 0
  MaySend config req body =
      ((has_payload req.head.method ≡ false) × (body ≡ req.body))
      ⊎ ((bytes : Bytes) × (body ≡ B.full bytes)
          × (N.limited config.limit.max_body_size req.body ≡ some bytes)
          × (length bytes ≤ config.limit.max_body_size)
          × (is_err (Waf.body H E req.head.headers bytes) ≡ false))

  admit-MaySend :
      (config : Config) (req : Request H B) (body : B.Body)
      → admit H B E N config req ≡ ok body
      → MaySend config req body
  admit-MaySend config req body e = elim (admit_passes H B E N config req body e) [
    | inl (streamed, same) ↦ inl (is_buffered-has_payload req.head.method streamed, same)
    | inr inspected ↦ inr inspected
  ]

module _ (H : Http) (E : Engines) (B : Bodies) (N : Network H B)
    (ask : Request H B → Option (Response H B))
    (ask_upgrade : Str → Request H B → Option (Response H B)) where
  -- The network with other answers of the upstreams.
  abbrev pub other_answers : Network H B
  other_answers = record N { request = ask; send_request = ask_upgrade }

  -- The answers are the same to the request with its method and headers, with its body or, in an
  -- upgrade, with none.
  Agree : Request H B → Type 0
  Agree req =
      ((r : Request H B) → IsLike H B req r → r.body ≡ req.body → ask r ≡ N.request r)
      × ((addr : Str) (r : Request H B)
          → IsLike H B req r
          → r.body ≡ B.empty
          → ask_upgrade addr r ≡ N.send_request addr r)

  handle_http_sends :
      (req : Request H B) (addr : Str) (ip : IpAddr) (max_bw : ℕ)
      → Agree req
      → handle_http H B E other_answers req addr ip max_bw ≡ handle_http H B E N req addr ip max_bw
  unfolding handle_http Agree rewritten
  handle_http_sends req addr ip max_bw (same, _) =
      let answers = same (rewritten H B E N addr req) (refl, refl) refl in ground arith

  handle_websocket_sends :
      (req : Request H B) (addr : Str) (ip : IpAddr) (max_bw : ℕ)
      → Agree req
      → handle_websocket H B E other_answers req addr ip max_bw
        ≡ handle_websocket H B E N req addr ip max_bw
  unfolding handle_websocket Agree
  handle_websocket_sends req addr ip max_bw (_, same_upgrade) =
      let answers = same_upgrade addr (record req { body = B.empty }) (refl, refl) refl in
      ground arith

  deliver_sends :
      (req : Request H B) (addr : Str) (ip : IpAddr) (max_bw : ℕ)
      → Agree req
      → deliver H B E other_answers req addr ip max_bw ≡ deliver H B E N req addr ip max_bw
  unfolding deliver
  deliver_sends req addr ip max_bw agree =
      let plain = handle_http_sends req addr ip max_bw agree in
      let upgrade = handle_websocket_sends req addr ip max_bw agree in ground arith

  module _ (D : DashMap IpAddr RateState) (parse_ip : Str → Option IpAddr)
      (is_healthy : Str → Bool) where
    dispatch_sends :
        (ban_at : Instant) (req : Request H B) (ip : IpAddr) (s : Shared D)
        → Agree req
        → dispatch D H E B parse_ip other_answers is_healthy ban_at req ip s
          ≡ dispatch D H E B parse_ip N is_healthy ban_at req ip s
    unfolding dispatch
    dispatch_sends ban_at req ip s agree =
        elim (Option-cases (route H is_healthy s.config req.head).1) [
          | inl nowhere ↦ ground arith
          | inr (addr, chosen) ↦
              let same =
                deliver_sends req addr ip
                  (route H is_healthy s.config req.head).0.limit.max_bandwidth agree in
              ground arith
        ]

    forward_sends :
        (ban_at : Instant) (req : Request H B) (ip : IpAddr) (s : Shared D)
        → ((body : B.Body) → MaySend H E B N s.config req body → Agree (record req { body = body }))
        → forward D H E B parse_ip other_answers is_healthy ban_at req ip s
          ≡ forward D H E B parse_ip N is_healthy ban_at req ip s
    unfolding forward admit
    forward_sends ban_at req ip s agree = elim (Result-cases (admit H B E N s.config req)) [
      | inr (body, admitted) ↦
          let same =
            dispatch_sends ban_at (record req { body = body }) ip s
              (agree body (admit-MaySend H E B N s.config req body admitted)) in
          ground arith
      | inl ((violation, status), refused) ↦ ground arith
    ]

    -- What the HTTPS handler does depends on the answers of the upstreams to these requests only,
    -- and only if the request that came in passes the pipeline. A pooled request has its method and
    -- headers, and either its body as it is, where the method is not POST, PUT or PATCH, or the body
    -- collected from it, which is within the size limit and passed the inspection. An upgrade has
    -- its method and headers, and no body.
    pub https_proxy_sends :
        (at ban_at : Instant) (req : Request H B) (remote_addr : SocketAddr) (s : Shared D)
        → ((bans : BanManager) (limiter : RateLimiter D)
            → verify_request D H E parse_ip at ban_at req.head remote_addr s.config s.bans s.limiter
              ≡ some (bans, limiter, ok tt)
            → ((r : Request H B)
                → IsLike H B req r
                → MaySend H E B N s.config req r.body
                → ask r ≡ N.request r)
              × ((addr : Str) (r : Request H B)
                  → IsLike H B req r
                  → r.body ≡ B.empty
                  → ask_upgrade addr r ≡ N.send_request addr r))
        → https_proxy D H E B parse_ip other_answers is_healthy at ban_at req remote_addr s
          ≡ https_proxy D H E B parse_ip N is_healthy at ban_at req remote_addr s
    unfolding https_proxy Agree
    https_proxy_sends at ban_at req remote_addr s agree =
        elim (Option-cases (
          verify_request D H E parse_ip at ban_at req.head remote_addr s.config s.bans s.limiter)) [
            | inl panics ↦ ground arith
            | inr ((bans, limiter, err refusal), refused) ↦ ground arith
            | inr ((bans, limiter, ok _), passes) ↦
                let (same, same_upgrade) = agree bans limiter passes in
                let sends =
                  forward_sends ban_at req (get_real_ip H parse_ip req.head.headers remote_addr)
                    (record s { bans = bans; limiter = limiter })
                    (λ body may. (λ r like e. same r like (rw e may), same_upgrade)) in
                ground arith
          ]
