-- ===== src/Proxy/Handlers/Laws.antt =====
-- What the handlers answer, and which bodies are admitted.
use oxidized_wall.Base.{
  ℕ, ◌≤◌, ◌≡◌, refl, sym, ap, ◌∙◌, ◌⊎◌, inl, inr, Bool, false, Option, none, some, arith, ip_eq,
  nat_eq, list_eq, IpAddr, Str, Bytes, Bool-cases, Option-cases, is_err, Result, ok, err, length,
  Instant,
}
use oxidized_wall.Ban.{BanManager, Violation, punish}
use oxidized_wall.RateLimit.{RateLimiter, RateState}
use oxidized_wall.Proxy.Upstream.{
  rewritten, handle_http, is_buffered, Request, Response, Network, empty_response, deliver, admit,
}
use oxidized_wall.Waf
use mathlib.Core.Path.{subst}
use oxidized_wall.Proxy.Verify.{Verified, verify_request}
use oxidized_wall.Proxy.Verify.Laws.{verify_request_refuses}
use oxidized_wall.Config.{Config}
use oxidized_wall.Dict.{DashMap}
use oxidized_wall.Http.{Http}
use oxidized_wall.Proxy.{
  get_real_ip, SocketAddr, error_response, is_websocket, sanitize_response_headers,
}
use oxidized_wall.Proxy.Handlers.{route, dispatch, https_proxy, forward, Shared, rejected}
use oxidized_wall.Waf.{Engines, Bodies}

module _ (H : Http) (B : Bodies) where
  -- The response's headers are the result of sanitizing some headers.
  abbrev pub IsSanitized : Response H B → Type 0
  IsSanitized res = (m : H.HeaderMap) × (res.headers ≡ sanitize_response_headers H m)

  module _ (E : Engines) (N : Network H B) where
    -- An admitted body is the client's own where the method is not one of those
    -- that are buffered; otherwise it is within the size limit and passed the inspection.
    pub admit_passes :
        (config : Config) (req : Request H B) (body : B.Body)
        → admit H B E N config req ≡ ok body
        → ((is_buffered req.head.method ≡ false) × (body ≡ req.body))
          ⊎ ((bytes : Bytes) × (body ≡ B.full bytes)
              × (N.limited config.limit.max_body_size req.body ≡ some bytes)
              × (length bytes ≤ config.limit.max_body_size)
              × (is_err (Waf.body H E req.head.headers bytes) ≡ false))
    unfolding admit
    admit_passes config req body e = elim (Bool-cases (is_buffered req.head.method)) [
      | inr streamed ↦ inl (streamed, ground arith)
      | inl buffered ↦ elim (Option-cases (N.limited config.limit.max_body_size req.body)) [
        | inl large ↦ absurd (ground arith)
        | inr (bytes, fits) ↦ elim (Bool-cases (is_err (Waf.body H E req.head.headers bytes))) [
          | inl bad ↦ absurd (ground arith)
          | inr fine ↦ inr (bytes, ground arith, fits, N.limited_lem _ _ _ fits, fine)
        ]
      ]
    ]

    deliver-IsSanitized :
        (req : Request H B) (addr : Str) (ip : IpAddr) (max_bw : ℕ) (res : Response H B)
        → is_websocket H req.head.headers ≡ false
        → deliver H B E N req addr ip max_bw ≡ some (ok res)
        → IsSanitized res
    unfolding deliver handle_http error_response
    deliver-IsSanitized req addr ip max_bw res plain e =
        elim (Option-cases (N.request (rewritten H B E N addr req))) [
          | inl silent ↦ (H.empty, ground arith)
          | inr (r, answered) ↦ (r.headers, ground arith)
        ]

module _ (D : DashMap IpAddr RateState) (H : Http) (E : Engines) (B : Bodies) where
  rejected_sanitized :
      (parse_ip : Str → Option IpAddr) (ban_at : Instant) (ip : IpAddr) (v : Violation) (status : ℕ)
      (s s' : Shared D) (res : Response H B)
      → rejected D H E B parse_ip ban_at ip v status s ≡ some (s', ok res)
      → res ≡ empty_response H B (error_response H status)
  unfolding rejected
  rejected_sanitized parse_ip ban_at ip v status s s' res e =
      elim (Option-cases (punish ban_at ip v s.config s.bans)) [
        | inl panics ↦ absurd (ground arith)
        | inr (b, p) ↦ ground arith
      ]

  error-IsSanitized : (status : ℕ) → IsSanitized H B (empty_response H B (error_response H status))
  unfolding error_response
  error-IsSanitized status = (H.empty, refl)

  module _ (parse_ip : Str → Option IpAddr) (N : Network H B) (is_healthy : Str → Bool) where
    dispatch-IsSanitized :
        (ban_at : Instant) (req : Request H B) (ip : IpAddr) (s s' : Shared D) (res : Response H B)
        → is_websocket H req.head.headers ≡ false
        → dispatch D H E B parse_ip N is_healthy ban_at req ip s ≡ some (s', ok res)
        → IsSanitized H B res
    unfolding dispatch
    dispatch-IsSanitized ban_at req ip s s' res plain e =
        let config = (route H is_healthy s.config req.head).0 in
        let bw = config.limit.max_bandwidth in
        elim (Option-cases (route H is_healthy s.config req.head).1) [
          | inl nowhere ↦
              let same : empty_response H B (error_response H 502) ≡ res = ground arith in
              subst (IsSanitized H B) same (error-IsSanitized 502)
          | inr (addr, chosen) ↦ elim (Bool-cases N.is_late) [
            | inl late ↦
                subst (IsSanitized H B)
                  (sym (
                    rejected_sanitized parse_ip ban_at ip Violation.timeout 504
                      (record s { config = config }) s' res (ground arith)))
                  (error-IsSanitized 504)
            | inr in_time ↦ elim (Option-cases (deliver H B E N req addr ip bw)) [
              | inl lost ↦
                  let same : empty_response H B (error_response H 502) ≡ res = ground arith in
                  subst (IsSanitized H B) same (error-IsSanitized 502)
              | inr (answer, there) ↦
                  deliver-IsSanitized H B E N req addr ip bw res plain (ground arith)
            ]
          ]
        ]

    forward-IsSanitized :
        (ban_at : Instant) (req : Request H B) (ip : IpAddr) (s s' : Shared D) (res : Response H B)
        → is_websocket H req.head.headers ≡ false
        → forward D H E B parse_ip N is_healthy ban_at req ip s ≡ some (s', ok res)
        → IsSanitized H B res
    unfolding forward
    forward-IsSanitized ban_at req ip s s' res plain e = with_body (admit H B E N s.config req) refl
      where
        with_body :
            (r : Result (Violation × ℕ) B.Body)
            → admit H B E N s.config req ≡ r
            → IsSanitized H B res
        with_body (ok body) admitted =
            dispatch-IsSanitized ban_at (record req { body = body }) ip s s' res plain
              (ground arith)
        with_body (err (v, status)) admitted =
            subst (IsSanitized H B)
              (sym (rejected_sanitized parse_ip ban_at ip v status s s' res (ground arith)))
              (error-IsSanitized status)

    -- Every response of the HTTPS handler to a request that asks for no WebSocket has sanitized
    -- headers, whichever branch it comes from.
    pub https_proxy-IsSanitized :
        (at ban_at : Instant) (req : Request H B) (remote_addr : SocketAddr) (s s' : Shared D)
        (res : Response H B)
        → is_websocket H req.head.headers ≡ false
        → https_proxy D H E B parse_ip N is_healthy at ban_at req remote_addr s ≡ some (s', ok res)
        → IsSanitized H B res
    unfolding https_proxy
    https_proxy-IsSanitized at ban_at req remote_addr s s' res plain e =
        after
          (verify_request D H E parse_ip at ban_at req.head remote_addr s.config s.bans s.limiter)
          refl
      where
        after :
            (o : Option (Verified D H))
            → verify_request D H E parse_ip at ban_at req.head remote_addr s.config s.bans s.limiter
              ≡ o
            → IsSanitized H B res
        after none panics = absurd (ground arith)
        after (some (bans, limiter, ok _)) passes =
            forward-IsSanitized ban_at req (get_real_ip H parse_ip req.head.headers remote_addr)
              (record s { bans = bans; limiter = limiter }) s' res plain (ground arith)
        after (some (bans, limiter, err refusal)) refused =
            let (v, status, _, answer, _) =
              verify_request_refuses D H E parse_ip at ban_at req.head remote_addr s.config s.bans
                bans s.limiter limiter refusal 0 remote_addr.ip refused in
            let same : empty_response H B refusal ≡ res = ground arith in
            subst (IsSanitized H B) (ap (empty_response H B) (sym answer) ∙ same)
              (error-IsSanitized status)

    -- A request that passes, is sent on in time and asks for no WebSocket gets the upstream's
    -- response, its headers sanitized, its bytes metered and its text masked.
    pub https_proxy_served :
        (at ban_at : Instant) (req : Request H B) (remote_addr : SocketAddr) (s : Shared D)
        (bans : BanManager) (limiter : RateLimiter D) (config : Config) (addr : Str)
        (res : Response H B)
        → verify_request D H E parse_ip at ban_at req.head remote_addr s.config s.bans s.limiter
          ≡ some (bans, limiter, ok tt)
        → is_buffered req.head.method ≡ false
        → route H is_healthy s.config req.head ≡ (config, some addr)
        → N.is_late ≡ false
        → is_websocket H req.head.headers ≡ false
        → N.request (rewritten H B E N addr req) ≡ some res
        → https_proxy D H E B parse_ip N is_healthy at ban_at req remote_addr s
          ≡ some (
            record { config = config; bans = bans; limiter = limiter },
            ok (record {
              status = res.status;
              headers = sanitize_response_headers H res.headers;
              body = Waf.apply_dlp H E B (sanitize_response_headers H res.headers) (
                  N.throttled
                    (get_real_ip H parse_ip req.head.headers remote_addr)
                    config.limit.max_bandwidth
                    res.body);
            }),
          )
    unfolding https_proxy admit deliver handle_http
    https_proxy_served at ban_at req remote_addr s bans limiter config addr res passes streamed
          chosen in_time plain answered =
        ground arith
