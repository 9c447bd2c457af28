-- ===== src/Proxy/Handlers/Redirect.antt =====
-- The answers of `http_proxy` of src/proxy.rs, the handler for plain HTTP.
use oxidized_wall.Base.{
  to_ascii_lowercase, ◌==◌, if◌then◌else◌, unwrap_or, codes, Option-cases, [], ◌∷◌, ◌++◌,
}
use mathlib.Core.Path.{subst}
use oxidized_wall.Ban.{Violation}
use oxidized_wall.Http.{header_text, target}
use oxidized_wall.Proxy.{Parts, get_real_ip, sanitize_response_headers}
use oxidized_wall.Proxy.Verify.Laws.{first_violation, checks}
use oxidized_wall.RateLimit
use oxidized_wall.Base.{
  ℕ, ◌≡◌, refl, sym, ap, ◌∙◌, ◌⊎◌, inl, inr, Option, none, some, arith, ip_eq, nat_eq, list_eq,
  IpAddr, Str, ok, err, Instant,
}
use oxidized_wall.Ban.{BanManager}
use oxidized_wall.RateLimit.{RateLimiter, RateState}
use oxidized_wall.Proxy.Upstream.{Request, Response, empty_response, redirect}
use oxidized_wall.Dict.{DashMap}
use oxidized_wall.Http.{Http}
use oxidized_wall.Proxy.{SocketAddr, error_response}
use oxidized_wall.Proxy.Handlers.{Shared, http_proxy}
use oxidized_wall.Proxy.Verify.{verify_request}
use oxidized_wall.Proxy.Verify.Laws.{verify_request_refuses, verify_request_passes}
use oxidized_wall.Waf.{Engines, Bodies}

module _ (H : Http) (B : Bodies) where
  -- The text of the redirect's location: the host as the request names it, and its target.
  abbrev pub location : Parts H → Str
  location req =
      codes "https://"
      ++ (unwrap_or (header_text H req.headers (codes "host")) (codes "localhost")
          ++ target H req.uri)

  -- A response with the status, the headers that sanitizing sets, and no body.
  abbrev pub IsError : ℕ → Response H B → Type 0
  IsError status res =
      (res.status ≡ status)
      × (res.headers ≡ sanitize_response_headers H H.empty)
      × (res.body ≡ B.empty)

  -- A permanent redirect to the location, with no other header and no body.
  abbrev pub IsRedirect : H.HeaderValue → Response H B → Type 0
  IsRedirect v res =
      (res.status ≡ 308)
      × ((k : Str)
          → H.get_all res.headers k
            ≡ (if codes "location" == to_ascii_lowercase k then v ∷ [] else []))
      × (res.body ≡ B.empty)

  empty_response-IsError :
      (status : ℕ) → IsError status (empty_response H B (error_response H status))
  unfolding error_response
  empty_response-IsError status = (refl, refl, refl)

  redirect-IsRedirect :
      (req : Parts H)
      → ((v : H.HeaderValue) × (H.try_from (location req) ≡ some v)
          × IsRedirect v (redirect H B req))
        ⊎ ((H.try_from (location req) ≡ none) × IsError 500 (redirect H B req))
  unfolding redirect
  redirect-IsRedirect req = elim (Option-cases (H.try_from (location req))) [
    | inl bad ↦ inr (bad, rw (bad, redirect) (empty_response-IsError 500))
    | inr (v, good) ↦ inl (
      v,
      good,
      rw (good, redirect)
          (
            refl,
            λ k. ground (arith, H.get_all-insert H.empty (codes "Location") v k, H.get_all-empty k),
            refl,
          ),
    )
  ]

module _ (D : DashMap IpAddr RateState) (H : Http) (E : Engines) (B : Bodies)
    (parse_ip : Str → Option IpAddr) where
  -- A request to the HTTP handler that passes the pipeline changes no ban and is answered with a
  -- permanent redirect over https to its Host header, or localhost, and its target, or with the
  -- error 500 where that location is no header value; one that is refused is answered with the
  -- status of the first check that failed. An error has the headers that sanitizing sets, the
  -- redirect has no header but its location, and none has a body.
  pub http_proxy_answers :
      (at ban_at : Instant) (req : Request H B) (remote_addr : SocketAddr) (s s' : Shared D)
      (res : Response H B)
      → http_proxy D H E B parse_ip at ban_at req remote_addr s ≡ some (s', ok res)
      → ((verify_request D H E parse_ip at ban_at req.head remote_addr s.config s.bans s.limiter
            ≡ some (s.bans, s'.limiter, ok tt))
          × (s'.bans ≡ s.bans)
          × (((v : H.HeaderValue) × (H.try_from (location H B req.head) ≡ some v)
                × IsRedirect H B v res)
              ⊎ ((H.try_from (location H B req.head) ≡ none) × IsError H B 500 res)))
        ⊎ ((v : Violation) × (status : ℕ) × (first_violation (
                checks D H E parse_ip
                  (RateLimit.check D at
                    (get_real_ip H parse_ip req.head.headers remote_addr)
                    s.config
                    s.limiter).1
                  req.head
                  s.config)
              ≡ some (v, status))
            × IsError H B status res)
  unfolding http_proxy
  http_proxy_answers at ban_at req remote_addr s s' res e =
      elim (Option-cases
        (verify_request D H E parse_ip at ban_at req.head remote_addr s.config s.bans s.limiter)) [
          | inl panics ↦ absurd (ground arith)
          | inr ((bans, limiter, ok _), passes) ↦
              let kept =
                (verify_request_passes D H E parse_ip at ban_at req.head remote_addr s.config s.bans
                  bans s.limiter limiter passes).0 in
              let same : redirect H B req.head ≡ res = ground arith in
              inl (
                ground arith,
                ground arith,
                subst
                    (λ (r : Response H B).
                      ((v : H.HeaderValue) × (H.try_from (location H B req.head) ≡ some v)
                        × IsRedirect H B v r)
                      ⊎ ((H.try_from (location H B req.head) ≡ none) × IsError H B 500 r))
                    same (redirect-IsRedirect H B req.head),
              )
          | inr ((bans, limiter, err refusal), refused) ↦
              let (v, status, failed, answer, more) =
                verify_request_refuses D H E parse_ip at ban_at req.head remote_addr s.config s.bans
                  bans s.limiter limiter refusal 0 remote_addr.ip refused in
              let same : empty_response H B refusal ≡ res = ground arith in
              inr (
                v,
                status,
                failed,
                subst (IsError H B status) (ap (empty_response H B) (sym answer) ∙ same)
                    (empty_response-IsError H B status),
              )
        ]

  -- A request that passes is redirected.
  pub http_proxy_passes :
      (at ban_at : Instant) (req : Request H B) (remote_addr : SocketAddr) (s : Shared D)
      (bans : BanManager) (limiter : RateLimiter D)
      → verify_request D H E parse_ip at ban_at req.head remote_addr s.config s.bans s.limiter
        ≡ some (bans, limiter, ok tt)
      → http_proxy D H E B parse_ip at ban_at req remote_addr s
        ≡ some (record s { bans = bans; limiter = limiter }, ok (redirect H B req.head))
  unfolding http_proxy
  http_proxy_passes at ban_at req remote_addr s bans limiter passes = ground arith
