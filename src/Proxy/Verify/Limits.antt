-- ===== src/Proxy/Verify/Limits.antt =====
-- Which requests `verify_request` lets through, in the terms of the request itself.
use oxidized_wall.Base.{
  Option-cases, ℕ, ◌≤◌, ◌≡◌, refl, ap, ◌↔◌, ◌⊎◌, inl, inr, Bool, true, false, Option, none, some,
  arith, List, [], ◌∷◌, ◌++◌, ◌+◌, ip_eq, nat_eq, list_eq, IpAddr, Str, is_err, ok, length,
  length-append, Instant, encode_char, as_bytes, utf8_len,
}
use oxidized_wall.Ban.{BanManager}
use oxidized_wall.Config.{Config}
use oxidized_wall.Dict.{DashMap}
use oxidized_wall.Http.{Http, Method}
use oxidized_wall.Protocol.{validate}
use oxidized_wall.Proxy.{Parts, SocketAddr, get_real_ip}
use oxidized_wall.Proxy.Verify.{is_served, uri_len, verify_request}
use oxidized_wall.Proxy.Verify.Laws.{
  checks, first_violation, verify_request_passes, verify_request-conclude,
}
use oxidized_wall.RateLimit
use oxidized_wall.RateLimit.{RateState, RateLimiter}
use oxidized_wall.Waf
use oxidized_wall.Waf.{Engines}

utf8_len-append : (s t : Str) → utf8_len (s ++ t) ≡ utf8_len s + utf8_len t
unfolding utf8_len as_bytes
utf8_len-append [] t = omega arith
utf8_len-append (c ∷ s) t =
    let ih = utf8_len-append s t in
    let left = length-append (encode_char c) (as_bytes (s ++ t)) in
    let right = length-append (encode_char c) (as_bytes s) in omega arith

-- A path and a query as they are written in a request.
abbrev pub written : Str → Option Str → Str
written path none = path
written path (some query) = path ++ b'?' ∷ query

-- The seven methods that are served; TRACE, CONNECT and the extensions are not among them.
abbrev pub served_methods : List Method
served_methods =
    Method.get ∷ Method.post ∷ Method.put ∷ Method.delete ∷ Method.patch ∷ Method.head
    ∷ Method.options ∷ []

abbrev pub OneOf : Method → List Method → Type 0
OneOf m [] = ⊥
OneOf m (n ∷ methods) = (m ≡ n) ⊎ OneOf m methods

is_served-OneOf : (m : Method) → is_served m ≡ true → OneOf m served_methods
unfolding is_served
is_served-OneOf Method.get e = inl refl
is_served-OneOf Method.post e = inr (inl refl)
is_served-OneOf Method.put e = inr (inr (inl refl))
is_served-OneOf Method.delete e = inr (inr (inr (inl refl)))
is_served-OneOf Method.patch e = inr (inr (inr (inr (inl refl))))
is_served-OneOf Method.head e = inr (inr (inr (inr (inr (inl refl)))))
is_served-OneOf Method.options e = inr (inr (inr (inr (inr (inr (inl refl))))))
is_served-OneOf Method.trace e = absurd (cc)
is_served-OneOf Method.connect e = absurd (cc)
is_served-OneOf (Method.extension name) e = absurd (cc)

OneOf-is_served : (m : Method) → OneOf m served_methods → is_served m ≡ true
unfolding is_served
OneOf-is_served m (inl e) = rw e refl
OneOf-is_served m (inr (inl e)) = rw e refl
OneOf-is_served m (inr (inr (inl e))) = rw e refl
OneOf-is_served m (inr (inr (inr (inl e)))) = rw e refl
OneOf-is_served m (inr (inr (inr (inr (inl e))))) = rw e refl
OneOf-is_served m (inr (inr (inr (inr (inr (inl e)))))) = rw e refl
OneOf-is_served m (inr (inr (inr (inr (inr (inr (inl e))))))) = rw e refl
OneOf-is_served m (inr (inr (inr (inr (inr (inr (inr empty))))))) = elim empty [ ]

module _ (H : Http) where
  -- The bytes of a URI's path and query as they are written in a request.
  abbrev pub written_len : H.Uri → ℕ
  written_len uri = length (as_bytes (written (H.path uri) (H.query uri)))

  uri_len-eq-written_len : (uri : H.Uri) → uri_len H uri ≡ written_len uri
  unfolding uri_len utf8_len as_bytes encode_char
  uri_len-eq-written_len uri = elim (Option-cases (H.query uri)) [
    | inl bare ↦ rw bare (omega arith)
    | inr (query, there) ↦
        let whole = utf8_len-append (H.path uri) (b'?' ∷ query) in rw there (omega arith)
  ]

module _ (D : DashMap IpAddr RateState) (H : Http) (E : Engines)
    (parse_ip : Str → Option IpAddr) where
  checks_clear :
      (allowed : Bool) (req : Parts H) (config : Config)
      → allowed ≡ true
      → is_err (validate H req.headers req.method req.uri) ≡ false
      → H.len req.headers ≤ config.limit.max_header_count
      → uri_len H req.uri ≤ config.limit.max_uri_size
      → is_served req.method ≡ true
      → is_err (Waf.header H E req.uri req.method req.headers) ≡ false
      → first_violation (checks D H E parse_ip allowed req config) ≡ none
  checks_clear allowed req config within valid few short served clean = ground arith

  -- A request passes the pipeline if and only if it is within its rate, obeys the protocol, has no
  -- more headers than are allowed, has a path and query, with the question mark between them, of no
  -- more bytes than are allowed, has one of the seven methods that are served, and holds nothing
  -- that the head's inspection forbids. The bans are then as they were, and the rate limiter is as
  -- its check left it.
  pub verify_request-ok_iff :
      (at ban_at : Instant) (req : Parts H) (remote_addr : SocketAddr) (config : Config)
      (bans bans' : BanManager) (limiter limiter' : RateLimiter D)
      → (verify_request D H E parse_ip at ban_at req remote_addr config bans limiter
          ≡ some (bans', limiter', ok tt))
        ↔ ((bans' ≡ bans)
            × (RateLimit.check D at (get_real_ip H parse_ip req.headers remote_addr) config limiter
                ≡ (limiter', true))
            × (is_err (validate H req.headers req.method req.uri) ≡ false)
            × (H.len req.headers ≤ config.limit.max_header_count)
            × (written_len H req.uri ≤ config.limit.max_uri_size)
            × OneOf req.method served_methods
            × (is_err (Waf.header H E req.uri req.method req.headers) ≡ false))
  verify_request-ok_iff at ban_at req remote_addr config bans bans' limiter limiter' = (
    λ passes.
        let (kept, counted, valid, few, short, served, clean) =
          verify_request_passes D H E parse_ip at ban_at req remote_addr config bans bans' limiter
            limiter' passes in
        (
          kept,
          counted,
          valid,
          few,
          rw (← uri_len-eq-written_len H req.uri) short,
          is_served-OneOf req.method served,
          clean,
        ),
    λ (kept, counted, valid, few, short, served, clean).
        let none_fails =
          checks_clear _ req config (ap (λ c. c.1) counted) valid few
            (rw (uri_len-eq-written_len H req.uri) short) (OneOf-is_served req.method served)
            clean in
        let concluded =
          verify_request-conclude D H E parse_ip at ban_at req remote_addr config bans limiter in
        rw (concluded, none_fails, counted, kept) refl,
  )
