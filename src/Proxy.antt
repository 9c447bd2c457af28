-- ===== src/Proxy.antt =====
-- src/proxy.rs: the security pipeline, the load balancer, routing and the two handlers. Requests
-- and responses are records over the interface of Http; a body is an abstract value.
pub mod Sanitize
pub mod Verify
pub mod Balance
pub mod Routes
pub mod Upstream
pub mod Handlers
pub mod WebSocket
use oxidized_wall.Waf.Structure.{split_next}
use oxidized_wall.Base.{
  ℕ, Bool, false, Option, List, [], ◌∷◌, ip_eq, nat_eq, list_eq, IpAddr, Str, codes, opt_map,
  and_then, unwrap_or, or_else, contains, to_ascii_lowercase,
}
use oxidized_wall.Http.{Http, Method}

-- `std::net::SocketAddr`.
pub record SocketAddr : Type 0 where
  pub ip : IpAddr
  pub port : ℕ

module _ (H : Http) where
  -- The head of a request, `http::request::Parts`.
  pub record Parts : Type 0 where
    pub method : Method
    pub uri : H.Uri
    pub headers : H.HeaderMap

  -- The names that `sanitize_response_headers` removes, in order.
  abbrev pub removed_headers : List Str
  removed_headers =
      codes "Server"
      ∷ codes "X-Powered-By"
      ∷ codes "X-AspNet-Version"
      ∷ codes "X-Runtime"
      ∷ codes "content-length"
      ∷ codes "transfer-encoding"
      ∷ []

  -- The headers that it inserts, in order.
  abbrev pub security_headers : List (Str × Str)
  security_headers =
      (codes "Strict-Transport-Security", codes "max-age=31536000; includeSubDomains; preload")
      ∷ (codes "X-Frame-Options", codes "DENY")
      ∷ (codes "X-Content-Type-Options", codes "nosniff")
      ∷ (codes "X-XSS-Protection", codes "1; mode=block")
      ∷ (codes "Referrer-Policy", codes "strict-origin-when-cross-origin")
      ∷ (codes "Permissions-Policy", codes "geolocation=(), microphone=(), camera=()")
      ∷ []

  unfoldable pub remove_all : List Str → H.HeaderMap → H.HeaderMap
  remove_all [] headers = headers
  remove_all (name ∷ names) headers = remove_all names (H.remove headers name)

  unfoldable pub insert_all : List (Str × Str) → H.HeaderMap → H.HeaderMap
  insert_all [] headers = headers
  insert_all ((name, value) ∷ more) headers =
      insert_all more (H.insert headers name (H.from_static value))

  unfoldable pub sanitize_response_headers : H.HeaderMap → H.HeaderMap
  unfolding remove_all insert_all
  sanitize_response_headers headers =
      insert_all security_headers (remove_all removed_headers headers)

  -- `error_response`: the status and the headers; its body is empty. The builder is given nothing
  -- but a status that exists, so its error case does not arise.
  pub record ErrorResponse : Type 0 where
    pub status : ℕ
    pub headers : H.HeaderMap

  unfoldable pub error_response : ℕ → ErrorResponse
  error_response status = record { status = status; headers = sanitize_response_headers H.empty }

  -- `parse_ip` is the standard library's parser of addresses.
  unfoldable pub get_real_ip : (Str → Option IpAddr) → H.HeaderMap → SocketAddr → IpAddr
  get_real_ip parse_ip headers remote_addr =
      unwrap_or (and_then (and_then (H.get headers (codes "CF-Connecting-IP")) H.to_str) parse_ip)
        remote_addr.ip

  -- The URI's host, or the Host header up to its first colon.
  unfoldable pub get_host : H.Uri → H.HeaderMap → Str
  get_host uri headers =
      unwrap_or
        (or_else (H.host uri)
          (opt_map (split_next b':') (and_then (H.get headers (codes "host")) H.to_str)))
        (codes "localhost")

  unfoldable pub is_websocket : H.HeaderMap → Bool
  is_websocket headers =
      unwrap_or
        (opt_map (λ s. contains (to_ascii_lowercase s) (codes "websocket"))
          (and_then (H.get headers (codes "upgrade")) H.to_str))
        false
