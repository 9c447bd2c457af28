-- ===== src/Protocol.antt =====
-- src/protocol.rs: checks of the URI, the Host header and request smuggling.
pub mod Laws
use oxidized_wall.Base.{
  ◌>>◌, ℕ, String, Bool, true, false, not, ◌&&◌, [], ◌∷◌, ip_eq, nat_eq, list_eq, Str, codes,
  if◌then◌else◌, ltb, is_some, is_empty, Result, ok, err, length, is_control,
}
use oxidized_wall.Http.{Http, Method, contains_key, target}

-- The payload of `invalid_uri` is the character that its message shows.
pub data ProtocolError : Type 0 where
  invalid_uri : ℕ → ProtocolError
  invalid_host : String → ProtocolError
  request_smuggling : String → ProtocolError

unfoldable pub message : ProtocolError → String
message (invalid_uri _) = "Invalid characters in URI"
message (invalid_host _) = "Invalid or duplicate Host header"
message (request_smuggling _) = "Request Smuggling detected (CL/TE mixed)"

-- The loop of `validate_uri`.
unfoldable pub scan_uri : Str → Result ProtocolError (Unit {0})
scan_uri [] = ok tt
scan_uri (c ∷ s) = if is_control c then err (invalid_uri c) else scan_uri s

abbrev pub is_connect : Method → Bool
is_connect Method.connect = true
is_connect _ = false

module _ (H : Http) where
  unfoldable pub validate_uri : H.Uri → Result ProtocolError (Unit {0})
  unfolding scan_uri
  validate_uri uri = scan_uri (target H uri)

  unfoldable pub validate_host : H.HeaderMap → Method → H.Uri → Result ProtocolError (Unit {0})
  validate_host headers method uri =
      if is_connect method
      then ok tt
      else if is_empty (H.get_all headers (codes "host")) && not (is_some (H.host uri))
      then err (invalid_host "Missing Host or Authority")
      else if ltb 1 (length (H.get_all headers (codes "host")))
      then err (invalid_host "Duplicate Host header")
      else ok tt

  unfoldable pub validate_smuggling : H.HeaderMap → Result ProtocolError (Unit {0})
  validate_smuggling headers =
      if contains_key H headers (codes "content-length")
        && contains_key H headers (codes "transfer-encoding")
      then err (request_smuggling "Both CL and TE present")
      else ok tt

  -- The chain of the three checks in `verify_request` of src/proxy.rs.
  unfoldable pub validate : H.HeaderMap → Method → H.Uri → Result ProtocolError (Unit {0})
  unfolding validate_uri validate_host validate_smuggling
  validate headers method uri = do
    validate_uri uri
    validate_host headers method uri
    validate_smuggling headers
