-- ===== src/Waf.antt =====
-- src/waf/mod.rs: the inspection of a request's head and body, and of a response's body.
mod Text
pub mod Core
pub mod Dlp
pub mod File
pub mod Path
pub mod Structure
pub mod Laws
pub mod Uploads
use oxidized_wall.Base.{
  ◌>>◌, String, Bool, true, false, not, ◌||◌, Option, none, some, List, ip_eq, nat_eq, list_eq, Str,
  Bytes, codes, if◌then◌else◌, Result, ok, err, contains, as_bytes, from_utf8_lossy,
}
use oxidized_wall.Http.{Http, Method, header_text, target}
use Dlp.{Regex, mask_sensitive_info}
use Core.{is_attack}
use File.{check_magic_number, is_allowed_file_type}
use Path.{Matcher, normalize_url, is_traversal}
use Structure.{
  Unicode, Float32, check_json_depth, is_malicious_bot, is_high_density, has_parameter_pollution,
}

-- What the inspections take from the libraries that they call.
pub record Engines : Type 1 where
  pub regex_set : List String → Bytes → Bool
  pub matcher : Matcher
  pub compile : String → Regex
  pub unicode : Unicode
  pub float : Float32

-- `if test { return Err(reason) }`.
abbrev pub forbid : Bool → String → Result String (Unit {0})
forbid true reason = err reason
forbid false reason = ok tt

-- A test on a text that may be missing.
abbrev pub is_some_and : Option Str → (Str → Bool) → Bool
is_some_and none p = false
is_some_and (some s) p = p s

-- `BoxBody` as far as `apply_dlp` goes: what collecting a body gives, and the bodies made here.
pub record Bodies : Type 1 where
  pub Body : Type 0
  pub collect : Body → Option Bytes
  pub full : Bytes → Body
  pub empty : Body

module _ (H : Http) (E : Engines) where
  unfoldable pub header : H.Uri → Method → H.HeaderMap → Result String (Unit {0})
  header uri _ headers = do
    let normalized_path = normalize_url (target H uri)
    forbid (is_traversal E.matcher normalized_path) "Directory Traversal detected"
    forbid (is_attack E.regex_set (as_bytes normalized_path)) "Malicious pattern detected in URI"
    forbid (is_some_and (H.query uri) has_parameter_pollution)
        "HTTP Parameter Pollution detected in URI"
    forbid (is_some_and (header_text H headers (codes "user-agent")) (is_malicious_bot E.unicode))
        "Malicious Bot detected"

  unfoldable pub body : H.HeaderMap → Bytes → Result String (Unit {0})
  body headers body_bytes = do
    check_magic_number body_bytes
    forbid
        (is_some_and (header_text H headers (codes "content-type"))
          (λ ct. not (is_allowed_file_type ct body_bytes)))
        "File signature mismatch with Content-Type"
    let body_str = from_utf8_lossy body_bytes
    forbid (not (check_json_depth body_str 10)) "JSON nesting too deep"
    forbid (is_high_density E.float E.unicode body_str E.float.four_tenths)
        "High payload density detected"
    forbid (has_parameter_pollution body_str) "Parameter Pollution detected in payload"
    forbid (is_attack E.regex_set body_bytes) "Malicious pattern detected in payload"

  -- Whether the Content-Type names text.
  unfoldable pub is_text : H.HeaderMap → Bool
  is_text headers = is_some_and (header_text H headers (codes "content-type")) λ s.
      let t = E.unicode.to_lowercase s in
      contains t (codes "text/")
      || contains t (codes "json")
      || contains t (codes "xml")
      || contains t (codes "javascript")

  unfoldable pub apply_dlp : (B : Bodies) → H.HeaderMap → B.Body → B.Body
  unfolding is_text
  apply_dlp B headers b = if not (is_text headers) then b else elim (B.collect b) [
    | some bytes ↦ B.full (as_bytes (mask_sensitive_info E.compile (from_utf8_lossy bytes)))
    | none ↦ B.empty
  ]
