-- ===== src/Waf/Laws.antt =====
-- What passes the inspections, and what a masked response holds.
use oxidized_wall.Base.{
  String, ◌≡◌, refl, Bool, true, false, Option, none, some, List, [], ◌∷◌, ◌++◌, map, arith, ip_eq,
  nat_eq, list_eq, Str, Bytes, codes, if◌then◌else◌, Result, ok, err, All, to_ascii_lowercase,
  as_bytes, from_utf8_lossy,
}
use oxidized_wall.Http.{Http, Method, header_text, target}
use oxidized_wall.Waf.{Engines, Bodies, is_some_and, header, is_text, apply_dlp}
use mathlib.Core.List.{Memᴰ}
use oxidized_wall.Waf.Structure.Pollution.{Lacks}
use oxidized_wall.Waf.Path.{traversal_patterns, normalize_url, is_traversal}
use oxidized_wall.Waf.Path.Decode.{Spelling, encode_some, IsEncodable}
use oxidized_wall.Waf.Path.Traversal.{is_traversal-normalize_url}
use oxidized_wall.Waf.Dlp.{email_pattern}
use oxidized_wall.Waf.Dlp.Laws.{Alike, mask_sensitive_info-Alike}
use oxidized_wall.Waf.Core.{is_attack}
use oxidized_wall.Waf.Structure.{is_malicious_bot, has_parameter_pollution}

-- The first reason whose test holds.
abbrev pub first_reason : List (Bool × String) → Option String
first_reason [] = none
first_reason ((test, reason) ∷ tests) = if test then some reason else first_reason tests

abbrev pub verdict : Option String → Result String (Unit {0})
verdict none = ok tt
verdict (some reason) = err reason

module _ (H : Http) (E : Engines) where
  -- The tests on the head of a request, in their order.
  abbrev pub header_tests : H.Uri → H.HeaderMap → List (Bool × String)
  header_tests uri headers =
      (is_traversal E.matcher (normalize_url (target H uri)), "Directory Traversal detected")
      ∷ (
        is_attack E.regex_set (as_bytes (normalize_url (target H uri))),
        "Malicious pattern detected in URI",
      )
      ∷ (
        is_some_and (H.query uri) has_parameter_pollution,
        "HTTP Parameter Pollution detected in URI",
      )
      ∷ (
        is_some_and (header_text H headers (codes "user-agent")) (is_malicious_bot E.unicode),
        "Malicious Bot detected",
      )
      ∷ []

  -- The head passes exactly if no test holds; otherwise the reason is that of the first that does.
  pub header-first_reason :
      (uri : H.Uri) (method : Method) (headers : H.HeaderMap)
      → header H E uri method headers ≡ verdict (first_reason (header_tests uri headers))
  unfolding header
  header-first_reason uri method headers = ground arith

  -- A request whose path and query hold a traversal pattern, in any mixture of cases and with any
  -- of its characters percent-encoded, by digits of either case, is refused, if no percent sign
  -- comes before the pattern.
  pub header_traversal :
      (uri : H.Uri) (method : Method) (headers : H.HeaderMap) (before after pattern : Str)
      (spelled : List Spelling)
      → target H uri ≡ before ++ (encode_some spelled ++ after)
      → Lacks b'%' before
      → All IsEncodable spelled
      → Memᴰ pattern traversal_patterns
      → to_ascii_lowercase (map (λ c. c.1) spelled) ≡ to_ascii_lowercase pattern
      → header H E uri method headers ≡ err "Directory Traversal detected"
  unfolding header
  header_traversal uri method headers before after pattern spelled t clean encodable listed same =
      rw
        (
          t,
          is_traversal-normalize_url E.matcher before after pattern spelled clean encodable listed
              same,
        )
        refl

  -- A response whose Content-Type does not name text is passed on as it is.
  pub apply_dlp_binary :
      (B : Bodies) (headers : H.HeaderMap) (b : B.Body)
      → is_text H E headers ≡ false
      → apply_dlp H E B headers b ≡ b
  unfolding apply_dlp
  apply_dlp_binary B headers b binary = rw (binary, apply_dlp) refl

  -- Two text responses that are collected and differ only in the user names of the e-mail
  -- addresses that the pattern matches give the same response.
  pub apply_dlp_private :
      (B : Bodies) (headers : H.HeaderMap) (b c : B.Body) (bytes_b bytes_c : Bytes)
      → is_text H E headers ≡ true
      → B.collect b ≡ some bytes_b
      → B.collect c ≡ some bytes_c
      → Alike
          ((E.compile email_pattern).pieces (from_utf8_lossy bytes_b))
          ((E.compile email_pattern).pieces (from_utf8_lossy bytes_c))
      → apply_dlp H E B headers b ≡ apply_dlp H E B headers c
  unfolding apply_dlp
  apply_dlp_private B headers b c bytes_b bytes_c text eb ec alike = ground (
    arith,
    mask_sensitive_info-Alike E.compile (from_utf8_lossy bytes_b) (from_utf8_lossy bytes_c) alike,
  )
