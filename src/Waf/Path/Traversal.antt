-- ===== src/Waf/Path/Traversal.antt =====
-- Directory traversal in an encoded URL.
use oxidized_wall.Base.{
  ◌≡◌, true, List, ◌++◌, map, ip_eq, nat_eq, list_eq, Str, All, contains, to_ascii_lowercase,
}
use mathlib.Core.List.{Memᴰ}
use oxidized_wall.Waf.Path.{Matcher, traversal_patterns, is_traversal, normalize_url}
use oxidized_wall.Waf.Path.Decode.{
  Spelling, encode_some, IsEncodable, normalize_url-append, normalize_url-encode_some,
}
use oxidized_wall.Waf.Structure.Pollution.{Lacks}
use oxidized_wall.Waf.Text.{contains-infix, lower-append, any_of_Memᴰ}

-- A traversal pattern, in any mixture of cases and with any of its characters percent-encoded, is
-- found wherever it stands in a URL, if no percent sign comes before it.
pub is_traversal-normalize_url :
    (m : Matcher) (before after pattern : Str) (spelled : List Spelling)
    → Lacks b'%' before
    → All IsEncodable spelled
    → Memᴰ pattern traversal_patterns
    → to_ascii_lowercase (map (λ c. c.1) spelled) ≡ to_ascii_lowercase pattern
    → is_traversal m (normalize_url (before ++ (encode_some spelled ++ after))) ≡ true
unfolding is_traversal
is_traversal-normalize_url m before after pattern spelled clean encodable listed same =
    rw
      (
        normalize_url-append before _ clean,
        normalize_url-encode_some spelled after encodable,
        m.is_match_lem,
      )
      (any_of_Memᴰ
        (λ p.
          contains (to_ascii_lowercase (before ++ (map (λ c. c.1) spelled ++ normalize_url after)))
            (to_ascii_lowercase p))
        listed
        (rw (lower-append, lower-append, same)
          (contains-infix (to_ascii_lowercase before) (to_ascii_lowercase pattern)
            (to_ascii_lowercase (normalize_url after)))))
