-- ===== src/Waf/Path.antt =====
-- src/waf/path.rs: decoding a URL, and directory traversal. The Aho-Corasick matcher is a
-- parameter.
pub mod Decode
pub mod Traversal
use oxidized_wall.Base.{
  ℕ, ◌+◌, ◌-◌, ◌*◌, ◌≡◌, Bool, ◌&&◌, Option, none, some, List, [], ◌∷◌, ◌++◌, ◌==◌, ip_eq, nat_eq,
  list_eq, Str, codes, if◌then◌else◌, ltb, leb, and_then, any, contains, to_ascii_lowercase,
}

-- The value of a hexadecimal digit.
unfoldable pub to_digit16 : ℕ → Option ℕ
to_digit16 c =
    if leb b'0' c && leb c b'9'
    then some (c - b'0')
    else if leb b'a' c && leb c b'f'
    then some (c - 87)
    else if leb b'A' c && leb c b'F'
    then some (c - 55)
    else none

-- The digits of a `u8`; `none` for another character and for an overflow.
unfoldable pub parse_digits : ℕ → Str → Option ℕ
unfolding to_digit16
parse_digits acc [] = some acc
parse_digits acc (c ∷ s) =
    and_then (to_digit16 c) (λ d.
      let rest = parse_digits (acc * 16 + d) s in if ltb (acc * 16 + d) 256 then rest else none)

-- `u8::from_str_radix(_, 16)`: a leading plus sign is allowed before digits.
unfoldable pub from_str_radix16 : Str → Option ℕ
unfolding parse_digits
from_str_radix16 [] = none
from_str_radix16 (c ∷ []) = if c == b'+' then none else parse_digits 0 (c ∷ [])
from_str_radix16 (c ∷ d ∷ s) =
    if c == b'+' then parse_digits 0 (d ∷ s) else parse_digits 0 (c ∷ d ∷ s)

-- What the loop pushes for a percent sign and the up to two characters that it takes after it.
unfoldable pub decoded : Str → Str
unfolding from_str_radix16
decoded hex = elim (from_str_radix16 hex) [ some byte ↦ byte ∷ [] | none ↦ b'%' ∷ hex ]

unfoldable pub normalize_url : Str → Str
unfolding decoded
normalize_url [] = []
normalize_url (c ∷ []) = if c == b'%' then decoded [] else c ∷ []
normalize_url (c ∷ h1 ∷ []) =
    let rest = normalize_url (h1 ∷ []) in if c == b'%' then decoded (h1 ∷ []) else c ∷ rest
normalize_url (c ∷ h1 ∷ h2 ∷ s) =
    let escaped = decoded (h1 ∷ h2 ∷ []) ++ normalize_url s in
    let plain = c ∷ normalize_url (h1 ∷ h2 ∷ s) in if c == b'%' then escaped else plain

abbrev pub traversal_patterns : List Str
traversal_patterns =
    codes "../"
    ∷ (b'.' ∷ b'.' ∷ 0x5c ∷ [])
    ∷ codes "/etc/passwd"
    ∷ codes "windows/system32"
    ∷ codes "boot.ini"
    ∷ codes "%2e%2e%2f"
    ∷ codes "%2e%2e%5c"
    ∷ []

-- `AhoCorasick` built with `ascii_case_insensitive`: its `is_match`, and what it promises.
pub record Matcher : Type 0 where
  pub is_match : List Str → Str → Bool
  pub is_match_lem :
      (patterns : List Str) (s : Str)
      → is_match patterns s
        ≡ any (λ p. contains (to_ascii_lowercase s) (to_ascii_lowercase p)) patterns

unfoldable pub is_traversal : Matcher → Str → Bool
is_traversal m input = m.is_match traversal_patterns input
