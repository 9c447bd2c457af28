-- ===== src/Waf/Path/Decode.antt =====
-- `normalize_url`: what it decodes, and what it leaves.
use oxidized_wall.Base.{
  Option, none, ℕ, suc, ◌+◌, ◌*◌, ◌/◌, ◌%◌, ◌≤◌, ◌<◌, ◌≡◌, refl, ap, ◌∙◌, inl, inr, Bool, true,
  false, some, List, [], ◌∷◌, ◌++◌, map, arith, ◌==◌, ==_iff, ip_eq, nat_eq, list_eq, Str,
  if◌then◌else◌, ltb, Bool-cases, Option-cases, length-append, length, All,
}
use oxidized_wall.Waf.Path.{to_digit16, from_str_radix16, decoded, normalize_url}
use oxidized_wall.Waf.Structure.Pollution.{Lacks}

-- The digit of a number below 16, a letter in upper or in lower case.
abbrev pub from_digit16 : Bool → ℕ → ℕ
from_digit16 upper d = if ltb d 10 then d + b'0' else (if upper then d + 55 else d + 87)

-- `%` and two hexadecimal digits, each with its case.
abbrev pub percent_encode : Bool × Bool → ℕ → Str
percent_encode cases c = b'%' ∷ from_digit16 cases.0 (c / 16) ∷ from_digit16 cases.1 (c % 16) ∷ []

to_digit16-from_digit16 :
    (upper : Bool) (d : ℕ) → d < 16 → to_digit16 (from_digit16 upper d) ≡ some d
unfolding to_digit16
to_digit16-from_digit16 true d h = ground arith
to_digit16-from_digit16 false d h = ground arith

from_digit16-ne-plus : (upper : Bool) (d : ℕ) → (from_digit16 upper d == b'+') ≡ false
from_digit16-ne-plus true d = ground arith
from_digit16-ne-plus false d = ground arith

decoded_of_digits :
    (x y a b : ℕ)
    → a < 16
    → b < 16
    → (x == b'+') ≡ false
    → to_digit16 x ≡ some a
    → to_digit16 y ≡ some b
    → decoded (x ∷ y ∷ []) ≡ (a * 16 + b) ∷ []
unfolding decoded
decoded_of_digits x y a b ha hb no_sign first second = ground arith

decoded-digits :
    (u v : Bool) (a b : ℕ)
    → a < 16
    → b < 16
    → decoded (from_digit16 u a ∷ from_digit16 v b ∷ []) ≡ (a * 16 + b) ∷ []
unfolding decoded
decoded-digits u v a b ha hb =
    decoded_of_digits (from_digit16 u a) (from_digit16 v b) a b ha hb (from_digit16-ne-plus u a)
      (to_digit16-from_digit16 u a ha) (to_digit16-from_digit16 v b hb)

-- An encoded byte is decoded, and the text after it is taken from the next character on.
pub normalize_url-percent_encode :
    (cases : Bool × Bool) (c : ℕ) (s : Str)
    → c < 256
    → normalize_url (percent_encode cases c ++ s) ≡ c ∷ normalize_url s
unfolding normalize_url
normalize_url-percent_encode cases c s h =
    rw (decoded-digits cases.0 cases.1 (c / 16) (c % 16) (omega arith) (omega arith))
      (ap (λ x. x ∷ normalize_url s) (omega arith))

normalize_url-plain :
    (c : ℕ) (s : Str) → (c == b'%') ≡ false → normalize_url (c ∷ s) ≡ c ∷ normalize_url s
unfolding normalize_url
normalize_url-plain c [] h = rw h refl
normalize_url-plain c (d ∷ []) h = rw h refl
normalize_url-plain c (d ∷ e ∷ s) h = rw h refl

-- A text without a percent sign is left as it is, whatever comes after it is decoded by itself.
pub normalize_url-append :
    (s rest : Str) → Lacks b'%' s → normalize_url (s ++ rest) ≡ s ++ normalize_url rest
normalize_url-append [] rest h = refl
normalize_url-append (c ∷ s) rest (h, hs) =
    normalize_url-plain c (s ++ rest) h ∙ ap (◌∷◌ c) (normalize_url-append s rest hs)

-- A character of a text: as it is, or encoded, with the cases of its two digits.
abbrev pub Spelling : Type 0
Spelling = Option (Bool × Bool) × ℕ

abbrev pub encode_some : List Spelling → Str
encode_some [] = []
encode_some ((some cases, c) ∷ cs) = percent_encode cases c ++ encode_some cs
encode_some ((none, c) ∷ cs) = c ∷ encode_some cs

-- Bytes, and no percent sign that is not encoded.
abbrev pub IsEncodable : Spelling → Type 0
IsEncodable (some cases, c) = c < 256
IsEncodable (none, c) = (c == b'%') ≡ false

-- Decoding undoes percent-encoding, whichever of the characters are encoded and whichever of the
-- hexadecimal digits are in upper case, and decodes what follows by itself; the encoded characters
-- are bytes, and no percent sign stands unencoded.
pub normalize_url-encode_some :
    (cs : List Spelling) (rest : Str)
    → All IsEncodable cs
    → normalize_url (encode_some cs ++ rest) ≡ map (λ c. c.1) cs ++ normalize_url rest
normalize_url-encode_some [] rest h = refl
normalize_url-encode_some ((some cases, c) ∷ cs) rest (h, hs) =
    normalize_url-percent_encode cases c (encode_some cs ++ rest) h
    ∙ ap (◌∷◌ c) (normalize_url-encode_some cs rest hs)
normalize_url-encode_some ((none, c) ∷ cs) rest (h, hs) =
    normalize_url-plain c (encode_some cs ++ rest) h
    ∙ ap (◌∷◌ c) (normalize_url-encode_some cs rest hs)

length-decoded : (hex : Str) → length (decoded hex) ≤ suc (length hex)
unfolding decoded
length-decoded hex = elim (Option-cases (from_str_radix16 hex)) [
  | inl e ↦ rw (e, decoded) (omega arith)
  | inr (b, e) ↦ rw (e, decoded) (omega arith)
]

normalize_url-escape :
    (h1 h2 : ℕ) (s : Str)
    → normalize_url (b'%' ∷ h1 ∷ h2 ∷ s) ≡ decoded (h1 ∷ h2 ∷ []) ++ normalize_url s
unfolding normalize_url
normalize_url-escape h1 h2 s = refl

normalize_url-short_escape : (h1 : ℕ) → normalize_url (b'%' ∷ h1 ∷ []) ≡ decoded (h1 ∷ [])
unfolding normalize_url
normalize_url-short_escape h1 = refl

normalize_url-lone : normalize_url (b'%' ∷ []) ≡ b'%' ∷ []
unfolding normalize_url
normalize_url-lone = refl

-- The result is never longer than the input, for which its buffer is reserved.
pub length-normalize_url : (s : Str) → length (normalize_url s) ≤ length s
length-normalize_url [] = unfold normalize_url in omega arith
length-normalize_url (c ∷ []) = elim (Bool-cases (c == b'%')) [
  | inl sign ↦ rw ((==_iff c b'%').0 sign, normalize_url-lone) (omega arith)
  | inr plain ↦ rw (normalize_url-plain c [] plain) (unfold normalize_url in omega arith)
]
length-normalize_url (c ∷ h1 ∷ []) = elim (Bool-cases (c == b'%')) [
  | inl sign ↦
      rw ((==_iff c b'%').0 sign, normalize_url-short_escape)
        (omega (arith, length-decoded (h1 ∷ [])))
  | inr plain ↦
      rw (normalize_url-plain c (h1 ∷ []) plain) (omega (arith, length-normalize_url (h1 ∷ [])))
]
length-normalize_url (c ∷ h1 ∷ h2 ∷ s) = elim (Bool-cases (c == b'%')) [
  | inl sign ↦
      rw ((==_iff c b'%').0 sign, normalize_url-escape, length-append {0})
        (omega (arith, length-decoded (h1 ∷ h2 ∷ []), length-normalize_url s))
  | inr plain ↦
      rw (normalize_url-plain c (h1 ∷ h2 ∷ s) plain)
        (omega (arith, length-normalize_url (h1 ∷ h2 ∷ s)))
]
