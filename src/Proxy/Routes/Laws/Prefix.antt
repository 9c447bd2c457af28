-- ===== src/Proxy/Routes/Laws/Prefix.antt =====
-- Prefixes of a text by their length in bytes.
use oxidized_wall.Base.{
  ℕ, ◌+◌, ◌<◌, ◌≡◌, refl, ap, true, [], ◌∷◌, arith, ==_iff, ip_eq, nat_eq, list_eq, Str,
  length-append, length, starts_with, as_bytes, encode_char, utf8_len,
}

encode_char_pos : (c : ℕ) → 0 < length (encode_char c)
unfolding encode_char
encode_char_pos c = ground arith

utf8_len-cons : (c : ℕ) (s : Str) → utf8_len (c ∷ s) ≡ length (encode_char c) + utf8_len s
unfolding utf8_len as_bytes
utf8_len-cons c s = length-append (encode_char c) (as_bytes s)

utf8_len-nil : utf8_len [] ≡ 0
unfolding utf8_len as_bytes
utf8_len-nil = refl

pub prefix_unique :
    (s p q : Str)
    → starts_with s p ≡ true
    → starts_with s q ≡ true
    → utf8_len p ≡ utf8_len q
    → p ≡ q
prefix_unique s [] [] h k e = refl
prefix_unique s [] (d ∷ q) h k e =
    absurd (omega (arith, utf8_len-cons d q, encode_char_pos d, utf8_len-nil))
prefix_unique s (c ∷ p) [] h k e =
    absurd (omega (arith, utf8_len-cons c p, encode_char_pos c, utf8_len-nil))
prefix_unique [] (c ∷ p) (d ∷ q) h k e = absurd (ground arith)
prefix_unique (x ∷ s) (c ∷ p) (d ∷ q) h k e =
    let same : c ≡ d = ground (arith, ==_iff x c, ==_iff x d) in
    let len : utf8_len p ≡ utf8_len q =
      omega (arith, utf8_len-cons c p, utf8_len-cons d q, ap (λ y. length (encode_char y)) same) in
    let ih = prefix_unique s p q (ground arith) (ground arith) len in λ i. same i ∷ ih i
