-- ===== src/Waf/Structure.antt =====
-- src/waf/structure.rs: nesting, bots, density and repeated parameters.
pub mod Depth
pub mod Pollution
pub mod Bots
use oxidized_wall.Base.{
  ℕ, ◌+◌, ◌-◌, ◌<◌, ◌≡◌, Bool, true, false, not, ◌&&◌, ◌||◌, List, [], ◌∷◌, ◌==◌, ip_eq, nat_eq,
  list_eq, Str, codes, if◌then◌else◌, ltb, is_empty, count_if, any, All, contains,
  to_ascii_lowercase, utf8_len,
}

abbrev pub is_open : ℕ → Bool
is_open c = c == b'{' || c == b'['

abbrev pub is_close : ℕ → Bool
is_close c = c == b'}' || c == b']'

-- The loop of `check_json_depth`.
unfoldable pub depth_from : ℕ → ℕ → Str → Bool
depth_from max_depth depth [] = true
depth_from max_depth depth (c ∷ s) =
    let deeper =
      (if ltb max_depth (depth + 1) then false else depth_from max_depth (depth + 1) s) in
    let shallower = depth_from max_depth (if ltb 0 depth then depth - 1 else depth) s in
    let same = depth_from max_depth depth s in
    if is_open c then deeper else if is_close c then shallower else same

unfoldable pub check_json_depth : Str → ℕ → Bool
unfolding depth_from
check_json_depth input max_depth = depth_from max_depth 0 input

-- The Unicode tables of the standard library, with what they say of ASCII.
pub record Unicode : Type 0 where
  pub to_lowercase : Str → Str
  pub is_alphanumeric : ℕ → Bool
  pub is_whitespace : ℕ → Bool
  pub to_lowercase_ascii : (s : Str) → All (λ c. c < 128) s → to_lowercase s ≡ to_ascii_lowercase s

abbrev pub bot_signatures : List Str
bot_signatures =
    codes "sqlmap"
    ∷ codes "nikto"
    ∷ codes "nmap"
    ∷ codes "masscan"
    ∷ codes "dirbuster"
    ∷ codes "gobuster"
    ∷ []

unfoldable pub is_malicious_bot : Unicode → Str → Bool
is_malicious_bot u user_agent = any (contains (u.to_lowercase user_agent)) bot_signatures

-- `f32` as far as `is_high_density` goes: `as f32` from a `usize`, the quotient, `>`, and 0.4.
pub record Float32 : Type 1 where
  pub F : Type 0
  pub of_usize : ℕ → F
  pub div : F → F → F
  pub gt : F → F → Bool
  pub four_tenths : F

unfoldable pub special_chars : Unicode → Str → ℕ
special_chars u input = count_if (λ c. not (u.is_alphanumeric c) && not (u.is_whitespace c)) input

unfoldable pub is_high_density : (R : Float32) → Unicode → Str → R.F → Bool
unfolding special_chars
is_high_density R u [] threshold = false
is_high_density R u (c ∷ input) threshold =
    R.gt (R.div (R.of_usize (special_chars u (c ∷ input))) (R.of_usize (utf8_len (c ∷ input))))
      threshold

-- A character put before the first piece.
abbrev pub glue : ℕ → List Str → List Str
glue c [] = (c ∷ []) ∷ []
glue c (p ∷ ps) = (c ∷ p) ∷ ps

-- `str::split` at a character: the pieces, at least one.
unfoldable pub split : ℕ → Str → List Str
split sep [] = [] ∷ []
split sep (c ∷ s) = let pieces = split sep s in if c == sep then [] ∷ pieces else glue c pieces

-- `split(sep).next()`: the text before the first separator.
unfoldable pub split_next : ℕ → Str → Str
split_next sep [] = []
split_next sep (c ∷ s) = let rest = split_next sep s in if c == sep then [] else c ∷ rest

-- `HashSet::contains` for the set as a list; `insert` tells whether the key is new.
unfoldable pub seen : Str → List Str → Bool
seen key [] = false
seen key (k ∷ keys) = k == key || seen key keys

-- The loop of `has_parameter_pollution`.
unfoldable pub pollution_from : List Str → List Str → Bool
unfolding seen split_next
pollution_from keys [] = false
pollution_from keys (pair ∷ pairs) =
    let key = split_next b'=' pair in
    let skipped = pollution_from keys pairs in
    let inserted = pollution_from (key ∷ keys) pairs in
    if is_empty key then skipped else if seen key keys then true else inserted

unfoldable pub has_parameter_pollution : Str → Bool
unfolding pollution_from split
has_parameter_pollution input = pollution_from [] (split b'&' input)
