-- ===== src/Base/Text.antt =====
-- `str` and `String` as lists of Unicode scalar values, byte slices as lists of numbers, and the
-- standard library's operations on them. Fixed messages are native strings.
use Prim.Native.Nat.{ℕ, ◌+◌}
use Prim.Native.Char.{code}
use Prim.Native.String.{String}
use mathlib.Core.Path.{◌≡◌, refl}
use mathlib.Core.Bool.{Bool, true, false, ◌&&◌, ◌||◌}
use mathlib.Core.List.{List, [], ◌∷◌, ◌++◌, map}
use native.Mathlib.Omega.{arith}
use oxidized_wall.Base.Tests.{leb, if◌then◌else◌}
use oxidized_wall.Base.Keys.{◌==◌, ==_iff, nat_eq}

abbrev pub Str : Type 0
Str = List ℕ

abbrev pub Bytes : Type 0
Bytes = List ℕ

-- The characters of a literal.
abbrev pub codes : String → Str
codes String.[] = []
codes (String.◌∷◌ c s) = code c ∷ codes s

-- `str::starts_with` and `slice::starts_with`, the pattern second.
abbrev pub starts_with : List ℕ → List ℕ → Bool
starts_with s [] = true
starts_with [] (p ∷ ps) = false
starts_with (c ∷ s) (p ∷ ps) = c == p && starts_with s ps

-- `str::contains`, the pattern second.
abbrev pub contains : Str → Str → Bool
contains [] p = starts_with [] p
contains (c ∷ s) p = starts_with (c ∷ s) p || contains s p

-- `char::to_ascii_lowercase`, and `str::to_ascii_lowercase`.
abbrev pub lower_char : ℕ → ℕ
lower_char c = if leb b'A' c && leb c b'Z' then c + 32 else c

abbrev pub to_ascii_lowercase : Str → Str
to_ascii_lowercase = map lower_char

-- `char::is_control`: the class Cc.
abbrev pub is_control : ℕ → Bool
is_control c = leb c 0x1f || (leb 0x7f c && leb c 0x9f)

pub starts_with-append : (p s : List ℕ) → starts_with (p ++ s) p ≡ true
starts_with-append [] s = refl
starts_with-append (c ∷ p) s = ground (arith, starts_with-append p s)

pub starts_with-split : (s p : List ℕ) → starts_with s p ≡ true → (rest : List ℕ) × (s ≡ p ++ rest)
starts_with-split s [] h = (s, refl)
starts_with-split [] (p ∷ ps) h = absurd (ground arith)
starts_with-split (c ∷ s) (p ∷ ps) h =
    let ih = starts_with-split s ps (ground arith) in (ih.0, ground (arith, ih.1, ==_iff c p))
