-- ===== src/Base/Utf8.antt =====
-- UTF-8 as the standard library has it: `str::as_bytes`, `str::len` and
-- `String::from_utf8_lossy`.
use Prim.Native.Nat.{ℕ, zero, suc, ◌+◌, ◌-◌, ◌*◌, ◌/◌, ◌%◌}
use mathlib.Core.Bool.{Bool, ◌&&◌, ◌||◌}
use mathlib.Core.List.{[], ◌∷◌, ◌++◌}
use oxidized_wall.Base.Tests.{leb, ltb, if◌then◌else◌, nat_eqb}
use oxidized_wall.Base.Text.{Str, Bytes}
use oxidized_wall.Base.Lists.{length}

unfoldable pub encode_char : ℕ → Bytes
encode_char c =
    if ltb c 0x80
    then c ∷ []
    else if ltb c 0x800
    then (0xc0 + c / 64) ∷ (0x80 + c % 64) ∷ []
    else if ltb c 0x10000
    then (0xe0 + c / 4096) ∷ (0x80 + c / 64 % 64) ∷ (0x80 + c % 64) ∷ []
    else (0xf0 + c / 262144) ∷ (0x80 + c / 4096 % 64) ∷ (0x80 + c / 64 % 64) ∷ (0x80 + c % 64) ∷ []

unfoldable pub as_bytes : Str → Bytes
unfolding encode_char
as_bytes [] = []
as_bytes (c ∷ s) = encode_char c ++ as_bytes s

-- `str::len`: the number of bytes.
unfoldable pub utf8_len : Str → ℕ
unfolding as_bytes
utf8_len s = length (as_bytes s)

-- U+FFFD stands for each maximal part that is not UTF-8.
abbrev pub replacement : ℕ
replacement = 0xfffd

-- A byte 10xxxxxx, and the ranges that the second byte of a longer sequence must lie in.
is_tail : ℕ → Bool
is_tail b = leb 0x80 b && leb b 0xbf

second_of_three : ℕ → ℕ → Bool
second_of_three b0 b1 =
    (nat_eqb b0 0xe0 && leb 0xa0 b1 && leb b1 0xbf)
    || (nat_eqb b0 0xed && leb 0x80 b1 && leb b1 0x9f)
    || ((leb 0xe1 b0 && leb b0 0xec || leb 0xee b0 && leb b0 0xef) && leb 0x80 b1 && leb b1 0xbf)

second_of_four : ℕ → ℕ → Bool
second_of_four b0 b1 =
    (nat_eqb b0 0xf0 && leb 0x90 b1 && leb b1 0xbf)
    || (leb 0xf1 b0 && leb b0 0xf3 && leb 0x80 b1 && leb b1 0xbf)
    || (nat_eqb b0 0xf4 && leb 0x80 b1 && leb b1 0x8f)

-- One step: a character, or the replacement, and the number of bytes that it takes.
lossy_step : ℕ → Bytes → ℕ × ℕ
unfolding is_tail second_of_three second_of_four
lossy_step b0 rest =
    if ltb b0 0x80
    then (b0, 1)
    else if leb 0xc2 b0 && leb b0 0xdf
    then two rest
    else if leb 0xe0 b0 && leb b0 0xef
    then three rest
    else if leb 0xf0 b0 && leb b0 0xf4
    then four rest
    else (replacement, 1)
  where
    two : Bytes → ℕ × ℕ
    two [] = (replacement, 1)
    two (b1 ∷ _) = if is_tail b1 then ((b0 - 0xc0) * 64 + (b1 - 0x80), 2) else (replacement, 1)

    three : Bytes → ℕ × ℕ
    three [] = (replacement, 1)
    three (b1 ∷ []) = if second_of_three b0 b1 then (replacement, 2) else (replacement, 1)
    three (b1 ∷ b2 ∷ _) =
        if second_of_three b0 b1
        then (if is_tail b2
            then ((b0 - 0xe0) * 4096 + (b1 - 0x80) * 64 + (b2 - 0x80), 3)
            else (replacement, 2))
        else (replacement, 1)

    four : Bytes → ℕ × ℕ
    four [] = (replacement, 1)
    four (b1 ∷ []) = if second_of_four b0 b1 then (replacement, 2) else (replacement, 1)
    four (b1 ∷ b2 ∷ []) =
        if second_of_four b0 b1
        then (if is_tail b2 then (replacement, 3) else (replacement, 2))
        else (replacement, 1)
    four (b1 ∷ b2 ∷ b3 ∷ _) =
        if second_of_four b0 b1
        then (if is_tail b2
            then (if is_tail b3
                then ((b0 - 0xf0) * 262144 + (b1 - 0x80) * 4096 + (b2 - 0x80) * 64 + (b3 - 0x80), 4)
                else (replacement, 3))
            else (replacement, 2))
        else (replacement, 1)

-- `skip` bytes were taken by the last step.
lossy_from : ℕ → Bytes → Str
unfolding lossy_step
lossy_from skip [] = []
lossy_from zero (b ∷ rest) = let (c, taken) = lossy_step b rest in c ∷ lossy_from (taken - 1) rest
lossy_from (suc skip) (b ∷ rest) = lossy_from skip rest

unfoldable pub from_utf8_lossy : Bytes → Str
unfolding lossy_from
from_utf8_lossy bytes = lossy_from 0 bytes
