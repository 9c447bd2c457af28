-- ===== src/Waf/Structure/Depth.antt =====
-- `check_json_depth` against the nesting of the text.
use oxidized_wall.Base.{
  ℕ, suc, ◌+◌, ◌-◌, ◌≤◌, ◌≡◌, refl, ◌∙◌, true, false, [], ◌∷◌, ◌++◌, arith, ip_eq, nat_eq, list_eq,
  Str, if◌then◌else◌, leb,
}
use Prim.Native.Nat.{max}
use mathlib.Core.List.{append_assoc, append-nil}
use oxidized_wall.Waf.Structure.{is_open, is_close, depth_from, check_json_depth}

-- The depth after a character; a closing bracket at depth zero is ignored.
abbrev pub next_depth : ℕ → ℕ → ℕ
next_depth depth c = if is_open c then depth + 1 else if is_close c then depth - 1 else depth

-- The greatest depth on the way through a text.
unfoldable pub peak : ℕ → Str → ℕ
peak depth [] = depth
peak depth (c ∷ s) = max depth (peak (next_depth depth c) s)

le-peak : (depth : ℕ) (s : Str) → depth ≤ peak depth s
unfolding peak
le-peak depth [] = omega arith
le-peak depth (c ∷ s) = omega arith

depth_from-eq-leb :
    (max_depth depth : ℕ) (s : Str)
    → depth ≤ max_depth
    → depth_from max_depth depth s ≡ leb (peak depth s) max_depth
unfolding depth_from peak
depth_from-eq-leb max_depth depth [] h = ground arith
depth_from-eq-leb max_depth depth (c ∷ s) h = ground (
  arith,
  le-peak (depth + 1) s,
  depth_from-eq-leb max_depth (depth + 1) s,
  depth_from-eq-leb max_depth (depth - 1) s,
  depth_from-eq-leb max_depth depth s,
)

-- The check with its early return accepts exactly the texts whose depth never passes the limit.
pub check_json_depth-eq-leb :
    (s : Str) (max_depth : ℕ) → check_json_depth s max_depth ≡ leb (peak 0 s) max_depth
unfolding check_json_depth
check_json_depth-eq-leb s max_depth = depth_from-eq-leb max_depth 0 s (omega arith)

-- A document by its brackets: nothing more, a character, or a bracketed part and what follows.
pub data Nest : Type 0 where
  done : Nest
  char : ℕ → Nest → Nest
  braces : Nest → Nest → Nest
  brackets : Nest → Nest → Nest

unfoldable pub print : Nest → Str
print done = []
print (char c rest) = c ∷ print rest
print (braces inner rest) = b'{' ∷ (print inner ++ b'}' ∷ print rest)
print (brackets inner rest) = b'[' ∷ (print inner ++ b']' ∷ print rest)

unfoldable pub depth : Nest → ℕ
depth done = 0
depth (char c rest) = depth rest
depth (braces inner rest) = max (suc (depth inner)) (depth rest)
depth (brackets inner rest) = max (suc (depth inner)) (depth rest)

-- The characters between the brackets are none.
abbrev pub IsPlain : Nest → Type 0
IsPlain done = Unit
IsPlain (char c rest) = (is_open c ≡ false) × (is_close c ≡ false) × IsPlain rest
IsPlain (braces inner rest) = IsPlain inner × IsPlain rest
IsPlain (brackets inner rest) = IsPlain inner × IsPlain rest

peak-char :
    (c d : ℕ) (s : Str) → is_open c ≡ false → is_close c ≡ false → peak d (c ∷ s) ≡ max d (peak d s)
unfolding peak
peak-char c d s o k = rw (o, k) refl

-- A bracketed part, then more.
peak-bracketed :
    (left right d n : ℕ) (inner after : Str)
    → is_open left ≡ true
    → is_open right ≡ false
    → is_close right ≡ true
    → peak (d + 1) (inner ++ right ∷ after) ≡ max (d + 1 + n) (peak (d + 1) (right ∷ after))
    → peak d (left ∷ (inner ++ right ∷ after)) ≡ max (d + suc n) (peak d after)
unfolding peak
peak-bracketed left right d n inner after o not_open k h =
    let back : d + 1 - 1 ≡ d = omega arith in
    let opened : next_depth d left ≡ d + 1 = rw o refl in
    let closed : next_depth (d + 1) right ≡ d = rw (not_open, k) back in
    rw opened (rw h (rw closed (omega (arith, le-peak d after))))

peak-print :
    (t : Nest) (d : ℕ) (s : Str) → IsPlain t → peak d (print t ++ s) ≡ max (d + depth t) (peak d s)
unfolding print depth
peak-print done d s h = omega (arith, le-peak d s)
peak-print (char c rest) d s (o, k, h) =
    peak-char c d (print rest ++ s) o k ∙ omega (arith, peak-print rest d s h)
peak-print (braces inner rest) d s (h, k) =
    let after = print rest ++ s in
    rw append_assoc (
      peak-bracketed b'{' b'}' d (depth inner) (print inner) after refl refl refl
        (peak-print inner (d + 1) (b'}' ∷ after) h)
      ∙ omega (arith, peak-print rest d s k))
peak-print (brackets inner rest) d s (h, k) =
    let after = print rest ++ s in
    rw append_assoc (
      peak-bracketed b'[' b']' d (depth inner) (print inner) after refl refl refl
        (peak-print inner (d + 1) (b']' ∷ after) h)
      ∙ omega (arith, peak-print rest d s k))

-- A well-bracketed document, in which no character but the brackets themselves is a bracket,
-- passes exactly if its nesting is within the limit.
pub check_json_depth-print :
    (t : Nest) (max_depth : ℕ)
    → IsPlain t
    → check_json_depth (print t) max_depth ≡ leb (depth t) max_depth
unfolding peak
check_json_depth-print t max_depth h =
    rw (check_json_depth-eq-leb, ← append-nil (print t), peak-print t 0 [] h) (ground arith)
