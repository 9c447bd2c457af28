-- ===== src/Waf/Structure/Pollution.antt =====
-- `has_parameter_pollution` against the keys of a query.
use oxidized_wall.Base.{
  ℕ, ◌≡◌, refl, ap, ◌∙◌, Bool, false, ◌||◌, List, [], ◌∷◌, ◌++◌, map, arith, ◌==◌, ==_iff, ip_eq,
  nat_eq, list_eq, Str, if◌then◌else◌, is_empty, All,
}
use oxidized_wall.Waf.Structure.{split, split_next, seen, pollution_from, has_parameter_pollution}

-- The keys that are not empty, in order.
abbrev pub nonempty : List Str → List Str
nonempty [] = []
nonempty (k ∷ ks) = if is_empty k then nonempty ks else k ∷ nonempty ks

-- Some key stands twice.
unfoldable pub repeated : List Str → Bool
unfolding seen
repeated [] = false
repeated (k ∷ ks) = seen k ks || repeated ks

-- One of the keys was seen before.
meets : List Str → List Str → Bool
unfolding seen
meets old [] = false
meets old (k ∷ ks) = seen k old || meets old ks

meets-cons : (k : Str) (old ks : List Str) → meets (k ∷ old) ks ≡ (seen k ks || meets old ks)
unfolding meets
meets-cons k old [] = refl
meets-cons k old (j ∷ ks) = ground (arith, meets-cons k old ks, ==_iff k j, ==_iff j k)

meets-nil : (ks : List Str) → meets [] ks ≡ false
unfolding meets
meets-nil [] = refl
meets-nil (k ∷ ks) = meets-nil ks

pollution_from-eq-meets :
    (old pairs : List Str)
    → pollution_from old pairs ≡ (
        meets old (nonempty (map (split_next b'=') pairs))
        || repeated (nonempty (map (split_next b'=') pairs)))
unfolding pollution_from meets repeated
pollution_from-eq-meets old [] = refl
pollution_from-eq-meets old (pair ∷ pairs) =
    let k = split_next b'=' pair in
    ground (
      arith,
      pollution_from-eq-meets old pairs,
      pollution_from-eq-meets (k ∷ old) pairs,
      meets-cons k old (nonempty (map (split_next b'=') pairs)),
    )

-- The check finds exactly the inputs in which two of the parts between ampersands have the same
-- nonempty key.
pub has_parameter_pollution-eq-repeated :
    (input : Str)
    → has_parameter_pollution input ≡ repeated (nonempty (map (split_next b'=') (split b'&' input)))
unfolding has_parameter_pollution
has_parameter_pollution-eq-repeated input = ground (
  arith,
  pollution_from-eq-meets [] (split b'&' input),
  meets-nil (nonempty (map (split_next b'=') (split b'&' input))),
)

-- The character does not occur.
abbrev pub Lacks : ℕ → Str → Type 0
Lacks c = All (λ x. (x == c) ≡ false)

split_lacking : (sep : ℕ) (s : Str) → Lacks sep s → split sep s ≡ s ∷ []
unfolding split
split_lacking sep [] h = refl
split_lacking sep (c ∷ s) (h, hs) = ground (arith, split_lacking sep s hs)

split-append :
    (sep : ℕ) (s rest : Str) → Lacks sep s → split sep (s ++ sep ∷ rest) ≡ s ∷ split sep rest
unfolding split
split-append sep [] rest h = ground (arith, ==_iff sep sep)
split-append sep (c ∷ s) rest (h, hs) = ground (arith, split-append sep s rest hs)

split_next-append : (sep : ℕ) (s rest : Str) → Lacks sep s → split_next sep (s ++ sep ∷ rest) ≡ s
unfolding split_next
split_next-append sep [] rest h = ground (arith, ==_iff sep sep)
split_next-append sep (c ∷ s) rest (h, hs) = ground (arith, split_next-append sep s rest hs)

Lacks-append : (c : ℕ) (xs ys : Str) → Lacks c xs → Lacks c ys → Lacks c (xs ++ ys)
Lacks-append c [] ys h k = k
Lacks-append c (x ∷ xs) ys (h, hs) k = (h, Lacks-append c xs ys hs k)

-- A parameter `key=value`, and a query of at least one.
abbrev pub print_pair : Str × Str → Str
print_pair (k, v) = k ++ b'=' ∷ v

unfoldable pub print_query : Str × Str → List (Str × Str) → Str
print_query p [] = print_pair p
print_query p (q ∷ qs) = print_pair p ++ b'&' ∷ print_query q qs

-- Keys without separators, values without ampersands.
abbrev pub IsClean : Str × Str → Type 0
IsClean (k, v) = Lacks b'=' k × Lacks b'&' k × Lacks b'&' v

Lacks-print_pair : (p : Str × Str) → IsClean p → Lacks b'&' (print_pair p)
Lacks-print_pair (k, v) (a, b, c) = Lacks-append b'&' k (b'=' ∷ v) b (refl, c)

keys-print_query :
    (p : Str × Str) (ps : List (Str × Str))
    → IsClean p
    → All IsClean ps
    → map (split_next b'=') (split b'&' (print_query p ps)) ≡ p.0 ∷ map (λ q. q.0) ps
unfolding print_query
keys-print_query (k, v) [] h hs =
    rw (split_lacking b'&' _ (Lacks-print_pair (k, v) h))
      (ap (λ x. x ∷ []) (split_next-append b'=' k v h.0))
keys-print_query (k, v) (q ∷ qs) h (g, gs) =
    rw
      (
        split-append b'&' (print_pair (k, v)) (print_query q qs) (Lacks-print_pair (k, v) h),
        split_next-append b'=' k v h.0,
      )
      (ap (◌∷◌ k) (keys-print_query q qs g gs))

-- A query that is printed from one or more parameters, with no equals sign in a key and no
-- ampersand in a key or a value, is refused exactly if a nonempty key stands twice.
pub has_parameter_pollution-print_query :
    (p : Str × Str) (ps : List (Str × Str))
    → IsClean p
    → All IsClean ps
    → has_parameter_pollution (print_query p ps) ≡ repeated (nonempty (p.0 ∷ map (λ q. q.0) ps))
has_parameter_pollution-print_query p ps h hs =
    has_parameter_pollution-eq-repeated (print_query p ps)
    ∙ ap (λ ks. repeated (nonempty ks)) (keys-print_query p ps h hs)
