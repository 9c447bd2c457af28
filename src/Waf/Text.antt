-- ===== src/Waf/Text.antt =====
-- Lemmas on texts that the inspections share.
use oxidized_wall.Base.{
  starts_with-append, lower_char, ◌≡◌, refl, ap, Bool, true, List, [], ◌∷◌, ◌++◌, arith, ip_eq,
  nat_eq, list_eq, Str, any, contains, to_ascii_lowercase,
}
use mathlib.Core.List.{Memᴰ}

pub contains-infix : (before p after : Str) → contains (before ++ (p ++ after)) p ≡ true
contains-infix [] [] [] = refl
contains-infix [] [] (c ∷ after) = refl
contains-infix [] (c ∷ p) after = rw (starts_with-append (c ∷ p) after) refl
contains-infix (c ∷ before) p after = ground (arith, contains-infix before p after)

pub lower-append :
    (xs ys : Str) → to_ascii_lowercase (xs ++ ys) ≡ to_ascii_lowercase xs ++ to_ascii_lowercase ys
lower-append [] ys = refl
lower-append (c ∷ xs) ys = ap (◌∷◌ (lower_char c)) (lower-append xs ys)

pub any_of_Memᴰ {ℓ} :
    {A : Type ℓ} (p : A → Bool) {a : A} {l : List A} → Memᴰ a l → p a ≡ true → any p l ≡ true
any_of_Memᴰ p (Memᴰ.head {x = x} {xs = xs} e) h = rw (← e, h) refl
any_of_Memᴰ p (Memᴰ.tail {x = x} d) h = ground (arith, any_of_Memᴰ p d h)
