-- ===== src/Dict/Hash.antt =====
-- `std::collections::HashMap` as an association list without repeated keys.
use oxidized_wall.Base.{
  Eq, ◌==◌, ==_iff, if◌then◌else◌, ◌≡◌, refl, Bool, Option, none, some, List, [], ◌∷◌, arith,
  Bool-cases, inl, inr, ap,
}

abbrev pub HashMap {ℓ κ} : Type ℓ → Type κ → Type (ℓ ⊔ κ)
HashMap K V = List (K × V)

module _ {ℓ κ} {K : Type ℓ} {V : Type κ} ⦃e : Eq K⦄ where
  unfoldable pub get : HashMap K V → K → Option V
  get [] k = none
  get ((j, v) ∷ m) k = if j == k then some v else get m k

  unfoldable pub insert : HashMap K V → K → V → HashMap K V
  insert [] k v = (k, v) ∷ []
  insert ((j, w) ∷ m) k v = if j == k then (k, v) ∷ m else (j, w) ∷ insert m k v

  unfoldable pub remove : HashMap K V → K → HashMap K V
  remove [] k = []
  remove ((j, w) ∷ m) k = let rest = remove m k in if j == k then rest else (j, w) ∷ rest

  -- Keeps the entries that pass the test. The key of one that does not is no key of the rest.
  unfoldable pub retain : (K → V → Bool) → HashMap K V → HashMap K V
  retain p [] = []
  retain p ((j, w) ∷ m) = let rest = retain p m in if p j w then (j, w) ∷ rest else remove rest j

  pub get-insert :
      (m : HashMap K V) (k : K) (v : V) (j : K)
      → get (insert m k v) j ≡ (if k == j then some v else get m j)
  unfolding get insert
  get-insert [] k v j = refl
  get-insert ((i, w) ∷ m) k v j =
      ground (arith, ==_iff k j, ==_iff i k, ==_iff i j, get-insert m k v j)

  pub get-remove :
      (m : HashMap K V) (k j : K) → get (remove m k) j ≡ (if k == j then none else get m j)
  unfolding get remove
  get-remove [] k j = ground arith
  get-remove ((i, w) ∷ m) k j = ground (arith, ==_iff k j, ==_iff i k, ==_iff i j, get-remove m k j)

  -- What `retain` leaves of one entry.
  abbrev pub kept : (K → V → Bool) → K → Option V → Option V
  kept p k none = none
  kept p k (some v) = if p k v then some v else none

  pub get-retain :
      (p : K → V → Bool) (m : HashMap K V) (k : K) → get (retain p m) k ≡ kept p k (get m k)
  unfolding get retain
  get-retain p [] k = refl
  get-retain p ((i, w) ∷ m) k = elim (Bool-cases (i == k)) [
    | inl same ↦
        let e = (==_iff i k).0 same in
        ground (arith, get-remove (retain p m) i k, ap (λ h. p h w) e)
    | inr other ↦ ground (arith, get-remove (retain p m) i k, get-retain p m k)
  ]

  pub get-nil : (k : K) → get [] k ≡ none
  unfolding get
  get-nil k = refl
