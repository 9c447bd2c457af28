-- ===== src/Proxy/Balance/Laws.antt =====
-- Which upstream the load balancer chooses.
use oxidized_wall.Base.{
  ℕ, zero, suc, ◌+◌, ◌-◌, ◌%◌, ◌≤◌, ◌<◌, ◌≡◌, sym, ap, ◌∙◌, inl, inr, Bool, true, some, List, [],
  ◌∷◌, arith, ip_eq, nat_eq, list_eq, Str, Bool-cases, Option-cases, zero-or-pos, length, get_elem?,
  get_elem?-some,
}
use native.Mathlib.Decide.{dec_le}
use native.Mathlib.Nat.{mod-eq_of_lt, mod-add-mod, mod-lt, add-mod_right}
use oxidized_wall.Proxy.Balance.{usize_mod, select_from, select_upstream}

pub lt_of_get_elem? {ℓ} :
    {A : Type ℓ} (xs : List A) (k : ℕ) {a : A} → get_elem? xs k ≡ some a → k < length xs
lt_of_get_elem? [] k e = absurd (cc)
lt_of_get_elem? (x ∷ xs) zero e = omega arith
lt_of_get_elem? (x ∷ xs) (suc k) e = omega (arith, lt_of_get_elem? xs k e)

module _ (is_healthy : Str → Bool) (upstreams : List Str) where
  select_from_sound :
      (start i n : ℕ) (addr : Str)
      → select_from is_healthy upstreams start i n ≡ some addr
      → (is_healthy addr ≡ true) × ((k : ℕ) × (get_elem? upstreams k ≡ some addr))
  unfolding select_from
  select_from_sound start i zero addr e = absurd (ground arith)
  select_from_sound start i (suc n) addr e =
      elim (Option-cases (get_elem? upstreams ((start + i) % usize_mod % length upstreams))) [
        | inl out ↦ absurd (ground arith)
        | inr (a, at) ↦ elim (Bool-cases (is_healthy a)) [
          | inl good ↦
              let same : a ≡ addr = ground arith in
              (rw (← same) good, ((start + i) % usize_mod % length upstreams, rw (← same) at))
          | inr bad ↦ select_from_sound start (i + 1) n addr (ground arith)
        ]
      ]

  select_from_complete :
      (start i n k : ℕ) (addr : Str)
      → 0 < length upstreams
      → i ≤ k
      → k < i + n
      → start + k < usize_mod
      → get_elem? upstreams ((start + k) % length upstreams) ≡ some addr
      → is_healthy addr ≡ true
      → (a : Str) × (select_from is_healthy upstreams start i n ≡ some a)
  unfolding select_from
  select_from_complete start i zero k addr nonempty le lt small at good = absurd (omega arith)
  select_from_complete start i (suc n) k addr nonempty le lt small at good =
      let idx = (start + i) % usize_mod % length upstreams in
      let (a, here) = get_elem?-some upstreams idx (grind arith) in
      elim (Bool-cases (is_healthy a)) [
        | inl well ↦ (a, ground (arith, here))
        | inr ill ↦ elim (zero-or-pos (k - i)) [
          | inl now ↦
              let same : k ≡ i = omega arith in
              let plain : (start + i) % usize_mod ≡ start + k = omega arith in
              absurd (ground (arith, ap (λ x. get_elem? upstreams (x % length upstreams)) plain))
          | inr later ↦
              let (b, found) =
                select_from_complete start (i + 1) n k addr nonempty (omega arith) (omega arith)
                  small at good in
              (b, ground (arith, here, found))
        ]
      ]

  -- Every position is met within one turn from any start.
  turn :
      (start j : ℕ)
      → j < length upstreams
      → (k : ℕ) × (k < length upstreams) × ((start + k) % length upstreams ≡ j)
  turn start j lt = elim (dec_le (start % length upstreams) j) [
    | yes before ↦
        let k = j - start % length upstreams in
        (
          k,
          omega arith,
          sym (mod-add-mod start (length upstreams) k)
              ∙ ap (λ x. x % length upstreams) (omega arith)
              ∙ mod-eq_of_lt lt,
        )
    | no after ↦
        let below = mod-lt start {m = length upstreams} (omega arith) in
        let k = j + length upstreams - start % length upstreams in
        (
          k,
          omega arith,
          sym (mod-add-mod start (length upstreams) k)
              ∙ ap (λ x. x % length upstreams) {y = j + length upstreams} (omega arith)
              ∙ add-mod_right j (length upstreams)
              ∙ mod-eq_of_lt lt,
        )
  ]

  -- The choice is a healthy upstream of the list.
  pub select_upstream_sound :
      (counter : ℕ) (addr : Str)
      → (select_upstream is_healthy upstreams counter).1 ≡ some addr
      → (is_healthy addr ≡ true) × ((k : ℕ) × (get_elem? upstreams k ≡ some addr))
  unfolding select_upstream
  select_upstream_sound counter addr e = select_from_sound counter 0 (length upstreams) addr e

  -- If some upstream of the list is healthy, a healthy one of the list is chosen, as long as the
  -- counter does not wrap within the turn.
  pub select_upstream_complete :
      (counter k : ℕ) (addr : Str)
      → counter + length upstreams ≤ usize_mod
      → get_elem? upstreams k ≡ some addr
      → is_healthy addr ≡ true
      → (a : Str) × ((select_upstream is_healthy upstreams counter).1 ≡ some a)
        × (is_healthy a ≡ true)
        × ((j : ℕ) × (get_elem? upstreams j ≡ some a))
  unfolding select_upstream
  select_upstream_complete counter k addr small at good =
      let lt = lt_of_get_elem? upstreams k at in
      let (i, below, position) = turn counter k lt in
      let (a, chosen) =
        select_from_complete counter 0 (length upstreams) i addr (omega arith) (omega arith)
          (omega arith) (omega arith) (rw position at) good in
      let (well, listed) = select_upstream_sound counter a chosen in (a, chosen, well, listed)

  select_from_first :
      (start n : ℕ)
      → 0 < n
      → 0 < length upstreams
      → start < usize_mod
      → ((a : Str) → is_healthy a ≡ true)
      → select_from is_healthy upstreams start 0 n ≡ get_elem? upstreams (start % length upstreams)
  unfolding select_from
  select_from_first start zero pos nonempty small healthy = absurd (omega arith)
  select_from_first start (suc n) pos nonempty small healthy =
      let plain : (start + 0) % usize_mod ≡ start = omega arith in
      let (a, here) = get_elem?-some upstreams (start % length upstreams) (mod-lt start nonempty) in
      ground (arith, here, healthy a, ap (λ x. get_elem? upstreams (x % length upstreams)) plain)

  -- If all upstreams of a nonempty list are healthy, the one at the counter's position, modulo the
  -- list's length, is chosen.
  pub select_upstream_in_turn :
      (counter : ℕ)
      → 0 < length upstreams
      → counter < usize_mod
      → ((a : Str) → is_healthy a ≡ true)
      → (select_upstream is_healthy upstreams counter).1
        ≡ get_elem? upstreams (counter % length upstreams)
  unfolding select_upstream
  select_upstream_in_turn counter nonempty small healthy =
      select_from_first counter (length upstreams) nonempty nonempty small healthy
