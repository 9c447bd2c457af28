-- ===== src/Bandwidth/Float.antt =====
-- `f64` as an interface: the values other than NaN, and the facts about rounded arithmetic that
-- the bucket relies on.
use oxidized_wall.Base.{false, ℕ, ◌≡◌, Bool, true, not, ip_eq, nat_eq, list_eq, Duration}

pub record Float64 : Type 1 where
  pub F : Type 0
  -- `as f64` from a `u64`, and `Duration::as_secs_f64`.
  pub of_u64 : ℕ → F
  pub as_secs : Duration → F
  pub add : F → F → F
  pub sub : F → F → F
  pub mul : F → F → F
  -- `a > b` and `a >= b`.
  pub gt : F → F → Bool
  pub ge : F → F → Bool
  pub gt-eq-not_ge : (a b : F) → gt a b ≡ not (ge b a)
  pub ge_refl : (a : F) → ge a a ≡ true
  pub ge_total : (a b : F) → ge a b ≡ false → ge b a ≡ true
  pub ge_trans : (a b c : F) → ge a b ≡ true → ge b c ≡ true → ge a c ≡ true
  pub of_u64_nonneg : (n : ℕ) → ge (of_u64 n) (of_u64 0) ≡ true
  pub as_secs_nonneg : (d : Duration) → ge (as_secs d) (of_u64 0) ≡ true
  pub zero-add : (a : F) → ge a (of_u64 0) ≡ true → add (of_u64 0) a ≡ a
  pub add_nonneg :
      (a b : F) → ge a (of_u64 0) ≡ true → ge b (of_u64 0) ≡ true → ge (add a b) (of_u64 0) ≡ true
  pub mul_nonneg :
      (a b : F) → ge a (of_u64 0) ≡ true → ge b (of_u64 0) ≡ true → ge (mul a b) (of_u64 0) ≡ true
  pub sub_nonneg : (a b : F) → ge a b ≡ true → ge (sub a b) (of_u64 0) ≡ true
  pub sub-le : (a b : F) → ge b (of_u64 0) ≡ true → ge a (sub a b) ≡ true
