-- ===== src/Dict/Shared.antt =====
-- `dashmap::DashMap`, what its documentation promises: one value for each key, read back after it
-- is written, and `retain`. A write through the guard of an entry is an `insert`, since the guard
-- locks the entry.
use oxidized_wall.Base.{
  ◌≡◌, Bool, Option, none, some, [], arith, Eq, ◌==◌, ==_iff, ip_eq, nat_eq, list_eq, if◌then◌else◌,
  unwrap_or,
}
use oxidized_wall.Dict.Hash
use oxidized_wall.Dict.Hash.{HashMap, kept}

pub record DashMap (K V : Type 0) ⦃e : Eq K⦄ : Type 1 where
  pub Map : Type 0
  pub new : Map
  pub get : Map → K → Option V
  pub insert : Map → K → V → Map
  pub retain : (K → V → Bool) → Map → Map
  pub get-new : (k : K) → get new k ≡ none
  pub get-insert :
      (m : Map) (k : K) (v : V) (j : K)
      → get (insert m k v) j ≡ (if k == j then some v else get m j)
  pub get-retain : (p : K → V → Bool) (m : Map) (k : K) → get (retain p m) k ≡ kept p k (get m k)

-- `entry(k).or_insert(d)`: the map with the entry there, and its value.
abbrev pub or_insert : {K V : Type 0} ⦃e : Eq K⦄ (D : DashMap K V) → D.Map → K → V → D.Map × V
or_insert D m k d = elim (D.get m k) [ some v ↦ (m, v) | none ↦ (D.insert m k d, d) ]

pub or_insert-value :
    {K V : Type 0} ⦃e : Eq K⦄ (D : DashMap K V) (m : D.Map) (k : K) (d : V)
    → (or_insert D m k d).1 ≡ unwrap_or (D.get m k) d
or_insert-value D m k d = ground arith

-- What is read after a write through the guard of an entry.
pub get-insert-or_insert :
    {K V : Type 0} ⦃e : Eq K⦄ (D : DashMap K V) (m : D.Map) (k j : K) (d v : V)
    → D.get (D.insert (or_insert D m k d).0 k v) j ≡ (if k == j then some v else D.get m j)
get-insert-or_insert D m k j d v = ground (
  arith,
  ==_iff k j,
  D.get-insert m k d j,
  D.get-insert m k v j,
  D.get-insert (D.insert m k d) k v j,
)

-- A map that meets the interface.
abbrev pub list_map : {K V : Type 0} ⦃e : Eq K⦄ → DashMap K V
list_map {K} {V} = record {
  Map = HashMap K V;
  new = [];
  get = Hash.get;
  insert = Hash.insert;
  retain = Hash.retain;
  get-new = λ k. Hash.get-nil k;
  get-insert = Hash.get-insert;
  get-retain = Hash.get-retain;
}
