-- ===== src/Proxy/Routes/Laws.antt =====
-- The chosen route against the configured ones, in whatever order a hash map gives them.
mod Order
mod Prefix
use oxidized_wall.Base.{
  ℕ, ◌≤◌, ◌≡◌, refl, sym, ap, ◌∙◌, ◌≢◌, ◌↔◌, inl, inr, true, none, some, List, [], ◌∷◌, arith,
  ip_eq, nat_eq, list_eq, Str, Bool-cases, Option-cases, starts_with, utf8_len,
}
use mathlib.Core.Path.{subst}
use native.Mathlib.Nat.{le_of_eq, le_antisymm}
use oxidized_wall.Dict.{HashMap, get}
use oxidized_wall.Proxy.Routes.{best_match, sort_routes}
use Order.{le_of_In}
pub use Order.{In, IsSorted, sort_routes-IsSorted, In-sort_routes_iff}
use Prefix.{prefix_unique}

module _ (path : Str) (state : HashMap Str ℕ) where
  -- The choice among some routes: one that the path begins with, with its counter, and none of those
  -- that could be chosen is longer.
  pub record IsBest (routes : List (Str × List Str)) (m : Str × List Str × ℕ) : Type 0 where
    pub listed : In (m.0, m.1) routes
    pub matches : starts_with path m.0 ≡ true
    pub counted : get state m.0 ≡ some m.2
    pub longest :
        (q : Str) (us : List Str) (c : ℕ)
        → In (q, us) routes
        → starts_with path q ≡ true
        → get state q ≡ some c
        → utf8_len q ≤ utf8_len m.0

  IsBest-cons :
      {p : Str} {us : List Str} {routes : List (Str × List Str)} {m : Str × List Str × ℕ}
      → ((c : ℕ) → starts_with path p ≡ true → get state p ≡ some c → utf8_len p ≤ utf8_len m.0)
      → IsBest routes m
      → IsBest ((p, us) ∷ routes) m
  IsBest-cons skip b = record {
    listed = inr b.listed;
    matches = b.matches;
    counted = b.counted;
    longest = λ q vs c k h g. elim k [
      | inl e ↦ rw (ap (λ (r : Str × List Str). r.0) e) (
          skip c (rw (← ap (λ (r : Str × List Str). r.0) e) h)
            (rw (← ap (λ (r : Str × List Str). r.0) e) g))
      | inr k ↦ b.longest q vs c k h g
    ];
  }

  best_match-IsBest :
      (routes : List (Str × List Str)) (m : Str × List Str × ℕ)
      → IsSorted routes
      → best_match path routes state ≡ some m
      → IsBest routes m
  unfolding best_match
  best_match-IsBest [] m sorted e = absurd (ground arith)
  best_match-IsBest ((p, us) ∷ routes) m (le, sorted) e = elim (Bool-cases (starts_with path p)) [
    | inl begins ↦ elim (Option-cases (get state p)) [
      | inl missing ↦
          IsBest-cons (λ c h g. absurd (ground arith))
            (best_match-IsBest routes m sorted (ground arith))
      | inr (c, counted) ↦
          let same : ◌≡◌ {A = Str × List Str × ℕ} (p, us, c) m = ground arith in
          subst (IsBest ((p, us) ∷ routes)) same (record {
            listed = inl refl;
            matches = begins;
            counted = counted;
            longest = λ q vs d k h g. elim k [
              | inl e ↦ le_of_eq (ap (λ (r : Str × List Str). utf8_len r.0) e)
              | inr k ↦ le_of_In (utf8_len p) (q, vs) routes le k
            ];
          })
    ]
    | inr other ↦
        IsBest-cons (λ c h g. absurd (ground arith))
          (best_match-IsBest routes m sorted (ground arith))
  ]

  best_match-ne-none :
      (routes : List (Str × List Str)) (q : Str) (us : List Str) (c : ℕ)
      → In (q, us) routes
      → starts_with path q ≡ true
      → get state q ≡ some c
      → best_match path routes state ≢ none
  unfolding best_match
  best_match-ne-none [] q us c m h k = absurd m
  best_match-ne-none ((p, vs) ∷ routes) q us c (inl e) h k =
      let same : p ≡ q = ap (λ (r : Str × List Str). r.0) (sym e) in rw (same, h, k) (λ f. cc)
  best_match-ne-none (r ∷ routes) q us c (inr m) h k =
      let ih = best_match-ne-none routes q us c m h k in ground (arith)

  -- The route of a request is one of the configured ones that its path begins with, and none of
  -- those with a counter is longer.
  pub best_match-sort_routes :
      (routes : List (Str × List Str)) (m : Str × List Str × ℕ)
      → best_match path (sort_routes routes) state ≡ some m
      → IsBest routes m
  best_match-sort_routes routes m e =
      let b = best_match-IsBest (sort_routes routes) m (sort_routes-IsSorted routes) e in
      record {
        listed = (In-sort_routes_iff (m.0, m.1) routes).0 b.listed;
        matches = b.matches;
        counted = b.counted;
        longest = λ q us c k. b.longest q us c ((In-sort_routes_iff (q, us) routes).1 k);
      }

  -- A request whose path begins with a configured route that has a counter has a route.
  pub best_match_found :
      (routes : List (Str × List Str)) (q : Str) (us : List Str) (c : ℕ)
      → In (q, us) routes
      → starts_with path q ≡ true
      → get state q ≡ some c
      → (m : Str × List Str × ℕ) × (best_match path (sort_routes routes) state ≡ some m)
  best_match_found routes q us c k h g =
      elim (Option-cases (best_match path (sort_routes routes) state)) [
        | inl e ↦ absurd (
            best_match-ne-none (sort_routes routes) q us c ((In-sort_routes_iff (q, us) routes).1 k)
              h g e)
        | inr found ↦ found
      ]

  -- A path has one list of upstreams.
  abbrev pub IsFunctional : List (Str × List Str) → Type 0
  IsFunctional routes =
      (q : Str) (us vs : List Str) → In (q, us) routes → In (q, vs) routes → us ≡ vs

  IsBest-unique :
      (routes : List (Str × List Str)) (m n : Str × List Str × ℕ)
      → IsFunctional routes
      → IsBest routes m
      → IsBest routes n
      → m ≡ n
  IsBest-unique routes m n one a b =
      let len : utf8_len m.0 ≡ utf8_len n.0 =
        le_antisymm (b.longest m.0 m.1 m.2 a.listed a.matches a.counted)
          (a.longest n.0 n.1 n.2 b.listed b.matches b.counted) in
      let same_path = prefix_unique path m.0 n.0 a.matches b.matches len in
      let same_upstreams = one n.0 m.1 n.1 (rw (← same_path) a.listed) b.listed in
      let same_counter : m.2 ≡ n.2 =
        ground (arith, ap (get state) same_path, a.counted, b.counted) in
      λ i. (same_path i, same_upstreams i, same_counter i)

  -- The order in which a hash map hands over the routes of a host does not matter: the same routes
  -- in any two orders, with one list of upstreams for each path, choose the same upstreams and
  -- counter for every path.
  pub best_match_order :
      (xs ys : List (Str × List Str))
      → IsFunctional xs
      → ((x : Str × List Str) → In x xs ↔ In x ys)
      → best_match path (sort_routes xs) state ≡ best_match path (sort_routes ys) state
  best_match_order xs ys one same = elim (Option-cases (best_match path (sort_routes xs) state)) [
    | inl ex ↦ elim (Option-cases (best_match path (sort_routes ys) state)) [
      | inl ey ↦ ex ∙ sym ey
      | inr (n, ey) ↦
          let b = best_match-sort_routes ys n ey in
          let (m, e) =
            best_match_found xs n.0 n.1 n.2 ((same (n.0, n.1)).1 b.listed) b.matches b.counted in
          absurd (cc)
    ]
    | inr (m, ex) ↦
        let a = best_match-sort_routes xs m ex in
        let (n, ey) =
          best_match_found ys m.0 m.1 m.2 ((same (m.0, m.1)).0 a.listed) a.matches a.counted in
        let b = best_match-sort_routes ys n ey in
        let b' : IsBest xs n = record {
          listed = (same (n.0, n.1)).1 b.listed;
          matches = b.matches;
          counted = b.counted;
          longest = λ q us c k. b.longest q us c ((same (q, us)).0 k);
        } in
        ex ∙ ap some (IsBest-unique xs m n one a b') ∙ sym ey
  ]
