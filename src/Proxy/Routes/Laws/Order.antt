-- ===== src/Proxy/Routes/Laws/Order.antt =====
-- The order of the sorted routes, and their members.
use oxidized_wall.Base.{
  ℕ, ◌≤◌, ◌≡◌, ◌↔◌, ◌⊎◌, inl, inr, List, [], ◌∷◌, arith, ip_eq, nat_eq, list_eq, Str, ltb,
  Bool-cases, All, utf8_len,
}
use oxidized_wall.Proxy.Routes.{insert_route, sort_routes}

-- The longest path first.
abbrev pub IsSorted : List (Str × List Str) → Type 0
IsSorted [] = Unit
IsSorted (r ∷ routes) = All (λ s. utf8_len s.0 ≤ utf8_len r.0) routes × IsSorted routes

All-insert_route :
    (n : ℕ) (r : Str × List Str) (routes : List (Str × List Str))
    → utf8_len r.0 ≤ n
    → All (λ s. utf8_len s.0 ≤ n) routes
    → All (λ s. utf8_len s.0 ≤ n) (insert_route r routes)
unfolding insert_route
All-insert_route n r [] h k = (h, tt)
All-insert_route n r (s ∷ routes) h (k, ks) = ground (arith, All-insert_route n r routes h ks)

All-mono :
    (m n : ℕ) (routes : List (Str × List Str))
    → m ≤ n
    → All (λ s. utf8_len s.0 ≤ m) routes
    → All (λ s. utf8_len s.0 ≤ n) routes
All-mono m n [] h k = tt
All-mono m n (s ∷ routes) h (k, ks) = (omega arith, All-mono m n routes h ks)

insert_route-IsSorted :
    (r : Str × List Str) (routes : List (Str × List Str))
    → IsSorted routes
    → IsSorted (insert_route r routes)
unfolding insert_route
insert_route-IsSorted r [] h = (tt, tt)
insert_route-IsSorted r (s ∷ routes) (k, h) =
    elim (Bool-cases (ltb (utf8_len r.0) (utf8_len s.0))) [
      | inl short ↦
          rw (short, insert_route)
            (
              All-insert_route (utf8_len s.0) r routes (ground arith) k,
              insert_route-IsSorted r routes h,
            )
      | inr long ↦
          let le : utf8_len s.0 ≤ utf8_len r.0 = ground arith in
          rw (long, insert_route) ((le, All-mono (utf8_len s.0) (utf8_len r.0) routes le k), (k, h))
    ]

pub sort_routes-IsSorted : (routes : List (Str × List Str)) → IsSorted (sort_routes routes)
unfolding sort_routes
sort_routes-IsSorted [] = tt
sort_routes-IsSorted (r ∷ routes) =
    insert_route-IsSorted r (sort_routes routes) (sort_routes-IsSorted routes)

-- A route stands in the list.
abbrev pub In : Str × List Str → List (Str × List Str) → Type 0
In x [] = ⊥
In x (r ∷ routes) = (x ≡ r) ⊎ In x routes

In-insert_route_iff :
    (x r : Str × List Str) (routes : List (Str × List Str))
    → In x (insert_route r routes) ↔ ((x ≡ r) ⊎ In x routes)
unfolding insert_route
In-insert_route_iff x r [] = (λ m. m, λ m. m)
In-insert_route_iff x r (s ∷ routes) = elim (Bool-cases (ltb (utf8_len r.0) (utf8_len s.0))) [
  | inl short ↦
      let ih = In-insert_route_iff x r routes in
      rw (short, insert_route)
        (
          λ m. elim m [
            | inl e ↦ inr (inl e)
            | inr m ↦ elim (ih.0 m) [ inl e ↦ inl e | inr k ↦ inr (inr k) ]
          ],
          λ m. elim m [
            | inl e ↦ inr (ih.1 (inl e))
            | inr m ↦ elim m [ inl e ↦ inl e | inr k ↦ inr (ih.1 (inr k)) ]
          ],
        )
  | inr long ↦ rw (long, insert_route) (λ m. m, λ m. m)
]

-- Sorting keeps every route and adds none.
pub In-sort_routes_iff :
    (x : Str × List Str) (routes : List (Str × List Str)) → In x (sort_routes routes) ↔ In x routes
unfolding sort_routes
In-sort_routes_iff x [] = (λ m. m, λ m. m)
In-sort_routes_iff x (r ∷ routes) =
    let ih = In-sort_routes_iff x routes in
    let step = In-insert_route_iff x r (sort_routes routes) in
    (
      λ m. elim (step.0 m) [ inl e ↦ inl e | inr k ↦ inr (ih.0 k) ],
      λ m. elim m [ inl e ↦ step.1 (inl e) | inr k ↦ step.1 (inr (ih.1 k)) ],
    )

pub le_of_In :
    (n : ℕ) (x : Str × List Str) (routes : List (Str × List Str))
    → All (λ s. utf8_len s.0 ≤ n) routes
    → In x routes
    → utf8_len x.0 ≤ n
le_of_In n x (r ∷ routes) (h, hs) (inl e) = rw e h
le_of_In n x (r ∷ routes) (h, hs) (inr m) = le_of_In n x routes hs m
le_of_In n x [] h m = absurd m
