-- ===== src/Config/Load/Routing.antt =====
-- Routing over the routes of a loaded host.
use oxidized_wall.Base.{
  ℕ, ◌≤◌, ◌≡◌, refl, sym, ap, ◌∙◌, ◌↔◌, inl, inr, Bool, true, false, ◌||◌, some, List, [], ◌∷◌,
  ◌++◌, arith, ◌==◌, ==_iff, ip_eq, nat_eq, list_eq, Str, if◌then◌else◌, Bool-cases, any,
  starts_with, utf8_len,
}
use mathlib.Core.List.{append-nil, append_assoc}
use oxidized_wall.Config.Load.{RawVHost, load_routers, load_vhost}
use oxidized_wall.Dict.{HashMap, get, insert, get-insert}
use oxidized_wall.Proxy.Routes.{best_match, sort_routes}
use oxidized_wall.Proxy.Routes.Laws.{In, best_match-sort_routes, best_match_found}

load_routers-eq-append :
    (raw : HashMap Str (List Str)) (st : HashMap Str ℕ) (rs : List (Str × List Str))
    → (load_routers raw st rs).1 ≡ rs ++ raw
unfolding load_routers
load_routers-eq-append [] st rs = sym (append-nil rs)
load_routers-eq-append ((p, us) ∷ more) st rs =
    load_routers-eq-append more (insert st p 0) (rs ++ (p, us) ∷ [])
    ∙ append_assoc rs ((p, us) ∷ []) more

-- A path stands among the routes.
abbrev pub has_path : Str → List (Str × List Str) → Bool
has_path q [] = false
has_path q ((p, us) ∷ routes) = p == q || has_path q routes

pub get-load_routers :
    (raw : HashMap Str (List Str)) (st : HashMap Str ℕ) (rs : List (Str × List Str)) (q : Str)
    → get (load_routers raw st rs).0 q ≡ (if has_path q raw then some 0 else get st q)
unfolding load_routers
get-load_routers [] st rs q = refl
get-load_routers ((p, us) ∷ more) st rs q =
    ground
      (arith, get-load_routers more (insert st p 0) (rs ++ (p, us) ∷ []) q, get-insert st p 0 q)

has_path_of_In :
    (q : Str) (us : List Str) (routes : List (Str × List Str))
    → In (q, us) routes
    → has_path q routes ≡ true
has_path_of_In q us [] m = absurd m
has_path_of_In q us ((p, vs) ∷ routes) (inl e) =
    let same : q ≡ p = ap (λ (r : Str × List Str). r.0) e in ground (arith, ==_iff p q)
has_path_of_In q us ((p, vs) ∷ routes) (inr m) = ground (arith, has_path_of_In q us routes m)

-- Every route of a loaded host has a counter, at zero.
get-load_vhost :
    (rv : RawVHost) (q : Str) (us : List Str)
    → In (q, us) rv.routers
    → get (load_vhost rv).routers_state q ≡ some 0
unfolding load_vhost
get-load_vhost rv q us m =
    ground (arith, get-load_routers rv.routers [] [] q, has_path_of_In q us rv.routers m)

pub routers-load_vhost : (rv : RawVHost) → (load_vhost rv).routers ≡ sort_routes rv.routers
unfolding load_vhost
routers-load_vhost rv = ap sort_routes (load_routers-eq-append rv.routers [] [])

In_of_prefix :
    (path : Str) (routes : List (Str × List Str))
    → any (λ (r : Str × List Str). starts_with path r.0) routes ≡ true
    → (q : Str) × (us : List Str) × In (q, us) routes × (starts_with path q ≡ true)
In_of_prefix path [] h = absurd (ground arith)
In_of_prefix path ((p, us) ∷ routes) h = elim (Bool-cases (starts_with path p)) [
  | inl begins ↦ (p, us, inl refl, begins)
  | inr other ↦
      let (q, vs, m, begins) = In_of_prefix path routes (ground arith) in (q, vs, inr m, begins)
]

pub prefix_of_In :
    (path : Str) (q : Str) (us : List Str) (routes : List (Str × List Str))
    → In (q, us) routes
    → starts_with path q ≡ true
    → any (λ (r : Str × List Str). starts_with path r.0) routes ≡ true
prefix_of_In path q us [] m h = absurd m
prefix_of_In path q us ((p, vs) ∷ routes) (inl e) h =
    let same : q ≡ p = ap (λ (r : Str × List Str). r.0) e in rw (← same, h) refl
prefix_of_In path q us (r ∷ routes) (inr m) h = ground (arith, prefix_of_In path q us routes m h)

module _ (path : Str) (rv : RawVHost) where
  -- A loaded host has a route for a path exactly if the path begins with one of the paths that the
  -- file configures for the host.
  pub best_match-load_vhost_iff :
      ((m : Str × List Str × ℕ) × (best_match path
            (load_vhost rv).routers
            (load_vhost rv).routers_state
          ≡ some m))
      ↔ (any (λ (r : Str × List Str). starts_with path r.0) rv.routers ≡ true)
  best_match-load_vhost_iff = (
    λ (m, e).
        let b =
          best_match-sort_routes path (load_vhost rv).routers_state rv.routers m
            (rw (← routers-load_vhost rv) e) in
        prefix_of_In path m.0 m.1 rv.routers b.listed b.matches,
    λ h.
        let (q, us, m, begins) = In_of_prefix path rv.routers h in
        rw (routers-load_vhost rv) (
          best_match_found path (load_vhost rv).routers_state rv.routers q us 0 m begins
            (get-load_vhost rv q us m)),
  )

  -- The route of a loaded host is a configured one with its upstreams, and no configured path that
  -- the request's path begins with is longer; its counter starts at zero.
  pub best_match-load_vhost :
      (p q : Str) (us vs : List Str) (c : ℕ)
      → best_match path (load_vhost rv).routers (load_vhost rv).routers_state ≡ some (p, us, c)
      → In (q, vs) rv.routers
      → starts_with path q ≡ true
      → In (p, us) rv.routers × (starts_with path p ≡ true) × (c ≡ 0) × (utf8_len q ≤ utf8_len p)
  best_match-load_vhost p q us vs c e m begins =
      let b =
        best_match-sort_routes path (load_vhost rv).routers_state rv.routers (p, us, c)
          (rw (← routers-load_vhost rv) e) in
      let zero_here = get-load_vhost rv p us b.listed in
      (
        b.listed,
        b.matches,
        ground (arith, b.counted),
        b.longest q vs 0 m begins (get-load_vhost rv q vs m),
      )
