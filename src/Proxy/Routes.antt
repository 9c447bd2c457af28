-- ===== src/Proxy/Routes.antt =====
-- The route of a request: the loop of `https_proxy` in src/proxy.rs over the sorted routes of a
-- host, and the sorting in src/config.rs.
pub mod Laws
use oxidized_wall.Base.{
  ℕ, Option, none, some, List, [], ◌∷◌, ip_eq, nat_eq, list_eq, Str, if◌then◌else◌, ltb,
  starts_with, utf8_len,
}
use oxidized_wall.Dict.{HashMap, get}

-- The first route that the path begins with and that has a counter.
unfoldable pub best_match :
    Str → List (Str × List Str) → HashMap Str ℕ → Option (Str × List Str × ℕ)
best_match path [] state = none
best_match path ((route_path, upstreams) ∷ routers) state =
    let rest = best_match path routers state in
    if starts_with path route_path
    then elim (get state route_path) [
      | some counter ↦ some (route_path, upstreams, counter)
      | none ↦ rest
    ]
    else rest

-- `sort_by(|a, b| b.0.len().cmp(&a.0.len()))`: stable, the longest path first.
unfoldable pub insert_route : Str × List Str → List (Str × List Str) → List (Str × List Str)
insert_route r [] = r ∷ []
insert_route r (s ∷ routers) =
    let rest = insert_route r routers in
    if ltb (utf8_len r.0) (utf8_len s.0) then s ∷ rest else r ∷ s ∷ routers

unfoldable pub sort_routes : List (Str × List Str) → List (Str × List Str)
unfolding insert_route
sort_routes [] = []
sort_routes (r ∷ routers) = insert_route r (sort_routes routers)
