-- ===== src/Proxy/Sanitize.antt =====
-- Every header of a sanitized response.
use oxidized_wall.Base.{
  ◌≡◌, refl, ap, ◌∙◌, Bool, ◌||◌, Option, none, some, List, [], ◌∷◌, arith, ◌==◌, ip_eq, nat_eq,
  list_eq, Str, if◌then◌else◌, opt_map, unwrap_or, or_else, any, to_ascii_lowercase,
}
use oxidized_wall.Http.{Http}
use oxidized_wall.Proxy.{
  removed_headers, security_headers, remove_all, insert_all, sanitize_response_headers,
}

-- Header names are compared without regard to ASCII case.
abbrev pub same_name : Str → Str → Bool
same_name j n = to_ascii_lowercase n == to_ascii_lowercase j

-- The value that the last row with the name gives.
abbrev pub last_row : Str → List (Str × Str) → Option Str
last_row j [] = none
last_row j ((n, v) ∷ rows) = or_else (last_row j rows) (if same_name j n then some v else none)

module _ (H : Http) where
  get_all-remove_all :
      (names : List Str) (m : H.HeaderMap) (j : Str)
      → H.get_all (remove_all H names m) j ≡ (if any (same_name j) names then [] else H.get_all m j)
  unfolding remove_all
  get_all-remove_all [] m j = refl
  get_all-remove_all (n ∷ names) m j =
      get_all-remove_all names (H.remove m n) j
      ∙ lem (any (same_name j) names) (same_name j n) (H.get_all-remove m n j)
    where
      lem :
          (a b : Bool)
          → H.get_all (H.remove m n) j ≡ (if b then [] else H.get_all m j)
          → (if a then [] else H.get_all (H.remove m n) j) ≡ (if b || a then [] else H.get_all m j)
      lem a b e = ground arith

  get_all-insert_all :
      (rows : List (Str × Str)) (m : H.HeaderMap) (j : Str)
      → H.get_all (insert_all H rows m) j
        ≡ unwrap_or (opt_map (λ v. H.from_static v ∷ []) (last_row j rows)) (H.get_all m j)
  unfolding insert_all
  get_all-insert_all [] m j = refl
  get_all-insert_all ((n, v) ∷ rows) m j =
      get_all-insert_all rows (H.insert m n (H.from_static v)) j
      ∙ lem (last_row j rows) (same_name j n) (H.get_all-insert m n (H.from_static v) j)
    where
      lem :
          (o : Option Str) (b : Bool)
          → H.get_all (H.insert m n (H.from_static v)) j
            ≡ (if b then H.from_static v ∷ [] else H.get_all m j)
          → unwrap_or
              (opt_map (λ x. H.from_static x ∷ []) o)
              (H.get_all (H.insert m n (H.from_static v)) j)
            ≡ unwrap_or
                (opt_map (λ x. H.from_static x ∷ []) (or_else o (if b then some v else none)))
                (H.get_all m j)
      lem o b e = ground arith

  -- After sanitizing, each security header has its one value, whatever the backend sent for it, each
  -- of the headers to strip is gone, and every other header is as it was.
  pub get_all-sanitize_response_headers :
      (m : H.HeaderMap) (j : Str)
      → H.get_all (sanitize_response_headers H m) j
        ≡ unwrap_or
            (opt_map (λ v. H.from_static v ∷ []) (last_row j (security_headers H)))
            (if any (same_name j) (removed_headers H) then [] else H.get_all m j)
  unfolding sanitize_response_headers
  get_all-sanitize_response_headers m j =
      get_all-insert_all (security_headers H) (remove_all H (removed_headers H) m) j
      ∙ ap (unwrap_or (opt_map (λ v. H.from_static v ∷ []) (last_row j (security_headers H))))
          (get_all-remove_all (removed_headers H) m j)
