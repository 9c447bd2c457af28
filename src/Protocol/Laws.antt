-- ===== src/Protocol/Laws.antt =====
-- Which requests pass the protocol checks.
use oxidized_wall.Base.{
  ◌≤◌, ◌≡◌, refl, ◌≢◌, ◌↔◌, ◌⊎◌, inl, inr, true, false, not, ◌&&◌, ◌||◌, Option, none, some, List,
  [], ◌∷◌, arith, ip_eq, nat_eq, list_eq, Str, codes, ltb, Bool-cases, is_some, is_empty, >>=-eq-ok,
  ok, length, All, is_control,
}
use oxidized_wall.Http.{Http, Method, target}
use oxidized_wall.Protocol.{
  scan_uri, validate_uri, validate_host, validate_smuggling, validate, is_connect,
}

scan_uri-ok_iff : (s : Str) → (scan_uri s ≡ ok tt) ↔ All (λ c. is_control c ≡ false) s
unfolding scan_uri
scan_uri-ok_iff [] = (λ _. tt, λ _. refl)
scan_uri-ok_iff (c ∷ s) = elim (Bool-cases (is_control c)) [
  | inl bad ↦ (λ e. absurd (ground arith), λ (h, hs). absurd (ground arith))
  | inr fine ↦ (
    λ e. (fine, (scan_uri-ok_iff s).0 (ground arith)),
    λ (h, hs). rw fine ((scan_uri-ok_iff s).1 hs),
  )
]

-- The tests on the Host headers, over any list of them.
host_rule {ℓ} :
    {A : Type ℓ} (hosts : List A) (host : Option Str)
    → (((is_empty hosts && not (is_some host)) || ltb 1 (length hosts)) ≡ false)
      ↔ ((length hosts ≤ 1) × ((length hosts ≡ 1) ⊎ (host ≢ none)))
host_rule [] none = ground arith
host_rule [] (some h) = (λ _. (omega arith, inr (λ e. cc)), λ _. refl)
host_rule (x ∷ []) host = ((λ _. (omega arith, inl refl)), λ _. refl)
host_rule (x ∷ y ∷ hosts) host = (λ e. absurd (ground arith), λ h. absurd (omega arith))

is_some_iff {ℓ} : {A : Type ℓ} (o : Option A) → (is_some o ≡ true) ↔ (o ≢ none)
is_some_iff none = (λ e. absurd (cc), λ h. absurd (h refl))
is_some_iff (some a) = (λ _ e. cc, λ _. refl)

module _ (H : Http) where
  -- At most one Host header, and one or an authority in the URI.
  abbrev pub HasOneHost : H.HeaderMap → H.Uri → Type 0
  HasOneHost headers uri =
      (length (H.get_all headers (codes "host")) ≤ 1)
      × ((length (H.get_all headers (codes "host")) ≡ 1) ⊎ (H.host uri ≢ none))

  abbrev pub IsSmuggling : H.HeaderMap → Type 0
  IsSmuggling headers =
      (H.get headers (codes "content-length") ≢ none)
      × (H.get headers (codes "transfer-encoding") ≢ none)

  validate_host-ok_iff :
      (headers : H.HeaderMap) (method : Method) (uri : H.Uri)
      → (validate_host H headers method uri ≡ ok tt)
        ↔ ((is_connect method ≡ true) ⊎ HasOneHost headers uri)
  unfolding validate_host
  validate_host-ok_iff headers method uri =
      ground (arith, host_rule (H.get_all headers (codes "host")) (H.host uri))

  validate_smuggling-ok_iff :
      (headers : H.HeaderMap) → (validate_smuggling H headers ≡ ok tt) ↔ (¬ IsSmuggling headers)
  unfolding validate_smuggling
  validate_smuggling-ok_iff headers = ground (
    arith,
    is_some_iff (H.get headers (codes "content-length")),
    is_some_iff (H.get headers (codes "transfer-encoding")),
  )

  -- A request passes the checks exactly if its path and query hold no control character, it is a
  -- CONNECT or has at most one Host header and names a host in that or in its URI, and it does not
  -- have both a Content-Length and a Transfer-Encoding.
  pub validate-ok_iff :
      (headers : H.HeaderMap) (method : Method) (uri : H.Uri)
      → (validate H headers method uri ≡ ok tt) ↔ (
          All (λ c. is_control c ≡ false) (target H uri)
          × ((is_connect method ≡ true) ⊎ HasOneHost headers uri)
          × (¬ IsSmuggling headers))
  unfolding validate
  validate-ok_iff headers method uri =
      let u = scan_uri-ok_iff (target H uri) in
      let h = validate_host-ok_iff headers method uri in
      let t = validate_smuggling-ok_iff headers in
      (
        λ e.
            let (_, e1, e2) = >>=-eq-ok (validate_uri H uri) _ e in
            let (_, e3, e4) = >>=-eq-ok (validate_host H headers method uri) _ e2 in
            ((u.0 e1), h.0 e3, t.0 e4),
        λ (a, b, c). rw (validate, u.1 a, h.1 b) (t.1 c),
      )
