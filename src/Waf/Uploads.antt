-- ===== src/Waf/Uploads.antt =====
-- Which files pass the inspection of a body.
use oxidized_wall.Base.{
  ◌<◌, ℕ, refl, ◌≤◌, ◌≡◌, inl, inr, Bool, true, false, not, Option, none, some, arith, ip_eq,
  nat_eq, list_eq, Str, Bytes, codes, ok, err, Result, String, length, any, starts_with, ◌>>◌,
}
use oxidized_wall.Http.{Http, header_text}
use oxidized_wall.Waf.{Engines, body, is_some_and, forbid}
use oxidized_wall.Waf.File.{check_magic_number, is_allowed_file_type}
use oxidized_wall.Waf.File.Laws.{
  blocked, required, mismatch, check_magic_number-ok_iff, is_allowed_file_type-eq-not-mismatch,
}

-- A Content-Type of the table whose signature the body lacks.
abbrev pub is_disguised : Option Str → Bytes → Bool
is_disguised none bytes = false
is_disguised (some content_type) bytes = mismatch required content_type bytes

>>-eq-ok :
    (first next : Result String (Unit {0}))
    → (first >> next) ≡ ok tt
    → (first ≡ ok tt) × (next ≡ ok tt)
>>-eq-ok (err e) next succeeds = absurd (cc)
>>-eq-ok (ok _) next succeeds = (refl, succeeds)

forbid_passed : (test : Bool) (reason : String) → forbid test reason ≡ ok tt → test ≡ false
forbid_passed true reason passes = absurd (cc)
forbid_passed false reason passes = refl

too_short : {n : ℕ} → 4 ≤ n → n < 4 → ⊥
too_short long short = omega arith

typed :
    (content_type : Option Str) (bytes : Bytes)
    → 4 ≤ length bytes
    → is_some_and content_type (λ ct. not (is_allowed_file_type ct bytes)) ≡ false
    → is_disguised content_type bytes ≡ false
typed none bytes long fine = refl
typed (some ct) bytes long fine = ground (arith, is_allowed_file_type-eq-not-mismatch ct bytes)

module _ (H : Http) (E : Engines) where
  -- A body of four bytes or more that passes the inspection begins with none of the signatures of
  -- executables and scripts, and, if its Content-Type is one of the five with a signature of their
  -- own, with that signature.
  pub body_signatures :
      (headers : H.HeaderMap) (bytes : Bytes)
      → body H E headers bytes ≡ ok tt
      → 4 ≤ length bytes
      → (any (starts_with bytes) blocked ≡ false)
        × (is_disguised (header_text H headers (codes "content-type")) bytes ≡ false)
  unfolding body
  body_signatures headers bytes passes long =
      let (unblocked, rest) = >>-eq-ok (check_magic_number bytes) _ passes in
      let (allowed, more) = >>-eq-ok (forbid _ _) _ rest in
      (
        elim ((check_magic_number-ok_iff bytes).0 unblocked) [
          | inl short ↦ absurd (too_short long short)
          | inr clean ↦ clean
        ],
        typed (header_text H headers (codes "content-type")) bytes long (forbid_passed _ _ allowed),
      )
