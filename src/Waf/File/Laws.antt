-- ===== src/Waf/File/Laws.antt =====
-- Which bodies the file checks refuse, by tables of signatures.
use oxidized_wall.Base.{
  ◌<◌, ◌≡◌, ◌↔◌, ◌⊎◌, Bool, true, false, not, ◌||◌, List, [], ◌∷◌, arith, ◌==◌, ip_eq, nat_eq,
  list_eq, Str, Bytes, codes, if◌then◌else◌, ltb, ok, length, any, starts_with,
}
use oxidized_wall.Waf.File.{check_magic_number, is_allowed_file_type}

-- The signatures that may not be uploaded, and those that go with a Content-Type.
abbrev pub blocked : List Bytes
blocked = codes "MZ" ∷ (0x7f ∷ 0x45 ∷ 0x4c ∷ 0x46 ∷ []) ∷ codes "#!/" ∷ codes "<?php" ∷ []

abbrev pub required : List (Str × Bytes)
required =
    (codes "image/jpeg", 0xff ∷ 0xd8 ∷ 0xff ∷ [])
    ∷ (codes "image/png", 0x89 ∷ 0x50 ∷ 0x4e ∷ 0x47 ∷ [])
    ∷ (codes "image/gif", codes "GIF8")
    ∷ (codes "application/pdf", codes "%PDF")
    ∷ (codes "application/zip", b'P' ∷ b'K' ∷ 0x03 ∷ 0x04 ∷ [])
    ∷ []

-- A body passes exactly if it has less than four bytes or begins with none of the four signatures.
pub check_magic_number-ok_iff :
    (body : Bytes)
    → (check_magic_number body ≡ ok tt)
      ↔ ((length body < 4) ⊎ (any (starts_with body) blocked ≡ false))
unfolding check_magic_number
check_magic_number-ok_iff body = ground (arith)

-- Whether the type stands in the table and the body lacks its signature.
abbrev pub mismatch : List (Str × Bytes) → Str → Bytes → Bool
mismatch [] content_type body = false
mismatch ((t, signature) ∷ rows) content_type body =
    if content_type == t then not (starts_with body signature) else mismatch rows content_type body

-- The cascade of the source and the walk through the table, over the outcomes of their tests.
cascade :
    (short a b c d e p q r s t : Bool)
    → (if short
        then true
        else (if a
            then p
            else (if b then q else (if c then r else (if d then s else (if e then t else true))))))
      ≡ (short
          || not (
              if a
              then not p
              else (if b
                  then not q
                  else (if c then not r else (if d then not s else (if e then not t else false))))))
cascade short a b c d e p q r s t = ground arith

-- A body of four bytes or more is refused for its Content-Type exactly if the type is one of the
-- five of the table, letter for letter, and the body does not begin with the type's signature.
pub is_allowed_file_type-eq-not-mismatch :
    (content_type : Str) (body : Bytes)
    → is_allowed_file_type content_type body
      ≡ (ltb (length body) 4 || not (mismatch required content_type body))
unfolding is_allowed_file_type
is_allowed_file_type-eq-not-mismatch content_type body =
    let is = λ (t : Str). content_type == t in
    let begins = λ (b : Bytes). starts_with body b in
    cascade (ltb (length body) 4) (is (codes "image/jpeg")) (is (codes "image/png"))
      (is (codes "image/gif")) (is (codes "application/pdf")) (is (codes "application/zip"))
      (begins (0xff ∷ 0xd8 ∷ 0xff ∷ [])) (begins (0x89 ∷ 0x50 ∷ 0x4e ∷ 0x47 ∷ []))
      (begins (codes "GIF8")) (begins (codes "%PDF")) (begins (b'P' ∷ b'K' ∷ 0x03 ∷ 0x04 ∷ []))
