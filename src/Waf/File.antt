-- ===== src/Waf/File.antt =====
-- src/waf/file.rs: file signatures.
pub mod Laws
use oxidized_wall.Base.{
  String, Bool, true, ◌||◌, [], ◌∷◌, ◌==◌, ip_eq, nat_eq, list_eq, Str, Bytes, codes, if◌then◌else◌,
  ltb, Result, ok, err, length, starts_with,
}

-- The four bytes of an ELF file.
abbrev pub elf : Bytes
elf = 0x7f ∷ 0x45 ∷ 0x4c ∷ 0x46 ∷ []

unfoldable pub check_magic_number : Bytes → Result String (Unit {0})
check_magic_number body =
    if ltb (length body) 4
    then ok tt
    else if starts_with body (codes "MZ")
    then err "Executable file upload blocked (.exe/.dll)"
    else if starts_with body elf
    then err "ELF executable upload blocked"
    else if starts_with body (codes "#!/") || starts_with body (codes "<?php")
    then err "Script file upload blocked"
    else ok tt

unfoldable pub is_allowed_file_type : Str → Bytes → Bool
is_allowed_file_type content_type body =
    if ltb (length body) 4
    then true
    else if content_type == codes "image/jpeg"
    then starts_with body (0xff ∷ 0xd8 ∷ 0xff ∷ [])
    else if content_type == codes "image/png"
    then starts_with body (0x89 ∷ 0x50 ∷ 0x4e ∷ 0x47 ∷ [])
    else if content_type == codes "image/gif"
    then starts_with body (codes "GIF8")
    else if content_type == codes "application/pdf"
    then starts_with body (codes "%PDF")
    else if content_type == codes "application/zip"
    then starts_with body (b'P' ∷ b'K' ∷ 0x03 ∷ 0x04 ∷ [])
    else true
