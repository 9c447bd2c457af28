-- ===== src/Waf/Dlp.antt =====
-- src/waf/dlp.rs: masking of e-mail addresses and card numbers. A compiled `Regex` is a parameter:
-- how it splits a text into matches and the gaps between them.
pub mod Laws
use oxidized_wall.Base.{
  ◌-◌, String, ◌≡◌, Option, none, some, List, [], ◌∷◌, ◌++◌, ◌==◌, ip_eq, nat_eq, list_eq, Str,
  codes, if◌then◌else◌,
}

pub data Piece : Type 0 where
  gap : Str → Piece
  hit : Str → Piece

-- The text of a piece, and of several.
abbrev pub piece_text : Piece → Str
piece_text (gap t) = t
piece_text (hit t) = t

abbrev pub pieces_text : List Piece → Str
pieces_text [] = []
pieces_text (p ∷ ps) = piece_text p ++ pieces_text ps

-- `find_iter`, with the gaps, and that the pieces make up the text.
pub record Regex : Type 0 where
  pub pieces : Str → List Piece
  pub pieces_lem : (s : Str) → pieces_text (pieces s) ≡ s

-- `Regex::replace_all` with a replacement for each match.
unfoldable pub replace_pieces : (Str → Str) → List Piece → Str
replace_pieces f [] = []
replace_pieces f (gap t ∷ ps) = t ++ replace_pieces f ps
replace_pieces f (hit t ∷ ps) = f t ++ replace_pieces f ps

unfoldable pub replace_all : Regex → Str → (Str → Str) → Str
unfolding replace_pieces
replace_all r s f = replace_pieces f (r.pieces s)

-- `find('@')` and the slice from there: the suffix that begins with the sign.
unfoldable pub from_at : Str → Option Str
from_at [] = none
from_at (c ∷ s) = if c == b'@' then some (c ∷ s) else from_at s

-- The closure for an e-mail address.
unfoldable pub mask_email : Str → Str
unfolding from_at
mask_email full = elim (from_at full) [ some rest ↦ codes "****" ++ rest | none ↦ full ]

abbrev pub email_pattern : String
email_pattern = "[a-zA-Z0-9._%+-]+@[a-zA-Z0-9.-]+\\.[a-zA-Z]{2,}"

abbrev pub card_pattern : String
card_pattern = "\\b(?:\\d[ -]*?){13,16}\\b"

-- `compile` is `Regex::new(_).expect(_)`.
unfoldable pub mask_sensitive_info : (String → Regex) → Str → Str
unfolding replace_all mask_email
mask_sensitive_info compile input =
    replace_all (compile card_pattern) (replace_all (compile email_pattern) input mask_email)
      (λ _. codes "****-****-****-****")
