-- ===== src/Waf/Dlp/Laws.antt =====
-- What masking takes out of a text, and what it keeps.
use oxidized_wall.Base.{
  String, ◌≡◌, refl, ap, ◌∙◌, some, List, [], ◌∷◌, ◌++◌, ip_eq, nat_eq, list_eq, Str, codes,
}
use oxidized_wall.Waf.Dlp.{
  Piece, gap, hit, pieces_text, Regex, replace_pieces, replace_all, from_at, mask_email,
  email_pattern, card_pattern, mask_sensitive_info,
}
use oxidized_wall.Waf.Structure.Pollution.{Lacks}

-- The matches replaced by what stands for them, the gaps as they are.
abbrev pub substituted : (Str → Str) → List Piece → List Piece
substituted f [] = []
substituted f (gap t ∷ ps) = gap t ∷ substituted f ps
substituted f (hit t ∷ ps) = hit (f t) ∷ substituted f ps

replace_pieces-eq-text :
    (f : Str → Str) (ps : List Piece) → replace_pieces f ps ≡ pieces_text (substituted f ps)
unfolding replace_pieces
replace_pieces-eq-text f [] = refl
replace_pieces-eq-text f (gap t ∷ ps) = ap (◌++◌ t) (replace_pieces-eq-text f ps)
replace_pieces-eq-text f (hit t ∷ ps) = ap (◌++◌ (f t)) (replace_pieces-eq-text f ps)

-- No piece is a match.
abbrev pub HasNoHit : List Piece → Type 0
HasNoHit [] = Unit
HasNoHit (gap t ∷ ps) = HasNoHit ps
HasNoHit (hit t ∷ ps) = ⊥

replace_pieces_of_HasNoHit :
    (f : Str → Str) (ps : List Piece) → HasNoHit ps → replace_pieces f ps ≡ pieces_text ps
unfolding replace_pieces
replace_pieces_of_HasNoHit f [] h = refl
replace_pieces_of_HasNoHit f (gap t ∷ ps) h = ap (◌++◌ t) (replace_pieces_of_HasNoHit f ps h)
replace_pieces_of_HasNoHit f (hit t ∷ ps) h = absurd h

-- A text in which neither pattern matches is left as it is.
pub mask_sensitive_info_clean :
    (compile : String → Regex) (s : Str)
    → HasNoHit ((compile email_pattern).pieces s)
    → HasNoHit ((compile card_pattern).pieces s)
    → mask_sensitive_info compile s ≡ s
unfolding mask_sensitive_info
mask_sensitive_info_clean compile s h k =
    let emails = compile email_pattern in
    let cards = compile card_pattern in
    let first : replace_all emails s mask_email ≡ s =
      replace_pieces_of_HasNoHit mask_email (emails.pieces s) h ∙ emails.pieces_lem s in
    rw first (
      replace_pieces_of_HasNoHit (λ _. codes "****-****-****-****") (cards.pieces s) k
      ∙ cards.pieces_lem s)

from_at-append :
    (user domain : Str) → Lacks b'@' user → from_at (user ++ b'@' ∷ domain) ≡ some (b'@' ∷ domain)
unfolding from_at
from_at-append [] domain h = refl
from_at-append (c ∷ user) domain (h, hs) = rw h (from_at-append user domain hs)

-- Of an address the mask keeps the part from the first at sign on, and nothing of what is before.
mask_email-append :
    (user domain : Str)
    → Lacks b'@' user
    → mask_email (user ++ b'@' ∷ domain) ≡ codes "****@" ++ domain
unfolding mask_email
mask_email-append user domain h = rw (from_at-append user domain h, mask_email) refl

-- The same pieces, but for the parts of the matches before the at sign.
pub data Alike : List Piece → List Piece → Type 0 where
  done : Alike [] []
  same_gap : {ps qs : List Piece} (t : Str) → Alike ps qs → Alike (gap t ∷ ps) (gap t ∷ qs)
  same_domain :
      {ps qs : List Piece} (user other domain : Str)
      → Lacks b'@' user
      → Lacks b'@' other
      → Alike ps qs
      → Alike (hit (user ++ b'@' ∷ domain) ∷ ps) (hit (other ++ b'@' ∷ domain) ∷ qs)

replace_pieces-Alike :
    {ps qs : List Piece} → Alike ps qs → replace_pieces mask_email ps ≡ replace_pieces mask_email qs
unfolding replace_pieces
replace_pieces-Alike done = refl
replace_pieces-Alike (same_gap t a) = ap (◌++◌ t) (replace_pieces-Alike a)
replace_pieces-Alike (same_domain user other domain h k a) =
    rw (mask_email-append user domain h, mask_email-append other domain k)
      (ap (◌++◌ (codes "****@" ++ domain)) (replace_pieces-Alike a))

-- Two texts that differ only in the user names of the e-mail addresses in them are masked alike, so
-- the result tells nothing of those names.
pub mask_sensitive_info-Alike :
    (compile : String → Regex) (s t : Str)
    → Alike ((compile email_pattern).pieces s) ((compile email_pattern).pieces t)
    → mask_sensitive_info compile s ≡ mask_sensitive_info compile t
unfolding mask_sensitive_info
mask_sensitive_info-Alike compile s t a =
    ap (λ x. replace_all (compile card_pattern) x (λ _. codes "****-****-****-****"))
      (replace_pieces-Alike a)
