-- ===== src/Tests/Waf.antt =====
-- The checks on requests and responses at concrete messages.
use oxidized_wall.Base.{any, starts_with, Bytes, ok}
use oxidized_wall.Http.{header_text}
use oxidized_wall.Waf.File.Laws.{blocked}
use oxidized_wall.Waf.Uploads.{is_disguised, body_signatures}
use oxidized_wall.Base.{
  ◌≡◌, refl, ◌↔◌, ◌⊎◌, true, false, none, some, List, [], ◌∷◌, ◌++◌, map, arith, ip_eq, nat_eq,
  list_eq, Str, codes, leb, ok, err, ◌>>◌, All, is_control, from_utf8_lossy,
}
use mathlib.Core.List.{Memᴰ}
use oxidized_wall.Http.{Method, target}
use oxidized_wall.Protocol.{validate, is_connect}
use oxidized_wall.Protocol.Laws.{HasOneHost, IsSmuggling, validate-ok_iff}
use oxidized_wall.Waf
use oxidized_wall.Waf.{apply_dlp}
use oxidized_wall.Waf.Laws.{header_traversal, apply_dlp_private}
use oxidized_wall.Waf.Dlp.Laws.{Alike}
use oxidized_wall.Waf.File.{check_magic_number}
use oxidized_wall.Waf.Path.{normalize_url}
use oxidized_wall.Waf.Path.Decode.{Spelling, encode_some, normalize_url-encode_some}
use oxidized_wall.Waf.Structure.{check_json_depth, has_parameter_pollution}
use oxidized_wall.Waf.Structure.Depth.{Nest, print, depth, check_json_depth-print}
use oxidized_wall.Waf.Structure.Pollution.{
  print_query, repeated, nonempty, has_parameter_pollution-print_query,
}
use oxidized_wall.Tests.Instances.{http, engines, bodies, SimpleUri, whole_text}

-- A request for the path, with a host.
abbrev uri : Str → SimpleUri
uri path = record { authority = none; path_text = path; query_text = none }

abbrev headers : List (Str × Str)
headers = (codes "Host", codes "a.example") ∷ (codes "User-Agent", codes "curl") ∷ []

validate-ok_iff_example : (validate http headers Method.get (uri (codes "/index")) ≡ ok tt) ↔ (
    All (λ c. is_control c ≡ false) (target http (uri (codes "/index")))
    × ((is_connect Method.get ≡ true) ⊎ HasOneHost http headers (uri (codes "/index")))
    × (¬ IsSmuggling http headers))
validate-ok_iff_example = validate-ok_iff http headers Method.get (uri (codes "/index"))

-- `../`, encoded with a digit in each case.
abbrev dots : List Spelling
dots = (some (false, true), b'.') ∷ (some (false, false), b'.') ∷ (some (true, true), b'/') ∷ []

decodes : normalize_url (codes "/a/%2e%2E/b%zz%") ≡ codes "/a/../b%zz%"
unfolding normalize_url
decodes = refl

normalize_url-encode_some_example :
    normalize_url (encode_some dots ++ codes "etc")
    ≡ map (λ c. c.1) dots ++ normalize_url (codes "etc")
normalize_url-encode_some_example =
    normalize_url-encode_some dots (codes "etc") (omega arith, (omega arith, (omega arith, tt)))

header_traversal_example :
    Waf.header http engines (uri (codes "/a/%2E%2e%2Fb")) Method.get headers
    ≡ err "Directory Traversal detected"
header_traversal_example =
    header_traversal http engines (uri (codes "/a/%2E%2e%2Fb")) Method.get headers (codes "/a/")
      (codes "b") (codes "../") dots refl (refl, (refl, (refl, tt)))
      (omega arith, (omega arith, (omega arith, tt))) ((Memᴰ.head refl)) refl

abbrev text_headers : List (Str × Str)
text_headers = (codes "Content-Type", codes "text/plain") ∷ []

is_text_response : Waf.is_text http engines text_headers ≡ true
unfolding Waf.is_text
is_text_response = refl

alike : Alike (whole_text.pieces (codes "ann@b.cd")) (whole_text.pieces (codes "bob@b.cd"))
alike =
    Alike.same_domain (codes "ann") (codes "bob") (codes "b.cd") (refl, (refl, (refl, tt)))
      (refl, (refl, (refl, tt))) Alike.done

apply_dlp_private_example :
    apply_dlp http engines bodies text_headers (some (codes "ann@b.cd"))
    ≡ apply_dlp http engines bodies text_headers (some (codes "bob@b.cd"))
unfolding from_utf8_lossy
apply_dlp_private_example =
    apply_dlp_private http engines bodies text_headers (some (codes "ann@b.cd"))
      (some (codes "bob@b.cd")) (codes "ann@b.cd") (codes "bob@b.cd") is_text_response refl refl
      alike

-- `{a[]}`
abbrev document : Nest
document = Nest.braces (Nest.char b'a' (Nest.brackets Nest.done Nest.done)) Nest.done

check_json_depth-print_example : check_json_depth (print document) 1 ≡ leb (depth document) 1
check_json_depth-print_example = check_json_depth-print document 1 ((refl, refl, (tt, tt)), tt)

has_parameter_pollution-print_query_example :
    has_parameter_pollution (print_query (codes "a", codes "1") ((codes "a", codes "2") ∷ []))
    ≡ repeated (nonempty (codes "a" ∷ map (λ (q : Str × Str). q.0) ((codes "a", codes "2") ∷ [])))
has_parameter_pollution-print_query_example =
    has_parameter_pollution-print_query (codes "a", codes "1") ((codes "a", codes "2") ∷ [])
      ((refl, tt), (refl, tt), (refl, tt)) (((refl, tt), (refl, tt), (refl, tt)), tt)

-- A picture of five bytes.
abbrev picture : Bytes
picture = codes "GIF8a"

abbrev gif_headers : List (Str × Str)
gif_headers = (codes "Content-Type", codes "image/gif") ∷ []

picture_passes : Waf.body http engines gif_headers picture ≡ ok tt
unfolding Waf.body oxidized_wall.Waf.File.check_magic_number
    oxidized_wall.Waf.File.is_allowed_file_type check_json_depth from_utf8_lossy
    oxidized_wall.Waf.Structure.is_high_density oxidized_wall.Base.utf8_len has_parameter_pollution
    oxidized_wall.Waf.Core.is_attack
picture_passes = refl

body_signatures_example :
    (any (starts_with picture) blocked ≡ false)
    × (is_disguised (header_text http gif_headers (codes "content-type")) picture ≡ false)
body_signatures_example =
    body_signatures http engines gif_headers picture picture_passes (omega arith)
