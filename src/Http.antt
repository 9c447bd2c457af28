-- ===== src/Http.antt =====
-- The types of hyper and http that the program reads and writes, as an interface: a URI by its
-- parts, and a header map whose names compare without regard to ASCII case.
mod Message
use oxidized_wall.Base.{
  ℕ, ◌≡◌, Bool, Option, List, [], ◌∷◌, ◌==◌, ip_eq, nat_eq, list_eq, Str, codes, if◌then◌else◌,
  and_then, unwrap_or, is_some, head, to_ascii_lowercase,
}
pub use Message.{Method}

pub record Http : Type 1 where
  pub Uri : Type 0
  pub path : Uri → Str
  pub query : Uri → Option Str
  pub path_and_query : Uri → Option Str
  pub host : Uri → Option Str
  pub parse_uri : Str → Option Uri
  pub HeaderValue : Type 0
  -- `HeaderValue::to_str`, `from_static`, and the conversion from a text, which may fail.
  pub to_str : HeaderValue → Option Str
  pub from_static : Str → HeaderValue
  pub try_from : Str → Option HeaderValue
  pub HeaderMap : Type 0
  pub empty : HeaderMap
  pub get : HeaderMap → Str → Option HeaderValue
  pub get_all : HeaderMap → Str → List HeaderValue
  pub len : HeaderMap → ℕ
  pub insert : HeaderMap → Str → HeaderValue → HeaderMap
  pub remove : HeaderMap → Str → HeaderMap
  pub get-eq-head : (m : HeaderMap) (k : Str) → get m k ≡ head (get_all m k)
  pub get_all-empty : (k : Str) → get_all empty k ≡ []
  pub get_all-insert :
      (m : HeaderMap) (k : Str) (v : HeaderValue) (j : Str)
      → get_all (insert m k v) j
        ≡ (if to_ascii_lowercase k == to_ascii_lowercase j then v ∷ [] else get_all m j)
  pub get_all-remove :
      (m : HeaderMap) (k j : Str)
      → get_all (remove m k) j
        ≡ (if to_ascii_lowercase k == to_ascii_lowercase j then [] else get_all m j)

-- `HeaderMap::contains_key`.
abbrev pub contains_key : (H : Http) → H.HeaderMap → Str → Bool
contains_key H m k = is_some (H.get m k)

-- A header that is read as text: `headers.get(k).and_then(|v| v.to_str().ok())`.
abbrev pub header_text : (H : Http) → H.HeaderMap → Str → Option Str
header_text H m k = and_then (H.get m k) H.to_str

-- `uri.path_and_query().map(|pq| pq.as_str()).unwrap_or("/")`.
abbrev pub target : (H : Http) → H.Uri → Str
target H uri = unwrap_or (H.path_and_query uri) (codes "/")
