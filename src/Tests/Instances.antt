-- ===== src/Tests/Instances.antt =====
-- Concrete instances of what the program takes from its libraries.
use mathlib.Core.List.{append-nil}
use oxidized_wall.Http.{Http}
use oxidized_wall.Waf.Dlp.{gap, hit, Regex}
use oxidized_wall.Waf.Path.{Matcher}
use oxidized_wall.Waf.{Bodies, Engines}
use oxidized_wall.Bandwidth.Float.{Float64}
use oxidized_wall.Bandwidth.Body.{ready, Inner}
use oxidized_wall.Waf.Structure.{Unicode, Float32}
use oxidized_wall.Config.{Config}
use oxidized_wall.Base.{
  v4, ℕ, ◌+◌, ◌-◌, ◌*◌, ◌/◌, String, ◌≡◌, refl, inl, inr, Bool, ◌&&◌, ◌||◌, Option, none, some,
  List, [], ◌∷◌, ◌++◌, arith, ◌==◌, ==_iff, ip_eq, nat_eq, list_eq, IpAddr, Str, Bytes, codes,
  if◌then◌else◌, ltb, leb, Bool-cases, opt_map, unwrap_or, head, ok, lower_char, length, any,
  starts_with, contains, to_ascii_lowercase,
}

-- Header maps as lists of names and values.
abbrev pub same : Str → Str → Bool
same a b = to_ascii_lowercase a == to_ascii_lowercase b

abbrev pub all_of : List (Str × Str) → Str → List Str
all_of [] k = []
all_of ((n, v) ∷ m) k = if same n k then v ∷ all_of m k else all_of m k

abbrev pub without : List (Str × Str) → Str → List (Str × Str)
without [] k = []
without ((n, v) ∷ m) k = if same n k then without m k else (n, v) ∷ without m k

pub all_of-without :
    (m : List (Str × Str)) (k j : Str)
    → all_of (without m k) j ≡ (if same k j then [] else all_of m j)
all_of-without [] k j = ground arith
all_of-without ((n, v) ∷ m) k j = ground (
  arith,
  all_of-without m k j,
  ==_iff (to_ascii_lowercase n) (to_ascii_lowercase k),
  ==_iff (to_ascii_lowercase n) (to_ascii_lowercase j),
  ==_iff (to_ascii_lowercase k) (to_ascii_lowercase j),
)

-- A URI by its host, its path and its query.
pub record SimpleUri : Type 0 where
  pub authority : Option Str
  pub path_text : Str
  pub query_text : Option Str

abbrev pub http : Http
http = record {
  Uri = SimpleUri;
  path = λ u. u.path_text;
  query = λ u. u.query_text;
  path_and_query = λ u. some (u.path_text ++ unwrap_or (opt_map (λ q. b'?' ∷ q) u.query_text) []);
  host = λ u. u.authority;
  parse_uri = λ s. some (record { authority = none; path_text = s; query_text = none });
  HeaderValue = Str;
  to_str = λ v. some v;
  from_static = λ v. v;
  try_from = λ v. some v;
  HeaderMap = List (Str × Str);
  empty = [];
  get = λ m k. head (all_of m k);
  get_all = all_of;
  len = length;
  insert = λ m k v. (k, v) ∷ without m k;
  remove = without;
  get-eq-head = λ m k. refl;
  get_all-empty = λ k. refl;
  get_all-insert = λ m k v j. ground (arith, all_of-without m k j);
  get_all-remove = all_of-without;
}

-- Exact arithmetic on whole numbers.
abbrev pub whole : Float64
whole = record {
  F = ℕ;
  of_u64 = λ n. n;
  as_secs = λ d. d / 1_000_000_000;
  add = λ a b. a + b;
  sub = λ a b. a - b;
  mul = λ a b. a * b;
  gt = λ a b. ltb b a;
  ge = λ a b. leb b a;
  gt-eq-not_ge = λ a b. ground arith;
  ge_refl = λ a. ground arith;
  ge_total = λ a b h. ground arith;
  ge_trans = λ a b c h k. ground arith;
  of_u64_nonneg = λ n. ground arith;
  as_secs_nonneg = λ d. ground arith;
  zero-add = λ a h. omega arith;
  add_nonneg = λ a b h k. ground arith;
  mul_nonneg = λ a b h k. ground arith;
  sub_nonneg = λ a b h. ground arith;
  sub-le = λ a b h. ground arith;
}

-- Fractions by numerator and denominator.
abbrev pub fraction : Float32
fraction = record {
  F = ℕ × ℕ;
  of_usize = λ n. (n, 1);
  div = λ a b. (a.0 * b.1, a.1 * b.0);
  gt = λ a b. ltb (b.0 * a.1) (a.0 * b.1);
  four_tenths = (4, 10);
}

abbrev pub unicode : Unicode
unicode = record {
  to_lowercase = to_ascii_lowercase;
  is_alphanumeric =
      λ c. (leb b'0' c && leb c b'9') || (leb b'a' (lower_char c) && leb (lower_char c) b'z');
  is_whitespace = λ c. c == 32;
  to_lowercase_ascii = λ s h. refl;
}

abbrev pub matcher : Matcher
matcher = record {
  is_match =
      λ patterns s. any (λ p. contains (to_ascii_lowercase s) (to_ascii_lowercase p)) patterns;
  is_match_lem = λ patterns s. refl;
}

-- A pattern that takes a text with an at sign as one match.
abbrev pub whole_text : Regex
whole_text = record {
  pieces = λ s. if contains s (codes "@") then hit s ∷ [] else gap s ∷ [];
  pieces_lem = λ s. elim (Bool-cases (contains s (codes "@"))) [
    | inl yes_sign ↦ rw yes_sign (append-nil s)
    | inr no_sign ↦ rw no_sign (append-nil s)
  ];
}

-- One that matches nothing.
abbrev pub no_match : Regex
no_match = record { pieces = λ s. gap s ∷ []; pieces_lem = λ s. append-nil s }

abbrev pub engines : Engines
engines = record {
  regex_set = λ _ bytes. contains (to_ascii_lowercase bytes) (codes "<script");
  matcher = matcher;
  compile = λ pattern. if is_email pattern then whole_text else no_match;
  unicode = unicode;
  float = fraction;
}
  where
    is_email : String → Bool
    is_email p = starts_with (codes p) (codes "[a-z")

-- A body that fails to be collected, or gives its bytes.
abbrev pub bodies : Bodies
bodies = record { Body = Option Bytes; collect = λ b. b; full = some; empty = some [] }

-- A stream of frames, all of them data.
abbrev pub frames : Inner
frames = record {
  Frame = Bytes;
  Error = String;
  data_ref = λ f. some f;
  B = List Bytes;
  poll_frame = λ b. elim b [ [] ↦ ([], ready none) | f ∷ rest ↦ (rest, ready (some (ok f))) ];
}

abbrev pub client : IpAddr
client = v4 0x0a00_0001

abbrev pub other_client : IpAddr
other_client = v4 0x0a00_0002

-- The configuration of the tests, at a limit of requests a second and with seconds of ban for
-- attacks.
abbrev pub config : ℕ → ℕ → Config
config max_rps ban_waf = record {
  network = record {
    http_addrs = codes ":80" ∷ [];
    https_addrs = codes ":443" ∷ [];
    max_connections = 100;
  };
  timeout = record {
    c_tls_handshake = 5;
    c_header_read = 5;
    c_keep_alive_idle = 60;
    c_keep_alive_timeout = 20;
    c_body_timeout = 30;
    s_connect = 5;
    s_response = 30;
    s_websocket_idle = 60;
  };
  limit = record {
    max_uri_size = 100;
    max_header_size = 8192;
    max_header_count = 10;
    max_body_size = 1000;
    c_h2_max_streams = 10;
    max_rps = max_rps;
    max_bandwidth = 10;
  };
  ban = record { ban_timeout = 0; ban_protocol = 0; ban_waf = ban_waf; ban_rate_limit = 0 };
  vhosts =
      (
        codes "a.example",
        record {
          cert_path = [];
          key_path = [];
          routers =
              (codes "/", codes "10.0.0.1:80" ∷ [])
              ∷ (codes "/api", codes "10.0.0.2:80" ∷ codes "10.0.0.1:80" ∷ [])
              ∷ [];
          routers_state = (codes "/", 0) ∷ (codes "/api", 0) ∷ [];
        },
      )
      ∷ [];
}
