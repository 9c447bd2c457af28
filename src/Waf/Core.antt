-- ===== src/Waf/Core.antt =====
-- src/waf/core.rs: attack signatures. `regex::bytes::RegexSet::is_match` is a parameter: whether
-- any of the patterns matches anywhere in the bytes.
use oxidized_wall.Base.{String, Bool, List, [], ◌∷◌, ip_eq, nat_eq, list_eq, Bytes}

abbrev pub attack_patterns : List String
attack_patterns =
    "(?i)union\\s+select|select\\s+.*\\s+from|insert\\s+into|drop\\s+table|' OR '1'='1'|--"
    ∷ "(?i)<script.*?>|javascript:|onerror\\s*=|onload\\s*=|alert\\(|<iframe>"
    ∷ "(?i);\\s*(ls|rm|cat|id|whoami|pwd|wget|curl)|&&|\\|\\||\\||\\$\\(.*?\\)" ∷ []

unfoldable pub is_attack : (List String → Bytes → Bool) → Bytes → Bool
is_attack regex_set input = regex_set attack_patterns input
