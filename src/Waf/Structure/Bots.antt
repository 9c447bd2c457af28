-- ===== src/Waf/Structure/Bots.antt =====
-- Tools by their name in the User-Agent.
use oxidized_wall.Base.{
  ◌<◌, ◌≡◌, true, ◌++◌, ip_eq, nat_eq, list_eq, Str, All, contains, to_ascii_lowercase,
}
use oxidized_wall.Waf.Structure.{Unicode, bot_signatures, is_malicious_bot}
use oxidized_wall.Waf.Text.{contains-infix, lower-append, any_of_Memᴰ}
use mathlib.Core.List.{Memᴰ}

-- An ASCII User-Agent that holds the name of a listed tool anywhere, in any mixture of cases, is
-- taken for a bot.
pub is_malicious_bot-infix :
    (u : Unicode) (before name after signature : Str)
    → All (λ c. c < 128) (before ++ (name ++ after))
    → Memᴰ signature bot_signatures
    → to_ascii_lowercase name ≡ signature
    → is_malicious_bot u (before ++ (name ++ after)) ≡ true
unfolding is_malicious_bot
is_malicious_bot-infix u before name after signature ascii listed same =
    any_of_Memᴰ (contains (u.to_lowercase (before ++ (name ++ after)))) listed (
      rw (u.to_lowercase_ascii _ ascii, lower-append, lower-append, same)
        (contains-infix (to_ascii_lowercase before) signature (to_ascii_lowercase after)))
