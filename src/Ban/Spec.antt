-- ===== src/Ban/Spec.antt =====
-- What a ban list means: the instants at which an address is banned.
use oxidized_wall.Base.{Bool, false, Option, none, some, IpAddr, ip_eq, Instant, leb}
use oxidized_wall.Dict.{get}
use oxidized_wall.Ban.{BanManager, BanEntry}

abbrev pub entry_active : Instant → Option BanEntry → Bool
entry_active t none = false
entry_active t (some entry) = leb t entry.expire_at

-- An address is banned up to and at the expiry of its entry.
abbrev pub is_banned : Instant → IpAddr → BanManager → Bool
is_banned t ip m = entry_active t (get m.banned_ips ip)
