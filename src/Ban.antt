-- ===== src/Ban.antt =====
-- src/ban.rs: temporary bans of client addresses. `Instant::now()` is the argument `now`. A method
-- that may panic returns `none` then.
pub mod Spec
pub mod Laws
pub mod Races
pub mod History
use oxidized_wall.Base.{
  ℕ, Bool, true, false, Option, none, some, [], IpAddr, ip_eq, Instant, Duration, from_secs,
  add_duration, opt_map, ltb, leb, if◌then◌else◌,
}
use oxidized_wall.Dict.{HashMap, get, insert, remove, retain}
use oxidized_wall.Config.{Config}

pub data Violation : Type 0 where
  timeout protocol waf rate_limit : Violation

pub record BanEntry : Type 0 where
  pub expire_at : Instant

pub record BanManager : Type 0 where
  pub banned_ips : HashMap IpAddr BanEntry

unfoldable pub new : BanManager
new = record { banned_ips = [] }

-- One round of the cleanup task.
unfoldable pub cleanup : Instant → BanManager → BanManager
cleanup now m = record { banned_ips = retain (λ _ entry. ltb now entry.expire_at) m.banned_ips }

unfoldable pub ban : Instant → IpAddr → Duration → BanManager → Option BanManager
ban now ip duration m =
    opt_map
      (λ expire_at. record {
        banned_ips = insert m.banned_ips ip (record { expire_at = expire_at });
      })
      (add_duration now duration)

-- The duration of the ban for a violation, in seconds.
unfoldable pub duration_sec : Violation → Config → ℕ
duration_sec timeout config = config.ban.ban_timeout
duration_sec protocol config = config.ban.ban_protocol
duration_sec waf config = config.ban.ban_waf
duration_sec rate_limit config = config.ban.ban_rate_limit

unfoldable pub punish : Instant → IpAddr → Violation → Config → BanManager → Option BanManager
unfolding ban duration_sec
punish now ip violation config m =
    if ltb 0 (duration_sec violation config)
    then ban now ip (from_secs (duration_sec violation config)) m
    else some m

-- The part of `check` under the read lock: the answer, or `none` where it goes on.
unfoldable pub check_read : Instant → IpAddr → BanManager → Option Bool
check_read now ip m = elim (get m.banned_ips ip) [
  | some entry ↦ if leb now entry.expire_at then some true else none
  | none ↦ some false
]

-- The part under the write lock.
unfoldable pub check_write : Instant → IpAddr → BanManager → BanManager × Bool
check_write now ip m = elim (get m.banned_ips ip) [
  | some entry ↦
      if ltb entry.expire_at now
      then (record { banned_ips = remove m.banned_ips ip }, false)
      else (m, true)
  | none ↦ (m, false)
]

-- `check`, with what other tasks do to the map between the two locks.
unfoldable pub check_amid :
    (BanManager → BanManager) → Instant → IpAddr → BanManager → BanManager × Bool
unfolding check_read check_write
check_amid others now ip m = elim (check_read now ip m) [
  | some banned ↦ (m, banned)
  | none ↦ check_write now ip (others m)
]

-- `check`, undisturbed.
unfoldable pub check : Instant → IpAddr → BanManager → BanManager × Bool
unfolding check_amid
check now ip m = check_amid (λ m. m) now ip m
