-- ===== src/RateLimit.antt =====
-- src/ratelimit.rs: requests counted for each address in windows of one second.
-- `Instant::now()` is the argument `now`; `D` is the concurrent map.
pub mod Laws
pub mod Window
pub mod Burst
use oxidized_wall.Base.{
  ℕ, ◌+◌, ◌%◌, ◌^◌, Bool, true, false, IpAddr, ip_eq, Instant, from_secs, duration_since, ltb, leb,
  nat_eqb, if◌then◌else◌,
}
use oxidized_wall.Dict.{DashMap, or_insert}
use oxidized_wall.Config.{Config}

pub record RateState : Type 0 where
  pub count : ℕ
  pub last_reset : Instant

-- The values of a `u32`.
abbrev pub u32_mod : ℕ
u32_mod = 2 ^ 32

module _ (D : DashMap IpAddr RateState) where
  pub record RateLimiter : Type 0 where
    pub records : D.Map

  unfoldable pub new : RateLimiter
  new = record { records = D.new }

  -- One round of the cleanup task.
  unfoldable pub cleanup : Instant → RateLimiter → RateLimiter
  cleanup now l = record {
    records =
        D.retain (λ _ state. ltb (duration_since now state.last_reset) (from_secs 10)) l.records;
  }

  -- The part of `check` that holds the entry: its new value, and the answer.
  unfoldable pub count_request : Instant → ℕ → RateState → RateState × Bool
  count_request now max_rps entry =
      if leb (from_secs 1) (duration_since now entry.last_reset)
      then (record { count = 1; last_reset = now }, true)
      else if ltb entry.count max_rps
      then (record entry { count = (entry.count + 1) % u32_mod }, true)
      else (entry, false)

  unfoldable pub check : Instant → IpAddr → Config → RateLimiter → RateLimiter × Bool
  unfolding count_request
  check now ip config l =
      if nat_eqb config.limit.max_rps 0
      then (l, true)
      else let (records, entry) =
          or_insert D l.records ip (record { count = 0; last_reset = now }) in
        let (entry', answer) = count_request now config.limit.max_rps entry in
        (record { records = D.insert records ip entry' }, answer)
