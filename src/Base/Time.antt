-- ===== src/Base/Time.antt =====
-- `std::time`: an `Instant` and a `Duration` are counts of nanoseconds.
use Prim.Native.Nat.{ℕ, ◌+◌, ◌*◌, ◌-◌, ◌^◌}
use mathlib.Core.Option.{Option, none, some}
use oxidized_wall.Base.Tests.{leb, if◌then◌else◌}

abbrev pub Instant : Type 0
Instant = ℕ

abbrev pub Duration : Type 0
Duration = ℕ

-- `Duration::from_secs`.
abbrev pub from_secs : ℕ → Duration
from_secs s = s * 1_000_000_000

-- `Instant::duration_since`: zero where the other instant is later.
abbrev pub duration_since : Instant → Instant → Duration
duration_since now earlier = now - earlier

-- The largest instant: the seconds are a signed 64-bit number.
abbrev pub instant_max : Instant
instant_max = 2 ^ 63 * 1_000_000_000 - 1

-- `Instant + Duration`: `none` is the panic on an instant that cannot be represented.
abbrev pub add_duration : Instant → Duration → Option Instant
add_duration now d = if leb (now + d) instant_max then some (now + d) else none
