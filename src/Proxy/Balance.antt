-- ===== src/Proxy/Balance.antt =====
-- `select_upstream` of src/proxy.rs: round robin over the healthy upstreams. The counter and the
-- sum with it are `usize`, which wraps in a release build; health is a test on addresses.
pub mod Laws
use oxidized_wall.Base.{
  ℕ, zero, suc, ◌+◌, ◌%◌, ◌^◌, Bool, Option, none, some, List, ip_eq, nat_eq, list_eq, Str,
  if◌then◌else◌, length, get_elem?,
}

-- The values of a 64-bit `usize`.
abbrev pub usize_mod : ℕ
usize_mod = 2 ^ 64

-- The loop, with `n` rounds left; an index out of bounds would panic, which is `none` too.
unfoldable pub select_from : (Str → Bool) → List Str → ℕ → ℕ → ℕ → Option Str
select_from is_healthy upstreams start i zero = none
select_from is_healthy upstreams start i (suc n) =
    let rest = select_from is_healthy upstreams start (i + 1) n in
    elim (get_elem? upstreams ((start + i) % usize_mod % length upstreams)) [
      | some addr ↦ if is_healthy addr then some addr else rest
      | none ↦ none
    ]

-- The counter after the call, and the choice.
unfoldable pub select_upstream : (Str → Bool) → List Str → ℕ → ℕ × Option Str
unfolding select_from
select_upstream is_healthy upstreams counter =
    ((counter + 1) % usize_mod, select_from is_healthy upstreams counter 0 (length upstreams))
