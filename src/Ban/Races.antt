-- ===== src/Ban/Races.antt =====
-- `check` beside other tasks: between its two locks they may change the list.
use oxidized_wall.Base.{◌≤◌, ◌≡◌, ◌⊎◌, inl, inr, false, IpAddr, ip_eq, ==_iff, Instant, arith}
use oxidized_wall.Dict.{get-remove}
use oxidized_wall.Ban.{none, some, BanManager, check_read, check_write, check_amid}
use oxidized_wall.Ban.Spec.{is_banned}

check_read-is_banned :
    (now : Instant) (ip : IpAddr) (m : BanManager)
    → (check_read now ip m ≡ some (is_banned now ip m))
      ⊎ ((check_read now ip m ≡ none) × (is_banned now ip m ≡ false))
unfolding check_read
check_read-is_banned now ip m = ground arith

check_write-is_banned :
    (now : Instant) (ip : IpAddr) (m : BanManager)
    → ((check_write now ip m).1 ≡ is_banned now ip m)
      × ((t : Instant) (j : IpAddr)
          → now ≤ t
          → is_banned t j (check_write now ip m).0 ≡ is_banned t j m)
unfolding check_write
check_write-is_banned now ip m =
    (ground arith, λ t j h. ground (arith, get-remove m.banned_ips ip j, ==_iff ip j))

-- Whatever other tasks do between the two locks, `check` either answers for the list that it read,
-- and changes nothing, or the address was not banned there and it answers for the list that they
-- left, in which it changes no answer at that instant or later: a ban that they record is not lost.
pub check_amid-is_banned :
    (others : BanManager → BanManager) (now t : Instant) (ip j : IpAddr) (m : BanManager)
    → now ≤ t
    → (check_amid others now ip m ≡ (m, is_banned now ip m))
      ⊎ ((is_banned now ip m ≡ false)
          × ((check_amid others now ip m).1 ≡ is_banned now ip (others m))
          × (is_banned t j (check_amid others now ip m).0 ≡ is_banned t j (others m)))
unfolding check_amid
check_amid-is_banned others now t ip j m later = elim (check_read-is_banned now ip m) [
  | inl answered ↦ inl (rw (answered, check_amid))
  | inr (undecided, free) ↦
      let w = check_write-is_banned now ip (others m) in
      inr (free, rw (undecided, check_amid) w.0, rw (undecided, check_amid) (w.1 t j later))
]
