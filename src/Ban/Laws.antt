-- ===== src/Ban/Laws.antt =====
-- The operations of the ban list against its meaning.
use oxidized_wall.Base.{
  ◌&&◌, ◌==◌, ◌+◌, ◌≤◌, ◌<◌, ◌≡◌, refl, sym, ap, ◌∙◌, ◌↔◌, inl, inr, true, false, none, some, arith,
  ==_iff, ip_eq, nat_eq, list_eq, IpAddr, if◌then◌else◌, ltb, leb, Bool-cases, zero-or-pos, Instant,
  Duration, from_secs, instant_max,
}
use native.Mathlib.Decide.{dec_le}
use oxidized_wall.Dict.{insert, get-insert, get-remove, get-retain}
use oxidized_wall.Ban.{
  duration_sec, from_secs, Config, Violation, punish, BanManager, BanEntry, cleanup, ban, check,
}
use oxidized_wall.Ban.Spec.{is_banned}

-- Undisturbed, `check` answers whether the address is banned at that instant, and whatever it
-- removes changes no answer about any address at that instant or later.
pub check-is_banned :
    (now t : Instant) (ip j : IpAddr) (m : BanManager)
    → now ≤ t
    → ((check now ip m).1 ≡ is_banned now ip m)
      × (is_banned t j (check now ip m).0 ≡ is_banned t j m)
unfolding check
check-is_banned now t ip j m h =
    (ground arith, ground (arith, get-remove m.banned_ips ip j, ==_iff ip j))

-- The cleanup task changes no answer after the instant at which it runs.
pub cleanup-is_banned :
    (now t : Instant) (j : IpAddr) (m : BanManager)
    → now < t
    → is_banned t j (cleanup now m) ≡ is_banned t j m
unfolding cleanup
cleanup-is_banned now t j m h =
    ground (arith, get-retain (λ _ (entry : BanEntry). ltb now entry.expire_at) m.banned_ips j)

-- If its end can be represented, a ban lasts exactly for its duration, whatever was recorded
-- before, and it changes nothing for any other address.
pub ban_lem :
    (now : Instant) (ip : IpAddr) (d : Duration) (m : BanManager)
    → now + d ≤ instant_max
    → (m' : BanManager) × (ban now ip d m ≡ some m')
      × ((t : Instant) (j : IpAddr)
          → is_banned t j m' ≡ (if ip == j then leb t (now + d) else is_banned t j m))
unfolding ban
ban_lem now ip d m h =
    let entry : BanEntry = record { expire_at = now + d } in
    (
      record { banned_ips = insert m.banned_ips ip entry },
      ground arith,
      λ t j. ground (arith, get-insert m.banned_ips ip entry j),
    )

-- `ban` panics exactly if the end of the ban cannot be represented.
pub ban-eq-none_iff :
    (now : Instant) (ip : IpAddr) (d : Duration) (m : BanManager)
    → (ban now ip d m ≡ none) ↔ (instant_max < now + d)
unfolding ban
ban-eq-none_iff now ip d m = ground arith

-- `punish` does not panic if the end of the ban can be represented. Where the seconds set for the
-- violation are not zero it bans the address exactly up to that end, otherwise it changes no
-- answer, and it changes none for any other address.
pub punish_lem :
    (now : Instant) (ip : IpAddr) (v : Violation) (config : Config) (m : BanManager)
    → now + from_secs (duration_sec v config) ≤ instant_max
    → (m' : BanManager) × (punish now ip v config m ≡ some m')
      × ((t : Instant) (j : IpAddr)
          → is_banned t j m' ≡ (
              if (ip == j) && ltb 0 (duration_sec v config)
              then leb t (now + from_secs (duration_sec v config))
              else is_banned t j m))
unfolding punish
punish_lem now ip v config m h = elim (Bool-cases (ltb 0 (duration_sec v config))) [
  | inl some_time ↦
      let (m', e, banned) = ban_lem now ip (from_secs (duration_sec v config)) m h in
      (m', rw some_time e, λ t j. ground (arith, banned t j))
  | inr no_time ↦ (m, rw no_time refl, λ t j. ground arith)
]

-- The same of any punishment that does not panic.
pub punish-is_banned :
    (now : Instant) (ip : IpAddr) (v : Violation) (config : Config) (m m' : BanManager)
    (t : Instant) (j : IpAddr)
    → punish now ip v config m ≡ some m'
    → is_banned t j m' ≡ (
        if (ip == j) && ltb 0 (duration_sec v config)
        then leb t (now + from_secs (duration_sec v config))
        else is_banned t j m)
unfolding punish
punish-is_banned now ip v config m m' t j e =
    elim (dec_le (now + from_secs (duration_sec v config)) instant_max) [
      | yes fits ↦
          let (m1, e1, banned) = punish_lem now ip v config m fits in
          let same : m1 ≡ m' = cc in ap (is_banned t j) (sym same) ∙ banned t j
      | no late ↦ elim (zero-or-pos (duration_sec v config)) [
        | inl none_set ↦
            let same : m ≡ m' = ground arith in ap (is_banned t j) (sym same) ∙ ground arith
        | inr some_set ↦
            absurd
              (ground (arith, (ban-eq-none_iff now ip (from_secs (duration_sec v config)) m).1))
      ]
    ]

-- A later ban of the same address replaces an earlier one that lasts longer: between their ends
-- the address is banned after the first and no longer after the second.
pub ban_shortened :
    (t1 t2 t : Instant) (ip : IpAddr) (d1 d2 : Duration) (m m1 m2 : BanManager)
    → ban t1 ip d1 m ≡ some m1
    → ban t2 ip d2 m1 ≡ some m2
    → t2 + d2 < t
    → t ≤ t1 + d1
    → (is_banned t ip m1 ≡ true) × (is_banned t ip m2 ≡ false)
unfolding ban
ban_shortened t1 t2 t ip d1 d2 m m1 m2 e1 e2 late early =
    let first : BanEntry = record { expire_at = t1 + d1 } in
    let second : BanEntry = record { expire_at = t2 + d2 } in
    (
      ground (arith, get-insert m.banned_ips ip first ip, ==_iff ip ip),
      ground (arith, get-insert m1.banned_ips ip second ip, ==_iff ip ip),
    )
