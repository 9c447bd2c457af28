-- ===== src/RateLimit/Window.antt =====
-- A sequence of requests within one window: how many are answered.
use oxidized_wall.Base.{
  ℕ, suc, ◌-◌, ◌≤◌, ◌<◌, ◌≡◌, refl, ap, ◌∙◌, ◌≢◌, inl, inr, true, false, ◌&&◌, some, List, [], ◌∷◌,
  arith, ◌==◌, ==_iff, ip_eq, nat_eq, list_eq, IpAddr, if◌then◌else◌, ltb, Bool-cases, All, Instant,
  from_secs, duration_since,
}
use oxidized_wall.RateLimit.{count_request, u32_mod, RateLimiter, check, Config, RateState}
use oxidized_wall.Dict.{DashMap}
use Prim.Native.Nat.{min}
use oxidized_wall.RateLimit.Laws.{check-count_request, entry_at}

module _ (D : DashMap IpAddr RateState) (config : Config) where
  -- The requests, each at its instant; the result counts the accepted ones of the address.
  unfoldable pub run : IpAddr → List (Instant × IpAddr) → RateLimiter D → RateLimiter D × ℕ
  unfolding check
  run ip [] l = (l, 0)
  run ip ((now, j) ∷ requests) l =
      let (l1, answer) = check D now j config l in
      let (l2, n) = run ip requests l1 in (l2, if (ip == j) && answer then suc n else n)

  -- The number of requests of the address.
  abbrev pub requests_of : IpAddr → List (Instant × IpAddr) → ℕ
  requests_of ip [] = 0
  requests_of ip ((now, j) ∷ requests) =
      if ip == j then suc (requests_of ip requests) else requests_of ip requests

  count_request-within_window :
      (now : Instant) (max_rps : ℕ) (s : RateState)
      → max_rps < u32_mod
      → duration_since now s.last_reset < from_secs 1
      → count_request D now max_rps s
        ≡ (if ltb s.count max_rps then (record s { count = suc s.count }, true) else (s, false))
  unfolding count_request
  count_request-within_window now max_rps s small h = ground arith

  -- One request within the open window.
  pub check-within_window :
      (ip : IpAddr) (now : Instant) (j : IpAddr) (l : RateLimiter D) (s : RateState)
      → 0 < config.limit.max_rps
      → config.limit.max_rps < u32_mod
      → D.get l.records ip ≡ some s
      → s.count ≤ config.limit.max_rps
      → duration_since now s.last_reset < from_secs 1
      → (s' : RateState) × (D.get (check D now j config l).0.records ip ≡ some s')
        × (s'.last_reset ≡ s.last_reset)
        × (s'.count ≤ config.limit.max_rps)
        × (s'.count ≡ (if (ip == j) && (check D now j config l).1 then suc s.count else s.count))
        × (ip ≡ j → (check D now j config l).1 ≡ ltb s.count config.limit.max_rps)
  check-within_window ip now j l s pos small e le h =
      let limited : config.limit.max_rps ≢ 0 = omega arith in
      let (answer, entries) = check-count_request D now j config l limited in
      let counted = count_request-within_window now config.limit.max_rps s small h in
      elim (Bool-cases (ip == j)) [
        | inl same ↦
            let eq = (==_iff ip j).0 same in
            let found : D.get l.records j ≡ some s = ground arith in
            let at : entry_at D now j l ≡ s = ground arith in
            let outcome =
              ap (λ (x : RateState). count_request D now config.limit.max_rps x) at ∙ counted in
            let fair : (check D now j config l).1 ≡ ltb s.count config.limit.max_rps =
              ground (arith, answer, outcome) in
            elim (Bool-cases (ltb s.count config.limit.max_rps)) [
              | inl room ↦ (
                record s { count = suc s.count },
                ground (arith, entries ip, ==_iff j ip),
                refl,
                ground arith,
                rw (same, fair, room) refl,
                λ _. fair,
              )
              | inr full ↦ (
                s,
                ground (arith, entries ip, ==_iff j ip),
                refl,
                le,
                rw (same, fair, full) refl,
                λ _. fair,
              )
            ]
        | inr other ↦ (
          s,
          ground (arith, entries ip, ==_iff ip j, ==_iff j ip),
          refl,
          le,
          rw other,
          λ eq. ground (arith, ==_iff ip j),
        )
      ]

  -- While the window that is open for an address lasts, of any requests exactly as many of the
  -- address are accepted as the limit has left, or all of them if they are fewer, whatever other
  -- addresses do; the limit is positive and below 2^32, and the window's count is within it.
  pub run-within_window :
      (ip : IpAddr) (requests : List (Instant × IpAddr)) (l : RateLimiter D) (s : RateState)
      → 0 < config.limit.max_rps
      → config.limit.max_rps < u32_mod
      → D.get l.records ip ≡ some s
      → s.count ≤ config.limit.max_rps
      → All (λ r. duration_since r.0 s.last_reset < from_secs 1) requests
      → (run ip requests l).1 ≡ min (requests_of ip requests) (config.limit.max_rps - s.count)
  unfolding run
  run-within_window ip [] l s pos small e le h = omega arith
  run-within_window ip ((now, j) ∷ requests) l s pos small e le (h, hs) =
      let (s', e', reset, le', counted, fair) = check-within_window ip now j l s pos small e le h in
      let ih =
        run-within_window ip requests (check D now j config l).0 s' pos small e' le'
          (rw reset hs) in
      ground (arith, ==_iff ip j)
