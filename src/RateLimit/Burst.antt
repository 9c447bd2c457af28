-- ===== src/RateLimit/Burst.antt =====
-- Requests across the end of a window.
use oxidized_wall.RateLimit.Laws.{check-count_request}
use oxidized_wall.Base.{
  replicate, ℕ, zero, suc, ◌+◌, ◌-◌, ◌*◌, ◌≤◌, ◌<◌, ◌≡◌, refl, ◌∙◌, ◌≢◌, inl, inr, true, some, List,
  [], ◌∷◌, ◌++◌, arith, ==_iff, ip_eq, nat_eq, list_eq, IpAddr, Option-cases, All, Instant,
  from_secs, duration_since,
}
use oxidized_wall.RateLimit.Window.{requests_of, run-within_window, check-within_window, run}
use oxidized_wall.RateLimit.{count_request, check, u32_mod, RateLimiter, Config, RateState}
use oxidized_wall.Dict.{DashMap}

module _ (D : DashMap IpAddr RateState) (config : Config) (ip : IpAddr) where
  -- No window of the address is open at the instant.
  abbrev pub Closed : Instant → RateLimiter D → Type 0
  Closed now l =
      (s : RateState) → D.get l.records ip ≡ some s → from_secs 1 ≤ duration_since now s.last_reset

  run-append :
      (xs ys : List (Instant × IpAddr)) (l : RateLimiter D)
      → (run D config ip (xs ++ ys) l).1
        ≡ (run D config ip xs l).1 + (run D config ip ys (run D config ip xs l).0).1
  unfolding run
  run-append [] ys l = omega arith
  run-append ((now, j) ∷ xs) ys l = ground (arith, run-append xs ys (check D now j config l).0)

  check-opens :
      (now : Instant) (l : RateLimiter D)
      → 0 < config.limit.max_rps
      → Closed now l
      → ((check D now ip config l).1 ≡ true)
        × (D.get (check D now ip config l).0.records ip
            ≡ some (record { count = 1; last_reset = now }))
  unfolding count_request
  check-opens now l pos closed =
      let limited : config.limit.max_rps ≢ 0 = omega arith in
      let (answer, entries) = check-count_request D now ip config l limited in
      elim (Option-cases (D.get l.records ip)) [
        | inl e ↦ (ground (arith, answer), ground (arith, entries ip, ==_iff ip ip))
        | inr (s, e) ↦
            let old = closed s e in
            (ground (arith, answer), ground (arith, entries ip, ==_iff ip ip))
      ]

  requests_of-replicate : (n : ℕ) (t : Instant) → requests_of D config ip (replicate n (t, ip)) ≡ n
  requests_of-replicate zero t = refl
  requests_of-replicate (suc n) t = ground (arith, ==_iff ip ip, requests_of-replicate n t)

  All-replicate :
      (n : ℕ) (t t0 : Instant)
      → duration_since t t0 < from_secs 1
      → All (λ r. duration_since r.0 t0 < from_secs 1) (replicate {A = Instant × IpAddr} n (t, ip))
  All-replicate zero t t0 h = tt
  All-replicate (suc n) t t0 h = (h, All-replicate n t t0 h)

  -- The window stays the one that is open.
  run-last_reset :
      (requests : List (Instant × IpAddr)) (l : RateLimiter D) (s : RateState)
      → 0 < config.limit.max_rps
      → config.limit.max_rps < u32_mod
      → D.get l.records ip ≡ some s
      → s.count ≤ config.limit.max_rps
      → All (λ r. duration_since r.0 s.last_reset < from_secs 1) requests
      → (s' : RateState) × (D.get (run D config ip requests l).0.records ip ≡ some s')
        × (s'.last_reset ≡ s.last_reset)
  unfolding run
  run-last_reset [] l s pos small e le h = (s, e, refl)
  run-last_reset ((now, j) ∷ requests) l s pos small e le (h, hs) =
      let (s', e', reset, le', counted, fair) =
        check-within_window D config ip now j l s pos small e le h in
      let (s2, e2, reset2) =
        run-last_reset requests (check D now j config l).0 s' pos small e' le' (rw reset hs) in
      (s2, e2, reset2 ∙ reset)

  -- As many requests as the limit allows: the first opens a window, the others come in it.
  abbrev pub volley : Instant → Instant → List (Instant × IpAddr)
  volley first others = (first, ip) ∷ replicate (config.limit.max_rps - 1) (others, ip)

  run-volley :
      (first others : Instant) (l : RateLimiter D)
      → 0 < config.limit.max_rps
      → config.limit.max_rps < u32_mod
      → Closed first l
      → duration_since others first < from_secs 1
      → ((run D config ip (volley first others) l).1 ≡ config.limit.max_rps)
        × ((s : RateState) × (D.get (run D config ip (volley first others) l).0.records ip ≡ some s)
            × (s.last_reset ≡ first))
  unfolding run
  run-volley first others l pos small closed h =
      let (yes_answer, opened) = check-opens first l pos closed in
      let l1 = (check D first ip config l).0 in
      let s : RateState = record { count = 1; last_reset = first } in
      let near = All-replicate (config.limit.max_rps - 1) others first h in
      let accepted =
        run-within_window D config ip (replicate (config.limit.max_rps - 1) (others, ip)) l1 s pos
          small opened pos near in
      (
        ground (
          arith,
          accepted,
          requests_of-replicate (config.limit.max_rps - 1) others,
          ==_iff ip ip,
        ),
        run-last_reset (replicate (config.limit.max_rps - 1) (others, ip)) l1 s pos small opened pos
            near,
      )

  -- The limit holds for each window and not for each second: where no window of an address is
  -- open, twice the limit's requests are all accepted, all but the first of them within one
  -- nanosecond; the limit is positive and below 2^32.
  pub run-burst :
      (t : Instant) (l : RateLimiter D)
      → 0 < config.limit.max_rps
      → config.limit.max_rps < u32_mod
      → Closed t l
      → (run D config ip
          (volley t (t + 999_999_999) ++ volley (t + from_secs 1) (t + from_secs 1))
          l).1
        ≡ 2 * config.limit.max_rps
  run-burst t l pos small closed =
      let (first_half, (s, e, reset)) =
        run-volley t (t + 999_999_999) l pos small closed (omega arith) in
      let l1 = (run D config ip (volley t (t + 999_999_999)) l).0 in
      let closed_again : Closed (t + from_secs 1) l1 = λ s' e'. ground arith in
      let (second_half, _) =
        run-volley (t + from_secs 1) (t + from_secs 1) l1 pos small closed_again (omega arith) in
      omega (
        arith,
        run-append (volley t (t + 999_999_999)) (volley (t + from_secs 1) (t + from_secs 1)) l,
      )
