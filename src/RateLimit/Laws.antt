-- ===== src/RateLimit/Laws.antt =====
-- One request: the answer, the counter, and what the cleanup task may forget.
use oxidized_wall.RateLimit.{cleanup, u32_mod, count_request, RateLimiter, Config, check, RateState}
use oxidized_wall.Base.{
  inr, sym, ap, inl, Option-cases, ltb, zero-or-pos, ◌∙◌, ==_iff, from_secs, arith, duration_since,
  some, ◌==◌, ◌↔◌, false, ◌≤◌, ◌<◌, ℕ, if◌then◌else◌, ip_eq, ◌≢◌, unwrap_or, ◌≡◌, Instant, IpAddr,
}
use oxidized_wall.Dict.{get-insert-or_insert, DashMap}

module _ (D : DashMap IpAddr RateState) where
  open D use {get-insert, get-retain}

  -- The entry that a request finds, or makes.
  abbrev pub entry_at : Instant → IpAddr → RateLimiter D → RateState
  entry_at now ip l = unwrap_or (D.get l.records ip) (record { count = 0; last_reset = now })

  pub check-count_request :
      (now : Instant) (ip : IpAddr) (config : Config) (l : RateLimiter D)
      → config.limit.max_rps ≢ 0
      → ((check D now ip config l).1
          ≡ (count_request D now config.limit.max_rps (entry_at now ip l)).1)
        × ((j : IpAddr)
            → D.get (check D now ip config l).0.records j ≡ (
                if ip == j
                then some (count_request D now config.limit.max_rps (entry_at now ip l)).0
                else D.get l.records j))
  unfolding check
  check-count_request now ip config l limited = (
    ground arith,
    λ j. ground (
      arith,
      get-insert-or_insert D l.records ip j (record { count = 0; last_reset = now })
          (count_request D now config.limit.max_rps (entry_at now ip l)).0,
    ),
  )

  -- A request is refused exactly if there is a limit, the window of the address began less than a
  -- second ago and the limit's number of requests was counted in it.
  pub check-eq-false_iff :
      (now : Instant) (ip : IpAddr) (config : Config) (l : RateLimiter D)
      → ((check D now ip config l).1 ≡ false) ↔ (
          (config.limit.max_rps ≢ 0)
          × ((s : RateState) × (D.get l.records ip ≡ some s)
              × (duration_since now s.last_reset < from_secs 1)
              × (config.limit.max_rps ≤ s.count)))
  unfolding check count_request
  check-eq-false_iff now ip config l = elim (Option-cases (D.get l.records ip)) [
    | inl e ↦ ground arith
    | inr (s, e) ↦ (
      λ r. (ground arith, (s, e, ground arith, ground arith)),
      λ (a, (s', e', b, c)). ground arith,
    )
  ]

  -- Every counter is at most `n`.
  abbrev pub CountsWithin : ℕ → RateLimiter D → Type 0
  CountsWithin n l = (j : IpAddr) (s : RateState) → D.get l.records j ≡ some s → s.count ≤ n

  -- A request keeps every counter within the limit, if that is below 2^32, so that the addition to
  -- a `u32` does not wrap.
  pub check-CountsWithin :
      (now : Instant) (ip : IpAddr) (config : Config) (l : RateLimiter D)
      → config.limit.max_rps < u32_mod
      → CountsWithin config.limit.max_rps l
      → CountsWithin config.limit.max_rps (check D now ip config l).0
  unfolding check
  check-CountsWithin now ip config l small h j s e = elim (zero-or-pos config.limit.max_rps) [
    | inl unlimited ↦ h j s (ground arith)
    | inr limited ↦
        ground (arith, (check-count_request now ip config l (omega arith)).1 j, h j s, h ip s)
  ]

  cleanup-count_request :
      (now t : Instant) (ip : IpAddr) (max_rps : ℕ) (l : RateLimiter D)
      → 0 < max_rps
      → now ≤ t
      → count_request D t max_rps (entry_at t ip (cleanup D now l))
        ≡ count_request D t max_rps (entry_at t ip l)
  unfolding count_request cleanup
  cleanup-count_request now t ip max_rps l limited later = ground (
    arith,
    D.get-retain (λ _ (state : RateState). ltb (duration_since now state.last_reset) (from_secs 10))
        l.records ip,
  )

  -- The cleanup task forgets only what the next request of the address would start afresh: with a
  -- limit, at any instant from the task's round on, an answer is the same with and without it, and
  -- so is the entry that the request leaves.
  pub cleanup-check :
      (now t : Instant) (ip : IpAddr) (config : Config) (l : RateLimiter D)
      → config.limit.max_rps ≢ 0
      → now ≤ t
      → ((check D t ip config (cleanup D now l)).1 ≡ (check D t ip config l).1)
        × (D.get (check D t ip config (cleanup D now l)).0.records ip
            ≡ D.get (check D t ip config l).0.records ip)
  cleanup-check now t ip config l limited later =
      let with_cleanup = check-count_request t ip config (cleanup D now l) limited in
      let without = check-count_request t ip config l limited in
      let same = cleanup-count_request now t ip config.limit.max_rps l (omega arith) later in
      (
        with_cleanup.0 ∙ ap (λ r. r.1) same ∙ sym without.0,
        ground (arith, with_cleanup.1 ip, without.1 ip, same, ==_iff ip ip),
      )
