-- ===== src/Server/Shutdown.antt =====
-- From the shutdown signal to the end of all servers.
pub mod Progress
pub mod Work
use oxidized_wall.Base.{total, total-append}
use oxidized_wall.Base.{
  ℕ, ◌+◌, ◌-◌, ◌<◌, ◌≡◌, refl, ap, ◌≢◌, ◌⊎◌, inl, inr, true, List, [], ◌∷◌, ◌++◌, arith, ip_eq,
  nat_eq, list_eq, Bool-cases, All, total,
}
use oxidized_wall.Server.{
  first_stage, Move, Listening, Stage, Server, Site, Task, handshake, serving, closing, finished,
  accepting, acquiring, draining, stopped,
}
use oxidized_wall.Server.Permits.{holds}

-- The steps that are left to a task, to a loop, to a server and to all, once no connection arrives.
abbrev pub stage_left : Stage → ℕ
stage_left handshake = 4
stage_left serving = 3
stage_left closing = 2
stage_left finished = 1

abbrev pub loop_left : Listening → ℕ
loop_left accepting = 2
loop_left (acquiring _) = 7
loop_left draining = 1
loop_left stopped = 0

abbrev pub left : Server → ℕ
left s = loop_left s.listening + total stage_left s.conn_set

abbrev pub all_left : List Server → ℕ
all_left = total left

abbrev pub HasStopped : Server → Type 0
HasStopped s = s.listening ≡ stopped

-- The first element with one property, or all have the other.
abbrev pub Found {ℓ κ} : {A : Type ℓ} → (A → Type κ) → List A → Type (ℓ ⊔ κ)
Found {A = A} P xs =
    (before : List A) × (a : A) × (after : List A) × (xs ≡ before ++ a ∷ after) × P a

pub find {ℓ κ μ} :
    {A : Type ℓ} (P : A → Type κ) (Q : A → Type μ)
    → ((a : A) → P a ⊎ Q a)
    → (xs : List A) → Found P xs ⊎ All Q xs
find P Q f [] = inr tt
find P Q f (x ∷ xs) = elim (f x) [
  | inl p ↦ inl ([], x, xs, refl, p)
  | inr q ↦ elim (find P Q f xs) [
    | inl (before, a, after, e, p) ↦ inl (x ∷ before, a, after, ap (◌∷◌ x) e, p)
    | inr qs ↦ inr (q, qs)
  ]
]

pub total-eq-zero {ℓ} :
    {A : Type ℓ} (w : A → ℕ) (xs : List A) → All (λ x. w x ≡ 0) xs → total w xs ≡ 0
total-eq-zero w [] h = refl
total-eq-zero w (x ∷ xs) (h, hs) = omega (arith, total-eq-zero w xs hs)

pub holder_or_free : (stage : Stage) → (holds stage ≡ 1) ⊎ (holds stage ≡ 0)
holder_or_free handshake = inl refl
holder_or_free serving = inl refl
holder_or_free closing = inl refl
holder_or_free finished = inr refl

pub stopped_or_not : (s : Server) → (s.listening ≢ stopped) ⊎ HasStopped s
stopped_or_not s = by_loop s.listening refl
  where
    by_loop : (at : Listening) → s.listening ≡ at → (s.listening ≢ stopped) ⊎ HasStopped s
    by_loop stopped e = inr e
    by_loop accepting e = inl (λ f. cc)
    by_loop (acquiring a) e = inl (λ f. cc)
    by_loop draining e = inl (λ f. cc)

-- A step of the task that holds a permit, which leaves less to do.
end_task :
    (site : Site) (stage : Stage)
    → site.cancelled ≡ true
    → holds stage ≡ 1
    → (site' : Site) × (stage' : Stage) × Task site stage site' stage'
      × (stage_left stage' < stage_left stage)
      × (site'.cancelled ≡ true)
end_task site handshake c h = (_, _, Task.refused, omega arith, c)
end_task site serving c h = (_, _, Task.told c, omega arith, c)
end_task site closing c h = (_, _, Task.closed, omega arith, c)
end_task site finished c h = absurd (omega arith)

-- A step of one server that leaves less to do, after the cancellation.
abbrev pub Quiet : Site → Server → Type 0
Quiet site s =
    (site' : Site) × (s' : Server) × Move site s site' s'
    × (left s' < left s)
    × (site'.cancelled ≡ true)

pub end_holder :
    (site : Site) (s : Server)
    → site.cancelled ≡ true
    → Found (λ stage. holds stage ≡ 1) s.conn_set
    → Quiet site s
end_holder site s c (before, stage, after, e, h) =
    let (site', stage', t, less, c') = end_task site stage c h in
    (
      site',
      record s { conn_set = before ++ stage' ∷ after },
      Move.run before after stage stage' t e refl,
      omega (
        arith,
        ap (total stage_left) e,
        total-append stage_left before (stage ∷ after),
        total-append stage_left before (stage' ∷ after),
      ),
      c',
    )

pub go_on_freely :
    (site : Site) (s : Server)
    → site.cancelled ≡ true
    → 0 < site.permits
    → total holds s.conn_set ≡ 0
    → s.listening ≢ stopped
    → Quiet site s
unfolding first_stage
go_on_freely site s c some_left free going = by_loop s.listening refl
  where
    by_tasks : (tasks : List Stage) → s.conn_set ≡ tasks → s.listening ≡ draining → Quiet site s
    by_tasks [] e at =
        (site, record s { listening = stopped }, Move.finish at e refl refl, ground arith, c)
    by_tasks (finished ∷ rest) e at = (
      site,
      record s { conn_set = rest },
      Move.join [] rest (inr at) e refl refl,
      ground arith,
      c,
    )
    by_tasks (handshake ∷ rest) e at = absurd (omega (arith, ap (total holds) e))
    by_tasks (serving ∷ rest) e at = absurd (omega (arith, ap (total holds) e))
    by_tasks (closing ∷ rest) e at = absurd (omega (arith, ap (total holds) e))

    by_loop : (at : Listening) → s.listening ≡ at → Quiet site s
    by_loop stopped e = absurd (going e)
    by_loop accepting e =
        (site, record s { listening = draining }, Move.stop c e refl refl, ground arith, c)
    by_loop (acquiring a) e = (
      record site { permits = site.permits - 1 },
      record s { listening = accepting; conn_set = first_stage s.tls ∷ s.conn_set },
      Move.acquire a (site.permits - 1) e (omega arith) refl refl,
      elim (Bool-cases s.tls) [ inl secure ↦ ground arith | inr plain ↦ ground arith ],
      c,
    )
    by_loop draining e = by_tasks s.conn_set refl e
