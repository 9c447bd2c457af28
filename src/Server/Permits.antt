-- ===== src/Server/Permits.antt =====
-- The permits of the semaphore, and the connections that hold one.
use oxidized_wall.Base.{total, total-append}
use oxidized_wall.Base.{
  ℕ, ◌+◌, ◌≤◌, ◌≡◌, refl, ap, ◌∙◌, inl, inr, List, ◌∷◌, arith, ip_eq, nat_eq, list_eq, Bool-cases,
}
use oxidized_wall.Server.{
  Stage, Server, Site, Task, Move, first_stage, finished, shaken, refused, handled, ended, told,
  handled_last, closed, stop, accept, acquire, run, join, finish,
}
use oxidized_wall.Server.System.{System, Step, turn, cancel, Reach, here, next}

abbrev pub holds : Stage → ℕ
holds finished = 0
holds _ = 1

-- The connections that a server serves, and all servers.
abbrev pub live : Server → ℕ
live s = total holds s.conn_set

abbrev pub all_live : List Server → ℕ
all_live = total live

Task-permits :
    {site site' : Site} {stage stage' : Stage}
    → Task site stage site' stage'
    → site'.permits + holds stage' ≡ site.permits + holds stage
Task-permits shaken = refl
Task-permits refused = omega arith
Task-permits (handled bans) = refl
Task-permits ended = omega arith
Task-permits (told c) = refl
Task-permits (handled_last bans) = refl
Task-permits closed = omega arith

pub Move-permits :
    {site site' : Site} {s s' : Server}
    → Move site s site' s'
    → site'.permits + live s' ≡ site.permits + live s
unfolding first_stage
Move-permits (stop c at e f) = ground arith
Move-permits (accept now res at e f) = ground arith
Move-permits {s = s} (acquire a n at some_left e f) = elim (Bool-cases s.tls) [
  | inl secure ↦ ground arith
  | inr plain ↦ ground arith
]
Move-permits (run before after stage stage' t e f) = omega (
  arith,
  Task-permits t,
  ap (total holds) e,
  ap live f,
  total-append holds before (stage ∷ after),
  total-append holds before (stage' ∷ after),
)
Move-permits (join before after at e f g) = omega (
  arith,
  ap (λ (x : Site). x.permits) f,
  ap (total holds) e,
  ap live g,
  total-append holds before (finished ∷ after),
  total-append holds before after,
)
Move-permits (finish at e f g) = ground arith

pub Step-permits :
    {x y : System}
    → Step x y
    → y.site.permits + all_live y.servers ≡ x.site.permits + all_live x.servers
Step-permits (turn before after s s' m e f) = omega (
  arith,
  Move-permits m,
  ap all_live e,
  ap all_live f,
  total-append live before (s ∷ after),
  total-append live before (s' ∷ after),
)
Step-permits (cancel e) = ground arith

pub Reach-permits :
    {x y : System}
    → Reach x y
    → y.site.permits + all_live y.servers ≡ x.site.permits + all_live x.servers
Reach-permits here = refl
Reach-permits (next r st) = Step-permits st ∙ Reach-permits r

-- However the servers, the clients and the scheduler interleave, from a start without connections
-- the permits and the connections that are served by all servers together add up to the permits at
-- the start, so there are never more connections than that.
pub Reach-within_limit :
    {x y : System}
    → all_live x.servers ≡ 0
    → Reach x y
    → (y.site.permits + all_live y.servers ≡ x.site.permits) × (all_live y.servers ≤ x.site.permits)
Reach-within_limit none_yet r = let kept = Reach-permits r in (omega arith, omega arith)
