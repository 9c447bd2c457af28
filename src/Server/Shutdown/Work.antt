-- ===== src/Server/Shutdown/Work.antt =====
-- How many steps a run takes for the connections that arrive in it.
use oxidized_wall.Base.{total, total-append}
use oxidized_wall.Ban
use oxidized_wall.Ban.{BanManager}
use oxidized_wall.Proxy.{SocketAddr}
use oxidized_wall.Base.{
  ℕ, ◌+◌, ◌*◌, ◌≤◌, ap, inl, inr, Option, none, some, ◌∷◌, arith, ip_eq, nat_eq, list_eq,
  Bool-cases, Instant,
}
use oxidized_wall.Server.{
  Server, Site, Stage, Task, Move, first_stage, on_accept, shaken, refused, handled, ended, told,
  handled_last, closed, stop, accept, acquire, run, join, finish, finished,
}
use oxidized_wall.Server.Shutdown.{left, all_left, stage_left, loop_left}
use oxidized_wall.Server.System.{System, turn, cancel, Reach, here, next}

-- The steps but for the handling of requests, the outcomes of `accept` and the signal.
abbrev pub task_work : {site site' : Site} {a b : Stage} → Task site a site' b → ℕ
task_work shaken = 1
task_work refused = 1
task_work (handled _) = 0
task_work ended = 1
task_work (told _) = 1
task_work (handled_last _) = 0
task_work closed = 1

abbrev pub work : {site site' : Site} {s s' : Server} → Move site s site' s' → ℕ
work (stop _ _ _ _) = 1
work (accept _ _ _ _ _) = 0
work (acquire _ _ _ _ _ _) = 1
work (run _ _ _ _ t _ _) = task_work t
work (join _ _ _ _ _ _) = 1
work (finish _ _ _ _) = 1

abbrev pub arrivals : {site site' : Site} {s s' : Server} → Move site s site' s' → ℕ
arrivals (accept _ _ _ _ _) = 1
arrivals _ = 0

abbrev pub all_work : {x y : System} → Reach x y → ℕ
all_work here = 0
all_work (next r (turn _ _ _ _ m _ _)) = all_work r + work m
all_work (next r (cancel _)) = all_work r

abbrev pub all_arrivals : {x y : System} → Reach x y → ℕ
all_arrivals here = 0
all_arrivals (next r (turn _ _ _ _ m _ _)) = all_arrivals r + arrivals m
all_arrivals (next r (cancel _)) = all_arrivals r

Task-work :
    {site site' : Site} {a b : Stage} (t : Task site a site' b)
    → stage_left b + task_work t ≤ stage_left a
Task-work shaken = omega arith
Task-work refused = omega arith
Task-work (handled _) = omega arith
Task-work ended = omega arith
Task-work (told _) = omega arith
Task-work (handled_last _) = omega arith
Task-work closed = omega arith

loop_left-on_accept :
    (now : Instant) (res : Option SocketAddr) (bans : BanManager)
    → loop_left (on_accept now res bans).1 ≤ 7
unfolding on_accept
loop_left-on_accept now none bans = omega arith
loop_left-on_accept now (some a) bans = elim (Bool-cases (Ban.check now a.ip bans).1) [
  | inl banned ↦ rw banned (omega arith)
  | inr free ↦ rw free (omega arith)
]

Move-work :
    {site site' : Site} {s s' : Server} (m : Move site s site' s')
    → left s' + work m ≤ left s + 5 * arrivals m
unfolding first_stage
Move-work (stop c at e f) = ground arith
Move-work {site} {s = s} (accept now res at e f) =
    ground (arith, loop_left-on_accept now res site.bans)
Move-work {s = s} (acquire a n at some_left e f) = elim (Bool-cases s.tls) [
  | inl secure ↦ ground arith
  | inr plain ↦ ground arith
]
Move-work (run before after stage stage' t e f) = omega (
  arith,
  Task-work t,
  ap (total stage_left) e,
  ap left f,
  total-append stage_left before (stage ∷ after),
  total-append stage_left before (stage' ∷ after),
)
Move-work (join before after at e f g) = omega (
  arith,
  ap (total stage_left) e,
  ap left g,
  total-append stage_left before (finished ∷ after),
  total-append stage_left before after,
)
Move-work (finish at e f g) = ground arith

-- In any run, the steps that are not the handling of a request, an outcome of `accept` or the
-- signal are at most those left at the start and five for each outcome of `accept`.
pub Reach-work :
    {x y : System} (r : Reach x y)
    → all_left y.servers + all_work r ≤ all_left x.servers + 5 * all_arrivals r
Reach-work here = omega arith
Reach-work (next r (turn before after s s' m e f)) = omega (
  arith,
  Reach-work r,
  Move-work m,
  ap all_left e,
  ap all_left f,
  total-append left before (s ∷ after),
  total-append left before (s' ∷ after),
)
Reach-work (next r (cancel e)) = ground (arith, Reach-work r)
