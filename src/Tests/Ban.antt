-- ===== src/Tests/Ban.antt =====
-- The ban list at concrete calls.
use oxidized_wall.Dict.{get, insert, remove}
use oxidized_wall.Base.{
  ◌≡◌, refl, ◌⊎◌, true, false, some, List, [], ◌∷◌, arith, ip_eq, nat_eq, list_eq, Instant,
}
use oxidized_wall.Ban
use oxidized_wall.Ban.{Violation, BanManager}
use oxidized_wall.Ban.History
use oxidized_wall.Ban.History.{Call, run-banned_by}
use oxidized_wall.Ban.Races.{check_amid-is_banned}
use oxidized_wall.Ban.Spec.{is_banned}
use oxidized_wall.Tests.Instances.{client, other_client}

-- A list in which the client is banned up to the instant 100.
abbrev one_ban : BanManager
one_ban = record { banned_ips = (client, record { expire_at = 100 }) ∷ [] }

banned_until : (Ban.check 100 client one_ban).1 ≡ true
unfolding Ban.check get
banned_until = refl

free_after : Ban.check 101 client one_ban ≡ (record { banned_ips = [] }, false)
unfolding Ban.check get remove
free_after = refl

check_amid-is_banned_example :
    (Ban.check_amid (λ _. one_ban) 90 other_client Ban.new
      ≡ (Ban.new, is_banned 90 other_client Ban.new))
    ⊎ ((is_banned 90 other_client Ban.new ≡ false)
        × ((Ban.check_amid (λ _. one_ban) 90 other_client Ban.new).1
            ≡ is_banned 90 other_client one_ban)
        × (is_banned 95 client (Ban.check_amid (λ _. one_ban) 90 other_client Ban.new).0
            ≡ is_banned 95 client one_ban))
check_amid-is_banned_example =
    check_amid-is_banned (λ _. one_ban) 90 95 other_client client Ban.new (omega arith)

-- The client's ban for 100 nanoseconds from the start, and one for 5 from the instant 10.
abbrev later_ban : BanManager
later_ban = record { banned_ips = (client, record { expire_at = 15 }) ∷ [] }

first_ban : Ban.ban 0 client 100 Ban.new ≡ some one_ban
unfolding Ban.ban insert Ban.new
first_ban = refl

second_ban : Ban.ban 10 client 5 one_ban ≡ some later_ban
unfolding Ban.ban insert
second_ban = refl

abbrev calls : List (Instant × Call)
calls =
    (0, Call.ban_call client 100)
    ∷ (5, Call.check_call other_client)
    ∷ (10, Call.ban_call client 5)
    ∷ []

calls-run : History.run calls Ban.new ≡ some later_ban
unfolding History.run Ban.ban Ban.check History.step insert get Ban.new
calls-run = refl

run-banned_by_example :
    (Ban.check 50 client later_ban).1
    ≡ History.banned_by 50 client calls (is_banned 50 client Ban.new)
run-banned_by_example =
    run-banned_by 50 client calls Ban.new later_ban (omega arith, (omega arith, (omega arith, tt)))
      calls-run
