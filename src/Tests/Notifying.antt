-- ===== src/Tests/Notifying.antt =====
-- Offline notifications at a concrete pool.
use pushd.Prelude.{ℕ, ◌≡◌, ◌≢◌, refl, some, List, [], ◌∷◌, arith, length, ℤ, pos, done}
use pushd.Text.{Bytes, codes}
use pushd.Pubsub.Delivery.{members_of}
use pushd.Offpush.{SenderPool, check_and_push, task_for}
use pushd.Offpush.Pool.{
  Turns, TurnsFrom, loaded, load, exchange, at_first, after, new_turns, set_caller, give_turn,
  next_slot, inc_int32, rem_int32, obtain_one_off_sender,
}
use pushd.Offpush.RoundRobin.{round_robin, turns_in_order, obtain_one_off_sender_lem}
use pushd.Offpush.Recipients.{notified, check_and_push-notified}
use pushd.Tests.Memory.{office-NamesUsers, here, office, memory_lru-laws}

abbrev three : List Bytes
three = codes "a" ∷ codes "b" ∷ codes "a" ∷ []

-- two goroutines load the counter of three senders, and the second is given its turn
abbrev both_loaded : Turns
both_loaded = set_caller (set_caller (new_turns 3) 0 (loaded (pos 0) 0)) 1 (loaded (pos 0) 0)

abbrev one_served : Turns
one_served = give_turn both_loaded 1 (pos 1)

one_served-reached : TurnsFrom (new_turns 3) one_served
unfolding next_slot inc_int32 rem_int32
one_served-reached =
    after (after (after at_first (load 0 refl)) (load 1 refl))
      (exchange 1 (pos 0) (pos 1) 0 refl refl refl)

turns_in_order_example : one_served.given ≡ round_robin 3 (length one_served.given)
turns_in_order_example = turns_in_order 3 (omega arith) (omega arith) one_served one_served-reached

given_second : round_robin 3 4 ≡ pos 1 ∷ pos 2 ∷ pos 0 ∷ pos 1 ∷ []
unfolding round_robin
given_second = refl

moved_on : one_served.baton ≢ pos 0
moved_on = ground arith

obtain_one_off_sender_lem_example :
    (a : Bytes) × (slot : ℤ) × (obtain_one_off_sender three one_served.size one_served.baton
      ≡ done (a, slot))
    × TurnsFrom one_served (
        give_turn
          (set_caller one_served 2 (loaded one_served.baton (length one_served.given)))
          2
          slot)
obtain_one_off_sender_lem_example =
    obtain_one_off_sender_lem 3 (omega arith) (omega arith) one_served 2 three one_served-reached
      refl refl

abbrev pool_of_three : SenderPool
pool_of_three = record { pool = three; baton = pos 0; size = pos 3 }

check_and_push-notified_example :
    (check_and_push here (some pool_of_three) (codes "room") (codes "hi") (codes "ann") office).0
    ≡ done (
        task_for here (codes "room") (codes "hi") (codes "ann") (
          notified here office.clients office.online
            (codes "ann")
            (members_of here (codes "room") office)))
check_and_push-notified_example =
    check_and_push-notified here (memory_lru-laws ℕ) pool_of_three (codes "room") (codes "hi")
      (codes "ann") office office-NamesUsers
