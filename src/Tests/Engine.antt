-- ===== src/Tests/Engine.antt =====
-- A server process from its start, with a client that connects, names itself, is set up and leaves.
use pushd.Prelude.{
  ℕ, ◌≡◌, ◌⊎◌, refl, ap, true, false, none, some, [], ◌∷◌, ◌++◌, if◌then◌else◌, take, drop, pos,
  List, length, done, panic,
}
use pushd.Text.{Bytes, codes, words}
use pushd.World.{World, set_client, dead, ForwardTuple}
use pushd.Client.{new_client, init_chat_env, load_user_info, update_mapping_table}
use pushd.Client
use pushd.Registry.{remove_client, add_client}
use pushd.Wire.{frame}
use pushd.Server.{on_accept, on_read, checked_command, run_command, deliver_reply}
use pushd.Wire.{new_cmdline, put_int32, slice, read_int32}
use pushd.Process.{process, process_command}
use pushd.Process.Identity.{set_uuid}
use pushd.Command.{command_of}
use pushd.Text.{split_at}
use pushd.Auth.{among}
use pushd.Engine.Kept.{Sound}
use pushd.Engine.Events.{accepted, set_up, received, waits, taken, step, Fresh, Ran, begun, went}
use pushd.Engine.Running.{Ran-Sound}
use pushd.Engine.Publication.{Ran-publish}
use pushd.Engine.Endings.{Ended, on_accept-Ended, step-Ended}
use pushd.Pubsub.{publish, client_msg}
use pushd.Pubsub.Delivery.{copies, recipients, members_of}
use pushd.Pubsub.Effects.{when, tuple_for_peers}
use pushd.Config.{is_dist_mode, enable_storage}
use pushd.Names.{output_rciv, s2s_push_string_message}
use pushd.External.{MsgTuple}
use pushd.Peer.{wait_msg}
use pushd.Tests.Memory.{here, office, memory_lru-laws, memory_map-laws}

abbrev morning : World here
morning = record office {
  online = λ u. none;
  rooms = λ c. none;
  next_collection = 0;
  clients = λ n. new_client;
}

morning-Fresh : Fresh here morning
morning-Fresh = record { offline = λ u. refl; uncached = λ k. refl; idle = refl }

abbrev hello : Bytes
hello = frame (codes "setuuid") (words (codes "1" ∷ codes "ann" ∷ []))

abbrev connected : World here
connected = (set_client here 0 new_client morning).1

abbrev greeted : World here
greeted = (on_read here false 0 hello connected).1

abbrev entered : World here
entered = (init_chat_env here 0 (record greeted { spawned = taken 0 greeted.spawned })).1

greeted_waits : greeted.spawned ≡ 0 ∷ []
unfolding on_read new_cmdline put_int32 slice read_int32 checked_command run_command process
    command_of process_command set_uuid split_at deliver_reply among set_client
greeted_waits = refl

step-set_up : step here false (set_up 0) greeted ≡ some entered
unfolding step waits
step-set_up = ap (λ b. if b then some entered else none) waiting
  where
    waiting : waits 0 greeted.spawned ≡ true
    waiting = ap (λ cs. waits 0 cs) greeted_waits

entered-Ran : Ran here false entered
unfolding step waits
entered-Ran =
    went (set_up 0) (went (received 0 hello) (went (accepted 0) (begun morning-Fresh) refl) refl)
      step-set_up

Ran-Sound_example : Sound here entered
Ran-Sound_example = Ran-Sound here (memory_lru-laws ℕ) (memory_map-laws ℕ) false entered entered-Ran

Ran-publish_example :
    (let v = (publish here (codes "room") (codes "hi") (codes "bob") (pos 7) false entered).1 in
      let text =
        client_msg here
          (codes "room")
          (codes "bob")
          (here.clock entered.reads)
          (pos 7)
          (codes "hi") in
      ((publish here (codes "room") (codes "hi") (codes "bob") (pos 7) false entered).0 ≡ done tt)
      × (v.sent
          ≡ entered.sent
            ++ copies here output_rciv text (
                recipients here entered.clients entered.online
                  (codes "bob")
                  (members_of here (codes "room") entered)))
      × (v.forwarded
          ≡ entered.forwarded
            ++ when here (is_dist_mode here.conf) (
                tuple_for_peers here entered s2s_push_string_message
                  (words (codes "room" ∷ text ∷ []))))
      × (v.queue
          ≡ entered.queue
            ++ when here (enable_storage here.conf) (record {
              channel = codes "room";
              msg = codes "hi";
              ts = here.clock entered.reads;
              uuid = codes "bob";
              msg_id = pos 7;
            })))
Ran-publish_example =
    Ran-publish here (memory_lru-laws ℕ) (memory_map-laws ℕ) false entered entered-Ran
      (codes "room") (codes "hi") (codes "bob") (pos 7)

abbrev letter : Bytes → MsgTuple
letter text = record {
  channel = codes "room";
  msg = text;
  ts = 5;
  uuid = codes "ann";
  msg_id = pos 1;
}

-- two messages wait for the storage, and one tuple for the proxy
abbrev busy : World here
busy = record office {
  queue = letter (codes "one") ∷ letter (codes "two") ∷ [];
  forwarded = record { peers = []; msg = codes "one"; cmd = codes "push" } ∷ [];
}

-- a client's message is read, and then each loop has a turn
abbrev heard : World here
heard = (on_read here false 1 hello busy).1

abbrev kept_one : World here
kept_one = record heard { queue = drop 1 heard.queue }

abbrev busy_later : World here
busy_later = (wait_msg here kept_one).1

abbrev kept : List MsgTuple
kept = ([] ++ take 1 heard.queue) ++ []

abbrev proxied_on : List ForwardTuple
proxied_on = [] ++ take 1 kept_one.forwarded

abbrev come : List MsgTuple
come = (drop (length busy.queue) heard.queue ++ []) ++ drop (length kept_one.queue) busy_later.queue

abbrev gone : List ForwardTuple
gone =
    (drop (length busy.forwarded) heard.forwarded
      ++ drop (length heard.forwarded) kept_one.forwarded)
    ++ []

on_accept-Ended_example :
    ((on_accept here false 0 (hello ∷ []) connected).0 ≡ panic)
    ⊎ Ended here 0 (on_accept here false 0 (hello ∷ []) connected).1
on_accept-Ended_example =
    on_accept-Ended here (memory_lru-laws ℕ) (memory_map-laws ℕ) false 0 (hello ∷ []) connected

-- every client has left
abbrev evening : World here
evening = record greeted {
  clients = λ n. record new_client { uuid = codes "ann"; closed = true; state = dead };
}

evening-step :
    step here false (set_up 0) evening
    ≡ some (init_chat_env here 0 (record evening { spawned = taken 0 evening.spawned })).1
unfolding step waits
evening-step =
    ap
      (λ b.
        if b
        then some (init_chat_env here 0 (record evening { spawned = taken 0 evening.spawned })).1
        else none)
      (ap (λ cs. waits 0 cs) greeted_waits)

-- the set-up of a client that has left while it waited
step-Ended_example :
    Ended here 0 (init_chat_env here 0 (record evening { spawned = taken 0 evening.spawned })).1
step-Ended_example =
    step-Ended here (memory_lru-laws ℕ) (memory_map-laws ℕ) false (set_up 0) 0 evening
      (init_chat_env here 0 (record evening { spawned = taken 0 evening.spawned })).1 refl
      (refl, refl) evening-step

entered_online : entered.online (codes "ann") ≡ some 0
unfolding on_read new_cmdline put_int32 slice read_int32 checked_command run_command process
    command_of process_command set_uuid split_at deliver_reply among set_client init_chat_env
    Client.set_up load_user_info update_mapping_table remove_client add_client taken
entered_online = refl
