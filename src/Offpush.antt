-- ===== src/Offpush.antt =====
-- Notifications to users who are offline (engine/offpush.go): the pool of senders, one sender's
-- `send`, and `CheckAndPush`. The service behind a sender is left out: `send` says what it is asked.
pub mod Pool
pub mod RoundRobin
pub mod Recipients
pub mod Filling
use pushd.Prelude.{
  ℕ, zero, suc, ◌+◌, ◌-◌, ◌*◌, ◌/◌, ◌%◌, ◌^◌, ◌≤◌, ◌<◌, ◌≡◌, ◌≢◌, ◌↔◌, ◌⊎◌, inl, inr, refl, sym, ap,
  ◌∙◌, subst, Bool, true, false, ◌&&◌, ◌||◌, not, Option, none, some, List, [], ◌∷◌, ◌++◌, map,
  append-nil, append_assoc, arith, ltb, leb, ◌==◌, if◌then◌else◌, ==_iff, ==_refl, Bool-cases,
  Option-cases, length, get_elem?, take, drop, replicate, length-append, take-append, drop-append,
  All, All-append, ℤ, pos, negsuc, Outcome, done, panic,
}
use pushd.Text.{Bytes, codes, same}
use pushd.External.{
  External, DbError, Field, absent, other_type, present, ChatRoom, Result, ok, err,
}
use pushd.World.{Run, World, pure, crash, ◌>>=◌, ◌>>◌, get_client}
use pushd.Registry.{get_online}
use pushd.Members.{load_user_ids_by_channel}
use Pool.{inc_int32}

-- the payload that is handed to `pushClient.Send`
pub record Push : Type 0 where
  pub aliases : List Bytes
  pub title : Bytes
  pub alert : Bytes

-- What `send` comes to: no push ids, an error of its own, one of the driver, or a call of the service,
-- whose error it returns.
pub data Sending : Type 0 where
  nothing : Sending
  refused : Bytes → Sending
  db_refused : DbError → Sending
  pushes : Push → Sending

abbrev text_of : Field Bytes → Bytes
text_of absent = []
text_of (other_type t) = t
text_of (present t) = t

-- the notice of a private room, or of a group; `userName.(string)` panics on another type
unfoldable pub notice : List Bytes → Bytes → ℤ → Field Bytes → Field Bytes → Outcome Sending
notice ids message k absent room = done (refused (codes "collection user has no field of userName"))
notice ids message (pos (suc zero)) (present name) room =
    done (pushes (record { aliases = ids; title = name; alert = message }))
notice ids message (pos (suc zero)) (other_type t) room = panic
notice ids message k name absent = done (refused (codes "collection chatroom has no field of name"))
notice ids message k name (other_type t) =
    done (refused (codes "field name in collection chatroom is not a string"))
notice ids message k name (present room) =
    done (pushes (record { aliases = ids; title = room; alert = text_of name ++ (58 ∷ message) }))

-- `initOffSenderPool`: a sender keeps nothing of its address but its place. `make` panics on a
-- negative capacity.
pub record SenderPool : Type 0 where
  pub pool : List Bytes
  pub baton : ℤ
  pub size : ℤ

-- `addrs[i%length]` for the places from `i` on
unfoldable pub fill_pool : List Bytes → ℕ → ℕ → List Bytes
fill_pool addrs i zero = []
fill_pool addrs i (suc n) =
    elim (get_elem? addrs (i % length addrs)) [ none ↦ [] | some a ↦ a ∷ [] ]
    ++ fill_pool addrs (i + 1) n

-- `int32(capacity)` of a capacity that is not negative
unfoldable pub to_int32 : ℕ → ℤ
to_int32 n =
    if ltb (n % 2 ^ 32) (2 ^ 31) then pos (n % 2 ^ 32) else negsuc (2 ^ 32 - 1 - n % 2 ^ 32)

-- the error is nil in `done (some p)`, and not in `done none`
unfoldable pub init_off_sender_pool : ℤ → List Bytes → Outcome (Option SenderPool)
unfolding fill_pool to_int32
init_off_sender_pool capacity [] = done none
init_off_sender_pool (negsuc n) (a ∷ as') = panic
init_off_sender_pool (pos n) (a ∷ as') =
    done (some (record { pool = fill_pool (a ∷ as') 0 n; baton = pos 0; size = to_int32 n }))

-- The goroutine that `CheckAndPush` starts: a call of `send` on the next sender.
pub record PushTask : Type 0 where
  pub ids : List Bytes
  pub message : Bytes
  pub owner_id : Bytes
  pub channel : Bytes

module _ (x : External) where
  send_known : List Bytes → Bytes → Bytes → ℤ → Field Bytes → x.mongo.Db → Outcome Sending
  unfolding notice
  send_known ids message owner_id k room d =
      if not (x.mongo.is_object_id_hex owner_id)
      then done (refused (codes "ownerId is invalid ObjectIdHex"))
      else elim (x.mongo.find_user_name owner_id d) [
        | err e ↦ done (db_refused e)
        | ok name ↦ notice ids message k name room
      ]

  send_room : List Bytes → Bytes → Bytes → Result ChatRoom → x.mongo.Db → Outcome Sending
  unfolding send_known
  send_room ids message owner_id (err e) d = done (db_refused e)
  send_room ids message owner_id (ok room) d = elim room.kind [
    | absent ↦ done (refused (codes "collection chatroom has no field of type"))
    | other_type t ↦ done (refused (codes "field type in collection chatroom is not a int"))
    | present k ↦ send_known ids message owner_id k room.name d
  ]

  -- `Sender.send`
  unfoldable pub send_push : List Bytes → Bytes → Bytes → Bytes → x.mongo.Db → Outcome Sending
  unfolding send_room
  send_push [] message owner_id channel_id d = done nothing
  send_push (id ∷ ids) message owner_id channel_id d =
      if not (x.mongo.is_object_id_hex channel_id)
      then done (refused (codes "channelId is invalid ObjectIdHex"))
      else send_room (id ∷ ids) message owner_id (x.mongo.find_chat_room channel_id d) d

  -- one round of the loop of `CheckAndPush`
  unfoldable pub push_id_of : Bytes → Bytes → Run x (List Bytes)
  unfolding get_online get_client
  push_id_of owner_id u_id = if same u_id owner_id then pure [] else (do
    found ← get_online x u_id
    elim found [
      | none ↦ pure []
      | some c ↦ (do
        client ← get_client x c
        pure (if client.is_allow_force_notify then client.push_id ∷ [] else []))
    ])

  -- the loop
  unfoldable pub push_ids_of : Bytes → List Bytes → Run x (List Bytes)
  push_ids_of owner_id [] = pure []
  push_ids_of owner_id (u ∷ us) = do
    mine ← push_id_of owner_id u
    rest ← push_ids_of owner_id us
    pure (mine ++ rest)

  unfoldable pub task_for : Bytes → Bytes → Bytes → List Bytes → Option PushTask
  task_for channel message owner_id [] = none
  task_for channel message owner_id (id ∷ ids) =
      some (record { ids = id ∷ ids; message = message; owner_id = owner_id; channel = channel })

  -- `CheckAndPush`; the result is the goroutine that it starts
  unfoldable pub check_and_push :
      Option SenderPool → Bytes → Bytes → Bytes → Run x (Option PushTask)
  unfolding task_for
  check_and_push none channel message owner_id = crash
  check_and_push (some p) channel message owner_id = do
    user_ids ← load_user_ids_by_channel x channel
    ids ← push_ids_of owner_id user_ids
    pure (task_for channel message owner_id ids)
