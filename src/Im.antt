-- ===== src/Im.antt =====
-- Chat rooms in the database (engine/im.go).
use pushd.Prelude.{
  ℕ, zero, suc, ◌+◌, ◌-◌, ◌*◌, ◌/◌, ◌%◌, ◌^◌, ◌≤◌, ◌<◌, ◌≡◌, ◌≢◌, ◌↔◌, ◌⊎◌, inl, inr, refl, sym, ap,
  ◌∙◌, subst, Bool, true, false, ◌&&◌, ◌||◌, not, Option, none, some, List, [], ◌∷◌, ◌++◌, map,
  append-nil, append_assoc, arith, ltb, leb, ◌==◌, if◌then◌else◌, ==_iff, Bool-cases, Option-cases,
  length, get_elem?, take, drop, replicate, length-append, take-append, drop-append, All,
  All-append, ℤ, pos, negsuc, Outcome, done, panic,
}
mod Order
pub mod RoomId
pub mod Agreement
use Order.{sort_strings}
use pushd.Text.{Bytes, codes, same, join}
use pushd.External.{
  External, DbError, Result, ok, err, not_found, insert_room, upsert_stat, upsert_channel,
  add_members, set_stats, upsert_channels, pull_members, remove_empty_room, unset_stats,
  pull_channels,
}
use pushd.World.{
  Action, World, Run, pure, crash, gets, modify, ◌>>=◌, ◌>>◌, or_crash, now_nanos, query, write,
}

module _ {S : Type 0} where
  -- `if err != nil { return err }`
  abbrev pub unless_failed : Option DbError → Action S (Option DbError) → Action S (Option DbError)
  unless_failed (some e) rest = pure (some e)
  unless_failed none rest = rest

module _ (x : External) where
  -- `createRoom`; what it does with the user's client is `Subscribe`, which does nothing
  unfoldable pub create_room : Bytes → Bytes → Run x (Option DbError)
  unfolding write now_nanos
  create_room user_id channel_id = do
    e ← write x (insert_room channel_id (user_id ∷ []))
    unless_failed e (do
      ts ← now_nanos x
      e2 ← write x (upsert_stat user_id channel_id ts)
      unless_failed e2 (write x (upsert_channel user_id channel_id)))

  -- `joinRoom`
  unfoldable pub join_room : Bytes → List Bytes → Run x (Option DbError)
  unfolding write now_nanos
  join_room channel_id user_ids = do
    e ← write x (add_members channel_id user_ids)
    unless_failed e (do
      ts ← now_nanos x
      e2 ← write x (set_stats user_ids channel_id ts)
      unless_failed e2
          (do e3 ← write x (upsert_channels user_ids channel_id); unless_failed e3 (pure none)))

  -- `leaveRoom`: the errors of `Remove` and of the first bulk write are not returned
  unfoldable pub leave_room : Bytes → List Bytes → Run x (Option DbError)
  unfolding write
  leave_room channel_id user_ids = do
    e ← write x (pull_members channel_id user_ids)
    unless_failed e (do
      write x (remove_empty_room channel_id)
      write x (unset_stats user_ids channel_id)
      write x (pull_channels user_ids channel_id))

  -- `disolveRoom`
  unfoldable pub disolve_room : Bytes → Run x (Option DbError)
  unfolding query
  disolve_room channel_id = do
    found ← query x (x.mongo.find_uuids channel_id)
    elim found [
      | err e ↦ pure (some e)
      | ok uuids ↦ (do user_ids ← or_crash uuids; leave_room channel_id user_ids)
    ]

-- `roomid2Channelid`
abbrev pub roomid_to_channelid : Bytes → Bytes
roomid_to_channelid roomid = roomid

-- `generateRoomIdByUuidList`
unfoldable pub generate_room_id : List Bytes → Bytes
unfolding sort_strings
generate_room_id uuids = codes "pri_" ++ join (codes "_") (sort_strings uuids)
