-- ===== src/Storage/Binding.antt =====
-- The second queue of the storage (engine/storage/storage.go, engine/storage/storage_mgo.go): users
-- that are bound to a channel or taken from it.
pub mod Rooms
use pushd.Prelude.{
  ℕ, zero, suc, ◌+◌, ◌-◌, ◌*◌, ◌/◌, ◌%◌, ◌^◌, ◌≤◌, ◌<◌, ◌≡◌, ◌≢◌, ◌↔◌, ◌⊎◌, inl, inr, refl, sym, ap,
  ◌∙◌, subst, Bool, true, false, ◌&&◌, ◌||◌, not, Option, none, some, List, [], ◌∷◌, ◌++◌, map,
  append-nil, append_assoc, arith, ltb, leb, ◌==◌, if◌then◌else◌, ==_iff, ==_refl, Bool-cases,
  Option-cases, length, get_elem?, get_elem?_of_lt, take, drop, replicate, length-append,
  take-append, drop-append, All, All-append, ℤ, pos, negsuc, Outcome, done, panic,
}
use pushd.Text.{Bytes, codes, same}
use pushd.External.{
  External, DbError, Write, add_members, insert_named_room, pull_members, remove_empty_room,
  upsert_channels, pull_channels, set_stats, unset_stats,
}
use pushd.World.{Run, World, pure, ◌>>=◌, ◌>>◌, write, now_nanos}

-- an error of the driver's method: its own, or one of the database
pub data BindError : Type 0 where
  invalid : Bytes → BindError
  failed : DbError → BindError

abbrev pub failed_with : Option DbError → Option BindError
failed_with none = none
failed_with (some e) = some (failed e)

pub record ChanUuidsTuple : Type 0 where
  pub channel_id : Bytes
  pub channel_name : Bytes
  pub uuids : List Bytes
  pub is_del : Bool

-- the write to `channel_uuids` of `bindUuidToChannel`
unfoldable pub binding : Bytes → Bytes → List Bytes → Write
binding channel_name channel_id uuids =
    if same channel_name []
    then add_members channel_id uuids
    else insert_named_room channel_name channel_id uuids

module _ (x : External) where
  -- the bulk writes of `bindUuidToChannel`; the error of the second replaces that of the first
  bind_users : Bytes → List Bytes → ℕ → Option DbError → Run x (Option BindError)
  unfolding write
  bind_users channel_id uuids ts (some e) = pure (some (failed e))
  bind_users channel_id uuids ts none = do
    write x (upsert_channels uuids channel_id)
    e ← write x (set_stats uuids channel_id ts)
    pure (failed_with e)

  -- `bindUuidToChannel`
  unfoldable pub bind_uuid_to_channel : Bytes → Bytes → List Bytes → Run x (Option BindError)
  unfolding write now_nanos binding bind_users
  bind_uuid_to_channel channel_name channel_id [] =
      if same channel_id []
      then pure (some (invalid (codes "channelId is empty")))
      else pure (some (invalid (codes "uuids are empty")))
  bind_uuid_to_channel channel_name channel_id (u ∷ us) =
      if same channel_id [] then pure (some (invalid (codes "channelId is empty"))) else (do
        e ← write x (binding channel_name channel_id (u ∷ us))
        ts ← now_nanos x
        bind_users channel_id (u ∷ us) ts e)

  -- the bulk writes of `rmUuidFromChannel`, likewise
  remove_users : Bytes → List Bytes → Option DbError → Run x (Option BindError)
  unfolding write
  remove_users channel_id uuids (some e) = pure (some (failed e))
  remove_users channel_id uuids none = do
    write x (pull_channels uuids channel_id)
    e ← write x (unset_stats uuids channel_id)
    pure (failed_with e)

  -- `rmUuidFromChannel`; the error of `Remove` is dropped
  unfoldable pub rm_uuid_from_channel : Bytes → List Bytes → Run x (Option BindError)
  unfolding write remove_users
  rm_uuid_from_channel channel_id [] =
      if same channel_id []
      then pure (some (invalid (codes "channel is empty")))
      else pure (some (invalid (codes "uuids is empty")))
  rm_uuid_from_channel channel_id (u ∷ us) =
      if same channel_id [] then pure (some (invalid (codes "channel is empty"))) else (do
        e ← write x (pull_members channel_id (u ∷ us))
        write x (remove_empty_room channel_id)
        remove_users channel_id (u ∷ us) e)

  -- one round of the goroutine of `Serv` that receives from `chanUuidsQueue`
  unfoldable pub serve_chan_uuids : ChanUuidsTuple → Run x (Unit {0})
  unfolding bind_uuid_to_channel rm_uuid_from_channel
  serve_chan_uuids cu =
      if cu.is_del
      then (do rm_uuid_from_channel cu.channel_id cu.uuids; pure tt)
      else (do bind_uuid_to_channel cu.channel_name cu.channel_id cu.uuids; pure tt)
