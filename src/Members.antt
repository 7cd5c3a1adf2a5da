-- ===== src/Members.antt =====
-- `ChannelToUserIds` and its loaders (engine/offpush.go): the members of a chat room, cached. The
-- cache holds the addresses of collections, so that a change through one address is seen by all.
pub mod Cache
pub mod Updates
use pushd.Prelude.{
  ℕ, ◌+◌, Bool, true, false, Option, none, some, List, [], ◌∷◌, ◌++◌, length, replicate, done,
}
use pushd.Text.{Bytes}
use pushd.External.{External, ok, err}
use pushd.World.{Run, pure, gets, modify, ◌>>=◌, ◌>>◌, update, query}

module _ (x : External) where
  -- `newUserIdCollection`
  unfoldable pub new_user_id_collection : Run x ℕ
  new_user_id_collection w = (
    done w.next_collection,
    record w {
      collections = update w.collections w.next_collection x.id_sets.empty;
      next_collection = w.next_collection + 1;
    },
  )

  -- `addNewKeyEmptyValue`
  unfoldable pub add_new_key_empty_value : Bytes → Run x ℕ
  unfolding new_user_id_collection
  add_new_key_empty_value channel = do
    fresh ← new_user_id_collection
    λ w. let (r, s) = x.rooms.get_or_add channel fresh w.rooms in (done r, record w { rooms = s })

  -- `getValue`
  unfoldable pub get_value : Bytes → Run x (Option ℕ)
  get_value channel w = let (r, s) = x.rooms.get channel w.rooms in (done r, record w { rooms = s })

  -- the collection of a channel, added when it is not there
  unfoldable pub value_or_new : Bytes → Run x ℕ
  unfolding get_value add_new_key_empty_value
  value_or_new channel = do
    found ← get_value channel
    elim found [ some r ↦ pure r | none ↦ add_new_key_empty_value channel ]

  unfoldable pub change : ℕ → (x.id_sets.State → x.id_sets.State) → Run x (Unit {0})
  change r f = modify (λ w. record w { collections = update w.collections r (f (w.collections r)) })

  -- `AddUserId`
  unfoldable pub add_user_id : Bytes → Bytes → Run x (Unit {0})
  unfolding value_or_new change
  add_user_id channel user_id = do r ← value_or_new channel; change r (x.id_sets.add user_id)

  -- the loop of `AddAllUserIds`
  unfoldable pub add_each : List Bytes → x.id_sets.State → x.id_sets.State
  add_each [] s = s
  add_each (u ∷ us) s = add_each us (x.id_sets.add u s)

  -- `AddAllUserIds`
  unfoldable pub add_all_user_ids : Bytes → List Bytes → Run x (Unit {0})
  unfolding value_or_new change
  add_all_user_ids channel fresh_user_ids = do
    r ← value_or_new channel
    change r (add_each fresh_user_ids)

  -- `RemoveUserId`
  unfoldable pub remove_user_id : Bytes → Bytes → Run x (Unit {0})
  unfolding get_value change
  remove_user_id channel user_id = do
    found ← get_value channel
    elim found [ none ↦ pure tt | some r ↦ change r (x.id_sets.remove user_id) ]

  -- the list that `GetUserIdsByChannel` builds: `make([]string, n)` holds n empty texts, and each
  -- member is appended behind them
  unfoldable pub items : x.id_sets.State → List Bytes
  items s = replicate (length (x.id_sets.elements s)) [] ++ x.id_sets.elements s

  -- `GetUserIdsByChannel`
  unfoldable pub get_user_ids_by_channel : Bytes → Run x (Option (List Bytes))
  unfolding get_value
  get_user_ids_by_channel channel = do
    found ← get_value channel
    elim found [ none ↦ pure none | some r ↦ gets (λ w. some (items (w.collections r))) ]

  -- `Exists`
  unfoldable pub exists_room : Bytes → Run x Bool
  unfolding get_user_ids_by_channel
  exists_room channel = do
    found ← get_user_ids_by_channel channel
    elim found [ none ↦ pure false | some _ ↦ pure true ]

  -- `LruCache.Del`
  unfoldable pub del_room : Bytes → Run x (Unit {0})
  del_room channel = modify (λ w. record w { rooms = x.rooms.del channel w.rooms })

  -- `LoadUserIdsFromDatabase`; `none` is its error
  unfoldable pub load_user_ids_from_database : Bytes → Run x (Option (List Bytes))
  unfolding query
  load_user_ids_from_database channel = do
    found ← query x (x.mongo.find_uuids channel)
    elim found [
      | err _ ↦ pure none
      | ok none ↦ pure none
      | ok (some user_ids) ↦ (do add_all_user_ids channel user_ids; pure (some user_ids))
    ]

  -- `LoadUserIdsByChannel`
  unfoldable pub load_user_ids_by_channel : Bytes → Run x (List Bytes)
  load_user_ids_by_channel channel = do
    cached ← get_user_ids_by_channel channel
    elim cached [
      | some user_ids ↦ pure user_ids
      | none ↦ (do
        loaded ← load_user_ids_from_database channel
        elim loaded [ some user_ids ↦ pure user_ids | none ↦ pure [] ])
    ]
