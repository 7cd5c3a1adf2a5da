-- ===== src/Process/Rooms.antt =====
-- The cases of `Process` about chat rooms (engine/cmd_interface.go).
use pushd.Prelude.{ℕ, Bool, true, false, Option, none, some, List, [], ◌∷◌, ◌++◌, if◌then◌else◌}
use pushd.Text.{Bytes, codes, same, split, words}
use pushd.Text.Number.{dec}
use pushd.Names.{code_param_error, code_failed, code_server_error, with_code}
use pushd.External.{External, DbError, not_found, ok, err}
use pushd.World.{Run, pure, crash, ◌>>=◌, ◌>>◌, get_client, query, for_each}
use pushd.Members.{
  exists_room, add_all_user_ids, remove_user_id, del_room, load_user_ids_from_database,
}
use pushd.Im.{
  create_room, join_room, leave_room, disolve_room, roomid_to_channelid, generate_room_id,
}
use pushd.Process.Replies.{Reply, answer, success}

module _ (x : External) where
  -- `return fmt.Sprintf("%d %s", CODE_FAILED, err.Error()), nil`
  abbrev pub failed_with : DbError → Run x Reply
  failed_with e = answer code_failed (x.mongo.error_text e)

  -- an error is answered; without one the rest runs
  abbrev pub or_fail : Option DbError → Run x Reply → Run x Reply
  or_fail (some e) rest = failed_with e
  or_fail none rest = rest

  -- The first round of the loop of `CMD_CREATEROOM` returns, whatever `joinRoom` returned:
  -- `err.Error()` on a nil error panics.
  unfoldable pub invite_first : Bytes → List Bytes → Run x Reply
  invite_first channel_id [] = success
  invite_first channel_id (uuid ∷ rest) = do
    e ← join_room x channel_id (uuid ∷ [])
    elim e [ some d ↦ failed_with d | none ↦ crash ]

  -- `CMD_CREATEROOM`
  unfoldable pub create_room_cmd : ℕ → Bytes → Run x Reply
  unfolding get_client invite_first
  create_room_cmd c params = do
    cl ← get_client x c
    let channel_id = roomid_to_channelid (generate_room_id (split params ++ cl.uuid ∷ []))
    e ← create_room x cl.uuid channel_id
    or_fail e (invite_first channel_id (split params))

  -- the test on `params[0]` that `CMD_JOINROOM` and `CMD_LEAVEROOM` share
  unfoldable pub room_param : List Bytes → (Bytes → Run x Reply) → Run x Reply
  room_param [] k = answer code_param_error (codes "param error")
  room_param (room ∷ rest) k =
      if same room [] then answer code_param_error (codes "param error") else k room

  -- `CMD_JOINROOM`
  unfoldable pub join_room_cmd : ℕ → Bytes → Run x Reply
  unfolding get_client room_param
  join_room_cmd c params = room_param (split params) λ room. do
    cl ← get_client x c
    e ← join_room x (roomid_to_channelid room) (cl.uuid ∷ [])
    or_fail e success

  -- `CMD_LEAVEROOM`, with the arguments of `leaveRoom` in the order of the source
  unfoldable pub leave_room_cmd : ℕ → Bytes → Run x Reply
  unfolding get_client room_param
  leave_room_cmd c params = room_param (split params) λ room. do
    cl ← get_client x c
    e ← leave_room x cl.uuid (roomid_to_channelid room ∷ [])
    or_fail e success

  -- the loops that look every user up; `none` when all are there
  unfoldable pub check_users : Bool → List Bytes → Run x (Option Reply)
  unfolding query
  check_users tell [] = pure none
  check_users tell (user_id ∷ rest) = do
    found ← query x (x.mongo.find_user user_id)
    elim found [
      | ok _ ↦ check_users tell rest
      | err not_found ↦ pure (
          some (
            words (dec code_failed ∷ (codes "userId:" ++ user_id) ∷ codes "is not exists" ∷ []),
            none,
          ))
      | err e ↦ pure (
          some (
            with_code code_server_error
                (if tell then x.mongo.error_text e else codes "server error"),
            none,
          ))
    ]

  abbrev pub or_reply : Option Reply → Run x Reply → Run x Reply
  or_reply (some r) rest = pure r
  or_reply none rest = rest

  -- the loop that joins users one by one, up to the first error
  unfoldable pub join_each : Bytes → List Bytes → Run x (Option DbError)
  join_each channel_id [] = pure none
  join_each channel_id (u ∷ us) = do
    e ← join_room x channel_id (u ∷ [])
    elim e [ some d ↦ pure (some d) | none ↦ join_each channel_id us ]

  -- the members that are cached, or loaded again
  unfoldable pub refresh_members : Bytes → List Bytes → Run x (Unit {0})
  refresh_members channel_id user_ids = do
    known ← exists_room x channel_id
    if known
        then add_all_user_ids x channel_id user_ids
        else (do load_user_ids_from_database x channel_id; pure tt)

  unfoldable pub add_user_params : List Bytes → Run x Reply
  unfolding check_users join_each refresh_members query
  add_user_params (channel_id ∷ u ∷ us) = do
    room ← query x (x.mongo.find_uuids channel_id)
    elim room [
      | err not_found ↦ answer code_failed (codes "channelId is not exists")
      | err e ↦ answer code_server_error (x.mongo.error_text e)
      | ok _ ↦ (do
        missing ← check_users true (u ∷ us)
        or_reply missing (do
          e ← join_each channel_id (u ∷ us)
          or_fail e (do refresh_members channel_id (u ∷ us); success)))
    ]
  add_user_params _ = answer code_param_error (codes "param wrong")

  -- `CMD_ADD_USER_INTO_ROOM`
  unfoldable pub add_user_into_room : Bytes → Run x Reply
  unfolding add_user_params
  add_user_into_room params = add_user_params (split params)

  unfoldable pub subs_params : List Bytes → Run x Reply
  unfolding check_users join_each query
  subs_params (name ∷ channel_id ∷ owner_id ∷ us) = do
    missing ← check_users false (owner_id ∷ us)
    or_reply missing (do
      room ← query x (x.mongo.find_uuids channel_id)
      elim room [
        | ok _ ↦ answer code_failed (codes "channelId has been exists")
        | err _ ↦ (do
          e ← create_room x owner_id channel_id
          or_fail e (do e2 ← join_each channel_id us; or_fail e2 success))
      ])
  subs_params _ = answer code_param_error (codes "param wrong")

  -- `CMD_SUBS`
  unfoldable pub subs : Bytes → Run x Reply
  unfolding subs_params
  subs params = subs_params (split params)

  unfoldable pub unsubs_params : List Bytes → Run x Reply
  unsubs_params (channel_id ∷ u ∷ us) = do
    e ← leave_room x channel_id (u ∷ us)
    or_fail e (do
      known ← exists_room x channel_id
      if known then for_each (remove_user_id x channel_id) (u ∷ us) else pure tt
      success)
  unsubs_params _ = answer code_param_error (codes "param wrong")

  -- `CMD_UNSUBS`
  unfoldable pub unsubs : Bytes → Run x Reply
  unfolding unsubs_params
  unsubs params = unsubs_params (split params)

  -- `CMD_DISOLVE`
  unfoldable pub disolve : Bytes → Run x Reply
  disolve params =
      if same params []
      then answer code_param_error (codes "param wrong")
      else (do e ← disolve_room x params; or_fail e (do del_room x params; success))
