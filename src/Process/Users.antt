-- ===== src/Process/Users.antt =====
-- The cases of `Process` about users, their notices and their history (engine/cmd_interface.go), with
-- `fetchByChannelAndTs` (engine/storage/storage_mgo.go).
use pushd.Prelude.{ℕ, ◌||◌, not, Option, none, some, List, [], ◌∷◌, if◌then◌else◌, ℤ}
use pushd.Text.{Bytes, codes, same, split}
use pushd.Text.Number.{parse_int64}
use pushd.Names.{code_success, code_param_error, code_failed, code_server_error}
use pushd.External.{External, not_found, ok, err, MsgTuple, set_push_id, insert_user}
use pushd.World.{Run, Client, pure, crash, ◌>>=◌, ◌>>◌, get_client, query, write, or_crash}
use pushd.Registry.{get_online}
use pushd.Client.{on_client}
use pushd.Process.Replies.{Reply, answer, success, lacked, param}

module _ (x : External) where
  -- the client that is online for a user is changed
  unfoldable pub on_online : Bytes → (Client → Client) → Run x (Unit {0})
  unfolding get_online on_client
  on_online user_id f = do
    found ← get_online x user_id
    elim found [ none ↦ pure tt | some c ↦ on_client x c f ]

  -- `CMD_UPDATE_OR_ADD_PUSH_ID`
  unfoldable pub update_push_id : Bytes → Run x Reply
  unfolding query write on_online
  update_push_id params = do
    user_id ← param (split params) 0
    push_id ← param (split params) 1
    if same user_id [] || same push_id [] then lacked else (do
      found ← query x (x.mongo.find_user user_id)
      elim found [
        | err not_found ↦ answer code_failed (codes "userId not found")
        | err _ ↦ answer code_server_error (codes "server error")
        | ok _ ↦ (do
          e ← write x (set_push_id user_id push_id)
          elim e [
            | some _ ↦ answer code_server_error (codes "server error")
            | none ↦ (do on_online user_id (λ cl. record cl { push_id = push_id }); success)
          ])
      ])

  -- `CMD_SET_OFF_NOTIFY`
  unfoldable pub set_off_notify : Bytes → Run x Reply
  unfolding on_online
  set_off_notify params = do
    user_id ← param (split params) 0
    allow ← param (split params) 1
    if same user_id [] || same allow [] then lacked else (do
      on_online user_id (λ cl. record cl { is_allow_force_notify = same allow (codes "1") })
      success)

  -- `CMD_CREATE_USER`
  unfoldable pub create_user : Bytes → Run x Reply
  unfolding query write
  create_user params = if same params [] then lacked else (do
    found ← query x (x.mongo.find_user params)
    elim found [
      | ok _ ↦ answer code_failed (codes "userId has been exists")
      | err _ ↦ (do
        e ← write x (insert_user params)
        elim e [ some d ↦ answer code_failed (x.mongo.error_text d) | none ↦ success ])
    ])

  -- the loop of `CMD_OFFLINE_MSG`: a channel is in the result when it has messages
  unfoldable pub collect_offline : Bytes → List (Bytes × ℤ) → Run x (List (Bytes × List MsgTuple))
  unfolding query
  collect_offline uuid [] = pure []
  collect_offline uuid ((channel, ts) ∷ rest) = do
    found ← query x (x.mongo.find_msgs channel ts (some uuid))
    others ← collect_offline uuid rest
    pure (elim found [ err _ ↦ others | ok [] ↦ others | ok (m ∷ ms) ↦ (channel, m ∷ ms) ∷ others ])

  -- `CMD_OFFLINE_MSG`
  unfoldable pub offline_msg : ℕ → Run x Reply
  unfolding get_client query collect_offline
  offline_msg c = do
    cl ← get_client x c
    found ← query x (x.mongo.find_user cl.uuid)
    elim found [
      | err _ ↦ pure (codes "{}", none)
      | ok user ↦ (do
        stat ← or_crash user.channel_stat
        inbox ← collect_offline cl.uuid stat
        pure (x.codec.inbox_json inbox, none))
    ]

  -- `fullHistory` and `fetchByChannelAndTs`: nil for an empty channel. Without the driver for
  -- "mongodb" the call goes through a nil interface.
  unfoldable pub full_history : Bytes → ℤ → Run x (Option (List MsgTuple))
  unfolding query
  full_history channel ts =
      if not (same x.conf.msg_storage (codes "mongodb"))
      then crash
      else if same channel []
      then pure none
      else (do
        found ← query x (x.mongo.find_msgs channel ts none)
        pure (elim found [ err _ ↦ some [] | ok msgs ↦ some msgs ]))

  unfoldable pub history_parsed : Bytes → Option ℤ → Run x Reply
  unfolding full_history
  history_parsed channel none = answer code_param_error (codes "time cannot be parse")
  history_parsed channel (some ts) = do
    his_ret ← full_history channel ts
    answer code_success (x.codec.msgs_json his_ret)

  unfoldable pub history_params : List Bytes → Run x Reply
  unfolding history_parsed
  history_params (channel ∷ ts ∷ rest) = history_parsed channel (parse_int64 ts)
  history_params _ = lacked

  -- `CMD_HISTORY`
  unfoldable pub history : Bytes → Run x Reply
  unfolding history_params
  history params = history_params (split params)
