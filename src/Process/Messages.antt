-- ===== src/Process/Messages.antt =====
-- The cases of `Process` that publish, acknowledge or retract messages (engine/cmd_interface.go).
pub mod Sending
use pushd.Prelude.{
  ℕ, zero, suc, true, false, Option, none, some, List, [], ◌∷◌, ◌++◌, if◌then◌else◌, take, ℤ,
}
use pushd.Text.{Bytes, codes, same, split_n, words, space}
use pushd.Text.Number.{dec, dec_int, parse_int64}
use pushd.Names.{code_success, code_param_error, code_failed, code_server_error}
use pushd.External.{External, not_found, last_error, other, ok, err, remove_msg}
use pushd.World.{Run, pure, ◌>>=◌, ◌>>◌, get_client, now_nanos, query, write}
use pushd.Pubsub.{publish, publish_bin_msg, subscribe, unsubscribe}
use pushd.Client.{ack_msg}
use pushd.S2s.{space_index}
use pushd.Process.Replies.{Reply, answer, success, lacked}

module _ (x : External) where
  -- `"%d %d %d"` with the code, the message id and the time
  abbrev pub stamped : ℤ → Run x Reply
  stamped msg_id = do t ← now_nanos x; answer code_success (words (dec_int msg_id ∷ dec t ∷ []))

  unfoldable pub send_parsed : ℕ → Bytes → Bytes → Bytes → Option ℤ → Run x Reply
  unfolding get_client query
  send_parsed c is_resend channel msg none =
      answer code_param_error (codes "param error, msgId cannot be parse")
  send_parsed c is_resend channel msg (some msg_id) = do
    cl ← get_client x c
    hit ←
        if same is_resend (codes "Y")
        then query x (x.mongo.find_msg channel cl.uuid msg_id)
        else pure (err not_found)
    elim hit [
      | ok _ ↦ stamped msg_id
      | err _ ↦ (do publish x channel msg cl.uuid msg_id false; stamped msg_id)
    ]

  unfoldable pub send_params : ℕ → List Bytes → Run x Reply
  unfolding send_parsed
  send_params c (is_resend ∷ channel ∷ temp_msg_id ∷ msg ∷ []) =
      send_parsed c is_resend channel msg (parse_int64 temp_msg_id)
  send_params c _ = lacked

  -- `CMD_SENDMSG`
  unfoldable pub send_msg : ℕ → Bytes → Run x Reply
  unfolding send_params
  send_msg c params = send_params c (split_n params 4)

  unfoldable pub vido_channel : ℕ → Bytes → ℕ → Run x Reply
  unfolding get_client
  vido_channel c params2 zero = lacked
  vido_channel c params2 (suc i) = do
    cl ← get_client x c
    subscribe x c (take (suc i) params2)
    publish_bin_msg x (take (suc i) params2) cl.uuid (cl.uuid ++ (space ∷ params2)) true
    success

  -- `CMD_VIDO_CHAT`; a client's `Channels` is not written by anything, and `Subscribe` does nothing
  unfoldable pub vido_chat : ℕ → Bytes → Run x Reply
  unfolding vido_channel
  vido_chat c params2 = vido_channel c params2 (space_index 0 params2)

  unfoldable pub ack_parsed : ℕ → Bytes → Option ℤ → Option ℤ → Run x Reply
  ack_parsed c channel_id none ts =
      answer code_param_error (codes "param error, msgId cannot be parse")
  ack_parsed c channel_id (some msg_id) none =
      answer code_param_error (codes "param error, ts cannot be parse")
  ack_parsed c channel_id (some msg_id) (some ts) = do ack_msg x c ts channel_id; success

  unfoldable pub ack_params : ℕ → List Bytes → Run x Reply
  unfolding ack_parsed
  ack_params c (channel_id ∷ msg_id ∷ ts ∷ owner_id ∷ []) =
      ack_parsed c channel_id (parse_int64 msg_id) (parse_int64 ts)
  ack_params c _ = lacked

  -- `CMD_ACK_MSG`
  unfoldable pub ack : ℕ → Bytes → Run x Reply
  unfolding ack_params
  ack c params = ack_params c (split_n params 4)

  -- `CMD_SUBSCRIBE`
  unfoldable pub subscribe_cmd : ℕ → Bytes → Run x Reply
  subscribe_cmd c params = if same params [] then lacked else (do subscribe x c params; success)

  unfoldable pub publish_parsed : ℕ → Bytes → Bytes → Option ℤ → Run x Reply
  unfolding get_client
  publish_parsed c channel msg none =
      answer code_param_error (codes "param error, msgId cannot be parse")
  publish_parsed c channel msg (some msg_id) = do
    cl ← get_client x c
    publish x channel msg cl.uuid msg_id false
    success

  unfoldable pub publish_params : ℕ → List Bytes → Run x Reply
  unfolding publish_parsed
  publish_params c (channel ∷ msg_id ∷ msg ∷ []) =
      if same msg [] then lacked else publish_parsed c channel msg (parse_int64 msg_id)
  publish_params c _ = lacked

  -- `CMD_PUBLISH`
  unfoldable pub publish_cmd : ℕ → Bytes → Run x Reply
  unfolding publish_params
  publish_cmd c params = publish_params c (split_n params 3)

  unfoldable pub unsubscribe_params : ℕ → List Bytes → Run x Reply
  unsubscribe_params c [] = lacked
  unsubscribe_params c (channel ∷ rest) =
      if same channel [] then lacked else (do unsubscribe x c channel; success)

  -- `CMD_UNSUBSCRIBE`
  unfoldable pub unsubscribe_cmd : ℕ → Bytes → Run x Reply
  unfolding unsubscribe_params
  unsubscribe_cmd c params = unsubscribe_params c (split_n params 2)

  -- an error that is neither a `LastError` nor `ErrNotFound` is passed over
  unfoldable pub announce_retract : ℕ → Bytes → ℤ → ℤ → Run x Reply
  unfolding get_client
  announce_retract c channel msg_id new_msg_id = do
    cl ← get_client x c
    publish x channel (words (codes "[del]" ∷ cl.uuid ∷ dec_int msg_id ∷ [])) cl.uuid new_msg_id
        false
    success

  unfoldable pub retract_parsed : ℕ → Bytes → Option ℤ → Option ℤ → Run x Reply
  unfolding get_client write announce_retract
  retract_parsed c channel none new_msg_id = answer code_param_error (codes "msgId can not parse")
  retract_parsed c channel (some msg_id) none = answer code_param_error (codes "param error")
  retract_parsed c channel (some msg_id) (some new_msg_id) = do
    cl ← get_client x c
    e ← write x (remove_msg channel cl.uuid msg_id)
    elim e [
      | some (last_error t) ↦ answer code_server_error (x.mongo.error_text (last_error t))
      | some not_found ↦ answer code_failed (codes "not found")
      | some (other t) ↦ announce_retract c channel msg_id new_msg_id
      | none ↦ announce_retract c channel msg_id new_msg_id
    ]

  unfoldable pub retract_params : ℕ → List Bytes → Run x Reply
  unfolding retract_parsed
  retract_params c (channel ∷ msg_id ∷ new_msg_id ∷ []) =
      retract_parsed c channel (parse_int64 msg_id) (parse_int64 new_msg_id)
  retract_params c _ = lacked

  -- `CMD_RETRACT_MESSAGE`
  unfoldable pub retract_message : ℕ → Bytes → Run x Reply
  unfolding retract_params
  retract_message c params = if same params [] then lacked else retract_params c (split_n params 3)
