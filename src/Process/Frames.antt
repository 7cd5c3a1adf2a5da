-- ===== src/Process/Frames.antt =====
-- The cases of `Process` about calls (engine/cmd_interface.go): a call has a document in
-- `unstable_info`, whose id is its channel, and `activeUser` lists who is in it.
use pushd.Prelude.{
  ℕ, Bool, true, false, not, Option, none, some, List, [], ◌∷◌, ◌==◌, if◌then◌else◌, ℤ,
}
use pushd.Text.{Bytes, codes, same, split, words}
use pushd.Text.Number.{dec_int, parse_int64}
use pushd.Names.{
  code_success, code_failed, output_frame_chat, output_rciv, unstable_info_type_frame_chat,
}
use pushd.External.{
  External, ok, err, Unstable, insert_unstable, push_frames, remove_unstable, push_active,
  remove_idle,
}
use pushd.World.{
  Run, pure, ◌>>=◌, ◌>>◌, get_client, query, write, or_crash, for_each, now_secs, draw, send,
}
use pushd.Members.{add_user_id, remove_user_id}
use pushd.Pubsub.{publish_str_msg}
use pushd.Client.{fetch_uuids_about_channel, dismiss_frame, pull_active}
use pushd.Process.Replies.{Reply, answer, success, lacked}

module _ (x : External) where
  -- `"%s %s %d %s %s"`: the notice of a step in a call
  abbrev pub frame_notice : Bytes → Bytes → Bytes → Bytes
  frame_notice step uuid channel_id =
      words (output_frame_chat ∷ step ∷ codes "-1" ∷ uuid ∷ channel_id ∷ [])

  -- the notice of an invitation: with its type, its proposer, and both channels
  abbrev pub apply_notice : ℤ → Bytes → Bytes → Bytes → Bytes
  apply_notice subtype proposer new_channel old_channel = words (
      output_frame_chat
      ∷ codes "frame_apply"
      ∷ dec_int subtype
      ∷ proposer
      ∷ new_channel
      ∷ old_channel
      ∷ [])

  -- the bulk write to the users of the old channel, and what follows it
  unfoldable pub invite_users : Bytes → Bytes → Bytes → ℤ → Run x Reply
  unfolding write
  invite_users uuid object_id old_channel main_type = do
    uuids ← fetch_uuids_about_channel x old_channel
    e ← write x (push_frames uuids object_id)
    elim e [
      | some _ ↦ (do write x (remove_unstable object_id); answer code_failed (codes "500"))
      | none ↦ (do
        add_user_id x object_id uuid
        publish_str_msg x old_channel (apply_notice main_type uuid object_id old_channel) uuid true
        answer code_success object_id)
    ]

  unfoldable pub start_call : Bytes → Bytes → ℤ → Run x Reply
  unfolding write draw now_secs invite_users
  start_call uuid old_channel main_type = do
    object_id ← draw x x.new_object_id
    now ← now_secs x
    let info : Unstable = record {
      kind = unstable_info_type_frame_chat;
      subtype = main_type;
      proposer = uuid;
      channel_id = old_channel;
      active_user = uuid ∷ [];
      id = object_id;
    }
    e ← write x (insert_unstable info now)
    elim e [
      | some _ ↦ answer code_failed (codes "10001")
      | none ↦ invite_users uuid object_id old_channel main_type
    ]

  unfoldable pub apply_parsed : ℕ → Bytes → Option ℤ → Run x Reply
  unfolding get_client query start_call
  apply_parsed c old_channel none = lacked
  apply_parsed c old_channel (some main_type) = do
    cl ← get_client x c
    found ← query x (x.mongo.find_unstable_of old_channel)
    elim found [
      | ok info ↦
          answer code_failed (if same info.proposer cl.uuid then codes "10002" else codes "10001")
      | err _ ↦ start_call cl.uuid old_channel main_type
    ]

  unfoldable pub apply_params : ℕ → List Bytes → Run x Reply
  unfolding apply_parsed
  apply_params c (main_type ∷ old_channel ∷ []) = apply_parsed c old_channel (parse_int64 main_type)
  apply_params c _ = lacked

  -- `CMD_FRAME_APPLY`
  unfoldable pub frame_apply : ℕ → Bytes → Run x Reply
  unfolding apply_params
  frame_apply c params = apply_params c (split params)

  -- `CMD_FRAME_JOIN` and `CMD_FRAME_ACCEPT` differ in the word of their notice
  unfoldable pub frame_enter : Bytes → ℕ → Bytes → Run x Reply
  unfolding get_client write
  frame_enter step c params =
      if not (x.mongo.is_object_id_hex params) then answer code_failed (codes "500") else (do
        cl ← get_client x c
        e ← write x (push_active params cl.uuid)
        elim e [
          | some _ ↦ answer code_failed (codes "10003")
          | none ↦ (do
            add_user_id x params cl.uuid
            publish_str_msg x params (frame_notice step cl.uuid params) cl.uuid true
            success)
        ])

  abbrev pub frame_join : ℕ → Bytes → Run x Reply
  frame_join = frame_enter (codes "frame_join")

  abbrev pub frame_accept : ℕ → Bytes → Run x Reply
  frame_accept = frame_enter (codes "frame_accept")

  -- the user leaves the call's members and the others are told
  unfoldable pub quit : Bytes → Bytes → Bytes → Run x Reply
  quit step uuid channel_id = do
    remove_user_id x channel_id uuid
    publish_str_msg x channel_id (frame_notice step uuid channel_id) uuid true
    success

  -- what follows the `$pull` of the user, by the users who are active then
  unfoldable pub frame_left : Bytes → Bool → Bytes → Unstable → Bytes → List Bytes → Run x Reply
  unfolding write quit
  frame_left step forget uuid info params (_ ∷ _) = quit step uuid params
  frame_left step forget uuid info params [] = do
    gone ← write x (remove_idle params)
    elim gone [
      | some _ ↦ quit step uuid params
      | none ↦ (do
        dismiss_frame x uuid info params
        if forget then remove_user_id x params uuid else pure tt
        success)
    ]

  -- `CMD_FRAME_OUT` and `CMD_FRAME_DISMISS`: the last one out removes the call. Only the first of the
  -- two, for which `forget` is true, then takes the user off the cached members.
  unfoldable pub frame_exit : Bytes → Bool → ℕ → Bytes → Run x Reply
  unfolding get_client pull_active frame_left
  frame_exit step forget c params =
      if not (x.mongo.is_object_id_hex params) then answer code_failed (codes "500") else (do
        cl ← get_client x c
        pulled ← pull_active x params cl.uuid
        elim pulled [
          | err _ ↦ answer code_failed (codes "500")
          | ok info ↦ frame_left step forget cl.uuid info params info.active_user
        ])

  abbrev pub frame_out : ℕ → Bytes → Run x Reply
  frame_out = frame_exit (codes "frame_out") true

  abbrev pub frame_dismiss : ℕ → Bytes → Run x Reply
  frame_dismiss = frame_exit (codes "frame_dismiss") false

  -- `CMD_FRAME_REFUSE`
  unfoldable pub frame_refuse : ℕ → Bytes → Run x Reply
  unfolding get_client
  frame_refuse c params =
      if not (x.mongo.is_object_id_hex params) then answer code_failed (codes "500") else (do
        cl ← get_client x c
        publish_str_msg x params (frame_notice (codes "frame_refuse") cl.uuid params) cl.uuid true
        success)

  -- `CMD_FRAME_INFO`
  unfoldable pub frame_info : Bytes → Run x Reply
  unfolding query
  frame_info params =
      if not (x.mongo.is_object_id_hex params) then answer code_failed (codes "500") else (do
        found ← query x (x.mongo.find_unstable params)
        elim found [
          | err _ ↦ answer code_failed (codes "10003")
          | ok info ↦ answer code_success (x.codec.unstable_json info)
        ])

  -- one round of `CMD_INVOKE_FRAME_ACTION`
  unfoldable pub remind : ℕ → Bytes → Run x (Unit {0})
  unfolding query send
  remind c id = do
    found ← query x (x.mongo.find_unstable id)
    elim found [
      | err _ ↦ pure tt
      | ok info ↦
          if info.kind == unstable_info_type_frame_chat
          then send x c output_rciv
              (apply_notice info.subtype info.proposer info.id info.channel_id)
          else pure tt
    ]

  -- `CMD_INVOKE_FRAME_ACTION`
  unfoldable pub frame_action : ℕ → Run x Reply
  unfolding get_client query
  frame_action c = do
    cl ← get_client x c
    found ← query x (x.mongo.find_user cl.uuid)
    elim found [
      | err _ ↦ pure ([], none)
      | ok user ↦ (do
        frames ← or_crash user.frame_chat
        for_each (remind c) frames
        pure ([], none))
    ]
