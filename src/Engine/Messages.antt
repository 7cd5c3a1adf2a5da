-- ===== src/Engine/Messages.antt =====
-- The commands on messages keep a state sound.
use pushd.Prelude.{ℕ, zero, suc, Option, none, some, List, [], ◌∷◌, ℤ}
use pushd.Text.{Bytes}
use pushd.External.{External}
use pushd.External.Laws.{LruLaws}
use pushd.Engine.Kept.{Kept}
use pushd.Engine.Actions.{steps}
use pushd.Engine.Publishing.{publish_bin_msg-Kept, publish-Kept}
use pushd.Process.Messages.{
  send_parsed, send_params, send_msg, vido_channel, vido_chat, ack_parsed, ack_params, ack,
  subscribe_cmd, publish_parsed, publish_params, publish_cmd, unsubscribe_params, unsubscribe_cmd,
  announce_retract, retract_parsed, retract_params, retract_message,
}
use pushd.Engine.Clients.{ack_msg-Kept}

module _ (x : External) (l : LruLaws x.rooms) where
  send_parsed-Kept : (c : ℕ) (r ch msg : Bytes) (i : Option ℤ) → Kept x (send_parsed x c r ch msg i)
  unfolding send_parsed
  send_parsed-Kept c r ch msg none = search steps
  send_parsed-Kept c r ch msg (some i) = search (steps, publish-Kept x l) depth 12

  send_params-Kept : (c : ℕ) (ps : List Bytes) → Kept x (send_params x c ps)
  unfolding send_params
  send_params-Kept c [] = search steps
  send_params-Kept c (a ∷ []) = search steps
  send_params-Kept c (a ∷ b ∷ []) = search steps
  send_params-Kept c (a ∷ b ∷ d ∷ []) = search steps
  send_params-Kept c (a ∷ b ∷ d ∷ e ∷ []) = search send_parsed-Kept
  send_params-Kept c (a ∷ b ∷ d ∷ e ∷ f ∷ ps) = search steps

  pub send_msg-Kept : (c : ℕ) (params : Bytes) → Kept x (send_msg x c params)
  unfolding send_msg
  send_msg-Kept c params = search send_params-Kept

  vido_channel-Kept : (c : ℕ) (params : Bytes) (i : ℕ) → Kept x (vido_channel x c params i)
  unfolding vido_channel
  vido_channel-Kept c params zero = search steps
  vido_channel-Kept c params (suc i) = search (steps, publish_bin_msg-Kept x l) depth 9

  pub vido_chat-Kept : (c : ℕ) (params : Bytes) → Kept x (vido_chat x c params)
  unfolding vido_chat
  vido_chat-Kept c params = search vido_channel-Kept

  ack_parsed-Kept : (c : ℕ) (ch : Bytes) (i ts : Option ℤ) → Kept x (ack_parsed x c ch i ts)
  unfolding ack_parsed
  ack_parsed-Kept c ch none ts = search steps
  ack_parsed-Kept c ch (some i) none = search steps
  ack_parsed-Kept c ch (some i) (some ts) = search (steps, ack_msg-Kept x l)

  ack_params-Kept : (c : ℕ) (ps : List Bytes) → Kept x (ack_params x c ps)
  unfolding ack_params
  ack_params-Kept c [] = search steps
  ack_params-Kept c (a ∷ []) = search steps
  ack_params-Kept c (a ∷ b ∷ []) = search steps
  ack_params-Kept c (a ∷ b ∷ d ∷ []) = search steps
  ack_params-Kept c (a ∷ b ∷ d ∷ e ∷ []) = search ack_parsed-Kept
  ack_params-Kept c (a ∷ b ∷ d ∷ e ∷ f ∷ ps) = search steps

  pub ack-Kept : (c : ℕ) (params : Bytes) → Kept x (ack x c params)
  unfolding ack
  ack-Kept c params = search ack_params-Kept

  pub subscribe_cmd-Kept : (c : ℕ) (params : Bytes) → Kept x (subscribe_cmd x c params)
  unfolding subscribe_cmd
  subscribe_cmd-Kept c params = search steps

  publish_parsed-Kept :
      (c : ℕ) (ch msg : Bytes) (i : Option ℤ) → Kept x (publish_parsed x c ch msg i)
  unfolding publish_parsed
  publish_parsed-Kept c ch msg none = search steps
  publish_parsed-Kept c ch msg (some i) = search (steps, publish-Kept x l)

  publish_params-Kept : (c : ℕ) (ps : List Bytes) → Kept x (publish_params x c ps)
  unfolding publish_params
  publish_params-Kept c [] = search steps
  publish_params-Kept c (a ∷ []) = search steps
  publish_params-Kept c (a ∷ b ∷ []) = search steps
  publish_params-Kept c (a ∷ b ∷ d ∷ []) = search (steps, publish_parsed-Kept)
  publish_params-Kept c (a ∷ b ∷ d ∷ e ∷ ps) = search steps

  pub publish_cmd-Kept : (c : ℕ) (params : Bytes) → Kept x (publish_cmd x c params)
  unfolding publish_cmd
  publish_cmd-Kept c params = search publish_params-Kept

  unsubscribe_params-Kept : (c : ℕ) (ps : List Bytes) → Kept x (unsubscribe_params x c ps)
  unfolding unsubscribe_params
  unsubscribe_params-Kept c [] = search steps
  unsubscribe_params-Kept c (a ∷ ps) = search steps

  pub unsubscribe_cmd-Kept : (c : ℕ) (params : Bytes) → Kept x (unsubscribe_cmd x c params)
  unfolding unsubscribe_cmd
  unsubscribe_cmd-Kept c params = search unsubscribe_params-Kept

  announce_retract-Kept : (c : ℕ) (ch : Bytes) (i j : ℤ) → Kept x (announce_retract x c ch i j)
  unfolding announce_retract
  announce_retract-Kept c ch i j = search (steps, publish-Kept x l)

  retract_parsed-Kept : (c : ℕ) (ch : Bytes) (i j : Option ℤ) → Kept x (retract_parsed x c ch i j)
  unfolding retract_parsed
  retract_parsed-Kept c ch none j = search steps
  retract_parsed-Kept c ch (some i) none = search steps
  retract_parsed-Kept c ch (some i) (some j) = search (steps, announce_retract-Kept) depth 9

  retract_params-Kept : (c : ℕ) (ps : List Bytes) → Kept x (retract_params x c ps)
  unfolding retract_params
  retract_params-Kept c [] = search steps
  retract_params-Kept c (a ∷ []) = search steps
  retract_params-Kept c (a ∷ b ∷ []) = search steps
  retract_params-Kept c (a ∷ b ∷ d ∷ []) = search retract_parsed-Kept
  retract_params-Kept c (a ∷ b ∷ d ∷ e ∷ ps) = search steps

  pub retract_message-Kept : (c : ℕ) (params : Bytes) → Kept x (retract_message x c params)
  unfolding retract_message
  retract_message-Kept c params = search (steps, retract_params-Kept)
