-- ===== src/Engine/Notices.antt =====
-- The commands on notices keep a state sound.
use pushd.Prelude.{ℕ, List, [], ◌∷◌, ℤ}
use pushd.Text.{Bytes}
use pushd.External.{External, Json}
use pushd.External.Laws.{LruLaws}
use pushd.Engine.Kept.{Kept, >>=-Kept, pure-Kept}
use pushd.Engine.Actions.{steps, query-Kept}
use pushd.Engine.Publishing.{publish_str_msg-Kept, push_to_clients-Kept}
use pushd.Process.Notices.{
  remove_letter, letters_of, peek_server_notify, ack_server_notify, notify_users, notify_fields,
  notify_typed, push_notify_to_users, notify_in_chat_room, room_notice_params,
  publish_notification_in_chat_room,
}

module _ (x : External) (l : LruLaws x.rooms) where
  letters_of-Kept : (u : Bytes) → Kept x (letters_of x u)
  unfolding letters_of
  letters_of-Kept u = search (>>=-Kept, query-Kept, pure-Kept)

  pub peek_server_notify-Kept : (c : ℕ) → Kept x (peek_server_notify x c)
  unfolding peek_server_notify
  peek_server_notify-Kept c = search (steps, letters_of-Kept) depth 9

  remove_letter-Kept : (u : Bytes) (ids : List Bytes) → Kept x (remove_letter x u ids)
  unfolding remove_letter
  remove_letter-Kept u ids = search steps depth 9

  pub ack_server_notify-Kept : (c : ℕ) (params : Bytes) → Kept x (ack_server_notify x c params)
  unfolding ack_server_notify
  ack_server_notify-Kept c params = search (steps, remove_letter-Kept) depth 9

  notify_users-Kept : (t : ℤ) (us : List Bytes) (m : Bytes) → Kept x (notify_users x t us m)
  unfolding notify_users
  notify_users-Kept t us m = search (steps, push_to_clients-Kept x l) depth 9

  notify_fields-Kept : (fs : List (Bytes × Json)) (t : ℤ) → Kept x (notify_fields x fs t)
  unfolding notify_fields
  notify_fields-Kept fs t = search (steps, notify_users-Kept) depth 9

  notify_typed-Kept : (fs : List (Bytes × Json)) → Kept x (notify_typed x fs)
  unfolding notify_typed
  notify_typed-Kept fs = search (steps, notify_fields-Kept) depth 9

  pub push_notify_to_users-Kept : (params : Bytes) → Kept x (push_notify_to_users x params)
  unfolding push_notify_to_users
  push_notify_to_users-Kept params = search (steps, notify_typed-Kept) depth 9

  notify_in_chat_room-Kept : (r m : Bytes) (t : ℤ) → Kept x (notify_in_chat_room x r m t)
  unfolding notify_in_chat_room
  notify_in_chat_room-Kept r m t = search (steps, publish_str_msg-Kept x l) depth 9

  room_notice_params-Kept : (ps : List Bytes) → Kept x (room_notice_params x ps)
  unfolding room_notice_params
  room_notice_params-Kept [] = search steps
  room_notice_params-Kept (a ∷ []) = search steps
  room_notice_params-Kept (a ∷ b ∷ []) = search steps
  room_notice_params-Kept (a ∷ b ∷ d ∷ []) = search (steps, notify_in_chat_room-Kept) depth 9
  room_notice_params-Kept (a ∷ b ∷ d ∷ e ∷ ps) = search steps

  pub publish_notification_in_chat_room-Kept :
      (params : Bytes) → Kept x (publish_notification_in_chat_room x params)
  unfolding publish_notification_in_chat_room
  publish_notification_in_chat_room-Kept params = search room_notice_params-Kept
