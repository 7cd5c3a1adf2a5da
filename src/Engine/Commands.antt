-- ===== src/Engine/Commands.antt =====
-- Every command, and what a connection reads, keep a state sound.
use pushd.Prelude.{ℕ, Bool, none, some, List, [], ◌∷◌, Outcome, done, panic}
use pushd.Text.{Bytes}
use pushd.External.{External}
use pushd.External.Laws.{LruLaws, MapLaws}
use pushd.Command.{Command}
use pushd.Wire.{Cmdline, Parsed, parsed, refused, new_cmdline}
use pushd.Process.{process_command, process}
use pushd.Process.Replies.{Reply}
use pushd.Server.{deliver_reply, run_command, checked_command, on_parsed, on_read, on_accept}
use pushd.Engine.Kept.{Kept}
use pushd.Engine.Actions.{steps}
use pushd.S2s.{on_accept_peer}
use pushd.Engine.Relaying.{on_read_peer-Kept}
use pushd.Engine.Clients.{close-Kept}
use pushd.Engine.Rooms
use pushd.Engine.Messages
use pushd.Engine.Frames
use pushd.Engine.Users
use pushd.Engine.Notices
use pushd.Engine.Identity

module _ (x : External) (l : LruLaws x.rooms) where
  process_command-Kept : (c : ℕ) (cl : Cmdline) (k : Command) → Kept x (process_command x c cl k)
  unfolding process_command
  process_command-Kept c cl Command.offline_msg = Users.offline_msg-Kept x c
  process_command-Kept c cl Command.create_user = Users.create_user-Kept x cl.params
  process_command-Kept c cl Command.ack_msg = Messages.ack-Kept x l c cl.params
  process_command-Kept c cl Command.disolve = Rooms.disolve-Kept x l cl.params
  process_command-Kept c cl Command.unsubs = Rooms.unsubs-Kept x l cl.params
  process_command-Kept c cl Command.subs = Rooms.subs-Kept x l cl.params
  process_command-Kept c cl Command.add_user_into_room = Rooms.add_user_into_room-Kept x l cl.params
  process_command-Kept c cl Command.appkey = Identity.appkey_cmd-Kept x
  process_command-Kept c cl Command.sendmsg = Messages.send_msg-Kept x l c cl.params
  process_command-Kept c cl Command.setuuid = Identity.set_uuid-Kept x c cl.params
  process_command-Kept c cl Command.subscribe = Messages.subscribe_cmd-Kept x l c cl.params
  process_command-Kept c cl Command.publish = Messages.publish_cmd-Kept x l c cl.params
  process_command-Kept c cl Command.unsubscribe = Messages.unsubscribe_cmd-Kept x l c cl.params
  process_command-Kept c cl Command.history = Users.history-Kept x cl.params
  process_command-Kept c cl Command.token = Identity.token_cmd-Kept x
  process_command-Kept c cl Command.auth_client = Identity.auth_client_cmd-Kept x c cl.params
  process_command-Kept c cl Command.auth_server = Identity.auth_server_cmd-Kept x c cl.params
  process_command-Kept c cl Command.ping = search steps
  process_command-Kept c cl Command.createroom = Rooms.create_room_cmd-Kept x c cl.params
  process_command-Kept c cl Command.joinroom = Rooms.join_room_cmd-Kept x c cl.params
  process_command-Kept c cl Command.leaveroom = Rooms.leave_room_cmd-Kept x c cl.params
  process_command-Kept c cl Command.vido_chat = Messages.vido_chat-Kept x l c cl.params2
  process_command-Kept c cl Command.frame_apply = Frames.frame_apply-Kept x l c cl.params
  process_command-Kept c cl Command.frame_join = Frames.frame_enter-Kept x l _ c cl.params
  process_command-Kept c cl Command.frame_out = Frames.frame_exit-Kept x l _ _ c cl.params
  process_command-Kept c cl Command.frame_accept = Frames.frame_enter-Kept x l _ c cl.params
  process_command-Kept c cl Command.frame_dismiss = Frames.frame_exit-Kept x l _ _ c cl.params
  process_command-Kept c cl Command.frame_refuse = Frames.frame_refuse-Kept x l c cl.params
  process_command-Kept c cl Command.frame_info = Frames.frame_info-Kept x cl.params
  process_command-Kept c cl Command.invoke_frame_action = Frames.frame_action-Kept x c
  process_command-Kept c cl Command.retract_message = Messages.retract_message-Kept x l c cl.params
  process_command-Kept c cl Command.update_or_add_push_id = Users.update_push_id-Kept x cl.params
  process_command-Kept c cl Command.set_off_notify = Users.set_off_notify-Kept x cl.params
  process_command-Kept c cl Command.publish_notification_in_chat_room =
      Notices.publish_notification_in_chat_room-Kept x l cl.params
  process_command-Kept c cl Command.push_notify_to_users =
      Notices.push_notify_to_users-Kept x l cl.params
  process_command-Kept c cl Command.ack_server_notify =
      Notices.ack_server_notify-Kept x l c cl.params
  process_command-Kept c cl Command.peek_server_notify = Notices.peek_server_notify-Kept x l c

  process-Kept : (c : ℕ) (cl : Cmdline) → Kept x (process x c cl)
  unfolding process
  process-Kept c cl = search (steps, process_command-Kept)

  deliver_reply-Kept : (c : ℕ) (cmd : Bytes) (r : Reply) → Kept x (deliver_reply x c cmd r)
  unfolding deliver_reply
  deliver_reply-Kept c cmd (ret, none) = search steps
  deliver_reply-Kept c cmd (ret, some e) = search steps

  run_command-Kept : (c : ℕ) (cl : Cmdline) → Kept x (run_command x c cl)
  unfolding run_command
  run_command-Kept c cl = search (steps, process-Kept, deliver_reply-Kept)

  checked_command-Kept : (acl : Bool) (c : ℕ) (cl : Cmdline) → Kept x (checked_command x acl c cl)
  unfolding checked_command
  checked_command-Kept acl c cl =
      search (steps, run_command-Kept, Identity.token_check-Kept) depth 9

  on_parsed-Kept :
      (acl : Bool) (c : ℕ) (r : Outcome (Parsed Cmdline)) → Kept x (on_parsed x acl c r)
  unfolding on_parsed
  on_parsed-Kept acl c panic = search steps
  on_parsed-Kept acl c (done (refused e)) = search steps
  on_parsed-Kept acl c (done (parsed cl)) = search (steps, checked_command-Kept)

  pub on_read-Kept : (acl : Bool) (c : ℕ) (input : Bytes) → Kept x (on_read x acl c input)
  unfolding on_read
  on_read-Kept acl c input = on_parsed-Kept acl c (new_cmdline input)

  pub on_accept-Kept :
      MapLaws x.registry
      → (acl : Bool) (c : ℕ) (inputs : List Bytes) → Kept x (on_accept x acl c inputs)
  unfolding on_accept
  on_accept-Kept m acl c [] = close-Kept x l m c
  on_accept-Kept m acl c (input ∷ rest) =
      let later = on_accept-Kept m acl c rest in search (steps, on_read-Kept, close-Kept x l m)

  on_accept_peer-Kept : (addr : Bytes) (inputs : List Bytes) → Kept x (on_accept_peer x addr inputs)
  unfolding on_accept_peer
  on_accept_peer-Kept addr [] = search steps
  on_accept_peer-Kept addr (input ∷ rest) =
      let later = on_accept_peer-Kept addr rest in search (steps, on_read_peer-Kept x l)
