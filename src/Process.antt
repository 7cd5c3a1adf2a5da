-- ===== src/Process.antt =====
-- `Process` (engine/cmd_interface.go): the case of each command. The cases stand in the modules below.
pub mod Replies
pub mod Messages
pub mod Rooms
pub mod Users
pub mod Identity
pub mod Frames
pub mod Notices
use pushd.Prelude.{
  ℕ, zero, suc, ◌+◌, ◌-◌, ◌*◌, ◌/◌, ◌%◌, ◌^◌, ◌≤◌, ◌<◌, ◌≡◌, ◌≢◌, ◌↔◌, ◌⊎◌, inl, inr, refl, sym, ap,
  ◌∙◌, subst, Bool, true, false, ◌&&◌, ◌||◌, not, Option, none, some, List, [], ◌∷◌, ◌++◌, map,
  append-nil, append_assoc, arith, ltb, leb, ◌==◌, if◌then◌else◌, ==_iff, Bool-cases, Option-cases,
  length, get_elem?, take, drop, replicate, length-append, take-append, drop-append, All,
  All-append, ℤ, pos, negsuc, Outcome, done, panic,
}
use pushd.Text.{Bytes, codes, words}
use pushd.Text.Number.{dec}
use pushd.Names.{code_failed}
use pushd.Wire.{Cmdline}
use pushd.Command
use pushd.Command.{Command, command_of}
use pushd.External.{External}
use pushd.World.{Action, World, Run, pure, crash, gets, modify, ◌>>=◌, ◌>>◌}
use Replies.{Reply, maybe}

module _ (x : External) where
  -- one case of the switch, for the client at an address
  unfoldable pub process_command : ℕ → Cmdline → Command → Run x Reply
  process_command c cl Command.offline_msg = Users.offline_msg x c
  process_command c cl Command.create_user = Users.create_user x cl.params
  process_command c cl Command.ack_msg = Messages.ack x c cl.params
  process_command c cl Command.disolve = Rooms.disolve x cl.params
  process_command c cl Command.unsubs = Rooms.unsubs x cl.params
  process_command c cl Command.subs = Rooms.subs x cl.params
  process_command c cl Command.add_user_into_room = Rooms.add_user_into_room x cl.params
  process_command c cl Command.appkey = Identity.appkey_cmd x
  process_command c cl Command.sendmsg = Messages.send_msg x c cl.params
  process_command c cl Command.setuuid = Identity.set_uuid x c cl.params
  process_command c cl Command.subscribe = Messages.subscribe_cmd x c cl.params
  process_command c cl Command.publish = Messages.publish_cmd x c cl.params
  process_command c cl Command.unsubscribe = Messages.unsubscribe_cmd x c cl.params
  process_command c cl Command.history = Users.history x cl.params
  process_command c cl Command.token = Identity.token_cmd x
  process_command c cl Command.auth_client = Identity.auth_client_cmd x c cl.params
  process_command c cl Command.auth_server = Identity.auth_server_cmd x c cl.params
  process_command c cl Command.ping = pure (codes "pong", none)
  process_command c cl Command.createroom = Rooms.create_room_cmd x c cl.params
  process_command c cl Command.joinroom = Rooms.join_room_cmd x c cl.params
  process_command c cl Command.leaveroom = Rooms.leave_room_cmd x c cl.params
  process_command c cl Command.vido_chat = Messages.vido_chat x c cl.params2
  process_command c cl Command.frame_apply = Frames.frame_apply x c cl.params
  process_command c cl Command.frame_join = Frames.frame_join x c cl.params
  process_command c cl Command.frame_out = Frames.frame_out x c cl.params
  process_command c cl Command.frame_accept = Frames.frame_accept x c cl.params
  process_command c cl Command.frame_dismiss = Frames.frame_dismiss x c cl.params
  process_command c cl Command.frame_refuse = Frames.frame_refuse x c cl.params
  process_command c cl Command.frame_info = Frames.frame_info x cl.params
  process_command c cl Command.invoke_frame_action = Frames.frame_action x c
  process_command c cl Command.retract_message = Messages.retract_message x c cl.params
  process_command c cl Command.update_or_add_push_id = Users.update_push_id x cl.params
  process_command c cl Command.set_off_notify = Users.set_off_notify x cl.params
  process_command c cl Command.publish_notification_in_chat_room =
      Notices.publish_notification_in_chat_room x cl.params
  process_command c cl Command.push_notify_to_users = Notices.push_notify_to_users x cl.params
  process_command c cl Command.ack_server_notify = Notices.ack_server_notify x c cl.params
  process_command c cl Command.peek_server_notify = Notices.peek_server_notify x c

  -- `Process`
  unfoldable pub process : ℕ → Cmdline → Run x Reply
  process c cl =
      maybe (command_of cl.cmd)
        (pure (
          words (
              dec code_failed
              ∷ codes "Cmd"
              ∷ codes "not"
              ∷ codes "found:"
              ∷ (cl.cmd ++ 10 ∷ [])
              ∷ []),
          none,
        ))
        (process_command c cl)
