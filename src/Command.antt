-- ===== src/Command.antt =====
-- The commands of clients (engine/cmd_interface.go): their names on the wire.
use pushd.Prelude.{Option, none, some, List, [], ◌∷◌, if◌then◌else◌}
use pushd.Text.{Bytes, codes, same}

pub data Command : Type 0 where
  offline_msg create_user ack_msg disolve unsubs subs add_user_into_room appkey sendmsg setuuid
        subscribe publish unsubscribe history token auth_client auth_server ping createroom joinroom
        leaveroom vido_chat frame_apply frame_join frame_out frame_accept frame_dismiss frame_refuse
        frame_info invoke_frame_action retract_message update_or_add_push_id set_off_notify
        publish_notification_in_chat_room push_notify_to_users ack_server_notify
        peek_server_notify :
      Command

-- the constants `CMD_...`
abbrev pub spelling : Command → Bytes
spelling offline_msg = codes "ofli_msg"
spelling create_user = codes "user_create"
spelling ack_msg = codes "ack"
spelling disolve = codes "disolve"
spelling unsubs = codes "unsubs"
spelling subs = codes "subs"
spelling add_user_into_room = codes "add_into_room"
spelling appkey = codes "getappkey"
spelling sendmsg = codes "sendmsg"
spelling setuuid = codes "setuuid"
spelling subscribe = codes "sub"
spelling publish = codes "pub"
spelling unsubscribe = codes "unsub"
spelling history = codes "his"
spelling token = codes "gettoken"
spelling auth_client = codes "auth_client"
spelling auth_server = codes "auth_server"
spelling ping = codes "ping"
spelling createroom = codes "create_room"
spelling joinroom = codes "join_room"
spelling leaveroom = codes "leave_room"
spelling vido_chat = codes "vido"
spelling frame_apply = codes "frame_apply"
spelling frame_join = codes "frame_join"
spelling frame_out = codes "frame_out"
spelling frame_accept = codes "frame_accept"
spelling frame_dismiss = codes "frame_dismiss"
spelling frame_refuse = codes "frame_refuse"
spelling frame_info = codes "frame_info"
spelling invoke_frame_action = codes "frame_action"
spelling retract_message = codes "retract_msg"
spelling update_or_add_push_id = codes "up_ad_pushId"
spelling set_off_notify = codes "set_notify"
spelling publish_notification_in_chat_room = codes "pnicr"
spelling push_notify_to_users = codes "pntus"
spelling ack_server_notify = codes "asn"
spelling peek_server_notify = codes "psn"

abbrev pub all_commands : List Command
all_commands =
    offline_msg ∷ create_user ∷ ack_msg ∷ disolve ∷ unsubs ∷ subs ∷ add_user_into_room ∷ appkey
    ∷ sendmsg ∷ setuuid ∷ subscribe ∷ publish ∷ unsubscribe ∷ history ∷ token ∷ auth_client
    ∷ auth_server ∷ ping ∷ createroom ∷ joinroom ∷ leaveroom ∷ vido_chat ∷ frame_apply ∷ frame_join
    ∷ frame_out ∷ frame_accept ∷ frame_dismiss ∷ frame_refuse ∷ frame_info ∷ invoke_frame_action
    ∷ retract_message ∷ update_or_add_push_id ∷ set_off_notify ∷ publish_notification_in_chat_room
    ∷ push_notify_to_users ∷ ack_server_notify ∷ peek_server_notify ∷ []

find_command : Bytes → List Command → Option Command
find_command s [] = none
find_command s (c ∷ cs) = if same s (spelling c) then some c else find_command s cs

-- the case of a `switch` on the name; `none` is its default
unfoldable pub command_of : Bytes → Option Command
unfolding find_command same
command_of s = find_command s all_commands
