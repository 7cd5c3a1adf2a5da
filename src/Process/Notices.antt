-- ===== src/Process/Notices.antt =====
-- The cases of `Process` about notices from the application server (engine/cmd_interface.go), and the
-- letters of engine/mail.
use pushd.Prelude.{ℕ, true, Option, none, some, List, [], ◌∷◌, ◌++◌, if◌then◌else◌, ℤ}
use pushd.Text.{Bytes, codes, same, split, split_n, words}
use pushd.Text.Number.{dec, dec_int, parse_int64, parse_int32}
use pushd.Names.{code_param_error, message_for_person}
use pushd.Config.{enable_storage}
use pushd.External.{
  DbError, External, ok, err, Letter, Json, text, texts, push_mail, pull_mail, insert_notice,
}
use pushd.World.{Run, pure, ◌>>=◌, ◌>>◌, get_client, query, write, or_crash, now_nanos, draw}
use pushd.Pubsub.{publish_str_msg, push_to_clients}
use pushd.Process.Replies.{Reply, answer, success, lacked, fault, maybe}

-- `m[key]` with its test
unfoldable pub field_of : Bytes → List (Bytes × Json) → Option Json
field_of key [] = none
field_of key ((k, v) ∷ rest) = if same k key then some v else field_of key rest

-- `v.(string)` and `v.([]interface{})` with strings inside; a nil value fails too
abbrev as_text : Option Json → Option Bytes
as_text (some (text s)) = some s
as_text _ = none

abbrev as_texts : Json → Option (List Bytes)
as_texts (texts ss) = some ss
as_texts _ = none

module _ (x : External) where
  -- `mail.GetLettersByType`, which returns the letters of every type
  unfoldable pub letters_of : Bytes → Run x (Option Bytes × List Letter)
  unfolding query
  letters_of user_id = do
    found ← query x (x.mongo.find_mail user_id)
    pure (elim found [
      | err e ↦ (some (x.mongo.error_text e), [])
      | ok none ↦ (some (codes "GetLettersByType not slice"), [])
      | ok (some letters) ↦ (none, letters)
    ])

  -- `CMD_PEEK_SERVER_NOTIFY`
  unfoldable pub peek_server_notify : ℕ → Run x Reply
  unfolding get_client letters_of
  peek_server_notify c = do
    cl ← get_client x c
    (e, letters) ← letters_of cl.uuid
    elim e [ some t ↦ fault t | none ↦ pure (x.codec.letters_json letters, none) ]

  -- the loop of `mail.RemoveLetter`: the first id that is not an object id
  unfoldable pub bad_id : List Bytes → Option Bytes
  bad_id [] = none
  bad_id (id ∷ ids) = if x.mongo.is_object_id_hex id then bad_id ids else some id

  -- `mail.RemoveLetter`, with the text of its error
  unfoldable pub remove_letter : Bytes → List Bytes → Run x (Option Bytes)
  unfolding bad_id write
  remove_letter user_id mail_ids =
      maybe (bad_id mail_ids)
        (do
          e ← write x (pull_mail user_id mail_ids)
          pure (elim e [ some d ↦ some (x.mongo.error_text d) | none ↦ none ]))
        λ id. pure (some (codes "userId:" ++ (id ++ codes " is not ObjectId")))

  -- `CMD_ACK_SERVER_NOTIFY`
  unfoldable pub ack_server_notify : ℕ → Bytes → Run x Reply
  unfolding get_client remove_letter
  ack_server_notify c params = do
    cl ← get_client x c
    e ← remove_letter cl.uuid (split params)
    elim e [ some t ↦ answer code_param_error t | none ↦ success ]

  -- `mail.SendLetterToMail`
  unfoldable pub send_letter_to_mail : List Bytes → Letter → Run x (Option DbError)
  unfolding write
  send_letter_to_mail user_ids letter = write x (push_mail user_ids letter)

  -- `"%d %d %s %d %s"`: the notice to one person
  abbrev pub person_notice : ℤ → Bytes → ℕ → Bytes → Bytes
  person_notice mtype msg_id ts message =
      words (dec message_for_person ∷ dec_int mtype ∷ msg_id ∷ dec ts ∷ message ∷ [])

  -- the error of `SendLetterToMail` is only logged
  unfoldable pub notify_users : ℤ → List Bytes → Bytes → Run x Reply
  unfolding now_nanos draw send_letter_to_mail
  notify_users mtype user_ids message = do
    ts ← now_nanos x
    msg_id ← draw x x.new_object_id
    let letter : Letter = record { id = msg_id; kind = mtype; text = message; ts = ts }
    send_letter_to_mail user_ids letter
    push_to_clients x (person_notice mtype msg_id ts message) user_ids
    success

  unfoldable pub notify_fields : List (Bytes × Json) → ℤ → Run x Reply
  unfolding field_of notify_users
  notify_fields fields mtype =
      maybe (field_of (codes "userIds") fields) (answer code_param_error (codes "param error5"))
        λ ids. do
          user_ids ← or_crash (as_texts ids)
          message ← or_crash (as_text (field_of (codes "message") fields))
          notify_users mtype user_ids message

  unfoldable pub notify_typed : List (Bytes × Json) → Run x Reply
  unfolding field_of notify_fields
  notify_typed fields =
      maybe (field_of (codes "type") fields) (answer code_param_error (codes "param error3")) λ t.
        do
          digits ← or_crash (as_text (some t))
          maybe (parse_int32 digits) (answer code_param_error (codes "param error4"))
              (notify_fields fields)

  -- `CMD_PUSH_NOTIFY_TO_USERS`
  unfoldable pub push_notify_to_users : Bytes → Run x Reply
  unfolding notify_typed
  push_notify_to_users params =
      maybe (x.codec.object params) (answer code_param_error (codes "param error1"))
        λ value. maybe value (answer code_param_error (codes "param error2")) notify_typed

  -- `notifyInChatRoom`, whose error is always nil; the error of `Insert` is not read
  unfoldable pub notify_in_chat_room : Bytes → Bytes → ℤ → Run x (Unit {0})
  unfolding now_nanos write
  notify_in_chat_room chat_room_id message mtype = do
    ts ← now_nanos x
    if enable_storage x.conf
        then (do write x (insert_notice chat_room_id message ts mtype); pure tt)
        else pure tt
    publish_str_msg x chat_room_id (words (dec_int mtype ∷ chat_room_id ∷ dec ts ∷ message ∷ [])) []
        true

  unfoldable pub room_notice_params : List Bytes → Run x Reply
  unfolding notify_in_chat_room
  room_notice_params (mtype ∷ chat_room_id ∷ message ∷ []) =
      maybe (parse_int64 mtype) (answer code_param_error (codes "type can not parse to int32"))
        λ n. do notify_in_chat_room chat_room_id message n; success
  room_notice_params _ = lacked

  -- `CMD_PUBLISH_NOTIFICATION_IN_CHAT_ROOM`: both cases of its switch do the same
  unfoldable pub publish_notification_in_chat_room : Bytes → Run x Reply
  unfolding room_notice_params
  publish_notification_in_chat_room params = room_notice_params (split_n params 3)
