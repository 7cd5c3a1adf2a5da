-- ===== src/Names.antt =====
-- The words of the protocol (engine/cmd_interface.go, engine/s2s_proxy.go, engine/constants.go).
use pushd.Prelude.{ℕ, [], ◌∷◌}
use pushd.Text.{Bytes, codes, words}
use pushd.Text.Number.{dec}

abbrev pub output_frame_chat : Bytes
output_frame_chat = codes "FRAMECHAT"

abbrev pub output_rciv : Bytes
output_rciv = codes "RCIV"

abbrev pub cmd_vido : Bytes
cmd_vido = codes "vido"

abbrev pub s2s_sub_cmd : Bytes
s2s_sub_cmd = codes "sub"

abbrev pub s2s_unsub_cmd : Bytes
s2s_unsub_cmd = codes "unsub"

abbrev pub s2s_push_binary_message : Bytes
s2s_push_binary_message = codes "push_bin_msg"

abbrev pub s2s_push_string_message : Bytes
s2s_push_string_message = codes "push_str_msg"

abbrev pub code_success : ℕ
code_success = 200

abbrev pub code_param_error : ℕ
code_param_error = 202

abbrev pub code_failed : ℕ
code_failed = 400

abbrev pub code_server_error : ℕ
code_server_error = 500

abbrev pub code_token_or_term_error : ℕ
code_token_or_term_error = 508

abbrev pub message_type_normal : ℕ
message_type_normal = 0

abbrev pub message_for_person : ℕ
message_for_person = 1000

abbrev pub unstable_info_type_frame_chat : ℕ
unstable_info_type_frame_chat = 1

-- `fmt.Sprintf("%d ...", code)`
abbrev pub with_code : ℕ → Bytes → Bytes
with_code code text = words (dec code ∷ text ∷ [])
