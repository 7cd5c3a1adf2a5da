-- ===== src/Tests/Connections.antt =====
-- Connections and their tokens at a concrete process.
use pushd.Prelude.{arith, ℕ, ◌/◌, ◌≡◌, refl, true, false, none, some, [], if◌then◌else◌, done}
use pushd.Text.{codes, same, Lacks}
use pushd.Wire.{Cmdline}
use pushd.World.{dead, World, init_done, for_each}
use pushd.Client.{
  init_chat_env, close, is_client, clear_frame_chat, leave_frames, clear_identity,
  update_token_expire, new_client,
}
use pushd.Client.Lifecycle.{
  init_chat_env-online, init_chat_env-close, close-online, close-unidentified, left, marked_dead,
}
use pushd.Auth.{among, token_check, token_free}
use pushd.Auth.Tokens.{token_check-client, matches}
use pushd.Tests.Memory.{here, office, memory_map-laws}

init_chat_env-online_example :
    (let v = (init_chat_env here 1 office).1 in
      ((init_chat_env here 1 office).0 ≡ done tt)
      × (v.online (codes "bob")
          ≡ (if same (codes "bob") (codes "bob") then some 1 else office.online (codes "bob")))
      × ((v.clients 1).state ≡ init_done)
      × ((v.clients 1).uuid ≡ codes "bob"))
init_chat_env-online_example =
    init_chat_env-online here 1 office (codes "bob") (memory_map-laws ℕ) refl

init_chat_env-close_example :
    init_chat_env here 0 (close here 0 office).1 ≡ (done tt, (close here 0 office).1)
init_chat_env-close_example = init_chat_env-close here 0 office

no_calls : (clear_frame_chat here (codes "ann") (marked_dead here 0 office)).0 ≡ done tt
unfolding clear_frame_chat leave_frames for_each
no_calls = refl

ann_known : is_client (office.clients 0) ≡ true
unfolding is_client
ann_known = refl

close-online_example :
    ((close here 0 office).0 ≡ done tt)
    × ((close here 0 office).1.online (codes "ann")
        ≡ left here office.online (codes "ann") 0 (codes "ann"))
    × (((close here 0 office).1.clients 0).closed ≡ true)
close-online_example =
    close-online here 0 office (codes "ann") (memory_map-laws ℕ) ann_known no_calls

-- ann is offline then
ann_left : left here office.online (codes "ann") 0 (codes "ann") ≡ none
unfolding same
ann_left = refl

abbrev with_token : World here
with_token = record office { clients = λ n. record (office.clients n) { token = codes "t7" } }

abbrev say : Cmdline
say = record { cmd = codes "sendmsg"; params = codes "t7 room 1 hi"; params2 = [] }

needs_token : among say.cmd token_free ≡ false
unfolding among same
needs_token = refl

token_known : is_client (with_token.clients 0) ≡ true
unfolding is_client
token_known = refl

no_space : Lacks 32 (codes "t7")
no_space = ground arith

token_check-client_example :
    ((token_check here 0 say with_token).0
      ≡ done (
        (if matches (with_token.clients 0) (codes "t7")
            then none
            else some (codes "Token Illegal")),
        record say { params = codes "room 1 hi" },
      ))
    × ((token_check here 0 say with_token).1.clients 0 ≡ (
        if matches (with_token.clients 0) (codes "t7")
        then update_token_expire (here.clock 1 / 1000000000) (with_token.clients 0)
        else clear_identity (with_token.clients 0)))
token_check-client_example =
    token_check-client here 0 (codes "t7") (some (codes "room 1 hi")) say with_token no_space refl
      refl token_known needs_token

abbrev strangers : World here
strangers = record office { clients = λ n. new_client }

unknown : is_client (strangers.clients 0) ≡ false
unfolding is_client
unknown = refl

close-unidentified_example :
    ((close here 0 strangers).0 ≡ done tt)
    × ((close here 0 strangers).1.online ≡ strangers.online)
    × ((close here 0 strangers).1.db ≡ strangers.db)
    × (((close here 0 strangers).1.clients 0).state ≡ dead)
close-unidentified_example = close-unidentified here 0 strangers unknown
