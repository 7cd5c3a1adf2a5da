-- ===== src/Pubsub.antt =====
-- Publishing (engine/pubsub.go): pushing to the clients of this server, and forwarding to peers.
-- `Subscribe`, `Unsubscribe` and `UnsubscribeAllChannels` have no code left but comments.
pub mod Delivery
pub mod Effects
use pushd.Prelude.{
  ℕ, zero, suc, ◌+◌, ◌-◌, ◌*◌, ◌/◌, ◌%◌, ◌^◌, ◌≤◌, ◌<◌, ◌≡◌, ◌≢◌, ◌↔◌, ◌⊎◌, inl, inr, refl, sym, ap,
  ◌∙◌, subst, Bool, true, false, ◌&&◌, ◌||◌, not, Option, none, some, List, [], ◌∷◌, ◌++◌, map,
  append-nil, append_assoc, arith, ltb, leb, ◌==◌, if◌then◌else◌, ==_iff, Bool-cases, Option-cases,
  length, get_elem?, take, drop, replicate, length-append, take-append, drop-append, All,
  All-append, ℤ, pos, negsuc, Outcome, done, panic,
}
use pushd.Text.{Bytes, same, words, space}
use pushd.Text.Number.{dec, dec_int}
use pushd.Config.{is_dist_mode, enable_storage}
use pushd.Names.{output_rciv, cmd_vido, s2s_push_string_message, message_type_normal}
use pushd.External.{External, Sets, MsgTuple}
use pushd.World.{
  Action, World, Run, Client, pure, crash, gets, modify, ◌>>=◌, ◌>>◌, for_each, now_nanos,
  get_client, send,
}
use pushd.Registry.{get_online}
use pushd.Members.{load_user_ids_by_channel}

module _ (x : External) where
  -- `Subscribe` and `Unsubscribe`, whose bodies are commented out
  abbrev pub subscribe : ℕ → Bytes → Run x (Unit {0})
  subscribe c channel = pure tt

  abbrev pub unsubscribe : ℕ → Bytes → Run x (Unit {0})
  unsubscribe c channel = pure tt

  -- one round of the loop of `pushToNativeClient`
  unfoldable pub push_one : Bytes → Bytes → Bytes → Bytes → Run x (Unit {0})
  unfolding get_online get_client send
  push_one op owner_id msg user_id = do
    found ← get_online x user_id
    elim found [
      | none ↦ pure tt
      | some c ↦ (do
        cli ← get_client x c
        if same cli.uuid owner_id then pure tt else send x c op msg)
    ]

  -- `pushToNativeClient`; `fetchAllMatchUserIds` has no error
  unfoldable pub push_to_native_client : Bytes → Bytes → Bytes → Bytes → Run x (Unit {0})
  push_to_native_client op channel_id owner_id msg = do
    user_ids ← load_user_ids_by_channel x channel_id
    for_each (push_one op owner_id msg) user_ids

  -- `forwardToAllOtherServer`: the set of all peers, put on the channel of the proxy
  unfoldable pub add_peers : List Bytes → x.peer_sets.State → x.peer_sets.State
  add_peers [] s = s
  add_peers (p ∷ ps) s = add_peers ps (x.peer_sets.add (some p) s)

  unfoldable pub forward_to_all_other_server : Bytes → Bytes → Run x (Unit {0})
  unfolding add_peers
  forward_to_all_other_server cmd message w =
      if not (is_dist_mode x.conf) || same cmd [] || same message [] then (done tt, w) else (
        done tt,
        record w {
          forwarded =
              w.forwarded
              ++ record {
                peers = x.peer_sets.elements (add_peers w.peers x.peer_sets.empty);
                msg = message;
                cmd = cmd;
              }
                ∷ [];
        },
      )

  -- `forwardToOtherServerInChannel`, which nothing calls
  unfoldable pub forward_to_other_server_in_channel : Bytes → Bytes → Bytes → Run x (Unit {0})
  unfolding add_peers
  forward_to_other_server_in_channel cmd channel_id message w =
      if not (is_dist_mode x.conf) || same cmd [] || same channel_id [] || same message []
      then (done tt, w)
      else (
        done tt,
        record w {
          forwarded =
              w.forwarded
              ++ record {
                peers = x.peer_sets.elements (add_peers w.peers x.peer_sets.empty);
                msg = message;
                cmd = cmd;
              }
                ∷ [];
        },
      )

  -- `PublishStrMsg`
  unfoldable pub publish_str_msg : Bytes → Bytes → Bytes → Bool → Run x (Unit {0})
  publish_str_msg channel msg owner_id is_to_other_server = do
    push_to_native_client output_rciv channel owner_id msg
    if is_to_other_server
        then forward_to_all_other_server s2s_push_string_message (words (channel ∷ msg ∷ []))
        else pure tt

  -- `PublishBinMsg`
  unfoldable pub publish_bin_msg : Bytes → Bytes → Bytes → Bool → Run x (Unit {0})
  publish_bin_msg channel owner_id msg is_to_other_server = do
    push_to_native_client cmd_vido channel owner_id msg
    if is_to_other_server
        then forward_to_all_other_server cmd_vido (channel ++ (space ∷ msg))
        else pure tt

  -- `storage.EnqueueMsg`
  unfoldable pub enqueue_msg : Bytes → Bytes → Bytes → ℕ → ℤ → Run x (Unit {0})
  enqueue_msg channel msg uuid ts msg_id = modify (λ w. record w {
    queue =
        w.queue
        ++ record { channel = channel; msg = msg; ts = ts; uuid = uuid; msg_id = msg_id } ∷ [];
  })

  -- the text that `Publish` sends to clients
  abbrev pub client_msg : Bytes → Bytes → ℕ → ℤ → Bytes → Bytes
  client_msg channel user_id ts msg_id msg =
      words (dec message_type_normal ∷ channel ∷ user_id ∷ dec ts ∷ dec_int msg_id ∷ msg ∷ [])

  -- `Publish`; `MsgCache.Store` has no code left but comments
  unfoldable pub publish : Bytes → Bytes → Bytes → ℤ → Bool → Run x (Unit {0})
  unfolding now_nanos enqueue_msg
  publish channel msg user_id msg_id from_s2s = do
    ts ← now_nanos x
    publish_str_msg channel (client_msg channel user_id ts msg_id msg) user_id (not from_s2s)
    if not from_s2s && enable_storage x.conf
        then enqueue_msg channel msg user_id ts msg_id
        else pure tt

  -- `PushToClients`
  unfoldable pub push_to_clients : Bytes → List Bytes → Run x (Unit {0})
  unfolding get_online send
  push_to_clients msg = for_each λ user_id. do
    found ← get_online x user_id
    elim found [ none ↦ pure tt | some c ↦ send x c output_rciv msg ]
