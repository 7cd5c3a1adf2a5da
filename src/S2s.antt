-- ===== src/S2s.antt =====
-- Commands from peer servers (engine/s2s_server.go).
pub mod Relay
use pushd.Prelude.{
  ℕ, zero, suc, ◌+◌, ◌-◌, ◌*◌, ◌/◌, ◌%◌, ◌^◌, ◌≤◌, ◌<◌, ◌≡◌, ◌≢◌, ◌↔◌, ◌⊎◌, inl, inr, refl, sym, ap,
  ◌∙◌, subst, Bool, true, false, ◌&&◌, ◌||◌, not, Option, none, some, List, [], ◌∷◌, ◌++◌, map,
  append-nil, append_assoc, arith, ltb, leb, ◌==◌, if◌then◌else◌, ==_iff, Bool-cases, Option-cases,
  length, get_elem?, take, drop, replicate, length-append, take-append, drop-append, All,
  All-append, ℤ, pos, negsuc, Outcome, done, panic,
}
use pushd.Text.{Bytes, codes, same, space, split_n, split_at, words}
use pushd.Text.Number.{dec}
use pushd.Wire.{ServerCmdline, Parsed, parsed, refused, new_server_cmdline}
use pushd.Config.{get_s2s_addr}
use pushd.Names.{s2s_sub_cmd, s2s_unsub_cmd, s2s_push_binary_message, s2s_push_string_message}
use pushd.External.{External, ok, err}
use pushd.World.{
  Action, World, Run, pure, crash, gets, modify, ◌>>=◌, ◌>>◌, query, or_crash, for_each,
}
use pushd.Registry.{get_online}
use pushd.Pubsub.{subscribe, publish_str_msg, publish_bin_msg}
use pushd.Router.{lookup_peers_by_channel, add_peer_to_channel, remove_peer_from_channel}

-- the place of the first space, and zero when there is none
unfoldable pub space_index : ℕ → Bytes → ℕ
space_index i [] = 0
space_index i (c ∷ s) = let rest = space_index (i + 1) s in if c == space then i else rest

module _ (x : External) where
  -- `PubsubChannels.Get(channelId)`: whether it has the channel. Nothing puts a channel there.
  unfoldable pub pubsub_channel_exists : Bytes → Run x Bool
  pubsub_channel_exists channel_id = pure false

  -- The rest of `checkAndSetLocalChannel` for a channel whose peers were not known: the users of
  -- its document who are online are subscribed, which has no code left. A failed query ends it; a
  -- document without users fails the type assertion.
  unfoldable pub subscribe_online : Bytes → Run x (Unit {0})
  unfolding get_online
  subscribe_online channel_id = do
    result ← query x (x.mongo.find_uuids channel_id)
    elim result [
      | err _ ↦ pure tt
      | ok uuids ↦ (do
        user_ids ← or_crash uuids
        for_each
            (λ user_id. do
              temp_client ← get_online x user_id
              elim temp_client [ none ↦ pure tt | some c ↦ subscribe x c channel_id ])
            user_ids)
    ]

  -- `checkAndSetLocalChannel`
  unfoldable pub check_and_set_local_channel : Bytes → Bytes → Run x (Unit {0})
  unfolding pubsub_channel_exists subscribe_online
  check_and_set_local_channel channel_id remote_addr = do
    found ← lookup_peers_by_channel x channel_id
    elim found [
      | some _ ↦ (do pubsub_channel_exists channel_id; pure tt)
      | none ↦ (do
        add_peer_to_channel x (get_s2s_addr remote_addr) channel_id
        exists ← pubsub_channel_exists channel_id
        if exists then pure tt else subscribe_online channel_id)
    ]

  unfoldable pub push_binary : Bytes → Bytes → ℕ → Run x (Option Bytes)
  push_binary params remote_addr zero = pure (some (codes "param wrong"))
  push_binary params remote_addr (suc i) = do
    let channel_id = take (suc i) params
    check_and_set_local_channel channel_id remote_addr
    publish_bin_msg x channel_id [] (drop (suc i + 1) params) false
    pure none

  unfoldable pub push_string : List Bytes → Bytes → Run x (Option Bytes)
  push_string (channel_id ∷ message ∷ []) remote_addr = do
    check_and_set_local_channel channel_id remote_addr
    publish_str_msg x channel_id message [] false
    pure none
  push_string _ remote_addr = pure (some (codes "param error"))

  -- `processCmd`; the result is its error
  unfoldable pub process_cmd : ServerCmdline → Bytes → Run x (Option Bytes)
  unfolding push_binary push_string
  process_cmd cl remote_addr =
      if same cl.params []
      then pure (some (codes "param wrong"))
      else if same cl.cmd s2s_sub_cmd
      then (do check_and_set_local_channel cl.params remote_addr; pure none)
      else if same cl.cmd s2s_unsub_cmd
      then (do remove_peer_from_channel x (get_s2s_addr remote_addr) cl.params; pure none)
      else if same cl.cmd s2s_push_binary_message
      then push_binary cl.params remote_addr (space_index 0 cl.params)
      else if same cl.cmd s2s_push_string_message
      then push_string (split_n cl.params 2) remote_addr
      else pure none

  unfoldable pub on_parsed : Bytes → Outcome (Parsed ServerCmdline) → Run x (Option Bytes)
  on_parsed remote_addr panic = crash
  on_parsed remote_addr (done (refused e)) = pure (some e)
  on_parsed remote_addr (done (parsed cl)) = process_cmd cl remote_addr

  -- `S2sClientProcessor.OnRead`; an error closes the connection
  unfoldable pub on_read_peer : Bytes → Bytes → Run x (Option Bytes)
  unfolding on_parsed
  on_read_peer input remote_addr = on_parsed remote_addr (new_server_cmdline input)

  -- `S2sClientProcessor.OnAccept` on the messages that arrive before the connection ends: any error of
  -- `Read` ends it, and so does an error of `OnRead`. The connection is golib's.
  unfoldable pub on_accept_peer : Bytes → List Bytes → Run x (Unit {0})
  on_accept_peer remote_addr [] = pure tt
  on_accept_peer remote_addr (input ∷ rest) = do
    e ← on_read_peer input remote_addr
    elim e [ some _ ↦ pure tt | none ↦ on_accept_peer remote_addr rest ]
