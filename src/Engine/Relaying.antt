-- ===== src/Engine/Relaying.antt =====
-- The tables of peers, and what a peer sends, keep a state sound.
use pushd.Prelude.{
  ℕ, zero, suc, inl, inr, List, [], ◌∷◌, arith, Bool-cases, Option-cases, Outcome, done, panic,
}
use pushd.Text.{Bytes, same}
use pushd.External.{External}
use pushd.External.Laws.{LruLaws}
use pushd.World.{World, modify}
use pushd.Router.{
  lookup_peers_by_channel, new_peer_set, change_peers, add_peer_to_channel,
  remove_peer_from_channel, connect_peer, peer_at,
}
use pushd.Wire.{ServerCmdline, Parsed, parsed, refused, new_server_cmdline}
use pushd.S2s.{
  check_and_set_local_channel, pubsub_channel_exists, subscribe_online, push_binary, push_string,
  process_cmd, on_parsed, on_read_peer,
}
use pushd.Engine.Grown.{Grew-refl}
use pushd.Engine.Kept.{Kept}
use pushd.Engine.Actions.{steps}
use pushd.Engine.Publishing.{publish_str_msg-Kept, publish_bin_msg-Kept}

module _ (x : External) (l : LruLaws x.rooms) where
  lookup-Kept : (channel : Bytes) → Kept x (lookup_peers_by_channel x channel)
  unfolding lookup_peers_by_channel
  lookup-Kept channel = record { sound = λ w h. h; grew = λ w. Grew-refl x w }

  new_peer_set-Kept : Kept x (new_peer_set x)
  unfolding new_peer_set
  new_peer_set-Kept = record { sound = λ w h. h; grew = λ w. Grew-refl x w }

  change_peers-Kept :
      (r : ℕ) (f : x.peer_sets.State → x.peer_sets.State) → Kept x (change_peers x r f)
  unfolding change_peers
  change_peers-Kept r f = record { sound = λ w h. h; grew = λ w. Grew-refl x w }

  routed-Kept :
      (channel : Bytes) (r : ℕ)
      → Kept x (modify (λ (w : World x). record w { routes = x.routes.set channel r w.routes }))
  routed-Kept channel r = record { sound = λ w h. h; grew = λ w. Grew-refl x w }

  add_peer-Kept : (addr channel : Bytes) → Kept x (add_peer_to_channel x addr channel)
  unfolding add_peer_to_channel
  add_peer-Kept addr channel =
      search (steps, lookup-Kept, new_peer_set-Kept, change_peers-Kept, routed-Kept) depth 9

  remove_peer-Kept : (addr channel : Bytes) → Kept x (remove_peer_from_channel x addr channel)
  unfolding remove_peer_from_channel
  remove_peer-Kept addr channel = search (steps, lookup-Kept, change_peers-Kept) depth 9

  pub connect_peer-Kept : (server : Bytes) → Kept x (connect_peer x server)
  unfolding connect_peer
  connect_peer-Kept server = record {
    sound = λ w h. ground (arith, h);
    grew = λ w. elim (Bool-cases (same server x.conf.s2s_listen_addr)) [
      | inl e ↦ rw e (Grew-refl x w)
      | inr e ↦ elim (Bool-cases x.resolves) [
        | inr r ↦ rw (e, r) (Grew-refl x w)
        | inl r ↦ elim (Option-cases (peer_at w.peers server)) [
          | inl p ↦ rw (e, r, p) (Grew-refl x w)
          | inr (q, p) ↦ rw (e, r, p) (Grew-refl x w)
        ]
      ]
    ];
  }

  subscribe_online-Kept : (channel : Bytes) → Kept x (subscribe_online x channel)
  unfolding subscribe_online
  subscribe_online-Kept channel = search steps depth 12

  check-Kept : (channel addr : Bytes) → Kept x (check_and_set_local_channel x channel addr)
  unfolding check_and_set_local_channel pubsub_channel_exists
  check-Kept channel addr =
      search (steps, lookup-Kept, add_peer-Kept, subscribe_online-Kept) depth 9

  push_binary-Kept : (params addr : Bytes) (i : ℕ) → Kept x (push_binary x params addr i)
  unfolding push_binary
  push_binary-Kept params addr zero = search steps
  push_binary-Kept params addr (suc i) = search (steps, check-Kept, publish_bin_msg-Kept x l)

  push_string-Kept : (parts : List Bytes) (addr : Bytes) → Kept x (push_string x parts addr)
  unfolding push_string
  push_string-Kept [] addr = search steps
  push_string-Kept (a ∷ []) addr = search steps
  push_string-Kept (a ∷ b ∷ []) addr = search (steps, check-Kept, publish_str_msg-Kept x l)
  push_string-Kept (a ∷ b ∷ c ∷ r) addr = search steps

  process_cmd-Kept : (cl : ServerCmdline) (addr : Bytes) → Kept x (process_cmd x cl addr)
  unfolding process_cmd
  process_cmd-Kept cl addr =
      search (steps, check-Kept, remove_peer-Kept, push_binary-Kept, push_string-Kept) depth 9

  on_parsed-Kept : (addr : Bytes) (r : Outcome (Parsed ServerCmdline)) → Kept x (on_parsed x addr r)
  unfolding on_parsed
  on_parsed-Kept addr panic = search steps
  on_parsed-Kept addr (done (refused e)) = search steps
  on_parsed-Kept addr (done (parsed cl)) = search process_cmd-Kept

  pub on_read_peer-Kept : (input addr : Bytes) → Kept x (on_read_peer x input addr)
  unfolding on_read_peer
  on_read_peer-Kept input addr = on_parsed-Kept addr (new_server_cmdline input)
