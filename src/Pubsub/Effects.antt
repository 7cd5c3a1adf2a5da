-- ===== src/Pubsub/Effects.antt =====
-- Everything that publishing a message does.
use pushd.Prelude.{
  ◌+◌, ◌≡◌, refl, Bool, true, false, List, [], ◌∷◌, ◌++◌, append-nil, arith, ℤ, done,
}
use pushd.Text.{Bytes, same, words}
use pushd.Config.{is_dist_mode, enable_storage}
use pushd.Names.{output_rciv, s2s_push_string_message}
use pushd.External.{External}
use pushd.External.Laws.{LruLaws}
use pushd.World.{World, ForwardTuple}
use pushd.Members.{
  load_user_ids_by_channel, load_user_ids_from_database, get_user_ids_by_channel, add_all_user_ids,
}
use pushd.Pubsub.{
  push_to_native_client, publish_str_msg, publish, forward_to_all_other_server,
  forward_to_other_server_in_channel, add_peers, client_msg,
}
use pushd.Pubsub.Delivery.{
  NamesUsers, copies, recipients, members_of, load_ids, for_each_push, loaded,
  push_to_native_client-recipients,
}

module _ (x : External) (l : LruLaws x.rooms) (channel : Bytes) (w : World x) where
  load_rest :
      ((load_user_ids_by_channel x channel w).1.queue ≡ w.queue)
      × ((load_user_ids_by_channel x channel w).1.forwarded ≡ w.forwarded)
      × ((load_user_ids_by_channel x channel w).1.peers ≡ w.peers)
  unfolding load_user_ids_by_channel get_user_ids_by_channel load_user_ids_from_database
      add_all_user_ids
  load_rest = ground (arith, l.get_value channel w.rooms)

  -- Pushing changes nothing but what is sent and what is cached.
  pub push_to_native_client_rest :
      (op owner_id msg : Bytes)
      → ((push_to_native_client x op channel owner_id msg w).0 ≡ done tt)
        × ((push_to_native_client x op channel owner_id msg w).1.queue ≡ w.queue)
        × ((push_to_native_client x op channel owner_id msg w).1.forwarded ≡ w.forwarded)
        × ((push_to_native_client x op channel owner_id msg w).1.peers ≡ w.peers)
  unfolding push_to_native_client
  push_to_native_client_rest op owner_id msg =
      let v = (load_user_ids_by_channel x channel w).1 in
      rw (load_ids x l channel w, for_each_push x op owner_id msg (loaded x channel w) v)
        (refl, load_rest.0, load_rest.1, load_rest.2)

module _ (x : External) where
  -- the frame that goes to every peer
  abbrev pub tuple_for_peers : World x → Bytes → Bytes → ForwardTuple
  tuple_for_peers w cmd message = record {
    peers = x.peer_sets.elements (add_peers x w.peers x.peer_sets.empty);
    msg = message;
    cmd = cmd;
  }

  abbrev pub when {ℓ} : {A : Type ℓ} → Bool → A → List A
  when true a = a ∷ []
  when false a = []

  -- What is meant for the peers of one channel goes to every peer.
  forward_to_other_server_in_channel_lem :
      (cmd channel_id msg : Bytes) (w : World x)
      → same channel_id [] ≡ false
      → forward_to_other_server_in_channel x cmd channel_id msg w
        ≡ forward_to_all_other_server x cmd msg w
  unfolding forward_to_other_server_in_channel forward_to_all_other_server
  forward_to_other_server_in_channel_lem cmd channel_id msg w e = ground (arith, e)

  -- The message is put on the proxy's channel once in a cluster, and not at all without one.
  forward_str_msg :
      (channel msg : Bytes) (w : World x)
      → forward_to_all_other_server x s2s_push_string_message (words (channel ∷ msg ∷ [])) w ≡ (
        done tt,
        record w {
          forwarded =
              w.forwarded
              ++ when
                  (is_dist_mode x.conf)
                  (tuple_for_peers w s2s_push_string_message (words (channel ∷ msg ∷ [])));
        },
      )
  unfolding forward_to_all_other_server same
  forward_str_msg [] msg w = ground (arith, append-nil w.forwarded)
  forward_str_msg (c ∷ channel) msg w = ground (arith, append-nil w.forwarded)

  module _ (l : LruLaws x.rooms) (channel msg user_id : Bytes) (msg_id : ℤ) (w : World x) where
    -- A client's message is sent under the time at which it is published: to each online member but
    -- the sender, once; to the peers of a cluster, once, behind the name of its channel; and to the
    -- storage queue, when a storage is configured, with the same time. No client may be registered
    -- under the empty text.
    pub publish_effects :
        NamesUsers x w
        → (let v = (publish x channel msg user_id msg_id false w).1 in
            let ts = x.clock w.reads in
            let text = client_msg x channel user_id ts msg_id msg in
            ((publish x channel msg user_id msg_id false w).0 ≡ done tt)
            × (v.sent
                ≡ w.sent
                  ++ copies x output_rciv text
                      (recipients x w.clients w.online user_id (members_of x channel w)))
            × (v.forwarded
                ≡ w.forwarded
                  ++ when
                      (is_dist_mode x.conf)
                      (tuple_for_peers w s2s_push_string_message (words (channel ∷ text ∷ []))))
            × (v.queue
                ≡ w.queue
                  ++ when (enable_storage x.conf) (record {
                    channel = channel;
                    msg = msg;
                    ts = ts;
                    uuid = user_id;
                    msg_id = msg_id;
                  })))
    unfolding publish publish_str_msg members_of
    publish_effects names =
        let v = record w { reads = w.reads + 1 } in
        let text = client_msg x channel user_id (x.clock w.reads) msg_id msg in
        let p = push_to_native_client x output_rciv channel user_id text v in
        let s = push_to_native_client-recipients x l channel v output_rciv user_id text names in
        let r = push_to_native_client_rest x l channel v output_rciv user_id text in
        ground (arith, s, r, forward_str_msg channel text p.1, append-nil p.1.queue)
