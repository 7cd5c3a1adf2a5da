-- ===== src/Engine/Publishing.antt =====
-- Loading members and publishing keep a state sound, and a message is queued once.
use pushd.Prelude.{
  ◌+◌, ◌≡◌, ap, ◌&&◌, ◌++◌, if◌then◌else◌, inl, inr, refl, Bool, ◌||◌, not, List, [], ◌∷◌, arith,
  Bool-cases, ℤ, done,
}
use pushd.Text.{Bytes, same}
use pushd.External.{External, MsgTuple}
use pushd.External.Laws.{LruLaws}
use pushd.World.{World}
use pushd.Members.{
  add_user_id, add_all_user_ids, remove_user_id, get_user_ids_by_channel, exists_room,
  load_user_ids_from_database, load_user_ids_by_channel,
}
use pushd.Pubsub.{
  push_one, push_to_native_client, forward_to_all_other_server, publish_str_msg, publish_bin_msg,
  publish, push_to_clients, client_msg,
}
use pushd.Config.{is_dist_mode, enable_storage}
use pushd.Names.{output_rciv}
use pushd.Pubsub.Effects.{push_to_native_client_rest}
use pushd.Engine.Grown.{Grew, Grew-refl, Grew-read, Grew-trans, Stamped-le}
use pushd.Engine.Kept.{Kept, Sound}
use pushd.Engine.Actions.{steps}
use pushd.Engine.Shared.{get_value-Kept, value_or_new-Kept, change-Kept}

module _ (x : External) (l : LruLaws x.rooms) where
  pub add_user_id-Kept : (channel u : Bytes) → Kept x (add_user_id x channel u)
  unfolding add_user_id
  add_user_id-Kept channel u = search (steps, value_or_new-Kept x l, change-Kept)

  pub add_all_user_ids-Kept :
      (channel : Bytes) (us : List Bytes) → Kept x (add_all_user_ids x channel us)
  unfolding add_all_user_ids
  add_all_user_ids-Kept channel us = search (steps, value_or_new-Kept x l, change-Kept)

  pub remove_user_id-Kept : (channel u : Bytes) → Kept x (remove_user_id x channel u)
  unfolding remove_user_id
  remove_user_id-Kept channel u = search (steps, get_value-Kept x l, change-Kept)

  get_user_ids-Kept : (channel : Bytes) → Kept x (get_user_ids_by_channel x channel)
  unfolding get_user_ids_by_channel
  get_user_ids-Kept channel = search (steps, get_value-Kept x l)

  pub exists_room-Kept : (channel : Bytes) → Kept x (exists_room x channel)
  unfolding exists_room
  exists_room-Kept channel = search (steps, get_user_ids-Kept)

  pub load_user_ids_from_database-Kept :
      (channel : Bytes) → Kept x (load_user_ids_from_database x channel)
  unfolding load_user_ids_from_database
  load_user_ids_from_database-Kept channel = search (steps, add_all_user_ids-Kept)

  pub load_user_ids_by_channel-Kept :
      (channel : Bytes) → Kept x (load_user_ids_by_channel x channel)
  unfolding load_user_ids_by_channel
  load_user_ids_by_channel-Kept channel =
      search (steps, get_user_ids-Kept, load_user_ids_from_database-Kept)

  push_one-Kept : (op owner_id msg u : Bytes) → Kept x (push_one x op owner_id msg u)
  unfolding push_one
  push_one-Kept op owner_id msg u = search steps

  push-Kept :
      (op channel owner_id msg : Bytes) → Kept x (push_to_native_client x op channel owner_id msg)
  unfolding push_to_native_client
  push-Kept op channel owner_id msg = search (steps, push_one-Kept, load_user_ids_by_channel-Kept)

  forward-Kept : (cmd msg : Bytes) → Kept x (forward_to_all_other_server x cmd msg)
  unfolding forward_to_all_other_server
  forward-Kept cmd msg = record {
    sound = λ w h. ground (arith, h);
    grew = λ w. elim (Bool-cases (not (is_dist_mode x.conf) || same cmd [] || same msg [])) [
      | inl e ↦ rw e (Grew-refl x w)
      | inr e ↦ rw e (
          let g = Grew-refl x w in
          record {
            queued = g.queued;
            passed = (_, refl);
            wrote = g.wrote;
            drawn = g.drawn;
            closed = g.closed;
            dead = g.dead;
          })
    ];
  }

  pub publish_str_msg-Kept :
      (channel msg owner_id : Bytes) (fwd : Bool)
      → Kept x (publish_str_msg x channel msg owner_id fwd)
  unfolding publish_str_msg
  publish_str_msg-Kept channel msg owner_id fwd = search (steps, push-Kept, forward-Kept)

  pub publish_bin_msg-Kept :
      (channel owner_id msg : Bytes) (fwd : Bool)
      → Kept x (publish_bin_msg x channel owner_id msg fwd)
  unfolding publish_bin_msg
  publish_bin_msg-Kept channel owner_id msg fwd = search (steps, push-Kept, forward-Kept)

  -- what `PublishStrMsg` leaves alone
  publish_str_msg-queue :
      (channel msg owner_id : Bytes) (fwd : Bool) (w : World x)
      → ((publish_str_msg x channel msg owner_id fwd w).0 ≡ done tt)
        × ((publish_str_msg x channel msg owner_id fwd w).1.queue ≡ w.queue)
  unfolding publish_str_msg forward_to_all_other_server
  publish_str_msg-queue channel msg owner_id fwd w =
      ground (arith, push_to_native_client_rest x l channel w output_rciv owner_id msg)

  module _ (channel msg user_id : Bytes) (id : ℤ) (from_s2s : Bool) (w : World x) where
    abbrev stored_too : Bool
    stored_too = not from_s2s && enable_storage x.conf

    abbrev text : Bytes
    text = client_msg x channel user_id (x.clock w.reads) id msg

    -- the world before the message is put on the storage queue, and then
    abbrev pushed : World x
    pushed =
        (publish_str_msg x channel text user_id (not from_s2s) (record w { reads = w.reads + 1 })).1

    abbrev for_storage : MsgTuple
    for_storage = record {
      channel = channel;
      msg = msg;
      ts = x.clock w.reads;
      uuid = user_id;
      msg_id = id;
    }

    publish_after : (publish x channel msg user_id id from_s2s w).1 ≡ (
        if stored_too then record pushed { queue = pushed.queue ++ for_storage ∷ [] } else pushed)
    unfolding publish
    publish_after =
        let q =
          publish_str_msg-queue channel text user_id (not from_s2s)
            (record w { reads = w.reads + 1 }) in
        ground (arith, q)

    publish-Sound : Sound x w → Sound x (publish x channel msg user_id id from_s2s w).1
    publish-Sound h =
        let k = publish_str_msg-Kept channel text user_id (not from_s2s) in
        let s = k.sound (record w { reads = w.reads + 1 }) h in
        elim (Bool-cases stored_too) [
          | inl e ↦ rw (publish_after, e) s
          | inr e ↦ rw (publish_after, e) s
        ]

    -- The message is put on the queue once, under the reading of the clock that is its time.
    enqueued-Grew : Grew x w (record pushed { queue = pushed.queue ++ for_storage ∷ [] })
    enqueued-Grew =
        let v = record w { reads = w.reads + 1 } in
        let k = publish_str_msg-Kept channel text user_id (not from_s2s) in
        let g = k.grew v in
        let q = publish_str_msg-queue channel text user_id (not from_s2s) v in
        let later = Stamped-le x.clock v.reads pushed.reads g.queued.0 g.queued.2 in
        record {
          queued = (
            for_storage ∷ [],
            ap (λ l. l ++ for_storage ∷ []) q.1,
            (w.reads, omega arith, refl, later),
          );
          passed = g.passed;
          wrote = g.wrote;
          drawn = g.drawn;
          closed = g.closed;
          dead = g.dead;
        }

    publish-Grew : Grew x w (publish x channel msg user_id id from_s2s w).1
    publish-Grew =
        let v = record w { reads = w.reads + 1 } in
        let k = publish_str_msg-Kept channel text user_id (not from_s2s) in
        elim (Bool-cases stored_too) [
          | inl e ↦ rw (publish_after, e) enqueued-Grew
          | inr e ↦ rw (publish_after, e) (Grew-trans x w v pushed (Grew-read x w) (k.grew v))
        ]

  pub publish-Kept :
      (channel msg user_id : Bytes) (id : ℤ) (from_s2s : Bool)
      → Kept x (publish x channel msg user_id id from_s2s)
  publish-Kept channel msg user_id id from_s2s = record {
    sound = publish-Sound channel msg user_id id from_s2s;
    grew = publish-Grew channel msg user_id id from_s2s;
  }

  pub push_to_clients-Kept : (msg : Bytes) (us : List Bytes) → Kept x (push_to_clients x msg us)
  unfolding push_to_clients
  push_to_clients-Kept msg us = search steps
