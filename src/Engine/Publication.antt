-- ===== src/Engine/Publication.antt =====
-- What a publication does in a server process that has been running.
use pushd.Prelude.{◌≡◌, Bool, false, [], ◌∷◌, ◌++◌, ℤ, done}
use pushd.Text.{Bytes, words}
use pushd.Config.{is_dist_mode, enable_storage}
use pushd.Names.{output_rciv, s2s_push_string_message}
use pushd.External.{External}
use pushd.External.Laws.{LruLaws, MapLaws}
use pushd.World.{World}
use pushd.Pubsub.{publish, client_msg}
use pushd.Pubsub.Delivery.{copies, recipients, members_of}
use pushd.Pubsub.Effects.{publish_effects, when, tuple_for_peers}
use pushd.Engine.Events.{Ran}
use pushd.Engine.Running.{Ran-Sound}

module _ (x : External) (l : LruLaws x.rooms) (m : MapLaws x.registry) where
  -- Under the laws of the cache and of the concurrent map: after any events of a server process, a
  -- message that a client publishes is sent under the time at which it is published: to each online
  -- member but the sender, once; to the peers of a cluster, once, behind the name of its channel;
  -- and to the storage queue, when a storage is configured, with the same time.
  pub Ran-publish :
      (acl : Bool) (w : World x)
      → Ran x acl w
      → (channel msg user_id : Bytes) (msg_id : ℤ)
      → (let v = (publish x channel msg user_id msg_id false w).1 in
          let ts = x.clock w.reads in
          let text = client_msg x channel user_id ts msg_id msg in
          ((publish x channel msg user_id msg_id false w).0 ≡ done tt)
          × (v.sent
              ≡ w.sent
                ++ copies x output_rciv text
                    (recipients x w.clients w.online user_id (members_of x channel w)))
          × (v.forwarded
              ≡ w.forwarded
                ++ when x
                    (is_dist_mode x.conf)
                    (tuple_for_peers x w s2s_push_string_message (words (channel ∷ text ∷ []))))
          × (v.queue
              ≡ w.queue
                ++ when x (enable_storage x.conf) (record {
                  channel = channel;
                  msg = msg;
                  ts = ts;
                  uuid = user_id;
                  msg_id = msg_id;
                })))
  Ran-publish acl w r channel msg user_id msg_id =
      publish_effects x l channel msg user_id msg_id w (Ran-Sound x l m acl w r).unnamed
