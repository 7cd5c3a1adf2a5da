-- ===== src/Peer/Cluster.antt =====
-- A message on its way from the server where it is published to the members on another server:
-- `Publish`, `WaitMsg`, and `OnRead` of the peer.
use pushd.Prelude.{
  panic, arith, false, ◌≡◌, refl, ◌∙◌, true, false, Option, none, some, List, [], ◌∷◌, ◌++◌,
  if◌then◌else◌, All, ℤ, done,
}
use pushd.Text.{Bytes, same, Lacks, space, words}
use pushd.Config.{is_dist_mode}
use pushd.Wire.{frame}
use pushd.Names.{output_rciv, s2s_push_string_message, cmd_vido}
use pushd.External.{External}
use pushd.External.Laws.{LruLaws, PeerSetLaws, elem, occurs_peer}
use pushd.World.{World, ForwardTuple}
use pushd.Pubsub.{publish, publish_bin_msg, forward_to_all_other_server, client_msg, add_peers}
use pushd.Pubsub.Delivery.{NamesUsers, copies, recipients, members_of}
use pushd.Pubsub.Effects.{push_to_native_client_rest, publish_effects, tuple_for_peers}
use pushd.S2s.{on_read_peer}
use pushd.S2s.Relay.{
  StringFrame, on_read_peer-string, on_read_peer-vido, unlisted, ne_nil, params_pos,
}
use pushd.Peer.{PeerWrite, wait_msg, wait_on, set_forwarded, writes_for}
use pushd.Peer.Forwarding.{written_to, writes_to, written_to-writes_to, occurs_peer-add_peers}

All-writes_to_of :
    (P : PeerWrite → Type 0) (x : External) (cmd msg : Bytes) (ps : List (Option Bytes))
    → ((p : Option Bytes) → P (record { peer = p; op = cmd; msg = msg }))
    → All P (writes_to x cmd msg ps)
All-writes_to_of P x cmd msg [] h = tt
All-writes_to_of P x cmd msg (p ∷ ps) h = (h p, All-writes_to_of P x cmd msg ps h)

wait_msg_one :
    (x : External) (t : ForwardTuple) (w : World x)
    → w.forwarded ≡ t ∷ []
    → (wait_msg x w).0 ≡ done (some (writes_for t))
unfolding wait_msg wait_on set_forwarded
wait_msg_one x t w h = rw h refl

-- A text that a peer reads reaches its online members of the channel; but a peer that does not know
-- which servers follow the channel panics when the document of the channel has no users.
abbrev pub Relayed : (y : External) → World y → Bytes → Bytes → Bytes → PeerWrite → Type 0
Relayed y v channel text addr a =
    let r = on_read_peer y (frame a.op a.msg) addr v in
    (r.0 ≡ (if unlisted y channel v then panic else done none))
    × (r.1.sent
        ≡ v.sent
          ++ (if unlisted y channel v
              then []
              else copies y output_rciv text
                  (recipients y v.clients v.online [] (members_of y channel v))))
    × (r.1.forwarded ≡ v.forwarded)
    × (r.1.queue ≡ v.queue)

module _ (x y : External) (lx : LruLaws x.rooms) (ps : PeerSetLaws x.peer_sets)
    (ly : LruLaws y.rooms) where
  -- Across a cluster: what a client publishes on one server is taken by the next round of its proxy,
  -- which writes once to each server that is among its peers, and to no other address; and whatever
  -- it writes, a server that reads it sends the same text, with the same time, to each of its own
  -- online members of the channel, once, forwards nothing on and stores nothing. But where that
  -- server does not know yet which servers follow the channel, and the document of the channel has
  -- no users, it panics and sends nothing. Nothing else may wait for the proxy, the name of the
  -- channel may hold no space, channel and text must fit a frame of less than 2 ^ 31 bytes, and no
  -- client of either server may be registered under the empty text.
  pub publish-across :
      (channel msg user_id addr : Bytes) (msg_id : ℤ) (w : World x) (v : World y)
      → is_dist_mode x.conf ≡ true
      → w.forwarded ≡ []
      → Lacks space channel
      → StringFrame y channel (client_msg x channel user_id (x.clock w.reads) msg_id msg)
      → NamesUsers x w
      → NamesUsers y v
      → (ws : List PeerWrite) × ((wait_msg x (publish x channel msg user_id msg_id false w).1).0
          ≡ done (some ws))
        × ((p : Bytes) → written_to (some p) ws ≡ (if elem p w.peers then 1 else 0))
        × All
            (Relayed y v channel (client_msg x channel user_id (x.clock w.reads) msg_id msg) addr)
            ws
  unfolding writes_for occurs_peer
  publish-across channel msg user_id addr msg_id w v dist idle h f names names' =
      let text = client_msg x channel user_id (x.clock w.reads) msg_id msg in
      let body = words (channel ∷ text ∷ []) in
      let known_peers = x.peer_sets.elements (add_peers x w.peers x.peer_sets.empty) in
      let published = publish_effects x lx channel msg user_id msg_id w names in
      let one : (publish x channel msg user_id msg_id false w).1.forwarded
          ≡ tuple_for_peers x w s2s_push_string_message body ∷ [] =
        published.2 ∙ rw (idle, dist) refl in
      (
        writes_to x s2s_push_string_message body known_peers,
        wait_msg_one x (tuple_for_peers x w s2s_push_string_message body)
            (publish x channel msg user_id msg_id false w).1 one,
        λ p.
            written_to-writes_to x s2s_push_string_message body (some p) known_peers
            ∙ occurs_peer-add_peers x ps p w.peers x.peer_sets.empty
            ∙ rw ps.elements_empty refl,
        All-writes_to_of (Relayed y v channel text addr) x s2s_push_string_message body known_peers
            (λ p. on_read_peer-string y ly channel text addr v h f names'),
      )

  vido_named : same cmd_vido [] ≡ false
  unfolding same
  vido_named = refl

  publish_bin_msg-forwarded :
      (channel owner_id msg : Bytes) (w : World x)
      → is_dist_mode x.conf ≡ true
      → w.forwarded ≡ []
      → (publish_bin_msg x channel owner_id msg true w).1.forwarded
        ≡ tuple_for_peers x w cmd_vido (channel ++ (space ∷ msg)) ∷ []
  unfolding publish_bin_msg forward_to_all_other_server
  publish_bin_msg-forwarded channel owner_id msg w dist idle = ground (
    arith,
    push_to_native_client_rest x lx channel w cmd_vido owner_id msg,
    ne_nil x channel msg,
    vido_named,
    dist,
    idle,
  )

  -- Across a cluster, binary messages are lost: what `PublishBinMsg` puts on the channel of the
  -- proxy is taken by its next round, which writes once to each server that is among the peers, and
  -- to no other address; and whatever it writes, a server that reads it takes it without an error
  -- and does nothing: it sends and forwards nothing, and its state stays as it was. Nothing else may
  -- wait for the proxy, and channel and message must fit a frame of less than 2 ^ 31 bytes.
  pub publish_bin_msg-lost :
      (channel owner_id msg addr : Bytes) (w : World x) (v : World y)
      → is_dist_mode x.conf ≡ true
      → w.forwarded ≡ []
      → StringFrame y channel msg
      → (ws : List PeerWrite) × ((wait_msg x (publish_bin_msg x channel owner_id msg true w).1).0
          ≡ done (some ws))
        × ((p : Bytes) → written_to (some p) ws ≡ (if elem p w.peers then 1 else 0))
        × All (λ a. on_read_peer y (frame a.op a.msg) addr v ≡ (done none, v)) ws
  unfolding writes_for occurs_peer
  publish_bin_msg-lost channel owner_id msg addr w v dist idle f =
      let body = channel ++ (space ∷ msg) in
      let known_peers = x.peer_sets.elements (add_peers x w.peers x.peer_sets.empty) in
      (
        writes_to x cmd_vido body known_peers,
        wait_msg_one x (tuple_for_peers x w cmd_vido body)
            (publish_bin_msg x channel owner_id msg true w).1
            (publish_bin_msg-forwarded channel owner_id msg w dist idle),
        λ p.
            written_to-writes_to x cmd_vido body (some p) known_peers
            ∙ occurs_peer-add_peers x ps p w.peers x.peer_sets.empty
            ∙ rw ps.elements_empty refl,
        All-writes_to_of (λ a. on_read_peer y (frame a.op a.msg) addr v ≡ (done none, v)) x cmd_vido
            body known_peers (λ p. on_read_peer-vido y body addr v (params_pos y channel msg) f),
      )
