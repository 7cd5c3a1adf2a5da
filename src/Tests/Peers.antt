-- ===== src/Tests/Peers.antt =====
-- Peers at a concrete network and process.
use pushd.Prelude.{
  ℕ, ◌≡◌, refl, true, false, ◌&&◌, not, none, some, List, [], ◌∷◌, arith, ◌==◌, if◌then◌else◌, All,
  pos, done, panic,
}
use pushd.Text.{Bytes, codes, same}
use pushd.Config.{is_dist_mode}
use pushd.External.Laws.{elem, occurs}
use pushd.Text.Number.{dec, dec_int}
use pushd.Pubsub.{publish, publish_bin_msg, client_msg}
use pushd.S2s.{on_read_peer}
use pushd.Wire.{frame}
use pushd.S2s.Relay.{StringFrame}
use pushd.Peer.Cluster.{Relayed, publish-across, publish_bin_msg-lost}
use pushd.Peer.{Network, Peer, PeerWrite, write_format_msg, wait_msg, watch_peers}
use pushd.Peer.Attempts.{Attempt, write_format_msg-Attempt}
use pushd.Peer.Forwarding.{written_to, watch_peers-peers, announced, others}
use pushd.Tests.Memory.{here, office, office-NamesUsers, memory_peers-laws, memory_lru-laws}

-- nothing is connected at first, and the first write fails
abbrev shaky : Network
shaky = record {
  resolves = true;
  dial_ok = λ n. true;
  write_ok = λ n. not (n == 1);
  is_connected = λ c n. done false;
}

abbrev unconnected : Peer
unconnected = record { client = none; events = [] }

write_format_msg-Attempt_example :
    Attempt
      (codes "op")
      (codes "hi")
      2
      3
      (write_format_msg shaky (codes "op") (codes "hi"))
      unconnected
write_format_msg-Attempt_example =
    write_format_msg-Attempt shaky refl (codes "op") (codes "hi") unconnected false refl

in_a_cluster : is_dist_mode here.conf ≡ true
unfolding is_dist_mode
in_a_cluster = refl

watch_peers-peers_example :
    (let servers = codes "10.0.0.1:2223" ∷ codes "10.0.0.3:2223" ∷ [] in
      ((watch_peers here servers office).0
        ≡ (if not here.resolves && others here servers then panic else done tt))
      × (occurs (codes "10.0.0.3:2223") (watch_peers here servers office).1.peers ≡ (
          if here.resolves
          then announced here (occurs (codes "10.0.0.3:2223") office.peers) (
              elem (codes "10.0.0.3:2223") servers
              && not (same (codes "10.0.0.3:2223") here.conf.s2s_listen_addr))
          else occurs (codes "10.0.0.3:2223") office.peers)))
watch_peers-peers_example =
    watch_peers-peers here (codes "10.0.0.1:2223" ∷ codes "10.0.0.3:2223" ∷ [])
      (codes "10.0.0.3:2223") office

short_text :
    StringFrame here
      (codes "room")
      (client_msg here (codes "room") (codes "ann") 1000000000 (pos 7) (codes "hi"))
unfolding dec dec_int
short_text = omega arith

publish-across_example :
    (let text = client_msg here (codes "room") (codes "ann") 1000000000 (pos 7) (codes "hi") in
      (ws : List PeerWrite) × ((wait_msg here
          (publish here (codes "room") (codes "hi") (codes "ann") (pos 7) false office).1).0
        ≡ done (some ws))
      × ((p : Bytes) → written_to (some p) ws ≡ (if elem p office.peers then 1 else 0))
      × All (Relayed here office (codes "room") text (codes "10.0.0.1:99")) ws)
publish-across_example =
    publish-across here here (memory_lru-laws ℕ) memory_peers-laws (memory_lru-laws ℕ)
      (codes "room") (codes "hi") (codes "ann") (codes "10.0.0.1:99") (pos 7) office office
      in_a_cluster refl (omega arith) short_text office-NamesUsers office-NamesUsers

publish_bin_msg-lost_example :
    (ws : List PeerWrite) × ((wait_msg here
        (publish_bin_msg here (codes "room") (codes "ann") (codes "xyz") true office).1).0
      ≡ done (some ws))
    × ((p : Bytes) → written_to (some p) ws ≡ (if elem p office.peers then 1 else 0))
    × All
        (λ a.
          on_read_peer here (frame a.op a.msg) (codes "10.0.0.1:99") office ≡ (done none, office))
        ws
publish_bin_msg-lost_example =
    publish_bin_msg-lost here here (memory_lru-laws ℕ) memory_peers-laws (memory_lru-laws ℕ)
      (codes "room") (codes "ann") (codes "xyz") (codes "10.0.0.1:99") office office in_a_cluster
      refl (omega arith)
