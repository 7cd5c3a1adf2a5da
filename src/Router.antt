-- ===== src/Router.antt =====
-- `Router` and `Peer` (engine/router.go): the peer servers, and which of them follow a channel. The
-- cache holds the addresses of peer sets. The connections themselves are left out.
use pushd.Prelude.{
  ℕ, ◌+◌, Bool, true, false, Option, none, some, List, [], ◌∷◌, ◌++◌, if◌then◌else◌, done, panic,
  not,
}
use pushd.Text.{Bytes, same}
use pushd.External.{External}
use pushd.World.{Run, pure, gets, modify, ◌>>=◌, ◌>>◌, update}

-- `this.Peers[addr]`: nil when the address is not there
unfoldable pub peer_at : List Bytes → Bytes → Option Bytes
peer_at [] addr = none
peer_at (p ∷ ps) addr = if same p addr then some p else peer_at ps addr

module _ (x : External) where
  -- `LookupPeersByChannel`: the address of the channel's set
  unfoldable pub lookup_peers_by_channel : Bytes → Run x (Option ℕ)
  lookup_peers_by_channel channel w =
      let (r, s) = x.routes.get channel w.routes in (done r, record w { routes = s })

  unfoldable pub new_peer_set : Run x ℕ
  new_peer_set w = (
    done w.next_peer_set,
    record w {
      peer_sets = update w.peer_sets w.next_peer_set x.peer_sets.empty;
      next_peer_set = w.next_peer_set + 1;
    },
  )

  unfoldable pub change_peers : ℕ → (x.peer_sets.State → x.peer_sets.State) → Run x (Unit {0})
  change_peers r f = modify (λ w. record w { peer_sets = update w.peer_sets r (f (w.peer_sets r)) })

  -- `AddPeerToChannel`: `Add` says whether the peer is new, and only then the cache is written
  unfoldable pub add_peer_to_channel : Bytes → Bytes → Run x (Unit {0})
  unfolding lookup_peers_by_channel new_peer_set change_peers peer_at
  add_peer_to_channel peer_addr channel = do
    found ← lookup_peers_by_channel channel
    r ← elim found [ some r ↦ pure r | none ↦ new_peer_set ]
    peer ← gets (λ w. peer_at w.peers peer_addr)
    known ← gets (λ w. x.peer_sets.contains peer (w.peer_sets r))
    change_peers r (x.peer_sets.add peer)
    if known then pure tt else modify (λ w. record w { routes = x.routes.set channel r w.routes })

  -- `RemovePeerFromChannel`; the result is whether it returns an error
  unfoldable pub remove_peer_from_channel : Bytes → Bytes → Run x Bool
  unfolding lookup_peers_by_channel change_peers peer_at
  remove_peer_from_channel peer_addr channel = do
    found ← lookup_peers_by_channel channel
    elim found [
      | none ↦ pure true
      | some r ↦ (do
        peer ← gets (λ w. peer_at w.peers peer_addr)
        change_peers r (x.peer_sets.remove peer)
        pure false)
    ]

  -- `connectPeer`, with `NewPeer`: a server does not connect to itself. `initClientConn` panics when
  -- the server's own address does not resolve; an error of its dial is not read. A peer is known
  -- here by its address, and the entry of a peer that is known is replaced by one with the same.
  unfoldable pub connect_peer : Bytes → Run x (Unit {0})
  unfolding peer_at
  connect_peer server w =
      if same server x.conf.s2s_listen_addr
      then (done tt, w)
      else if not x.resolves
      then (panic, w)
      else elim (peer_at w.peers server) [
        | some _ ↦ (done tt, w)
        | none ↦ (done tt, record w { peers = w.peers ++ server ∷ [] })
      ]
