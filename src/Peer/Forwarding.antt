-- ===== src/Peer/Forwarding.antt =====
-- Who is written to: the peers that are known, and the writes that the proxy starts.
use pushd.Prelude.{
  ℕ, ◌+◌, ◌≡◌, refl, ap, ◌∙◌, Bool, true, false, ◌&&◌, not, Option, none, some, List, [], ◌∷◌, ◌++◌,
  map, arith, ltb, if◌then◌else◌, All, done, panic, ◌||◌, Bool-cases, inl, inr,
}
use pushd.Text.{Bytes, same, same_iff}
use pushd.Config.{is_dist_mode}
use pushd.External.{External}
use pushd.External.Laws.{occurs, elem, same_peer, occurs_peer, PeerSetLaws}
use pushd.World.{World, for_each}
use pushd.Router.{connect_peer, peer_at}
use pushd.Pubsub.{forward_to_all_other_server, add_peers}
use pushd.Peer.{PeerWrite, writes_for, wait_msg, watch_peers}

-- how many goroutines write to a peer
unfoldable pub written_to : Option Bytes → List PeerWrite → ℕ
written_to p [] = 0
written_to p (t ∷ ts) = if same_peer t.peer p then written_to p ts + 1 else written_to p ts

module _ (x : External) where
  pub occurs_peer-add_peers :
      (l : PeerSetLaws x.peer_sets) (p : Bytes) (ps : List Bytes) (s : x.peer_sets.State)
      → occurs_peer (some p) (x.peer_sets.elements (add_peers x ps s))
        ≡ (if elem p ps then 1 else occurs_peer (some p) (x.peer_sets.elements s))
  unfolding add_peers same_peer
  occurs_peer-add_peers l p [] s = refl
  occurs_peer-add_peers l p (q ∷ qs) s = ground (
    arith,
    occurs_peer-add_peers l p qs (x.peer_sets.add (some q) s),
    l.elements_add (some p) (some q) s,
  )

  occurs_peer-add_peers-none :
      (l : PeerSetLaws x.peer_sets) (ps : List Bytes) (s : x.peer_sets.State)
      → occurs_peer none (x.peer_sets.elements (add_peers x ps s))
        ≡ occurs_peer none (x.peer_sets.elements s)
  unfolding add_peers same_peer
  occurs_peer-add_peers-none l [] s = refl
  occurs_peer-add_peers-none l (q ∷ qs) s =
      occurs_peer-add_peers-none l qs (x.peer_sets.add (some q) s) ∙ l.elements_add none (some q) s

  -- the goroutines for a list of peers
  abbrev pub writes_to : Bytes → Bytes → List (Option Bytes) → List PeerWrite
  writes_to cmd msg ps = map (λ q. record { peer = q; op = cmd; msg = msg }) ps

  pub written_to-writes_to :
      (cmd msg : Bytes) (p : Option Bytes) (ps : List (Option Bytes))
      → written_to p (writes_to cmd msg ps) ≡ occurs_peer p ps
  unfolding written_to occurs_peer
  written_to-writes_to cmd msg p [] = refl
  written_to-writes_to cmd msg p (q ∷ qs) = ground (arith, written_to-writes_to cmd msg p qs)

  All-writes_to :
      (cmd msg : Bytes) (ps : List (Option Bytes))
      → All (λ a. (a.op ≡ cmd) × (a.msg ≡ msg)) (writes_to cmd msg ps)
  All-writes_to cmd msg [] = tt
  All-writes_to cmd msg (q ∷ qs) = ((refl, refl), All-writes_to cmd msg qs)

  -- In a cluster, with nothing else waiting for the proxy: what a server forwards is taken by the
  -- next round of the proxy, which starts one goroutine for each peer that is known, and no other;
  -- each is to write the command and the message as they were forwarded, and the proxy waits again.
  -- Neither the command nor the message may be empty.
  wait_msg-forward :
      (l : PeerSetLaws x.peer_sets) (cmd msg : Bytes) (w : World x)
      → is_dist_mode x.conf ≡ true
      → same cmd [] ≡ false
      → same msg [] ≡ false
      → w.forwarded ≡ []
      → (ws : List PeerWrite) × (wait_msg x (forward_to_all_other_server x cmd msg w).1
          ≡ (done (some ws), record w { forwarded = [] }))
        × ((p : Bytes) → written_to (some p) ws ≡ (if elem p w.peers then 1 else 0))
        × (written_to none ws ≡ 0)
        × All (λ a. (a.op ≡ cmd) × (a.msg ≡ msg)) ws
  unfolding wait_msg forward_to_all_other_server writes_for occurs_peer
  wait_msg-forward l cmd msg w dist c m e =
      let ps = x.peer_sets.elements (add_peers x w.peers x.peer_sets.empty) in
      (
        writes_to cmd msg ps,
        rw (dist, c, m, e) refl,
        λ p.
            written_to-writes_to cmd msg (some p) ps
            ∙ occurs_peer-add_peers l p w.peers x.peer_sets.empty
            ∙ rw l.elements_empty refl,
        written_to-writes_to cmd msg none ps
            ∙ occurs_peer-add_peers-none l w.peers x.peer_sets.empty
            ∙ rw l.elements_empty refl,
        All-writes_to cmd msg ps,
      )

  -- how often an address stands among the peers once a server is announced
  abbrev pub announced : ℕ → Bool → ℕ
  announced n b = if ltb 0 n then n else if b then 1 else 0

  peer_at-none : (ps : List Bytes) (p : Bytes) → peer_at ps p ≡ none → occurs p ps ≡ 0
  unfolding peer_at occurs
  peer_at-none [] p h = refl
  peer_at-none (q ∷ qs) p h = ground (arith, peer_at-none qs p)

  peer_at_absent : (ps : List Bytes) (p : Bytes) → occurs p ps ≡ 0 → peer_at ps p ≡ none
  unfolding peer_at occurs
  peer_at_absent [] p h = refl
  peer_at_absent (r ∷ rs) p h = ground (arith, peer_at_absent rs p)

  occurs-same : (p q : Bytes) (ps : List Bytes) → same p q ≡ true → occurs p ps ≡ occurs q ps
  occurs-same p q ps e = ap (λ r. occurs r ps) ((same_iff p q).0 e)

  occurs-snoc :
      (p q : Bytes) (ps : List Bytes)
      → occurs p (ps ++ q ∷ []) ≡ (if same q p then occurs p ps + 1 else occurs p ps)
  unfolding occurs
  occurs-snoc p q [] = refl
  occurs-snoc p q (r ∷ rs) = ground (arith, occurs-snoc p q rs)

  -- whether a server names another one than itself
  unfoldable pub others : List Bytes → Bool
  others [] = false
  others (s ∷ ss) = not (same s x.conf.s2s_listen_addr) || others ss

  connect_peer-resolved :
      (server p : Bytes) (w : World x)
      → x.resolves ≡ true
      → ((connect_peer x server w).0 ≡ done tt)
        × (occurs p (connect_peer x server w).1.peers
            ≡ announced (occurs p w.peers) (same server p && not (same p x.conf.s2s_listen_addr)))
  unfolding connect_peer
  connect_peer-resolved server p w r = ground (
    arith,
    r,
    same_iff server p,
    same_iff server x.conf.s2s_listen_addr,
    same_iff p x.conf.s2s_listen_addr,
    peer_at-none w.peers server,
    peer_at_absent w.peers server,
    occurs-same server p w.peers,
    occurs-snoc p server w.peers,
  )

  connect_peer_unresolved :
      (server : Bytes) (w : World x)
      → x.resolves ≡ false
      → connect_peer x server w ≡ (if same server x.conf.s2s_listen_addr then done tt else panic, w)
  unfolding connect_peer
  connect_peer_unresolved server w r = ground (arith, r)

  watch_peers-resolved :
      (servers : List Bytes) (p : Bytes) (w : World x)
      → x.resolves ≡ true
      → ((watch_peers x servers w).0 ≡ done tt)
        × (occurs p (watch_peers x servers w).1.peers
            ≡ announced (occurs p w.peers) (elem p servers && not (same p x.conf.s2s_listen_addr)))
  unfolding watch_peers for_each
  watch_peers-resolved [] p w r = ground arith
  watch_peers-resolved (s ∷ ss) p w r =
      let v = (connect_peer x s w).1 in
      ground (arith, connect_peer-resolved s p w r, watch_peers-resolved ss p v r)

  watch_peers_unresolved :
      (servers : List Bytes) (w : World x)
      → x.resolves ≡ false
      → watch_peers x servers w ≡ (if others servers then panic else done tt, w)
  unfolding watch_peers for_each others
  watch_peers_unresolved [] w r = refl
  watch_peers_unresolved (s ∷ ss) w r =
      ground (arith, connect_peer_unresolved s w r, watch_peers_unresolved ss w r)

  -- An event of the service directory, where the server's own address resolves: every server that
  -- it names, but this one, is a peer afterwards, in one entry if it was none before; every other
  -- address stands among the peers as often as before, also when the event does not name it any
  -- more. Where the own address does not resolve, the event panics if it names another server, and
  -- the peers stay as they were.
  pub watch_peers-peers :
      (servers : List Bytes) (p : Bytes) (w : World x)
      → ((watch_peers x servers w).0
          ≡ (if not x.resolves && others servers then panic else done tt))
        × (occurs p (watch_peers x servers w).1.peers ≡ (
            if x.resolves
            then announced
                (occurs p w.peers)
                (elem p servers && not (same p x.conf.s2s_listen_addr))
            else occurs p w.peers))
  unfolding watch_peers others
  watch_peers-peers servers p w = elim (Bool-cases x.resolves) [
    | inl r ↦ rw r (watch_peers-resolved servers p w r)
    | inr r ↦
        let u = watch_peers_unresolved servers w r in
        rw r (ap (λ o. o.0) u, ap (λ o. occurs p o.1.peers) u)
  ]
