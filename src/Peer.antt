-- ===== src/Peer.antt =====
-- The connection to a peer server (engine/router.go `Peer`) and the loops of the proxy
-- (engine/s2s_proxy.go `WaitMsg`, engine/etcClient.go `watchPeers`). What the network answers is a
-- function of how often it was asked; the goroutine that waits for the peer to close is left out.
pub mod Attempts
pub mod Forwarding
pub mod Cluster
use pushd.Prelude.{
  ℕ, zero, suc, ◌+◌, ◌-◌, ◌*◌, ◌/◌, ◌%◌, ◌^◌, ◌≤◌, ◌<◌, ◌≡◌, ◌≢◌, ◌↔◌, ◌⊎◌, inl, inr, refl, sym, ap,
  ◌∙◌, subst, Bool, true, false, ◌&&◌, ◌||◌, not, Option, none, some, List, [], ◌∷◌, ◌++◌, map,
  append-nil, append_assoc, arith, ltb, leb, ◌==◌, if◌then◌else◌, ==_iff, ==_refl, Bool-cases,
  Option-cases, length, get_elem?, get_elem?_of_lt, take, drop, replicate, length-append,
  take-append, drop-append, All, All-append, ℤ, pos, negsuc, Outcome, done, panic,
}
use pushd.Text.{Bytes, same}
use pushd.External.{External}
use pushd.World.{Action, Run, World, ForwardTuple, pure, crash, gets, modify, ◌>>=◌, ◌>>◌, for_each}
use pushd.Router.{connect_peer}

abbrev pub retry_cnt : ℕ
retry_cnt = 2

-- What a connection was asked, with the answer: nil or not.
pub data NetEvent : Type 0 where
  dialled : Bool → NetEvent
  wrote : Bytes → Bytes → Bool → NetEvent

-- `net.ResolveTCPAddr` of this server's address; whether the n-th dial and the n-th write succeed;
-- and what `IsConnected` says of a client that is nil, or that has seen so many events.
pub record Network : Type 0 where
  pub resolves : Bool
  pub dial_ok : ℕ → Bool
  pub write_ok : ℕ → Bool
  pub is_connected : Option ℕ → ℕ → Outcome Bool

-- One peer: its client is nil, or the connection of some dial; what happened on it so far.
pub record Peer : Type 0 where
  pub client : Option ℕ
  pub events : List NetEvent

module _ (net : Network) where
  -- `initClientConn`: whether its error is nil
  unfoldable pub init_client_conn : Action Peer Bool
  init_client_conn p = if not net.resolves then (panic, p) else (
    done (net.dial_ok (length p.events)),
    record {
      client = if net.dial_ok (length p.events) then some (length p.events) else p.client;
      events = p.events ++ dialled (net.dial_ok (length p.events)) ∷ [];
    },
  )

  -- `this.client.WriteFormatBinMsg(op, msg)`: whether its error is nil
  unfoldable pub write_bin : Bytes → Bytes → Action Peer Bool
  write_bin op msg p = (
    done (net.write_ok (length p.events)),
    record p { events = p.events ++ wrote op msg (net.write_ok (length p.events)) ∷ [] },
  )

  -- `if this.client.IsConnected()`
  unfoldable pub ask_connected : Action Peer Bool
  ask_connected p = (net.is_connected p.client (length p.events), p)

  -- one round of the loop: whether the message was written
  unfoldable pub redial : Bytes → Bytes → Action Peer Bool
  unfolding init_client_conn write_bin
  redial op msg = do
    dialled_ok ← init_client_conn
    if dialled_ok then write_bin op msg else pure false

  -- the loop, with the rounds that are left
  unfoldable pub retries : ℕ → Bytes → Bytes → Action Peer Bool
  retries zero op msg = pure false
  retries (suc n) op msg = do
    written ← redial op msg
    elim written [ true ↦ pure true | false ↦ retries n op msg ]

  -- `WriteFormatMsg`: whether it logs no failure
  unfoldable pub write_format_msg : Bytes → Bytes → Action Peer Bool
  unfolding ask_connected write_bin
  write_format_msg op msg = do
    connected ← ask_connected
    written ← (if connected then write_bin op msg else pure false)
    elim written [ true ↦ pure true | false ↦ retries retry_cnt op msg ]

-- The goroutine that `WaitMsg` starts for one peer of a tuple.
pub record PeerWrite : Type 0 where
  pub peer : Option Bytes
  pub op : Bytes
  pub msg : Bytes

unfoldable pub writes_for : ForwardTuple → List PeerWrite
writes_for t = map (λ p. record { peer = p; op = t.cmd; msg = t.msg }) t.peers

module _ (x : External) where
  unfoldable pub set_forwarded : List ForwardTuple → Run x (Unit {0})
  set_forwarded ts = modify (λ w. record w { forwarded = ts })

  unfoldable pub wait_on : List ForwardTuple → Run x (Option (List PeerWrite))
  unfolding set_forwarded
  wait_on [] = pure none
  wait_on (t ∷ ts) = do set_forwarded ts; pure (some (writes_for t))

  -- one round of `WaitMsg`: the goroutines that it starts, or `none` while it waits
  unfoldable pub wait_msg : Run x (Option (List PeerWrite))
  unfolding wait_on
  wait_msg = do ts ← gets (λ w. w.forwarded); wait_on ts

  -- one event of `watchPeers`
  unfoldable pub watch_peers : List Bytes → Run x (Unit {0})
  watch_peers servers = for_each (connect_peer x) servers
