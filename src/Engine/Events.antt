-- ===== src/Engine/Events.antt =====
-- What happens to a running server process, as one sequence of events: connections, what is read
-- from them, the goroutines that a handler starts, peers, polls, and what others do to the
-- database.
use pushd.Prelude.{
  ℕ, ◌≡◌, Bool, false, ◌||◌, Option, none, some, List, [], ◌∷◌, ◌++◌, ◌==◌, if◌then◌else◌, take,
  drop, length,
}
use pushd.Text.{Bytes}
use pushd.External.{External, MsgTuple}
use pushd.World.{World, set_client, ForwardTuple}
use pushd.Client.{new_client, close, init_chat_env}
use pushd.Server.{on_read}
use pushd.S2s.{on_read_peer}
use pushd.Peer.{wait_msg, watch_peers}
use pushd.Offpush.{SenderPool, check_and_push}
use pushd.Polling.{Cache, Hijack, serve_publish, serve_history, serve_subscribe}

-- One event, with the address that a new client gets. A poll that subscribes has a client too.
pub data Event (x : External) : Type 0 where
  accepted hung_up set_up : ℕ → Event x
  received : ℕ → Bytes → Event x
  peer_received : Bytes → Bytes → Event x
  proxied stored : Event x
  peers_changed : List Bytes → Event x
  notified : Option SenderPool → Bytes → Bytes → Bytes → Event x
  poll_published poll_read : Cache → List (Bytes × Bytes) → Event x
  poll_subscribed : Cache → ℕ → ℕ → Hijack → List (Bytes × Bytes) → Event x
  database_changed : x.mongo.Db → Event x

-- whether a client waits to be set up
unfoldable pub waits : ℕ → List ℕ → Bool
waits c [] = false
waits c (d ∷ ds) = d == c || waits c ds

-- the clients that wait, less the one that is set up
unfoldable pub taken : ℕ → List ℕ → List ℕ
taken c [] = []
taken c (d ∷ ds) = let rest = taken c ds in if d == c then ds else d ∷ rest

module _ (x : External) where
  -- A process that has just started: nobody is online, nothing is cached, no client is set up.
  pub record Fresh (w : World x) : Type 0 where
    pub offline : (u : Bytes) → x.registry.get w.online u ≡ none
    pub uncached : (k : Bytes) → x.rooms.peek w.rooms k ≡ none
    pub idle : w.spawned ≡ []

module _ (x : External) (enable_acl_check : Bool) where
  -- the state after an event, or `none` where the event cannot happen
  unfoldable pub step : Event x → World x → Option (World x)
  unfolding waits taken set_client
  step (accepted c) w = if waits c w.spawned then none else some (set_client x c new_client w).1
  step (hung_up c) w = some (close x c w).1
  step (set_up c) w =
      if waits c w.spawned
      then some (init_chat_env x c (record w { spawned = taken c w.spawned })).1
      else none
  step (received c input) w = some (on_read x enable_acl_check c input w).1
  step (peer_received input addr) w = some (on_read_peer x input addr w).1
  step proxied w = some (wait_msg x w).1
  step stored w = some (record w { queue = drop 1 w.queue })
  step (peers_changed servers) w = some (watch_peers x servers w).1
  step (notified p channel message owner_id) w =
      some (check_and_push x p channel message owner_id w).1
  step (poll_published cache vars) w = some (serve_publish x cache vars w).1
  step (poll_read cache vars) w = some (serve_history x cache vars w).1
  step (poll_subscribed cache c reads hijack vars) w =
      if waits c w.spawned then none else some (serve_subscribe x cache c reads hijack vars w).1
  step (database_changed d) w = some (record w { db = d })

  -- The states of a process that was started and to which events happened.
  pub data Ran : World x → Type 0 where
    begun : {w : World x} → Fresh x w → Ran w
    went : (e : Event x) {v w : World x} → Ran v → step e v ≡ some w → Ran w

  -- what an event hands to the storage's loop, and to the goroutines of the proxy
  abbrev pub handed : Event x → World x → List MsgTuple
  handed stored w = take 1 w.queue
  handed _ w = []

  abbrev pub relayed : Event x → World x → List ForwardTuple
  relayed proxied w = take 1 w.forwarded
  relayed _ w = []

  -- What an event appends to the storage queue and to the proxy's channel: a turn of the loop that
  -- takes from it appends nothing.
  abbrev pub queued_by : Event x → World x → World x → List MsgTuple
  queued_by stored w v = []
  queued_by _ w v = drop (length w.queue) v.queue

  abbrev pub passed_by : Event x → World x → World x → List ForwardTuple
  passed_by proxied w v = []
  passed_by _ w v = drop (length w.forwarded) v.forwarded

  -- The states that events lead to from a state, with what was handed over on the way, and what was
  -- appended for the storage and for the proxy.
  pub data Since (w : World x)
      : List MsgTuple
        → List ForwardTuple
        → List MsgTuple
        → List ForwardTuple
        → World x
        → Type 0 where
    now : Since w [] [] [] [] w
    later :
        (e : Event x) {ms qs : List MsgTuple} {ts ps : List ForwardTuple} {u v : World x}
        → Since w ms ts qs ps u
        → step e u ≡ some v
        → Since w
            (ms ++ handed e u)
            (ts ++ relayed e u)
            (qs ++ queued_by e u v)
            (ps ++ passed_by e u v)
            v
