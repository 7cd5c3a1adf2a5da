-- ===== src/World.antt =====
-- The state of one server process and the actions on it. Handlers run on explicit state, may panic,
-- and keep what was written before a panic. What a handler starts with `go` is recorded: writes to
-- clients in `sent`, the set-up of a client in `spawned`.
use pushd.Prelude.{
  ℕ, ◌+◌, ◌/◌, Bool, Option, none, some, List, [], ◌∷◌, ◌++◌, ◌==◌, if◌then◌else◌, Outcome, done,
  panic,
}
use pushd.Text.{Bytes}
use pushd.External.{External, MsgTuple, Write, DbError}

abbrev pub Action : Type 0 → Type 0 → Type 0
Action S A = S → Outcome A × S

module _ {S : Type 0} where
  abbrev pub pure : {A : Type 0} → A → Action S A
  pure a s = (done a, s)

  abbrev pub crash : {A : Type 0} → Action S A
  crash s = (panic, s)

  abbrev pub gets : {A : Type 0} → (S → A) → Action S A
  gets f s = (done (f s), s)

  abbrev pub modify : (S → S) → Action S (Unit {0})
  modify f s = (done tt, f s)

  abbrev pub continue : {A B : Type 0} → Outcome A → (A → Action S B) → Action S B
  continue (done a) f s = f a s
  continue panic f s = (panic, s)

  infixl 5 ◌>>=◌ ◌>>◌
  abbrev pub ◌>>=◌ : {A B : Type 0} → Action S A → (A → Action S B) → Action S B
  ◌>>=◌ m f s = let (r, s') = m s in continue r f s'

  abbrev pub ◌>>◌ : {A B : Type 0} → Action S A → Action S B → Action S B
  m >> n = m >>= λ _. n

  -- a value that may be missing, where Go would panic
  abbrev pub or_crash : {A : Type 0} → Option A → Action S A
  or_crash none = crash
  or_crash (some a) = pure a

-- `client.state`
pub data ClientState : Type 0 where
  create init_done dead : ClientState

pub record Client : Type 0 where
  pub channels : List Bytes
  pub kind : ℕ
  pub uuid : Bytes
  pub token : Bytes
  pub expire : ℕ
  pub push_id : Bytes
  pub is_allow_force_notify : Bool
  pub state : ClientState
  -- whether the connection below was closed
  pub closed : Bool

-- `go cli.WriteFormatBinMsg(op, msg)`
pub record Sent : Type 0 where
  pub client : ℕ
  pub op : Bytes
  pub msg : Bytes

pub record ForwardTuple : Type 0 where
  pub peers : List (Option Bytes)
  pub msg : Bytes
  pub cmd : Bytes

pub record World (x : External) : Type 0 where
  pub db : x.mongo.Db
  pub reads : ℕ
  pub draws : ℕ
  -- the clients that were allocated, by address, and `UuidToClient`
  pub clients : ℕ → Client
  pub online : x.registry.State
  -- `channelToUserIds`: the cache holds addresses of collections
  pub rooms : x.rooms.State
  pub collections : ℕ → x.id_sets.State
  pub next_collection : ℕ
  -- `Proxy.Router`: the addresses of `Peers`, and a cache of addresses of peer sets
  pub peers : List Bytes
  pub routes : x.routes.State
  pub peer_sets : ℕ → x.peer_sets.State
  pub next_peer_set : ℕ
  -- `Proxy.ForwardTuple`, `storage.msgQueue`
  pub forwarded : List ForwardTuple
  pub queue : List MsgTuple
  pub sent : List Sent
  pub spawned : List ℕ

abbrev pub update {ℓ} : {A : Type ℓ} → (ℕ → A) → ℕ → A → ℕ → A
update f k v n = if n == k then v else f n

module _ (x : External) where
  abbrev pub Run : Type 0 → Type 0
  Run A = Action (World x) A

  -- `time.Now().UnixNano()`
  unfoldable pub now_nanos : Run ℕ
  now_nanos w = (done (x.clock w.reads), record w { reads = w.reads + 1 })

  -- `time.Now().Unix()`
  unfoldable pub now_secs : Run ℕ
  now_secs w = (done (x.clock w.reads / 1000000000), record w { reads = w.reads + 1 })

  unfoldable pub draw : (ℕ → Bytes) → Run Bytes
  draw source w = (done (source w.draws), record w { draws = w.draws + 1 })

  -- a write to the database, and the error that it returns
  unfoldable pub write : Write → Run (Option DbError)
  write q w = let (e, d) = x.mongo.write q w.db in (done e, record w { db = d })

  -- a read of the database
  unfoldable pub query : {A : Type 0} → (x.mongo.Db → A) → Run A
  query f w = (done (f w.db), w)

  unfoldable pub get_client : ℕ → Run Client
  get_client c w = (done (w.clients c), w)

  unfoldable pub set_client : ℕ → Client → Run (Unit {0})
  set_client c v w = (done tt, record w { clients = update w.clients c v })

  unfoldable pub send : ℕ → Bytes → Bytes → Run (Unit {0})
  send c op msg w =
      (done tt, record w { sent = w.sent ++ record { client = c; op = op; msg = msg } ∷ [] })

module _ {S A : Type 0} where
  -- `for _, a := range as { body(a) }`
  unfoldable pub for_each : (A → Action S (Unit {0})) → List A → Action S (Unit {0})
  for_each body [] = pure tt
  for_each body (a ∷ as') = body a >> for_each body as'
