-- ===== src/Storage.antt =====
-- The storage loop (engine/storage/storage.go): `Serv`, its queue and its write buffer. `Serv` and
-- the ticking goroutine are interleaved at each channel operation and at each insertion.
pub mod Order
pub mod Progress
pub mod Binding
use pushd.Prelude.{
  ℕ, zero, suc, ◌+◌, ◌-◌, ◌*◌, ◌/◌, ◌%◌, ◌^◌, ◌≤◌, ◌<◌, ◌≡◌, ◌≢◌, ◌↔◌, ◌⊎◌, inl, inr, refl, sym, ap,
  ◌∙◌, subst, Bool, true, false, ◌&&◌, ◌||◌, not, Option, none, some, List, [], ◌∷◌, ◌++◌, map,
  append-nil, append_assoc, arith, ltb, leb, ◌==◌, if◌then◌else◌, ==_iff, ==_refl, Bool-cases,
  Option-cases, length, get_elem?, take, drop, replicate, length-append, take-append, drop-append,
  All, All-append, ℤ, pos, negsuc, Outcome, done, panic,
}
use pushd.Config.{FlushPolicy, every_trx, every_second}
use pushd.External.{Mongo, MsgTuple, insert_msgs}

-- `held` is what `Serv` has received and not yet passed on; `flush` is how many messages the ticking
-- goroutine still receives, and those that it has; `handed` is what the driver was given so far.
pub record Storage (mongo : Mongo) : Type 0 where
  pub queue : List MsgTuple
  pub held : Option MsgTuple
  pub buffer : List MsgTuple
  pub flush : Option (ℕ × List MsgTuple)
  pub handed : List MsgTuple
  pub db : mongo.Db

-- One step: a sender's, `Serv`'s or the ticking goroutine's.
pub data Move : Type 0 where
  enqueue hand_over : MsgTuple → Move
  receive settle tick drain insert : Move

module _ (mongo : Mongo) where
  -- `driver.store`, `driver.storeMulti`; their error is logged
  unfoldable pub give : List MsgTuple → Storage mongo → Storage mongo
  give mts s = record s { handed = s.handed ++ mts; db = (mongo.write (insert_msgs mts) s.db).1 }

  module _ (policy : FlushPolicy) (queue_max buffer_max : ℕ) where
    -- `EnqueueMsg` on a channel with room
    unfoldable pub enqueue_msg : MsgTuple → Storage mongo → Option (Storage mongo)
    enqueue_msg mt s =
        if ltb (length s.queue) queue_max
        then some (record s { queue = s.queue ++ mt ∷ [] })
        else none

    -- `EnqueueMsg` while `Serv` waits at the empty channel
    unfoldable pub hand_over_msg :
        MsgTuple → Option MsgTuple → List MsgTuple → Storage mongo → Option (Storage mongo)
    hand_over_msg mt none [] s = some (record s { held = some mt })
    hand_over_msg mt _ _ s = none

    -- `mt := <-msgQueue`
    unfoldable pub receive_msg :
        Option MsgTuple → List MsgTuple → Storage mongo → Option (Storage mongo)
    receive_msg none (mt ∷ rest) s = some (record s { held = some mt; queue = rest })
    receive_msg _ _ s = none

    -- the body of the case: the message is stored, or waits for room in the buffer
    unfoldable pub settle_msg :
        FlushPolicy → Option MsgTuple → Storage mongo → Option (Storage mongo)
    unfolding give
    settle_msg _ none s = none
    settle_msg every_trx (some mt) s = some (give (mt ∷ []) (record s { held = none }))
    settle_msg every_second (some mt) s =
        if ltb (length s.buffer) buffer_max
        then some (record s { held = none; buffer = s.buffer ++ mt ∷ [] })
        else none

    -- `<-time.Tick(time.Second)` and `cLen := len(writeBuffer)`, when it is positive
    unfoldable pub tick_flush :
        FlushPolicy
        → Option (ℕ × List MsgTuple)
        → List MsgTuple
        → Storage mongo
        → Option (Storage mongo)
    tick_flush every_second none (mt ∷ rest) s =
        some (record s { flush = some (length s.buffer, []) })
    tick_flush _ _ _ s = none

    -- one round of the loop up to `cLen`
    unfoldable pub drain_one :
        Option (ℕ × List MsgTuple) → List MsgTuple → Storage mongo → Option (Storage mongo)
    drain_one (some (suc n, records)) (mt ∷ rest) s =
        some (record s { flush = some (n, records ++ mt ∷ []); buffer = rest })
    drain_one _ _ s = none

    -- `driver.storeMulti(records)` behind the loop
    unfoldable pub insert_records :
        Option (ℕ × List MsgTuple) → Storage mongo → Option (Storage mongo)
    unfolding give
    insert_records (some (zero, records)) s = some (give records (record s { flush = none }))
    insert_records _ s = none

    -- a step, or `none` where it has to wait
    unfoldable pub step : Move → Storage mongo → Option (Storage mongo)
    unfolding enqueue_msg hand_over_msg receive_msg settle_msg tick_flush drain_one insert_records
    step (enqueue mt) s = enqueue_msg mt s
    step (hand_over mt) s = hand_over_msg mt s.held s.queue s
    step receive s = receive_msg s.held s.queue s
    step settle s = settle_msg policy s.held s
    step tick s = tick_flush policy s.flush s.buffer s
    step drain s = drain_one s.flush s.buffer s
    step insert s = insert_records s.flush s

    -- `Init`
    unfoldable pub init : mongo.Db → Storage mongo
    init d = record { queue = []; held = none; buffer = []; flush = none; handed = []; db = d }

    -- what a step puts into the queue
    abbrev pub sends : Move → List MsgTuple
    sends (enqueue mt) = mt ∷ []
    sends (hand_over mt) = mt ∷ []
    sends _ = []

    -- The states that a run of steps reaches, with what was sent on the way.
    pub data Reached (d : mongo.Db) : List MsgTuple → Storage mongo → Type 0 where
      start : Reached d [] (init d)
      by :
          (m : Move) {ms : List MsgTuple} {s s' : Storage mongo}
          → Reached d ms s
          → step m s ≡ some s'
          → Reached d (ms ++ sends m) s'

    -- The states that the two loops reach from a state, when nothing more is sent.
    pub data Later (s : Storage mongo) : Storage mongo → Type 0 where
      now : Later s s
      next :
          (m : Move) {t t' : Storage mongo}
          → Later s t
          → sends m ≡ []
          → step m t ≡ some t'
          → Later s t'
