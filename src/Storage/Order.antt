-- ===== src/Storage/Order.antt =====
-- No message is lost, repeated or reordered between its sender and the driver.
use pushd.Prelude.{
  ℕ, zero, suc, ◌≤◌, ◌≡◌, inl, inr, refl, ap, subst, Option, none, some, List, [], ◌∷◌, ◌++◌,
  append-nil, append_assoc, arith, ltb, Bool-cases, length, length-append,
}
use pushd.Config.{FlushPolicy, every_trx, every_second}
use pushd.External.{Mongo, MsgTuple}
use pushd.Storage.{
  Storage, Move, step, give, Reached, sends, init, enqueue_msg, hand_over_msg, receive_msg,
  settle_msg, tick_flush, drain_one, insert_records,
}

abbrev pub waiting : Option MsgTuple → List MsgTuple
waiting none = []
waiting (some mt) = mt ∷ []

abbrev pub taken : Option (ℕ × List MsgTuple) → List MsgTuple
taken none = []
taken (some (n, records)) = records

abbrev pub due : Option (ℕ × List MsgTuple) → ℕ
due none = 0
due (some (n, records)) = n

-- of the value, if there is one
abbrev After : {A : Type 0} → (A → Type 0) → Option A → Type 0
After P none = Unit
After P (some a) = P a

module _ (mongo : Mongo) (policy : FlushPolicy) (queue_max buffer_max : ℕ) where
  -- every message that was sent, in its order: given to the driver, or on its way
  abbrev pub in_order : Storage mongo → List MsgTuple
  in_order s = s.handed ++ (taken s.flush ++ (s.buffer ++ (waiting s.held ++ s.queue)))

  pub record Sound (ms : List MsgTuple) (s : Storage mongo) : Type 0 where
    -- nothing is lost, repeated or reordered
    pub kept : ms ≡ in_order s
    -- the ticking goroutine never waits for a message
    pub enough : due s.flush ≤ length s.buffer
    -- without a buffer nothing waits in one
    pub direct : policy ≡ every_trx → (s.buffer ≡ []) × (s.flush ≡ none)
    pub room : (length s.queue ≤ queue_max) × (length s.buffer ≤ buffer_max)

  module _ (ms : List MsgTuple) (s : Storage mongo) (i : Sound ms s) where
    enqueue-Sound :
        (mt : MsgTuple)
        → After (Sound (ms ++ mt ∷ [])) (enqueue_msg mongo policy queue_max buffer_max mt s)
    unfolding enqueue_msg
    enqueue-Sound mt = elim (Bool-cases (ltb (length s.queue) queue_max)) [
      | inr e ↦ rw e tt
      | inl e ↦ rw e record {
        kept = rw (i.kept, append_assoc, append_assoc, append_assoc, append_assoc) refl;
        enough = i.enough;
        direct = i.direct;
        room = ground (arith, e, i.room, length-append s.queue (mt ∷ []));
      }
    ]

    hand_over-Sound :
        (mt : MsgTuple) (h : Option MsgTuple) (q : List MsgTuple)
        → s.held ≡ h
        → s.queue ≡ q
        → After (Sound (ms ++ mt ∷ [])) (hand_over_msg mongo policy queue_max buffer_max mt h q s)
    unfolding hand_over_msg
    hand_over-Sound mt none [] e f = record {
      kept = rw (i.kept, e, f, append-nil, append_assoc, append_assoc) refl;
      enough = i.enough;
      direct = i.direct;
      room = i.room;
    }
    hand_over-Sound mt none (q ∷ qs) e f = tt
    hand_over-Sound mt (some h) q e f = tt

    receive-Sound :
        (h : Option MsgTuple) (q : List MsgTuple)
        → s.held ≡ h
        → s.queue ≡ q
        → After (Sound ms) (receive_msg mongo policy queue_max buffer_max h q s)
    unfolding receive_msg
    receive-Sound none (mt ∷ rest) e f = record {
      kept = rw (i.kept, e, f) refl;
      enough = i.enough;
      direct = i.direct;
      room = ground (arith, i.room, ap length f);
    }
    receive-Sound none [] e f = tt
    receive-Sound (some h) q e f = tt

    settle-Sound :
        (p : FlushPolicy) (h : Option MsgTuple)
        → policy ≡ p
        → s.held ≡ h
        → After (Sound ms) (settle_msg mongo policy queue_max buffer_max p h s)
    unfolding settle_msg give
    settle-Sound p none q e = tt
    settle-Sound every_trx (some mt) q e = record {
      kept = rw (i.kept, e, (i.direct q).0, (i.direct q).1, append_assoc) refl;
      enough = i.enough;
      direct = i.direct;
      room = i.room;
    }
    settle-Sound every_second (some mt) q e = elim (Bool-cases (ltb (length s.buffer) buffer_max)) [
      | inr f ↦ rw f tt
      | inl f ↦ rw f record {
        kept = rw (i.kept, append_assoc, e) refl;
        enough = omega (arith, i.enough, length-append s.buffer (mt ∷ []));
        direct = λ t. ground (arith, q, t);
        room = ground (arith, f, i.room, length-append s.buffer (mt ∷ []));
      }
    ]

    tick-Sound :
        (p : FlushPolicy) (f : Option (ℕ × List MsgTuple)) (b : List MsgTuple)
        → policy ≡ p
        → s.flush ≡ f
        → After (Sound ms) (tick_flush mongo policy queue_max buffer_max p f b s)
    unfolding tick_flush
    tick-Sound every_second none (mt ∷ rest) q e = record {
      kept = rw (i.kept, e) refl;
      enough = omega arith;
      direct = λ t. ground (arith, q, t);
      room = i.room;
    }
    tick-Sound every_second none [] q e = tt
    tick-Sound every_second (some f) b q e = tt
    tick-Sound every_trx f b q e = tt

    drain-Sound :
        (f : Option (ℕ × List MsgTuple)) (b : List MsgTuple)
        → s.flush ≡ f
        → s.buffer ≡ b
        → After (Sound ms) (drain_one mongo policy queue_max buffer_max f b s)
    unfolding drain_one
    drain-Sound (some (suc n, records)) (mt ∷ rest) e g = record {
      kept = rw (i.kept, e, g, append_assoc) refl;
      enough = ground (arith, i.enough, ap due e, ap length g);
      direct = λ t. ground (arith, e, (i.direct t).1);
      room = ground (arith, i.room, ap length g);
    }
    drain-Sound (some (zero, records)) b e g = tt
    drain-Sound (some (suc n, records)) [] e g = tt
    drain-Sound none b e g = tt

    insert-Sound :
        (f : Option (ℕ × List MsgTuple))
        → s.flush ≡ f
        → After (Sound ms) (insert_records mongo policy queue_max buffer_max f s)
    unfolding insert_records give
    insert-Sound (some (zero, records)) e = record {
      kept = rw (i.kept, e, append_assoc) refl;
      enough = omega arith;
      direct = λ t. ((i.direct t).0, refl);
      room = i.room;
    }
    insert-Sound (some (suc n, records)) e = tt
    insert-Sound none e = tt

  step-Sound :
      (m : Move) (ms : List MsgTuple) (s : Storage mongo)
      → Sound ms s
      → After
          (Sound (ms ++ sends mongo policy queue_max buffer_max m))
          (step mongo policy queue_max buffer_max m s)
  unfolding step
  step-Sound (Move.enqueue mt) ms s i = enqueue-Sound ms s i mt
  step-Sound (Move.hand_over mt) ms s i = hand_over-Sound ms s i mt s.held s.queue refl refl
  step-Sound Move.receive ms s i = rw append-nil (receive-Sound ms s i s.held s.queue refl refl)
  step-Sound Move.settle ms s i = rw append-nil (settle-Sound ms s i policy s.held refl refl)
  step-Sound Move.tick ms s i = rw append-nil (tick-Sound ms s i policy s.flush s.buffer refl refl)
  step-Sound Move.drain ms s i = rw append-nil (drain-Sound ms s i s.flush s.buffer refl refl)
  step-Sound Move.insert ms s i = rw append-nil (insert-Sound ms s i s.flush refl)

  -- However the senders, the loop of the storage and the ticking goroutine take turns, under either
  -- flush policy: the messages that were given to the driver, then those that the ticking goroutine
  -- holds, those in its buffer, the one that the loop holds and those in the queue are, in this
  -- order, exactly the messages that were sent, in the order in which they were sent. The goroutine
  -- never waits for more messages than the buffer has, both channels stay within their bounds, and
  -- without a buffering policy nothing stands in the buffer.
  pub Reached-Sound :
      (d : mongo.Db) (ms : List MsgTuple) (s : Storage mongo)
      → Reached mongo policy queue_max buffer_max d ms s
      → Sound ms s
  unfolding init
  Reached-Sound d ms s Reached.start = record {
    kept = refl;
    enough = omega arith;
    direct = λ t. (refl, refl);
    room = (omega arith, omega arith);
  }
  Reached-Sound d _ s (Reached.by m {ms} {s = before} r e) =
      subst (After (Sound (ms ++ sends mongo policy queue_max buffer_max m))) e
        (step-Sound m ms before (Reached-Sound d ms before r))
