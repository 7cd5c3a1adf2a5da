-- ===== src/Storage/Progress.antt =====
-- The storage loop can always give every message to the driver.
use pushd.Prelude.{
  ℕ, zero, suc, ◌<◌, ◌≡◌, refl, ap, ◌∙◌, subst, true, Option, none, some, List, [], ◌∷◌, ◌++◌,
  append-nil, arith, ltb, length, drop,
}
use pushd.Config.{FlushPolicy, every_trx, every_second}
use pushd.External.{Mongo, MsgTuple}
use pushd.Storage.{
  Storage, Move, step, give, Reached, Later, sends, receive_msg, settle_msg, tick_flush, drain_one,
  insert_records,
}
use pushd.Storage.Order.{Sound, Reached-Sound, due}

drop-length : {A : Type 0} (xs : List A) → drop (length xs) xs ≡ []
drop-length [] = refl
drop-length (a ∷ xs) = drop-length xs

module _ (mongo : Mongo) (policy : FlushPolicy) (queue_max buffer_max : ℕ) where
  Later-Reached :
      (d : mongo.Db) (ms : List MsgTuple) (s t : Storage mongo)
      → Reached mongo policy queue_max buffer_max d ms s
      → Later mongo policy queue_max buffer_max s t
      → Reached mongo policy queue_max buffer_max d ms t
  Later-Reached d ms s _ r Later.now = r
  Later-Reached d ms s t r (Later.next m {t = t'} l e h) =
      subst (λ k. Reached mongo policy queue_max buffer_max d k t)
        (ap (λ k. ms ++ k) e ∙ append-nil ms) (Reached.by m (Later-Reached d ms s t' r l) h)

module _ (mongo : Mongo) (policy : FlushPolicy) (queue_max buffer_max : ℕ) (d : mongo.Db)
    (ms : List MsgTuple) (origin : Storage mongo)
    (from : Reached mongo policy queue_max buffer_max d ms origin) where
  abbrev R : Storage mongo → Type 0
  R = Later mongo policy queue_max buffer_max origin

  sound : (s : Storage mongo) → R s → Sound mongo policy queue_max buffer_max ms s
  sound s r =
      Reached-Sound mongo policy queue_max buffer_max d ms s
        (Later-Reached mongo policy queue_max buffer_max d ms origin s from r)

  quiet :
      (m : Move) (s s' : Storage mongo)
      → sends mongo policy queue_max buffer_max m ≡ []
      → R s
      → step mongo policy queue_max buffer_max m s ≡ some s'
      → R s'
  quiet m s s' e r h = Later.next m r e h

  -- A later state between two flushes.
  record Calm (queue : List MsgTuple) (held : Option MsgTuple) (buffer : List MsgTuple)
      : Type 0 where
    state : Storage mongo
    reached : R state
    no_flush : state.flush ≡ none
    its_queue : state.queue ≡ queue
    its_held : state.held ≡ held
    its_buffer : state.buffer ≡ buffer

  finish_flush :
      (n : ℕ) (records b : List MsgTuple) (s : Storage mongo)
      → R s
      → s.flush ≡ some (n, records)
      → s.buffer ≡ b
      → Calm s.queue s.held (drop n b)
  unfolding step insert_records drain_one give
  finish_flush zero records b s r e f = record {
    state = give mongo records (record s { flush = none });
    reached = quiet Move.insert s _ refl r (rw e refl);
    no_flush = refl;
    its_queue = refl;
    its_held = refl;
    its_buffer = f;
  }
  finish_flush (suc n) records [] s r e f =
      let i = sound s r in absurd (ground (arith, i.enough, ap due e, ap length f))
  finish_flush (suc n) records (mt ∷ rest) s r e f =
      finish_flush n (records ++ mt ∷ []) rest
        (record s { flush = some (n, records ++ mt ∷ []); buffer = rest })
        (quiet Move.drain s _ refl r (rw (e, f) refl)) refl refl

  flush_buffer :
      (p : FlushPolicy) (b : List MsgTuple) (s : Storage mongo)
      → policy ≡ p
      → R s
      → s.flush ≡ none
      → s.buffer ≡ b
      → Calm s.queue s.held []
  unfolding step tick_flush
  flush_buffer p [] s q r e f = record {
    state = s;
    reached = r;
    no_flush = e;
    its_queue = refl;
    its_held = refl;
    its_buffer = f;
  }
  flush_buffer every_trx (mt ∷ rest) s q r e f =
      let i = sound s r in absurd (ground (arith, f, (i.direct q).0))
  flush_buffer every_second (mt ∷ rest) s q r e f =
      subst (Calm s.queue s.held) (drop-length s.buffer) (
        finish_flush (length s.buffer) [] s.buffer (record s { flush = some (length s.buffer, []) })
          (quiet Move.tick s _ refl r (rw (q, e, f) refl)) refl refl)

  settle_held :
      (p : FlushPolicy) (h : Option MsgTuple) (s : Storage mongo)
      → policy ≡ p
      → 0 < buffer_max
      → R s
      → s.flush ≡ none
      → s.buffer ≡ []
      → s.held ≡ h
      → Calm s.queue none []
  unfolding step settle_msg give
  settle_held p none s q room r e f g = record {
    state = s;
    reached = r;
    no_flush = e;
    its_queue = refl;
    its_held = g;
    its_buffer = f;
  }
  settle_held every_trx (some mt) s q room r e f g = record {
    state = give mongo (mt ∷ []) (record s { held = none });
    reached = quiet Move.settle s _ refl r (rw (q, g) refl);
    no_flush = e;
    its_queue = refl;
    its_held = refl;
    its_buffer = f;
  }
  settle_held every_second (some mt) s q room r e f g =
      let fits : ltb (length s.buffer) buffer_max ≡ true = ground (arith, room, ap length f) in
      flush_buffer every_second (s.buffer ++ mt ∷ [])
        (record s { held = none; buffer = s.buffer ++ mt ∷ [] }) q
        (quiet Move.settle s _ refl r (rw (q, g, fits) refl)) e refl

  empty_queue :
      (qs : List MsgTuple) (s : Storage mongo)
      → 0 < buffer_max
      → R s
      → s.flush ≡ none
      → s.buffer ≡ []
      → s.held ≡ none
      → s.queue ≡ qs
      → Calm [] none []
  unfolding step receive_msg
  empty_queue [] s room r e f g h = record {
    state = s;
    reached = r;
    no_flush = e;
    its_queue = h;
    its_held = g;
    its_buffer = f;
  }
  empty_queue (mt ∷ rest) s room r e f g h =
      let c =
        settle_held policy (some mt) (record s { held = some mt; queue = rest }) refl room
          (quiet Move.receive s _ refl r (rw (g, h) refl)) e f refl in
      empty_queue rest c.state room c.reached c.no_flush c.its_buffer c.its_held c.its_queue

  end_flush : (f : Option (ℕ × List MsgTuple)) → origin.flush ≡ f → Calm origin.queue origin.held []
  end_flush none e = flush_buffer policy origin.buffer origin refl Later.now e refl
  end_flush (some (n, records)) e =
      let c = finish_flush n records origin.buffer origin Later.now e refl in
      let t = flush_buffer policy c.state.buffer c.state refl c.reached c.no_flush refl in
      subst (λ q. Calm q origin.held []) c.its_queue
        (subst (λ h. Calm c.state.queue h []) c.its_held t)

  all_handed : (c : Calm [] none []) → c.state.handed ≡ ms
  all_handed c =
      rw
        (
          (sound c.state c.reached).kept,
          c.no_flush,
          c.its_buffer,
          c.its_held,
          c.its_queue,
          append-nil,
        )
        refl

  -- From every state that is reached, and without any other message being sent, the two loops can
  -- come to a state in which the driver was given exactly the messages that were sent, in their
  -- order. The write buffer must have room for one message.
  pub Later-handed :
      0 < buffer_max
      → (s : Storage mongo) × Later mongo policy queue_max buffer_max origin s × (s.handed ≡ ms)
  Later-handed room =
      let b = end_flush origin.flush refl in
      let h =
        settle_held policy b.state.held b.state refl room b.reached b.no_flush b.its_buffer refl in
      let c =
        empty_queue h.state.queue h.state room h.reached h.no_flush h.its_buffer h.its_held refl in
      (c.state, c.reached, all_handed c)
