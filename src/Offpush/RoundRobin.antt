-- ===== src/Offpush/RoundRobin.antt =====
-- The senders take turns, however the goroutines that want one are interleaved.
use pushd.Prelude.{
  ℕ, zero, suc, ◌+◌, ◌%◌, ◌^◌, ◌≤◌, ◌<◌, ◌≡◌, ◌≢◌, inl, inr, refl, sym, ap, ◌∙◌, subst, List, [],
  ◌∷◌, ◌++◌, arith, ◌==◌, ==_refl, Bool-cases, length, get_elem?_of_lt, length-append, ℤ, pos, done,
}
use native.Mathlib.Nat.{mod-lt, mod-eq_of_lt, mod-add-mod}
use pushd.Text.{Bytes}
use pushd.Offpush.Pool.{
  Caller, fresh, loaded, served, Turns, Turn, TurnsFrom, set_caller, give_turn, new_turns,
  next_slot, inc_int32, rem_int32, pick, obtain_one_off_sender, load, exchange, retry, at_first,
  after,
}

-- the first `n` turns of a pool of `s` senders: every sender in its order, again and again
unfoldable pub round_robin : ℕ → ℕ → List ℤ
round_robin s zero = []
round_robin s (suc n) = round_robin s n ++ pos (suc n % s) ∷ []

-- what a goroutine may hold after `n` turns
abbrev pub Holds : ℕ → ℕ → Caller → Type 0
Holds s n fresh = Unit
Holds s n (loaded v since) = (since ≤ n) × (v ≡ pos (since % s))
Holds s n (served slot) = (k : ℕ) × (slot ≡ pos k) × (k < s)

next_slot_lem :
    (s n : ℕ) → n < s → s < 2 ^ 31 → next_slot (pos n) (pos s) ≡ done (pos ((n + 1) % s))
unfolding next_slot inc_int32 rem_int32
next_slot_lem zero n h b = absurd (omega arith)
next_slot_lem (suc s) n h b = ground arith

module _ (s : ℕ) (some_sender : 0 < s) (int32 : s < 2 ^ 31) where
  -- the state after some turns
  pub record InTurn (t : Turns) : Type 0 where
    pub size : t.size ≡ pos s
    pub baton : t.baton ≡ pos (length t.given % s)
    pub given : t.given ≡ round_robin s (length t.given)
    pub callers : (i : ℕ) → Holds s (length t.given) (t.callers i)

  keep_holding : (n : ℕ) (c : Caller) → Holds s n c → Holds s (suc n) c
  keep_holding n fresh h = tt
  keep_holding n (loaded v since) h = (omega (arith, h.0), h.1)
  keep_holding n (served slot) h = h

  -- the turn that follows `k` others
  next_turn :
      (k : ℕ) (slot : ℤ) → next_slot (pos (k % s)) (pos s) ≡ done slot → slot ≡ pos ((k + 1) % s)
  next_turn k slot e =
      ground (arith, next_slot_lem s (k % s) (mod-lt k some_sender) int32, mod-add-mod k s 1)

  grown : (t : Turns) (slot : ℤ) → length (t.given ++ slot ∷ []) ≡ suc (length t.given)
  grown t slot = omega (arith, length-append t.given (slot ∷ []))

  Turn-InTurn : {t u : Turns} → Turn t u → InTurn t → InTurn u
  unfolding round_robin
  Turn-InTurn (load {t} i e) h = record {
    size = h.size;
    baton = h.baton;
    given = h.given;
    callers = λ j. elim (Bool-cases (j == i)) [
      | inl m ↦ rw m (omega arith, h.baton)
      | inr m ↦ rw m (h.callers j)
    ];
  }
  Turn-InTurn (exchange {t} i v slot since e f g) h =
      let n = length t.given in
      let same_next : next_slot (pos (n % s)) (pos s) ≡ done slot = rw (← h.baton, ← h.size, g) f in
      let turn : slot ≡ pos (suc n % s) = ground (arith, next_turn n slot same_next) in
      record {
        size = h.size;
        baton = rw (grown t slot) turn;
        given = rw (grown t slot, round_robin) (ground (arith, h.given, turn));
        callers = λ j. elim (Bool-cases (j == i)) [
          | inl m ↦ rw m (suc n % s, turn, mod-lt (suc n) some_sender)
          | inr m ↦ rw (m, grown t slot) (keep_holding n (t.callers j) (h.callers j))
        ];
      }
  Turn-InTurn (retry {t} i v since e f) h = record {
    size = h.size;
    baton = h.baton;
    given = h.given;
    callers = λ j. elim (Bool-cases (j == i)) [ inl m ↦ rw m tt | inr m ↦ rw m (h.callers j) ];
  }

  new-InTurn : InTurn (new_turns s)
  unfolding round_robin
  new-InTurn = record {
    size = refl;
    baton = ap pos (sym (mod-eq_of_lt some_sender));
    given = refl;
    callers = λ i. tt;
  }

  TurnsFrom-InTurn : {t : Turns} → TurnsFrom (new_turns s) t → InTurn t
  TurnsFrom-InTurn at_first = new-InTurn
  TurnsFrom-InTurn (after r st) = Turn-InTurn st (TurnsFrom-InTurn r)

  pick_lem :
      (pool : List Bytes) (k : ℕ) → k < length pool → (a : Bytes) × (pick pool (pos k) ≡ done a)
  unfolding pick
  pick_lem pool k h = let e = get_elem?_of_lt pool k h in (e.0, rw (e.1, pick) refl)

  -- However the goroutines that want a sender are interleaved, in a pool of at least one sender and
  -- less than 2 ^ 31: the turns are given in the order of the pool, from its second sender on, again
  -- and again.
  pub turns_in_order :
      (t : Turns) → TurnsFrom (new_turns s) t → t.given ≡ round_robin s (length t.given)
  turns_in_order t r = (TurnsFrom-InTurn r).given

  -- In a pool of at least one sender and less than 2 ^ 31: the place that a goroutine was given in
  -- any interleaving is that of a sender of the pool, so that looking it up does not panic.
  pick_of_served :
      (t : Turns) (i : ℕ) (slot : ℤ) (pool : List Bytes)
      → TurnsFrom (new_turns s) t
      → t.callers i ≡ served slot
      → length pool ≡ s
      → (a : Bytes) × (pick pool slot ≡ done a)
  pick_of_served t i slot pool r e l =
      let h = TurnsFrom-InTurn r in
      let g : Holds s (length t.given) (served slot) =
        subst (Holds s (length t.given)) e (h.callers i) in
      let p = pick_lem pool g.0 (omega (arith, g.2, l)) in (p.0, ap (pick pool) g.1 ∙ p.1)

  -- No goroutine waits for another that sleeps, in a pool of at least one sender and less than
  -- 2 ^ 31: where an exchange fails in any interleaving, some other goroutine was
  -- given a turn after the value was loaded.
  retry_progress :
      (t : Turns) (i : ℕ) (v : ℤ) (since : ℕ)
      → TurnsFrom (new_turns s) t
      → t.callers i ≡ loaded v since
      → t.baton ≢ v
      → since < length t.given
  retry_progress t i v since r e f =
      let h = TurnsFrom-InTurn r in
      let g : Holds s (length t.given) (loaded v since) =
        subst (Holds s (length t.given)) e (h.callers i) in
      let apart : since ≢ length t.given =
        λ k. f (h.baton ∙ ap (λ n. pos (n % s)) (sym k) ∙ sym g.1) in
      omega (arith, g.0, apart)

  obtain_done :
      (pool : List Bytes) (size baton slot : ℤ) (a : Bytes)
      → next_slot baton size ≡ done slot
      → pick pool slot ≡ done a
      → obtain_one_off_sender pool size baton ≡ done (a, slot)
  unfolding obtain_one_off_sender
  obtain_done pool size baton slot a e f = rw (e, f, obtain_one_off_sender) refl

  -- A call of `ObtainOneOffSender` that is not disturbed returns at once, on every reachable state of
  -- a pool of at least one sender and less than 2 ^ 31: it takes the two steps of one turn, and returns the sender of that place.
  pub obtain_one_off_sender_lem :
      (t : Turns) (i : ℕ) (pool : List Bytes)
      → TurnsFrom (new_turns s) t
      → t.callers i ≡ fresh
      → length pool ≡ s
      → (a : Bytes) × (slot : ℤ) × (obtain_one_off_sender pool t.size t.baton ≡ done (a, slot))
        × TurnsFrom t (give_turn (set_caller t i (loaded t.baton (length t.given))) i slot)
  obtain_one_off_sender_lem t i pool r e l =
      let h = TurnsFrom-InTurn r in
      let n = length t.given in
      let f : next_slot t.baton t.size ≡ done (pos ((n % s + 1) % s)) =
        rw (h.baton, h.size) (next_slot_lem s (n % s) (mod-lt n some_sender) int32) in
      let p = pick_lem pool ((n % s + 1) % s) (omega (arith, mod-lt (n % s + 1) some_sender, l)) in
      (
        p.0,
        pos ((n % s + 1) % s),
        obtain_done pool t.size t.baton (pos ((n % s + 1) % s)) p.0 f p.1,
        after (after at_first (load i e))
            (exchange i t.baton (pos ((n % s + 1) % s)) n (rw ==_refl refl) f refl),
      )
