-- ===== src/Peer/Attempts.antt =====
-- How often a message is written to a peer.
use pushd.Prelude.{
  ℕ, zero, suc, ◌+◌, ◌≤◌, ◌≡◌, ◌⊎◌, inl, inr, refl, sym, ap, ◌∙◌, subst, Bool, true, false, List,
  [], ◌∷◌, ◌++◌, append-nil, append_assoc, arith, if◌then◌else◌, Bool-cases, length, done,
}
use pushd.Text.{Bytes}
use pushd.World.{Action, ◌>>=◌, pure}
use pushd.Peer.{
  NetEvent, dialled, wrote, Network, Peer, write_bin, ask_connected, redial, retries,
  write_format_msg,
}

-- the dials and the writes among some events, and the messages of the writes that succeeded
unfoldable pub dials : List NetEvent → ℕ
dials [] = 0
dials (dialled b ∷ es) = dials es + 1
dials (wrote op msg b ∷ es) = dials es

unfoldable pub writes : List NetEvent → ℕ
writes [] = 0
writes (dialled b ∷ es) = writes es
writes (wrote op msg b ∷ es) = writes es + 1

unfoldable pub delivered : List NetEvent → List (Bytes × Bytes)
delivered [] = []
delivered (dialled b ∷ es) = delivered es
delivered (wrote op msg true ∷ es) = (op, msg) ∷ delivered es
delivered (wrote op msg false ∷ es) = delivered es

dials-append : (es fs : List NetEvent) → dials (es ++ fs) ≡ dials es + dials fs
unfolding dials
dials-append [] fs = omega arith
dials-append (dialled b ∷ es) fs = omega (arith, dials-append es fs)
dials-append (wrote op msg b ∷ es) fs = dials-append es fs

writes-append : (es fs : List NetEvent) → writes (es ++ fs) ≡ writes es + writes fs
unfolding writes
writes-append [] fs = omega arith
writes-append (dialled b ∷ es) fs = writes-append es fs
writes-append (wrote op msg b ∷ es) fs = omega (arith, writes-append es fs)

delivered-append : (es fs : List NetEvent) → delivered (es ++ fs) ≡ delivered es ++ delivered fs
unfolding delivered
delivered-append [] fs = refl
delivered-append (dialled b ∷ es) fs = delivered-append es fs
delivered-append (wrote op msg true ∷ es) fs = ap (λ l. (op, msg) ∷ l) (delivered-append es fs)
delivered-append (wrote op msg false ∷ es) fs = delivered-append es fs

abbrev pub when_ok : Bool → Bytes → Bytes → List (Bytes × Bytes)
when_ok true op msg = (op, msg) ∷ []
when_ok false op msg = []

-- What an attempt to write did: it returned, and added events, within its bounds. The message was
-- delivered once where it succeeded, and not at all where it did not; it gives up only when all
-- its dials are used.
pub record Attempt (op msg : Bytes) (max_dials max_writes : ℕ) (m : Action Peer Bool) (p : Peer)
    : Type 0 where
  pub ok : Bool
  pub events : List NetEvent
  pub returns : (m p).0 ≡ done ok
  pub adds : (m p).1.events ≡ p.events ++ events
  pub few_dials : dials events ≤ max_dials
  pub few_writes : writes events ≤ max_writes
  pub once : delivered events ≡ when_ok ok op msg
  pub all_dials : (ok ≡ true) ⊎ (dials events ≡ max_dials)

gave_up :
    (es fs : List NetEvent) (d d' : ℕ) (b c : Bool)
    → b ≡ false
    → (b ≡ true) ⊎ (dials es ≡ d)
    → (c ≡ true) ⊎ (dials fs ≡ d')
    → (c ≡ true) ⊎ (dials (es ++ fs) ≡ d + d')
gave_up es fs d d' b c e first (inl h) = inl h
gave_up es fs d d' b c e (inl k) (inr h) = ground arith
gave_up es fs d d' b c e (inr k) (inr h) = inr (omega (arith, dials-append es fs))

module _ (net : Network) (resolves : net.resolves ≡ true) (op msg : Bytes) where
  write_bin-Attempt : (p : Peer) → Attempt op msg 0 1 (write_bin net op msg) p
  unfolding write_bin dials writes delivered
  write_bin-Attempt p = record {
    ok = net.write_ok (length p.events);
    events = wrote op msg (net.write_ok (length p.events)) ∷ [];
    returns = refl;
    adds = refl;
    few_dials = omega arith;
    few_writes = omega arith;
    once = ground arith;
    all_dials = inr refl;
  }

  redial-Attempt : (p : Peer) → Attempt op msg 1 1 (redial net op msg) p
  unfolding redial dials writes delivered
  redial-Attempt p = elim (Bool-cases (net.dial_ok (length p.events))) [
    | inl d ↦
        let b = net.write_ok (length (p.events ++ dialled true ∷ [])) in
        record {
          ok = b;
          events = dialled true ∷ wrote op msg b ∷ [];
          returns = rw (resolves, d) refl;
          adds = rw (resolves, d) (append_assoc p.events (dialled true ∷ []) (wrote op msg b ∷ []));
          few_dials = omega arith;
          few_writes = omega arith;
          once = ground arith;
          all_dials = inr refl;
        }
    | inr d ↦ record {
      ok = false;
      events = dialled false ∷ [];
      returns = rw (resolves, d) refl;
      adds = rw (resolves, d) refl;
      few_dials = omega arith;
      few_writes = omega arith;
      once = refl;
      all_dials = inr refl;
    }
  ]

  -- an attempt, and another one where it fails
  module _ (d d' k k' : ℕ) (m n : Action Peer Bool) where
    abbrev or_else : Action Peer Bool
    or_else =
        m >>= λ written. elim written as (λ b. Action Peer Bool) [ true ↦ pure true | false ↦ n ]

    or_else-Attempt :
        (p : Peer)
        → Attempt op msg d k m p
        → ((q : Peer) → Attempt op msg d' k' n q)
        → Attempt op msg (d + d') (k + k') or_else p
    or_else-Attempt p first second = elim (Bool-cases first.ok) [
      | inl e ↦
          let returned : (m p).0 ≡ done true = first.returns ∙ ap done e in
          record {
            ok = true;
            events = first.events;
            returns = rw returned refl;
            adds = rw returned first.adds;
            few_dials = omega (arith, first.few_dials);
            few_writes = omega (arith, first.few_writes);
            once = first.once ∙ ap (λ b. when_ok b op msg) e;
            all_dials = inl refl;
          }
      | inr e ↦
          let returned : (m p).0 ≡ done false = first.returns ∙ ap done e in
          let r = second (m p).1 in
          record {
            ok = r.ok;
            events = first.events ++ r.events;
            returns = rw returned r.returns;
            adds = rw returned (
                r.adds
                ∙ ap (λ l. l ++ r.events) first.adds
                ∙ append_assoc p.events first.events r.events);
            few_dials =
                omega (arith, dials-append first.events r.events, first.few_dials, r.few_dials);
            few_writes =
                omega (arith, writes-append first.events r.events, first.few_writes, r.few_writes);
            once = rw (delivered-append first.events r.events, first.once, e, r.once);
            all_dials =
                gave_up first.events r.events d d' first.ok r.ok e first.all_dials r.all_dials;
          }
    ]

  retries-Attempt : (n : ℕ) (p : Peer) → Attempt op msg n n (retries net n op msg) p
  unfolding retries dials writes delivered
  retries-Attempt zero p = record {
    ok = false;
    events = [];
    returns = refl;
    adds = sym (append-nil p.events);
    few_dials = omega arith;
    few_writes = omega arith;
    once = refl;
    all_dials = inr refl;
  }
  retries-Attempt (suc n) p =
      let bound : 1 + n ≡ suc n = omega arith in
      subst (λ b. Attempt op msg b b (retries net (suc n) op msg) p) bound
        (or_else-Attempt 1 n 1 n (redial net op msg) (retries net n op msg) p (redial-Attempt p)
          (retries-Attempt n))

  nothing_written-Attempt : (p : Peer) → Attempt op msg 0 1 (pure false) p
  unfolding dials writes delivered
  nothing_written-Attempt p = record {
    ok = false;
    events = [];
    returns = refl;
    adds = sym (append-nil p.events);
    few_dials = omega arith;
    few_writes = omega arith;
    once = refl;
    all_dials = inr refl;
  }

  if-Attempt :
      (connected : Bool) (p : Peer)
      → Attempt op msg 0 1 (if connected then write_bin net op msg else pure false) p
  if-Attempt true p = write_bin-Attempt p
  if-Attempt false p = nothing_written-Attempt p

  -- Where the address of this server resolves, and the client answers whether it is connected:
  -- writing to a peer returns; it dials at most twice and writes at most three times. The peer is
  -- given the message once, where no failure is logged, and not at all otherwise; a failure is
  -- logged only after both dials.
  pub write_format_msg-Attempt :
      (p : Peer) (connected : Bool)
      → net.is_connected p.client (length p.events) ≡ done connected
      → Attempt op msg 2 3 (write_format_msg net op msg) p
  unfolding write_format_msg ask_connected
  write_format_msg-Attempt p connected h =
      let a =
        or_else-Attempt 0 2 1 2 (if connected then write_bin net op msg else pure false)
          (retries net 2 op msg) p (if-Attempt connected p) (retries-Attempt 2) in
      record {
        ok = a.ok;
        events = a.events;
        returns = rw h a.returns;
        adds = rw h a.adds;
        few_dials = a.few_dials;
        few_writes = a.few_writes;
        once = a.once;
        all_dials = a.all_dials;
      }
