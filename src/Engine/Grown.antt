-- ===== src/Engine/Grown.antt =====
-- What only grows while a server process runs a handler.
use pushd.Prelude.{
  ℕ, ◌+◌, [], ◌∷◌, ◌≤◌, ◌≡◌, sym, ap, ◌∙◌, true, List, [], ◌++◌, append-nil, append_assoc, arith,
}
use pushd.External.{External, MsgTuple}
use pushd.World.{World, Client, dead, ForwardTuple, Sent}

-- one list is the beginning of another
abbrev pub Extends {ℓ} : {A : Type ℓ} → List A → List A → Type ℓ
Extends {A = A} as' bs = (cs : List A) × (bs ≡ as' ++ cs)

pub Extends-refl {ℓ} : {A : Type ℓ} (as' : List A) → Extends as' as'
Extends-refl as' = ([], sym (append-nil as'))

pub Extends-trans {ℓ} :
    {A : Type ℓ} (as' bs cs : List A) → Extends as' bs → Extends bs cs → Extends as' cs
Extends-trans as' bs cs (ds, p) (es, q) =
    (ds ++ es, q ∙ ap (λ l. l ++ es) p ∙ append_assoc as' ds es)

-- Messages whose times are readings of the clock, each of its own, in the order of the readings:
-- from the first number on, and below the second.
abbrev pub Stamped : (ℕ → ℕ) → ℕ → ℕ → List MsgTuple → Type 0
Stamped clock n n' [] = n ≤ n'
Stamped clock n n' (m ∷ ms) = (k : ℕ) × (n ≤ k) × (m.ts ≡ clock k) × Stamped clock (k + 1) n' ms

pub Stamped-le : (clock : ℕ → ℕ) (n n' : ℕ) (ms : List MsgTuple) → Stamped clock n n' ms → n ≤ n'
Stamped-le clock n n' [] h = h
Stamped-le clock n n' (m ∷ ms) (k, p, q, r) =
    let s = Stamped-le clock (k + 1) n' ms r in omega (arith, s, p)

Stamped-earlier :
    (clock : ℕ → ℕ) (o n n' : ℕ) (ms : List MsgTuple)
    → o ≤ n
    → Stamped clock n n' ms
    → Stamped clock o n' ms
Stamped-earlier clock o n n' [] e h = omega (arith, e, h)
Stamped-earlier clock o n n' (m ∷ ms) e (k, p, q, r) = (k, omega (arith, e, p), q, r)

pub Stamped-append :
    (clock : ℕ → ℕ) (n n' n'' : ℕ) (ms ns : List MsgTuple)
    → Stamped clock n n' ms
    → Stamped clock n' n'' ns
    → Stamped clock n n'' (ms ++ ns)
Stamped-append clock n n' n'' [] ns g h = Stamped-earlier clock n n' n'' ns g h
Stamped-append clock n n' n'' (m ∷ ms) ns (k, p, q, r) h =
    (k, p, q, Stamped-append clock (k + 1) n' n'' ms ns r h)

-- One queue is the beginning of another, and the messages behind it are stamped.
abbrev pub Added : (ℕ → ℕ) → ℕ → ℕ → List MsgTuple → List MsgTuple → Type 0
Added clock n n' q q' = (ms : List MsgTuple) × (q' ≡ q ++ ms) × Stamped clock n n' ms

pub Added-none : (clock : ℕ → ℕ) (n n' : ℕ) (q : List MsgTuple) → n ≤ n' → Added clock n n' q q
Added-none clock n n' q h = ([], sym (append-nil q), h)

Added-trans :
    (clock : ℕ → ℕ) (n n' n'' : ℕ) (q q' q'' : List MsgTuple)
    → Added clock n n' q q'
    → Added clock n' n'' q' q''
    → Added clock n n'' q q''
Added-trans clock n n' n'' q q' q'' (ms, e, g) (ns, f, h) = (
  ms ++ ns,
  f ∙ ap (λ l. l ++ ns) e ∙ append_assoc q ms ns,
  Stamped-append clock n n' n'' ms ns g h,
)

-- Of the storage queue, the proxy's channel, what is sent, the counter of random texts, and the
-- clients: the lists were only appended to, with a reading of the clock for each message on the
-- queue, no random text is drawn again, and a client that is closed or dead stays so.
pub record GrewAt (clock : ℕ → ℕ) (reads reads' : ℕ) (queue queue' : List MsgTuple)
    (forwarded forwarded' : List ForwardTuple) (sent sent' : List Sent) (draws draws' : ℕ)
    (clients clients' : ℕ → Client) : Type 0 where
  pub queued : Added clock reads reads' queue queue'
  pub passed : Extends forwarded forwarded'
  pub wrote : Extends sent sent'
  pub drawn : draws ≤ draws'
  pub closed : (c : ℕ) → (clients c).closed ≡ true → (clients' c).closed ≡ true
  pub dead : (c : ℕ) → (clients c).state ≡ dead → (clients' c).state ≡ dead

module _ (x : External) where
  abbrev pub Grew : World x → World x → Type 0
  Grew w v =
      GrewAt x.clock w.reads v.reads w.queue v.queue w.forwarded v.forwarded w.sent v.sent w.draws
        v.draws w.clients v.clients

  pub Grew-refl : (w : World x) → Grew w w
  Grew-refl w = record {
    queued = Added-none x.clock w.reads w.reads w.queue (omega arith);
    passed = Extends-refl w.forwarded;
    wrote = Extends-refl w.sent;
    drawn = omega arith;
    closed = λ c p. p;
    dead = λ c p. p;
  }

  pub Grew-trans : (u v w : World x) → Grew u v → Grew v w → Grew u w
  Grew-trans u v w g h = record {
    queued = Added-trans x.clock u.reads v.reads w.reads u.queue v.queue w.queue g.queued h.queued;
    passed = Extends-trans u.forwarded v.forwarded w.forwarded g.passed h.passed;
    wrote = Extends-trans u.sent v.sent w.sent g.wrote h.wrote;
    drawn = omega (arith, g.drawn, h.drawn);
    closed = λ c p. h.closed c (g.closed c p);
    dead = λ c p. h.dead c (g.dead c p);
  }

  -- Reading the clock, and nothing else.
  pub Grew-read : (w : World x) → Grew w (record w { reads = w.reads + 1 })
  Grew-read w = record {
    queued = Added-none x.clock w.reads (w.reads + 1) w.queue (omega arith);
    passed = Extends-refl w.forwarded;
    wrote = Extends-refl w.sent;
    drawn = omega arith;
    closed = λ c p. p;
    dead = λ c p. p;
  }
