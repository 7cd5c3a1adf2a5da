-- ===== src/Offpush/Pool.antt =====
-- The pool of offline senders (engine/offpush.go): `OffSenderPool`, and how goroutines take turns
-- in `ObtainOneOffSender`. A sender is known by its place in the pool. The code reads `baton` twice
-- and uses the second value: that read is the load of the model.
use pushd.Prelude.{
  ℕ, zero, suc, ◌+◌, ◌-◌, ◌%◌, ◌^◌, ◌≡◌, ◌≢◌, none, some, List, [], ◌∷◌, ◌++◌, ◌==◌, if◌then◌else◌,
  length, get_elem?, ℤ, pos, negsuc, Outcome, done, panic,
}
use pushd.Text.{Bytes}

-- an `int32` sum with one, and Go's remainder, which has the sign of the dividend
unfoldable pub inc_int32 : ℤ → ℤ
inc_int32 (pos n) = if n + 1 == 2 ^ 31 then negsuc (2 ^ 31 - 1) else pos (n + 1)
inc_int32 (negsuc zero) = pos 0
inc_int32 (negsuc (suc n)) = negsuc n

abbrev magnitude : ℤ → ℕ
magnitude (pos n) = n
magnitude (negsuc n) = n + 1

abbrev negated : ℕ → ℤ
negated zero = pos 0
negated (suc n) = negsuc n

unfoldable pub rem_int32 : ℤ → ℤ → Outcome ℤ
rem_int32 a (pos zero) = panic
rem_int32 (pos n) b = done (pos (n % magnitude b))
rem_int32 (negsuc n) b = done (negated ((n + 1) % magnitude b))

-- `hitLoc = (now + 1) % this.size`
unfoldable pub next_slot : ℤ → ℤ → Outcome ℤ
unfolding inc_int32 rem_int32
next_slot now size = rem_int32 (inc_int32 now) size

-- `this.pool[hitLoc]`
unfoldable pub pick : List Bytes → ℤ → Outcome Bytes
pick pool (negsuc n) = panic
pick pool (pos n) = elim (get_elem? pool n) [ none ↦ panic | some s ↦ done s ]

-- `ObtainOneOffSender` where nothing else runs: the first exchange succeeds. The new `baton` is the
-- place of the sender.
unfoldable pub obtain_one_off_sender : List Bytes → ℤ → ℤ → Outcome (Bytes × ℤ)
unfolding next_slot pick
obtain_one_off_sender pool size baton = elim (next_slot baton size) [
  | panic ↦ panic
  | done slot ↦ elim (pick pool slot) [ panic ↦ panic | done sender ↦ done (sender, slot) ]
]

-- What a goroutine in `ObtainOneOffSender` holds: nothing yet, the value that it loaded, or its turn.
-- `since` is not in the code: how many turns had been given when the value was loaded.
pub data Caller : Type 0 where
  fresh : Caller
  loaded : ℤ → ℕ → Caller
  served : ℤ → Caller

-- `OffSenderPool`, with the goroutines that run in it, and the turns that were given, in their order.
pub record Turns : Type 0 where
  pub size : ℤ
  pub baton : ℤ
  pub callers : ℕ → Caller
  pub given : List ℤ

abbrev pub set_caller : Turns → ℕ → Caller → Turns
set_caller t i c = record t { callers = λ j. if j == i then c else t.callers j }

-- a successful exchange of `baton`
abbrev pub give_turn : Turns → ℕ → ℤ → Turns
give_turn t i slot = record (set_caller t i (served slot)) {
  baton = slot;
  given = t.given ++ slot ∷ [];
}

-- One step of a goroutine: it loads `baton`, exchanges it, or finds it changed and starts again.
-- Between the two only its own variables change, the remainder included.
pub data Turn : Turns → Turns → Type 0 where
  load :
      {t : Turns} (i : ℕ)
      → t.callers i ≡ fresh
      → Turn t (set_caller t i (loaded t.baton (length t.given)))
  exchange :
      {t : Turns} (i : ℕ) (now slot : ℤ) (since : ℕ)
      → t.callers i ≡ loaded now since
      → next_slot now t.size ≡ done slot
      → t.baton ≡ now
      → Turn t (give_turn t i slot)
  retry :
      {t : Turns} (i : ℕ) (now : ℤ) (since : ℕ)
      → t.callers i ≡ loaded now since
      → t.baton ≢ now
      → Turn t (set_caller t i fresh)

-- a pool before any call: `initOffSenderPool` sets `baton` to 0
abbrev pub new_turns : ℕ → Turns
new_turns capacity = record { size = pos capacity; baton = pos 0; callers = λ i. fresh; given = [] }

pub data TurnsFrom (s : Turns) : Turns → Type 0 where
  at_first : TurnsFrom s s
  after : {t u : Turns} → TurnsFrom s t → Turn t u → TurnsFrom s u
