-- ===== src/Benchmark.antt =====
-- The load generator (daemon/benchmark/main.go): how its connections are divided into batches, made
-- and written to. The options are taken as numbers that are not negative; the loop counts down to
-- nothing, where the subtraction of the model stops. Each batch is
-- one step, and the source starts it as a goroutine of its own.
pub mod Batches
use pushd.Prelude.{
  ℕ, zero, suc, ◌+◌, ◌-◌, ◌*◌, ◌/◌, ◌%◌, ◌^◌, ◌≤◌, ◌<◌, ◌≡◌, ◌≢◌, ◌↔◌, ◌⊎◌, inl, inr, refl, sym, ap,
  ◌∙◌, subst, Bool, true, false, ◌&&◌, ◌||◌, not, Option, none, some, List, [], ◌∷◌, ◌++◌, map,
  append-nil, append_assoc, arith, ltb, leb, ◌==◌, if◌then◌else◌, ==_iff, ==_refl, Bool-cases,
  Option-cases, length, get_elem?, get_elem?_of_lt, take, drop, replicate, length-append,
  take-append, drop-append, All, All-append, ℤ, pos, negsuc, Outcome, done, panic,
}
use pushd.Text.{Bytes, codes}
use pushd.Text.Number.{dec}

-- the arguments of `batchConn` and `batchWrite`
pub record Batch : Type 0 where
  pub size : ℕ
  pub first : ℕ

unfoldable pub min_of : ℕ → ℕ → ℕ
min_of a b = if ltb b a then b else a

-- The loop over `connLeft` of `main` and `buildConns`, with at most as many rounds as the first
-- argument; `none` when these do not suffice.
unfoldable pub batches : ℕ → ℕ → ℕ → ℕ → Option (List Batch)
unfolding min_of
batches fuel zero batch_size start = some []
batches zero (suc left) batch_size start = none
batches (suc fuel) (suc left) batch_size start =
    let this_batch = min_of (suc left) batch_size in
    let rest = batches fuel (suc left - batch_size) batch_size (start + this_batch) in
    elim rest [ none ↦ none | some bs ↦ some (record { size = this_batch; first = start } ∷ bs) ]

-- the places of a batch, in the order of its loop
unfoldable pub places_from : ℕ → ℕ → List ℕ
places_from start zero = []
places_from start (suc n) = start ∷ places_from (start + 1) n

unfoldable pub places : List Batch → List ℕ
unfolding places_from
places [] = []
places (b ∷ bs) = places_from b.first b.size ++ places bs

-- `conns`, whose entries are nil where a dial failed, and `lostConns`
pub record Conns : Type 0 where
  pub conns : ℕ → Bool
  pub lost_conns : ℕ

-- one round of `batchConn` at a place
unfoldable pub conn_one : (ℕ → Bool) → ℕ → Conns → Conns
conn_one dial_ok p c = record {
  conns = λ q. if q == p then dial_ok p else c.conns q;
  lost_conns = if dial_ok p then c.lost_conns else c.lost_conns + 1;
}

unfoldable pub conn_each : (ℕ → Bool) → List ℕ → Conns → Conns
unfolding conn_one
conn_each dial_ok [] c = c
conn_each dial_ok (p ∷ ps) c = conn_each dial_ok ps (conn_one dial_ok p c)

-- `batchConn`
unfoldable pub batch_conn : (ℕ → Bool) → Batch → Conns → Conns
unfolding conn_each places_from
batch_conn dial_ok b c = conn_each dial_ok (places_from b.first b.size) c

-- the text for the i-th connection of a batch
unfoldable pub text_for : ℕ → ℕ → Bytes
text_for i round =
    if i % 2 == 1
    then codes "sub channel" ++ dec round ++ 10 ∷ []
    else codes "pub channel" ++ dec round ++ codes " hello" ++ 10 ∷ []

-- the loop of `batchWrite`: which connections are written to, with the texts
unfoldable pub write_each : (ℕ → Bool) → ℕ → ℕ → ℕ → ℕ → List (ℕ × Bytes)
unfolding text_for
write_each conns first round i zero = []
write_each conns first round i (suc n) =
    let rest = write_each conns first round (i + 1) n in
    if conns (first + i) then (first + i, text_for i round) ∷ rest else rest

-- `batchWrite`
unfoldable pub batch_write : (ℕ → Bool) → ℕ → Batch → List (ℕ × Bytes)
unfolding write_each
batch_write conns round b = write_each conns b.first round 0 b.size

-- the batches of one round of `main`
unfoldable pub write_batches : (ℕ → Bool) → ℕ → List Batch → List (ℕ × Bytes)
unfolding batch_write
write_batches conns round [] = []
write_batches conns round (b ∷ bs) = batch_write conns round b ++ write_batches conns round bs

-- `shutdown` over the places of `conns`: `Close` on a nil connection panics, and its error is logged
unfoldable pub shutdown : (ℕ → Bool) → List ℕ → Outcome (Unit {0})
shutdown conns [] = done tt
shutdown conns (p ∷ ps) = let rest = shutdown conns ps in if conns p then rest else panic
