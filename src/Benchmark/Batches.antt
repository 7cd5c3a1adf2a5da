-- ===== src/Benchmark/Batches.antt =====
-- The batches are a division of the connections.
use pushd.Prelude.{
  ℕ, zero, suc, ◌+◌, ◌-◌, ◌≤◌, ◌<◌, ◌≡◌, refl, ap, ◌∙◌, none, some, List, [], ◌∷◌, ◌++◌, arith, All,
}
use pushd.Benchmark.{Batch, min_of, batches, places_from, places}

places_from-append : (s m n : ℕ) → places_from s m ++ places_from (s + m) n ≡ places_from s (m + n)
unfolding places_from
places_from-append s zero n =
    let a : s + 0 ≡ s = omega arith in let b : 0 + n ≡ n = omega arith in rw (a, b) refl
places_from-append s (suc m) n =
    let a : s + suc m ≡ (s + 1) + m = omega arith in
    let b : suc m + n ≡ suc (m + n) = omega arith in
    rw (a, b) (ap (λ l. s ∷ l) (places_from-append (s + 1) m n))

module _ (size : ℕ) (some_size : 0 < size) where
  batches-places :
      (fuel left start : ℕ)
      → left ≤ fuel
      → (bs : List Batch) × (batches fuel left size start ≡ some bs)
        × (places bs ≡ places_from start left)
        × All (λ b. (0 < b.size) × (b.size ≤ size)) bs
  unfolding batches places places_from min_of
  batches-places fuel zero start h = ([], refl, refl, tt)
  batches-places zero (suc left) start h = absurd (omega arith)
  batches-places (suc fuel) (suc left) start h =
      let n = min_of (suc left) size in
      let r = batches-places fuel (suc left - size) (start + n) (omega arith) in
      let all_left : n + (suc left - size) ≡ suc left = ground arith in
      (
        record { size = n; first = start } ∷ r.0,
        rw (r.1, batches) refl,
        ap (λ l. places_from start n ++ l) r.2
            ∙ places_from-append start n (suc left - size)
            ∙ ap (places_from start) all_left,
        (ground arith, r.3),
      )

-- With an empty batch the loop never ends.
batches_of_none : (fuel left start : ℕ) → batches fuel (suc left) 0 start ≡ none
unfolding batches
batches_of_none zero left start = refl
batches_of_none (suc fuel) left start =
    let a : suc left - 0 ≡ suc left = omega arith in
    rw (batches, a, batches_of_none fuel left (start + min_of (suc left) 0)) refl

-- With batches of at least one connection: the loop of `buildConns` ends within as many rounds as
-- there are connections; its batches are neither empty nor larger than asked for, and the places of
-- the connections, from the first to the last, are divided among them: each is in one batch, once.
pub batches_lem :
    (size concurrency : ℕ)
    → 0 < size
    → (bs : List Batch) × (batches concurrency concurrency size 0 ≡ some bs)
      × All (λ b. (0 < b.size) × (b.size ≤ size)) bs
      × (places bs ≡ places_from 0 concurrency)
batches_lem size concurrency h =
    let r = batches-places size h concurrency concurrency 0 (omega arith) in (r.0, r.1, r.3, r.2)
