-- ===== src/Offpush/Filling.antt =====
-- The pool that `initOffSenderPool` makes.
use pushd.Prelude.{
  ℕ, zero, suc, ◌+◌, ◌%◌, ◌^◌, ◌<◌, ◌≡◌, refl, ap, ◌∙◌, none, some, List, ◌∷◌, arith, ltb,
  if◌then◌else◌, length, get_elem?, get_elem?_of_lt, pos, done,
}
use native.Mathlib.Nat.{mod-lt}
use pushd.Text.{Bytes}
use pushd.Offpush.{SenderPool, init_off_sender_pool, fill_pool, to_int32}

module _ (a : Bytes) (as' : List Bytes) where
  abbrev addrs : List Bytes
  addrs = a ∷ as'

  at_place : (i : ℕ) → (b : Bytes) × (get_elem? addrs (i % length addrs) ≡ some b)
  at_place i = get_elem?_of_lt addrs (i % length addrs) (mod-lt i (omega arith))

  length-fill_pool : (i n : ℕ) → length (fill_pool addrs i n) ≡ n
  unfolding fill_pool
  length-fill_pool i zero = refl
  length-fill_pool i (suc n) = rw (at_place i).1 (ap suc (length-fill_pool (i + 1) n))

  get_elem?-fill_pool :
      (i n k : ℕ)
      → get_elem? (fill_pool addrs i n) k
        ≡ (if ltb k n then get_elem? addrs ((i + k) % length addrs) else none)
  unfolding fill_pool
  get_elem?-fill_pool i zero k = ground arith
  get_elem?-fill_pool i (suc n) zero =
      let z : i + 0 ≡ i = omega arith in rw (z, (at_place i).1) (ground arith)
  get_elem?-fill_pool i (suc n) (suc k) =
      let z : i + suc k ≡ (i + 1) + k = omega arith in
      let b : ltb (suc k) (suc n) ≡ ltb k n = ground arith in
      rw ((at_place i).1, z, b) (get_elem?-fill_pool (i + 1) n k)

  -- With addresses, and a capacity that fits an `int32`, the pool is made: it has as many senders as
  -- its capacity, each for the address of its turn, none beyond, and its counter starts at the first.
  init_off_sender_pool_lem :
      (n : ℕ)
      → n < 2 ^ 31
      → (p : SenderPool) × (init_off_sender_pool (pos n) addrs ≡ done (some p))
        × (length p.pool ≡ n)
        × (p.size ≡ pos n)
        × (p.baton ≡ pos 0)
        × ((k : ℕ)
            → get_elem? p.pool k ≡ (if ltb k n then get_elem? addrs (k % length addrs) else none))
  unfolding init_off_sender_pool to_int32
  init_off_sender_pool_lem n h = (
    record { pool = fill_pool addrs 0 n; baton = pos 0; size = to_int32 n },
    refl,
    length-fill_pool 0 n,
    ground arith,
    refl,
    λ k.
        let z : 0 + k ≡ k = omega arith in
        get_elem?-fill_pool 0 n k
        ∙ ap (λ m. if ltb k n then get_elem? addrs (m % length addrs) else none) z,
  )
