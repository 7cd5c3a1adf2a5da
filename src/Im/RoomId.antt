-- ===== src/Im/RoomId.antt =====
-- The name of a private room does not depend on the order in which its users are named.
use pushd.Prelude.{
  ◌≡◌, inl, inr, refl, sym, ap, ◌∙◌, true, false, List, [], ◌∷◌, ◌++◌, arith, Bool-cases,
}
use pushd.Text.{Bytes, codes, join}
use mathlib.Core.Logic.{∥∥₁_elim}
use mathlib.Core.List as List
use native.Mathlib.Nat.{ℕ_set}
use mathlib.Core.List.{Perm, Permᴰ}
use pushd.Im.{generate_room_id}
use pushd.Im.Order.{le_bytes, insert_sorted, sort_strings}

le_bytes_total : (a b : Bytes) → le_bytes a b ≡ false → le_bytes b a ≡ true
unfolding le_bytes
le_bytes_total [] b h = ground (arith, h)
le_bytes_total (a ∷ as') [] h = refl
le_bytes_total (a ∷ as') (b ∷ bs) h = ground (arith, h, le_bytes_total as' bs)

le_bytes_antisym : (a b : Bytes) → le_bytes a b ≡ true → le_bytes b a ≡ true → a ≡ b
unfolding le_bytes
le_bytes_antisym [] [] h k = refl
le_bytes_antisym [] (b ∷ bs) h k = ground (arith, k)
le_bytes_antisym (a ∷ as') [] h k = ground (arith, h)
le_bytes_antisym (a ∷ as') (b ∷ bs) h k = ground (arith, h, k, le_bytes_antisym as' bs)

le_bytes_trans : (a b c : Bytes) → le_bytes a b ≡ true → le_bytes b c ≡ true → le_bytes a c ≡ true
unfolding le_bytes
le_bytes_trans [] b c h k = refl
le_bytes_trans (a ∷ as') [] c h k = ground (arith, h)
le_bytes_trans (a ∷ as') (b ∷ bs) [] h k = ground (arith, k)
le_bytes_trans (a ∷ as') (b ∷ bs) (c ∷ cs) h k = ground (arith, h, k, le_bytes_trans as' bs cs)

swap_ordered :
    (a b : Bytes) (cs : List Bytes)
    → le_bytes a b ≡ true
    → le_bytes b a ≡ false
    → insert_sorted a (insert_sorted b cs) ≡ insert_sorted b (insert_sorted a cs)
unfolding insert_sorted
swap_ordered a b [] h k = ground (arith, h, k)
swap_ordered a b (c ∷ cs) h k =
    ground (arith, h, k, le_bytes_trans a b c h, swap_ordered a b cs h k)

insert_sorted_swap :
    (a b : Bytes) (cs : List Bytes)
    → insert_sorted a (insert_sorted b cs) ≡ insert_sorted b (insert_sorted a cs)
insert_sorted_swap a b cs = elim (Bool-cases (le_bytes a b)) [
  | inr h ↦ sym (swap_ordered b a cs (le_bytes_total a b h) h)
  | inl h ↦ elim (Bool-cases (le_bytes b a)) [
    | inr k ↦ swap_ordered a b cs h k
    | inl k ↦ rw (le_bytes_antisym a b h k) refl
  ]
]

sort_strings-Permᴰ : (us vs : List Bytes) → Permᴰ us vs → sort_strings us ≡ sort_strings vs
unfolding sort_strings
sort_strings-Permᴰ _ _ Permᴰ.nil = refl
sort_strings-Permᴰ _ _ (Permᴰ.cons {b = b} {l₁ = us} {l₂ = vs} e p) =
    ap (λ u. insert_sorted u (sort_strings us)) e
    ∙ ap (insert_sorted b) (sort_strings-Permᴰ us vs p)
sort_strings-Permᴰ _ _ (Permᴰ.swap {a = a} {b = b} {a' = a'} {l = us} e f) =
    insert_sorted_swap a b (sort_strings us)
    ∙ ap (λ u. insert_sorted u (insert_sorted a (sort_strings us))) f
    ∙ ap (λ u. insert_sorted a' (insert_sorted u (sort_strings us))) e
sort_strings-Permᴰ us vs (Permᴰ.trans {l₂ = ws} p q) =
    sort_strings-Permᴰ us ws p ∙ sort_strings-Permᴰ ws vs q

-- Two requests that name the same users in different orders mean the same private room.
pub generate_room_id-Perm :
    (us vs : List Bytes) → Perm us vs → generate_room_id us ≡ generate_room_id vs
unfolding generate_room_id
generate_room_id-Perm us vs p =
    ∥∥₁_elim p (List.is_set ℕ_set _ _)
      λ d. ap (λ s. codes "pri_" ++ join (codes "_") s) (sort_strings-Permᴰ us vs d)
