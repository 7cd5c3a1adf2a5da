-- ===== src/Tests/Rooms.antt =====
-- Rooms and their cached members at a concrete process.
use pushd.Prelude.{ℕ, ◌≡◌, sym, ◌∙◌, true, some, [], ◌∷◌, arith, if◌then◌else◌}
use mathlib.Core.List.Perm
use pushd.Text.{Bytes, codes, same, same_iff}
use pushd.Im.{generate_room_id}
use pushd.Im.RoomId.{generate_room_id-Perm}
use pushd.Members.{add_user_id, remove_user_id}
use pushd.Members.Cache.{CacheOk, counted}
use pushd.Members.Updates.{Updated, add_user_id-Updated, remove_user_id-Updated}
use pushd.Tests.Memory.{here, office, memory_lru-laws, memory_sets-laws}

generate_room_id-Perm_example :
    generate_room_id (codes "bob" ∷ codes "ann" ∷ [])
    ≡ generate_room_id (codes "ann" ∷ codes "bob" ∷ [])
generate_room_id-Perm_example =
    generate_room_id-Perm (codes "bob" ∷ codes "ann" ∷ []) (codes "ann" ∷ codes "bob" ∷ [])
      (Perm.swap (codes "ann") (codes "bob") [])

one_room :
    (k : Bytes) (r : ℕ)
    → here.rooms.peek office.rooms k ≡ some r
    → (same k (codes "room") ≡ true) × (r ≡ 0)
one_room k r p = ground (arith, p)

office-CacheOk : CacheOk here office
office-CacheOk = record {
  allocated = λ k r p. ground (arith, one_room k r p);
  distinct = λ j k r p q. (same_iff j k).1 (
      (same_iff j (codes "room")).0 (one_room j r p).0
      ∙ sym ((same_iff k (codes "room")).0 (one_room k r q).0));
}

add_user_id-Updated_example :
    Updated here
      (codes "room")
      (λ u. if same (codes "cid") u then 1 else counted here office (codes "room") u)
      office
      (add_user_id here (codes "room") (codes "cid") office).1
add_user_id-Updated_example =
    add_user_id-Updated here (memory_lru-laws ℕ) memory_sets-laws (codes "room") office
      (codes "cid") office-CacheOk

remove_user_id-Updated_example :
    Updated here
      (codes "room")
      (λ u. if same (codes "bob") u then 0 else counted here office (codes "room") u)
      office
      (remove_user_id here (codes "room") (codes "bob") office).1
remove_user_id-Updated_example =
    remove_user_id-Updated here (memory_lru-laws ℕ) memory_sets-laws (codes "room") office
      (codes "bob") office-CacheOk
