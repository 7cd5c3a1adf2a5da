-- ===== src/Tests/RoomLaws.antt =====
-- Who is in a room: the views of the database in memory, and their laws.
use pushd.Prelude.{
  ◌≡◌, ◌⊎◌, inl, inr, refl, ap, Bool, true, false, ◌&&◌, ◌||◌, not, Option, none, some, List, [],
  ◌∷◌, ◌++◌, arith, Option-cases,
}
use pushd.Text.{Bytes, codes, same, same_iff}
use pushd.External.{
  Mongo, Write, DbError, other, insert_room, insert_named_room, add_members, pull_members,
  remove_empty_room, upsert_channel, upsert_channels, pull_channels, set_stats,
}
use pushd.External.Laws.{elem}
use pushd.External.Views.{
  Views, ViewLaws, member_after, joined_after, changes_members, changes_joined,
}
use pushd.Tests.Memory.{memory, memory_write, insert_memory, without, Rooms}

abbrev in_room : Bytes → Option (List Bytes) → Bool
in_room u none = false
in_room u (some us) = elem u us

abbrev pub memory_views : Views memory
memory_views = record { member = λ k u d. in_room u (d.members k); joined = λ u k d. d.joined u k }

elem-append : (u : Bytes) (us vs : List Bytes) → elem u (us ++ vs) ≡ (elem u us || elem u vs)
elem-append u [] vs = refl
elem-append u (w ∷ us) vs = ground (arith, elem-append u us vs)

elem-same : (u v : Bytes) (us : List Bytes) → same u v ≡ true → elem u us ≡ elem v us
elem-same u v us e = ap (λ w. elem w us) ((same_iff u v).0 e)

elem-without :
    (u : Bytes) (us vs : List Bytes) → elem u (without us vs) ≡ (not (elem u us) && elem u vs)
unfolding without
elem-without u us [] = ground arith
elem-without u us (v ∷ vs) = ground (arith, elem-without u us vs, elem-same v u us)

same_room :
    (c k u : Bytes) (d : Rooms)
    → same c k ≡ true
    → in_room u (d.members c) ≡ in_room u (d.members k)
same_room c k u d e = ap (λ b. in_room u (d.members b)) ((same_iff c k).0 e)

same_flip : (c k : Bytes) → same c k ≡ same k c
same_flip c k = ground (arith, same_iff c k, same_iff k c)

insert_memory-member :
    (c k u : Bytes) (us : List Bytes) (d : Rooms)
    → (insert_memory c us (d.members c) d).0 ≡ none
    → in_room u ((insert_memory c us (d.members c) d).1.members k)
      ≡ ((same c k && elem u us) || in_room u (d.members k))
unfolding insert_memory
insert_memory-member c k u us d h = ground (arith, h, same_flip c k, same_room c k u d)

room_cases :
    (r : Option (List Bytes))
    → (r ≡ none) ⊎ ((r ≡ some []) ⊎ ((o : Bytes) × (os : List Bytes) × (r ≡ some (o ∷ os))))
room_cases none = inl refl
room_cases (some []) = inr (inl refl)
room_cases (some (o ∷ os)) = inr (inr (o, os, refl))

removed_room :
    (c k u : Bytes) (d : Rooms)
    → in_room u ((memory_write (remove_empty_room c) d).1.members k) ≡ in_room u (d.members k)
unfolding memory_write
removed_room c k u d = elim (room_cases (d.members c)) [
  | inl e ↦ ground (arith, e)
  | inr (inl e) ↦ ground (arith, e, same_flip c k, same_room c k u d)
  | inr (inr (o, os, e)) ↦ ground (arith, e)
]

memory_member_write :
    (q : Write) (k u : Bytes) (d : Rooms)
    → (memory_write q d).0 ≡ none
    → in_room u ((memory_write q d).1.members k) ≡ member_after q k u (in_room u (d.members k))
unfolding memory_write
memory_member_write (insert_room c us) k u d h = insert_memory-member c k u us d h
memory_member_write (insert_named_room n c us) k u d h = insert_memory-member c k u us d h
memory_member_write (add_members c us) k u d h = elim (Option-cases (d.members c)) [
  | inl e ↦ ground (arith, h, e)
  | inr (old, e) ↦ ground (
    arith,
    e,
    same_flip c k,
    same_room c k u d,
    elem-append u old (without old us),
    elem-without u old us,
  )
]
memory_member_write (pull_members c us) k u d h = elim (Option-cases (d.members c)) [
  | inl e ↦ ground (arith, h, e)
  | inr (old, e) ↦ ground (arith, e, same_flip c k, same_room c k u d, elem-without u us old)
]
memory_member_write (remove_empty_room c) k u d h = removed_room c k u d
memory_member_write q k u d h = refl

memory_joined_write :
    (q : Write) (u k : Bytes) (d : Rooms)
    → (memory_write q d).0 ≡ none
    → (memory_write q d).1.joined u k ≡ joined_after q u k (d.joined u k)
unfolding memory_write insert_memory
memory_joined_write (insert_room c us) u k d h = ground arith
memory_joined_write (insert_named_room n c us) u k d h = ground arith
memory_joined_write (add_members c us) u k d h = ground arith
memory_joined_write (pull_members c us) u k d h = ground arith
memory_joined_write (remove_empty_room c) u k d h = elim (room_cases (d.members c)) [
  | inl e ↦ ground (arith, e)
  | inr (inl e) ↦ ground (arith, e)
  | inr (inr (o, os, e)) ↦ ground (arith, e)
]
memory_joined_write (upsert_channel v c) u k d h = ground (arith, same_flip c k, same_flip v u)
memory_joined_write (upsert_channels vs c) u k d h = ground (arith, same_flip c k)
memory_joined_write (pull_channels vs c) u k d h = ground (arith, same_flip c k)
memory_joined_write q u k d h = refl

memory_member_kept :
    (q : Write) (k u : Bytes) (d : Rooms)
    → changes_members q ≡ false
    → in_room u ((memory_write q d).1.members k) ≡ in_room u (d.members k)
unfolding memory_write
memory_member_kept (insert_room c us) k u d h = absurd (ground (arith, h))
memory_member_kept (insert_named_room n c us) k u d h = absurd (ground (arith, h))
memory_member_kept (add_members c us) k u d h = absurd (ground (arith, h))
memory_member_kept (pull_members c us) k u d h = absurd (ground (arith, h))
memory_member_kept (remove_empty_room c) k u d h = removed_room c k u d
memory_member_kept q k u d h = refl

memory_joined_kept :
    (q : Write) (u k : Bytes) (d : Rooms)
    → changes_joined q ≡ false
    → (memory_write q d).1.joined u k ≡ d.joined u k
unfolding memory_write insert_memory
memory_joined_kept (insert_room c us) u k d h = ground arith
memory_joined_kept (insert_named_room n c us) u k d h = ground arith
memory_joined_kept (add_members c us) u k d h = ground arith
memory_joined_kept (pull_members c us) u k d h = ground arith
memory_joined_kept (remove_empty_room c) u k d h = elim (room_cases (d.members c)) [
  | inl e ↦ ground (arith, e)
  | inr (inl e) ↦ ground (arith, e)
  | inr (inr (o, os, e)) ↦ ground (arith, e)
]
memory_joined_kept (upsert_channel v c) u k d h = absurd (ground (arith, h))
memory_joined_kept (upsert_channels vs c) u k d h = absurd (ground (arith, h))
memory_joined_kept (pull_channels vs c) u k d h = absurd (ground (arith, h))
memory_joined_kept q u k d h = refl

pub memory-ViewLaws : ViewLaws memory memory_views
memory-ViewLaws = record {
  member_write = memory_member_write;
  joined_write = memory_joined_write;
  member_kept = memory_member_kept;
  joined_kept = memory_joined_kept;
  found_members = λ k u us d h. elim (Option-cases (d.members k)) [
    | inl e ↦ absurd (ground (arith, h, e))
    | inr (old, e) ↦ ground (arith, h, e)
  ];
}

-- the same database, where the users of a room cannot be updated
abbrev pub refusing : Write → Rooms → Option DbError × Rooms
refusing (set_stats us c ts) d = (some (other (codes "timeout")), d)
refusing q d = memory_write q d

abbrev pub torn_memory : Mongo
torn_memory = record memory { write = refusing }

abbrev pub torn_views : Views torn_memory
torn_views = record { member = memory_views.member; joined = memory_views.joined }

pub torn_memory-ViewLaws : ViewLaws torn_memory torn_views
torn_memory-ViewLaws = record {
  member_write = torn_member_write;
  joined_write = torn_joined_write;
  member_kept = torn_member_kept;
  joined_kept = torn_joined_kept;
  found_members = memory-ViewLaws.found_members;
}
  where
    torn_member_write :
        (q : Write) (k u : Bytes) (d : Rooms)
        → (refusing q d).0 ≡ none
        → in_room u ((refusing q d).1.members k) ≡ member_after q k u (in_room u (d.members k))
    torn_member_write (set_stats us c ts) k u d h = refl
    torn_member_write q k u d h = memory_member_write q k u d h

    torn_joined_write :
        (q : Write) (u k : Bytes) (d : Rooms)
        → (refusing q d).0 ≡ none
        → (refusing q d).1.joined u k ≡ joined_after q u k (d.joined u k)
    torn_joined_write (set_stats us c ts) u k d h = refl
    torn_joined_write q u k d h = memory_joined_write q u k d h

    torn_member_kept :
        (q : Write) (k u : Bytes) (d : Rooms)
        → changes_members q ≡ false
        → in_room u ((refusing q d).1.members k) ≡ in_room u (d.members k)
    torn_member_kept (set_stats us c ts) k u d h = refl
    torn_member_kept q k u d h = memory_member_kept q k u d h

    torn_joined_kept :
        (q : Write) (u k : Bytes) (d : Rooms)
        → changes_joined q ≡ false
        → (refusing q d).1.joined u k ≡ d.joined u k
    torn_joined_kept (set_stats us c ts) u k d h = refl
    torn_joined_kept q u k d h = memory_joined_kept q u k d h
