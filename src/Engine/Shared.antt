-- ===== src/Engine/Shared.antt =====
-- The cached rooms and the users who are online: what changes them keeps a state sound.
use pushd.Prelude.{
  ℕ, ◌≡◌, ◌⊎◌, inl, inr, sym, ap, ◌∙◌, true, false, some, [], arith, Bool-cases, Option-cases,
}
use pushd.Text.{Bytes, same, same_iff}
use pushd.External.{External}
use pushd.External.Laws.{LruLaws, MapLaws}
use pushd.Engine.Kept.{Sound, Kept}
use pushd.Engine.Actions.{steps}
use pushd.World.{World, modify}
use pushd.Engine.Grown.{Grew-refl}
use pushd.Registry.{add_client, get_online, remove_client}
use pushd.Members.{
  get_value, value_or_new, add_new_key_empty_value, new_user_id_collection, change, del_room,
}

module _ (x : External) where
  module _ (l : LruLaws x.rooms) where
    pub get_value-Kept : (channel : Bytes) → Kept x (get_value x channel)
    unfolding get_value
    get_value-Kept channel = record {
      grew = λ w. Grew-refl x w;
      sound = λ w h. record {
        allocated = λ k r p. h.allocated k r (sym (l.get_keeps channel k w.rooms) ∙ p);
        distinct = λ j k r p q.
            h.distinct j k r (sym (l.get_keeps channel j w.rooms) ∙ p)
              (sym (l.get_keeps channel k w.rooms) ∙ q);
        unnamed = h.unnamed;
        named = h.named;
      };
    }

    -- where an address comes from that is cached after a new one was offered
    added :
        (channel k : Bytes) (n a : ℕ) (s : x.rooms.State)
        → x.rooms.peek (x.rooms.get_or_add channel n s).1 k ≡ some a
        → (x.rooms.peek s k ≡ some a) ⊎ ((same channel k ≡ true) × (a ≡ n))
    added channel k n a s p = elim (Bool-cases (same channel k)) [
      | inr e ↦ inl (l.add_other channel k n a s e p)
      | inl e ↦
          let moved : channel ≡ k = (same_iff channel k).0 e in
          let own =
            sym (l.add_self channel n s)
            ∙ ap (λ j. x.rooms.peek (x.rooms.get_or_add channel n s).1 j) moved
            ∙ p in
          let old = ap (λ j. x.rooms.peek s j) moved in
          elim (Option-cases (x.rooms.peek s channel)) [
            | inl f ↦ inr (e, ground (arith, own, f))
            | inr (b, f) ↦ inl (ground (arith, own, f, old))
          ]
    ]

    pub add_new_key_empty_value-Kept :
        (channel : Bytes) → Kept x (add_new_key_empty_value x channel)
    unfolding add_new_key_empty_value new_user_id_collection
    add_new_key_empty_value-Kept channel = record {
      grew = λ w. Grew-refl x w;
      sound = λ w h.
          let n = w.next_collection in
          record {
            allocated = λ k r p. elim (added channel k n r w.rooms p) [
              | inl q ↦ omega (arith, h.allocated k r q)
              | inr q ↦ omega (arith, q.1)
            ];
            distinct = λ j k r p q. elim (added channel j n r w.rooms p) [
              | inl a ↦ elim (added channel k n r w.rooms q) [
                | inl b ↦ h.distinct j k r a b
                | inr b ↦ absurd (omega (arith, h.allocated j r a, b.1))
              ]
              | inr a ↦ elim (added channel k n r w.rooms q) [
                | inl b ↦ absurd (omega (arith, h.allocated k r b, a.1))
                | inr b ↦ rw (← (same_iff channel j).0 a.0) b.0
              ]
            ];
            unnamed = h.unnamed;
            named = h.named;
          };
    }

    pub value_or_new-Kept : (channel : Bytes) → Kept x (value_or_new x channel)
    unfolding value_or_new
    value_or_new-Kept channel = search (steps, get_value-Kept, add_new_key_empty_value-Kept)

    pub del_room-Kept : (channel : Bytes) → Kept x (del_room x channel)
    unfolding del_room
    del_room-Kept channel = record {
      grew = λ w. Grew-refl x w;
      sound = λ w h. record {
        allocated = λ k r p. h.allocated k r (left channel k r w.rooms p);
        distinct =
            λ j k r p q. h.distinct j k r (left channel j r w.rooms p) (left channel k r w.rooms q);
        unnamed = h.unnamed;
        named = h.named;
      };
    }
      where
        left :
            (channel k : Bytes) (r : ℕ) (s : x.rooms.State)
            → x.rooms.peek (x.rooms.del channel s) k ≡ some r
            → x.rooms.peek s k ≡ some r
        left channel k r s p = ground (arith, l.del_value channel k s, p)

  pub change-Kept : (r : ℕ) (f : x.id_sets.State → x.id_sets.State) → Kept x (change x r f)
  unfolding change
  change-Kept r f = record { sound = λ w h. h; grew = λ w. Grew-refl x w }

  module _ (m : MapLaws x.registry) where
    taken-Kept :
        (uuid : Bytes)
        → Kept x (modify (λ (w : World x). record w { online = x.registry.remove uuid w.online }))
    taken-Kept uuid = record {
      grew = λ w. Grew-refl x w;
      sound = λ w h. record {
        allocated = h.allocated;
        distinct = h.distinct;
        unnamed = ground (arith, m.get_remove uuid [] w.online, h.unnamed);
        named = h.named;
      };
    }

    pub remove_client-Kept : (uuid : Bytes) (c : ℕ) → Kept x (remove_client x uuid c)
    unfolding remove_client get_online
    remove_client-Kept uuid c = search (steps, taken-Kept)

    pub add_client-Sound :
        (uuid : Bytes) (c : ℕ) (w : World x)
        → same uuid [] ≡ false
        → Sound x w
        → Sound x (add_client x uuid c w).1
    unfolding add_client
    add_client-Sound uuid c w e h = record {
      allocated = h.allocated;
      distinct = h.distinct;
      unnamed = ground (arith, m.get_set uuid [] c w.online, h.unnamed, e);
      named = h.named;
    }
