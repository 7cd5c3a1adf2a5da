-- ===== src/Members/Cache.antt =====
-- The cache of rooms, and who is counted as a member of a cached room.
use pushd.Prelude.{
  ℕ, ◌<◌, ◌≡◌, inl, inr, refl, sym, ap, ◌∙◌, subst, true, false, Option, none, some, arith, ◌==◌,
  ==_iff, ==_refl, Bool-cases, Option-cases, done,
}
use pushd.Text.{Bytes, same, same_iff}
use pushd.External.{External}
use pushd.External.Laws.{occurs, SetLaws, LruLaws, or_else}
use pushd.World.{World, update}
use pushd.Members.{value_or_new, get_value, add_new_key_empty_value, new_user_id_collection}

module _ (x : External) where
  -- how often a user stands in the cached collection of a room; never, in a room that is not cached
  unfoldable pub counted : World x → Bytes → Bytes → ℕ
  counted w channel u = elim (x.rooms.peek w.rooms channel) [
    | none ↦ 0
    | some r ↦ occurs u (x.id_sets.elements (w.collections r))
  ]

  -- the collection of a cached room
  unfoldable pub cached : World x → Bytes → Option x.id_sets.State
  cached w channel = elim (x.rooms.peek w.rooms channel) [
    | none ↦ none
    | some r ↦ some (w.collections r)
  ]

  -- Every cached address is that of one room, and was allocated.
  pub record CacheOk (w : World x) : Type 0 where
    pub allocated : (k : Bytes) (r : ℕ) → x.rooms.peek w.rooms k ≡ some r → r < w.next_collection
    pub distinct :
        (j k : Bytes) (r : ℕ)
        → x.rooms.peek w.rooms j ≡ some r
        → x.rooms.peek w.rooms k ≡ some r
        → same j k ≡ true

  -- what holds once the collection of a room is found or made
  pub record Held (channel : Bytes) (w v : World x) (r : ℕ) : Type 0 where
    pub there : x.rooms.peek v.rooms channel ≡ some r
    pub others :
        (k : Bytes) (a : ℕ)
        → same channel k ≡ false
        → x.rooms.peek v.rooms k ≡ some a
        → x.rooms.peek w.rooms k ≡ some a
    pub content :
        (u : Bytes) → occurs u (x.id_sets.elements (v.collections r)) ≡ counted w channel u
    pub kept : (a : ℕ) → a < w.next_collection → v.collections a ≡ w.collections a
    pub next : (a : ℕ) → a < w.next_collection → a < v.next_collection
    pub valid : r < v.next_collection
    pub address : (r < w.next_collection → x.rooms.peek w.rooms channel ≡ some r)

  module _ (l : LruLaws x.rooms) (t : SetLaws x.id_sets) (channel : Bytes) (w : World x) where
    -- the address of the collection, and whether it had to be made
    abbrev pub address_of : ℕ
    address_of = or_else (x.rooms.peek w.rooms channel) w.next_collection

    pub value_or_new_lem : (value_or_new x channel w).0 ≡ done address_of
    unfolding value_or_new get_value add_new_key_empty_value new_user_id_collection
    value_or_new_lem = ground (
      arith,
      l.get_value channel w.rooms,
      l.get_keeps channel channel w.rooms,
      l.add_value channel w.next_collection (x.rooms.get channel w.rooms).1,
    )

    -- the world after a look into the cache
    abbrev pub looked : World x
    looked = record w { rooms = (x.rooms.get channel w.rooms).1 }

    pub looked-CacheOk : CacheOk w → CacheOk looked
    looked-CacheOk ok = record {
      allocated = λ k a p. ok.allocated k a (sym (l.get_keeps channel k w.rooms) ∙ p);
      distinct = λ j k a p q.
          ok.distinct j k a (sym (l.get_keeps channel j w.rooms) ∙ p)
            (sym (l.get_keeps channel k w.rooms) ∙ q);
    }

    pub looked_same :
        (k u : Bytes) → (counted looked k u ≡ counted w k u) × (cached looked k ≡ cached w k)
    unfolding counted cached
    looked_same k u = (rw (l.get_keeps, counted) refl, rw (l.get_keeps, cached) refl)

    pub looked-Held :
        (r : ℕ)
        → x.rooms.peek w.rooms channel ≡ some r
        → r < w.next_collection
        → Held channel w looked r
    unfolding counted
    looked-Held r h k = record {
      there = l.get_keeps channel channel w.rooms ∙ h;
      others = λ j a e p. sym (l.get_keeps channel j w.rooms) ∙ p;
      content = λ u. rw (h, counted) refl;
      kept = λ a p. refl;
      next = λ a p. p;
      valid = k;
      address = λ p. h;
    }

    value_or_new-Held_cached :
        (r : ℕ)
        → x.rooms.peek w.rooms channel ≡ some r
        → r < w.next_collection
        → Held channel w (value_or_new x channel w).1 r
    unfolding value_or_new get_value
    value_or_new-Held_cached r h k = rw (l.get_value channel w.rooms, h) (looked-Held r h k)

    value_or_new-Held_new :
        x.rooms.peek w.rooms channel ≡ none
        → Held channel w (value_or_new x channel w).1 w.next_collection
    unfolding value_or_new get_value add_new_key_empty_value new_user_id_collection counted occurs
    value_or_new-Held_new h =
        rw (l.get_value channel w.rooms, h)
          record {
            there =
                l.add_self channel w.next_collection (x.rooms.get channel w.rooms).1
                ∙ rw (l.get_keeps, h) refl;
            others = λ j a e p.
                sym (l.get_keeps channel j w.rooms)
                ∙ l.add_other channel j w.next_collection a (x.rooms.get channel w.rooms).1 e p;
            content = λ u. rw (h, counted, ==_refl, t.elements_empty) refl;
            kept = λ a p. ground (arith, p);
            next = λ a p. omega arith;
            valid = omega arith;
            address = λ p. ground (arith, p);
          }

  module _ (l : LruLaws x.rooms) (t : SetLaws x.id_sets) (channel : Bytes) (w : World x) where
    -- the collection is found or made; no other collection changes, and other rooms may only be dropped
    pub value_or_new-Held :
        CacheOk w → Held channel w (value_or_new x channel w).1 (address_of l t channel w)
    value_or_new-Held ok = elim (Option-cases (x.rooms.peek w.rooms channel)) [
      | inl e ↦ rw e (value_or_new-Held_new l t channel w e)
      | inr (r, e) ↦ rw e (value_or_new-Held_cached l t channel w r e (ok.allocated channel r e))
    ]

  -- one collection changes after the collection of the room is at hand
  module _ (channel : Bytes) (w v : World x) (r : ℕ) (d : Held channel w v r) where
    abbrev pub changed : x.id_sets.State → World x
    changed s = record v { collections = update v.collections r s }

    pub counted-changed :
        (s : x.id_sets.State) (u : Bytes)
        → counted (changed s) channel u ≡ occurs u (x.id_sets.elements s)
    unfolding counted
    counted-changed s u = rw (d.there, counted, ==_refl) refl

    apart :
        CacheOk w
        → (k : Bytes) (a : ℕ) → same channel k ≡ false
        → x.rooms.peek w.rooms k ≡ some a
        → (a == r) ≡ false
    apart ok k a e p = elim (Bool-cases (a == r)) [
      | inr q ↦ q
      | inl q ↦
          let p' : x.rooms.peek w.rooms k ≡ some r = p ∙ ap some ((==_iff a r).0 q) in
          let here = ok.distinct channel k r (d.address (ok.allocated k r p')) p' in
          ground (arith, e, here)
    ]

    pub changed_others :
        (s : x.id_sets.State)
        → CacheOk w
        → (k : Bytes) → same channel k ≡ false
        → (b : x.id_sets.State) → cached (changed s) k ≡ some b
        → cached w k ≡ some b
    unfolding cached
    changed_others s ok k e b h = elim (Option-cases (x.rooms.peek v.rooms k)) [
      | inl none_there ↦ ground (arith, h, none_there)
      | inr (a, there) ↦
          let p = d.others k a e there in
          ground (arith, h, there, p, apart ok k a e p, d.kept a (ok.allocated k a p))
    ]

    at_channel :
        (k : Bytes) (a : ℕ) → same channel k ≡ true → x.rooms.peek v.rooms k ≡ some a → a ≡ r
    at_channel k a e p =
        let q : some r ≡ some a =
          sym d.there ∙ ap (x.rooms.peek v.rooms) ((same_iff channel k).0 e) ∙ p in
        ground (arith, q)

    -- two rooms of which one is the changed one do not share an address
    no_clash :
        CacheOk w
        → (j k : Bytes) (a : ℕ) → same channel j ≡ true
        → same channel k ≡ false
        → x.rooms.peek v.rooms j ≡ some a
        → x.rooms.peek v.rooms k ≡ some a
        → false ≡ true
    no_clash ok j k a e f p q =
        let g = at_channel j a e p in
        let h = apart ok k a f (d.others k a f q) in ground (arith, g, h)

    pub changed-CacheOk : (s : x.id_sets.State) → CacheOk w → CacheOk (changed s)
    changed-CacheOk s ok = record {
      allocated = λ k a p. elim (Bool-cases (same channel k)) [
        | inl e ↦ subst (λ n. n < v.next_collection) (sym (at_channel k a e p)) d.valid
        | inr e ↦ d.next a (ok.allocated k a (d.others k a e p))
      ];
      distinct = λ j k a p q. elim (Bool-cases (same channel j)) [
        | inl e ↦ elim (Bool-cases (same channel k)) [
          | inl f ↦ (same_iff j k).1 (sym ((same_iff channel j).0 e) ∙ (same_iff channel k).0 f)
          | inr f ↦ ground (arith, no_clash ok j k a e f p q)
        ]
        | inr e ↦ elim (Bool-cases (same channel k)) [
          | inl f ↦ ground (arith, no_clash ok k j a f e q p)
          | inr f ↦ ok.distinct j k a (d.others j a e p) (d.others k a f q)
        ]
      ];
    }
