-- ===== src/Members/Updates.antt =====
-- What the operations on the cached members do, and that they keep the cache well-formed.
use pushd.Prelude.{
  ℕ, ◌≡◌, inl, inr, refl, sym, ◌∙◌, false, none, some, List, [], ◌∷◌, arith, if◌then◌else◌,
  Option-cases,
}
use pushd.Text.{Bytes, same}
use pushd.External.{External}
use pushd.External.Laws.{elem, occurs, SetLaws, LruLaws}
use pushd.World.{World}
use pushd.Members.{
  value_or_new, get_value, add_user_id, remove_user_id, add_all_user_ids, add_each, change,
}
use pushd.Members.Cache.{
  counted, cached, CacheOk, Held, value_or_new-Held, value_or_new_lem, address_of, changed_others,
  counted-changed, changed, looked, looked-CacheOk, looked_same, looked-Held, changed-CacheOk,
}

module _ (x : External) where
  -- One more set of members that a room has, the others as they were, unless they are dropped.
  pub record Updated (channel : Bytes) (count : Bytes → ℕ) (w v : World x) : Type 0 where
    pub well_formed : CacheOk x v
    pub members : (u : Bytes) → counted x v channel u ≡ count u
    pub others :
        (k : Bytes)
        → same channel k ≡ false
        → (s : x.id_sets.State) → cached x v k ≡ some s
        → cached x w k ≡ some s

  module _ (l : LruLaws x.rooms) (t : SetLaws x.id_sets) (channel : Bytes) (w : World x) where
    changed-Updated :
        (v : World x) (r : ℕ) (d : Held x channel w v r) (s : x.id_sets.State) (count : Bytes → ℕ)
        → CacheOk x w
        → ((u : Bytes) → occurs u (x.id_sets.elements s) ≡ count u)
        → Updated channel count w (changed x channel w v r d s)
    changed-Updated v r d s count ok h = record {
      well_formed = changed-CacheOk x channel w v r d s ok;
      members = λ u. counted-changed x channel w v r d s u ∙ h u;
      others = λ k e b. changed_others x channel w v r d s ok k e b;
    }

    -- In a cache in which no two rooms share a collection, which stays so: adding a user to a room,
    -- whether it is cached or not, makes the user a member once, and leaves every other user of the
    -- room as before; another room keeps its members, unless the cache drops it.
    pub add_user_id-Updated :
        (user_id : Bytes)
        → CacheOk x w
        → Updated channel
            (λ u. if same user_id u then 1 else counted x w channel u)
            w
            (add_user_id x channel user_id w).1
    unfolding add_user_id change
    add_user_id-Updated user_id ok =
        let d = value_or_new-Held x l t channel w ok in
        let v = (value_or_new x channel w).1 in
        let r = address_of x l t channel w in
        rw (value_or_new_lem x l t channel w) (
          changed-Updated v r d (x.id_sets.add user_id (v.collections r)) _ ok
            (λ u. rw (t.elements_add, d.content u) refl))

    occurs-add_each :
        (u : Bytes) (us : List Bytes) (s : x.id_sets.State)
        → occurs u (x.id_sets.elements (add_each x us s))
          ≡ (if elem u us then 1 else occurs u (x.id_sets.elements s))
    unfolding add_each
    occurs-add_each u [] s = refl
    occurs-add_each u (v ∷ vs) s =
        ground (arith, occurs-add_each u vs (x.id_sets.add v s), t.elements_add u v s)

    -- In a cache in which no two rooms share a collection, which stays so: loading the members of a
    -- room makes each of them a member once, and those that were there stay; another room keeps its
    -- members, unless the cache drops it.
    add_all_user_ids-Updated :
        (us : List Bytes)
        → CacheOk x w
        → Updated channel
            (λ u. if elem u us then 1 else counted x w channel u)
            w
            (add_all_user_ids x channel us w).1
    unfolding add_all_user_ids change
    add_all_user_ids-Updated us ok =
        let d = value_or_new-Held x l t channel w ok in
        let v = (value_or_new x channel w).1 in
        let r = address_of x l t channel w in
        rw (value_or_new_lem x l t channel w) (
          changed-Updated v r d (add_each x us (v.collections r)) _ ok
            (λ u. rw (occurs-add_each u us (v.collections r), d.content u) refl))

    nobody :
        (user_id u : Bytes)
        → x.rooms.peek w.rooms channel ≡ none
        → counted x w channel u ≡ (if same user_id u then 0 else counted x w channel u)
    unfolding counted
    nobody user_id u e = ground (arith, e)

    -- In a cache in which no two rooms share a collection, which stays so: after removing a user
    -- from a room, the user is not among its cached members, and every other user of the room is as
    -- before; another room keeps its members, unless the cache drops it.
    pub remove_user_id-Updated :
        (user_id : Bytes)
        → CacheOk x w
        → Updated channel
            (λ u. if same user_id u then 0 else counted x w channel u)
            w
            (remove_user_id x channel user_id w).1
    unfolding remove_user_id get_value change
    remove_user_id-Updated user_id ok = elim (Option-cases (x.rooms.peek w.rooms channel)) [
      | inl e ↦
          rw (l.get_value channel w.rooms, e)
            record {
              well_formed = looked-CacheOk x l t channel w ok;
              members = λ u. (looked_same x l t channel w channel u).0 ∙ nobody user_id u e;
              others = λ k f s h. sym (looked_same x l t channel w k []).1 ∙ h;
            }
      | inr (r, e) ↦
          let d = looked-Held x l t channel w r e (ok.allocated channel r e) in
          rw (l.get_value channel w.rooms, e)
            (changed-Updated (looked x l t channel w) r d
              (x.id_sets.remove user_id (w.collections r)) _ ok
              (λ u. rw (t.elements_remove, d.content u) refl))
    ]
