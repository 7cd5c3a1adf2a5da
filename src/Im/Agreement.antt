-- ===== src/Im/Agreement.antt =====
-- What the operations of a room do to the two collections that say who is in it.
use pushd.Prelude.{
  false, ◌≡◌, ◌⊎◌, inl, inr, refl, sym, ap, ◌∙◌, true, ◌&&◌, ◌||◌, not, Option, none, some, List,
  [], ◌∷◌, arith, done,
}
use pushd.Text.{Bytes, same, same_iff}
use pushd.External.{
  External, Write, DbError, Result, ok, err, insert_room, add_members, pull_members,
  remove_empty_room, upsert_channel, upsert_channels, pull_channels, set_stats, unset_stats,
  upsert_stat,
}
use pushd.External.Laws.{elem}
use pushd.External.Views.{Views, ViewLaws, joined_after}
use pushd.World.{World, write, query, now_nanos}
use pushd.Im.{create_room, join_room, leave_room, disolve_room}

found_cases :
    (r : Result (Option (List Bytes)))
    → ((us : List Bytes) × (r ≡ ok (some us))) ⊎ ((r ≡ ok none) ⊎ ((e : DbError) × (r ≡ err e)))
found_cases (ok (some us)) = inl (us, refl)
found_cases (ok none) = inr (inl refl)
found_cases (err e) = inr (inr (e, refl))

module _ (x : External) where
  -- the database behind a write
  abbrev behind : Write → x.Db → x.Db
  behind q d = (x.mongo.write q d).1

  -- `joinRoom` without an error: its first and its last write succeeded
  join_room-db :
      (c : Bytes) (us : List Bytes) (w : World x)
      → (join_room x c us w).0 ≡ done none
      → let d = behind (add_members c us) w.db in
        let e = behind (set_stats us c (x.clock w.reads)) d in
        ((x.mongo.write (add_members c us) w.db).0 ≡ none)
        × ((x.mongo.write (upsert_channels us c) e).0 ≡ none)
        × ((join_room x c us w).1.db ≡ behind (upsert_channels us c) e)
  unfolding join_room write now_nanos
  join_room-db c us w h = ground (arith, h)

  create_room-db :
      (user c : Bytes) (w : World x)
      → (create_room x user c w).0 ≡ done none
      → let d = behind (insert_room c (user ∷ [])) w.db in
        let e = behind (upsert_stat user c (x.clock w.reads)) d in
        ((x.mongo.write (insert_room c (user ∷ [])) w.db).0 ≡ none)
        × ((x.mongo.write (upsert_channel user c) e).0 ≡ none)
        × ((create_room x user c w).1.db ≡ behind (upsert_channel user c) e)
  unfolding create_room write now_nanos
  create_room-db user c w h = ground (arith, h)

  leave_room-db :
      (c : Bytes) (us : List Bytes) (w : World x)
      → (leave_room x c us w).0 ≡ done none
      → let d = behind (pull_members c us) w.db in
        let e = behind (unset_stats us c) (behind (remove_empty_room c) d) in
        ((x.mongo.write (pull_members c us) w.db).0 ≡ none)
        × ((x.mongo.write (pull_channels us c) e).0 ≡ none)
        × ((leave_room x c us w).1.db ≡ behind (pull_channels us c) e)
  unfolding leave_room write
  leave_room-db c us w h = ground (arith, h)

  -- `disolveRoom` without an error: every user that the room has leaves it
  disolve_room-leave :
      (c : Bytes) (w : World x)
      → (disolve_room x c w).0 ≡ done none
      → (us : List Bytes) × (x.mongo.find_uuids c w.db ≡ ok (some us))
        × (disolve_room x c w ≡ leave_room x c us w)
  unfolding disolve_room query
  disolve_room-leave c w h = elim (found_cases (x.mongo.find_uuids c w.db)) [
    | inl (us, e) ↦ (us, e, rw e refl)
    | inr (inl e) ↦ absurd (ground (arith, h, e))
    | inr (inr (a, e)) ↦ absurd (ground (arith, h, e))
  ]

  module _ (v : Views x.mongo) where
    -- In both collections, the room has these users beside those that it had, and every other room
    -- has the users that it had.
    abbrev pub Gained : Bytes → List Bytes → x.Db → x.Db → Type 0
    Gained c us d e =
        (k u : Bytes)
        → (v.member k u e ≡ ((same c k && elem u us) || v.member k u d))
          × (v.joined u k e ≡ ((same c k && elem u us) || v.joined u k d))

    -- In both collections, the room has the users that it had but these.
    abbrev pub Lost : Bytes → List Bytes → x.Db → x.Db → Type 0
    Lost c us d e =
        (k u : Bytes)
        → (v.member k u e ≡ (not (same c k && elem u us) && v.member k u d))
          × (v.joined u k e ≡ (not (same c k && elem u us) && v.joined u k d))

  module _ (v : Views x.mongo) (l : ViewLaws x.mongo v) where
    -- Under the laws of the driver: when joining a room reports no error, the users and the room
    -- are added to each other in the two collections, and nothing else changes there.
    pub join_room-Gained :
        (c : Bytes) (us : List Bytes) (w : World x)
        → (join_room x c us w).0 ≡ done none
        → Gained v c us w.db (join_room x c us w).1.db
    join_room-Gained c us w h k u =
        let r = join_room-db c us w h in
        let d = behind (add_members c us) w.db in
        let e = behind (set_stats us c (x.clock w.reads)) d in
        rw r.2 (
          l.member_kept (upsert_channels us c) k u e refl
              ∙ l.member_kept (set_stats us c (x.clock w.reads)) k u d refl
              ∙ l.member_write (add_members c us) k u w.db r.0,
          l.joined_write (upsert_channels us c) u k e r.1
              ∙ ap (joined_after (upsert_channels us c) u k) (
                  l.joined_kept (set_stats us c (x.clock w.reads)) u k d refl
                  ∙ l.joined_kept (add_members c us) u k w.db refl),
        )

    -- When creating a room reports no error, the room and its first user are added to each other in
    -- the two collections, and nothing else changes there.
    create_room-Gained :
        (user c : Bytes) (w : World x)
        → (create_room x user c w).0 ≡ done none
        → Gained v c (user ∷ []) w.db (create_room x user c w).1.db
    create_room-Gained user c w h k u =
        let r = create_room-db user c w h in
        let d = behind (insert_room c (user ∷ [])) w.db in
        let e = behind (upsert_stat user c (x.clock w.reads)) d in
        rw r.2 (
          l.member_kept (upsert_channel user c) k u e refl
              ∙ l.member_kept (upsert_stat user c (x.clock w.reads)) k u d refl
              ∙ l.member_write (insert_room c (user ∷ [])) k u w.db r.0,
          l.joined_write (upsert_channel user c) u k e r.1
              ∙ ap (joined_after (upsert_channel user c) u k) (
                  l.joined_kept (upsert_stat user c (x.clock w.reads)) u k d refl
                  ∙ l.joined_kept (insert_room c (user ∷ [])) u k w.db refl),
        )

    -- Under the laws of the driver: when leaving a room reports no error, the users and the room
    -- are taken from each other in the two collections, and nothing else changes there.
    leave_room-Lost :
        (c : Bytes) (us : List Bytes) (w : World x)
        → (leave_room x c us w).0 ≡ done none
        → Lost v c us w.db (leave_room x c us w).1.db
    leave_room-Lost c us w h k u =
        let r = leave_room-db c us w h in
        let d = behind (pull_members c us) w.db in
        let f = behind (remove_empty_room c) d in
        let e = behind (unset_stats us c) f in
        rw r.2 (
          l.member_kept (pull_channels us c) k u e refl
              ∙ l.member_kept (unset_stats us c) k u f refl
              ∙ l.member_kept (remove_empty_room c) k u d refl
              ∙ l.member_write (pull_members c us) k u w.db r.0,
          l.joined_write (pull_channels us c) u k e r.1
              ∙ ap (joined_after (pull_channels us c) u k) (
                  l.joined_kept (unset_stats us c) u k f refl
                  ∙ l.joined_kept (remove_empty_room c) u k d refl
                  ∙ l.joined_kept (pull_members c us) u k w.db refl),
        )

    -- Under the laws of the driver, where the two collections agree and dissolving a room reports
    -- no error: in both of them, nobody is in the room any more, and every other room has the
    -- users that it had.
    pub disolve_room-empty :
        (c : Bytes) (w : World x)
        → ((k u : Bytes) → v.member k u w.db ≡ v.joined u k w.db)
        → (disolve_room x c w).0 ≡ done none
        → (k u : Bytes)
        → (v.member k u (disolve_room x c w).1.db ≡ (not (same c k) && v.member k u w.db))
          × (v.joined u k (disolve_room x c w).1.db ≡ (not (same c k) && v.joined u k w.db))
    disolve_room-empty c w agree h k u =
        let r = disolve_room-leave c w h in
        let t = leave_room-Lost c r.0 w (sym (ap (λ o. o.0) r.2) ∙ h) k u in
        let own : same c k ≡ true → v.member k u w.db ≡ elem u r.0 = λ s.
          ap (λ b. v.member b u w.db) (sym ((same_iff c k).0 s))
          ∙ l.found_members c u r.0 w.db r.1 in
        rw r.2 (ground (arith, t, own, agree k u))

    -- A join that fails at the second of its three writes.
    join_room-half :
        (c : Bytes) (us : List Bytes) (w : World x) (a : DbError)
        → (x.mongo.write (add_members c us) w.db).0 ≡ none
        → (x.mongo.write
            (set_stats us c (x.clock w.reads))
            (x.mongo.write (add_members c us) w.db).1).0
          ≡ some a
        → ((join_room x c us w).0 ≡ done (some a))
          × ((k u : Bytes)
              → (v.member k u (join_room x c us w).1.db
                  ≡ ((same c k && elem u us) || v.member k u w.db))
                × (v.joined u k (join_room x c us w).1.db ≡ v.joined u k w.db))
    unfolding join_room write now_nanos
    join_room-half c us w a e f =
        let d = behind (add_members c us) w.db in
        rw (e, f)
          (
            refl,
            λ k u. (
              l.member_kept (set_stats us c (x.clock w.reads)) k u d refl
                  ∙ l.member_write (add_members c us) k u w.db e,
              l.joined_kept (set_stats us c (x.clock w.reads)) u k d refl
                  ∙ l.joined_kept (add_members c us) u k w.db refl,
            ),
          )

    -- Under the laws of the driver: when joining a room fails at the second of its three writes,
    -- the room has the users then, and every user has the rooms it had; for a user who joined and
    -- had not joined the room before, the two collections disagree: the room has the user, and the
    -- user does not have the room.
    pub join_room-torn :
        (c : Bytes) (us : List Bytes) (w : World x) (a : DbError) (n : Bytes)
        → (x.mongo.write (add_members c us) w.db).0 ≡ none
        → (x.mongo.write
            (set_stats us c (x.clock w.reads))
            (x.mongo.write (add_members c us) w.db).1).0
          ≡ some a
        → elem n us ≡ true
        → v.joined n c w.db ≡ false
        → ((join_room x c us w).0 ≡ done (some a))
          × ((k u : Bytes)
              → (v.member k u (join_room x c us w).1.db
                  ≡ ((same c k && elem u us) || v.member k u w.db))
                × (v.joined u k (join_room x c us w).1.db ≡ v.joined u k w.db))
          × (v.member c n (join_room x c us w).1.db ≡ true)
          × (v.joined n c (join_room x c us w).1.db ≡ false)
    join_room-torn c us w a n e f g h =
        let r = join_room-half c us w a e f in
        (r.0, r.1, (r.1 c n).0 ∙ rw (g, (same_iff c c).1 refl) refl, (r.1 c n).1 ∙ h)
