-- ===== src/Storage/Binding/Rooms.antt =====
-- What a round of the second queue does to the two collections that say who is in a room.
use pushd.Prelude.{
  ℕ, ◌≡◌, inl, inr, refl, ap, ◌∙◌, Bool, true, false, ◌&&◌, ◌||◌, not, none, List, [], ◌∷◌,
  Bool-cases, done,
}
use pushd.Text.{Bytes, same}
use pushd.External.{
  External, Write, pull_members, remove_empty_room, upsert_channels, pull_channels, set_stats,
  unset_stats,
}
use pushd.External.Laws.{elem}
use pushd.External.Views.{Views, ViewLaws, member_after, joined_after, changes_joined}
use pushd.World.{World, write, now_nanos}
use pushd.Storage.Binding.{
  ChanUuidsTuple, binding, bind_users, remove_users, bind_uuid_to_channel, rm_uuid_from_channel,
  serve_chan_uuids,
}

-- whether a user is in a room, once some were bound to it or taken from it
abbrev pub changed : Bool → Bool → Bool → Bool
changed true named b = not named && b
changed false named b = named || b

-- the writes of a round that name the users: to `channel_uuids`, and to `uuid_channels`
abbrev pub member_write : Bool → Bytes → Bytes → List Bytes → Write
member_write true name c us = pull_members c us
member_write false name c us = binding name c us

abbrev pub joined_write : Bool → Bytes → List Bytes → Write
joined_write true c us = pull_channels us c
joined_write false c us = upsert_channels us c

abbrev pub stat_write : Bool → Bytes → List Bytes → ℕ → Write
stat_write true c us ts = unset_stats us c
stat_write false c us ts = set_stats us c ts

binding-member_after :
    (name c : Bytes) (us : List Bytes) (k u : Bytes) (b : Bool)
    → member_after (binding name c us) k u b ≡ ((same c k && elem u us) || b)
unfolding binding
binding-member_after name c us k u b = elim (Bool-cases (same name [])) [
  | inl e ↦ rw e refl
  | inr e ↦ rw e refl
]

binding-joined : (name c : Bytes) (us : List Bytes) → changes_joined (binding name c us) ≡ false
unfolding binding
binding-joined name c us = elim (Bool-cases (same name [])) [
  | inl e ↦ rw e refl
  | inr e ↦ rw e refl
]

module _ (x : External) where
  abbrev behind : Write → x.Db → x.Db
  behind q d = (x.mongo.write q d).1

  -- the database before the second of the two writes
  abbrev pub middle : Bool → Bytes → Bytes → List Bytes → x.Db → x.Db
  middle true name c us d = behind (remove_empty_room c) (behind (pull_members c us) d)
  middle false name c us d = behind (binding name c us) d

  abbrev pub tuple : Bool → Bytes → Bytes → List Bytes → ChanUuidsTuple
  tuple is_del name c us = record {
    channel_id = c;
    channel_name = name;
    uuids = us;
    is_del = is_del;
  }

  serve_chan_uuids-db :
      (is_del : Bool) (name c user : Bytes) (users : List Bytes) (w : World x)
      → let us = user ∷ users in
        let r = serve_chan_uuids x (tuple is_del name c us) w in
        same c [] ≡ false
        → (x.mongo.write (member_write is_del name c us) w.db).0 ≡ none
        → (r.0 ≡ done tt)
          × ((ts : ℕ) × (r.1.db
                ≡ behind
                    (stat_write is_del c us ts)
                    (behind (joined_write is_del c us) (middle is_del name c us w.db))))
  unfolding serve_chan_uuids write now_nanos bind_uuid_to_channel rm_uuid_from_channel bind_users
      remove_users
  serve_chan_uuids-db true name c user users w h e = rw (h, e) (refl, (0, refl))
  serve_chan_uuids-db false name c user users w h e = rw (h, e) (refl, (x.clock w.reads, refl))

  module _ (v : Views x.mongo) (l : ViewLaws x.mongo v) where
    -- What a round of the second queue does, under the laws of the driver: where the writes to the
    -- two collections succeed, the users are bound to the room in both of them, or taken from it
    -- in both, as the tuple says, and nothing else changes there; the goroutine goes on. The tuple
    -- names a channel and at least one user.
    pub serve_chan_uuids-both :
        (is_del : Bool) (name c user : Bytes) (users : List Bytes) (w : World x) (k u : Bytes)
        → let us = user ∷ users in
          let r = serve_chan_uuids x (tuple is_del name c us) w in
          same c [] ≡ false
          → (x.mongo.write (member_write is_del name c us) w.db).0 ≡ none
          → (x.mongo.write (joined_write is_del c us) (middle is_del name c us w.db)).0 ≡ none
          → (r.0 ≡ done tt)
            × (v.member k u r.1.db ≡ changed is_del (same c k && elem u us) (v.member k u w.db))
            × (v.joined u k r.1.db ≡ changed is_del (same c k && elem u us) (v.joined u k w.db))
    serve_chan_uuids-both true name c user users w k u h e f =
        let us = user ∷ users in
        let r = serve_chan_uuids-db true name c user users w h e in
        let d = behind (pull_members c us) w.db in
        let m = behind (remove_empty_room c) d in
        (
          r.0,
          rw r.1.1 (
              l.member_kept (unset_stats us c) k u (behind (pull_channels us c) m) refl
              ∙ l.member_kept (pull_channels us c) k u m refl
              ∙ l.member_kept (remove_empty_room c) k u d refl
              ∙ l.member_write (pull_members c us) k u w.db e),
          rw r.1.1 (
              l.joined_kept (unset_stats us c) u k (behind (pull_channels us c) m) refl
              ∙ l.joined_write (pull_channels us c) u k m f
              ∙ ap (joined_after (pull_channels us c) u k) (
                  l.joined_kept (remove_empty_room c) u k d refl
                  ∙ l.joined_kept (pull_members c us) u k w.db refl)),
        )
    serve_chan_uuids-both false name c user users w k u h e f =
        let us = user ∷ users in
        let r = serve_chan_uuids-db false name c user users w h e in
        let d = behind (binding name c us) w.db in
        (
          r.0,
          rw r.1.1 (
              l.member_kept (set_stats us c r.1.0) k u (behind (upsert_channels us c) d) refl
              ∙ l.member_kept (upsert_channels us c) k u d refl
              ∙ l.member_write (binding name c us) k u w.db e
              ∙ binding-member_after name c us k u (v.member k u w.db)),
          rw r.1.1 (
              l.joined_kept (set_stats us c r.1.0) u k (behind (upsert_channels us c) d) refl
              ∙ l.joined_write (upsert_channels us c) u k d f
              ∙ ap (joined_after (upsert_channels us c) u k)
                  (l.joined_kept (binding name c us) u k w.db (binding-joined name c us))),
        )
