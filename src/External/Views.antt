-- ===== src/External/Views.antt =====
-- Who is in which room, as two collections of the database say it: `channel_uuids` keeps the users
-- of a room, and `uuid_channels` the rooms of a user; and what a write does to them.
use pushd.Prelude.{◌≡◌, Bool, true, false, ◌&&◌, ◌||◌, not, none, some, List, [], ◌∷◌}
use pushd.Text.{Bytes, same}
use pushd.External.{
  Mongo, Write, insert_room, insert_named_room, add_members, pull_members, upsert_channel,
  upsert_channels, pull_channels, ok,
}
use pushd.External.Laws.{elem}

pub record Views (m : Mongo) : Type 0 where
  -- `channel_uuids`: whether the room has the user
  pub member : Bytes → Bytes → m.Db → Bool
  -- `uuid_channels`: whether the user has the room
  pub joined : Bytes → Bytes → m.Db → Bool

-- whether the room `k` has the user `u` after a write that succeeds
abbrev pub member_after : Write → Bytes → Bytes → Bool → Bool
member_after (insert_room c us) k u b = (same c k && elem u us) || b
member_after (insert_named_room n c us) k u b = (same c k && elem u us) || b
member_after (add_members c us) k u b = (same c k && elem u us) || b
member_after (pull_members c us) k u b = not (same c k && elem u us) && b
member_after _ k u b = b

-- whether the user `u` has the room `k`
abbrev pub joined_after : Write → Bytes → Bytes → Bool → Bool
joined_after (upsert_channel v c) u k b = (same c k && elem u (v ∷ [])) || b
joined_after (upsert_channels vs c) u k b = (same c k && elem u vs) || b
joined_after (pull_channels vs c) u k b = not (same c k && elem u vs) && b
joined_after _ u k b = b

-- the writes that change the users of a room, and those that change the rooms of a user
abbrev pub changes_members : Write → Bool
changes_members (insert_room c us) = true
changes_members (insert_named_room n c us) = true
changes_members (add_members c us) = true
changes_members (pull_members c us) = true
changes_members _ = false

abbrev pub changes_joined : Write → Bool
changes_joined (upsert_channel v c) = true
changes_joined (upsert_channels vs c) = true
changes_joined (pull_channels vs c) = true
changes_joined _ = false

-- A write that succeeds does what its modifier says, and any other write leaves the two collections,
-- also when it fails.
pub record ViewLaws (m : Mongo) (v : Views m) : Type 0 where
  pub member_write :
      (q : Write) (k u : Bytes) (d : m.Db)
      → (m.write q d).0 ≡ none
      → v.member k u (m.write q d).1 ≡ member_after q k u (v.member k u d)
  pub joined_write :
      (q : Write) (u k : Bytes) (d : m.Db)
      → (m.write q d).0 ≡ none
      → v.joined u k (m.write q d).1 ≡ joined_after q u k (v.joined u k d)
  pub member_kept :
      (q : Write) (k u : Bytes) (d : m.Db)
      → changes_members q ≡ false
      → v.member k u (m.write q d).1 ≡ v.member k u d
  pub joined_kept :
      (q : Write) (u k : Bytes) (d : m.Db)
      → changes_joined q ≡ false
      → v.joined u k (m.write q d).1 ≡ v.joined u k d
  pub found_members :
      (k u : Bytes) (us : List Bytes) (d : m.Db)
      → m.find_uuids k d ≡ ok (some us)
      → v.member k u d ≡ elem u us
