-- ===== src/Tests/Agreeing.antt =====
-- The operations of rooms and the second queue of the storage at a concrete database.
use pushd.Prelude.{◌≡◌, refl, true, false, ◌&&◌, ◌||◌, not, none, some, [], ◌∷◌, arith, done}
use pushd.Text.{Bytes, codes, same}
use pushd.External.{other, add_members, External}
use pushd.External.Laws.{elem}
use pushd.World.{World, write, now_nanos, query}
use pushd.Im.{join_room, leave_room, disolve_room}
use pushd.Im.Agreement.{Gained, join_room-Gained, disolve_room-empty, join_room-torn}
use pushd.Storage.Binding.{serve_chan_uuids}
use pushd.Storage.Binding.Rooms.{
  changed, member_write, joined_write, middle, tuple, serve_chan_uuids-both,
}
use pushd.Tests.Memory.{here, office, memory_write, without}
use pushd.Tests.RoomLaws.{
  memory_views, memory-ViewLaws, torn_memory, torn_views, torn_memory-ViewLaws,
}

cid_joins : (join_room here (codes "room") (codes "cid" ∷ []) office).0 ≡ done none
unfolding join_room write now_nanos memory_write same
cid_joins = refl

join_room-Gained_example :
    Gained here memory_views
      (codes "room")
      (codes "cid" ∷ [])
      office.db
      (join_room here (codes "room") (codes "cid" ∷ []) office).1.db
join_room-Gained_example =
    join_room-Gained here memory_views memory-ViewLaws (codes "room") (codes "cid" ∷ []) office
      cid_joins

ann_leaves : (leave_room here (codes "room") (codes "ann" ∷ []) office).0 ≡ done none
unfolding leave_room write memory_write same without
ann_leaves = refl

room_ends : (disolve_room here (codes "room") office).0 ≡ done none
unfolding disolve_room leave_room write query memory_write same without
room_ends = refl

office_agrees :
    (k u : Bytes) → memory_views.member k u office.db ≡ memory_views.joined u k office.db
office_agrees k u = ground arith

disolve_room-empty_example :
    (let d = (disolve_room here (codes "room") office).1.db in
      (memory_views.member (codes "room") (codes "ann") d ≡ (
        not (same (codes "room") (codes "room"))
        && memory_views.member (codes "room") (codes "ann") office.db))
      × (memory_views.joined (codes "ann") (codes "room") d ≡ (
          not (same (codes "room") (codes "room"))
          && memory_views.joined (codes "ann") (codes "room") office.db)))
disolve_room-empty_example =
    disolve_room-empty here memory_views memory-ViewLaws (codes "room") office office_agrees
      room_ends (codes "room") (codes "ann")

abbrev there : External
there = record here { mongo = torn_memory }

abbrev torn_office : World there
torn_office = record {
  db = office.db;
  reads = 0;
  draws = 0;
  clients = office.clients;
  online = office.online;
  rooms = office.rooms;
  collections = office.collections;
  next_collection = 1;
  peers = [];
  routes = office.routes;
  peer_sets = office.peer_sets;
  next_peer_set = 0;
  forwarded = [];
  queue = [];
  sent = [];
  spawned = [];
}

cid_is_added :
    (there.mongo.write (add_members (codes "room") (codes "cid" ∷ [])) torn_office.db).0 ≡ none
unfolding memory_write same
cid_is_added = refl

cid_joins_now : elem (codes "cid") (codes "cid" ∷ []) ≡ true
unfolding same
cid_joins_now = refl

cid_is_new : torn_views.joined (codes "cid") (codes "room") torn_office.db ≡ false
unfolding same
cid_is_new = refl

join_room-torn_example :
    (let r = join_room there (codes "room") (codes "cid" ∷ []) torn_office in
      (r.0 ≡ done (some (other (codes "timeout"))))
      × ((k u : Bytes)
          → (torn_views.member k u r.1.db ≡ (
              (same (codes "room") k && elem u (codes "cid" ∷ []))
              || torn_views.member k u torn_office.db))
            × (torn_views.joined u k r.1.db ≡ torn_views.joined u k torn_office.db))
      × (torn_views.member (codes "room") (codes "cid") r.1.db ≡ true)
      × (torn_views.joined (codes "cid") (codes "room") r.1.db ≡ false))
join_room-torn_example =
    join_room-torn there torn_views torn_memory-ViewLaws (codes "room") (codes "cid" ∷ [])
      torn_office (other (codes "timeout")) (codes "cid") cid_is_added refl cid_joins_now cid_is_new

unbinds :
    (here.mongo.write (member_write true [] (codes "room") (codes "bob" ∷ [])) office.db).0 ≡ none
unfolding memory_write same without
unbinds = refl

also_unbinds :
    (here.mongo.write
      (joined_write true (codes "room") (codes "bob" ∷ []))
      (middle here true [] (codes "room") (codes "bob" ∷ []) office.db)).0
    ≡ none
unfolding memory_write
also_unbinds = refl

some_room : same (codes "room") [] ≡ false
unfolding same
some_room = refl

serve_chan_uuids-both_example :
    (let r = serve_chan_uuids here (tuple here true [] (codes "room") (codes "bob" ∷ [])) office in
      (r.0 ≡ done tt)
      × (memory_views.member (codes "room") (codes "bob") r.1.db
          ≡ changed true
              (same (codes "room") (codes "room") && elem (codes "bob") (codes "bob" ∷ []))
              (memory_views.member (codes "room") (codes "bob") office.db))
      × (memory_views.joined (codes "bob") (codes "room") r.1.db
          ≡ changed true
              (same (codes "room") (codes "room") && elem (codes "bob") (codes "bob" ∷ []))
              (memory_views.joined (codes "bob") (codes "room") office.db)))
serve_chan_uuids-both_example =
    serve_chan_uuids-both here memory_views memory-ViewLaws true [] (codes "room") (codes "bob") []
      office (codes "room") (codes "bob") some_room unbinds also_unbinds
