-- ===== src/Tests/Memory.antt =====
-- Concrete containers, driver and process, on which the tests and the examples run.
mod Containers
unfoldable pub use Containers.{dedup, drop_text, dedup_peer, drop_peer}
pub use Containers.{memory_sets, memory_lru, memory_map, memory_peers}
pub use Containers.{memory_peers-laws, memory_sets-laws, memory_lru-laws, memory_map-laws}
use pushd.Prelude.{
  ℕ, zero, suc, ◌+◌, ◌-◌, ◌*◌, ◌/◌, ◌%◌, ◌^◌, ◌≤◌, ◌<◌, ◌≡◌, ◌≢◌, ◌↔◌, ◌⊎◌, inl, inr, refl, sym, ap,
  ◌∙◌, subst, Bool, true, false, ◌&&◌, ◌||◌, not, Option, none, some, List, [], ◌∷◌, ◌++◌, map,
  append-nil, append_assoc, arith, ltb, leb, ◌==◌, if◌then◌else◌, ==_iff, Bool-cases, Option-cases,
  length, get_elem?, take, drop, replicate, length-append, take-append, drop-append, All,
  All-append, ℤ, pos, negsuc, Outcome, done, panic,
}
use pushd.Text.{Bytes, codes, same}
use pushd.Text.Number.{dec}
use pushd.Config.{ConfigPushd, ConfigMongo, StorageLimits, every_trx}
use pushd.External.{
  External, Mongo, Codec, Write, DbError, Result, ok, err, present, not_found, other, last_error,
  User, Unstable, MsgTuple, insert_room, insert_named_room, add_members, pull_members,
  remove_empty_room, upsert_channel, upsert_channels, pull_channels,
}
use pushd.External.Laws.{elem}
use pushd.World.{World, Client, Action}
use pushd.Client.{new_client}
use pushd.Pubsub.Delivery.{NamesUsers}

-- Rooms and who joined them; the other collections hold one fixed document.
pub record Rooms : Type 0 where
  pub members : Bytes → Option (List Bytes)
  pub joined : Bytes → Bytes → Bool

unfoldable pub without : List Bytes → List Bytes → List Bytes
without us [] = []
without us (v ∷ vs) = let rest = without us vs in if elem v us then rest else v ∷ rest

abbrev set_room : Rooms → Bytes → Option (List Bytes) → Rooms
set_room d c us = record d { members = λ k. if same k c then us else d.members k }

unfoldable pub insert_memory :
    Bytes → List Bytes → Option (List Bytes) → Rooms → Option DbError × Rooms
insert_memory c us (some old) d = (some (other (codes "duplicate key")), d)
insert_memory c us none d = (none, set_room d c (some us))

unfoldable pub memory_write : Write → Rooms → Option DbError × Rooms
unfolding without insert_memory
memory_write (insert_room c us) d = insert_memory c us (d.members c) d
memory_write (insert_named_room n c us) d = insert_memory c us (d.members c) d
memory_write (add_members c us) d = elim (d.members c) [
  | none ↦ (some not_found, d)
  | some old ↦ (none, set_room d c (some (old ++ without old us)))
]
memory_write (pull_members c us) d = elim (d.members c) [
  | none ↦ (some not_found, d)
  | some old ↦ (none, set_room d c (some (without us old)))
]
memory_write (remove_empty_room c) d = elim (d.members c) [
  | some [] ↦ (none, set_room d c none)
  | _ ↦ (some not_found, d)
]
memory_write (upsert_channel u c) d =
    (none, record d { joined = λ v k. (same v u && same k c) || d.joined v k })
memory_write (upsert_channels us c) d =
    (none, record d { joined = λ v k. (elem v us && same k c) || d.joined v k })
memory_write (pull_channels us c) d =
    (none, record d { joined = λ v k. not (elem v us && same k c) && d.joined v k })
memory_write _ d = (none, d)

abbrev pub some_user : User
some_user = record { push_id = none; frame_chat = some []; channel_stat = some [] }

abbrev pub some_call : Unstable
some_call = record {
  kind = 1;
  subtype = pos 1;
  proposer = codes "ann";
  channel_id = codes "room";
  active_user = [];
  id = codes "call";
}

abbrev room_found : Option (List Bytes) → Result (Option (List Bytes))
room_found none = err not_found
room_found (some us) = ok (some us)

abbrev error_words : DbError → Bytes
error_words not_found = codes "not found"
error_words (last_error t) = t
error_words (other t) = t

abbrev pub memory : Mongo
memory = record {
  Db = Rooms;
  error_text = error_words;
  write = memory_write;
  find_uuids = λ c d. room_found (d.members c);
  find_user = λ u d. ok some_user;
  find_msg = λ c u i d. err not_found;
  find_msgs = λ c t u d. ok [];
  find_unstable = λ i d. ok some_call;
  find_unstable_of = λ c d. err not_found;
  pull_active = λ i u d. (ok some_call, d);
  find_client_token = λ t d. ok tt;
  find_server_token = λ t d. ok true;
  find_appkey = λ a d. ok tt;
  find_mail = λ u d. ok (some []);
  is_object_id_hex = λ s. true;
  find_channels = λ u d. ok (some []);
  find_chat_room = λ c d. ok (record { kind = present (pos 1); name = present (codes "talk") });
  find_user_name = λ u d. ok (present (codes "Ann"));
}

abbrev pub conf : ConfigPushd
conf = record {
  tcp_listen_addr = codes "10.0.0.1:2222";
  session_timeout = pos 0;
  serv_initial_goroutine_num = pos 0;
  long_polling_listen_addr = [];
  long_polling_session_timeout = pos 0;
  stats_listen_addr = [];
  prof_listen_addr = [];
  s2s_listen_addr = codes "10.0.0.1:2223";
  s2s_session_timeout = pos 0;
  s2s_initial_goroutine_num = pos 0;
  s2s_channel_peers_max_items = pos 0;
  channel_info_cache_num = pos 0;
  etc_servers = codes "10.0.0.9:2181" ∷ [];
  msg_queue_addrs = [];
  off_sender_pool_num = pos 1;
  metrics_logfile = [];
  stats_output_interval = pos 0;
  pubsub_channel_max_items = pos 0;
  msg_storage = codes "mongodb";
  limits = record {
    max_storage_outstanding_msg = pos 100;
    msg_flush_policy = every_trx;
    msg_storage_write_buffer_size = pos 10;
    max_cache_msgs_every_channel = pos 10;
  };
  jpush_app_key = codes "k";
  jpush_secret_key = codes "s";
  redis = none;
  mongo = record {
    addr = [];
    database = codes "pushd";
    user_name = [];
    password = [];
    conn_timeout = pos 0;
    operation_timeout = pos 0;
    sync_timeout = pos 0;
  };
}

-- A server process over the containers in memory; its clock runs from one second on.
abbrev pub here : External
here = record {
  mongo = memory;
  id_sets = memory_sets;
  peer_sets = memory_peers;
  rooms = memory_lru ℕ;
  routes = memory_lru ℕ;
  registry = memory_map ℕ;
  codec = record {
    letters_json = λ l. codes "[]";
    msgs_json = λ l. codes "[]";
    polled_json = λ l. codes "[]";
    inbox_json = λ l. codes "{}";
    unstable_json = λ u. codes "{}";
    object = λ s. none;
  };
  conf = conf;
  clock = λ n. 1000000000 * (n + 1);
  rand = λ n. codes "t" ++ dec n;
  new_object_id = λ n. codes "id" ++ dec n;
  sha256_hex = λ s. s;
  resolves = true;
}

abbrev named : Bytes → Client
named uuid = record new_client { uuid = uuid; kind = 1 }

-- ann is client 0 and bob client 1; both are members of `room`, which is cached
abbrev pub office : World here
office = record {
  db = record {
    members = λ c. if same c (codes "room") then some (codes "ann" ∷ codes "bob" ∷ []) else none;
    joined = λ u c. same c (codes "room") && elem u (codes "ann" ∷ codes "bob" ∷ []);
  };
  reads = 0;
  draws = 0;
  clients = λ n. if n == 0 then named (codes "ann") else named (codes "bob");
  online =
      λ u. if same u (codes "ann") then some 0 else if same u (codes "bob") then some 1 else none;
  rooms = λ c. if same c (codes "room") then some 0 else none;
  collections = λ n. codes "ann" ∷ codes "bob" ∷ [];
  next_collection = 1;
  peers = codes "10.0.0.2:2223" ∷ [];
  routes = λ c. none;
  peer_sets = λ n. [];
  next_peer_set = 0;
  forwarded = [];
  queue = [];
  sent = [];
  spawned = [];
}

pub office-NamesUsers : NamesUsers here office
unfolding same
office-NamesUsers = refl
