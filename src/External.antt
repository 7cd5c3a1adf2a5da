-- ===== src/External.antt =====
-- What the engine calls and does not implement: the mgo driver, golib's caches and sets, the
-- concurrent map, the clock, random texts, and the configuration that was loaded. Each is a
-- parameter; the records of laws say what the callers rely on.
pub mod Laws
pub mod Views
use pushd.Prelude.{
  ℕ, zero, suc, ◌+◌, ◌-◌, ◌*◌, ◌/◌, ◌%◌, ◌^◌, ◌≤◌, ◌<◌, ◌≡◌, ◌≢◌, ◌↔◌, ◌⊎◌, inl, inr, refl, sym, ap,
  ◌∙◌, subst, Bool, true, false, ◌&&◌, ◌||◌, not, Option, none, some, List, [], ◌∷◌, ◌++◌, map,
  append-nil, append_assoc, arith, ltb, leb, ◌==◌, if◌then◌else◌, ==_iff, Bool-cases, Option-cases,
  length, get_elem?, take, drop, replicate, length-append, take-append, drop-append, All,
  All-append, ℤ, pos, negsuc, Outcome, done, panic,
}
use pushd.Text.{Bytes, same}
use pushd.Config.{ConfigPushd}

-- An error of the driver: `mgo.ErrNotFound`, a `*mgo.LastError`, or any other.
pub data DbError : Type 0 where
  not_found : DbError
  last_error other : Bytes → DbError

pub data Result {ℓ} (A : Type ℓ) : Type ℓ where
  ok : A → Result A
  err : DbError → Result A

-- `storage.MsgTuple`
pub record MsgTuple : Type 0 where
  pub channel : Bytes
  pub msg : Bytes
  pub ts : ℕ
  pub uuid : Bytes
  pub msg_id : ℤ

-- `mail.Letter`
pub record Letter : Type 0 where
  pub id : Bytes
  pub kind : ℤ
  pub text : Bytes
  pub ts : ℕ

-- A document of `user_info`, as far as the engine reads it; a field may be absent.
pub record User : Type 0 where
  pub push_id : Option Bytes
  pub frame_chat : Option (List Bytes)
  pub channel_stat : Option (List (Bytes × ℤ))

-- A document of `unstable_info`: a call that is going on.
pub record Unstable : Type 0 where
  pub kind : ℕ
  pub subtype : ℤ
  pub proposer : Bytes
  pub channel_id : Bytes
  pub active_user : List Bytes
  pub id : Bytes

-- A field of a document whose type the code tests: absent, of another type (with its text under
-- `%s`), or of the type that is wanted.
pub data Field (A : Type 0) : Type 0 where
  absent : Field A
  other_type : Bytes → Field A
  present : A → Field A

-- A document of the collection `chatroom`, as far as the offline push reads it.
pub record ChatRoom : Type 0 where
  pub kind : Field ℤ
  pub name : Field Bytes

-- The writes that the engine sends, one constructor for each form of selector and modifier.
pub data Write : Type 0 where
  -- channel_uuids
  insert_room : Bytes → List Bytes → Write
  -- with its name in front
  insert_named_room : Bytes → Bytes → List Bytes → Write
  add_members pull_members : Bytes → List Bytes → Write
  remove_empty_room : Bytes → Write
  -- user_info
  insert_user : Bytes → Write
  set_push_id : Bytes → Bytes → Write
  upsert_stat : Bytes → Bytes → ℕ → Write
  set_stats : List Bytes → Bytes → ℕ → Write
  unset_stats : List Bytes → Bytes → Write
  raise_stat : Bytes → Bytes → ℤ → Write
  push_frames pull_frames : List Bytes → Bytes → Write
  -- uuid_channels
  upsert_channel : Bytes → Bytes → Write
  upsert_channels pull_channels : List Bytes → Bytes → Write
  -- msg_log
  insert_msgs : List MsgTuple → Write
  insert_notice : Bytes → Bytes → ℕ → ℤ → Write
  remove_msg : Bytes → Bytes → ℤ → Write
  -- unstable_info
  insert_unstable : Unstable → ℕ → Write
  push_active : Bytes → Bytes → Write
  remove_idle remove_unstable : Bytes → Write
  -- tokens
  insert_client_token : Bytes → ℕ → Write
  insert_server_token : Bytes → ℕ → Write
  insert_appkey : Bytes → ℕ → Write
  remove_client_tokens : Bytes → Write
  -- mail
  push_mail : List Bytes → Letter → Write
  pull_mail : Bytes → List Bytes → Write

-- The driver: what a call returns, and the database that it leaves.
pub record Mongo : Type 1 where
  pub Db : Type 0
  pub error_text : DbError → Bytes
  pub write : Write → Db → Option DbError × Db
  -- channel_uuids by _id: the field `uuids`, if the document has it
  pub find_uuids : Bytes → Db → Result (Option (List Bytes))
  pub find_user : Bytes → Db → Result User
  pub find_msg : Bytes → Bytes → ℤ → Db → Result (Unit {0})
  -- msg_log of a channel later than a time; the third argument excludes one sender
  pub find_msgs : Bytes → ℤ → Option Bytes → Db → Result (List MsgTuple)
  pub find_unstable : Bytes → Db → Result Unstable
  pub find_unstable_of : Bytes → Db → Result Unstable
  -- findAndModify: `$pull` of one active user, returning the new document
  pub pull_active : Bytes → Bytes → Db → Result Unstable × Db
  pub find_client_token : Bytes → Db → Result (Unit {0})
  -- whether the document of the server token has the field `expire`
  pub find_server_token : Bytes → Db → Result Bool
  pub find_appkey : Bytes → Db → Result (Unit {0})
  pub find_mail : Bytes → Db → Result (Option (List Letter))
  pub is_object_id_hex : Bytes → Bool
  -- uuid_channels by _id: its field `channels`
  pub find_channels : Bytes → Db → Result (Option (List Bytes))
  -- the collections `chatroom` and `user` of another database; the latter's field `userName`
  pub find_chat_room : Bytes → Db → Result ChatRoom
  pub find_user_name : Bytes → Db → Result (Field Bytes)

-- golib's `set.Set`. `elements` is the order of one iteration.
pub record Sets (A : Type 0) : Type 1 where
  pub State : Type 0
  pub empty : State
  pub add : A → State → State
  pub remove : A → State → State
  pub contains : A → State → Bool
  pub elements : State → List A

-- golib's `cache.LruCache`. `peek` is what a `Get` would return now.
pub record Lru (V : Type 0) : Type 1 where
  pub State : Type 0
  pub peek : State → Bytes → Option V
  pub get : Bytes → State → Option V × State
  pub get_or_add : Bytes → V → State → V × State
  pub set : Bytes → V → State → State
  pub del : Bytes → State → State

-- The concurrent map of strings.
pub record ConcurrentMap (V : Type 0) : Type 1 where
  pub State : Type 0
  pub get : State → Bytes → Option V
  pub set : Bytes → V → State → State
  pub remove : Bytes → State → State

-- `encoding/json` on the values that the engine marshals and unmarshals.
pub data Json : Type 0 where
  text : Bytes → Json
  texts : List Bytes → Json
  mixed : Json

pub record Codec : Type 0 where
  pub letters_json : List Letter → Bytes
  pub msgs_json : Option (List MsgTuple) → Bytes
  -- the same, with each `ts` as a text
  pub polled_json : List MsgTuple → Bytes
  pub inbox_json : List (Bytes × List MsgTuple) → Bytes
  pub unstable_json : Unstable → Bytes
  -- `none` for an error, `some none` for a value that is not an object
  pub object : Bytes → Option (Option (List (Bytes × Json)))

pub record External : Type 1 where
  pub mongo : Mongo
  pub open mongo use *
  pub id_sets : Sets Bytes
  -- sets of `*Peer`; a peer is known by its address, and `none` is the nil pointer
  pub peer_sets : Sets (Option Bytes)
  pub rooms : Lru ℕ
  pub routes : Lru ℕ
  pub registry : ConcurrentMap ℕ
  pub codec : Codec
  -- `config.PushdConf`
  pub conf : ConfigPushd
  -- `time.Now().UnixNano()` at the n-th reading
  pub clock : ℕ → ℕ
  -- `str.Rand(32)` and `bson.NewObjectId().Hex()` at the n-th draw
  pub rand : ℕ → Bytes
  pub new_object_id : ℕ → Bytes
  -- the hexadecimal SHA-256 of a text
  pub sha256_hex : Bytes → Bytes
  -- whether `net.ResolveTCPAddr` resolves the server's own address, `TcpListenAddr`
  pub resolves : Bool
