-- ===== src/Client.antt =====
-- A connected client (engine/client.go): its identity, how it is set up and how it is closed.
pub mod Lifecycle
pub mod Keeps
use pushd.Prelude.{
  ℕ, Bool, true, false, not, none, some, Option, List, [], ◌∷◌, ◌==◌, if◌then◌else◌, ℤ, done,
}
use Prim.Native.Nat.{bit_and, bit_or}
use pushd.Text.{Bytes, codes, words}
use pushd.Names.{output_frame_chat}
use pushd.External.{
  External, Result, ok, err, Unstable, User, DbError, remove_idle, pull_frames, raise_stat,
}
use pushd.World.{
  Run, Client, ClientState, create, init_done, dead, pure, modify, ◌>>=◌, ◌>>◌, or_crash, for_each,
  get_client, query, write,
}
use pushd.Registry.{add_client, remove_client}
use pushd.Pubsub.{publish_str_msg}

abbrev pub type_client : ℕ
type_client = 1

abbrev pub type_server : ℕ
type_server = 2

-- `NewClient`
abbrev pub new_client : Client
new_client = record {
  channels = [];
  kind = 0;
  uuid = [];
  token = [];
  expire = 0;
  push_id = [];
  is_allow_force_notify = false;
  state = create;
  closed = false;
}

-- `IsClient`, `IsServer`
unfoldable pub is_client : Client → Bool
is_client c = not (bit_and c.kind type_client == 0)

unfoldable pub is_server : Client → Bool
is_server c = not (bit_and c.kind type_server == 0)

-- `SetClient`, `SetServer`, `ClearIdentity`, `initToken`, `updateTokenExpire`
unfoldable pub set_client_type : Client → Client
set_client_type c = record c { kind = bit_or c.kind type_client }

unfoldable pub set_server_type : Client → Client
set_server_type c = record c { kind = bit_or c.kind type_server }

unfoldable pub clear_identity : Client → Client
clear_identity c = record c { kind = bit_and c.kind 0 }

unfoldable pub init_token : Bytes → ℕ → Client → Client
init_token token expire c = record c { token = token; expire = expire }

unfoldable pub update_token_expire : ℕ → Client → Client
update_token_expire expire c = record c { expire = expire }

module _ (x : External) where
  -- a method on the client at an address
  unfoldable pub on_client : ℕ → (Client → Client) → Run x (Unit {0})
  on_client c f =
      modify (λ w. record w { clients = λ n. if n == c then f (w.clients n) else w.clients n })

  -- `storage.FetchUuidsAboutChannel`: nil on an error, a panic when the document has no `uuids`
  unfoldable pub fetch_uuids_about_channel : Bytes → Run x (List Bytes)
  unfolding query
  fetch_uuids_about_channel channel_id = do
    found ← query x (x.mongo.find_uuids channel_id)
    elim found [ err _ ↦ pure [] | ok uuids ↦ or_crash uuids ]

  -- the notice of a dismissed call: `"%s %s2 %d %s %s"`
  abbrev pub dismiss_notice : Bytes → Bytes → Bytes
  dismiss_notice uuid channel_id =
      words (output_frame_chat ∷ codes "frame_dismiss2" ∷ codes "-1" ∷ uuid ∷ channel_id ∷ [])

  -- what follows the removal of a call that nobody is active in
  unfoldable pub dismiss_frame : Bytes → Unstable → Bytes → Run x (Unit {0})
  unfolding write
  dismiss_frame uuid info object_id = do
    uuids ← fetch_uuids_about_channel info.channel_id
    write x (pull_frames uuids object_id)
    publish_str_msg x info.channel_id (dismiss_notice uuid object_id) uuid true

  -- `collection.Find(...).Apply(change, &result)` with `$pull` of an active user
  unfoldable pub pull_active : Bytes → Bytes → Run x (Result Unstable)
  pull_active object_id uuid w =
      let (r, d) = x.mongo.pull_active object_id uuid w.db in (done r, record w { db = d })

  -- what follows the removal of a call, by its error
  unfoldable pub after_remove : Bytes → Unstable → Bytes → Option DbError → Run x (Unit {0})
  after_remove uuid info object_id (some _) = pure tt
  after_remove uuid info object_id none = dismiss_frame uuid info object_id

  -- what follows the `$pull` of a user
  unfoldable pub after_pull : Bytes → Bytes → Result Unstable → Run x (Unit {0})
  unfolding write
  after_pull uuid object_id (err _) = pure tt
  after_pull uuid object_id (ok info) = do
    gone ← write x (remove_idle object_id)
    after_remove uuid info object_id gone

  -- one round of `clearFrameChat`
  unfoldable pub leave_frame : Bytes → Bytes → Run x (Unit {0})
  unfolding pull_active
  leave_frame uuid object_id = do
    pulled ← pull_active object_id uuid
    after_pull uuid object_id pulled

  -- the rounds of `clearFrameChat` on the document of the user
  unfoldable pub leave_frames : Bytes → Result User → Run x (Unit {0})
  leave_frames uuid (err _) = pure tt
  leave_frames uuid (ok user) = do
    frames ← or_crash user.frame_chat
    for_each (leave_frame uuid) frames

  -- `clearFrameChat`
  unfoldable pub clear_frame_chat : Bytes → Run x (Unit {0})
  unfolding query
  clear_frame_chat uuid = do found ← query x (x.mongo.find_user uuid); leave_frames uuid found

  -- what `Close` does for a client that was authenticated
  unfoldable pub sign_off : ℕ → Client → Run x (Unit {0})
  unfolding is_client
  sign_off c cl =
      if is_client cl then (do clear_frame_chat cl.uuid; remove_client x cl.uuid c) else pure tt

  -- `Close`: `UnsubscribeAllChannels` has no code left
  unfoldable pub close : ℕ → Run x (Unit {0})
  unfolding on_client get_client
  close c = do
    on_client c (λ cl. record cl { state = dead })
    cl ← get_client x c
    sign_off c cl
    on_client c (λ cl. record cl { closed = true })

  -- `AckMsg`
  unfoldable pub ack_msg : ℕ → ℤ → Bytes → Run x (Unit {0})
  unfolding get_client write
  ack_msg c ts channel_id = do
    cl ← get_client x c
    write x (raise_stat cl.uuid channel_id ts)
    pure tt

  -- `loadUserInfo`; its error is not read
  unfoldable pub load_user_info : ℕ → Run x (Unit {0})
  unfolding get_client query on_client
  load_user_info c = do
    cl ← get_client x c
    found ← query x (x.mongo.find_user cl.uuid)
    elim found [
      | err _ ↦ pure tt
      | ok user ↦ on_client c (λ cl. record cl {
        push_id = elim user.push_id [ none ↦ cl.uuid | some p ↦ p ];
        is_allow_force_notify = false;
      })
    ]

  -- `updateUserIdToClientMappingTable`
  unfoldable pub update_mapping_table : ℕ → Run x (Unit {0})
  unfolding get_client
  update_mapping_table c = do cl ← get_client x c; remove_client x cl.uuid c; add_client x cl.uuid c

  -- the body of `if client.state == CREATE`
  unfoldable pub set_up : ClientState → ℕ → Run x (Unit {0})
  unfolding on_client
  set_up create c = do
    load_user_info c
    update_mapping_table c
    on_client c (λ cl. record cl { state = init_done })
  set_up _ c = pure tt

  -- `initChatEnv`
  unfoldable pub init_chat_env : ℕ → Run x (Unit {0})
  unfolding get_client set_up
  init_chat_env c = do cl ← get_client x c; set_up cl.state c
