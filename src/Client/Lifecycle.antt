-- ===== src/Client/Lifecycle.antt =====
-- How a connection enters and leaves the map of online users.
use pushd.Prelude.{
  ℕ, ◌≡◌, refl, ap, true, Option, none, some, arith, ◌==◌, if◌then◌else◌, ==_refl, Outcome, done,
  panic,
}
use pushd.Prelude.{false}
use pushd.Text.{Bytes, same, same_iff}
use pushd.External.{External}
use pushd.External.Laws.{MapLaws}
use pushd.World.{World, Client, create, init_done, dead, continue, get_client}
use pushd.Registry.{add_client, remove_client, get_online}
use pushd.Client.{
  init_chat_env, set_up, close, sign_off, on_client, is_client, load_user_info,
  update_mapping_table, clear_frame_chat,
}
use pushd.Client.Keeps.{clear_frame_chat-Keeps}

module _ (x : External) where
  -- who is online once a client has left under a name
  abbrev pub left : x.registry.State → Bytes → ℕ → Bytes → Option ℕ
  left online uuid c u =
      if same uuid u
      then elim (x.registry.get online uuid) [
        | none ↦ none
        | some d ↦ if d == c then none else some d
      ]
      else x.registry.get online u

  module _ (l : MapLaws x.registry) (uuid : Bytes) (c : ℕ) (w : World x) where
    found_same :
        (u : Bytes) → same uuid u ≡ true → x.registry.get w.online uuid ≡ x.registry.get w.online u
    found_same u e = ap (x.registry.get w.online) ((same_iff uuid u).0 e)

    remove_client-online :
        (u : Bytes) → x.registry.get (remove_client x uuid c w).1.online u ≡ left w.online uuid c u
    unfolding remove_client get_online
    remove_client-online u = ground (arith, l.get_remove uuid u w.online, found_same u)

  remove_client-clients :
      (uuid : Bytes) (c : ℕ) (w : World x) → (remove_client x uuid c w).1.clients ≡ w.clients
  unfolding remove_client get_online
  remove_client-clients uuid c w = ground arith

  remove_client_done : (uuid : Bytes) (c : ℕ) (w : World x) → (remove_client x uuid c w).0 ≡ done tt
  unfolding remove_client get_online
  remove_client_done uuid c w = ground arith

  -- Signing off leaves the clients as they are, also where it panics.
  sign_off-clients : (c : ℕ) (cl : Client) (w : World x) → (sign_off x c cl w).1.clients ≡ w.clients
  unfolding sign_off
  sign_off-clients c cl w = ground (
    arith,
    (clear_frame_chat-Keeps x cl.uuid).clients w,
    remove_client-clients cl.uuid c (clear_frame_chat x cl.uuid w).1,
  )

  -- marking the connection as closed leaves the state, and so does a panic before it
  finish_dead :
      (c : ℕ) (o : Outcome (Unit {0})) (w : World x)
      → (w.clients c).state ≡ dead
      → ((continue o (λ u. on_client x c (λ cl. record cl { closed = true })) w).1.clients c).state
        ≡ dead
  unfolding on_client
  finish_dead c panic w h = h
  finish_dead c (done u) w h = ground (arith, h)

  -- the state of `Close` once the client is marked
  abbrev pub marked_dead : ℕ → World x → World x
  marked_dead c w = record w {
    clients = λ n. if n == c then record (w.clients n) { state = dead } else w.clients n;
  }

  close_dead : (c : ℕ) (w : World x) → ((close x c w).1.clients c).state ≡ dead
  unfolding close get_client on_client
  close_dead c w =
      let v = marked_dead c w in
      let s = sign_off x c (record (w.clients c) { state = dead }) in
      rw ==_refl (
        finish_dead c (s v).0 (s v).1
          (ground (arith, sign_off-clients c (record (w.clients c) { state = dead }) v)))

  init_chat_env_dead :
      (c : ℕ) (w : World x) → (w.clients c).state ≡ dead → init_chat_env x c w ≡ (done tt, w)
  unfolding init_chat_env set_up get_client
  init_chat_env_dead c w h = rw h refl

  -- A client that was closed is never registered again, also if leaving its calls panicked: a
  -- set-up that starts later finds it dead, and changes nothing.
  pub init_chat_env-close :
      (c : ℕ) (w : World x) → init_chat_env x c (close x c w).1 ≡ (done tt, (close x c w).1)
  init_chat_env-close c w = init_chat_env_dead c (close x c w).1 (close_dead c w)

  -- what one set-up does, seen from the map of users and from the clients
  module _ (l : MapLaws x.registry) (c : ℕ) (w : World x) where
    load_user_info_keeps :
        ((load_user_info x c w).0 ≡ done tt)
        × ((load_user_info x c w).1.online ≡ w.online)
        × (((load_user_info x c w).1.clients c).uuid ≡ (w.clients c).uuid)
    unfolding load_user_info on_client get_client
    load_user_info_keeps = ground arith

    update_mapping_table-online :
        (u : Bytes)
        → ((update_mapping_table x c w).0 ≡ done tt)
          × (x.registry.get (update_mapping_table x c w).1.online u
              ≡ (if same (w.clients c).uuid u then some c else x.registry.get w.online u))
          × ((update_mapping_table x c w).1.clients ≡ w.clients)
    unfolding update_mapping_table get_client add_client
    update_mapping_table-online u =
        let uuid = (w.clients c).uuid in
        let v = (remove_client x uuid c w).1 in
        ground (
          arith,
          remove_client_done uuid c w,
          remove_client-online l uuid c w u,
          remove_client-clients uuid c w,
          l.get_set uuid u c v.online,
        )

  -- The set-up of a client that is new: it becomes the one connection of its user, replacing
  -- another, and every other user keeps theirs; it is then set up.
  pub init_chat_env-online :
      (c : ℕ) (w : World x) (u : Bytes)
      → MapLaws x.registry
      → (w.clients c).state ≡ create
      → (let v = (init_chat_env x c w).1 in
          ((init_chat_env x c w).0 ≡ done tt)
          × (x.registry.get v.online u
              ≡ (if same (w.clients c).uuid u then some c else x.registry.get w.online u))
          × ((v.clients c).state ≡ init_done)
          × ((v.clients c).uuid ≡ (w.clients c).uuid))
  unfolding init_chat_env set_up get_client on_client
  init_chat_env-online c w u l h =
      let v = (load_user_info x c w).1 in
      rw h (ground (arith, load_user_info_keeps l c w, update_mapping_table-online l c v u))

  sign_off_returns :
      (c : ℕ) (cl : Client) (w : World x) (u : Bytes)
      → MapLaws x.registry
      → is_client cl ≡ true
      → (clear_frame_chat x cl.uuid w).0 ≡ done tt
      → ((sign_off x c cl w).0 ≡ done tt)
        × (x.registry.get (sign_off x c cl w).1.online u ≡ left w.online cl.uuid c u)
  unfolding sign_off
  sign_off_returns c cl w u l h k =
      let v = (clear_frame_chat x cl.uuid w).1 in
      rw h (
        ground (
          arith,
          k,
          (clear_frame_chat-Keeps x cl.uuid).online w,
          remove_client_done cl.uuid c v,
          remove_client-online l cl.uuid c v u,
        ))

  -- Closing an authenticated client, where leaving its calls returns: the user is offline, unless
  -- another connection took the place of this one, which stays; every other user is as before.
  pub close-online :
      (c : ℕ) (w : World x) (u : Bytes)
      → MapLaws x.registry
      → is_client (w.clients c) ≡ true
      → (clear_frame_chat x (w.clients c).uuid (marked_dead c w)).0 ≡ done tt
      → ((close x c w).0 ≡ done tt)
        × (x.registry.get (close x c w).1.online u ≡ left w.online (w.clients c).uuid c u)
        × (((close x c w).1.clients c).closed ≡ true)
  unfolding close get_client on_client is_client
  close-online c w u l h k =
      let cl = record (w.clients c) { state = dead } in
      let s = sign_off_returns c cl (marked_dead c w) u l h k in
      rw (==_refl, s.0) (refl, s.1, rw ==_refl refl)

  -- Closing a connection that was never authenticated, or whose identity was cleared: nobody goes
  -- offline and the database is left as it is, also when the connection stands in the map of online
  -- users, where it stays although it is dead.
  pub close-unidentified :
      (c : ℕ) (w : World x)
      → is_client (w.clients c) ≡ false
      → ((close x c w).0 ≡ done tt)
        × ((close x c w).1.online ≡ w.online)
        × ((close x c w).1.db ≡ w.db)
        × (((close x c w).1.clients c).state ≡ dead)
  unfolding close sign_off get_client on_client is_client
  close-unidentified c w h =
      (rw (==_refl, h) refl, rw (==_refl, h) refl, rw (==_refl, h) refl, close_dead c w)

  -- and nothing is sent
  pub close_unidentified_sent :
      (c : ℕ) (w : World x) → is_client (w.clients c) ≡ false → (close x c w).1.sent ≡ w.sent
  unfolding close sign_off get_client on_client is_client
  close_unidentified_sent c w h = rw (==_refl, h) refl
