-- ===== src/Engine/Clients.antt =====
-- The life of a client keeps a state sound.
use pushd.Prelude.{
  ℕ, ◌≡◌, inl, inr, refl, ap, ◌∙◌, false, Option, none, some, [], arith, ◌==◌, ==_iff, Bool-cases,
  ℤ, Outcome, done, panic,
}
use pushd.Text.{Bytes, same}
use pushd.External.{External, DbError, Result, User, Unstable, ok, err}
use pushd.External.Laws.{LruLaws, MapLaws}
use pushd.World.{
  World, Run, Client, ClientState, create, init_done, dead, continue, ◌>>◌, query, get_client,
}
use pushd.Engine.Grown.{Grew, Grew-refl, Grew-trans}
use pushd.Engine.Kept.{Sound, Kept}
use pushd.Engine.Actions.{on_client-named, steps}
use pushd.Client.{
  on_client, fetch_uuids_about_channel, dismiss_frame, pull_active, after_remove, after_pull,
  leave_frame, leave_frames, clear_frame_chat, sign_off, close, ack_msg, load_user_info,
  update_mapping_table, set_up, init_chat_env,
}
use pushd.Registry.{add_client, remove_client}
use pushd.Engine.Shared.{remove_client-Kept, add_client-Sound}
use pushd.Engine.Publishing.{publish_str_msg-Kept}

module _ (x : External) (l : LruLaws x.rooms) where
  fetch-Kept : (channel_id : Bytes) → Kept x (fetch_uuids_about_channel x channel_id)
  unfolding fetch_uuids_about_channel
  fetch-Kept channel_id = search steps depth 9

  pub fetch_uuids_about_channel-Kept :
      (channel_id : Bytes) → Kept x (fetch_uuids_about_channel x channel_id)
  fetch_uuids_about_channel-Kept = fetch-Kept

  pub dismiss_frame-Kept :
      (uuid : Bytes) (info : Unstable) (id : Bytes) → Kept x (dismiss_frame x uuid info id)
  unfolding dismiss_frame
  dismiss_frame-Kept uuid info id = search (steps, fetch-Kept, publish_str_msg-Kept x l)

  pub pull_active-Kept : (id uuid : Bytes) → Kept x (pull_active x id uuid)
  unfolding pull_active
  pull_active-Kept id uuid = record { sound = λ w h. h; grew = λ w. Grew-refl x w }

  after_remove-Kept :
      (uuid : Bytes) (info : Unstable) (id : Bytes) (e : Option DbError)
      → Kept x (after_remove x uuid info id e)
  unfolding after_remove
  after_remove-Kept uuid info id none = dismiss_frame-Kept uuid info id
  after_remove-Kept uuid info id (some e) = search steps

  after_pull-Kept : (uuid id : Bytes) (r : Result Unstable) → Kept x (after_pull x uuid id r)
  unfolding after_pull
  after_pull-Kept uuid id (err e) = search steps
  after_pull-Kept uuid id (ok info) = search (steps, after_remove-Kept)

  leave_frame-Kept : (uuid id : Bytes) → Kept x (leave_frame x uuid id)
  unfolding leave_frame
  leave_frame-Kept uuid id = search (steps, pull_active-Kept, after_pull-Kept)

  leave_frames-Kept : (uuid : Bytes) (r : Result User) → Kept x (leave_frames x uuid r)
  unfolding leave_frames
  leave_frames-Kept uuid (err e) = search steps
  leave_frames-Kept uuid (ok user) = search (steps, leave_frame-Kept)

  clear_frame_chat-Kept : (uuid : Bytes) → Kept x (clear_frame_chat x uuid)
  unfolding clear_frame_chat
  clear_frame_chat-Kept uuid = search (steps, leave_frames-Kept)

  pub ack_msg-Kept : (c : ℕ) (ts : ℤ) (channel_id : Bytes) → Kept x (ack_msg x c ts channel_id)
  unfolding ack_msg
  ack_msg-Kept c ts channel_id = search steps

  module _ (m : MapLaws x.registry) where
    pub sign_off-Kept : (c : ℕ) (cl : Client) → Kept x (sign_off x c cl)
    unfolding sign_off
    sign_off-Kept c cl = search (steps, clear_frame_chat-Kept, remove_client-Kept x m)

    pub close-Kept : (c : ℕ) → Kept x (close x c)
    unfolding close
    close-Kept c = search (steps, sign_off-Kept)

    load_user_info-Kept : (c : ℕ) → Kept x (load_user_info x c)
    unfolding load_user_info
    load_user_info-Kept c = search steps

    -- what runs after an action, where both leave a sound state
    after-Sound :
        {A B : Type 0} (o : Outcome A) (n : Run x B) (v : World x)
        → Sound x v
        → Sound x (n v).1
        → Sound x (continue o (λ a. n) v).1
    after-Sound (done a) n v h k = k
    after-Sound panic n v h k = h

    update_mapping_table-Sound :
        (c : ℕ) (w : World x)
        → same (w.clients c).uuid [] ≡ false
        → Sound x w
        → Sound x (update_mapping_table x c w).1
    unfolding update_mapping_table get_client
    update_mapping_table-Sound c w e h =
        let uuid = (w.clients c).uuid in
        let (o, v) = remove_client x uuid c w in
        let k = (remove_client-Kept x m uuid c).sound w h in
        after-Sound o (add_client x uuid c) v k (add_client-Sound x m uuid c v e k)

    load_user_info_uuid :
        (c : ℕ) (w : World x) → ((load_user_info x c w).1.clients c).uuid ≡ (w.clients c).uuid
    unfolding load_user_info get_client query on_client
    load_user_info_uuid c w = ground arith

    started-Sound :
        (c : ℕ) (w : World x)
        → Sound x w
        → Sound x (on_client x c (λ cl. record cl { state = init_done }) w).1
    unfolding on_client
    started-Sound c w h = record {
      allocated = h.allocated;
      distinct = h.distinct;
      unnamed = h.unnamed;
      named =
          on_client-named x c (λ cl. record cl { state = init_done }) (λ cl. refl) w.clients
            w.spawned h.named;
    }

    -- the set-up of a client that has a name
    set_up-Sound :
        (s : ClientState) (c : ℕ) (w : World x)
        → same (w.clients c).uuid [] ≡ false
        → Sound x w
        → Sound x (set_up x s c w).1
    unfolding set_up
    set_up-Sound create c w e h =
        let (o, v) = load_user_info x c w in
        let k = (load_user_info-Kept c).sound w h in
        let (p, u) = update_mapping_table x c v in
        let n =
          update_mapping_table-Sound c v (ap (λ t. same t []) (load_user_info_uuid c w) ∙ e) k in
        let last = on_client x c (λ cl. record cl { state = init_done }) in
        after-Sound o (update_mapping_table x c >> last) v k
          (after-Sound p last u n (started-Sound c u n))
    set_up-Sound init_done c w e h = h
    set_up-Sound dead c w e h = h

    pub init_chat_env-Sound :
        (c : ℕ) (w : World x)
        → same (w.clients c).uuid [] ≡ false
        → Sound x w
        → Sound x (init_chat_env x c w).1
    unfolding init_chat_env get_client
    init_chat_env-Sound c w e h = set_up-Sound (w.clients c).state c w e h

    after-Grew :
        {A B : Type 0} (o : Outcome A) (n : Run x B) (u v : World x)
        → Grew x u v
        → Grew x u (n v).1
        → Grew x u (continue o (λ a. n) v).1
    after-Grew (done a) n u v g h = h
    after-Grew panic n u v g h = g

    -- a client that was new is not one that was dead
    started-Grew :
        (c : ℕ) (w u : World x)
        → (w.clients c).state ≡ create
        → Grew x w u
        → Grew x w (on_client x c (λ cl. record cl { state = init_done }) u).1
    unfolding on_client
    started-Grew c w u e g = record {
      queued = g.queued;
      passed = g.passed;
      wrote = g.wrote;
      drawn = g.drawn;
      closed = λ d p. ground (arith, g.closed d p);
      dead = λ d p. elim (Bool-cases (d == c)) [
        | inl q ↦ absurd (ground (arith, e, p, ap (λ n. (w.clients n).state) ((==_iff d c).0 q)))
        | inr q ↦ rw q (g.dead d p)
      ];
    }

    update_mapping_table-Grew : (c : ℕ) (w : World x) → Grew x w (update_mapping_table x c w).1
    unfolding update_mapping_table get_client add_client
    update_mapping_table-Grew c w =
        let uuid = (w.clients c).uuid in
        let (o, v) = remove_client x uuid c w in
        let g = (remove_client-Kept x m uuid c).grew w in after-Grew o (add_client x uuid c) w v g g

    set_up-Grew :
        (s : ClientState) (c : ℕ) (w : World x)
        → (w.clients c).state ≡ s
        → Grew x w (set_up x s c w).1
    unfolding set_up
    set_up-Grew create c w e =
        let (o, v) = load_user_info x c w in
        let g = (load_user_info-Kept c).grew w in
        let (p, u) = update_mapping_table x c v in
        let n = Grew-trans x w v u g (update_mapping_table-Grew c v) in
        let last = on_client x c (λ cl. record cl { state = init_done }) in
        after-Grew o (update_mapping_table x c >> last) w v g
          (after-Grew p last w u n (started-Grew c w u e n))
    set_up-Grew init_done c w e = Grew-refl x w
    set_up-Grew dead c w e = Grew-refl x w

    pub init_chat_env-Grew : (c : ℕ) (w : World x) → Grew x w (init_chat_env x c w).1
    unfolding init_chat_env get_client
    init_chat_env-Grew c w = set_up-Grew (w.clients c).state c w refl
