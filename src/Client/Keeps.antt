-- ===== src/Client/Keeps.antt =====
-- Publishing and leaving calls do not touch the clients or who is online.
use pushd.Prelude.{
  ◌≡◌, refl, ◌∙◌, Bool, true, false, Option, none, some, List, [], ◌∷◌, arith, if◌then◌else◌,
  Outcome, done, panic,
}
use pushd.Text.{Bytes}
use pushd.External.{
  External, Unstable, User, DbError, Write, Result, ok, err, pull_frames, remove_idle,
}
use pushd.World.{crash, or_crash, continue, write, query, World, pure, ◌>>=◌, for_each, Run}
use pushd.Members.{
  load_user_ids_by_channel, load_user_ids_from_database, get_user_ids_by_channel, add_all_user_ids,
}
use pushd.Pubsub.{push_one, push_to_native_client, publish_str_msg, forward_to_all_other_server}
use pushd.Client.{
  fetch_uuids_about_channel, dismiss_frame, leave_frame, clear_frame_chat, pull_active,
  dismiss_notice, after_remove, after_pull, leave_frames,
}

module _ (x : External) where
  -- An action that leaves the clients and the map of users alone.
  pub record Keeps {A : Type 0} (m : Run x A) : Type 0 where
    pub clients : (w : World x) → (m w).1.clients ≡ w.clients
    pub online : (w : World x) → (m w).1.online ≡ w.online

  for_each-Keeps :
      {A : Type 0} (body : A → Run x (Unit {0}))
      → ((a : A) → Keeps (body a))
      → (as' : List A) → Keeps (for_each body as')
  unfolding for_each
  for_each-Keeps body k [] = record { clients = λ w. refl; online = λ w. refl }
  for_each-Keeps body k (a ∷ as') =
      let rest = for_each-Keeps body k as' in
      record {
        clients = λ w. ground (arith, (k a).clients w, rest.clients (body a w).1);
        online = λ w. ground (arith, (k a).online w, rest.online (body a w).1);
      }

  load-Keeps : (channel : Bytes) → Keeps (load_user_ids_by_channel x channel)
  unfolding load_user_ids_by_channel get_user_ids_by_channel load_user_ids_from_database
      add_all_user_ids
  load-Keeps channel = record { clients = λ w. ground arith; online = λ w. ground arith }

  push_one-Keeps : (op owner_id msg u : Bytes) → Keeps (push_one x op owner_id msg u)
  unfolding push_one
  push_one-Keeps op owner_id msg u = record {
    clients = λ w. ground arith;
    online = λ w. ground arith;
  }

  continue-Keeps :
      {A B : Type 0} (o : Outcome A) (f : A → Run x B) (v : World x)
      → ((a : A) → Keeps (f a))
      → ((continue o f v).1.clients ≡ v.clients) × ((continue o f v).1.online ≡ v.online)
  continue-Keeps (done a) f v g = ((g a).clients v, (g a).online v)
  continue-Keeps panic f v g = (refl, refl)

  pub >>=-Keeps :
      {A B : Type 0} (m : Run x A) (f : A → Run x B)
      → Keeps m
      → ((a : A) → Keeps (f a))
      → Keeps (m >>= f)
  >>=-Keeps m f k g = record {
    clients = λ w. (continue-Keeps (m w).0 f (m w).1 g).0 ∙ k.clients w;
    online = λ w. (continue-Keeps (m w).0 f (m w).1 g).1 ∙ k.online w;
  }

  pure-Keeps : {A : Type 0} (a : A) → Keeps (pure a)
  pure-Keeps a = record { clients = λ w. refl; online = λ w. refl }

  crash-Keeps : {A : Type 0} → Keeps (crash {A = A})
  crash-Keeps = record { clients = λ w. refl; online = λ w. refl }

  forward-Keeps : (cmd message : Bytes) → Keeps (forward_to_all_other_server x cmd message)
  unfolding forward_to_all_other_server
  forward-Keeps cmd message = record { clients = λ w. ground arith; online = λ w. ground arith }

  push-Keeps :
      (op channel owner_id msg : Bytes) → Keeps (push_to_native_client x op channel owner_id msg)
  unfolding push_to_native_client
  push-Keeps op channel owner_id msg =
      >>=-Keeps (load_user_ids_by_channel x channel) (for_each (push_one x op owner_id msg))
        (load-Keeps channel)
        (for_each-Keeps (push_one x op owner_id msg) (push_one-Keeps op owner_id msg))

  if-Keeps : (b : Bool) (m : Run x (Unit {0})) → Keeps m → Keeps (if b then m else pure tt)
  if-Keeps true m k = k
  if-Keeps false m k = pure-Keeps tt

  pub publish_str_msg-Keeps :
      (channel msg owner_id : Bytes) (fwd : Bool)
      → Keeps (publish_str_msg x channel msg owner_id fwd)
  unfolding publish_str_msg
  publish_str_msg-Keeps channel msg owner_id fwd =
      >>=-Keeps _ _ (push-Keeps _ channel owner_id msg) λ u. if-Keeps fwd _ (forward-Keeps _ _)

  write-Keeps : (q : Write) → Keeps (write x q)
  unfolding write
  write-Keeps q = record { clients = λ w. refl; online = λ w. refl }

  query-Keeps : {A : Type 0} (f : x.mongo.Db → A) → Keeps (query x f)
  unfolding query
  query-Keeps f = record { clients = λ w. refl; online = λ w. refl }

  pull_active-Keeps : (object_id uuid : Bytes) → Keeps (pull_active x object_id uuid)
  unfolding pull_active
  pull_active-Keeps object_id uuid = record { clients = λ w. refl; online = λ w. refl }

  or_crash-Keeps : {A : Type 0} (o : Option A) → Keeps (or_crash o)
  or_crash-Keeps none = crash-Keeps
  or_crash-Keeps (some a) = pure-Keeps a

  fetch-Keeps : (channel_id : Bytes) → Keeps (fetch_uuids_about_channel x channel_id)
  unfolding fetch_uuids_about_channel
  fetch-Keeps channel_id = record { clients = λ w. ground arith; online = λ w. ground arith }

  dismiss_frame-Keeps :
      (uuid : Bytes) (info : Unstable) (object_id : Bytes)
      → Keeps (dismiss_frame x uuid info object_id)
  unfolding dismiss_frame
  dismiss_frame-Keeps uuid info object_id = >>=-Keeps _ _ (fetch-Keeps info.channel_id) λ uuids.
      >>=-Keeps _ _ (write-Keeps (pull_frames uuids object_id))
        λ e. publish_str_msg-Keeps info.channel_id (dismiss_notice x uuid object_id) uuid true

  after_remove-Keeps :
      (uuid : Bytes) (info : Unstable) (object_id : Bytes) (e : Option DbError)
      → Keeps (after_remove x uuid info object_id e)
  unfolding after_remove
  after_remove-Keeps uuid info object_id (some e) = pure-Keeps tt
  after_remove-Keeps uuid info object_id none = dismiss_frame-Keeps uuid info object_id

  after_pull-Keeps :
      (uuid object_id : Bytes) (r : Result Unstable) → Keeps (after_pull x uuid object_id r)
  unfolding after_pull
  after_pull-Keeps uuid object_id (err e) = pure-Keeps tt
  after_pull-Keeps uuid object_id (ok info) =
      >>=-Keeps _ _ (write-Keeps (remove_idle object_id)) (after_remove-Keeps uuid info object_id)

  leave_frame-Keeps : (uuid object_id : Bytes) → Keeps (leave_frame x uuid object_id)
  unfolding leave_frame
  leave_frame-Keeps uuid object_id =
      >>=-Keeps _ _ (pull_active-Keeps object_id uuid) (after_pull-Keeps uuid object_id)

  leave_frames-Keeps : (uuid : Bytes) (r : Result User) → Keeps (leave_frames x uuid r)
  unfolding leave_frames
  leave_frames-Keeps uuid (err e) = pure-Keeps tt
  leave_frames-Keeps uuid (ok user) =
      >>=-Keeps _ _ (or_crash-Keeps user.frame_chat)
        (for_each-Keeps (leave_frame x uuid) (leave_frame-Keeps uuid))

  -- Leaving every call of a user keeps the clients and the map of users.
  pub clear_frame_chat-Keeps : (uuid : Bytes) → Keeps (clear_frame_chat x uuid)
  unfolding clear_frame_chat
  clear_frame_chat-Keeps uuid =
      >>=-Keeps _ _ (query-Keeps (x.mongo.find_user uuid)) (leave_frames-Keeps uuid)
