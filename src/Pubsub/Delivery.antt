-- ===== src/Pubsub/Delivery.antt =====
-- Who receives a message that is pushed on this server.
use pushd.Prelude.{
  ℕ, zero, suc, ◌≡◌, inl, inr, refl, Option, none, some, List, [], ◌∷◌, ◌++◌, append-nil,
  append_assoc, arith, if◌then◌else◌, Option-cases, replicate, done,
}
use pushd.Text.{Bytes, same}
use pushd.External.{External, Result, ok, err}
use pushd.External.Laws.{LruLaws}
use pushd.World.{World, Client, Sent, for_each}
use pushd.Members.{
  load_user_ids_by_channel, load_user_ids_from_database, get_user_ids_by_channel, items,
  add_all_user_ids,
}
use pushd.Pubsub.{push_one, push_to_native_client}

module _ (x : External) where
  -- the client of one user, unless it is the sender's
  abbrev pub unless_owner : (ℕ → Client) → Bytes → Option ℕ → List ℕ
  unless_owner clients owner_id none = []
  unless_owner clients owner_id (some c) = if same (clients c).uuid owner_id then [] else c ∷ []

  -- the clients of the users of a list that are online, in its order, without the sender's
  unfoldable pub recipients : (ℕ → Client) → x.registry.State → Bytes → List Bytes → List ℕ
  recipients clients online owner_id [] = []
  recipients clients online owner_id (u ∷ us) =
      unless_owner clients owner_id (x.registry.get online u)
      ++ recipients clients online owner_id us

  -- one copy of a message for each client of a list
  unfoldable pub copies : Bytes → Bytes → List ℕ → List Sent
  copies op msg [] = []
  copies op msg (c ∷ cs) = record { client = c; op = op; msg = msg } ∷ copies op msg cs

  copies-append :
      (op msg : Bytes) (cs ds : List ℕ)
      → copies op msg (cs ++ ds) ≡ copies op msg cs ++ copies op msg ds
  unfolding copies
  copies-append op msg [] ds = refl
  copies-append op msg (c ∷ cs) ds = cc (copies-append op msg cs ds)

  push_one_sent :
      (op owner_id msg u : Bytes) (w : World x)
      → push_one x op owner_id msg u w ≡ (
        done tt,
        record w {
          sent =
              w.sent ++ copies op msg (unless_owner w.clients owner_id (x.registry.get w.online u));
        },
      )
  unfolding push_one copies
  push_one_sent op owner_id msg u w = ground (arith, append-nil w.sent)

  -- a world with more messages sent
  abbrev pub with_sent : World x → List Sent → World x
  with_sent w s = record w { sent = w.sent ++ s }

  pub for_each_push :
      (op owner_id msg : Bytes) (us : List Bytes) (w : World x)
      → for_each (push_one x op owner_id msg) us w
        ≡ (done tt, with_sent w (copies op msg (recipients w.clients w.online owner_id us)))
  unfolding for_each recipients copies
  for_each_push op owner_id msg [] w = rw append-nil refl
  for_each_push op owner_id msg (u ∷ us) w =
      let mine = unless_owner w.clients owner_id (x.registry.get w.online u) in
      let v = with_sent w (copies op msg mine) in
      rw (
        push_one_sent op owner_id msg u w,
        for_each_push op owner_id msg us v,
        append_assoc,
        copies-append op msg mine (recipients w.clients w.online owner_id us),
      )

  -- an empty text is the name of no user
  abbrev pub NamesUsers : World x → Type 0
  NamesUsers w = x.registry.get w.online [] ≡ none

  recipients_of_blanks :
      (w : World x) (owner_id : Bytes) (n : ℕ) (us : List Bytes)
      → NamesUsers w
      → recipients w.clients w.online owner_id (replicate n [] ++ us)
        ≡ recipients w.clients w.online owner_id us
  unfolding recipients
  recipients_of_blanks w owner_id zero us h = refl
  recipients_of_blanks w owner_id (suc n) us h = rw h (recipients_of_blanks w owner_id n us h)

  -- what the database says of a room's members; an error counts as nobody
  abbrev pub stored_members : Result (Option (List Bytes)) → List Bytes
  stored_members (ok (some uuids)) = uuids
  stored_members (ok none) = []
  stored_members (err _) = []

  -- the members of a room as this server sees them: cached, or else those of the database
  unfoldable pub members_of : Bytes → World x → List Bytes
  members_of channel w = elim (x.rooms.peek w.rooms channel) [
    | some r ↦ x.id_sets.elements (w.collections r)
    | none ↦ stored_members (x.mongo.find_uuids channel w.db)
  ]

  -- the list that the loop of `pushToNativeClient` runs over
  unfoldable pub loaded : Bytes → World x → List Bytes
  loaded channel w = elim (x.rooms.peek w.rooms channel) [
    | some r ↦ items x (w.collections r)
    | none ↦ stored_members (x.mongo.find_uuids channel w.db)
  ]

  pub recipients-loaded :
      (channel owner_id : Bytes) (w : World x)
      → NamesUsers w
      → recipients w.clients w.online owner_id (loaded channel w)
        ≡ recipients w.clients w.online owner_id (members_of channel w)
  unfolding loaded members_of items
  recipients-loaded channel owner_id w h = elim (Option-cases (x.rooms.peek w.rooms channel)) [
    | inl e ↦ rw (e, loaded, members_of) refl
    | inr (r, e) ↦ rw (e, loaded, members_of) (recipients_of_blanks w owner_id _ _ h)
  ]

  module _ (l : LruLaws x.rooms) (channel : Bytes) (w : World x) where
    pub load_ids : (load_user_ids_by_channel x channel w).0 ≡ done (loaded channel w)
    unfolding load_user_ids_by_channel get_user_ids_by_channel load_user_ids_from_database loaded
        add_all_user_ids
    load_ids = ground (arith, l.get_value channel w.rooms)

    pub load_clients : (load_user_ids_by_channel x channel w).1.clients ≡ w.clients
    unfolding load_user_ids_by_channel get_user_ids_by_channel load_user_ids_from_database
        add_all_user_ids
    load_clients = ground (arith, l.get_value channel w.rooms)

    pub load_online : (load_user_ids_by_channel x channel w).1.online ≡ w.online
    unfolding load_user_ids_by_channel get_user_ids_by_channel load_user_ids_from_database
        add_all_user_ids
    load_online = ground (arith, l.get_value channel w.rooms)

    pub load_sent : (load_user_ids_by_channel x channel w).1.sent ≡ w.sent
    unfolding load_user_ids_by_channel get_user_ids_by_channel load_user_ids_from_database
        add_all_user_ids
    load_sent = ground (arith, l.get_value channel w.rooms)

    -- A message that is pushed to a room goes once to each member who is online, in the members'
    -- order, but not to the connection of its sender, and to nobody else; it is sent as it is, under
    -- the operation that was asked for. The members are the cached ones, or else those of the
    -- database. No client may be registered under the empty text: the list of cached members has as
    -- many empty texts before the members.
    pub push_to_native_client-recipients :
        (op owner_id msg : Bytes)
        → NamesUsers w
        → (push_to_native_client x op channel owner_id msg w).1.sent
          ≡ w.sent ++ copies op msg (recipients w.clients w.online owner_id (members_of channel w))
    unfolding push_to_native_client
    push_to_native_client-recipients op owner_id msg names =
        let v = (load_user_ids_by_channel x channel w).1 in
        rw (
          load_ids,
          for_each_push op owner_id msg (loaded channel w) v,
          load_sent,
          load_clients,
          load_online,
          recipients-loaded channel owner_id w names,
        )
