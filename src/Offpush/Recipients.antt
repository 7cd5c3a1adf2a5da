-- ===== src/Offpush/Recipients.antt =====
-- Who is notified by `CheckAndPush`.
use pushd.Prelude.{
  ℕ, zero, suc, ◌≡◌, inl, inr, refl, Option, none, some, List, [], ◌∷◌, ◌++◌, arith, if◌then◌else◌,
  Option-cases, replicate, done,
}
use pushd.Text.{Bytes, same}
use pushd.External.{External}
use pushd.External.Laws.{LruLaws}
use pushd.World.{World, Client}
use pushd.Members.{load_user_ids_by_channel, items}
use pushd.Pubsub.Delivery.{NamesUsers, members_of, loaded, load_ids, load_clients, load_online}
use pushd.Offpush.{
  Push, pushes, send_push, send_room, send_known, notice, SenderPool, check_and_push, push_ids_of,
  push_id_of, task_for,
}

module _ (x : External) where
  -- the push id of one user who is connected, wants to be notified and is not the sender
  abbrev wanted : (ℕ → Client) → Bytes → Bytes → Option ℕ → List Bytes
  wanted clients owner_id u none = []
  wanted clients owner_id u (some c) =
      if same u owner_id
      then []
      else if (clients c).is_allow_force_notify
      then (clients c).push_id ∷ []
      else []

  -- the push ids of those users of a list
  unfoldable pub notified : (ℕ → Client) → x.registry.State → Bytes → List Bytes → List Bytes
  notified clients online owner_id [] = []
  notified clients online owner_id (u ∷ us) =
      wanted clients owner_id u (x.registry.get online u) ++ notified clients online owner_id us

  push_id_of_lem :
      (owner_id u : Bytes) (w : World x)
      → push_id_of x owner_id u w
        ≡ (done (wanted w.clients owner_id u (x.registry.get w.online u)), w)
  unfolding push_id_of
  push_id_of_lem owner_id u w = ground arith

  push_ids_of_lem :
      (owner_id : Bytes) (us : List Bytes) (w : World x)
      → push_ids_of x owner_id us w ≡ (done (notified w.clients w.online owner_id us), w)
  unfolding push_ids_of notified
  push_ids_of_lem owner_id [] w = refl
  push_ids_of_lem owner_id (u ∷ us) w =
      rw (push_id_of_lem owner_id u w, push_ids_of_lem owner_id us w) refl

  notified_of_blanks :
      (w : World x) (owner_id : Bytes) (n : ℕ) (us : List Bytes)
      → NamesUsers x w
      → notified w.clients w.online owner_id (replicate n [] ++ us)
        ≡ notified w.clients w.online owner_id us
  unfolding notified
  notified_of_blanks w owner_id zero us h = refl
  notified_of_blanks w owner_id (suc n) us h = rw h (notified_of_blanks w owner_id n us h)

  notified-loaded :
      (channel owner_id : Bytes) (w : World x)
      → NamesUsers x w
      → notified w.clients w.online owner_id (loaded x channel w)
        ≡ notified w.clients w.online owner_id (members_of x channel w)
  unfolding loaded members_of items
  notified-loaded channel owner_id w h = elim (Option-cases (x.rooms.peek w.rooms channel)) [
    | inl e ↦ rw (e, loaded, members_of) refl
    | inr (r, e) ↦ rw (e, loaded, members_of) (notified_of_blanks w owner_id _ _ h)
  ]

  -- A call of `CheckAndPush` never panics once the pool is there, and starts at most one goroutine:
  -- it is to notify the members of the room who are connected and asked to be notified, without the
  -- sender, under the push ids of their clients: one for each time that a user stands among the
  -- members, in their order; with nobody to notify, none is started. No client may be registered
  -- under the empty text.
  pub check_and_push-notified :
      (l : LruLaws x.rooms) (pool : SenderPool) (channel message owner_id : Bytes) (w : World x)
      → NamesUsers x w
      → (check_and_push x (some pool) channel message owner_id w).0
        ≡ done (
            task_for x channel message owner_id
              (notified w.clients w.online owner_id (members_of x channel w)))
  unfolding check_and_push
  check_and_push-notified l pool channel message owner_id w names =
      let v = (load_user_ids_by_channel x channel w).1 in
      rw (
        load_ids x l channel w,
        push_ids_of_lem owner_id (loaded x channel w) v,
        load_clients x l channel w,
        load_online x l channel w,
        notified-loaded channel owner_id w names,
      )

  -- The service is asked at most for the push ids that were given, under the message's own text, or
  -- behind the name of its sender in a group.
  send_push-aliases :
      (ids : List Bytes) (message owner_id channel_id : Bytes) (d : x.mongo.Db) (p : Push)
      → send_push x ids message owner_id channel_id d ≡ done (pushes p)
      → p.aliases ≡ ids
  unfolding send_push send_room send_known notice
  send_push-aliases [] message owner_id channel_id d p h = absurd (ground (arith, h))
  send_push-aliases (id ∷ ids) message owner_id channel_id d p h = ground (arith, h)
