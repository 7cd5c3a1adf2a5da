-- ===== src/S2s/Relay.antt =====
-- What a server does with the frames that another server forwards to it.
use pushd.Prelude.{
  ℕ, ◌^◌, ◌<◌, ◌≡◌, refl, Bool, true, false, ◌&&◌, if◌then◌else◌, List, Option, some, panic, none,
  ap, inl, inr, Option-cases, [], ◌∷◌, ◌++◌, append-nil, arith, length, length-append, done,
}
use pushd.Text.{Bytes, same, words, space, Lacks, split_n}
use pushd.Text.Split.{cut-append}
use pushd.Wire.{frame}
use pushd.Wire.Frames.{Framed, new_server_cmdline-frame}
use pushd.Names.{output_rciv, cmd_vido, s2s_push_string_message}
use pushd.Config.{get_s2s_addr}
use pushd.External.{External, Result, ok, err}
use pushd.External.Laws.{LruLaws}
use pushd.World.{World, pure, for_each, query, ◌>>=◌}
use pushd.Registry.{get_online}
use pushd.Pubsub.{publish_str_msg}
use pushd.Pubsub.Delivery.{
  NamesUsers, copies, recipients, members_of, push_to_native_client-recipients,
}
use pushd.Pubsub.Effects.{push_to_native_client_rest}
use pushd.Router.{lookup_peers_by_channel, add_peer_to_channel}
use pushd.S2s.{
  process_cmd, push_string, on_read_peer, check_and_set_local_channel, subscribe_online,
  pubsub_channel_exists,
}

module _ (x : External) where
  -- Registering the peer of a channel touches the router alone.
  record RouterOnly (v w : World x) : Type 0 where
    db : v.db ≡ w.db
    clients : v.clients ≡ w.clients
    online : v.online ≡ w.online
    rooms : v.rooms ≡ w.rooms
    collections : v.collections ≡ w.collections
    forwarded : v.forwarded ≡ w.forwarded
    queue : v.queue ≡ w.queue
    sent : v.sent ≡ w.sent

  abbrev is_none : Option ℕ → Bool
  is_none none = true
  is_none (some n) = false

  -- whether the document of a channel has no users
  abbrev no_users : Result (Option (List Bytes)) → Bool
  no_users (err e) = false
  no_users (ok (some us)) = false
  no_users (ok none) = true

  -- whether the peers of a channel are not known yet, and its document has no users
  abbrev pub unlisted : Bytes → World x → Bool
  unlisted channel w =
      is_none (x.routes.get channel w.routes).0 && no_users (x.mongo.find_uuids channel w.db)

  for_each_of_online :
      (us : List Bytes) (w : World x)
      → for_each (λ u. do t ← get_online x u; elim t [ none ↦ pure tt | some c ↦ pure tt ]) us w
        ≡ (done tt, w)
  unfolding for_each get_online
  for_each_of_online [] w = refl
  for_each_of_online (u ∷ us) w = ground (arith, for_each_of_online us w)

  subscribe_online_lem :
      (channel : Bytes) (w : World x)
      → subscribe_online x channel w
        ≡ (if no_users (x.mongo.find_uuids channel w.db) then panic else done tt, w)
  unfolding subscribe_online query
  subscribe_online_lem channel w = subscribed (x.mongo.find_uuids channel w.db) refl
    where
      subscribed :
          (r : Result (Option (List Bytes)))
          → x.mongo.find_uuids channel w.db ≡ r
          → subscribe_online x channel w ≡ (if no_users r then panic else done tt, w)
      subscribed (err e) h = rw h refl
      subscribed (ok none) h = rw h refl
      subscribed (ok (some us)) h = rw h (for_each_of_online us w)

  add_peer-RouterOnly :
      (addr channel : Bytes) (w : World x)
      → ((add_peer_to_channel x addr channel w).0 ≡ done tt)
        × RouterOnly (add_peer_to_channel x addr channel w).1 w
  unfolding add_peer_to_channel lookup_peers_by_channel
  add_peer-RouterOnly addr channel w = ground arith

  check-RouterOnly :
      (channel addr : Bytes) (w : World x)
      → ((check_and_set_local_channel x channel addr w).0
          ≡ (if unlisted channel w then panic else done tt))
        × RouterOnly (check_and_set_local_channel x channel addr w).1 w
  unfolding check_and_set_local_channel pubsub_channel_exists lookup_peers_by_channel
  check-RouterOnly channel addr w =
      let looked = record w { routes = (x.routes.get channel w.routes).1 } in
      let a = add_peer-RouterOnly (get_s2s_addr addr) channel looked in
      let v = (add_peer_to_channel x (get_s2s_addr addr) channel looked).1 in
      elim (Option-cases (x.routes.get channel w.routes).0) [
        | inr (r, e) ↦ rw e (
          refl,
          record {
            db = refl;
            clients = refl;
            online = refl;
            rooms = refl;
            collections = refl;
            forwarded = refl;
            queue = refl;
            sent = refl;
          },
        )
        | inl e ↦
            rw (e, a.0, subscribe_online_lem channel v)
              (
                ap (λ d. if no_users (x.mongo.find_uuids channel d) then panic else done tt) a.1.db,
                record {
                  db = a.1.db;
                  clients = a.1.clients;
                  online = a.1.online;
                  rooms = a.1.rooms;
                  collections = a.1.collections;
                  forwarded = a.1.forwarded;
                  queue = a.1.queue;
                  sent = a.1.sent;
                },
              )
      ]

  split_words :
      (channel msg : Bytes)
      → Lacks space channel
      → split_n (channel ++ (space ∷ msg)) 2 ≡ channel ∷ msg ∷ []
  unfolding split_n
  split_words channel msg h = cut-append space 0 channel msg h

  members-RouterOnly :
      (channel : Bytes) (v w : World x)
      → RouterOnly v w
      → members_of x channel v ≡ members_of x channel w
  unfolding members_of
  members-RouterOnly channel v w r = rw (r.rooms, r.collections, r.db) refl

  pub ne_nil : (channel msg : Bytes) → same (channel ++ (space ∷ msg)) [] ≡ false
  unfolding same
  ne_nil [] msg = refl
  ne_nil (c ∷ channel) msg = refl

  process_string :
      (channel msg addr : Bytes) (w : World x)
      → Lacks space channel
      → process_cmd x
          (record { cmd = s2s_push_string_message; params = channel ++ (space ∷ msg) })
          addr
          w
        ≡ push_string x (channel ∷ msg ∷ []) addr w
  unfolding process_cmd same
  process_string channel msg addr w h = rw (ne_nil channel msg, split_words channel msg h) refl

  -- the parameters of a forwarded text fit a frame
  abbrev pub StringFrame : Bytes → Bytes → Type 0
  StringFrame channel msg = length (channel ++ (space ∷ msg)) < 2 ^ 31

  pub params_pos : (channel msg : Bytes) → 0 < length (channel ++ (space ∷ msg))
  params_pos channel msg = omega (arith, length-append channel (space ∷ msg))

  read_string :
      (channel msg addr : Bytes) (w : World x)
      → Lacks space channel
      → StringFrame channel msg
      → on_read_peer x (frame s2s_push_string_message (words (channel ∷ msg ∷ []))) addr w
        ≡ push_string x (channel ∷ msg ∷ []) addr w
  unfolding on_read_peer
  read_string channel msg addr w h f =
      let framed : Framed s2s_push_string_message (channel ++ (space ∷ msg)) = record {
        named = omega arith;
        short_name = omega arith;
        short_body = f;
      } in
      rw
        (new_server_cmdline-frame s2s_push_string_message (channel ++ (space ∷ msg)) framed
          (params_pos channel msg))
        (process_string channel msg addr w h)

  -- A text that a server forwards for a channel whose name holds no space is read back by its peer,
  -- which sends the same bytes to each of its own online members of the channel, once, forwards
  -- nothing on and stores nothing. But where the peer does not know yet which servers follow the
  -- channel, and the document of the channel has no users, it panics and sends nothing. Name and
  -- text must fit a frame, of less than 2 ^ 31 bytes, and no client may be registered under the
  -- empty text.
  pub on_read_peer-string :
      (l : LruLaws x.rooms) (channel msg addr : Bytes) (w : World x)
      → Lacks space channel
      → StringFrame channel msg
      → NamesUsers x w
      → (let r =
            on_read_peer x (frame s2s_push_string_message (words (channel ∷ msg ∷ []))) addr w in
          (r.0 ≡ (if unlisted channel w then panic else done none))
          × (r.1.sent
              ≡ w.sent
                ++ (if unlisted channel w
                    then []
                    else copies x output_rciv msg
                        (recipients x w.clients w.online [] (members_of x channel w))))
          × (r.1.forwarded ≡ w.forwarded)
          × (r.1.queue ≡ w.queue))
  unfolding push_string publish_str_msg
  on_read_peer-string l channel msg addr w h f names =
      let c = check-RouterOnly channel addr w in
      let v = (check_and_set_local_channel x channel addr w).1 in
      let names' : NamesUsers x v = rw c.1.online names in
      let s = push_to_native_client-recipients x l channel v output_rciv [] msg names' in
      let r = push_to_native_client_rest x l channel v output_rciv [] msg in
      rw (read_string channel msg addr w h f)
        (ground (arith, c, s, r, members-RouterOnly channel v w c.1, append-nil w.sent))

  -- No case of the peer's switch has the name of the clients' command for binary messages.
  pub on_read_peer-vido :
      (body addr : Bytes) (w : World x)
      → 0 < length body
      → length body < 2 ^ 31
      → on_read_peer x (frame cmd_vido body) addr w ≡ (done none, w)
  unfolding on_read_peer process_cmd same
  on_read_peer-vido [] addr w p f = absurd (omega arith)
  on_read_peer-vido (b ∷ body) addr w p f =
      let framed : Framed cmd_vido (b ∷ body) = record {
        named = omega arith;
        short_name = omega arith;
        short_body = f;
      } in
      rw (new_server_cmdline-frame cmd_vido (b ∷ body) framed p) refl
