-- ===== src/Polling/Silence.antt =====
-- What a client that polls can receive or publish.
use pushd.Prelude.{
  ℕ, ◌+◌, ◌==◌, ◌++◌, zero, suc, ◌≡◌, refl, ap, ◌∙◌, false, some, inl, inr, Option-cases,
  Bool-cases, if◌then◌else◌, List, [], ◌∷◌, map, arith, ==_refl, ℤ, pos, negsuc, done,
}
use pushd.Text.{Bytes, codes, same}
use pushd.Text.Number.{parse_int64, int64_limit, parse_int_of_empty}
use pushd.External.{External}
use pushd.External.Laws.{elem, LruLaws}
use pushd.World.{World, Client, Sent, set_client, update}
use pushd.Names.{output_rciv}
use pushd.Pubsub.{publish, client_msg}
use pushd.Pubsub.Delivery.{NamesUsers, copies, recipients, members_of}
use pushd.Pubsub.Effects.{publish_effects}
use pushd.Client.{close, new_client, is_client}
use pushd.Client.Lifecycle.{close-unidentified, close_unidentified_sent}
use pushd.Polling.{
  Cache, var, pub_route, serve_publish, serve_history, serve_subscribe, hijacked, wrote, poll_head,
  poll_at, open_poll, poll_rest, poll_loop, history, get_range,
}

-- a name that is none of the parts of the route
var_absent :
    (name : Bytes) (vars : List (Bytes × Bytes))
    → elem name (map (λ v. v.0) vars) ≡ false
    → var name vars ≡ []
unfolding var
var_absent name [] h = refl
var_absent name ((n, v) ∷ vs) h = ground (arith, var_absent name vs)

no_msgid : elem (codes "msgid") pub_route ≡ false
unfolding same
no_msgid = refl

-- how many messages were sent to a client
unfoldable pub sent_to : ℕ → List Sent → ℕ
sent_to c [] = 0
sent_to c (s ∷ ss) = if s.client == c then sent_to c ss + 1 else sent_to c ss

sent_to-append : (c : ℕ) (as' bs : List Sent) → sent_to c (as' ++ bs) ≡ sent_to c as' + sent_to c bs
unfolding sent_to
sent_to-append c [] bs = omega arith
sent_to-append c (a ∷ as') bs = ground (arith, sent_to-append c as' bs)

module _ (x : External) (cache : Cache) (w : World x) where
  -- Publishing over HTTP does nothing, whatever the channel and the message, when the parts of the
  -- path are named as in its route: none is the `msgid`, so that the number of the message cannot be
  -- parsed.
  pub serve_publish-pub_route :
      (vars : List (Bytes × Bytes))
      → map (λ v. v.0) vars ≡ pub_route
      → serve_publish x cache vars w ≡ (done [], w)
  unfolding serve_publish
  serve_publish-pub_route vars h =
      let gone : var (codes "msgid") vars ≡ [] =
        var_absent (codes "msgid") vars (ap (elem (codes "msgid")) h ∙ no_msgid) in
      rw (serve_publish, gone, parse_int_of_empty int64_limit) refl

  poll_loop-close : (c n : ℕ) (v : World x) → poll_loop x cache c n v ≡ close x c v
  unfolding poll_loop
  poll_loop-close c zero v = refl
  poll_loop-close c (suc n) v = poll_loop-close c n v

  poll_rest-online :
      (c reads : ℕ) (channel : Bytes)
      → ((poll_rest x cache c reads channel [] w).0 ≡ done (wrote poll_head))
        × ((poll_rest x cache c reads channel [] w).1.online ≡ w.online)
        × ((poll_rest x cache c reads channel [] w).1.db ≡ w.db)
        × ((poll_rest x cache c reads channel [] w).1.sent ≡ w.sent)
  unfolding poll_rest open_poll set_client is_client
  poll_rest-online c reads channel =
      let v : World x = record w { clients = update w.clients c new_client } in
      let end = close-unidentified x c v (rw ==_refl refl) in
      rw (poll_loop-close c reads v, end.0)
        (refl, end.1, end.2, close_unidentified_sent x c v (rw ==_refl refl))

  poll_at-wrote :
      (c reads : ℕ) (channel : Bytes) (t : ℤ)
      → let r = poll_at x cache c reads hijacked channel t w in
        (r.0 ≡ done (wrote poll_head))
        × (r.1.online ≡ w.online)
        × (r.1.db ≡ w.db)
        × (r.1.sent ≡ w.sent)
  unfolding poll_at history get_range
  poll_at-wrote c reads channel (pos zero) = poll_rest-online c reads channel
  poll_at-wrote c reads channel (pos (suc n)) = poll_rest-online c reads channel
  poll_at-wrote c reads channel (negsuc n) = poll_rest-online c reads channel

  -- nobody is registered with the client at an address
  abbrev pub Unregistered : ℕ → Type 0
  Unregistered c = (u : Bytes) (d : ℕ) → x.registry.get w.online u ≡ some d → (d == c) ≡ false

  sent_to-copies :
      (c : ℕ) (clients : ℕ → Client) (op msg owner_id : Bytes) (us : List Bytes)
      → Unregistered c
      → sent_to c (copies x op msg (recipients x clients w.online owner_id us)) ≡ 0
  unfolding sent_to copies recipients
  sent_to-copies c clients op msg owner_id [] h = refl
  sent_to-copies c clients op msg owner_id (u ∷ us) h =
      let rest = sent_to-copies c clients op msg owner_id us h in
      elim (Option-cases (x.registry.get w.online u)) [
        | inl e ↦ rw e rest
        | inr (d, e) ↦ rw e (elim (Bool-cases (same (clients d).uuid owner_id)) [
          | inl f ↦ rw f rest
          | inr f ↦ rw (f, copies, sent_to, h u d e) rest
        ])
      ]

  -- What is published while a client waits is not sent to it.
  publish-open_poll :
      (l : LruLaws x.rooms) (c : ℕ) (channel room msg user_id : Bytes) (msg_id : ℤ)
      → NamesUsers x w
      → Unregistered c
      → sent_to c (publish x room msg user_id msg_id false (open_poll x cache c channel w).1).1.sent
        ≡ sent_to c w.sent
  unfolding open_poll set_client
  publish-open_poll l c channel room msg user_id msg_id names h =
      let v : World x = record w { clients = update w.clients c new_client } in
      let text = client_msg x room user_id (x.clock w.reads) msg_id msg in
      let p = publish_effects x l room msg user_id msg_id v names in
      let q = sent_to-copies c v.clients output_rciv text user_id (members_of x room v) h in
      ap (sent_to c) p.1
      ∙ sent_to-append c w.sent (
          copies x output_rciv text (recipients x v.clients v.online user_id (members_of x room v)))
      ∙ omega (arith, q)

  -- A client that polls is never sent a message: with a time that can be parsed and a connection
  -- that was taken over, the head of an answer is written to it, whatever was published on its
  -- channel before, and nothing is sent until it is closed; what a client publishes on any channel
  -- while it waits, before its connection is read, is not sent to it either; and nobody comes online
  -- or goes offline by it, and the database is left as it is. No user may be registered with the
  -- client, which is new, and none under the empty text.
  pub serve_subscribe-silent :
      (l : LruLaws x.rooms) (c reads : ℕ) (vars : List (Bytes × Bytes)) (t : ℤ)
      → parse_int64 (var (codes "ts") vars) ≡ some t
      → NamesUsers x w
      → Unregistered c
      → (let r = serve_subscribe x cache c reads hijacked vars w in
          let waiting = (open_poll x cache c (var (codes "channel") vars) w).1 in
          (r.0 ≡ done (wrote poll_head))
          × (r.1.online ≡ w.online)
          × (r.1.db ≡ w.db)
          × (r.1.sent ≡ w.sent)
          × ((room msg user_id : Bytes) (msg_id : ℤ)
              → sent_to c (publish x room msg user_id msg_id false waiting).1.sent
                ≡ sent_to c w.sent))
  unfolding serve_subscribe
  serve_subscribe-silent l c reads vars t h names free =
      let channel = var (codes "channel") vars in
      let r = poll_at-wrote c reads channel t in
      rw (serve_subscribe, h)
        (
          r.0,
          r.1,
          r.2,
          r.3,
          λ room msg user_id msg_id.
              publish-open_poll l c channel room msg user_id msg_id names free,
        )

  -- Every history that is fetched over HTTP, with a time that can be parsed, is the empty list.
  serve_history_of_nothing :
      (vars : List (Bytes × Bytes)) (t : ℤ)
      → parse_int64 (var (codes "ts") vars) ≡ some t
      → serve_history x cache vars w ≡ (done (x.codec.msgs_json (some [])), w)
  unfolding serve_history history get_range
  serve_history_of_nothing vars t h = rw (serve_history, h) refl
