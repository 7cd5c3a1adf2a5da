-- ===== src/Engine/Endings.antt =====
-- The end of a client, and what comes after it.
use pushd.Prelude.{
  drop, ℕ, ◌≡◌, ◌⊎◌, inl, inr, refl, ap, subst, Bool, true, false, Option, none, some, List, [],
  ◌∷◌, ◌==◌, ==_refl, Outcome, done, panic,
}
use pushd.Text.{Bytes}
use pushd.External.{External}
use pushd.External.Laws.{LruLaws, MapLaws, or_else}
use pushd.World.{World, dead, set_client, continue, get_client}
use pushd.Client.{new_client, close, sign_off, on_client}
use pushd.Server.{on_read, on_accept}
use pushd.Engine.Cases.{next, guarded, allowed, wait_msg-or, serve_subscribe-or}
use pushd.Engine.Grown.{Grew}
use pushd.Engine.Events.{
  Event, accepted, hung_up, set_up, received, peer_received, proxied, stored, peers_changed,
  notified, poll_published, poll_read, poll_subscribed, database_changed, waits, taken, step,
}
use pushd.Engine.Clients.{close-Kept, sign_off-Kept, init_chat_env-Grew}
use pushd.Engine.Commands.{on_read-Kept}
use pushd.Engine.Relaying.{on_read_peer-Kept}
use pushd.Engine.Background.{
  watch_peers-Kept, check_and_push-Kept, serve_publish-Kept, serve_history-Kept, polled-Kept,
}

module _ (x : External) where
  -- a client whose connection was closed, and which no late set-up registers
  abbrev pub Ended : ℕ → World x → Type 0
  Ended c w = ((w.clients c).closed ≡ true) × ((w.clients c).state ≡ dead)

  -- an address that is given to a new client
  abbrev pub reuses : ℕ → Event x → Bool
  reuses c (accepted d) = c == d
  reuses c (poll_subscribed cache d reads hi vars) = c == d
  reuses c _ = false

  module _ (l : LruLaws x.rooms) (m : MapLaws x.registry) where
    closed-Ended :
        (c : ℕ) (o : Outcome (Unit {0})) (u : World x)
        → (u.clients c).state ≡ dead
        → (let (r, v) = continue o (λ a. on_client x c (λ cl. record cl { closed = true })) u in
            (r ≡ panic) ⊎ Ended c v)
    unfolding on_client
    closed-Ended c panic u e = inl refl
    closed-Ended c (done a) u e = inr (rw (==_refl c) refl, rw (==_refl c) e)

    close-Ended : (c : ℕ) (w : World x) → ((close x c w).0 ≡ panic) ⊎ Ended c (close x c w).1
    unfolding close on_client get_client
    close-Ended c w =
        let u = (on_client x c (λ cl. record cl { state = dead }) w).1 in
        let (o, v) = sign_off x c (u.clients c) u in
        let e = (sign_off-Kept x l m c (u.clients c)).grew u in
        closed-Ended c o v (e.dead c (rw (==_refl c) refl))

    -- the end of a client, after one message and by what its reading returned
    read-Ended :
        (acl : Bool) (c : ℕ) (rest : List Bytes) (o : Outcome (Option Bytes)) (u : World x)
        → ((v : World x)
            → ((on_accept x acl c rest v).0 ≡ panic) ⊎ Ended c (on_accept x acl c rest v).1)
        → (let (r, v) =
              continue o (λ e. elim e [ some _ ↦ close x c | none ↦ on_accept x acl c rest ]) u in
            (r ≡ panic) ⊎ Ended c v)
    read-Ended acl c rest panic u k = inl refl
    read-Ended acl c rest (done (some e)) u k = close-Ended c u
    read-Ended acl c rest (done none) u k = k u

    -- Under the laws of the cache and of the concurrent map: whatever a client sends until its
    -- connection ends, at the end the client is dead and its connection is closed, unless a handler
    -- panicked.
    pub on_accept-Ended :
        (acl : Bool) (c : ℕ) (inputs : List Bytes) (w : World x)
        → ((on_accept x acl c inputs w).0 ≡ panic) ⊎ Ended c (on_accept x acl c inputs w).1
    unfolding on_accept
    on_accept-Ended acl c [] w = close-Ended c w
    on_accept-Ended acl c (input ∷ rest) w =
        read-Ended acl c rest (on_read x acl c input w).0 (on_read x acl c input w).1
          (on_accept-Ended acl c rest)

    grown-Ended : (c : ℕ) (w u v : World x) → Ended c w → Grew x w u → some u ≡ some v → Ended c v
    grown-Ended c w u v h g p =
        subst (Ended c) (ap (λ o. or_else o u) p) (g.closed c h.0, g.dead c h.1)

    other-Ended :
        (c d : ℕ) (w : World x)
        → (c == d) ≡ false
        → Ended c w
        → Ended c (set_client x d new_client w).1
    unfolding set_client
    other-Ended c d w e h = rw e h

    -- Under the laws of the cache and of the concurrent map: no event brings a client back that was
    -- closed, whatever it is, but a new client that is allocated at the same address.
    pub step-Ended :
        (acl : Bool) (e : Event x) (c : ℕ) (w v : World x)
        → reuses c e ≡ false
        → Ended c w
        → step x acl e w ≡ some v
        → Ended c v
    unfolding step
    step-Ended acl (accepted d) c w v n h =
        guarded x (Ended c) (waits d w.spawned) _ v (λ e. other-Ended c d w n h)
    step-Ended acl (hung_up d) c w v n h = grown-Ended c w _ v h ((close-Kept x l m d).grew w)
    step-Ended acl (set_up d) c w v n h = allowed x (Ended c) (waits d w.spawned) _ v (λ e.
        let g = init_chat_env-Grew x l m d (record w { spawned = taken d w.spawned }) in
        (g.closed c h.0, g.dead c h.1))
    step-Ended acl (received d input) c w v n h =
        grown-Ended c w _ v h ((on_read-Kept x l acl d input).grew w)
    step-Ended acl (peer_received input addr) c w v n h =
        grown-Ended c w _ v h ((on_read_peer-Kept x l input addr).grew w)
    step-Ended acl proxied c w v n h =
        next x (Ended c) _ v (wait_msg-or x (Ended c) w h (λ t ts e. h))
    step-Ended acl stored c w v n h = next x (Ended c) (record w { queue = drop 1 w.queue }) v h
    step-Ended acl (peers_changed servers) c w v n h =
        grown-Ended c w _ v h ((watch_peers-Kept x l servers).grew w)
    step-Ended acl (notified p channel message owner) c w v n h =
        grown-Ended c w _ v h ((check_and_push-Kept x l p channel message owner).grew w)
    step-Ended acl (poll_published cache vars) c w v n h =
        grown-Ended c w _ v h ((serve_publish-Kept x l cache vars).grew w)
    step-Ended acl (poll_read cache vars) c w v n h =
        grown-Ended c w _ v h ((serve_history-Kept x cache vars).grew w)
    step-Ended acl (poll_subscribed cache d reads hi vars) c w v n h =
        guarded x (Ended c) (waits d w.spawned) _ v (λ e.
          let g = (polled-Kept x l m cache d reads).grew (set_client x d new_client w).1 in
          let (p, q) = other-Ended c d w n h in
          serve_subscribe-or x (Ended c) cache d reads w h (g.closed c p, g.dead c q) hi vars)
    step-Ended acl (database_changed d) c w v n h = next x (Ended c) (record w { db = d }) v h
