-- ===== src/Engine/Running.antt =====
-- What holds after any events of a server process.
use pushd.Prelude.{
  ℕ, ◌≡◌, inl, inr, Bool, true, false, some, List, [], ◌∷◌, arith, ◌==◌, ==_iff, Bool-cases, drop,
  All,
}
use pushd.Text.{same}
use pushd.External.{External}
use pushd.External.Laws.{LruLaws, MapLaws}
use pushd.Client.{init_chat_env, new_client}
use pushd.Engine.Cases.{next, guarded, allowed, wait_msg-or, serve_subscribe-or}
use pushd.World.{World, set_client}
use pushd.Engine.Kept.{Sound}
use pushd.Engine.Events.{
  Event, accepted, hung_up, set_up, received, peer_received, proxied, stored, peers_changed,
  notified, poll_published, poll_read, poll_subscribed, database_changed, waits, taken, step, Fresh,
  Ran, begun, went,
}
use pushd.Engine.Clients.{close-Kept, init_chat_env-Sound}
use pushd.Engine.Commands.{on_read-Kept}
use pushd.Engine.Relaying.{on_read_peer-Kept}
use pushd.Engine.Background.{
  watch_peers-Kept, check_and_push-Kept, serve_publish-Kept, serve_history-Kept, fresh-Sound,
  polled-Kept,
}

-- who is left of the clients that wait
taken-All : (p : ℕ → Type 0) (c : ℕ) (cs : List ℕ) → All p cs → All p (taken c cs)
unfolding taken
taken-All p c [] h = tt
taken-All p c (d ∷ cs) h =
    let rest = taken-All p c cs h.1 in
    elim (Bool-cases (d == c)) [ inl q ↦ rw q h.1 | inr q ↦ rw q (h.0, rest) ]

-- a client that waits is one of those that wait
waits-All : (p : ℕ → Type 0) (c : ℕ) (cs : List ℕ) → waits c cs ≡ true → All p cs → p c
unfolding waits
waits-All p c [] e h = absurd (ground (arith, e))
waits-All p c (d ∷ cs) e h = elim (Bool-cases (d == c)) [
  | inl q ↦ rw (← (==_iff d c).0 q) h.0
  | inr q ↦ waits-All p c cs (ground (arith, e, q)) h.1
]

module _ (x : External) (l : LruLaws x.rooms) (m : MapLaws x.registry) where
  Fresh-Sound : (w : World x) → Fresh x w → Sound x w
  Fresh-Sound w f = record {
    allocated = λ k r p. absurd (ground (arith, f.uncached k, p));
    distinct = λ j k r p q. absurd (ground (arith, f.uncached j, p));
    unnamed = f.offline [];
    named = rw f.idle tt;
  }

  set_up-Sound :
      (c : ℕ) (w : World x)
      → Sound x w
      → waits c w.spawned ≡ true
      → Sound x (init_chat_env x c (record w { spawned = taken c w.spawned })).1
  set_up-Sound c w h e =
      let has_name = waits-All (λ d. same (w.clients d).uuid [] ≡ false) c w.spawned e h.named in
      let left : Sound x (record w { spawned = taken c w.spawned }) = record {
        allocated = h.allocated;
        distinct = h.distinct;
        unnamed = h.unnamed;
        named = taken-All (λ d. same (w.clients d).uuid [] ≡ false) c w.spawned h.named;
      } in
      init_chat_env-Sound x l m c (record w { spawned = taken c w.spawned }) has_name left

  step-Sound :
      (acl : Bool) (e : Event x) (w v : World x) → Sound x w → step x acl e w ≡ some v → Sound x v
  unfolding step
  step-Sound acl (accepted c) w v h =
      guarded x (Sound x) (waits c w.spawned) _ v (λ e. fresh-Sound x l c w e h)
  step-Sound acl (hung_up c) w v h = next x (Sound x) _ v ((close-Kept x l m c).sound w h)
  step-Sound acl (set_up c) w v h = allowed x (Sound x) (waits c w.spawned) _ v (set_up-Sound c w h)
  step-Sound acl (received c input) w v h =
      next x (Sound x) _ v ((on_read-Kept x l acl c input).sound w h)
  step-Sound acl (peer_received input addr) w v h =
      next x (Sound x) _ v ((on_read_peer-Kept x l input addr).sound w h)
  step-Sound acl proxied w v h = next x (Sound x) _ v (wait_msg-or x (Sound x) w h (λ t ts e. h))
  step-Sound acl stored w v h = next x (Sound x) (record w { queue = drop 1 w.queue }) v h
  step-Sound acl (peers_changed servers) w v h =
      next x (Sound x) _ v ((watch_peers-Kept x l servers).sound w h)
  step-Sound acl (notified p channel message owner) w v h =
      next x (Sound x) _ v ((check_and_push-Kept x l p channel message owner).sound w h)
  step-Sound acl (poll_published cache vars) w v h =
      next x (Sound x) _ v ((serve_publish-Kept x l cache vars).sound w h)
  step-Sound acl (poll_read cache vars) w v h =
      next x (Sound x) _ v ((serve_history-Kept x cache vars).sound w h)
  step-Sound acl (poll_subscribed cache c reads hi vars) w v h =
      guarded x (Sound x) (waits c w.spawned) _ v (λ e.
        serve_subscribe-or x (Sound x) cache c reads w h
          ((polled-Kept x l m cache c reads).sound (set_client x c new_client w).1
            (fresh-Sound x l c w e h))
          hi vars)
  step-Sound acl (database_changed d) w v h = next x (Sound x) (record w { db = d }) v h

  -- Under the laws of the cache and of the concurrent map: whatever happens to a server process
  -- from its start on, in any order: every cached room has a collection that was allocated, and no
  -- other room has the same one; nobody is online under the empty text; and every client that waits
  -- to be set up has a name. An event may also panic.
  pub Ran-Sound : (acl : Bool) (w : World x) → Ran x acl w → Sound x w
  Ran-Sound acl w (begun f) = Fresh-Sound w f
  Ran-Sound acl w (went e {v = u} r p) = step-Sound acl e u w (Ran-Sound acl u r) p
