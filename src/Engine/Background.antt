-- ===== src/Engine/Background.antt =====
-- The proxy loop, the peers, the offline push and the polls keep a state sound.
use pushd.Prelude.{
  ℕ, zero, suc, ◌≡◌, inl, inr, false, Option, none, some, List, [], ◌∷◌, arith, ◌==◌, if◌then◌else◌,
  Bool-cases, All,
}
use pushd.Text.{Bytes, same}
use pushd.External.{External}
use pushd.External.Laws.{LruLaws, MapLaws}
use pushd.World.{World, Client, set_client, ◌>>◌, pure}
use pushd.Client.{new_client}
use pushd.Peer.{watch_peers}
use pushd.Offpush.{SenderPool, check_and_push, push_ids_of, push_id_of}
use pushd.Polling.{wrote, poll_head, Cache, serve_publish, serve_history, poll_loop}
use pushd.Engine.Kept.{Sound, Kept, >>=-Kept, pure-Kept}
use pushd.Engine.Actions.{steps}
use pushd.Engine.Publishing.{load_user_ids_by_channel-Kept, publish-Kept}
use pushd.Engine.Relaying.{connect_peer-Kept}
use pushd.Engine.Clients.{close-Kept}
use pushd.Engine.Events.{waits}

module _ (x : External) where
  pub serve_history-Kept :
      (cache : Cache) (vars : List (Bytes × Bytes)) → Kept x (serve_history x cache vars)
  unfolding serve_history
  serve_history-Kept cache vars = search steps

  push_id_of-Kept : (owner u : Bytes) → Kept x (push_id_of x owner u)
  unfolding push_id_of
  push_id_of-Kept owner u = search steps

  push_ids_of-Kept : (owner : Bytes) (us : List Bytes) → Kept x (push_ids_of x owner us)
  unfolding push_ids_of
  push_ids_of-Kept owner [] = search steps
  push_ids_of-Kept owner (u ∷ us) =
      let later = push_ids_of-Kept owner us in search (>>=-Kept, push_id_of-Kept, pure-Kept)

  module _ (l : LruLaws x.rooms) where
    pub watch_peers-Kept : (servers : List Bytes) → Kept x (watch_peers x servers)
    unfolding watch_peers
    watch_peers-Kept servers = search (steps, connect_peer-Kept x l)

    pub check_and_push-Kept :
        (p : Option SenderPool) (channel message owner : Bytes)
        → Kept x (check_and_push x p channel message owner)
    unfolding check_and_push
    check_and_push-Kept none channel message owner = search steps
    check_and_push-Kept (some p) channel message owner =
        search (>>=-Kept, load_user_ids_by_channel-Kept x l, push_ids_of-Kept, pure-Kept)

    pub serve_publish-Kept :
        (cache : Cache) (vars : List (Bytes × Bytes)) → Kept x (serve_publish x cache vars)
    unfolding serve_publish
    serve_publish-Kept cache vars = search (steps, publish-Kept x l)

    -- a new client at an address that no waiting goroutine holds
    pub fresh-Sound :
        (c : ℕ) (w : World x)
        → waits c w.spawned ≡ false
        → Sound x w
        → Sound x (set_client x c new_client w).1
    unfolding set_client waits
    fresh-Sound c w e h = record {
      allocated = h.allocated;
      distinct = h.distinct;
      unnamed = h.unnamed;
      named = others w.clients w.spawned e h.named;
    }
      where
        others :
            (clients : ℕ → Client) (cs : List ℕ)
            → waits c cs ≡ false
            → All (λ d. same (clients d).uuid [] ≡ false) cs
            → All (λ d. same (if d == c then new_client else clients d).uuid [] ≡ false) cs
        others clients [] e h = tt
        others clients (d ∷ cs) e h = elim (Bool-cases (d == c)) [
          | inl q ↦ absurd (ground (arith, e, q))
          | inr q ↦ (rw q h.0, others clients cs (ground (arith, e, q)) h.1)
        ]

    module _ (m : MapLaws x.registry) where
      poll_loop-Kept : (cache : Cache) (c reads : ℕ) → Kept x (poll_loop x cache c reads)
      unfolding poll_loop
      poll_loop-Kept cache c zero = close-Kept x l m c
      poll_loop-Kept cache c (suc n) = poll_loop-Kept cache c n

      -- what a poll does once it has its client
      pub polled-Kept :
          (cache : Cache) (c reads : ℕ)
          → Kept x (poll_loop x cache c reads >> pure (wrote poll_head))
      polled-Kept cache c reads = search (steps, poll_loop-Kept)
