-- ===== src/Registry.antt =====
-- `UuidClientMap` (engine/pubsub.go): which client is connected for a user.
use pushd.Prelude.{ℕ, Option, none, some, ◌==◌, if◌then◌else◌, done}
use pushd.Text.{Bytes}
use pushd.External.{External}
use pushd.World.{Run, pure, modify, ◌>>=◌}

module _ (x : External) where
  -- `AddClient`
  unfoldable pub add_client : Bytes → ℕ → Run x (Unit {0})
  add_client uuid c w = (done tt, record w { online = x.registry.set uuid c w.online })

  -- `GetClient`
  unfoldable pub get_online : Bytes → Run x (Option ℕ)
  get_online uuid w = (done (x.registry.get w.online uuid), w)

  -- `Remove`: the lock is the client's; in one sequence of steps the second look-up sees the first
  unfoldable pub remove_client : Bytes → ℕ → Run x (Unit {0})
  unfolding get_online
  remove_client uuid c = do
    found ← get_online uuid
    elim found [
      | none ↦ pure tt
      | some _ ↦ (do
        again ← get_online uuid
        elim again [
          | none ↦ pure tt
          | some d ↦
              if d == c
              then modify (λ w. record w { online = x.registry.remove uuid w.online })
              else pure tt
        ])
    ]
