-- ===== src/Daemon/Order.antt =====
-- What is there when a service starts.
use pushd.Prelude.{
  ◌≡◌, inl, inr, refl, Bool, true, false, not, some, List, [], ◌∷◌, ◌++◌, append-nil, append_assoc,
  if◌then◌else◌, Bool-cases, done,
}
use pushd.Text.{same}
use pushd.Config.{ConfigPushd, is_dist_mode, enable_storage}
use pushd.Offpush.{SenderPool, init_off_sender_pool}
use pushd.Daemon.{
  sys_stats, pushd_server, stats_server, polling_server, s2s_server, proxy_loop, storage_loop,
  Daemon, new_daemon, go, init_off_push_service, start_polling, register_etc, start_cluster,
  start_storage, main,
}

abbrev pub when {ℓ} : {A : Type ℓ} → Bool → List A → List A
when true l = l
when false l = []

init_done :
    (conf : ConfigPushd) (p : SenderPool) (d : Daemon)
    → init_off_sender_pool conf.off_sender_pool_num conf.msg_queue_addrs ≡ done (some p)
    → init_off_push_service conf d ≡ (done tt, record d { sender_pool = some p })
unfolding init_off_push_service
init_done conf p d h = rw (h, init_off_push_service) refl

with_polling :
    (conf : ConfigPushd) (d : Daemon)
    → start_polling conf true d ≡ (
      done tt,
      record d {
        started =
            d.started
            ++ when
                (not (same conf.long_polling_listen_addr []))
                (record { service = polling_server; proxy = d.proxy; storage = d.storage } ∷ []);
      },
    )
unfolding start_polling go
with_polling conf d = elim (Bool-cases (same conf.long_polling_listen_addr [])) [
  | inl e ↦ rw (e, start_polling, append-nil d.started) refl
  | inr e ↦ rw (e, start_polling) refl
]

with_cluster :
    (conf : ConfigPushd) (d : Daemon)
    → start_cluster conf true d ≡ (
      done tt,
      record d {
        registered = if is_dist_mode conf then true else d.registered;
        proxy = if is_dist_mode conf then true else d.proxy;
        started =
            d.started
            ++ when (is_dist_mode conf) (
                record { service = s2s_server; proxy = d.proxy; storage = d.storage }
                ∷ record { service = proxy_loop; proxy = true; storage = d.storage }
                ∷ []);
      },
    )
unfolding start_cluster go register_etc
with_cluster conf d = elim (Bool-cases (is_dist_mode conf)) [
  | inl e ↦ rw (e, start_cluster, append_assoc) refl
  | inr e ↦ rw (e, start_cluster, append-nil d.started) refl
]

with_storage :
    (conf : ConfigPushd) (d : Daemon)
    → start_storage conf true d ≡ (
      done tt,
      record d {
        storage = if enable_storage conf then true else d.storage;
        started =
            d.started
            ++ when
                (enable_storage conf)
                (record { service = storage_loop; proxy = d.proxy; storage = true } ∷ []);
      },
    )
unfolding start_storage go
with_storage conf d = elim (Bool-cases (enable_storage conf)) [
  | inl e ↦ rw (e, start_storage) refl
  | inr e ↦ rw (e, start_storage, append-nil d.started) refl
]

true_else_false : (b : Bool) → (if b then true else false) ≡ b
true_else_false true = refl
true_else_false false = refl

-- Where the pool of senders can be made and, in a cluster, the server can be registered: `main`
-- starts every service once, in this order. The loops of the proxy and of the storage start behind
-- what they read, but the servers start before: a client or a peer may be served without `Proxy`, or
-- without the queues of the storage, although both are configured.
main-starts :
    (conf : ConfigPushd) (p : SenderPool)
    → init_off_sender_pool conf.off_sender_pool_num conf.msg_queue_addrs ≡ done (some p)
    → let d = (main conf true new_daemon).1 in
      let dist = is_dist_mode conf in
      ((main conf true new_daemon).0 ≡ done tt)
      × (d.sender_pool ≡ some p)
      × (d.proxy ≡ dist)
      × (d.storage ≡ enable_storage conf)
      × (d.started
          ≡ record { service = sys_stats; proxy = false; storage = false }
              ∷ record { service = pushd_server; proxy = false; storage = false }
              ∷ record { service = stats_server; proxy = false; storage = false }
              ∷ when
                  (not (same conf.long_polling_listen_addr []))
                  (record { service = polling_server; proxy = false; storage = false } ∷ [])
            ++ when dist (
                record { service = s2s_server; proxy = false; storage = false }
                ∷ record { service = proxy_loop; proxy = true; storage = false }
                ∷ [])
            ++ when
                (enable_storage conf)
                (record { service = storage_loop; proxy = dist; storage = true } ∷ []))
unfolding main go
main-starts conf p h =
    rw
      (
        init_done conf p (record new_daemon { acl_env = true }) h,
        with_polling,
        with_cluster,
        with_storage,
        true_else_false (is_dist_mode conf),
        true_else_false (enable_storage conf),
        append_assoc,
      )
      (refl, refl, refl, refl, refl)
