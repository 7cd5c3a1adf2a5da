-- ===== src/Daemon.antt =====
-- The start of the server (daemon/pushd/main.go): which services `main` starts, in which order, and
-- what they share at that time. Flags, logging and the signal handler are left out.
pub mod Order
use pushd.Prelude.{
  ℕ, zero, suc, ◌+◌, ◌-◌, ◌*◌, ◌/◌, ◌%◌, ◌^◌, ◌≤◌, ◌<◌, ◌≡◌, ◌≢◌, ◌↔◌, ◌⊎◌, inl, inr, refl, sym, ap,
  ◌∙◌, subst, Bool, true, false, ◌&&◌, ◌||◌, not, Option, none, some, List, [], ◌∷◌, ◌++◌, map,
  append-nil, append_assoc, arith, ltb, leb, ◌==◌, if◌then◌else◌, ==_iff, ==_refl, Bool-cases,
  Option-cases, length, get_elem?, get_elem?_of_lt, take, drop, replicate, length-append,
  take-append, drop-append, All, All-append, ℤ, pos, negsuc, Outcome, done, panic,
}
use pushd.Text.{Bytes, codes, same}
use pushd.Config.{ConfigPushd, is_dist_mode, enable_storage}
use pushd.World.{Action, pure, crash, modify, ◌>>=◌, ◌>>◌}
use pushd.Offpush.{SenderPool, init_off_sender_pool}

pub data Service : Type 0 where
  sys_stats pushd_server stats_server polling_server s2s_server proxy_loop storage_loop : Service

-- A goroutine that `main` started, with whether `Proxy` and the queues of the storage were there.
pub record Started : Type 0 where
  pub service : Service
  pub proxy : Bool
  pub storage : Bool

-- What the services share: whether the exempt commands are set, the pool of senders, whether `Proxy`
-- and the queues of the storage are there; whether this server is registered; and what was started.
pub record Daemon : Type 0 where
  pub acl_env : Bool
  pub sender_pool : Option SenderPool
  pub proxy : Bool
  pub storage : Bool
  pub registered : Bool
  pub started : List Started

abbrev pub new_daemon : Daemon
new_daemon = record {
  acl_env = false;
  sender_pool = none;
  proxy = false;
  storage = false;
  registered = false;
  started = [];
}

unfoldable pub go : Service → Action Daemon (Unit {0})
go s = modify (λ d. record d {
  started = d.started ++ record { service = s; proxy = d.proxy; storage = d.storage } ∷ [];
})

-- `InitOffPushService`, and the panic on its error
unfoldable pub init_off_push_service : ConfigPushd → Action Daemon (Unit {0})
init_off_push_service conf =
    elim (init_off_sender_pool conf.off_sender_pool_num conf.msg_queue_addrs) [
      | panic ↦ crash
      | done none ↦ crash
      | done (some p) ↦ modify (λ d. record d { sender_pool = some p })
    ]

module _ (conf : ConfigPushd) (register_ok : Bool) where
  start_polling : Action Daemon (Unit {0})
  unfolding go
  start_polling = if same conf.long_polling_listen_addr [] then pure tt else go polling_server

  -- `RegisterEtc`, whose error panics
  register_etc : Action Daemon (Unit {0})
  register_etc = if register_ok then modify (λ d. record d { registered = true }) else crash

  start_cluster : Action Daemon (Unit {0})
  unfolding go register_etc
  start_cluster =
      if is_dist_mode conf
      then (do go s2s_server; register_etc; modify (λ d. record d { proxy = true }); go proxy_loop)
      else pure tt

  start_storage : Action Daemon (Unit {0})
  unfolding go
  start_storage =
      if enable_storage conf
      then (do modify (λ d. record d { storage = true }); go storage_loop)
      else pure tt

  -- `main`, up to where it waits
  unfoldable pub main : Action Daemon (Unit {0})
  unfolding init_off_push_service go start_polling start_cluster start_storage
  main = do
    modify (λ d. record d { acl_env = true })
    init_off_push_service conf
    go sys_stats
    go pushd_server
    go stats_server
    start_polling
    start_cluster
    start_storage
