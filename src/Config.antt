-- ===== src/Config.antt =====
-- The configuration (config/pushd.go, config/mongo.go, config/redis.go): how it is loaded from a
-- parsed file, with every default and every panic, and what the engine asks of it.
use pushd.Prelude.{
  ℕ, zero, suc, ◌*◌, Bool, true, false, not, Option, none, some, List, [], ◌∷◌, ◌++◌, if◌then◌else◌,
  ℤ, pos, Outcome, done, panic,
}
use pushd.Text.{Bytes, codes, same, split_at}
use pushd.Text.Number.{dec}
use pushd.Wire.{◌>>=◌}

-- jsconf's `Conf`: the value of a key, or the default. Durations are in nanoseconds.
pub record Section : Type 0 where
  pub string : Bytes → Bytes → Bytes
  pub int : Bytes → ℤ → ℤ
  pub duration : Bytes → ℤ → ℤ
  pub string_list : Bytes → List Bytes

pub record Conf : Type 0 where
  pub top : Section
  pub open top use *
  -- `Section(name)`; `none` is its error
  pub section : Bytes → Option Section

abbrev pub seconds : ℕ → ℤ
seconds n = pos (n * 1000000000)

abbrev pub minutes : ℕ → ℤ
minutes n = seconds (n * 60)

pub record ConfigRedis : Type 0 where
  pub addr : Bytes
  pub conn_timeout : ℤ
  pub read_timeout : ℤ
  pub write_timeout : ℤ

pub record ConfigMongo : Type 0 where
  pub addr : Bytes
  pub database : Bytes
  pub user_name : Bytes
  pub password : Bytes
  pub conn_timeout : ℤ
  pub operation_timeout : ℤ
  pub sync_timeout : ℤ

pub data FlushPolicy : Type 0 where
  every_trx every_second : FlushPolicy

-- `ConfigPushd`. A nil list of servers is `[]`: an empty one is replaced by nil. `storage` holds the
-- fields that are read only when `msg_storage` is set.
pub record StorageLimits : Type 0 where
  pub max_storage_outstanding_msg : ℤ
  pub msg_flush_policy : FlushPolicy
  pub msg_storage_write_buffer_size : ℤ
  pub max_cache_msgs_every_channel : ℤ

pub record ConfigPushd : Type 0 where
  pub tcp_listen_addr : Bytes
  pub session_timeout : ℤ
  pub serv_initial_goroutine_num : ℤ
  pub long_polling_listen_addr : Bytes
  pub long_polling_session_timeout : ℤ
  pub stats_listen_addr : Bytes
  pub prof_listen_addr : Bytes
  pub s2s_listen_addr : Bytes
  pub s2s_session_timeout : ℤ
  pub s2s_initial_goroutine_num : ℤ
  pub s2s_channel_peers_max_items : ℤ
  pub channel_info_cache_num : ℤ
  pub etc_servers : List Bytes
  pub msg_queue_addrs : List Bytes
  pub off_sender_pool_num : ℤ
  pub metrics_logfile : Bytes
  pub stats_output_interval : ℤ
  pub pubsub_channel_max_items : ℤ
  pub msg_storage : Bytes
  pub limits : StorageLimits
  pub jpush_app_key : Bytes
  pub jpush_secret_key : Bytes
  pub redis : Option ConfigRedis
  pub mongo : ConfigMongo

host : List Bytes → Bytes
host [] = []
host (ip ∷ rest) = ip

-- `GetS2sAddr`: the text before the first colon, and the port of the gateway
unfoldable pub get_s2s_addr : Bytes → Bytes
unfolding host
get_s2s_addr serv_addr = host (split_at b':' serv_addr) ++ (b':' ∷ dec 2223)

-- `EnableStorage`, `IsDistMode`
unfoldable pub enable_storage : ConfigPushd → Bool
enable_storage c = not (same c.msg_storage [])

unfoldable pub is_dist_mode : ConfigPushd → Bool
is_dist_mode c = elim c.etc_servers [ [] ↦ false | _ ∷ _ ↦ true ]

-- `ConfigRedis.LoadConfig`
unfoldable pub load_redis : Section → ConfigRedis
load_redis cf = record {
  addr = cf.string (codes "addr") (codes ":6379");
  conn_timeout = cf.duration (codes "conn_timeout") (seconds 5);
  read_timeout = cf.duration (codes "read_timeout") (seconds 5);
  write_timeout = cf.duration (codes "write_timeout") (seconds 5);
}

-- `ConfigMongo.LoadConfig`
unfoldable pub load_mongo : Section → Outcome ConfigMongo
load_mongo cf =
    if same (cf.string (codes "database") []) []
    then panic
    else done (record {
      addr = cf.string (codes "addr") (codes ":27017");
      database = cf.string (codes "database") [];
      user_name = cf.string (codes "username") [];
      password = cf.string (codes "password") [];
      conn_timeout = cf.duration (codes "conn_timeout") (seconds 5);
      operation_timeout = cf.duration (codes "operation_timeout") (seconds 5);
      sync_timeout = cf.duration (codes "sync_timeout") (seconds 5);
    })

flush_policy : ℤ → Outcome FlushPolicy
flush_policy (pos zero) = done every_trx
flush_policy (pos (suc zero)) = done every_second
flush_policy _ = panic

-- the block under `if this.MsgStorage != ""`; without it the fields keep their zero values
load_limits : Section → Outcome StorageLimits
unfolding flush_policy
load_limits cf =
    if same (cf.string (codes "msg_storage") []) []
    then done (record {
      max_storage_outstanding_msg = pos 0;
      msg_flush_policy = every_trx;
      msg_storage_write_buffer_size = pos 0;
      max_cache_msgs_every_channel = pos 0;
    })
    else (do
      policy ← flush_policy (cf.int (codes "msg_storage_flush_policy") (pos 0))
      done (record {
        max_storage_outstanding_msg = cf.int (codes "max_storage_outstanding_msg") (pos 100);
        msg_flush_policy = policy;
        msg_storage_write_buffer_size = cf.int (codes "msg_storage_write_buffer_size") (pos 10000);
        max_cache_msgs_every_channel = cf.int (codes "max_cache_msgs_every_channel") (pos 3000);
      }))

-- a key that must be set
required : Section → Bytes → Outcome Bytes
required cf key = if same (cf.string key []) [] then panic else done (cf.string key [])

mongo_section : Option Section → Outcome ConfigMongo
unfolding load_mongo
mongo_section none = panic
mongo_section (some s) = load_mongo s

redis_section : Option Section → Option ConfigRedis
unfolding load_redis
redis_section none = none
redis_section (some s) = some (load_redis s)

-- `ConfigPushd.LoadConfig`
unfoldable pub load_config : Conf → Outcome ConfigPushd
unfolding load_limits required mongo_section redis_section
load_config cf = do
  let tcp = cf.string (codes "tcp_listen_addr") (codes ":2222")
  let polling = cf.string (codes "long_polling_listen_addr") []
  limits ← load_limits cf.top
  app_key ← required cf.top (codes "jpushAppKey")
  secret_key ← required cf.top (codes "jpushSecretKey")
  mongo ← mongo_section (cf.section (codes "mongodb"))
  done (record {
    tcp_listen_addr = tcp;
    session_timeout = cf.duration (codes "session_timeout") (minutes 2);
    serv_initial_goroutine_num = cf.int (codes "serv_initial_goroutine_num") (pos 200);
    long_polling_listen_addr = polling;
    long_polling_session_timeout =
        if same polling []
        then pos 0
        else cf.duration (codes "long_polling_session_timeout") (minutes 1);
    stats_listen_addr = cf.string (codes "stats_listen_addr") (codes ":9020");
    prof_listen_addr = cf.string (codes "prof_listen_addr") (codes ":9021");
    s2s_listen_addr = get_s2s_addr tcp;
    s2s_session_timeout = cf.duration (codes "s2s_conn_timeout") (minutes 2);
    s2s_initial_goroutine_num = cf.int (codes "s2s_initial_goroutine_num") (pos 8);
    s2s_channel_peers_max_items = cf.int (codes "s2s_channel_peers_max_items") (pos 200000);
    channel_info_cache_num = cf.int (codes "channel_info_cache_num") (pos 100000);
    etc_servers = cf.string_list (codes "etc_servers");
    msg_queue_addrs = cf.string_list (codes "message_queue_addrs");
    off_sender_pool_num = cf.int (codes "offline_sender_pool_num") (pos 1);
    metrics_logfile = cf.string (codes "metrics_logfile") (codes "metrics.log");
    stats_output_interval = cf.duration (codes "stats_output_interval") (minutes 10);
    pubsub_channel_max_items = cf.int (codes "pubsub_channel_max_items") (pos 200000);
    msg_storage = cf.string (codes "msg_storage") [];
    limits = limits;
    jpush_app_key = app_key;
    jpush_secret_key = secret_key;
    redis = redis_section (cf.section (codes "redis"));
    mongo = mongo;
  })
