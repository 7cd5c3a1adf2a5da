-- ===== src/Tests/Loading.antt =====
-- The load generator and the sessions of the database at concrete options.
use pushd.Prelude.{
  ◌≤◌, ◌<◌, ◌≡◌, refl, true, false, none, some, List, [], arith, All, pos, done, panic,
}
use pushd.Text.{codes, same}
use pushd.Config.{ConfigMongo}
use pushd.Benchmark.{Batch, batches, places_from, places}
use pushd.Benchmark.Batches.{batches_lem}
use pushd.Sessions.{Servers, Sessions, mgo_session}
use pushd.Sessions.Login.{mgo_session-unauthenticated}

batches_lem_example :
    (bs : List Batch) × (batches 5 5 2 0 ≡ some bs)
    × All (λ b. (0 < b.size) × (b.size ≤ 2)) bs
    × (places bs ≡ places_from 0 5)
batches_lem_example = batches_lem 2 5 (omega arith)

abbrev guarded : ConfigMongo
guarded = record {
  addr = codes ":27017";
  database = codes "pushd";
  user_name = codes "ann";
  password = codes "p";
  conn_timeout = pos 0;
  operation_timeout = pos 0;
  sync_timeout = pos 0;
}

abbrev refusing_server : Servers
refusing_server = record { dial_ok = λ n. true; login_ok = λ n. false }

abbrev no_session : Sessions
no_session = record { session = none; dials = 0; logged_in = [] }

with_name : same guarded.user_name [] ≡ false
unfolding same
with_name = refl

with_password : same guarded.password [] ≡ false
unfolding same
with_password = refl

mgo_session-unauthenticated_example :
    (let v = (mgo_session refusing_server guarded no_session).1 in
      ((mgo_session refusing_server guarded no_session).0 ≡ panic)
      × (mgo_session refusing_server guarded v ≡ (done 0, v))
      × (v.logged_in ≡ []))
mgo_session-unauthenticated_example =
    mgo_session-unauthenticated refusing_server guarded no_session refl refl with_name with_password
      refl
