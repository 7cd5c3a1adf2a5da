-- ===== src/Sessions.antt =====
-- The sessions of the database that all handlers share (db/mongo.go, db/redis.go). A session is known
-- by the number of the dial that made it.
pub mod Login
use pushd.Prelude.{
  ℕ, zero, suc, ◌+◌, ◌-◌, ◌*◌, ◌/◌, ◌%◌, ◌^◌, ◌≤◌, ◌<◌, ◌≡◌, ◌≢◌, ◌↔◌, ◌⊎◌, inl, inr, refl, sym, ap,
  ◌∙◌, subst, Bool, true, false, ◌&&◌, ◌||◌, not, Option, none, some, List, [], ◌∷◌, ◌++◌, map,
  append-nil, append_assoc, arith, ltb, leb, ◌==◌, if◌then◌else◌, ==_iff, ==_refl, Bool-cases,
  Option-cases, length, get_elem?, get_elem?_of_lt, take, drop, replicate, length-append,
  take-append, drop-append, All, All-append, ℤ, pos, negsuc, Outcome, done, panic,
}
use pushd.Text.{Bytes, codes, same}
use pushd.Config.{ConfigMongo}
use pushd.World.{Action}

-- whether the error of the n-th dial, and of a login on the n-th session, is nil
pub record Servers : Type 0 where
  pub dial_ok : ℕ → Bool
  pub login_ok : ℕ → Bool

-- `mgoSession`; how often was dialled; and the sessions that logged in
pub record Sessions : Type 0 where
  pub session : Option ℕ
  pub dials : ℕ
  pub logged_in : List ℕ

module _ (db : Servers) (conf : ConfigMongo) where
  -- the login, when a name and a password are configured
  log_in : ℕ → Action Sessions ℕ
  log_in s w =
      if not (same conf.user_name []) && not (same conf.password [])
      then (if db.login_ok s
          then (done s, record w { logged_in = w.logged_in ++ s ∷ [] })
          else (panic, w))
      else (done s, w)

  -- a new session: `Dial` returns nil with an error
  dial : Action Sessions ℕ
  unfolding log_in
  dial w =
      if db.dial_ok w.dials
      then log_in w.dials (record w { session = some w.dials; dials = w.dials + 1 })
      else (panic, record w { session = none; dials = w.dials + 1 })

  -- `MgoSession`
  unfoldable pub mgo_session : Action Sessions ℕ
  unfolding dial
  mgo_session w = elim w.session [ some s ↦ (done s, w) | none ↦ dial w ]

-- `UserCollection`, `ChatRoomCollection`: the session, the database and the collection. They use the
-- session without making one, and a method of a nil session panics.
unfoldable pub collection : Bytes → Sessions → Outcome (ℕ × Bytes × Bytes)
collection name w = elim w.session [ none ↦ panic | some s ↦ done (s, codes "mongo", name) ]

-- `RedisConn`, likewise, without a login
unfoldable pub redis_conn : (ℕ → Bool) → Action Sessions ℕ
redis_conn dial_ok w = elim w.session [
  | some s ↦ (done s, w)
  | none ↦
      if dial_ok w.dials
      then (done w.dials, record w { session = some w.dials; dials = w.dials + 1 })
      else (panic, record w { session = none; dials = w.dials + 1 })
]
