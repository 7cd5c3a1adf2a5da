-- ===== src/Sessions/Login.antt =====
-- What later calls are given.
use pushd.Prelude.{ℕ, ◌≡◌, inl, inr, true, false, none, [], arith, Option-cases, done, panic}
use pushd.Text.{same}
use pushd.Config.{ConfigMongo}
use pushd.Sessions.{Servers, Sessions, mgo_session, dial, log_in}

module _ (db : Servers) (conf : ConfigMongo) where
  -- A session that was returned is returned by every later call, without another dial.
  mgo_session-again :
      (s : ℕ) (w : Sessions)
      → (mgo_session db conf w).0 ≡ done s
      → mgo_session db conf (mgo_session db conf w).1 ≡ (done s, (mgo_session db conf w).1)
  unfolding mgo_session dial log_in
  mgo_session-again s w h = elim (Option-cases w.session) [
    | inl e ↦ ground (arith, h, e)
    | inr (a, e) ↦ ground (arith, h, e)
  ]

  -- Where there is no session yet, the dial succeeds, a name and a password are configured, and the
  -- login fails: the call panics, but the next call returns the session, which has not logged in.
  pub mgo_session-unauthenticated :
      (w : Sessions)
      → w.session ≡ none
      → db.dial_ok w.dials ≡ true
      → same conf.user_name [] ≡ false
      → same conf.password [] ≡ false
      → db.login_ok w.dials ≡ false
      → let v = (mgo_session db conf w).1 in
        ((mgo_session db conf w).0 ≡ panic)
        × (mgo_session db conf v ≡ (done w.dials, v))
        × (v.logged_in ≡ w.logged_in)
  unfolding mgo_session dial log_in
  mgo_session-unauthenticated w e d n p l = ground arith
