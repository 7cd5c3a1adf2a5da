-- ===== src/Engine/Users.antt =====
-- The commands on users keep a state sound.
use pushd.Prelude.{ℕ, zero, suc, ◌≡◌, true, Option, none, some, List, [], ◌∷◌, ℤ}
use pushd.Text.{Bytes}
use pushd.External.{External}
use pushd.World.{Client, dead}
use pushd.Engine.Kept.{Kept, >>=-Kept, pure-Kept}
use pushd.Engine.Actions.{steps, query-Kept}
use pushd.Process.Replies.{param}
use pushd.Process.Users.{
  on_online, update_push_id, set_off_notify, create_user, collect_offline, offline_msg,
  full_history, history_parsed, history_params, history,
}

module _ (x : External) where
  param-Kept : (ps : List Bytes) (i : ℕ) → Kept x (param ps i)
  param-Kept [] i = search steps
  param-Kept (p ∷ ps) zero = search steps
  param-Kept (p ∷ ps) (suc i) = param-Kept ps i

  on_online-Kept :
      (u : Bytes) (f : Client → Client)
      → ((cl : Client) → (f cl).uuid ≡ cl.uuid)
      → ((cl : Client) → cl.closed ≡ true → (f cl).closed ≡ true)
      → ((cl : Client) → cl.state ≡ dead → (f cl).state ≡ dead)
      → Kept x (on_online x u f)
  unfolding on_online
  on_online-Kept u f e k g = search steps

  pub update_push_id-Kept : (params : Bytes) → Kept x (update_push_id x params)
  unfolding update_push_id
  update_push_id-Kept params = search (steps, param-Kept, on_online-Kept) depth 12

  pub set_off_notify-Kept : (params : Bytes) → Kept x (set_off_notify x params)
  unfolding set_off_notify
  set_off_notify-Kept params = search (steps, param-Kept, on_online-Kept) depth 12

  pub create_user-Kept : (params : Bytes) → Kept x (create_user x params)
  unfolding create_user
  create_user-Kept params = search steps depth 12

  collect_offline-Kept : (u : Bytes) (cs : List (Bytes × ℤ)) → Kept x (collect_offline x u cs)
  unfolding collect_offline
  collect_offline-Kept u [] = search steps
  collect_offline-Kept u ((ch, ts) ∷ cs) =
      let rest = collect_offline-Kept u cs in search (>>=-Kept, query-Kept, pure-Kept)

  pub offline_msg-Kept : (c : ℕ) → Kept x (offline_msg x c)
  unfolding offline_msg
  offline_msg-Kept c = search (steps, collect_offline-Kept) depth 12

  full_history-Kept : (ch : Bytes) (ts : ℤ) → Kept x (full_history x ch ts)
  unfolding full_history
  full_history-Kept ch ts = search steps depth 12

  history_parsed-Kept : (ch : Bytes) (ts : Option ℤ) → Kept x (history_parsed x ch ts)
  unfolding history_parsed
  history_parsed-Kept ch none = search steps
  history_parsed-Kept ch (some ts) = search (>>=-Kept, full_history-Kept, pure-Kept)

  history_params-Kept : (ps : List Bytes) → Kept x (history_params x ps)
  unfolding history_params
  history_params-Kept [] = search steps
  history_params-Kept (a ∷ []) = search steps
  history_params-Kept (a ∷ b ∷ ps) = search history_parsed-Kept

  pub history-Kept : (params : Bytes) → Kept x (history x params)
  unfolding history
  history-Kept params = search history_params-Kept
