-- ===== src/Engine/Identity.antt =====
-- The commands on identities, and the checks before a command, keep a state sound.
use pushd.Prelude.{
  ℕ, zero, suc, ◌≡◌, inl, inr, false, List, [], ◌∷◌, ◌++◌, ◌==◌, if◌then◌else◌, ==_refl, Bool-cases,
  All,
}
use pushd.Text.{Bytes, same}
use pushd.External.{External}
use pushd.World.{Run, Client, ◌>>=◌}
use pushd.Engine.Kept.{Kept, >>=-Kept, pure-Kept}
use pushd.Engine.Actions.{on_client-Grew, steps, query-Kept}
use pushd.Process.Replies.{param}
use pushd.Client.{on_client, update_token_expire, clear_identity}
use pushd.Auth.{
  Granted, granted, denied, auth_client, check_server_token, check_client_token, get_server_token,
  get_client_token, get_app_key, auth_server, token_check,
}
use pushd.Process.Identity.{
  auth_server_cmd, token_cmd, appkey_cmd, auth_client_cmd, set_uuid_params, set_uuid,
}
use pushd.Wire.{Cmdline}

module _ (x : External) where
  param-Kept : (ps : List Bytes) (i : ℕ) → Kept x (param ps i)
  param-Kept [] i = search steps
  param-Kept (p ∷ ps) zero = search steps
  param-Kept (p ∷ ps) (suc i) = param-Kept ps i

  granted-Kept :
      {B : Type 0} (m : Run x Granted) (f : Granted → Run x B)
      → Kept x m
      → ((t : Bytes) → Kept x (f (granted t)))
      → ((t : Bytes) → Kept x (f (denied t)))
      → Kept x (m >>= f)
  granted-Kept m f k g d = >>=-Kept x m f k cases
    where
      cases : (r : Granted) → Kept x (f r)
      cases (granted t) = g t
      cases (denied t) = d t

  auth_client-Kept : (t : Bytes) → Kept x (auth_client x t)
  unfolding auth_client
  auth_client-Kept t = search (>>=-Kept, query-Kept, pure-Kept)

  check_server_token-Kept : (t : Bytes) → Kept x (check_server_token x t)
  unfolding check_server_token
  check_server_token-Kept t = search (>>=-Kept, query-Kept, pure-Kept)

  check_client_token-Kept : (c : ℕ) (t : Bytes) → Kept x (check_client_token x c t)
  unfolding check_client_token update_token_expire
  check_client_token-Kept c t = search steps depth 12

  get_server_token-Kept : Kept x (get_server_token x)
  unfolding get_server_token
  get_server_token-Kept = search steps

  get_client_token-Kept : Kept x (get_client_token x)
  unfolding get_client_token
  get_client_token-Kept = search steps

  get_app_key-Kept : Kept x (get_app_key x)
  unfolding get_app_key
  get_app_key-Kept = search steps

  auth_server-Kept : (k : Bytes) → Kept x (auth_server x k)
  unfolding auth_server
  auth_server-Kept k = search (steps, get_server_token-Kept)

  pub auth_server_cmd-Kept : (c : ℕ) (params : Bytes) → Kept x (auth_server_cmd x c params)
  unfolding auth_server_cmd
  auth_server_cmd-Kept c params = search (steps, granted-Kept, auth_server-Kept) depth 9

  pub token_cmd-Kept : Kept x (token_cmd x)
  unfolding token_cmd
  token_cmd-Kept = search (steps, get_client_token-Kept)

  pub appkey_cmd-Kept : Kept x (appkey_cmd x)
  unfolding appkey_cmd
  appkey_cmd-Kept = search (steps, get_app_key-Kept)

  pub auth_client_cmd-Kept : (c : ℕ) (params : Bytes) → Kept x (auth_client_cmd x c params)
  unfolding auth_client_cmd
  auth_client_cmd-Kept c params =
      search (steps, granted-Kept, auth_client-Kept, param-Kept) depth 12

  pub token_check-Kept : (c : ℕ) (cl : Cmdline) → Kept x (token_check x c cl)
  unfolding token_check clear_identity
  token_check-Kept c cl = search (steps, check_server_token-Kept, check_client_token-Kept) depth 12

  -- a name that is not empty, and the client set up later
  named :
      (c : ℕ) (uuid : Bytes) (clients : ℕ → Client) (cs : List ℕ)
      → same uuid [] ≡ false
      → All (λ d. same (clients d).uuid [] ≡ false) cs
      → All
          (λ d.
            same ((if d == c then record (clients d) { uuid = uuid } else clients d).uuid) []
            ≡ false)
          (cs ++ c ∷ [])
  named c uuid clients [] e h = (rw (==_refl c) e, tt)
  named c uuid clients (d ∷ cs) e h = (
    elim (Bool-cases (d == c)) [ inl q ↦ rw q e | inr q ↦ rw q h.0 ],
    named c uuid clients cs e h.1,
  )

  set_uuid_params-Kept : (c : ℕ) (ps : List Bytes) → Kept x (set_uuid_params x c ps)
  unfolding set_uuid_params on_client
  set_uuid_params-Kept c [] = search steps
  set_uuid_params-Kept c (a ∷ []) = search steps
  set_uuid_params-Kept c (a ∷ uuid ∷ ps) = elim (Bool-cases (same uuid [])) [
    | inl e ↦ rw e (pure-Kept x _)
    | inr e ↦ rw e (record {
      grew = on_client-Grew x c (λ cl. record cl { uuid = uuid }) (λ cl p. p) (λ cl p. p);
      sound = λ w h. record {
        allocated = h.allocated;
        distinct = h.distinct;
        unnamed = h.unnamed;
        named = named c uuid w.clients w.spawned e h.named;
      };
    })
  ]

  pub set_uuid-Kept : (c : ℕ) (params : Bytes) → Kept x (set_uuid x c params)
  unfolding set_uuid
  set_uuid-Kept c params = search set_uuid_params-Kept
