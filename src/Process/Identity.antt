-- ===== src/Process/Identity.antt =====
-- The cases of `Process` about identities (engine/cmd_interface.go).
use pushd.Prelude.{ℕ, none, some, List, [], ◌∷◌, ◌++◌, if◌then◌else◌}
use pushd.Text.{Bytes, codes, same, split, words}
use pushd.Names.{code_success, code_failed}
use pushd.External.{External}
use pushd.World.{Run, pure, modify, ◌>>=◌, ◌>>◌, now_nanos}
use pushd.Client.{on_client, set_client_type, set_server_type, init_token}
use pushd.Auth.{granted, denied, auth_client, auth_server, get_client_token, get_app_key}
use pushd.Process.Replies.{Reply, answer, success, lacked, fault, param}

module _ (x : External) where
  -- `CMD_AUTH_SERVER`
  unfoldable pub auth_server_cmd : ℕ → Bytes → Run x Reply
  unfolding on_client set_server_type
  auth_server_cmd c params =
      if same params [] then fault (codes "Invalid Params for auth_server") else (do
        r ← auth_server x params
        elim r [
          | denied e ↦ pure ([], some e)
          | granted t ↦ (do
            on_client x c set_server_type
            pure (words (codes "AUTHSERVER" ∷ t ∷ []), none))
        ])

  -- `CMD_TOKEN`
  unfoldable pub token_cmd : Run x Reply
  token_cmd = do
    token ← get_client_token x
    if same token []
        then fault (codes "gettoken error")
        else pure (words (codes "TOKEN" ∷ token ∷ []), none)

  -- `CMD_APPKEY`
  unfoldable pub appkey_cmd : Run x Reply
  appkey_cmd = do key ← get_app_key x; pure (words (codes "APPKEY" ∷ key ∷ []), none)

  -- `CMD_AUTH_CLIENT`: the token's time is set in nanoseconds
  unfoldable pub auth_client_cmd : ℕ → Bytes → Run x Reply
  unfolding on_client set_client_type init_token now_nanos
  auth_client_cmd c params = do
    token ← param (split params) 0
    r ← auth_client x token
    elim r [
      | denied e ↦ answer code_failed e
      | granted t ↦ (do
        on_client x c set_client_type
        now ← now_nanos x
        on_client x c (init_token token now)
        answer code_success t)
    ]

  unfoldable pub set_uuid_params : ℕ → List Bytes → Run x Reply
  unfolding on_client
  set_uuid_params c (first ∷ uuid ∷ rest) = if same uuid [] then lacked else (do
    on_client x c (λ cl. record cl { uuid = uuid })
    modify (λ w. record w { spawned = w.spawned ++ c ∷ [] })
    success)
  set_uuid_params c _ = lacked

  -- `CMD_SETUUID`: the client is set up by another goroutine
  unfoldable pub set_uuid : ℕ → Bytes → Run x Reply
  unfolding set_uuid_params
  set_uuid c params = set_uuid_params c (split params)
