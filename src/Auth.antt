-- ===== src/Auth.antt =====
-- Tokens and permissions (engine/auth.go, engine/acl.go).
pub mod Tokens
use pushd.Prelude.{
  ℕ, ◌-◌, Bool, false, ◌&&◌, ◌||◌, not, Option, none, some, List, [], ◌∷◌, ltb, if◌then◌else◌,
}
use pushd.Text.{Bytes, codes, same, split_n}
use pushd.Wire.{Cmdline}
use pushd.External.{
  External, ok, err, insert_client_token, insert_server_token, insert_appkey, remove_client_tokens,
}
use pushd.World.{
  Run, Client, pure, ◌>>=◌, ◌>>◌, get_client, now_nanos, now_secs, query, write, draw,
}
use pushd.Client.{is_client, is_server, clear_identity, update_token_expire, on_client}

-- membership in a set of command names
unfoldable pub among : Bytes → List Bytes → Bool
among s [] = false
among s (t ∷ ts) = same s t || among s ts

-- `InitAclEnv`: the commands that need no identity
abbrev pub skip_acl_cmd : List Bytes
skip_acl_cmd =
    codes "vido"
    ∷ codes "ping"
    ∷ codes "auth_client"
    ∷ codes "auth_server"
    ∷ codes "subs"
    ∷ codes "unsubs"
    ∷ codes "gettoken"
    ∷ codes "getappkey"
    ∷ codes "disolve"
    ∷ codes "user_create"
    ∷ codes "add_into_room"
    ∷ codes "create_room"
    ∷ codes "join_room"
    ∷ codes "leave_room"
    ∷ codes "up_ad_pushId"
    ∷ codes "set_notify"
    ∷ codes "pnicr"
    ∷ []

-- `AclCheck`; `none` is nil
unfoldable pub acl_check : Client → Bytes → Option Bytes
unfolding among is_client is_server
acl_check cli cmd =
    if not (is_client cli) && not (is_server cli) && not (among cmd skip_acl_cmd)
    then some (codes "Need Auth first")
    else none

-- the commands that `TokenCheck` lets pass
abbrev pub token_free : List Bytes
token_free =
    codes "ping"
    ∷ codes "vido"
    ∷ codes "auth_client"
    ∷ codes "auth_server"
    ∷ codes "gettoken"
    ∷ codes "getappkey"
    ∷ codes "setuuid"
    ∷ []

-- what an authentication returns: its text, or its error
pub data Granted : Type 0 where
  granted denied : Bytes → Granted

-- the first part of the parameters, and the parameters that are left
unfoldable pub token_of : List Bytes → Bytes
token_of [] = []
token_of (t ∷ ts) = t

unfoldable pub rest_of : Bytes → List Bytes → Bytes
rest_of params (t ∷ r ∷ []) = r
rest_of params _ = params

module _ (x : External) where
  -- `authClient`: the text, or the error
  unfoldable pub auth_client : Bytes → Run x (Granted)
  unfolding query
  auth_client token = do
    found ← query x (x.mongo.find_client_token token)
    pure (elim found [
      | ok _ ↦ granted (codes "Client auth succeed")
      | err _ ↦ denied (codes "Client auth fail")
    ])

  -- `checkServerToken`
  unfoldable pub check_server_token : Bytes → Run x Bool
  unfolding query
  check_server_token token = do
    found ← query x (x.mongo.find_server_token token)
    pure (elim found [ ok has_expire ↦ has_expire | err _ ↦ false ])

  -- `checkClientToken`. Where the time lies before `expire`, Go's difference is negative and the
  -- test fails; here it is zero, and fails too.
  unfoldable pub check_client_token : ℕ → Bytes → Run x (Option Bytes)
  unfolding get_client write now_secs on_client
  check_client_token c token_checking = do
    client ← get_client x c
    if same client.token []
        then pure (some (codes "Token Illegal"))
        else if not (same client.token token_checking)
        then (do write x (remove_client_tokens client.uuid); pure (some (codes "Token Illegal")))
        else (do
          t ← now_secs x
          if ltb 36000000000 (t - client.expire)
              then (do
                write x (remove_client_tokens client.uuid)
                pure (some (codes "Token expired")))
              else (do now ← now_secs x; on_client x c (update_token_expire now); pure none))

  -- `getServerToken`, `getClientToken`, `getAppKey`
  unfoldable pub get_server_token : Run x Bytes
  unfolding draw now_secs write
  get_server_token = do
    token ← draw x x.rand
    now ← now_secs x
    write x (insert_server_token token now)
    pure token

  unfoldable pub get_client_token : Run x Bytes
  unfolding draw now_nanos write
  get_client_token = do
    token ← draw x x.rand
    now ← now_nanos x
    write x (insert_client_token token now)
    pure token

  unfoldable pub get_app_key : Run x Bytes
  unfolding draw now_nanos write
  get_app_key = do
    seed ← draw x x.rand
    now ← now_nanos x
    failed ← write x (insert_appkey (x.sha256_hex seed) now)
    pure (elim failed [ none ↦ x.sha256_hex seed | some _ ↦ [] ])

  -- `authServer`
  unfoldable pub auth_server : Bytes → Run x (Granted)
  unfolding query
  auth_server appkey = do
    found ← query x (x.mongo.find_appkey appkey)
    elim found [
      | err _ ↦ pure (denied (codes "Server auth fail"))
      | ok _ ↦ (do token ← get_server_token; pure (granted token))
    ]

  -- `TokenCheck`: the error, and the command line with the token taken off
  unfoldable pub token_check : ℕ → Cmdline → Run x (Option Bytes × Cmdline)
  unfolding get_client on_client is_client
  token_check c cli = if among cli.cmd token_free then pure (none, cli) else (do
    let cli' : Cmdline = record cli { params = rest_of cli.params (split_n cli.params 2) }
    client ← get_client x c
    if is_client client
        then (do
          e ← check_client_token c (token_of (split_n cli.params 2))
          elim e [
            | none ↦ pure (none, cli')
            | some t ↦ (do on_client x c clear_identity; pure (some t, cli'))
          ])
        else (do
          valid ← check_server_token (token_of (split_n cli.params 2))
          if valid then pure (none, cli') else pure (some (codes "token error"), cli')))
