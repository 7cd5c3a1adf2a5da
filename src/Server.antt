-- ===== src/Server.antt =====
-- A connection's loop on the input of one client (engine/server_tcp.go).
use pushd.Prelude.{
  ℕ, Bool, not, Option, none, some, List, [], ◌∷◌, if◌then◌else◌, Outcome, done, panic,
}
use pushd.Text.{Bytes, codes}
use pushd.Names.{with_code, code_token_or_term_error}
use pushd.Wire.{Cmdline, Parsed, parsed, refused, new_cmdline}
use pushd.External.{External}
use pushd.World.{Run, pure, crash, ◌>>=◌, ◌>>◌, get_client, send}
use pushd.Client.{close}
use pushd.Auth.{acl_check, token_check, among}
use pushd.Process.{process}
use pushd.Process.Replies.{Reply, maybe}

-- the commands whose reply is not written
abbrev pub silent : List Bytes
silent = codes "vido" ∷ codes "ack" ∷ codes "frame_action" ∷ codes "asn" ∷ []

module _ (x : External) where
  -- the reply of `Process`, written to the client; an error is only logged
  unfoldable pub deliver_reply : ℕ → Bytes → Reply → Run x (Unit {0})
  unfolding send
  deliver_reply c cmd (ret, some e) = pure tt
  deliver_reply c cmd (ret, none) = if among cmd silent then pure tt else send x c cmd ret

  -- what follows the checks
  unfoldable pub run_command : ℕ → Cmdline → Run x (Unit {0})
  run_command c cl = do reply ← process x c cl; deliver_reply c cl.cmd reply

  -- the checks, and the command behind them
  unfoldable pub checked_command : Bool → ℕ → Cmdline → Run x (Unit {0})
  unfolding get_client send
  checked_command enable_acl_check c cl = if not enable_acl_check then run_command c cl else (do
    client ← get_client x c
    maybe (acl_check client cl.cmd)
        (do
          (refusal, cl') ← token_check x c cl
          maybe refusal (run_command c cl')
              λ e. send x c cl'.cmd (with_code code_token_or_term_error e))
        (send x c cl.cmd))

  unfoldable pub on_parsed : Bool → ℕ → Outcome (Parsed Cmdline) → Run x (Option Bytes)
  on_parsed acl c panic = crash
  on_parsed acl c (done (refused e)) = pure (some e)
  on_parsed acl c (done (parsed cl)) = do checked_command acl c cl; pure none

  -- `OnRead`: its result is the error of the parser, or nil
  unfoldable pub on_read : Bool → ℕ → Bytes → Run x (Option Bytes)
  unfolding on_parsed
  on_read enable_acl_check c input = on_parsed enable_acl_check c (new_cmdline input)

  -- `OnAccept` on the messages that arrive before the connection ends: any error of `Read` closes
  -- the client, and so does an error of `OnRead`
  unfoldable pub on_accept : Bool → ℕ → List Bytes → Run x (Unit {0})
  on_accept acl c [] = close x c
  on_accept acl c (input ∷ rest) = do
    e ← on_read acl c input
    elim e [ some _ ↦ close x c | none ↦ on_accept acl c rest ]
