-- ===== src/Process/Replies.antt =====
-- What `Process` returns, and the steps that its cases share.
use pushd.Prelude.{ℕ, zero, suc, Option, none, some, List, [], ◌∷◌}
use pushd.Text.{Bytes, codes}
use pushd.Names.{with_code, code_param_error, code_success}
use pushd.World.{Action, pure, crash}

-- the text, and the error
abbrev pub Reply : Type 0
Reply = Bytes × Option Bytes

module _ {S : Type 0} where
  -- `return fmt.Sprintf("%d ...", code), nil`
  abbrev pub answer : ℕ → Bytes → Action S Reply
  answer code text = pure (with_code code text, none)

  abbrev pub success : Action S Reply
  success = answer code_success (codes "success")

  abbrev pub lacked : Action S Reply
  lacked = answer code_param_error (codes "param number is lacked")

  -- `return "", err`
  abbrev pub fault : Bytes → Action S Reply
  fault e = pure ([], some e)

  -- `params[i]`
  abbrev pub param : List Bytes → ℕ → Action S Bytes
  param [] i = crash
  param (p ∷ ps) zero = pure p
  param (p ∷ ps) (suc i) = param ps i

  -- `v, ok := ...` with what follows in either case
  abbrev pub maybe : {A B : Type 0} → Option A → Action S B → (A → Action S B) → Action S B
  maybe none n f = n
  maybe (some a) n f = f a
