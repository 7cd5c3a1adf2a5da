-- ===== src/Wire.antt =====
-- The frames that clients and peer servers send: `NewCmdline` (engine/cmd_interface.go) and
-- `NewServerCmdline` (engine/s2s_server.go). A slice expression out of bounds is a panic.
mod Words
pub mod Frames
pub mod Accepts
use pushd.Prelude.{
  ℕ, zero, suc, ◌+◌, ◌-◌, ◌*◌, ◌/◌, ◌%◌, ◌^◌, ◌≤◌, ◌<◌, ◌≡◌, ◌≢◌, ◌↔◌, ◌⊎◌, inl, inr, refl, sym, ap,
  ◌∙◌, subst, Bool, true, false, ◌&&◌, ◌||◌, not, Option, none, some, List, [], ◌∷◌, ◌++◌, map,
  append-nil, append_assoc, arith, ltb, leb, ◌==◌, if◌then◌else◌, ==_iff, Bool-cases, Option-cases,
  length, get_elem?, take, drop, replicate, length-append, take-append, drop-append, All,
  All-append, ℤ, pos, negsuc, Outcome, done, panic,
}
unfoldable pub use Words.{read_int32, put_int32, slice}
use pushd.Text.{Bytes, codes, same}

-- The result of a parser: a value, or an `error`.
pub data Parsed {ℓ} (A : Type ℓ) : Type ℓ where
  parsed : A → Parsed A
  refused : Bytes → Parsed A

pub record Cmdline : Type 0 where
  pub cmd : Bytes
  pub params : Bytes
  pub params2 : Bytes

pub record ServerCmdline : Type 0 where
  pub cmd : Bytes
  pub params : Bytes

infixl 5 ◌>>=◌
abbrev pub ◌>>=◌ {ℓ κ} : {A : Type ℓ} {B : Type κ} → Outcome A → (A → Outcome B) → Outcome B
done a >>= f = f a
panic >>= f = panic

abbrev pub cmd_vido_chat : Bytes
cmd_vido_chat = codes "vido"

-- A frame as its sender lays it out: a word for the length of the command's name, the name, a word
-- for the length of the body, the body.
abbrev pub frame : Bytes → Bytes → Bytes
frame cmd body = put_int32 (length cmd) ++ (cmd ++ (put_int32 (length body) ++ body))

abbrev pub damaged : {A : Type 0} → Outcome (Parsed A)
damaged = done (refused (codes "message has damaged"))

-- `len(input) == n + l`, over the integers
abbrev length_is : ℕ → ℕ → ℤ → Bool
length_is len n (pos l) = len == n + l
length_is len n (negsuc l) = len + l + 1 == n

-- `n + l` as the upper end of a slice; below zero there is none
abbrev end_at : ℕ → ℤ → Outcome ℕ
end_at n (pos l) = done (n + l)
end_at n (negsuc l) = if ltb l n then done (n - l - 1) else panic

pub store_body : Bytes → Bytes → Cmdline
store_body cmd body =
    if same cmd cmd_vido_chat
    then record { cmd = cmd; params = []; params2 = body }
    else record { cmd = cmd; params = body; params2 = [] }

-- the rest of `NewCmdline`, where the header length `h` is positive
cmdline_body : Bytes → ℕ → Outcome (Parsed Cmdline)
unfolding store_body
cmdline_body input h = do
  cmd ← slice input 4 (h + 4)
  if ltb (h + 4 + 4) (length input)
      then (do
        word ← slice input (h + 4) (h + 4 + 4)
        if not (length_is (length input) (h + 4 + 4) (read_int32 word)) then damaged else (do
          end ← end_at (h + 4 + 4) (read_int32 word)
          body ← slice input (h + 4 + 4) end
          done (parsed (store_body cmd body))))
      else done (parsed (record { cmd = cmd; params = []; params2 = [] }))

cmdline_header : Bytes → ℤ → Outcome (Parsed Cmdline)
unfolding cmdline_body
cmdline_header input (negsuc n) = done (refused (codes "skip"))
cmdline_header input (pos zero) = done (refused (codes "skip"))
cmdline_header input (pos (suc n)) =
    if ltb (length input) (suc n + 4) then damaged else cmdline_body input (suc n)

-- `NewCmdline`
unfoldable pub new_cmdline : Bytes → Outcome (Parsed Cmdline)
unfolding cmdline_header
new_cmdline input =
    if ltb (length input) 4
    then damaged
    else (do word ← slice input 0 4; cmdline_header input (read_int32 word))

server_body : Bytes → ℕ → Outcome (Parsed ServerCmdline)
server_body input h = do
  cmd ← slice input 4 (h + 4)
  if leb (length input) (4 + h + 4) then damaged else (do
    word ← slice input (h + 4) (h + 4 + 4)
    if not (length_is (length input) (4 + h + 4) (read_int32 word)) then damaged else (do
      end ← end_at (4 + h + 4) (read_int32 word)
      params ← slice input (4 + h + 4) end
      done (parsed (record { cmd = cmd; params = params }))))

server_header : Bytes → ℤ → Outcome (Parsed ServerCmdline)
unfolding server_body
server_header input (negsuc n) = done (refused (codes "message has been damaged"))
server_header input (pos zero) = done (refused (codes "message has been damaged"))
server_header input (pos (suc n)) =
    if ltb (length input) (suc n + 4) then damaged else server_body input (suc n)

-- `NewServerCmdline`
unfoldable pub new_server_cmdline : Bytes → Outcome (Parsed ServerCmdline)
unfolding server_header
new_server_cmdline input =
    if ltb (length input) 4
    then done (refused (codes "message has been damaged"))
    else (do word ← slice input 0 4; server_header input (read_int32 word))
