-- ===== src/Cli.antt =====
-- The command line client (cmd/pushd-cli/cli.go): its loop over the lines that are typed, and the
-- goroutine that reads what the server sends. The line editor and the connection behind it are left
-- out: what they return is given, and what they are handed is recorded.
pub mod Lines
use pushd.Prelude.{
  ℕ, zero, suc, ◌+◌, ◌-◌, ◌*◌, ◌/◌, ◌%◌, ◌^◌, ◌≤◌, ◌<◌, ◌≡◌, ◌≢◌, ◌↔◌, ◌⊎◌, inl, inr, refl, sym, ap,
  ◌∙◌, subst, Bool, true, false, ◌&&◌, ◌||◌, not, Option, none, some, List, [], ◌∷◌, ◌++◌, map,
  append-nil, append_assoc, arith, ltb, leb, ◌==◌, if◌then◌else◌, ==_iff, ==_refl, Bool-cases,
  Option-cases, length, get_elem?, get_elem?_of_lt, take, drop, replicate, length-append,
  take-append, drop-append, All, All-append, ℤ, pos, negsuc, Outcome, done, panic,
}
use pushd.Text.{Bytes, codes, same}
use pushd.World.{Action, pure, crash, gets, modify, ◌>>=◌, ◌>>◌, for_each}

-- What the loop and the goroutine share and hand over: whether the loop ends, whether the goroutine
-- still reads, and whether the connection was closed; what was written to the server, put into the
-- history, and shown; and how often the prompt was drawn again.
pub record CommandLine : Type 0 where
  pub is_done : Bool
  pub reading : Bool
  pub closed : Bool
  pub written : List Bytes
  pub history : List Bytes
  pub hints : List (Bytes × List Bytes)
  pub prompts : ℕ

abbrev pub new_command_line : CommandLine
new_command_line = record {
  is_done = false;
  reading = true;
  closed = false;
  written = [];
  history = [];
  hints = [];
  prompts = 0;
}

abbrev pub Cli : Type 0 → Type 0
Cli A = Action CommandLine A

-- `hint`: the format and its parameters are handed to the library, which puts them together
unfoldable pub hint : Bytes → List Bytes → Cli (Unit {0})
hint format params = modify (λ s. record s { hints = s.hints ++ (format, params) ∷ [] })

unfoldable pub re_prompt : Cli (Unit {0})
re_prompt = modify (λ s. record s { prompts = s.prompts + 1 })

-- `processInput`; the error of `Write` is not read
unfoldable pub process_input : Bytes → Cli (Unit {0})
unfolding re_prompt
process_input line =
    if same line (codes "quit")
    then modify (λ s. record s { is_done = true })
    else if same line []
    then re_prompt
    else modify
        (λ s. record s { written = s.written ++ line ∷ []; history = s.history ++ line ∷ [] })

-- `strings.TrimRight(line, "\n")`
unfoldable pub trim_newlines : Bytes → Bytes
trim_newlines [] = []
trim_newlines (b ∷ bs) =
    let rest = trim_newlines bs in if same rest [] && b == 10 then [] else b ∷ rest

-- the error of `Read`, with its text
pub data ReadError : Type 0 where
  eof other_error : Bytes → ReadError

-- what one call of `Read` returns
pub record Arrival : Type 0 where
  pub res : Bytes
  pub error : Option ReadError

-- whether the last byte is a newline: without a byte, the index is out of range
unfoldable pub ends_in_newline : Bytes → Cli Bool
ends_in_newline [] = crash
ends_in_newline (b ∷ []) = pure (b == 10)
ends_in_newline (b ∷ c ∷ bs) = ends_in_newline (c ∷ bs)

-- what was received is the format of `hint`, also where it holds a percent sign
unfoldable pub show_result : Bytes → Cli (Unit {0})
unfolding hint re_prompt ends_in_newline
show_result res = do
  newline ← ends_in_newline res
  hint (if newline then res else res ++ 10 ∷ []) []
  re_prompt

-- an error that is not the end is shown, and then what was read all the same
unfoldable pub on_result : Bytes → Option ReadError → Cli (Unit {0})
unfolding hint show_result
on_result res none = show_result res
on_result res (some (other_error e)) = do hint (codes "Read error: %s") (e ∷ []); show_result res
on_result res (some (eof e)) = do
  hint (codes "Read error: %s") (e ∷ [])
  modify (λ s. record s { closed = true; is_done = true; reading = false })

-- one round of the goroutine of `run`
unfoldable pub read_one : Arrival → Cli (Unit {0})
unfolding on_result
read_one a = do
  reading ← gets (λ s. s.reading)
  if reading then on_result a.res a.error else pure tt

-- One round of the loop of `run`: what arrives while the line is typed, and what `Readline` returns.
pub record Round : Type 0 where
  pub arrivals : List Arrival
  pub line : Bytes
  pub problem : Option Bytes

unfoldable pub tell : Option Bytes → Cli (Unit {0})
unfolding hint
tell none = pure tt
tell (some e) = hint (codes "Read user input error: %s") (e ∷ [])

-- what follows the test of the loop
unfoldable pub round : Round → Cli (Unit {0})
unfolding read_one tell process_input trim_newlines
round r = do for_each read_one r.arrivals; tell r.problem; process_input (trim_newlines r.line)

-- the loop of `run`, as long as `Readline` returns
unfoldable pub run : List Round → Cli (Unit {0})
unfolding round
run [] = pure tt
run (r ∷ rs) =
    let rest = run rs in
    do finished ← gets (λ s. s.is_done); if finished then pure tt else round r >> rest
