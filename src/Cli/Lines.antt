-- ===== src/Cli/Lines.antt =====
-- What the command line client sends of what is typed.
use pushd.Prelude.{
  ◌≡◌, inl, inr, refl, sym, ap, ◌∙◌, Bool, true, false, ◌||◌, Option, none, some, List, [], ◌∷◌,
  ◌++◌, append-nil, append_assoc, arith, ◌==◌, if◌then◌else◌, Bool-cases, All, done,
}
use pushd.Text.{Bytes, codes, same}
use pushd.World.{pure, for_each, ◌>>◌}
use pushd.Cli.{
  ReadError, CommandLine, new_command_line, Arrival, Round, hint, re_prompt, tell, trim_newlines,
  ends_in_newline, show_result, on_result, read_one, round, run, process_input,
}

-- the lines before the first that is `quit`, without those that are empty
unfoldable pub commands : List Round → List Bytes
commands [] = []
commands (r ∷ rs) =
    let rest = commands rs in
    let line = trim_newlines r.line in
    if same line (codes "quit") then [] else if same line [] then rest else line ∷ rest

-- a message that was read without an error, and that is not empty
abbrev pub Readable : Arrival → Type 0
Readable a = (a.error ≡ none) × (same a.res [] ≡ false)

-- what a state has in common with a later one where nothing was typed
record Untyped (s t : CommandLine) : Type 0 where
  written : t.written ≡ s.written
  history : t.history ≡ s.history
  is_done : t.is_done ≡ s.is_done
  reading : t.reading ≡ s.reading

last_byte :
    (res : Bytes) (s : CommandLine)
    → same res [] ≡ false
    → (newline : Bool) × (ends_in_newline res s ≡ (done newline, s))
unfolding ends_in_newline same
last_byte [] s e = absurd (ground (arith, e))
last_byte (b ∷ []) s e = (b == 10, refl)
last_byte (b ∷ c ∷ bs) s e = last_byte (c ∷ bs) s refl

shown :
    (res : Bytes) (s : CommandLine)
    → same res [] ≡ false
    → ((show_result res s).0 ≡ done tt) × Untyped s (show_result res s).1
unfolding show_result hint re_prompt
shown res s e =
    let (n, p) = last_byte res s e in
    rw p (refl, record { written = refl; history = refl; is_done = refl; reading = refl })

read_one-Untyped :
    (a : Arrival) (s : CommandLine)
    → Readable a
    → s.reading ≡ true
    → ((read_one a s).0 ≡ done tt) × Untyped s (read_one a s).1
unfolding read_one on_result
read_one-Untyped a s h r = asked s.reading r a.error h.0
  where
    asked :
        (b : Bool)
        → b ≡ true
        → (e : Option ReadError) → e ≡ none
        → (((if b then on_result a.res e else pure tt) s).0 ≡ done tt)
          × Untyped s ((if b then on_result a.res e else pure tt) s).1
    asked false q e p = absurd (ground (arith, q))
    asked true q (some e) p = absurd (ground (arith, p))
    asked true q none p = shown a.res s h.1

arrivals-Untyped :
    (as' : List Arrival) (s : CommandLine)
    → All Readable as'
    → s.reading ≡ true
    → ((for_each read_one as' s).0 ≡ done tt) × Untyped s (for_each read_one as' s).1
unfolding for_each
arrivals-Untyped [] s h r =
    (refl, record { written = refl; history = refl; is_done = refl; reading = refl })
arrivals-Untyped (a ∷ as') s h r =
    let (p, u) = read_one-Untyped a s h.0 r in
    let (q, v) = arrivals-Untyped as' (read_one a s).1 h.1 (u.reading ∙ r) in
    rw p (
      q,
      record {
        written = v.written ∙ u.written;
        history = v.history ∙ u.history;
        is_done = v.is_done ∙ u.is_done;
        reading = v.reading ∙ u.reading;
      },
    )

-- what one line adds
one : Bytes → List Bytes
one line = if same line (codes "quit") then [] else if same line [] then [] else line ∷ []

process_input-one :
    (line : Bytes) (s : CommandLine)
    → ((process_input line s).0 ≡ done tt)
      × ((process_input line s).1.written ≡ s.written ++ one line)
      × ((process_input line s).1.history ≡ s.history ++ one line)
      × ((process_input line s).1.is_done ≡ (same line (codes "quit") || s.is_done))
      × ((process_input line s).1.reading ≡ s.reading)
unfolding process_input re_prompt one
process_input-one line s = ground (arith, append-nil s.written, append-nil s.history)

tell-Untyped :
    (e : Option Bytes) (s : CommandLine) → ((tell e s).0 ≡ done tt) × Untyped s (tell e s).1
unfolding tell hint
tell-Untyped none s =
    (refl, record { written = refl; history = refl; is_done = refl; reading = refl })
tell-Untyped (some e) s =
    (refl, record { written = refl; history = refl; is_done = refl; reading = refl })

-- a round where everything that arrives can be read
round-one :
    (r : Round) (s : CommandLine)
    → All Readable r.arrivals
    → s.reading ≡ true
    → (let line = trim_newlines r.line in
        ((round r s).0 ≡ done tt)
        × ((round r s).1.written ≡ s.written ++ one line)
        × ((round r s).1.history ≡ s.history ++ one line)
        × ((round r s).1.is_done ≡ (same line (codes "quit") || s.is_done))
        × ((round r s).1.reading ≡ true))
unfolding round
round-one r s h e =
    let (p, u) = arrivals-Untyped r.arrivals s h e in
    let t = (for_each read_one r.arrivals s).1 in
    let (q, v) = tell-Untyped r.problem t in
    let k = process_input-one (trim_newlines r.line) (tell r.problem t).1 in
    rw (p, q)
      (
        k.0,
        k.1 ∙ ap (λ l. l ++ one (trim_newlines r.line)) (v.written ∙ u.written),
        k.2 ∙ ap (λ l. l ++ one (trim_newlines r.line)) (v.history ∙ u.history),
        k.3 ∙ ap (λ b. same (trim_newlines r.line) (codes "quit") || b) (v.is_done ∙ u.is_done),
        k.4 ∙ v.reading ∙ u.reading ∙ e,
      )

stopped : (rs : List Round) (s : CommandLine) → s.is_done ≡ true → run rs s ≡ (done tt, s)
unfolding run
stopped [] s e = refl
stopped (r ∷ rs) s e = go s.is_done e
  where
    go : (b : Bool) → b ≡ true → (if b then pure tt else round r >> run rs) s ≡ (done tt, s)
    go true e = refl
    go false e = absurd (ground (arith, e))

abbrev Stored : List Round → CommandLine → Type 0
Stored rs s =
    ((run rs s).0 ≡ done tt)
    × ((run rs s).1.written ≡ s.written ++ commands rs)
    × ((run rs s).1.history ≡ s.history ++ commands rs)

entered :
    (r : Round) (rs : List Round) (s : CommandLine)
    → s.is_done ≡ false
    → (round r s).0 ≡ done tt
    → run (r ∷ rs) s ≡ run rs (round r s).1
unfolding run
entered r rs s d p = go s.is_done d
  where
    go :
        (b : Bool) → b ≡ false → (if b then pure tt else round r >> run rs) s ≡ run rs (round r s).1
    go true e = absurd (ground (arith, e))
    go false e = rw p refl

first_command :
    (r : Round) (rs : List Round)
    → commands (r ∷ rs)
      ≡ one (trim_newlines r.line)
        ++ (if same (trim_newlines r.line) (codes "quit") then [] else commands rs)
unfolding commands one
first_command r rs = ground arith

step-Stored :
    (r : Round) (rs : List Round) (s : CommandLine)
    → All Readable r.arrivals
    → s.is_done ≡ false
    → s.reading ≡ true
    → (same (trim_newlines r.line) (codes "quit") ≡ false → Stored rs (round r s).1)
    → Stored (r ∷ rs) s
step-Stored r rs s h d e k =
    let line = trim_newlines r.line in
    let t = (round r s).1 in
    let (p, q, q', f, g) = round-one r s h e in
    let more = if same line (codes "quit") then [] else commands rs in
    let rest : ((run rs t).0 ≡ done tt)
        × ((run rs t).1.written ≡ t.written ++ more)
        × ((run rs t).1.history ≡ t.history ++ more) =
      elim (Bool-cases (same line (codes "quit"))) [
        | inl c ↦
            rw (stopped rs t (ground (arith, f, c)), c)
              (refl, sym (append-nil t.written), sym (append-nil t.history))
        | inr c ↦ rw c (k c)
      ] in
    rw (entered r rs s d p, first_command r rs)
      (
        rest.0,
        rest.1 ∙ ap (λ l. l ++ more) q ∙ append_assoc s.written (one line) more,
        rest.2 ∙ ap (λ l. l ++ more) q' ∙ append_assoc s.history (one line) more,
      )

run-Stored :
    (rs : List Round) (s : CommandLine)
    → All (λ r. All Readable r.arrivals) rs
    → s.is_done ≡ false
    → s.reading ≡ true
    → Stored rs s
unfolding run commands
run-Stored [] s h d e = (refl, sym (append-nil s.written), sym (append-nil s.history))
run-Stored (r ∷ rs) s h d e =
    let (p, q, q', f, g) = round-one r s h.0 e in
    step-Stored r rs s h.0 d e (λ c. run-Stored rs (round r s).1 h.1 (ground (arith, f, c, d)) g)

-- Where everything that arrives can be read, the client writes to the server each line that is typed
-- before `quit`, once and in order, without the newlines at its end and without empty lines; the
-- history holds the same lines, and the loop does not panic.
pub run-commands :
    (rs : List Round)
    → All (λ r. All Readable r.arrivals) rs
    → ((run rs new_command_line).0 ≡ done tt)
      × ((run rs new_command_line).1.written ≡ commands rs)
      × ((run rs new_command_line).1.history ≡ commands rs)
run-commands rs h = run-Stored rs new_command_line h refl refl
