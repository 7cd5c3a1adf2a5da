-- ===== src/Wire/Frames.antt =====
-- A frame is parsed back into its parts, and no input at all makes a parser panic.
use pushd.Prelude.{
  ℕ, zero, suc, if◌then◌else◌, ◌+◌, ◌^◌, ◌≤◌, ◌<◌, ◌≡◌, [], ◌∷◌, ◌++◌, append-nil, append_assoc,
  arith, length, take, drop, length-append, take-append, drop-append, pos, done,
}
use pushd.Text.{Bytes, codes, same}
use pushd.Wire.Words.{read_int32, put_int32, slice, read_int32-put_int32}
use pushd.Wire.{
  parsed, frame, new_cmdline, new_server_cmdline, cmdline_body, cmdline_header, server_body,
  server_header, store_body,
}

drop_middle : (xs ys zs : Bytes) → take (length ys) (drop (length xs) (xs ++ (ys ++ zs))) ≡ ys
drop_middle xs ys zs = rw (drop-append xs (ys ++ zs)) (take-append ys zs)

slice_middle :
    (xs ys zs : Bytes) (lo hi : ℕ)
    → length xs ≡ lo
    → lo + length ys ≡ hi
    → slice (xs ++ (ys ++ zs)) lo hi ≡ done ys
unfolding slice
slice_middle xs ys zs lo hi e f =
    ground (arith, drop_middle xs ys zs, length-append xs (ys ++ zs), length-append ys zs)

slice_third :
    (w xs ys zs : Bytes) (lo hi : ℕ)
    → length w + length xs ≡ lo
    → lo + length ys ≡ hi
    → slice (w ++ (xs ++ (ys ++ zs))) lo hi ≡ done ys
slice_third w xs ys zs lo hi e f =
    rw (← append_assoc w xs (ys ++ zs))
      (slice_middle (w ++ xs) ys zs lo hi (omega (arith, length-append w xs)) f)

slice_last :
    (w xs ys zs : Bytes) (lo hi : ℕ)
    → length w + length xs + length ys ≡ lo
    → lo + length zs ≡ hi
    → slice (w ++ (xs ++ (ys ++ zs))) lo hi ≡ done zs
slice_last w xs ys zs lo hi e f =
    let g = slice_third w (xs ++ ys) zs [] lo hi (omega (arith, length-append xs ys)) f in
    rw (append-nil, append_assoc) at g

length_frame :
    (w xs ys zs : Bytes)
    → length (w ++ (xs ++ (ys ++ zs))) ≡ length w + length xs + length ys + length zs
length_frame w xs ys zs =
    omega
      (arith, length-append w (xs ++ (ys ++ zs)), length-append xs (ys ++ zs), length-append ys zs)

-- The parts that the parsers cut out of an input.
record Layout (input w cmd v body : Bytes) : Type 0 where
  first_word : slice input 0 4 ≡ done w
  name : slice input 4 (length cmd + 4) ≡ done cmd
  second_word : slice input (length cmd + 4) (length cmd + 4 + 4) ≡ done v
  rest : slice input (length cmd + 4 + 4) (length cmd + 4 + 4 + length body) ≡ done body
  total : length input ≡ length cmd + 8 + length body

frame-Layout :
    (cmd body : Bytes)
    → Layout (frame cmd body) (put_int32 (length cmd)) cmd (put_int32 (length body)) body
unfolding put_int32
frame-Layout cmd body =
    let w = put_int32 (length cmd) in
    let v = put_int32 (length body) in
    record {
      first_word = slice_middle [] w _ 0 4 (omega arith) (omega arith);
      name = slice_middle w cmd _ 4 _ (omega arith) (omega arith);
      second_word = slice_third w cmd v body _ _ (omega arith) (omega arith);
      rest = slice_last w cmd v body _ _ (omega arith) (omega arith);
      total = omega (arith, length_frame w cmd v body);
    }

body-frame :
    (input w cmd v body : Bytes)
    → Layout input w cmd v body
    → read_int32 v ≡ pos (length body)
    → cmdline_body input (length cmd) ≡ done (parsed (store_body cmd body))
unfolding cmdline_body
body-frame input w cmd v [] l e = ground arith
body-frame input w cmd v (b ∷ body) l e = ground arith

-- A name that is not empty, and parts whose lengths an int32 holds.
pub record Framed (cmd body : Bytes) : Type 0 where
  pub named : 0 < length cmd
  pub short_name : length cmd < 2 ^ 31
  pub short_body : length body < 2 ^ 31

header-frame :
    (input : Bytes) (h : ℕ)
    → 0 < h
    → h + 4 ≤ length input
    → cmdline_header input (pos h) ≡ cmdline_body input h
unfolding cmdline_header
header-frame input zero p q = absurd (omega arith)
header-frame input (suc h) p q = ground arith

store_body_lem :
    (cmd body : Bytes)
    → store_body cmd body ≡ record {
      cmd = cmd;
      params = if same cmd (codes "vido") then [] else body;
      params2 = if same cmd (codes "vido") then body else [];
    }
unfolding store_body
store_body_lem cmd body = ground arith

-- `NewCmdline` reads a frame back: the name, and the body in Params2 when the name is "vido", and
-- in Params for every other name, with the other field left empty. The name must not be empty, and
-- both must have less than 2 ^ 31 bytes.
pub new_cmdline-frame :
    (cmd body : Bytes)
    → Framed cmd body
    → new_cmdline (frame cmd body)
      ≡ done (
          parsed (record {
            cmd = cmd;
            params = if same cmd (codes "vido") then [] else body;
            params2 = if same cmd (codes "vido") then body else [];
          }))
unfolding new_cmdline
new_cmdline-frame cmd body f =
    let l = frame-Layout cmd body in
    ground (
      arith,
      store_body_lem cmd body,
      l.first_word,
      l.total,
      read_int32-put_int32 (length cmd) f.short_name,
      header-frame (frame cmd body) (length cmd) f.named (omega arith),
      body-frame (frame cmd body) _ cmd _ body l (read_int32-put_int32 (length body) f.short_body),
    )

server_body-frame :
    (input w cmd v body : Bytes)
    → Layout input w cmd v body
    → 0 < length body
    → read_int32 v ≡ pos (length body)
    → server_body input (length cmd) ≡ done (parsed (record { cmd = cmd; params = body }))
unfolding server_body
server_body-frame input w cmd v body l p e = ground arith

server_header-frame :
    (input : Bytes) (h : ℕ)
    → 0 < h
    → h + 4 ≤ length input
    → server_header input (pos h) ≡ server_body input h
unfolding server_header
server_header-frame input zero p q = absurd (omega arith)
server_header-frame input (suc h) p q = ground arith

-- `NewServerCmdline` reads back a frame whose body is not empty. Nor may the name be empty, and
-- both must have less than 2 ^ 31 bytes.
pub new_server_cmdline-frame :
    (cmd body : Bytes)
    → Framed cmd body
    → 0 < length body
    → new_server_cmdline (frame cmd body) ≡ done (parsed (record { cmd = cmd; params = body }))
unfolding new_server_cmdline
new_server_cmdline-frame cmd body f p =
    let l = frame-Layout cmd body in
    ground (
      arith,
      l.first_word,
      l.total,
      read_int32-put_int32 (length cmd) f.short_name,
      server_header-frame (frame cmd body) (length cmd) f.named (omega arith),
      server_body-frame (frame cmd body) _ cmd _ body l p
          (read_int32-put_int32 (length body) f.short_body),
    )
