-- ===== src/Wire/Accepts.antt =====
-- No input makes a parser panic, and the server's parser accepts nothing but frames.
use pushd.Prelude.{
  ℕ, zero, suc, ◌+◌, ◌-◌, ◌≤◌, ◌<◌, ◌≡◌, ◌≢◌, refl, sym, ap, ◌∙◌, true, false, not, [], ◌∷◌, ◌++◌,
  arith, leb, if◌then◌else◌, length, take, drop, All, ℤ, pos, negsuc, done, panic,
}
use pushd.Text.{codes, Bytes}
use pushd.Wire.Words.{read_int32, put_int32, slice}
use pushd.Wire.{
  Parsed, parsed, refused, ServerCmdline, frame, new_cmdline, new_server_cmdline, cmdline_body,
  cmdline_header, server_body, server_header, store_body, ◌>>=◌, end_at, length_is,
}

slice_within :
    (input : Bytes) (lo hi : ℕ)
    → lo ≤ hi
    → hi ≤ length input
    → slice input lo hi ≡ done (take (hi - lo) (drop lo input))
unfolding slice
slice_within input lo hi p q = ground arith

-- The last slice of a parser, behind its test on the length.
last_slice_within :
    {A : Type 0} (input : Bytes) (n : ℕ) (l : ℤ) (f : Bytes → A)
    → n < length input
    → length_is (length input) n l ≡ true
    → (end_at n l >>= λ e. slice input n e >>= λ b. done (f b)) ≢ panic
unfolding slice
last_slice_within input n (pos l) f p q = ground arith
last_slice_within input n (negsuc l) f p q = ground arith

cmdline_body_safe : (input : Bytes) (h : ℕ) → h + 4 ≤ length input → cmdline_body input h ≢ panic
unfolding cmdline_body
cmdline_body_safe input h p =
    let cmd = take (h + 4 - 4) (drop 4 input) in
    let word = take (h + 4 + 4 - (h + 4)) (drop (h + 4) input) in
    ground (
      arith,
      slice_within input 4 (h + 4),
      slice_within input (h + 4) (h + 4 + 4),
      last_slice_within input (h + 4 + 4) (read_int32 word) (λ b. parsed (store_body cmd b)),
    )

server_body_safe : (input : Bytes) (h : ℕ) → h + 4 ≤ length input → server_body input h ≢ panic
unfolding server_body
server_body_safe input h p =
    let cmd = take (h + 4 - 4) (drop 4 input) in
    let word = take (h + 4 + 4 - (h + 4)) (drop (h + 4) input) in
    ground (
      arith,
      slice_within input 4 (h + 4),
      slice_within input (h + 4) (h + 4 + 4),
      last_slice_within {A = Parsed ServerCmdline} input (4 + h + 4) (read_int32 word)
          (λ b. parsed (record { cmd = cmd; params = b })),
    )

cmdline_header_safe : (input : Bytes) (z : ℤ) → cmdline_header input z ≢ panic
unfolding cmdline_header
cmdline_header_safe input (pos zero) = ground arith
cmdline_header_safe input (pos (suc n)) = ground (arith, cmdline_body_safe input (suc n))
cmdline_header_safe input (negsuc n) = ground arith

server_header_safe : (input : Bytes) (z : ℤ) → server_header input z ≢ panic
unfolding server_header
server_header_safe input (pos zero) = ground arith
server_header_safe input (pos (suc n)) = ground (arith, server_body_safe input (suc n))
server_header_safe input (negsuc n) = ground arith

-- `NewCmdline` and `NewServerCmdline` return on every input: none of their slices is out of bounds,
-- whatever the two length words hold.
pub parsers_never_panic :
    (input : Bytes) → (new_cmdline input ≢ panic) × (new_server_cmdline input ≢ panic)
unfolding new_cmdline new_server_cmdline
parsers_never_panic input = (
  ground (
    arith,
    slice_within input 0 4,
    cmdline_header_safe input (read_int32 (take 4 (drop 0 input))),
  ),
  ground (
    arith,
    slice_within input 0 4,
    server_header_safe input (read_int32 (take 4 (drop 0 input))),
  ),
)

-- Every element is a byte.
abbrev pub AreBytes : Bytes → Type 0
AreBytes = All (λ b. b < 256)

word-put_int32 :
    (w : Bytes) (n : ℕ) → length w ≡ 4 → AreBytes w → read_int32 w ≡ pos n → w ≡ put_int32 n
unfolding read_int32 put_int32
word-put_int32 [] n e b r = absurd (omega arith)
word-put_int32 (w0 ∷ []) n e b r = absurd (omega arith)
word-put_int32 (w0 ∷ w1 ∷ []) n e b r = absurd (omega arith)
word-put_int32 (w0 ∷ w1 ∷ w2 ∷ []) n e b r = absurd (omega arith)
word-put_int32 (w0 ∷ w1 ∷ w2 ∷ w3 ∷ []) n e b r = ground arith
word-put_int32 (w0 ∷ w1 ∷ w2 ∷ w3 ∷ w4 ∷ w) n e b r = absurd (omega arith)

last_slice_Checked :
    (input cmd : Bytes) (n : ℕ) (z : ℤ) (c : ServerCmdline)
    → n < length input
    → (if not (length_is (length input) n z)
        then done (refused (codes "message has damaged"))
        else (end_at n z >>= λ e. slice input n e >>= λ b.
            done (parsed (let r : ServerCmdline = record { cmd = cmd; params = b } in r))))
      ≡ done (parsed c)
    → (z ≡ pos (length input - n))
      × (c.cmd ≡ cmd)
      × (c.params ≡ take (length input - n) (drop n input))
unfolding slice
last_slice_Checked input cmd n (pos l) c p e = ground arith
last_slice_Checked input cmd n (negsuc l) c p e = ground arith

-- What the server's parser has checked of an input that it accepts.
record Checked (input : Bytes) (h : ℕ) (c : ServerCmdline) : Type 0 where
  enough : 4 + h + 4 < length input
  name : c.cmd ≡ take (h + 4 - 4) (drop 4 input)
  word :
      read_int32 (take (h + 4 + 4 - (h + 4)) (drop (h + 4) input))
      ≡ pos (length input - (4 + h + 4))
  body : c.params ≡ take (length input - (4 + h + 4)) (drop (4 + h + 4) input)

server_body-Checked :
    (input : Bytes) (h : ℕ) (c : ServerCmdline)
    → h + 4 ≤ length input
    → server_body input h ≡ done (parsed c)
    → Checked input h c
unfolding server_body
server_body-Checked input h c p e =
    let cmd = take (h + 4 - 4) (drop 4 input) in
    let word = take (h + 4 + 4 - (h + 4)) (drop (h + 4) input) in
    let enough : 4 + h + 4 < length input = ground (arith, slice_within input 4 (h + 4)) in
    let test : leb (length input) (4 + h + 4) ≡ false = ground arith in
    let last =
      last_slice_Checked input cmd (4 + h + 4) (read_int32 word) c enough
        (ground (arith, e, slice_within input 4 (h + 4), slice_within input (h + 4) (h + 4 + 4))) in
    record { enough = enough; name = last.1; word = last.0; body = last.2 }

take-AreBytes : (n : ℕ) (s : Bytes) → AreBytes s → AreBytes (take n s)
take-AreBytes zero s h = tt
take-AreBytes (suc n) [] h = tt
take-AreBytes (suc n) (c ∷ s) h = (h.0, take-AreBytes n s h.1)

drop-AreBytes : (n : ℕ) (s : Bytes) → AreBytes s → AreBytes (drop n s)
drop-AreBytes zero s h = h
drop-AreBytes (suc n) [] h = tt
drop-AreBytes (suc n) (c ∷ s) h = drop-AreBytes n s h.1

length-take : (n : ℕ) (s : Bytes) → n ≤ length s → length (take n s) ≡ n
length-take zero s h = refl
length-take (suc n) [] h = absurd (omega arith)
length-take (suc n) (c ∷ s) h = omega (arith, length-take n s (omega arith))

length-drop : (n : ℕ) (s : Bytes) → length (drop n s) ≡ length s - n
length-drop zero s = omega arith
length-drop (suc n) [] = omega arith
length-drop (suc n) (c ∷ s) = omega (arith, length-drop n s)

take-drop : (n : ℕ) (s : Bytes) → take n s ++ drop n s ≡ s
take-drop zero s = refl
take-drop (suc n) [] = refl
take-drop (suc n) (c ∷ s) = ap (λ l. c ∷ l) (take-drop n s)

drop_nil : (n : ℕ) → drop {A = ℕ} n [] ≡ []
drop_nil zero = refl
drop_nil (suc n) = refl

drop-drop : (m n k : ℕ) (s : Bytes) → m + n ≡ k → drop n (drop m s) ≡ drop k s
drop-drop zero n k s e = let f : n ≡ k = omega arith in ap (λ i. drop i s) f
drop-drop (suc m) n k [] e = drop_nil n ∙ sym (drop_nil k)
drop-drop (suc m) n zero (c ∷ s) e = absurd (omega arith)
drop-drop (suc m) n (suc k) (c ∷ s) e = drop-drop m n k s (omega arith)

take_all : (n : ℕ) (s : Bytes) → length s ≡ n → take n s ≡ s
take_all zero [] h = refl
take_all zero (c ∷ s) h = absurd (omega arith)
take_all (suc n) [] h = refl
take_all (suc n) (c ∷ s) h = ap (λ l. c ∷ l) (take_all n s (omega arith))

-- An input is its four parts, cut at the places where the parser cuts.
four_parts :
    (input : Bytes) (h : ℕ)
    → take 4 input ++ (take h (drop 4 input) ++ (take 4 (drop (h + 4) input) ++ drop (h + 8) input))
      ≡ input
four_parts input h =
    rw
      (
        ← drop-drop (h + 4) 4 (h + 8) input (omega arith),
        take-drop 4 (drop (h + 4) input),
        ← drop-drop 4 h (h + 4) input (omega arith),
        take-drop h (drop 4 input),
      )
      (take-drop 4 input)

-- The parts of an accepted input, with the sums that the parser writes brought to one form.
record Parts (input : Bytes) (h : ℕ) (c : ServerCmdline) : Type 0 where
  name : take h (drop 4 input) ≡ c.cmd
  named : length c.cmd ≡ h
  word : take 4 (drop (h + 4) input) ≡ put_int32 (length c.params)
  body : drop (h + 8) input ≡ c.params
  some_body : 0 < length c.params

Checked-Parts :
    (input : Bytes) (h : ℕ) (c : ServerCmdline)
    → AreBytes input
    → Checked input h c
    → Parts input h c
Checked-Parts input h c b k =
    let enough : h + 8 < length input = omega (arith, k.enough) in
    let name : take h (drop 4 input) ≡ c.cmd =
      ap (λ n. take n (drop 4 input)) (let e : h ≡ h + 4 - 4 = omega arith in e) ∙ sym k.name in
    let start : drop (h + 8) input ≡ drop (4 + h + 4) input =
      ap (λ n. drop n input) (let e : h + 8 ≡ 4 + h + 4 = omega arith in e) in
    let body : drop (h + 8) input ≡ c.params =
      start
      ∙ (sym (
            take_all (length input - (4 + h + 4)) (drop (4 + h + 4) input)
              (length-drop (4 + h + 4) input))
          ∙ sym k.body) in
    let size : length input - (4 + h + 4) ≡ length c.params =
      omega (arith, ap (λ (l : Bytes). length l) body, length-drop (h + 8) input) in
    let word : read_int32 (take 4 (drop (h + 4) input)) ≡ pos (length c.params) =
      ap (λ n. read_int32 (take n (drop (h + 4) input)))
        (let e : 4 ≡ h + 4 + 4 - (h + 4) = omega arith in e)
      ∙ (k.word ∙ ap pos size) in
    record {
      name = name;
      named = omega (
        arith,
        ap (λ (l : Bytes). length l) name,
        length-take h (drop 4 input) (omega (arith, length-drop 4 input)),
      );
      word =
          word-put_int32 _ _
            (length-take 4 (drop (h + 4) input) (omega (arith, length-drop (h + 4) input)))
            (take-AreBytes 4 _ (drop-AreBytes (h + 4) input b)) word;
      body = body;
      some_body = omega (arith, size, enough);
    }

Parts-frame :
    (input : Bytes) (h : ℕ) (c : ServerCmdline)
    → take 4 input ≡ put_int32 h
    → Parts input h c
    → input ≡ frame c.cmd c.params
Parts-frame input h c e p = cc (e, p.name, p.named, p.word, p.body, four_parts input h)

server_header_sound :
    (input : Bytes) (z : ℤ) (c : ServerCmdline)
    → server_header input z ≡ done (parsed c)
    → (h : ℕ) × (z ≡ pos h) × (0 < h) × Checked input h c
server_header_sound input (negsuc n) c e = unfold server_header in cc
server_header_sound input (pos zero) c e = unfold server_header in cc
server_header_sound input (pos (suc n)) c e =
    unfold server_header in
    (suc n, refl, omega arith, server_body-Checked input (suc n) c (ground arith) (ground arith))

-- Whatever `NewServerCmdline` accepts is a frame of a name and a body that are not empty: each byte
-- of the input is accounted for, and both length words are the true lengths.
pub new_server_cmdline_sound :
    (input : Bytes) (c : ServerCmdline)
    → AreBytes input
    → new_server_cmdline input ≡ done (parsed c)
    → (input ≡ frame c.cmd c.params) × (0 < length c.cmd) × (0 < length c.params)
new_server_cmdline_sound input c b e =
    let long : 4 ≤ length input = unfold new_server_cmdline in ground arith in
    let (h, header, named, k) =
      server_header_sound input (read_int32 (take 4 input)) c
        (unfold new_server_cmdline in ground (arith, slice_within input 0 4)) in
    let p = Checked-Parts input h c b k in
    let first =
      word-put_int32 (take 4 input) h (length-take 4 input long) (take-AreBytes 4 input b) header in
    (Parts-frame input h c first p, omega (arith, p.named), p.some_body)
