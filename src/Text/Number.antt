-- ===== src/Text/Number.antt =====
-- `%d` and `strconv.ParseInt`: decimal text, written and read.
use pushd.Prelude.{
  ℕ, zero, suc, ◌+◌, ◌-◌, ◌*◌, ◌/◌, ◌%◌, ◌^◌, ◌≤◌, ◌<◌, ◌≡◌, inl, inr, refl, Bool, true, false,
  ◌||◌, Option, none, some, [], ◌∷◌, arith, ltb, ◌==◌, if◌then◌else◌, Bool-cases, ℤ, pos, negsuc,
}
use pushd.Text.{Bytes, codes, Lacks, space}

-- Base-10 digits before `out`, with at most as many rounds as the first argument.
digits : ℕ → ℕ → Bytes → Bytes
digits zero n out = out
digits (suc f) n out =
    let rest = digits f (n / 10) ((b'0' + n % 10) ∷ out) in if n == 0 then out else rest

-- `fmt.Sprintf("%d", n)` for a number that is not negative.
unfoldable pub dec : ℕ → Bytes
unfolding digits
dec n = if n == 0 then b'0' ∷ [] else digits n n []

unfoldable pub dec_int : ℤ → Bytes
unfolding dec
dec_int (pos n) = dec n
dec_int (negsuc n) = b'-' ∷ dec (n + 1)

-- The value of decimal digits behind `n`; `none` on any other byte.
scan : Bytes → ℕ → Option ℕ
scan [] n = some n
scan (c ∷ s) n = if ltb c b'0' || ltb b'9' c then none else scan s (n * 10 + (c - b'0'))

-- Unsigned digits, at least one.
magnitude : Bytes → Option ℕ
unfolding scan
magnitude [] = none
magnitude (c ∷ s) = scan (c ∷ s) 0

abbrev in_range : Bool → ℕ → ℕ → Option ℤ
in_range false limit n = if ltb n limit then some (pos n) else none
in_range true limit zero = some (pos 0)
in_range true limit (suc n) = if ltb n limit then some (negsuc n) else none

abbrev signed : Bool → ℕ → Option ℕ → Option ℤ
signed negative limit none = none
signed negative limit (some n) = in_range negative limit n

-- `strconv.ParseInt(s, 10, w)` with `limit` for 2^(w-1): a sign or none, digits, and the range of a
-- w-bit integer; `none` stands for its error.
unfoldable pub parse_int : ℕ → Bytes → Option ℤ
unfolding magnitude
parse_int limit [] = none
parse_int limit (c ∷ s) =
    if c == b'-'
    then signed true limit (magnitude s)
    else if c == b'+'
    then signed false limit (magnitude s)
    else signed false limit (magnitude (c ∷ s))

abbrev pub int64_limit : ℕ
int64_limit = 2 ^ 63

-- `strconv.ParseInt(s, 10, 64)`, and `strconv.Atoi`, whose `int` has 64 bits.
abbrev pub parse_int64 : Bytes → Option ℤ
parse_int64 = parse_int int64_limit

abbrev pub parse_int32 : Bytes → Option ℤ
parse_int32 = parse_int (2 ^ 31)

scan-digits : (f n : ℕ) (out : Bytes) → n ≤ f → scan (digits f n out) 0 ≡ scan out n
unfolding scan digits
scan-digits zero n out h = ground arith
scan-digits (suc f) n out h = ground (arith, scan-digits f (n / 10) ((b'0' + n % 10) ∷ out))

-- The first byte of a printed number is a digit.
abbrev StartsWithDigit : Bytes → Type 0
StartsWithDigit [] = ⊥
StartsWithDigit (c ∷ s) = (b'0' ≤ c) × (c ≤ b'9')

digits-StartsWithDigit :
    (f n : ℕ) (out : Bytes) → StartsWithDigit out → StartsWithDigit (digits f n out)
unfolding digits
digits-StartsWithDigit zero n out h = h
digits-StartsWithDigit (suc f) n out h = elim (Bool-cases (n == 0)) [
  | inl e ↦ rw e h
  | inr e ↦ rw e (digits-StartsWithDigit f (n / 10) _ (omega arith, omega arith))
]

dec-StartsWithDigit : (n : ℕ) → StartsWithDigit (dec n)
unfolding dec digits
dec-StartsWithDigit zero = (omega arith, omega arith)
dec-StartsWithDigit (suc n) =
    let e : (suc n == 0) ≡ false = ground arith in
    rw e (digits-StartsWithDigit n (suc n / 10) _ (omega arith, omega arith))

scan-dec : (n : ℕ) → scan (dec n) 0 ≡ some n
unfolding dec scan
scan-dec n = elim (Bool-cases (n == 0)) [
  | inl e ↦ ground arith
  | inr e ↦ ground (arith, scan-digits n n [])
]

parse-digits :
    (limit n : ℕ) (s : Bytes)
    → StartsWithDigit s
    → scan s 0 ≡ some n
    → n < limit
    → parse_int limit s ≡ some (pos n)
unfolding parse_int
parse-digits limit n [] h e lt = elim h [ ]
parse-digits limit n (c ∷ s) h e lt = ground arith

-- A number that fits is read back from its decimal print.
pub parse_int-dec : (limit n : ℕ) → n < limit → parse_int limit (dec n) ≡ some (pos n)
parse_int-dec limit n lt = parse-digits limit n (dec n) (dec-StartsWithDigit n) (scan-dec n) lt

magnitude-dec : (n : ℕ) → magnitude (dec n) ≡ some n
magnitude-dec n = go (dec n) (dec-StartsWithDigit n) (scan-dec n)
  where
    go : (s : Bytes) → StartsWithDigit s → scan s 0 ≡ some n → magnitude s ≡ some n
    go [] h e = elim h [ ]
    go (c ∷ s) h e = unfold magnitude in e

abbrev pub Fits : ℕ → ℤ → Type 0
Fits limit (pos n) = n < limit
Fits limit (negsuc n) = n < limit

-- So is a signed number.
pub parse_int-dec_int : (limit : ℕ) (z : ℤ) → Fits limit z → parse_int limit (dec_int z) ≡ some z
unfolding dec_int
parse_int-dec_int limit (pos n) h = parse_int-dec limit n h
parse_int-dec_int limit (negsuc n) h = unfold parse_int in rw (magnitude-dec (n + 1)) (ground arith)

-- Without digits there is no number.
pub parse_int_of_empty : (limit : ℕ) → parse_int limit [] ≡ none
unfolding parse_int
parse_int_of_empty limit = refl

parse_examples :
    (parse_int64 (codes "-42") ≡ some (negsuc 41))
    × (parse_int64 (codes "4 2") ≡ none)
    × (parse_int64 (codes "9223372036854775808") ≡ none)
    × (dec 1200 ≡ codes "1200")
unfolding parse_int dec
parse_examples = (refl, refl, refl, refl)

digits-Lacks : (f n : ℕ) (out : Bytes) → Lacks space out → Lacks space (digits f n out)
unfolding digits
digits-Lacks zero n out h = h
digits-Lacks (suc f) n out h = elim (Bool-cases (n == 0)) [
  | inl e ↦ rw e h
  | inr e ↦ rw e (digits-Lacks f (n / 10) _ (omega arith, h))
]

-- A printed number holds no space.
pub dec-Lacks : (n : ℕ) → Lacks space (dec n)
unfolding dec
dec-Lacks n = elim (Bool-cases (n == 0)) [
  | inl e ↦ rw e (omega arith, tt)
  | inr e ↦ rw e (digits-Lacks n n [] tt)
]

pub dec_int-Lacks : (z : ℤ) → Lacks space (dec_int z)
unfolding dec_int
dec_int-Lacks (pos n) = dec-Lacks n
dec_int-Lacks (negsuc n) = (omega arith, dec-Lacks (n + 1))
