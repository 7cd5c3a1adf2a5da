-- ===== src/Wire/Words.antt =====
-- Big-endian 32-bit words (`encoding/binary`) and slice expressions.
use pushd.Prelude.{
  ℕ, ◌+◌, ◌-◌, ◌*◌, ◌/◌, ◌%◌, ◌^◌, ◌<◌, ◌≡◌, ◌&&◌, [], ◌∷◌, arith, ltb, leb, if◌then◌else◌, length,
  take, drop, ℤ, pos, negsuc, Outcome, done, panic,
}
use pushd.Text.{Bytes}

-- the integer that an int32's bit pattern stands for
abbrev pub signed32 : ℕ → ℤ
signed32 w = if ltb w (2 ^ 31) then pos w else negsuc (2 ^ 32 - w - 1)

-- `binary.Read(buf, binary.BigEndian, &n)` for an int32; too few bytes leave it zero
unfoldable pub read_int32 : Bytes → ℤ
read_int32 (a ∷ b ∷ c ∷ d ∷ s) = signed32 (((a * 256 + b) * 256 + c) * 256 + d)
read_int32 _ = pos 0

-- `input[lo:hi]`
unfoldable pub slice : Bytes → ℕ → ℕ → Outcome Bytes
slice input lo hi =
    if leb lo hi && leb hi (length input) then done (take (hi - lo) (drop lo input)) else panic

-- The four bytes of a word, the highest first.
unfoldable pub put_int32 : ℕ → Bytes
put_int32 n = (n / 2 ^ 24 % 256) ∷ (n / 2 ^ 16 % 256) ∷ (n / 2 ^ 8 % 256) ∷ (n % 256) ∷ []

pub read_int32-put_int32 : (n : ℕ) → n < 2 ^ 31 → read_int32 (put_int32 n) ≡ pos n
unfolding read_int32 put_int32
read_int32-put_int32 n h = ground arith
