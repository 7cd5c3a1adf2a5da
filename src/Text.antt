-- ===== src/Text.antt =====
-- Go strings as lists of bytes, and the parts of `strings` that the engine calls: equality, `Split`,
-- `SplitN`, `Join`.
pub mod Split
pub mod Number
use Prim.Native.Char.{code}
use Prim.Native.String.{String}
use pushd.Prelude.{
  ℕ, zero, suc, ◌≡◌, ◌≢◌, ◌↔◌, refl, ap, Bool, true, false, ◌&&◌, List, [], ◌∷◌, ◌++◌, arith, ◌==◌,
  ==_iff, length, All,
}

abbrev pub Bytes : Type 0
Bytes = List ℕ

-- The bytes of an ASCII literal.
abbrev pub codes : String → Bytes
codes String.[] = []
codes (String.◌∷◌ c s) = code c ∷ codes s

-- `a == b` on strings
unfoldable pub same : Bytes → Bytes → Bool
same [] [] = true
same [] (b ∷ bs) = false
same (a ∷ as') [] = false
same (a ∷ as') (b ∷ bs) = a == b && same as' bs

pub same_iff : (a b : Bytes) → (same a b ≡ true) ↔ (a ≡ b)
unfolding same
same_iff [] [] = ground arith
same_iff [] (b ∷ bs) = ground arith
same_iff (a ∷ as') [] = ground arith
same_iff (a ∷ as') (b ∷ bs) = ground (arith, same_iff as' bs)

pub same_refl : (a : Bytes) → same a a ≡ true
same_refl a = (same_iff a a).1 refl

abbrev pub space : ℕ
space = 32

-- No byte of the text is the separator.
abbrev pub Lacks : ℕ → Bytes → Type 0
Lacks b = All (λ c. c ≢ b)

-- Puts a byte before the first part.
abbrev pub onto_first : ℕ → List Bytes → List Bytes
onto_first c [] = (c ∷ []) ∷ []
onto_first c (p ∷ ps) = (c ∷ p) ∷ ps

-- Cuts at the separator, at most `k` times.
unfoldable pub cut : ℕ → ℕ → Bytes → List Bytes
cut sep zero s = s ∷ []
cut sep (suc k) [] = [] ∷ []
cut sep (suc k) (c ∷ s) = elim (c == sep) [
  | true ↦ [] ∷ cut sep k s
  | false ↦ onto_first c (cut sep (suc k) s)
]

-- `strings.SplitN(s, " ", n)`; every call has a positive literal for `n`.
unfoldable pub split_n : Bytes → ℕ → List Bytes
unfolding cut
split_n s zero = []
split_n s (suc k) = cut space k s

-- `strings.Split(s, sep)`: a text has fewer parts than bytes, and one more.
unfoldable pub split_at : ℕ → Bytes → List Bytes
unfolding cut
split_at sep s = cut sep (length s) s

abbrev pub split : Bytes → List Bytes
split = split_at space

-- `strings.Join(parts, sep)`
unfoldable pub join : Bytes → List Bytes → Bytes
join sep [] = []
join sep (p ∷ []) = p
join sep (p ∷ q ∷ ps) = p ++ (sep ++ join sep (q ∷ ps))

-- The operands of a format string that puts single spaces between them.
abbrev pub words : List Bytes → Bytes
words [] = []
words (p ∷ []) = p
words (p ∷ q ∷ ps) = p ++ (space ∷ words (q ∷ ps))

split_three :
    split_n (codes "N room 7 hello you") 4
    ≡ codes "N" ∷ codes "room" ∷ codes "7" ∷ codes "hello you" ∷ []
unfolding split_n
split_three = refl

split_all : split (codes "a  b") ≡ codes "a" ∷ [] ∷ codes "b" ∷ []
unfolding split_at
split_all = refl
