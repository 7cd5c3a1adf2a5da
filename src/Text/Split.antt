-- ===== src/Text/Split.antt =====
-- What cutting a text at a separator returns.
use pushd.Prelude.{ℕ, zero, suc, ◌≡◌, ◌≢◌, refl, [], ◌∷◌, ◌++◌, arith}
use pushd.Text.{Bytes, Lacks, cut, onto_first}

cut_at_sep : (sep k : ℕ) (s : Bytes) → cut sep (suc k) (sep ∷ s) ≡ [] ∷ cut sep k s
unfolding cut
cut_at_sep sep k s = ground arith

cut_keep :
    (sep k c : ℕ) (s : Bytes) → c ≢ sep → cut sep (suc k) (c ∷ s) ≡ onto_first c (cut sep (suc k) s)
unfolding cut
cut_keep sep k c s h = ground arith

-- A first part without the separator is cut off whole.
pub cut-append :
    (sep k : ℕ) (p rest : Bytes)
    → Lacks sep p
    → cut sep (suc k) (p ++ sep ∷ rest) ≡ p ∷ cut sep k rest
cut-append sep k [] rest h = cut_at_sep sep k rest
cut-append sep k (c ∷ p) rest h = rw (cut_keep sep k c _ h.0, cut-append sep k p rest h.1)

pub cut-ne-nil : (sep k : ℕ) (s : Bytes) → cut sep k s ≢ []
unfolding cut
cut-ne-nil sep zero s = ground arith
cut-ne-nil sep (suc k) [] = ground arith
cut-ne-nil sep (suc k) (c ∷ s) = ground (arith, cut-ne-nil sep (suc k) s)

-- A text without the separator is its only part.
pub cut_whole : (sep k : ℕ) (s : Bytes) → Lacks sep s → cut sep k s ≡ s ∷ []
unfolding cut
cut_whole sep zero s h = refl
cut_whole sep (suc k) [] h = refl
cut_whole sep (suc k) (c ∷ s) h = ground (arith, cut_whole sep (suc k) s h.1)
