-- ===== src/Im/Order.antt =====
-- `sort.Strings`: texts in the order of their bytes.
use pushd.Prelude.{Bool, true, false, ◌&&◌, ◌||◌, List, [], ◌∷◌, ltb, ◌==◌, if◌then◌else◌}
use pushd.Text.{Bytes}

-- `a <= b` on strings
unfoldable pub le_bytes : Bytes → Bytes → Bool
le_bytes [] b = true
le_bytes (a ∷ as') [] = false
le_bytes (a ∷ as') (b ∷ bs) = ltb a b || (a == b && le_bytes as' bs)

unfoldable pub insert_sorted : Bytes → List Bytes → List Bytes
insert_sorted a [] = a ∷ []
insert_sorted a (b ∷ bs) = if le_bytes a b then a ∷ b ∷ bs else b ∷ insert_sorted a bs

unfoldable pub sort_strings : List Bytes → List Bytes
unfolding insert_sorted le_bytes
sort_strings [] = []
sort_strings (a ∷ as') = insert_sorted a (sort_strings as')
