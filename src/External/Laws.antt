-- ===== src/External/Laws.antt =====
-- What the engine relies on of the containers that it does not implement.
use pushd.Prelude.{
  ℕ, ◌+◌, ◌≡◌, Bool, true, false, ◌||◌, Option, none, some, List, [], ◌∷◌, if◌then◌else◌,
}
use pushd.Text.{Bytes, same}
use pushd.External.{Sets, Lru, ConcurrentMap}

-- how often a text stands in a list
unfoldable pub occurs : Bytes → List Bytes → ℕ
occurs u [] = 0
occurs u (v ∷ vs) = if same v u then occurs u vs + 1 else occurs u vs

-- whether a text stands in a list
abbrev pub elem : Bytes → List Bytes → Bool
elem u [] = false
elem u (v ∷ vs) = same v u || elem u vs

-- the same for peers, which may be nil
unfoldable pub same_peer : Option Bytes → Option Bytes → Bool
same_peer none none = true
same_peer (some p) (some q) = same p q
same_peer none (some q) = false
same_peer (some p) none = false

unfoldable pub occurs_peer : Option Bytes → List (Option Bytes) → ℕ
occurs_peer p [] = 0
occurs_peer p (q ∷ qs) = if same_peer q p then occurs_peer p qs + 1 else occurs_peer p qs

abbrev pub or_else {ℓ} : {A : Type ℓ} → Option A → A → A
or_else none a = a
or_else (some b) a = b

-- A set iterates over each of its elements once.
pub record SetLaws (s : Sets Bytes) : Type 0 where
  pub elements_empty : s.elements s.empty ≡ []
  pub elements_add :
      (u v : Bytes) (t : s.State)
      → occurs u (s.elements (s.add v t)) ≡ (if same v u then 1 else occurs u (s.elements t))
  pub elements_remove :
      (u v : Bytes) (t : s.State)
      → occurs u (s.elements (s.remove v t)) ≡ (if same v u then 0 else occurs u (s.elements t))

pub record PeerSetLaws (s : Sets (Option Bytes)) : Type 0 where
  pub elements_empty : s.elements s.empty ≡ []
  pub elements_add :
      (p q : Option Bytes) (t : s.State)
      → occurs_peer p (s.elements (s.add q t))
        ≡ (if same_peer q p then 1 else occurs_peer p (s.elements t))

-- A cache may drop other keys when one is added, and never the key that is added.
pub record LruLaws {V : Type 0} (l : Lru V) : Type 0 where
  pub get_value : (k : Bytes) (s : l.State) → (l.get k s).0 ≡ l.peek s k
  pub get_keeps : (k j : Bytes) (s : l.State) → l.peek (l.get k s).1 j ≡ l.peek s j
  pub add_value :
      (k : Bytes) (v : V) (s : l.State) → (l.get_or_add k v s).0 ≡ or_else (l.peek s k) v
  pub add_self :
      (k : Bytes) (v : V) (s : l.State)
      → l.peek (l.get_or_add k v s).1 k ≡ some (or_else (l.peek s k) v)
  pub add_other :
      (k j : Bytes) (v a : V) (s : l.State)
      → same k j ≡ false
      → l.peek (l.get_or_add k v s).1 j ≡ some a
      → l.peek s j ≡ some a
  pub del_value :
      (k j : Bytes) (s : l.State) → l.peek (l.del k s) j ≡ (if same k j then none else l.peek s j)

pub record MapLaws {V : Type 0} (m : ConcurrentMap V) : Type 0 where
  pub get_set :
      (k j : Bytes) (v : V) (s : m.State)
      → m.get (m.set k v s) j ≡ (if same k j then some v else m.get s j)
  pub get_remove :
      (k j : Bytes) (s : m.State) → m.get (m.remove k s) j ≡ (if same k j then none else m.get s j)
