-- ===== src/Tests/Memory/Containers.antt =====
-- Sets, caches and maps in memory, with their laws.
use pushd.Prelude.{
  ◌≡◌, ◌↔◌, refl, Bool, true, false, ◌||◌, Option, none, some, List, [], ◌∷◌, arith, if◌then◌else◌,
}
use pushd.Text.{Bytes, same, same_iff, same_refl}
use pushd.External.{Sets, Lru, ConcurrentMap}
use pushd.External.Laws.{
  SetLaws, LruLaws, MapLaws, PeerSetLaws, occurs, or_else, occurs_peer, same_peer,
}

unfoldable pub drop_text : Bytes → List Bytes → List Bytes
drop_text v [] = []
drop_text v (u ∷ us) = let rest = drop_text v us in if same v u then rest else u ∷ rest

unfoldable pub dedup : List Bytes → List Bytes
unfolding drop_text
dedup [] = []
dedup (u ∷ us) = u ∷ drop_text u (dedup us)

unfoldable pub stands : Bytes → List Bytes → Bool
stands v [] = false
stands v (u ∷ us) = same v u || stands v us

unfoldable pub drop_peer : Option Bytes → List (Option Bytes) → List (Option Bytes)
unfolding same_peer
drop_peer v [] = []
drop_peer v (u ∷ us) = let rest = drop_peer v us in if same_peer v u then rest else u ∷ rest

unfoldable pub stands_peer : Option Bytes → List (Option Bytes) → Bool
unfolding same_peer
stands_peer v [] = false
stands_peer v (u ∷ us) = same_peer v u || stands_peer v us

unfoldable pub dedup_peer : List (Option Bytes) → List (Option Bytes)
unfolding drop_peer
dedup_peer [] = []
dedup_peer (u ∷ us) = u ∷ drop_peer u (dedup_peer us)

-- A set is a list with repetitions, which an iteration leaves out.
abbrev pub memory_sets : Sets Bytes
memory_sets = record {
  State = List Bytes;
  empty = [];
  add = λ v s. v ∷ s;
  remove = drop_text;
  contains = stands;
  elements = dedup;
}

abbrev pub memory_peers : Sets (Option Bytes)
memory_peers = record {
  State = List (Option Bytes);
  empty = [];
  add = λ v s. v ∷ s;
  remove = drop_peer;
  contains = stands_peer;
  elements = dedup_peer;
}

abbrev pub memory_lru : (V : Type 0) → Lru V
memory_lru V = record {
  State = Bytes → Option V;
  peek = λ s k. s k;
  get = λ k s. (s k, s);
  get_or_add = λ k v s. (or_else (s k) v, λ j. if same k j then some (or_else (s k) v) else s j);
  set = λ k v s. λ j. if same k j then some v else s j;
  del = λ k s. λ j. if same k j then none else s j;
}

abbrev pub memory_map : (V : Type 0) → ConcurrentMap V
memory_map V = record {
  State = Bytes → Option V;
  get = λ s k. s k;
  set = λ k v s. λ j. if same k j then some v else s j;
  remove = λ k s. λ j. if same k j then none else s j;
}

occurs-drop_text :
    (u v : Bytes) (s : List Bytes) → occurs u (drop_text v s) ≡ (if same v u then 0 else occurs u s)
unfolding occurs drop_text
occurs-drop_text u v [] = ground arith
occurs-drop_text u v (t ∷ s) =
    ground (arith, occurs-drop_text u v s, same_iff v t, same_iff t u, same_iff v u)

occurs-dedup_cons :
    (u v : Bytes) (s : List Bytes)
    → occurs u (dedup (v ∷ s)) ≡ (if same v u then 1 else occurs u (dedup s))
unfolding occurs dedup
occurs-dedup_cons u v s = ground (arith, occurs-drop_text u v (dedup s))

occurs-dedup-drop_text :
    (u v : Bytes) (s : List Bytes)
    → occurs u (dedup (drop_text v s)) ≡ (if same v u then 0 else occurs u (dedup s))
unfolding occurs drop_text
occurs-dedup-drop_text u v [] = unfold dedup in ground arith
occurs-dedup-drop_text u v (t ∷ s) = ground (
  arith,
  occurs-dedup-drop_text u v s,
  occurs-dedup_cons u t s,
  occurs-dedup_cons u t (drop_text v s),
  same_iff v t,
  same_iff t u,
  same_iff v u,
)

same_peer_iff : (p q : Option Bytes) → (same_peer p q ≡ true) ↔ (p ≡ q)
unfolding same_peer
same_peer_iff none none = ground arith
same_peer_iff none (some q) = ground arith
same_peer_iff (some p) none = ground arith
same_peer_iff (some p) (some q) = ground (arith, same_iff p q)

occurs_peer-drop_peer :
    (u v : Option Bytes) (s : List (Option Bytes))
    → occurs_peer u (drop_peer v s) ≡ (if same_peer v u then 0 else occurs_peer u s)
unfolding occurs_peer drop_peer
occurs_peer-drop_peer u v [] = ground arith
occurs_peer-drop_peer u v (t ∷ s) =
    ground
      (arith, occurs_peer-drop_peer u v s, same_peer_iff v t, same_peer_iff t u, same_peer_iff v u)

pub memory_peers-laws : PeerSetLaws memory_peers
unfolding dedup_peer
memory_peers-laws = record {
  elements_empty = refl;
  elements_add =
      λ u v t. unfold occurs_peer in ground (arith, occurs_peer-drop_peer u v (dedup_peer t));
}

pub memory_sets-laws : SetLaws memory_sets
unfolding dedup
memory_sets-laws = record {
  elements_empty = refl;
  elements_add = λ u v t. occurs-dedup_cons u v t;
  elements_remove = λ u v t. occurs-dedup-drop_text u v t;
}

pub memory_lru-laws : (V : Type 0) → LruLaws (memory_lru V)
memory_lru-laws V = record {
  get_value = λ k s. refl;
  get_keeps = λ k j s. refl;
  add_value = λ k v s. refl;
  add_self = λ k v s. rw same_refl;
  add_other = λ k j v a s e h. rw e at h;
  del_value = λ k j s. refl;
}

pub memory_map-laws : (V : Type 0) → MapLaws (memory_map V)
memory_map-laws V = record { get_set = λ k j v s. refl; get_remove = λ k j s. refl }
