-- ===== src/Engine/Growth.antt =====
-- What waits for the loops of a server process, whatever happens to the process.
use pushd.Prelude.{◌≡◌, List, [], ◌++◌, drop, length}
use pushd.External.{External, MsgTuple}
use pushd.External.Laws.{LruLaws, MapLaws}
use pushd.World.{World, ForwardTuple}
use pushd.Engine.Grown.{Extends, Added, Stamped}

module _ (x : External) where
  -- What waits is in its order: what was handed over, and then what still waits, is what waited at
  -- first, and then what was appended; and what was appended for the storage is stamped.
  pub record Waiting (ms : List MsgTuple) (ts : List ForwardTuple) (qs : List MsgTuple)
      (ps : List ForwardTuple) (w v : World x) : Type 0 where
    pub queued : ms ++ v.queue ≡ w.queue ++ qs
    pub passed : ts ++ v.forwarded ≡ w.forwarded ++ ps
    pub stamped : Stamped x.clock w.reads v.reads qs

  -- what the lists of two states say about an event that takes nothing from them
  record Appended (w v : World x) : Type 0 where
    queued : Added x.clock w.reads v.reads w.queue v.queue
    passed : Extends w.forwarded v.forwarded

  module _ (l : LruLaws x.rooms) (m : MapLaws x.registry) where
    -- an event that takes nothing appends to the lists, if to anything
    abbrev Appends : World x → World x → Type 0
    Appends w v =
        Waiting [] [] (drop (length w.queue) v.queue) (drop (length w.forwarded) v.forwarded) w v
