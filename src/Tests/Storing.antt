-- ===== src/Tests/Storing.antt =====
-- The storage loop at a concrete run.
use pushd.Prelude.{refl, none, some, [], ◌∷◌, pos}
use pushd.Text.{codes}
use pushd.External.{MsgTuple}
use pushd.Config.{every_second}
use pushd.Storage.{
  Storage, Move, Reached, init, step, enqueue_msg, receive_msg, settle_msg, tick_flush, drain_one,
  insert_records,
}
use pushd.Storage.{Later}
use pushd.Storage.Progress.{Later-handed}
use pushd.Prelude.{arith, ◌≡◌}
use pushd.Storage.Order.{Sound, Reached-Sound}
use pushd.Tests.Memory.{memory, office}

abbrev hello : MsgTuple
hello = record {
  channel = codes "room";
  msg = codes "hello";
  ts = 1;
  uuid = codes "ann";
  msg_id = pos 1;
}

abbrev bye : MsgTuple
bye = record {
  channel = codes "room";
  msg = codes "bye";
  ts = 2;
  uuid = codes "bob";
  msg_id = pos 2;
}

-- the second message is buffered while the first is being flushed
abbrev busy : Storage memory
busy = record {
  queue = [];
  held = none;
  buffer = bye ∷ [];
  flush = some (0, hello ∷ []);
  handed = [];
  db = office.db;
}

busy_run : Reached memory every_second 10 10 office.db (hello ∷ bye ∷ []) busy
unfolding init step enqueue_msg receive_msg settle_msg tick_flush drain_one insert_records
busy_run =
    Reached.by Move.settle
      (Reached.by Move.drain
        (Reached.by Move.receive
          (Reached.by Move.tick
            (Reached.by Move.settle
              (Reached.by Move.receive
                (Reached.by (Move.enqueue bye) (Reached.by (Move.enqueue hello) Reached.start refl)
                  refl)
                refl)
              refl)
            refl)
          refl)
        refl)
      refl

Reached-Sound_example : Sound memory every_second 10 10 (hello ∷ bye ∷ []) busy
Reached-Sound_example =
    Reached-Sound memory every_second 10 10 office.db (hello ∷ bye ∷ []) busy busy_run

Later-handed_example :
    (s : Storage memory) × Later memory every_second 10 10 busy s × (s.handed ≡ hello ∷ bye ∷ [])
Later-handed_example =
    Later-handed memory every_second 10 10 office.db (hello ∷ bye ∷ []) busy busy_run (omega arith)
