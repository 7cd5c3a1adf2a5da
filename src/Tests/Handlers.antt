-- ===== src/Tests/Handlers.antt =====
-- Handlers at a concrete process.
use pushd.Prelude.{◌≡◌, false, ◌&&◌, [], ◌∷◌, arith, if◌then◌else◌, pos}
use pushd.Text.{codes, same, words}
use pushd.Text.Number.{dec_int}
use pushd.World.{◌>>◌}
use pushd.Pubsub.{publish}
use pushd.Process.Messages.{send_msg, stamped}
use pushd.Process.Messages.Sending.{send_msg-words, stored}
use pushd.Tests.Memory.{here, office}

send_msg-words_example :
    send_msg here 0
      (words (codes "N" ∷ codes "room" ∷ dec_int (pos 7) ∷ codes "hi you" ∷ []))
      office
    ≡ (if same (codes "N") (codes "Y") && stored here 0 office (codes "room") (pos 7)
        then stamped here (pos 7) office
        else (publish here (codes "room") (codes "hi you") (codes "ann") (pos 7) false
              >> stamped here (pos 7))
            office)
send_msg-words_example =
    send_msg-words here 0 office (codes "N") (codes "room") (codes "hi you") (pos 7) (omega arith)
      (omega arith) (omega arith)
