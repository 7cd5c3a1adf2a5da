-- ===== src/Tests/Publishing.antt =====
-- Publishing and relaying at a concrete process.
use pushd.Prelude.{ℕ, ◌≡◌, refl, false, if◌then◌else◌, panic, none, [], ◌∷◌, ◌++◌, arith, done}
use pushd.Text.{codes, words, same}
use pushd.Names.{output_rciv, s2s_push_string_message}
use pushd.Wire.{frame}
use pushd.Pubsub.Delivery.{copies, recipients, members_of}
use pushd.S2s.{on_read_peer}
use pushd.S2s.Relay.{on_read_peer-string, unlisted}
use pushd.Tests.Memory.{office-NamesUsers, here, office, memory_lru-laws, dedup}

bob_alone :
    recipients here office.clients office.online
      (codes "ann")
      (members_of here (codes "room") office)
    ≡ 1 ∷ []
unfolding recipients members_of same dedup
bob_alone = refl

on_read_peer-string_example :
    (let r =
        on_read_peer here
          (frame s2s_push_string_message (words (codes "room" ∷ codes "hi" ∷ [])))
          (codes "10.0.0.2:99")
          office in
      (r.0 ≡ (if unlisted here (codes "room") office then panic else done none))
      × (r.1.sent
          ≡ []
            ++ (if unlisted here (codes "room") office
                then []
                else copies here output_rciv (codes "hi") (
                    recipients here office.clients office.online []
                      (members_of here (codes "room") office))))
      × (r.1.forwarded ≡ [])
      × (r.1.queue ≡ []))
on_read_peer-string_example =
    on_read_peer-string here (memory_lru-laws ℕ) (codes "room") (codes "hi") (codes "10.0.0.2:99")
      office (omega arith) (omega arith) office-NamesUsers

-- the room has a document there
room_listed : unlisted here (codes "room") office ≡ false
unfolding same
room_listed = refl
