-- ===== src/Tests/Polls.antt =====
-- Polling over HTTP at a concrete process.
use pushd.Prelude.{ℕ, ℤ, false, arith, ◌≡◌, refl, some, List, [], ◌∷◌, pos, done}
use pushd.Text.{Bytes, codes, same}
use pushd.Text.Number.{parse_int, parse_int64}
use pushd.Polling.{
  Cache, var, serve_publish, serve_subscribe, hijacked, open_poll, wrote, poll_head,
}
use pushd.Polling.Silence.{serve_publish-pub_route, serve_subscribe-silent, sent_to, Unregistered}
use pushd.Pubsub.{publish}
use pushd.Tests.Memory.{here, office, office-NamesUsers, memory_lru-laws}

abbrev ten : Cache
ten = record { max_size = pos 10 }

abbrev pub_vars : List (Bytes × Bytes)
pub_vars = (codes "channel", codes "room") ∷ (codes "msg", codes "hi") ∷ []

abbrev sub_vars : List (Bytes × Bytes)
sub_vars = (codes "channel", codes "room") ∷ (codes "ts", codes "5") ∷ []

serve_publish-pub_route_example : serve_publish here ten pub_vars office ≡ (done [], office)
serve_publish-pub_route_example = serve_publish-pub_route here ten office pub_vars refl

five : parse_int64 (var (codes "ts") sub_vars) ≡ some (pos 5)
unfolding parse_int var same
five = refl

-- ann and bob have the addresses 0 and 1
two_is_free : Unregistered here ten office 2
unfolding same
two_is_free u d e = ground (arith, e)

serve_subscribe-silent_example :
    (let r = serve_subscribe here ten 2 3 hijacked sub_vars office in
      let waiting = (open_poll here ten 2 (var (codes "channel") sub_vars) office).1 in
      (r.0 ≡ done (wrote poll_head))
      × (r.1.online ≡ office.online)
      × (r.1.db ≡ office.db)
      × (r.1.sent ≡ office.sent)
      × ((room msg user_id : Bytes) (msg_id : ℤ)
          → sent_to 2 (publish here room msg user_id msg_id false waiting).1.sent
            ≡ sent_to 2 office.sent))
serve_subscribe-silent_example =
    serve_subscribe-silent here ten office (memory_lru-laws ℕ) 2 3 sub_vars (pos 5) five
      office-NamesUsers two_is_free
