-- ===== src/Process/Messages/Sending.antt =====
-- What the case of `sendmsg` does with the parameters that a client builds.
use pushd.Prelude.{
  ℕ, ◌≡◌, inl, inr, refl, ap, ◌∙◌, Bool, true, false, ◌&&◌, [], ◌∷◌, if◌then◌else◌, Bool-cases, ℤ,
}
use pushd.Text.{Bytes, codes, same, split_n, words, space, Lacks}
use pushd.Text.Split.{cut-append}
use pushd.Text.Number.{dec_int, Fits, int64_limit, parse_int-dec_int, dec_int-Lacks}
use pushd.External.{External, Result, ok, err}
use pushd.World.{Run, World, get_client, query, ◌>>◌}
use pushd.Pubsub.{publish}
use pushd.Process.Replies.{Reply}
use pushd.Process.Messages.{send_msg, send_params, send_parsed, stamped}

split_four :
    (a b c d : Bytes)
    → Lacks space a
    → Lacks space b
    → Lacks space c
    → split_n (words (a ∷ b ∷ c ∷ d ∷ [])) 4 ≡ a ∷ b ∷ c ∷ d ∷ []
unfolding split_n
split_four a b c d h k j =
    cut-append space 2 a (words (b ∷ c ∷ d ∷ [])) h
    ∙ ap (λ r. a ∷ r)
        (cut-append space 1 b (words (c ∷ d ∷ [])) k ∙ ap (λ r. b ∷ r) (cut-append space 0 c d j))

abbrev pub is_ok : Result (Unit {0}) → Bool
is_ok (ok _) = true
is_ok (err _) = false

module _ (x : External) (c : ℕ) (w : World x) where
  -- whether the database holds a message of the client
  abbrev pub stored : Bytes → ℤ → Bool
  stored channel msg_id = is_ok (x.mongo.find_msg channel (w.clients c).uuid msg_id w.db)

  resend :
      (found : Result (Unit {0})) (again fresh : Run x Reply)
      → (elim found as (λ r. Run x Reply) [ ok _ ↦ again | err _ ↦ fresh ]) w
        ≡ (if is_ok found then again w else fresh w)
  resend (ok _) again fresh = refl
  resend (err _) again fresh = refl

  -- A message whose parameters are a flag, a channel, a 64-bit number and any text, with spaces
  -- between, is published, in the client's name and with the number that was sent; only when the
  -- flag says that it is sent again, and the database holds it, nothing is published. Either way
  -- the reply repeats the number.
  pub send_msg-words :
      (flag channel msg : Bytes) (msg_id : ℤ)
      → Lacks space flag
      → Lacks space channel
      → Fits int64_limit msg_id
      → send_msg x c (words (flag ∷ channel ∷ dec_int msg_id ∷ msg ∷ [])) w ≡ (
          if same flag (codes "Y") && stored channel msg_id
          then stamped x msg_id w
          else (publish x channel msg (w.clients c).uuid msg_id false >> stamped x msg_id) w)
  unfolding send_msg send_params send_parsed get_client query
  send_msg-words flag channel msg msg_id h k f =
      rw
        (
          split_four flag channel (dec_int msg_id) msg h k (dec_int-Lacks msg_id),
          parse_int-dec_int int64_limit msg_id f,
        )
        (elim (Bool-cases (same flag (codes "Y"))) [
          | inl e ↦ rw e (resend (x.mongo.find_msg channel (w.clients c).uuid msg_id w.db) _ _)
          | inr e ↦ rw e refl
        ])
