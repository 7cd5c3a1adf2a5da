-- ===== src/Polling.antt =====
-- Long polling over HTTP (engine/server_http_polling.go, engine/history.go, engine/storage/cache.go).
-- The server and the router of HTTP are left out: a handler takes the variables of its route, and
-- `ServeSubscribe` takes what `Hijack` returned and how many reads succeed before one fails.
pub mod Silence
use pushd.Prelude.{
  ℕ, zero, suc, ◌+◌, ◌-◌, ◌*◌, ◌/◌, ◌%◌, ◌^◌, ◌≤◌, ◌<◌, ◌≡◌, ◌≢◌, ◌↔◌, ◌⊎◌, inl, inr, refl, sym, ap,
  ◌∙◌, subst, Bool, true, false, ◌&&◌, ◌||◌, not, Option, none, some, List, [], ◌∷◌, ◌++◌, map,
  append-nil, append_assoc, arith, ltb, leb, ◌==◌, if◌then◌else◌, ==_iff, ==_refl, Bool-cases,
  Option-cases, length, get_elem?, get_elem?_of_lt, take, drop, replicate, length-append,
  take-append, drop-append, All, All-append, ℤ, pos, negsuc, Outcome, done, panic,
}
use pushd.Text.{Bytes, codes, same}
use pushd.Text.Number.{parse_int64}
use pushd.External.{External, MsgTuple}
use pushd.World.{Run, World, Client, pure, ◌>>=◌, ◌>>◌, set_client, modify}
use pushd.Pubsub.{publish, subscribe}
use pushd.Client.{new_client, close}
use pushd.Process.Replies.{maybe}

-- `Cache`: what it stores and looks up is commented out
pub record Cache : Type 0 where
  pub max_size : ℤ

unfoldable pub store_msg : MsgTuple → Cache → Cache
store_msg mt c = c

unfoldable pub get_range : Bytes → ℤ → Cache → List MsgTuple
get_range channel ts c = []

-- `history`
unfoldable pub history : Cache → Bytes → ℤ → List MsgTuple
unfolding get_range
history cache channel ts = get_range channel ts cache

-- the names in braces of the route of `ServePublish` that `Launch` registers
abbrev pub pub_route : List Bytes
pub_route = codes "channel" ∷ codes "msg" ∷ []

-- `vars[name]`: the empty text where the name is not there
unfoldable pub var : Bytes → List (Bytes × Bytes) → Bytes
var name [] = []
var name ((n, v) ∷ vs) = if same n name then v else var name vs

-- what `Hijack` came to
pub data Hijack : Type 0 where
  not_supported hijacked : Hijack
  hijack_failed : Bytes → Hijack

-- `int64(ts)+1`
unfoldable pub next_ts : ℤ → ℤ
next_ts (pos n) = if n + 1 == 2 ^ 63 then negsuc (2 ^ 63 - 1) else pos (n + 1)
next_ts (negsuc zero) = pos 0
next_ts (negsuc (suc n)) = negsuc n

-- What a poll was answered: a text, an error of the server, or what was written to its connection.
pub data Polled : Type 0 where
  answered failed : Bytes → Polled
  wrote : List Bytes → Polled

abbrev pub poll_head : List Bytes
poll_head =
    (codes "HTTP/1.1 200 OK" ++ 13 ∷ 10 ∷ [])
    ∷ (codes "Access-Control-Allow-Origin: *" ++ 13 ∷ 10 ∷ [])
    ∷ (13 ∷ 10 ∷ [])
    ∷ []

module _ (x : External) (cache : Cache) where
  -- `ServePublish`: the text that is written
  unfoldable pub serve_publish : List (Bytes × Bytes) → Run x Bytes
  unfolding var
  serve_publish vars = maybe (parse_int64 (var (codes "msgid") vars)) (pure []) λ msg_id. do
    publish x (var (codes "channel") vars) (var (codes "msg") vars) [] msg_id false
    pure []

  -- `ServeHistory`; `history` has no error
  unfoldable pub serve_history : List (Bytes × Bytes) → Run x Bytes
  unfolding var history
  serve_history vars =
      maybe (parse_int64 (var (codes "ts") vars)) (pure (codes "invalid timestamp"))
        λ ts. pure (x.codec.msgs_json (some (history cache (var (codes "channel") vars) ts)))

  -- the loop of reads, and `Close` at the first error, whatever it is
  unfoldable pub poll_loop : ℕ → ℕ → Run x (Unit {0})
  poll_loop c zero = close x c
  poll_loop c (suc n) = poll_loop c n

  -- the subscription of a new client, before its connection is read
  unfoldable pub open_poll : ℕ → Bytes → Run x (Unit {0})
  open_poll c channel = do set_client x c new_client; subscribe x c channel

  -- the messages that are already there, or the subscription of a new client
  unfoldable pub poll_rest : ℕ → ℕ → Bytes → List MsgTuple → Run x Polled
  unfolding poll_loop open_poll
  poll_rest c reads channel [] = do open_poll c channel; poll_loop c reads; pure (wrote poll_head)
  poll_rest c reads channel (m ∷ ms) = pure (wrote (poll_head ++ x.codec.polled_json (m ∷ ms) ∷ []))

  unfoldable pub poll_at : ℕ → ℕ → Hijack → Bytes → ℤ → Run x Polled
  unfolding poll_rest history next_ts
  poll_at c reads not_supported channel ts =
      pure (failed (codes "webserver doesn't support hijacking"))
  poll_at c reads (hijack_failed e) channel ts = pure (failed e)
  poll_at c reads hijacked channel (pos zero) = poll_rest c reads channel []
  poll_at c reads hijacked channel ts =
      poll_rest c reads channel (history cache channel (next_ts ts))

  -- `ServeSubscribe`, whose client stands at the address `c`
  unfoldable pub serve_subscribe : ℕ → ℕ → Hijack → List (Bytes × Bytes) → Run x Polled
  unfolding var poll_at
  serve_subscribe c reads hijack vars =
      maybe (parse_int64 (var (codes "ts") vars)) (pure (answered (codes "invalid timestamp")))
        (poll_at c reads hijack (var (codes "channel") vars))
