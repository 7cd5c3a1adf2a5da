-- ===== src/Engine/Cases.antt =====
-- What holds of the state after an event, by the cases of the event.
use pushd.Prelude.{
  ℕ, zero, suc, ◌≡◌, refl, ap, subst, Bool, true, false, Option, none, some, List, [], ◌∷◌, arith,
  if◌then◌else◌, ℤ, pos, negsuc,
}
use pushd.Text.{Bytes, codes}
use pushd.Text.Number.{parse_int64}
use pushd.External.{External, MsgTuple}
use pushd.External.Laws.{or_else}
use pushd.World.{World, set_client, ForwardTuple, ◌>>◌, pure}
use pushd.Client.{new_client}
use pushd.Peer.{wait_msg, wait_on, set_forwarded}
use pushd.Process.Replies.{maybe}
use pushd.Polling.{
  Cache, Hijack, hijacked, hijack_failed, not_supported, history, next_ts, var, answered, wrote,
  poll_head, serve_subscribe, poll_loop, open_poll, poll_rest, poll_at,
}

module _ (x : External) (P : World x → Type 0) where
  pub next : (u v : World x) → P u → some u ≡ some v → P v
  next u v h p = subst P (ap (λ o. or_else o u) p) h

  pub guarded :
      (b : Bool) (u v : World x) → (b ≡ false → P u) → (if b then none else some u) ≡ some v → P v
  guarded true u v h p = absurd (ground (arith, p))
  guarded false u v h p = next u v (h refl) p

  pub allowed :
      (b : Bool) (u v : World x) → (b ≡ true → P u) → (if b then some u else none) ≡ some v → P v
  allowed true u v h p = next u v (h refl) p
  allowed false u v h p = absurd (ground (arith, p))

  waited :
      (w : World x) (ts : List ForwardTuple)
      → w.forwarded ≡ ts
      → P w
      → ((t : ForwardTuple) (us : List ForwardTuple)
          → w.forwarded ≡ t ∷ us
          → P (record w { forwarded = us }))
      → P (wait_on x ts w).1
  unfolding wait_on set_forwarded
  waited w [] e h k = h
  waited w (t ∷ ts) e h k = k t ts e

  -- the proxy's loop takes a tuple or waits
  pub wait_msg-or :
      (w : World x)
      → P w
      → ((t : ForwardTuple) (us : List ForwardTuple)
          → w.forwarded ≡ t ∷ us
          → P (record w { forwarded = us }))
      → P (wait_msg x w).1
  unfolding wait_msg
  wait_msg-or w h k = waited w w.forwarded refl h k

  module _ (cache : Cache) (c reads : ℕ) (w : World x) where
    -- a poll that waits has a client, and closes it
    abbrev pub polled : World x
    polled =
        ((poll_loop x cache c reads >> pure (wrote poll_head)) (set_client x c new_client w).1).1

    module _ (h : P w) (k : P polled) where
      poll_rest-or :
          (channel : Bytes) (ms : List MsgTuple) → P (poll_rest x cache c reads channel ms w).1
      unfolding poll_rest open_poll set_client
      poll_rest-or channel [] = k
      poll_rest-or channel (n ∷ ms) = h

      poll_at-or :
          (hi : Hijack) (channel : Bytes) (ts : ℤ) → P (poll_at x cache c reads hi channel ts w).1
      unfolding poll_at
      poll_at-or not_supported channel ts = h
      poll_at-or (hijack_failed t) channel ts = h
      poll_at-or hijacked channel (pos zero) = poll_rest-or channel []
      poll_at-or hijacked channel (pos (suc n)) =
          poll_rest-or channel (history cache channel (next_ts (pos (suc n))))
      poll_at-or hijacked channel (negsuc n) =
          poll_rest-or channel (history cache channel (next_ts (negsuc n)))

      timed-or :
          (hi : Hijack) (channel : Bytes) (ts : Option ℤ)
          → P
              (maybe ts
                (pure (answered (codes "invalid timestamp")))
                (poll_at x cache c reads hi channel)
                w).1
      timed-or hi channel none = h
      timed-or hi channel (some t) = poll_at-or hi channel t

      -- a poll is answered, or waits
      pub serve_subscribe-or :
          (hi : Hijack) (vars : List (Bytes × Bytes))
          → P (serve_subscribe x cache c reads hi vars w).1
      unfolding serve_subscribe
      serve_subscribe-or hi vars =
          timed-or hi (var (codes "channel") vars) (parse_int64 (var (codes "ts") vars))
