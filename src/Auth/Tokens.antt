-- ===== src/Auth/Tokens.antt =====
-- What the check of a client's token (engine/acl.go, engine/auth.go) says and leaves.
use pushd.Prelude.{
  ℕ, ◌+◌, ◌/◌, ◌≡◌, inl, inr, refl, Bool, true, false, ◌&&◌, not, none, some, [], arith, ltb,
  if◌then◌else◌, ==_refl, Bool-cases, done, Option, ◌∷◌, ◌++◌, ◌∙◌,
}
use pushd.Text.{Bytes, codes, same, split_n, space, Lacks, cut}
use pushd.Text.Split.{cut_whole, cut-append}
use pushd.Wire.{Cmdline}
use pushd.External.{External}
use pushd.World.{World, Client, write, now_secs, get_client}
use pushd.Client.{is_client, clear_identity, update_token_expire, on_client}
use pushd.Auth.{among, check_client_token, token_check, token_free, token_of, rest_of}

-- the token that a client was given, and the one that it sends
abbrev pub matches : Client → Bytes → Bool
matches cl token = not (same cl.token []) && same cl.token token

-- the parameters: a token, with nothing behind it, or a space and the rest
abbrev pub behind : Bytes → Option Bytes → Bytes
behind token after = elim after [ none ↦ token | some rest ↦ token ++ space ∷ rest ]

-- a token alone stays where it is
abbrev pub taken_off : Bytes → Option Bytes → Bytes
taken_off token after = elim after [ none ↦ token | some rest ↦ rest ]

-- What `strings.SplitN` makes of parameters that begin with a token.
split_behind :
    (token : Bytes) (after : Option Bytes)
    → Lacks space token
    → (token_of (split_n (behind token after) 2) ≡ token)
      × (rest_of (behind token after) (split_n (behind token after) 2) ≡ taken_off token after)
unfolding split_n rest_of cut token_of
split_behind token none h = rw (cut_whole space 1 token h) (refl, refl)
split_behind token (some rest) h = rw (cut-append space 0 token rest h) (refl, refl)

module _ (x : External) (c : ℕ) (token : Bytes) (w : World x) where
  -- Until the clock passes 36000000000 seconds, over a thousand years, a token is never expired:
  -- the check accepts exactly the token that the client was given, and then renews it.
  check_client_token_lem :
      ltb 36000000000 (x.clock w.reads / 1000000000) ≡ false
      → (check_client_token x c token w).0
        ≡ done (if matches (w.clients c) token then none else some (codes "Token Illegal"))
  unfolding check_client_token write now_secs on_client
  check_client_token_lem h = ground (arith, h)

  -- An accepted token is renewed at the second reading of the clock; else the client is as it was.
  check_client_token-client :
      ltb 36000000000 (x.clock w.reads / 1000000000) ≡ false
      → (check_client_token x c token w).1.clients c ≡ (
          if matches (w.clients c) token
          then update_token_expire (x.clock (w.reads + 1) / 1000000000) (w.clients c)
          else w.clients c)
  unfolding check_client_token write now_secs on_client
  check_client_token-client h = ground (arith, h)

module _ (x : External) (c : ℕ) (cl : Cmdline) (w : World x) where
  token_check_lem :
      ltb 36000000000 (x.clock w.reads / 1000000000) ≡ false
      → is_client (w.clients c) ≡ true
      → among cl.cmd token_free ≡ false
      → ((token_check x c cl w).0
          ≡ done (
            (if matches (w.clients c) (token_of (split_n cl.params 2))
                then none
                else some (codes "Token Illegal")),
            record cl { params = rest_of cl.params (split_n cl.params 2) },
          ))
        × ((token_check x c cl w).1.clients c ≡ (
            if matches (w.clients c) (token_of (split_n cl.params 2))
            then update_token_expire (x.clock (w.reads + 1) / 1000000000) (w.clients c)
            else clear_identity (w.clients c)))
  unfolding token_check get_client on_client
  token_check_lem h k e =
      let token = token_of (split_n cl.params 2) in
      rw (e, k)
        (elim (Bool-cases (matches (w.clients c) token)) [
          | inl g ↦
              rw (check_client_token_lem x c token w h, g)
                (refl, rw (check_client_token-client x c token w h, g) refl)
          | inr g ↦
              rw (check_client_token_lem x c token w h, g)
                (refl, rw (==_refl, check_client_token-client x c token w h, g) refl)
        ])

module _ (x : External) (c : ℕ) (token : Bytes) (after : Option Bytes) (cl : Cmdline) where
  -- The token check of an authenticated client, while the clock has not passed 36000000000 seconds,
  -- which is over a thousand years: no token is expired. The parameters are a token without a
  -- space, alone or in front of a space and the rest. The command is let through exactly when the
  -- client was given a token, which is not empty, and this is the one; it is renewed then. Otherwise
  -- the client loses its identity. Either way the command goes on with the rest, but with the token
  -- itself when it is alone. The commands that need no token are left out.
  pub token_check-client :
      (w : World x)
      → Lacks space token
      → cl.params ≡ behind token after
      → ltb 36000000000 (x.clock w.reads / 1000000000) ≡ false
      → is_client (w.clients c) ≡ true
      → among cl.cmd token_free ≡ false
      → ((token_check x c cl w).0
          ≡ done (
            (if matches (w.clients c) token then none else some (codes "Token Illegal")),
            record cl { params = taken_off token after },
          ))
        × ((token_check x c cl w).1.clients c ≡ (
            if matches (w.clients c) token
            then update_token_expire (x.clock (w.reads + 1) / 1000000000) (w.clients c)
            else clear_identity (w.clients c)))
  token_check-client w l p h k e =
      let s = split_behind token after l in
      let t : token_of (split_n cl.params 2) ≡ token = rw p s.0 in
      let q : rest_of cl.params (split_n cl.params 2) ≡ taken_off token after = rw p s.1 in
      let r = token_check_lem x c cl w h k e in (r.0 ∙ rw (t, q) refl, r.1 ∙ rw t refl)
