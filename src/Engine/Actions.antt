-- ===== src/Engine/Actions.antt =====
-- The actions on a process that every handler is made of: each keeps a state sound and only adds.
use pushd.Prelude.{
  ℕ, ◌≡◌, inl, inr, refl, true, false, List, [], ◌∷◌, arith, ◌==◌, if◌then◌else◌, Bool-cases, All,
}
use pushd.Text.{Bytes, same}
use pushd.External.{External, Write}
use pushd.World.{
  World, Client, dead, gets, now_nanos, now_secs, draw, write, query, get_client, send,
}
use pushd.Engine.Grown.{Grew, Grew-refl, Grew-read}
use pushd.Registry.{get_online}
use pushd.Client.{on_client}
use pushd.Engine.Kept.{
  Sound, Kept, pure-Kept, crash-Kept, >>=-Kept, >>-Kept, if-Kept, option-Kept, result-Kept,
  found-Kept, error-Kept, pair-Kept, maybe-Kept, for_each-Kept, or_crash-Kept,
}

module _ (x : External) where
  pub now_nanos-Kept : Kept x (now_nanos x)
  unfolding now_nanos
  now_nanos-Kept = record { sound = λ w h. h; grew = λ w. Grew-read x w }

  pub now_secs-Kept : Kept x (now_secs x)
  unfolding now_secs
  now_secs-Kept = record { sound = λ w h. h; grew = λ w. Grew-read x w }

  pub draw-Kept : (f : ℕ → Bytes) → Kept x (draw x f)
  unfolding draw
  draw-Kept f = record {
    sound = λ w h. h;
    grew = λ w.
        let g = Grew-refl x w in
        record {
          queued = g.queued;
          passed = g.passed;
          wrote = g.wrote;
          drawn = omega arith;
          closed = g.closed;
          dead = g.dead;
        };
  }

  pub write-Kept : (q : Write) → Kept x (write x q)
  unfolding write
  write-Kept q = record { sound = λ w h. h; grew = λ w. Grew-refl x w }

  pub query-Kept : {A : Type 0} (f : x.mongo.Db → A) → Kept x (query x f)
  unfolding query
  query-Kept f = record { sound = λ w h. h; grew = λ w. Grew-refl x w }

  pub get_client-Kept : (c : ℕ) → Kept x (get_client x c)
  unfolding get_client
  get_client-Kept c = record { sound = λ w h. h; grew = λ w. Grew-refl x w }

  pub send-Kept : (c : ℕ) (op msg : Bytes) → Kept x (send x c op msg)
  unfolding send
  send-Kept c op msg = record {
    sound = λ w h. h;
    grew = λ w.
        let g = Grew-refl x w in
        record {
          queued = g.queued;
          passed = g.passed;
          wrote = (record { client = c; op = op; msg = msg } ∷ [], refl);
          drawn = g.drawn;
          closed = g.closed;
          dead = g.dead;
        };
  }

  pub get_online-Kept : (uuid : Bytes) → Kept x (get_online x uuid)
  unfolding get_online
  get_online-Kept uuid = record { sound = λ w h. h; grew = λ w. Grew-refl x w }

  pub gets-Kept : {A : Type 0} (f : World x → A) → Kept x (gets f)
  gets-Kept f = record { sound = λ w h. h; grew = λ w. Grew-refl x w }

  -- clients keep their names where one is changed that keeps its own
  pub on_client-named :
      (c : ℕ) (f : Client → Client)
      → ((cl : Client) → (f cl).uuid ≡ cl.uuid)
      → (clients : ℕ → Client) (cs : List ℕ) → All (λ d. same (clients d).uuid [] ≡ false) cs
      → All (λ d. same ((if d == c then f (clients d) else clients d).uuid) [] ≡ false) cs
  on_client-named c f e clients [] h = tt
  on_client-named c f e clients (d ∷ cs) h = (
    elim (Bool-cases (d == c)) [ inl q ↦ rw (q, e (clients d)) h.0 | inr q ↦ rw q h.0 ],
    on_client-named c f e clients cs h.1,
  )

  pub on_client-Grew :
      (c : ℕ) (f : Client → Client)
      → ((cl : Client) → cl.closed ≡ true → (f cl).closed ≡ true)
      → ((cl : Client) → cl.state ≡ dead → (f cl).state ≡ dead)
      → (w : World x) → Grew x w (on_client x c f w).1
  unfolding on_client
  on_client-Grew c f k b w =
      let g = Grew-refl x w in
      record {
        queued = g.queued;
        passed = g.passed;
        wrote = g.wrote;
        drawn = g.drawn;
        closed = λ d p. ground (arith, k (w.clients d), p);
        dead = λ d p. ground (arith, b (w.clients d), p);
      }

  -- what only changes clients, and no client's name, and brings none back
  pub on_client-Kept :
      (c : ℕ) (f : Client → Client)
      → ((cl : Client) → (f cl).uuid ≡ cl.uuid)
      → ((cl : Client) → cl.closed ≡ true → (f cl).closed ≡ true)
      → ((cl : Client) → cl.state ≡ dead → (f cl).state ≡ dead)
      → Kept x (on_client x c f)
  unfolding on_client
  on_client-Kept c f e k g = record {
    grew = on_client-Grew c f k g;
    sound = λ w h. record {
      allocated = h.allocated;
      distinct = h.distinct;
      unnamed = h.unnamed;
      named = on_client-named c f e w.clients w.spawned h.named;
    };
  }

pub ruleset steps = (
  found-Kept, error-Kept, result-Kept, option-Kept, pair-Kept, >>=-Kept, if-Kept, pure-Kept,
  crash-Kept, or_crash-Kept, for_each-Kept, now_nanos-Kept, now_secs-Kept, draw-Kept, write-Kept,
  query-Kept, get_client-Kept, send-Kept, get_online-Kept, gets-Kept, on_client-Kept, maybe-Kept,
)
