-- ===== src/Engine/Kept.antt =====
-- What holds of every state of a process, and the actions that keep it.
use pushd.Prelude.{
  ℕ, ◌<◌, ◌≡◌, Bool, true, false, Option, none, some, List, [], ◌∷◌, if◌then◌else◌, All, Outcome,
  done, panic,
}
use pushd.Text.{Bytes, same}
use pushd.External.{External, DbError, Result, ok, err, not_found, last_error, other}
use pushd.World.{World, Run, Client, pure, crash, continue, ◌>>=◌, ◌>>◌, or_crash, for_each}
use pushd.Process.Replies.{maybe}
use pushd.Engine.Grown.{Grew, Grew-refl, Grew-trans}

module _ (x : External) where
  -- Of the cached rooms, the users who are online, and the clients that are to be set up: every
  -- cached address was allocated, and is that of one room; nobody is online under the empty text;
  -- and a client that is to be set up has a name.
  pub record SoundAt (rooms : x.rooms.State) (next : ℕ) (online : x.registry.State)
      (spawned : List ℕ) (clients : ℕ → Client) : Type 0 where
    pub allocated : (k : Bytes) (r : ℕ) → x.rooms.peek rooms k ≡ some r → r < next
    pub distinct :
        (j k : Bytes) (r : ℕ)
        → x.rooms.peek rooms j ≡ some r
        → x.rooms.peek rooms k ≡ some r
        → same j k ≡ true
    pub unnamed : x.registry.get online [] ≡ none
    pub named : All (λ c. same (clients c).uuid [] ≡ false) spawned

  abbrev pub Sound : World x → Type 0
  Sound w = SoundAt w.rooms w.next_collection w.online w.spawned w.clients

  -- An action that leaves a sound state sound, and only adds to what grows, also where it panics.
  pub record Kept {A : Type 0} (m : Run x A) : Type 0 where
    pub sound : (w : World x) → Sound w → Sound (m w).1
    pub grew : (w : World x) → Grew x w (m w).1

  pub pure-Kept : {A : Type 0} (a : A) → Kept (pure a)
  pure-Kept a = record { sound = λ w h. h; grew = λ w. Grew-refl x w }

  pub crash-Kept : {A : Type 0} → Kept (crash {A = A})
  crash-Kept = record { sound = λ w h. h; grew = λ w. Grew-refl x w }

  continue-Sound :
      {A B : Type 0} (o : Outcome A) (f : A → Run x B) (v : World x)
      → Sound v
      → ((a : A) → Kept (f a))
      → Sound (continue o f v).1
  continue-Sound (done a) f v h k = (k a).sound v h
  continue-Sound panic f v h k = h

  continue-Grew :
      {A B : Type 0} (o : Outcome A) (f : A → Run x B) (u v : World x)
      → Grew x u v
      → ((a : A) → Kept (f a))
      → Grew x u (continue o f v).1
  continue-Grew (done a) f u v g k = Grew-trans x u v (f a v).1 g ((k a).grew v)
  continue-Grew panic f u v g k = g

  pub >>=-Kept :
      {A B : Type 0} (m : Run x A) (f : A → Run x B)
      → Kept m
      → ((a : A) → Kept (f a))
      → Kept (m >>= f)
  >>=-Kept m f k g = record {
    sound = λ w h. continue-Sound (m w).0 f (m w).1 (k.sound w h) g;
    grew = λ w. continue-Grew (m w).0 f w (m w).1 (k.grew w) g;
  }

  pub >>-Kept : {A B : Type 0} (m : Run x A) (n : Run x B) → Kept m → Kept n → Kept (m >> n)
  >>-Kept m n k l = >>=-Kept m (λ a. n) k (λ a. l)

  pub if-Kept :
      {A : Type 0} (b : Bool) (m n : Run x A) → Kept m → Kept n → Kept (if b then m else n)
  if-Kept true m n k l = k
  if-Kept false m n k l = l

  -- what follows, by the cases of what was returned
  pub option-Kept :
      {A B : Type 0} (m : Run x (Option A)) (f : Option A → Run x B)
      → Kept m
      → Kept (f none)
      → ((a : A) → Kept (f (some a)))
      → Kept (m >>= f)
  option-Kept {A = A} m f k n s = >>=-Kept m f k cases
    where
      cases : (o : Option A) → Kept (f o)
      cases none = n
      cases (some a) = s a

  pub result-Kept :
      {A B : Type 0} (m : Run x (Result A)) (f : Result A → Run x B)
      → Kept m
      → Kept (f (err not_found))
      → ((t : Bytes) → Kept (f (err (last_error t))))
      → ((t : Bytes) → Kept (f (err (other t))))
      → ((a : A) → Kept (f (ok a)))
      → Kept (m >>= f)
  result-Kept {A = A} m f k n e o s = >>=-Kept m f k cases
    where
      cases : (r : Result A) → Kept (f r)
      cases (err not_found) = n
      cases (err (last_error t)) = e t
      cases (err (other t)) = o t
      cases (ok a) = s a

  pub found-Kept :
      {A B : Type 0} (m : Run x (Result (Option A))) (f : Result (Option A) → Run x B)
      → Kept m
      → Kept (f (err not_found))
      → ((t : Bytes) → Kept (f (err (last_error t))))
      → ((t : Bytes) → Kept (f (err (other t))))
      → Kept (f (ok none))
      → ((a : A) → Kept (f (ok (some a))))
      → Kept (m >>= f)
  found-Kept {A = A} m f k n e o z s = result-Kept m f k n e o cases
    where
      cases : (r : Option A) → Kept (f (ok r))
      cases none = z
      cases (some a) = s a

  pub error-Kept :
      {B : Type 0} (m : Run x (Option DbError)) (f : Option DbError → Run x B)
      → Kept m
      → Kept (f none)
      → Kept (f (some not_found))
      → ((t : Bytes) → Kept (f (some (last_error t))))
      → ((t : Bytes) → Kept (f (some (other t))))
      → Kept (m >>= f)
  error-Kept m f k z n e o = >>=-Kept m f k cases
    where
      cases : (r : Option DbError) → Kept (f r)
      cases none = z
      cases (some not_found) = n
      cases (some (last_error t)) = e t
      cases (some (other t)) = o t

  pub pair-Kept :
      {A B C : Type 0} (m : Run x (Option A × B)) (f : Option A × B → Run x C)
      → Kept m
      → ((b : B) → Kept (f (none, b)))
      → ((a : A) (b : B) → Kept (f (some a, b)))
      → Kept (m >>= f)
  pair-Kept {A = A} {B = B} m f k n s = >>=-Kept m f k cases
    where
      cases : (p : Option A × B) → Kept (f p)
      cases (none, b) = n b
      cases (some a, b) = s a b

  pub maybe-Kept :
      {A B : Type 0} (o : Option A) (n : Run x B) (f : A → Run x B)
      → Kept n
      → ((a : A) → Kept (f a))
      → Kept (maybe o n f)
  maybe-Kept none n f k g = k
  maybe-Kept (some a) n f k g = g a

  pub for_each-Kept :
      {A : Type 0} (body : A → Run x (Unit {0}))
      → ((a : A) → Kept (body a))
      → (as' : List A) → Kept (for_each body as')
  unfolding for_each
  for_each-Kept body k [] = pure-Kept tt
  for_each-Kept body k (a ∷ as') =
      >>-Kept (body a) (for_each body as') (k a) (for_each-Kept body k as')

  pub or_crash-Kept : {A : Type 0} (o : Option A) → Kept (or_crash o)
  or_crash-Kept none = crash-Kept
  or_crash-Kept (some a) = pure-Kept a
