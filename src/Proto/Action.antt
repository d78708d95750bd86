-- ===== src/Proto/Action.antt =====
-- Code of crates/proto/src/lib.rs that changes an exporter and may fail: by an `io::Error`, or by a
-- panic.
use trace.Prelude.{Option, none, some}
use trace.Prelude.{inl, inr, refl, ◌≡◌, ◌⊎◌}
use trace.Prelude.{ap}

pub data Outcome (A : Type 0) : Type 0 where
  done : A → Outcome A
  failed : Outcome A
  panicked : Outcome A

abbrev pub Action : Type 0 → Type 0 → Type 0
Action X A = X → Outcome A × X

module _ {X A : Type 0} where
  abbrev pub pure : A → Action X A
  pure a x = (done a, x)

  abbrev pub gets : (X → A) → Action X A
  gets f x = (done (f x), x)

  -- `unwrap`, `expect` and indexing.
  abbrev pub or_panic : Option A → Action X A
  or_panic none x = (panicked, x)
  or_panic (some a) x = (done a, x)

abbrev pub modify : {X : Type 0} → (X → X) → Action X (Unit {0})
modify f x = (done tt, f x)

infixl 5 ◌>>=◌ ◌>>◌
unfoldable pub ◌>>=◌ : {X A B : Type 0} → Action X A → (A → Action X B) → Action X B
◌>>=◌ m f x =
    let (r, y) = m x in elim r [ done a ↦ f a y | failed ↦ (failed, y) | panicked ↦ (panicked, y) ]

abbrev pub ◌>>◌ : {X B : Type 0} → Action X (Unit {0}) → Action X B → Action X B
m >> k = m >>= λ _. k

-- What holds behind an action: nothing of a failure, and a panic is ruled out.
unfoldable pub After : {X A : Type 0} → (A → X → Type 0) → Outcome A × X → Type 0
After Q (done a, x) = Q a x
After Q (failed, x) = Unit {0}
After Q (panicked, x) = ⊥

-- From a state with `P` an action does not panic, and leaves `Q` where it is done.
abbrev pub Ensures : {X A : Type 0} → (X → Type 0) → Action X A → (A → X → Type 0) → Type 0
Ensures {X} P m Q = (x : X) → P x → After Q (m x)

pub >>=-Ensures :
    {X A B : Type 0} (P : X → Type 0) (m : Action X A) (f : A → Action X B) (Q : A → X → Type 0)
    (S : B → X → Type 0)
    → Ensures P m Q
    → ((a : A) → Ensures (Q a) (f a) S)
    → Ensures P (m >>= f) S
unfolding After ◌>>=◌
>>=-Ensures {X} {A} P m f Q S first next x h = go (m x) (first x h)
  where
    go :
        (r : Outcome A × X)
        → After Q r
        → After S
            (elim r.0 [ done a ↦ f a r.1 | failed ↦ (failed, r.1) | panicked ↦ (panicked, r.1) ])
    go (done a, y) h = next a y h
    go (failed, y) h = tt
    go (panicked, y) h = h

-- A weaker end.
pub After-map :
    {X A : Type 0} (Q S : A → X → Type 0) (r : Outcome A × X)
    → ((a : A) (x : X) → Q a x → S a x)
    → After Q r
    → After S r
unfolding After
After-map Q S (done a, x) f h = f a x h
After-map Q S (failed, x) f h = tt
After-map Q S (panicked, x) f h = h

-- How an action that does not panic ends.
pub After-cases :
    {X A : Type 0} (Q : A → X → Type 0) (r : Outcome A × X)
    → After Q r
    → ((a : A) × (x : X) × (r ≡ (done a, x)) × Q a x) ⊎ ((x : X) × (r ≡ (failed, x)))
unfolding After
After-cases Q (done a, x) h = inl (a, x, refl, h)
After-cases Q (failed, x) h = inr (x, refl)
After-cases Q (panicked, x) h = absurd h

-- The same at one state.
pub >>=-After :
    {X A B : Type 0} (m : Action X A) (f : A → Action X B) (x : X) (Q : A → X → Type 0)
    (S : B → X → Type 0)
    → After Q (m x)
    → ((a : A) (y : X) → Q a y → After S (f a y))
    → After S ((m >>= f) x)
>>=-After m f x Q S first next = >>=-Ensures (λ y. After Q (m y)) m f Q S (λ y h. h) next x first

-- A value that is there does not panic.
pub or_panic-After :
    {X A : Type 0} (o : Option A) (a : A) (x : X) (P : A → X → Type 0)
    → o ≡ some a
    → P a x
    → After P (or_panic o x)
unfolding After
or_panic-After o a x P e h = rw e h

pub modify-After :
    {X : Type 0} (f : X → X) (x : X) (P : Unit {0} → X → Type 0) → P tt (f x) → After P (modify f x)
unfolding After
modify-After f x P h = h

pub pure-After : {X A : Type 0} (a : A) (x : X) (P : A → X → Type 0) → P a x → After P (pure a x)
unfolding After
pure-After a x P h = h

pub gets-After :
    {X A : Type 0} (f : X → A) (x : X) (P : A → X → Type 0) → P (f x) x → After P (gets f x)
unfolding After
gets-After f x P h = h

-- What an action that succeeds hands on.
pub >>=-done :
    {X A B : Type 0} (m : Action X A) (f : A → Action X B) (x : X) (a : A) (y : X)
    → m x ≡ (done a, y)
    → (m >>= f) x ≡ f a y
unfolding ◌>>=◌
>>=-done {X} {A} m f x a y e =
    ap
      (λ (r : Outcome A × X). elim r.0 [
        | done b ↦ f b r.1
        | failed ↦ (failed, r.1)
        | panicked ↦ (panicked, r.1)
      ])
      e

pub or_panic-some :
    {X A : Type 0} (o : Option A) (a : A) (x : X) → o ≡ some a → or_panic o x ≡ (done a, x)
or_panic-some o a x e = rw e refl
