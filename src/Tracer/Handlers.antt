-- ===== src/Tracer/Handlers.antt =====
-- Signal handlers of crates/py/src/tracer.rs, before, during and after a run.
use trace.Tracer.{
  Signals, Rules, installed, take_over, take_over_deadly_signals, hand_back, hand_back_from,
  hand_back_deadly_signals,
}
use trace.Prelude.{
  All, Bool, Bool-cases, List, [], any, arith, false, inl, inr, not, retain, true, ℕ, ◌++◌, ◌==◌,
  ◌||◌, ◌∷◌, ◌≡◌, ◌≢◌, ◌⊎◌,
}
use trace.Prelude.{All-append, if◌then◌else◌, refl, subst, ◌&&◌}
use trace.Prelude.{Option, ap, none, some, sym}

abbrev Listed : ℕ → List (ℕ × ℕ) → Type 0
Listed n replaced = any (λ e. e.0 == n) replaced ≡ true

-- Every handler is what it was, or ours with an entry in the list; the entries have what was there.
pub record Saved (ours : ℕ) (before : ℕ → ℕ) (s : Signals) : Type 0 where
  pub entries : All (λ (e : ℕ × ℕ). e.1 ≡ before e.0) s.replaced
  pub each : (n : ℕ) → (s.handler n ≡ before n) ⊎ ((s.handler n ≡ ours) × Listed n s.replaced)

All-retain :
    {A : Type 0} (P : A → Type 0) (keeps : A → Bool) (xs : List A)
    → All P xs
    → All P (retain keeps xs)
All-retain P keeps [] h = tt
All-retain P keeps (x ∷ xs) h = elim (Bool-cases (keeps x)) [
  | inl kept ↦ rw kept (h.0, All-retain P keeps xs (h.1))
  | inr dropped ↦ rw dropped (All-retain P keeps xs (h.1))
]

Listed-last : (n p : ℕ) (replaced : List (ℕ × ℕ)) → Listed n (replaced ++ (n, p) ∷ [])
Listed-last n p [] = ground arith
Listed-last n p ((k, q) ∷ replaced) = ground (arith, Listed-last n p replaced)

Listed-retain :
    (n number p : ℕ) (replaced : List (ℕ × ℕ))
    → (n == number) ≡ false
    → Listed n replaced
    → Listed n (retain (λ e. not (e.0 == number)) replaced ++ (number, p) ∷ [])
Listed-retain n number p [] apart h = cc
Listed-retain n number p ((k, q) ∷ replaced) apart h =
    ground (arith, Listed-retain n number p replaced)

module _ (rules : Rules) (ours : ℕ) (before : ℕ → ℕ) (theirs : (n : ℕ) → before n ≢ ours) where
  take_over-Saved :
      (number : ℕ) (s : Signals)
      → Saved ours before s
      → Saved ours before (take_over rules ours number s)
  unfolding take_over
  take_over-Saved number s h =
      elim (Bool-cases (
        not (rules.reads number) || s.handler number == ours || not (rules.installs number ours))) [
          | inl stays ↦ rw stays h
          | inr goes ↦ rw goes (record {
            entries =
                All-append _ (retain _ s.replaced) _ (All-retain _ _ s.replaced h.entries)
                  (theirs_lem goes, tt);
            each = λ n. taken n (Bool-cases (n == number)) (h.each n);
          })
        ]
    where
      refused : Bool
      refused =
          not (rules.reads number) || s.handler number == ours || not (rules.installs number ours)

      theirs_lem : refused ≡ false → s.handler number ≡ before number
      theirs_lem goes = elim (h.each number) [
        | inl same ↦ same
        | inr (mine, _) ↦ absurd (ground (arith, mine, goes))
      ]

      taken :
          (n : ℕ)
          → ((n == number) ≡ true) ⊎ ((n == number) ≡ false)
          → (s.handler n ≡ before n) ⊎ ((s.handler n ≡ ours) × Listed n s.replaced)
          → (installed number ours s.handler n ≡ before n)
            ⊎ ((installed number ours s.handler n ≡ ours)
                × Listed n (
                    retain (λ e. not (e.0 == number)) s.replaced
                    ++ (number, s.handler number) ∷ []))
      taken n (inl same) h =
          let e : number ≡ n = ground arith in
          inr (
            rw same refl,
            subst
                (λ k.
                  Listed k (
                    retain (λ e. not (e.0 == number)) s.replaced
                    ++ (number, s.handler number) ∷ []))
                e (Listed-last number _ _),
          )
      taken n (inr apart) (inl same) = inl (rw apart same)
      taken n (inr apart) (inr (mine, listed)) =
          inr (rw apart mine, Listed-retain n number _ s.replaced apart listed)

  given_back :
      (number previous : ℕ) (replaced : List (ℕ × ℕ)) (handlers : ℕ → ℕ) (n : ℕ)
      → rules.reads number ≡ true
      → rules.installs number (before number) ≡ true
      → previous ≡ before number
      → (handlers n ≡ before n) ⊎ ((handlers n ≡ ours) × Listed n ((number, previous) ∷ replaced))
      → let after = hand_back rules ours number previous handlers in
        (after n ≡ before n) ⊎ ((after n ≡ ours) × Listed n replaced)
  unfolding hand_back
  given_back number previous replaced handlers n reads installs e h =
      rw (e, reads, installs) (go (Bool-cases (handlers number == ours)) (Bool-cases (n == number)))
    where
      shorter :
          (n == number) ≡ false
          → (handlers n ≡ before n)
            ⊎ ((handlers n ≡ ours) × Listed n ((number, previous) ∷ replaced))
          → (handlers n ≡ before n) ⊎ ((handlers n ≡ ours) × Listed n replaced)
      shorter apart (inl kept) = inl kept
      shorter apart (inr (o, listed)) = inr (o, ground (arith, listed, apart))

      After : Bool → Type 0
      After b =
          let after = if b && true then installed number (before number) handlers else handlers in
          (after n ≡ before n) ⊎ ((after n ≡ ours) × Listed n replaced)

      go :
          ((handlers number == ours) ≡ true) ⊎ ((handlers number == ours) ≡ false)
          → ((n == number) ≡ true) ⊎ ((n == number) ≡ false)
          → After (handlers number == ours)
      go (inl mine) (inl same) =
          let q : n ≡ number = ground arith in rw (mine, same) (inl (ap before (sym q)))
      go (inl mine) (inr apart) = rw (mine, apart) (shorter apart h)
      go (inr not_mine) (inl same) =
          let q : n ≡ number = ground arith in
          rw not_mine (elim h [
            | inl kept ↦ inl kept
            | inr (o, _) ↦ absurd (ground (arith, ap handlers q, o, not_mine))
          ])
      go (inr not_mine) (inr apart) = rw not_mine (shorter apart h)

  hand_back_from-Saved :
      ((n : ℕ) → rules.reads n ≡ true)
      → ((n : ℕ) → rules.installs n (before n) ≡ true)
      → (replaced : List (ℕ × ℕ)) (handlers : ℕ → ℕ)
      → Saved ours before (record { handler = handlers; replaced = replaced })
      → (n : ℕ) → hand_back_from rules ours replaced handlers n ≡ before n
  unfolding hand_back_from hand_back
  hand_back_from-Saved reads installs [] handlers h n = elim (h.each n) [
    | inl same ↦ same
    | inr (_, listed) ↦ cc
  ]
  hand_back_from-Saved reads installs ((number, previous) ∷ replaced) handlers h n =
      hand_back_from-Saved reads installs replaced (hand_back rules ours number previous handlers)
        (record {
          entries = h.entries.1;
          each = λ k.
              given_back number previous replaced handlers k (reads number) (installs number)
                h.entries.0 (h.each k);
        })
        n

  taken_over-Saved :
      (names : List (Option ℕ)) (s : Signals)
      → Saved ours before s
      → Saved ours before (take_over_deadly_signals rules ours names s)
  unfolding take_over_deadly_signals
  taken_over-Saved [] s h = h
  taken_over-Saved (none ∷ names) s h = taken_over-Saved names s h
  taken_over-Saved (some number ∷ names) s h =
      taken_over-Saved names (take_over rules ours number s) (take_over-Saved number s h)

-- No handler is the tracer's own before the run, and each can be read and installed. Then taking over
-- signals, any number of times and with names that the platform does not have among them, and handing
-- them back leaves every handler as it was, and no entry behind.
pub hand_back-take_over :
    (rules : Rules) (ours : ℕ) (names : List (Option ℕ)) (handlers : ℕ → ℕ)
    → ((n : ℕ) → handlers n ≢ ours)
    → ((n : ℕ) → rules.reads n ≡ true)
    → ((n : ℕ) → rules.installs n (handlers n) ≡ true)
    → let s =
        take_over_deadly_signals rules ours names (record { handler = handlers; replaced = [] }) in
      let end = hand_back_deadly_signals rules ours s in
      ((n : ℕ) → end.handler n ≡ handlers n) × (end.replaced ≡ [])
unfolding hand_back_deadly_signals
hand_back-take_over rules ours names handlers theirs reads installs =
    let s =
      take_over_deadly_signals rules ours names (record { handler = handlers; replaced = [] }) in
    let saved =
      taken_over-Saved rules ours handlers theirs names _
        (record { entries = tt; each = λ n. inl refl }) in
    (
      hand_back_from-Saved rules ours handlers theirs reads installs s.replaced s.handler saved,
      refl,
    )
