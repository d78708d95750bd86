-- ===== src/Monitoring/Tool/Restored.antt =====
-- What the two loops of crates/py/src/monitoring.rs change of the interpreter.
use Prim.Native.String.{String}
use trace.Prelude.{ℕ}
use trace.Monitoring.Tool.{Interpreter, Attributes, Callback, ours}
use trace.Prelude.{
  Bool, Bool-cases, List, Option, Option-cases, [], bit_or, if◌then◌else◌, inl, inr, refl, some,
  ◌&&◌, ◌==◌, ◌∙◌, ◌∷◌, ◌≡◌, ◌⊎◌,
}
use trace.Monitoring.Tool.{EventKind, register_all, unregister_all}
use trace.Prelude.{ap, arith, false, none, sym, true}
use trace.Prelude.{some-injective, subst}

hits :
    (ok : Bool) (t tool e event : ℕ)
    → (ok && (t == tool)) && (e == event) ≡ true
    → (t ≡ tool) × (e ≡ event)
hits true t tool e event h = ground arith
hits false t tool e event h = cc

module _ (I : Interpreter) (attributes : Attributes) where
  open I use {
    World, in_use, events, callback, use_tool_id, register_callback, set_events, free_tool_id,
    register_lem, use_busy, use_free, set_lem, free_lem,
  }
  open attributes use {profiler_id, has_events, makes_callbacks, value, makes}

  -- The event is one of the listed ones.
  abbrev pub Listed : List (String × EventKind) → ℕ → Type 0
  Listed [] e = ⊥
  Listed ((event_name, _) ∷ rest) e = (value event_name ≡ some e) ⊎ Listed rest e

  -- Only callbacks of the listed events of the tool may differ.
  pub record Registers (tool : ℕ) (rest : List (String × EventKind)) (w v : World) : Type 0 where
    pub used : (t : ℕ) → in_use v t ≡ in_use w t
    pub masks : (t : ℕ) → events v t ≡ events w t
    pub calls : (t e : ℕ) → (callback v t e ≡ callback w t e) ⊎ ((t ≡ tool) × Listed rest e)

  Registers-refl :
      (tool : ℕ) (rest : List (String × EventKind)) (w : World) → Registers tool rest w w
  Registers-refl tool rest w = record {
    used = λ t. refl;
    masks = λ t. refl;
    calls = λ t e. inl refl;
  }

  -- One call.
  registered_one :
      (tool event : ℕ) (event_name : String) (kind : EventKind) (rest : List (String × EventKind))
      (c : Option Callback) (w : World)
      → value event_name ≡ some event
      → Registers tool ((event_name, kind) ∷ rest) w ((register_callback tool event c w).1)
  registered_one tool event event_name kind rest c w e =
      let (used, masks, calls) = register_lem tool event c w in
      record {
        used = used;
        masks = masks;
        calls = λ t f. touched t f (register_callback tool event c w).0 (calls t f);
      }
    where
      touched :
          (t f : ℕ) (ok : Bool) {after : Option Callback}
          → after ≡ (if (ok && (t == tool)) && (f == event) then c else callback w t f)
          → (after ≡ callback w t f) ⊎ ((t ≡ tool) × Listed ((event_name, kind) ∷ rest) f)
      touched t f ok h = elim (Bool-cases ((ok && (t == tool)) && (f == event))) [
        | inl hit ↦
            let (same, there) = hits ok t tool f event hit in
            inr (same, inl (e ∙ ap some (sym there)))
        | inr miss ↦ inl (h ∙ rw miss refl)
      ]

  Registers-trans :
      (tool : ℕ) (event_name : String) (kind : EventKind) (rest : List (String × EventKind))
      (w v u : World)
      → Registers tool ((event_name, kind) ∷ rest) w v
      → Registers tool rest v u
      → Registers tool ((event_name, kind) ∷ rest) w u
  Registers-trans tool event_name kind rest w v u a b = record {
    used = λ t. b.used t ∙ a.used t;
    masks = λ t. b.masks t ∙ a.masks t;
    calls = λ t e. elim (b.calls t e) [
      | inr (same, listed) ↦ inr (same, inr listed)
      | inl kept ↦ elim (a.calls t e) [ inl before ↦ inl (kept ∙ before) | inr hit ↦ inr hit ]
    ];
  }

  pub register_all-Registers :
      (tool : ℕ) (rest : List (String × EventKind)) (mask : ℕ) (w : World)
      → Registers tool rest w ((register_all I attributes tool rest mask w).1)
  unfolding register_all
  register_all-Registers tool [] mask w = Registers-refl tool [] w
  register_all-Registers tool ((event_name, kind) ∷ rest) mask w =
      elim (Option-cases (value event_name)) [
        | inl missing ↦
            rw (register_all, missing) (Registers-refl tool ((event_name, kind) ∷ rest) w)
        | inr (event, e) ↦
            let v = (register_callback tool event (some (ours kind)) w).1 in
            let one = registered_one tool event event_name kind rest (some (ours kind)) w e in
            elim (Bool-cases (makes kind)) [
              | inr failed ↦
                  rw (register_all, e, failed) (Registers-refl tool ((event_name, kind) ∷ rest) w)
              | inl fine ↦
                  elim (Bool-cases ((register_callback tool event (some (ours kind)) w).0)) [
                    | inr raised ↦ rw (register_all, e, fine, raised) one
                    | inl ok ↦
                        rw (register_all, e, fine, ok)
                          (Registers-trans tool event_name kind rest w v _ one
                            (register_all-Registers tool rest (bit_or mask event) v))
                  ]
            ]
      ]

  -- The callbacks of the listed events are gone, and the others stay.
  pub record Unregisters (tool : ℕ) (rest : List (String × EventKind)) (w v : World) : Type 0 where
    pub used : (t : ℕ) → in_use v t ≡ in_use w t
    pub masks : (t : ℕ) → events v t ≡ events w t
    pub calls :
        (t e : ℕ) → (callback v t e ≡ callback w t e) ⊎ ((t ≡ tool) × (callback v t e ≡ none))
    pub gone : (e : ℕ) → Listed rest e → callback v tool e ≡ none

  unregistered_more :
      (tool event : ℕ) (event_name : String) (kind : EventKind) (rest : List (String × EventKind))
      (w v : World)
      → value event_name ≡ some event
      → (register_callback tool event none w).0 ≡ true
      → Unregisters tool rest ((register_callback tool event none w).1) v
      → Unregisters tool ((event_name, kind) ∷ rest) w v
  unregistered_more tool event event_name kind rest w v e fine more =
      let (used, masks, calls) = register_lem tool event none w in
      record {
        used = λ t. more.used t ∙ used t;
        masks = λ t. more.masks t ∙ masks t;
        calls = λ t f. elim (more.calls t f) [
          | inr lost ↦ inr lost
          | inl kept ↦ cleared t f (register_callback tool event none w).0 (kept ∙ calls t f)
        ];
        gone = λ f listed. elim listed [
          | inr later ↦ more.gone f later
          | inl here ↦ elim (more.calls tool f) [
            | inr (_, nothing) ↦ nothing
            | inl kept ↦
                let there : f ≡ event = some-injective _ _ (sym here ∙ e) in
                kept ∙ calls tool f ∙ rw (fine, hit_now f there) refl
          ]
        ];
      }
    where
      cleared :
          (t f : ℕ) (ok : Bool) {after : Option Callback}
          → after ≡ (if (ok && (t == tool)) && (f == event) then none else callback w t f)
          → (after ≡ callback w t f) ⊎ ((t ≡ tool) × (after ≡ none))
      cleared t f ok h = elim (Bool-cases ((ok && (t == tool)) && (f == event))) [
        | inl hit ↦ inr ((hits ok t tool f event hit).0, h ∙ rw hit refl)
        | inr miss ↦ inl (h ∙ rw miss refl)
      ]

      hit_now : (f : ℕ) → f ≡ event → ((true && (tool == tool)) && (f == event)) ≡ true
      hit_now f there = ground arith

  pub unregister_all-Unregisters :
      (tool : ℕ) (rest : List (String × EventKind)) (w v : World)
      → unregister_all I attributes tool rest w ≡ (true, v)
      → Unregisters tool rest w v
  unfolding unregister_all
  unregister_all-Unregisters tool [] w v h =
      let same : w ≡ v = ap (λ (r : Bool × World). r.1) h in
      subst (Unregisters tool [] w) same (record {
        used = λ t. refl;
        masks = λ t. refl;
        calls = λ t e. inl refl;
        gone = λ e listed. elim listed [ ];
      })
  unregister_all-Unregisters tool ((event_name, kind) ∷ rest) w v h =
      elim (Option-cases (value event_name)) [
        | inl missing ↦ absurd (let f = rw (unregister_all, missing) at h in cc)
        | inr (event, e) ↦
            let (ok, u) = register_callback tool event none w in
            elim (Bool-cases ok) [
              | inr raised ↦ absurd (let f = rw (unregister_all, e, raised) at h in cc)
              | inl fine ↦
                  unregistered_more tool event event_name kind rest w v e fine
                    (unregister_all-Unregisters tool rest u v (rw (unregister_all, e, fine) at h))
            ]
      ]
