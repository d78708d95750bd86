-- ===== src/Monitoring/Tool/Roundtrip.antt =====
-- `enable` and then `disable` of crates/py/src/monitoring.rs.

use trace.Prelude.{ℕ}
use trace.Monitoring.Tool.{Interpreter, Attributes, MonitoringHandle, pairs, enable}
use trace.Prelude.{
  Bool-cases, Option, Option-cases, ap, inl, inr, none, set, some, sym, true, ◌&&◌, ◌≡◌,
}
use trace.Monitoring.Tool.{enable_tool, disable, register_all, unregister_all}
use trace.Monitoring.Tool.Restored.{Registers, register_all-Registers, Unregisters}
use trace.Prelude.{Bool, false, some-injective, subst}
use trace.Monitoring.Tool.Restored.{unregister_all-Unregisters}
use trace.Prelude.{arith, if◌then◌else◌, ◌==◌, ◌∙◌}
use trace.Prelude.{refl}

untouched : (ok : Bool) (x y : ℕ) → (if ok && false then x else y) ≡ y
untouched true x y = refl
untouched false x y = refl

module _ (I : Interpreter) (attributes : Attributes) where
  open I use {
    World, in_use, events, callback, use_tool_id, set_events, free_tool_id, use_busy, use_free,
    set_lem, free_lem,
  }
  open attributes use {profiler_id, has_events, makes_callbacks}

  -- How `enable` came to give a handle.
  record Enabled (tool : ℕ) (w : World) (handle : MonitoringHandle) (v : World) : Type 0 where
    pub same_tool : handle.tool_id ≡ tool
    pub x : World
    pub mask : ℕ
    pub before : (use_tool_id tool w).0 ≡ true
    pub listed : Registers I attributes tool pairs ((use_tool_id tool w).1) x
    pub after : v ≡ (set_events tool mask x).1

  enable_tool-Enabled :
      (tool : ℕ) (w : World) (handle : MonitoringHandle) (v : World)
      → (use_tool_id tool w).0 ≡ true
      → enable_tool I attributes tool ((use_tool_id tool w).1) ≡ (some handle, v)
      → Enabled tool w handle v
  unfolding enable_tool
  enable_tool-Enabled tool w handle v ok h =
      let u = (use_tool_id tool w).1 in
      let reg = register_all I attributes tool pairs 0 u in
      elim (Bool-cases (has_events && makes_callbacks)) [
        | inr missing ↦ absurd (let f = rw (enable_tool, missing) at h in cc)
        | inl there ↦ elim (Option-cases (reg.0)) [
          | inl raised ↦ absurd (let f = rw (enable_tool, there, raised) at h in cc)
          | inr (mask, e) ↦ elim (Bool-cases ((set_events tool mask (reg.1)).0)) [
            | inr refused ↦ absurd (let f = rw (enable_tool, there, e, refused) at h in cc)
            | inl set ↦
                let f = rw (enable_tool, there, e, set) at h in
                record {
                  same_tool =
                      ap (λ (h : MonitoringHandle). h.tool_id)
                        (sym (
                          some-injective _ _
                            (ap (λ (r : Option MonitoringHandle × World). r.0) f)));
                  x = reg.1;
                  mask = mask;
                  before = ok;
                  listed = register_all-Registers I attributes tool pairs 0 u;
                  after = sym (ap (λ (r : Option MonitoringHandle × World). r.1) f);
                }
          ]
        ]
      ]

  enable-Enabled :
      (tool : ℕ) (w : World) (handle : MonitoringHandle) (v : World)
      → profiler_id ≡ some tool
      → enable I attributes w ≡ (some handle, v)
      → Enabled tool w handle v
  unfolding enable
  enable-Enabled tool w handle v known h = elim (Bool-cases ((use_tool_id tool w).0)) [
    | inl ok ↦ enable_tool-Enabled tool w handle v ok (rw (enable, known, ok) at h)
    | inr busy ↦ absurd (let f = rw (enable, known, busy) at h in cc)
  ]

  -- How `disable` came to succeed.
  record Disabled (tool : ℕ) (v u : World) : Type 0 where
    pub z : World
    pub cleared : (set_events tool 0 v).0 ≡ true
    pub gone : Unregisters I attributes tool pairs ((set_events tool 0 v).1) z
    pub freed : free_tool_id tool z ≡ (true, u)

  disable-Disabled :
      (handle : MonitoringHandle) (v u : World)
      → disable I attributes handle v ≡ (true, u)
      → Disabled handle.tool_id v u
  unfolding disable unregister_all
  disable-Disabled handle v u h =
      let tool = handle.tool_id in
      let y = (set_events tool 0 v).1 in
      let un = unregister_all I attributes tool pairs y in
      elim (Bool-cases ((set_events tool 0 v).0)) [
        | inr refused ↦ absurd (let f = rw (disable, refused) at h in cc)
        | inl ok ↦ elim (Bool-cases has_events) [
          | inr missing ↦ absurd (let f = rw (disable, ok, missing) at h in cc)
          | inl there ↦ elim (Bool-cases (un.0)) [
            | inr raised ↦ absurd (let f = rw (disable, ok, there, raised) at h in cc)
            | inl done ↦ record {
              z = un.1;
              cleared = ok;
              gone =
                  unregister_all-Unregisters I attributes tool pairs y (un.1) (λ i. (done i, un.1));
              freed = rw (disable, ok, there, done) at h;
            }
          ]
        ]
      ]

  -- A tool that nobody uses and that has nothing set.
  pub record IsIdle (tool : ℕ) (w : World) : Type 0 where
    pub no_events : events w tool ≡ 0
    pub no_callbacks : (e : ℕ) → callback w tool e ≡ none

  -- The tool was free.
  was_free : (tool : ℕ) (w : World) → (use_tool_id tool w).0 ≡ true → in_use w tool ≡ false
  was_free tool w ok = elim (Bool-cases (in_use w tool)) [
    | inr free ↦ free
    | inl busy ↦ absurd (let f = ap (λ (r : Bool × World). r.0) (use_busy tool w busy) in cc)
  ]

  used_after :
      (tool t : ℕ) (w v u : World) (handle : MonitoringHandle)
      → Enabled tool w handle v
      → Disabled tool v u
      → in_use u t ≡ in_use w t
  used_after tool t w v u handle a b =
      let free = was_free tool w a.before in
      let (w', taken, now, _, _) = use_free tool w free in
      let g = rw b.freed at ((free_lem tool b.z).0 t) in
      let v_used = (set_lem tool 0 v).0 t in
      let x_used = rw (sym a.after) at ((set_lem tool a.mask a.x).0 t) in
      let u_used = rw taken at (a.listed.used t) in
      let back : in_use b.z t ≡ (if t == tool then true else in_use w t) =
        b.gone.used t ∙ v_used ∙ x_used ∙ u_used ∙ now t in
      elim (Bool-cases (t == tool)) [
        | inl here ↦
            let same : t ≡ tool = ground arith in rw here at g ∙ sym (ap (in_use w) same ∙ free)
        | inr apart ↦ rw apart at g ∙ rw apart at back
      ]

  events_after :
      (tool t : ℕ) (w v u : World) (handle : MonitoringHandle)
      → IsIdle tool w
      → Enabled tool w handle v
      → Disabled tool v u
      → events u t ≡ events w t
  events_after tool t w v u handle idle a b =
      let free = was_free tool w a.before in
      let (w', taken, _, masks, _) = use_free tool w free in
      let cleared = rw b.cleared at ((set_lem tool 0 v).1 t) in
      let x_masks = rw (sym a.after) at ((set_lem tool a.mask a.x).1 t) in
      let u_masks = rw taken at (a.listed.masks t) in
      let z_masks = b.gone.masks t ∙ cleared in
      let all : events b.z t ≡ events w t = elim (Bool-cases (t == tool)) [
        | inl here ↦
            let same : t ≡ tool = ground arith in
            rw here at z_masks ∙ sym (ap (events w) same ∙ idle.no_events)
        | inr apart ↦
            rw apart at z_masks
            ∙ (rw apart at x_masks ∙ untouched (set_events tool a.mask a.x).0 a.mask (events a.x t))
            ∙ u_masks
            ∙ masks t
      ] in
      elim ((free_lem tool b.z).1 t) [
        | inl kept ↦ rw b.freed at kept ∙ all
        | inr (same, zero_left) ↦
            rw b.freed at zero_left ∙ sym (ap (events w) same ∙ idle.no_events)
      ]

  callbacks_after :
      (tool t : ℕ) (w v u : World) (handle : MonitoringHandle)
      → IsIdle tool w
      → Enabled tool w handle v
      → Disabled tool v u
      → (e : ℕ) → callback u t e ≡ callback w t e
  callbacks_after tool t w v u handle idle a b e =
      let free = was_free tool w a.before in
      let (w', taken, _, _, calls) = use_free tool w free in
      let set_v = rw (sym a.after) at ((set_lem tool a.mask a.x).2 t e) in
      let set_y = (set_lem tool 0 v).2 t e in
      let registered = rw taken at (a.listed.calls t e) in
      let nothing_before =
        λ (same : t ≡ tool). ap (λ k. callback w k e) same ∙ idle.no_callbacks e in
      let all : callback b.z t e ≡ callback w t e = elim (b.gone.calls t e) [
        | inr (same, nothing) ↦ nothing ∙ sym (nothing_before same)
        | inl kept ↦ elim registered [
          | inl before ↦ kept ∙ set_y ∙ set_v ∙ before ∙ calls t e
          | inr (same, listed) ↦
              ap (λ k. callback b.z k e) same ∙ b.gone.gone e listed ∙ sym (nothing_before same)
        ]
      ] in
      elim ((free_lem tool b.z).2 t e) [
        | inl kept ↦ rw b.freed at kept ∙ all
        | inr (same, nothing) ↦ rw b.freed at nothing ∙ sym (nothing_before same)
      ]

  -- Where the profiler's tool has no events and no callbacks before, and `enable` and then `disable`
  -- succeed, the interpreter is as before: for every tool, whether it is in use, its events, and its
  -- callbacks.
  pub disable-enable :
      (tool : ℕ) (w v u : World) (handle : MonitoringHandle)
      → profiler_id ≡ some tool
      → IsIdle tool w
      → enable I attributes w ≡ (some handle, v)
      → disable I attributes handle v ≡ (true, u)
      → (t : ℕ)
      → (in_use u t ≡ in_use w t)
        × (events u t ≡ events w t)
        × ((e : ℕ) → callback u t e ≡ callback w t e)
  disable-enable tool w v u handle known idle enabled disabled t =
      let same = (enable-Enabled tool w handle v known enabled).same_tool in
      let a : Enabled handle.tool_id w handle v =
        enable-Enabled handle.tool_id w handle v (rw same known) enabled in
      let b = disable-Disabled handle v u disabled in
      let idle' : IsIdle handle.tool_id w = subst (λ k. IsIdle k w) (sym same) idle in
      (
        used_after handle.tool_id t w v u handle a b,
        events_after handle.tool_id t w v u handle idle' a b,
        callbacks_after handle.tool_id t w v u handle idle' a b,
      )
