-- ===== src/Monitoring/Tool/Failures.antt =====
-- `enable` of crates/py/src/monitoring.rs where it fails, and once more.
use trace.Prelude.{ℕ}
use trace.Monitoring.Tool.{Interpreter, Attributes, MonitoringHandle, pairs, enable, enable_tool}
use trace.Prelude.{
  Bool-cases, Option, Option-cases, ap, arith, false, inl, inr, none, refl, some, sym, true, ◌&&◌,
  ◌∙◌, ◌≡◌,
}
use trace.Monitoring.Tool.{register_all}
use trace.Monitoring.Tool.Restored.{register_all-Registers}

module _ (I : Interpreter) (attributes : Attributes) where
  open I use {World, in_use, use_tool_id, set_events, use_busy, use_free, set_lem}
  open attributes use {profiler_id, has_events, makes_callbacks}

  enable_tool_used :
      (tool t : ℕ) (w : World) → in_use ((enable_tool I attributes tool w).1) t ≡ in_use w t
  unfolding enable_tool
  enable_tool_used tool t w =
      let reg = register_all I attributes tool pairs 0 w in
      let used = (register_all-Registers I attributes tool pairs 0 w).used t in
      elim (Bool-cases (has_events && makes_callbacks)) [
        | inr missing ↦ rw (enable_tool, missing) refl
        | inl there ↦ elim (Option-cases (reg.0)) [
          | inl raised ↦ rw (enable_tool, there, raised) used
          | inr (mask, e) ↦ rw (enable_tool, there, e) ((set_lem tool mask (reg.1)).0 t ∙ used)
        ]
      ]

  -- If `enable` fails although the profiler's tool was free, the tool stays in use, and `enable` fails
  -- again from there and changes nothing.
  pub enable-enable :
      (tool : ℕ) (w v : World)
      → profiler_id ≡ some tool
      → in_use w tool ≡ false
      → enable I attributes w ≡ (none, v)
      → (in_use v tool ≡ true) × (enable I attributes v ≡ (none, v))
  unfolding enable
  enable-enable tool w v known free failed =
      let (w', taken, now, _, _) = use_free tool w free in
      let f = rw (enable, known, taken) at failed in
      let after : (enable_tool I attributes tool w').1 ≡ v =
        ap (λ (r : Option MonitoringHandle × World). r.1) f in
      let first : in_use w' tool ≡ true = rw (now tool) (ground arith) in
      let busy : in_use v tool ≡ true =
        sym (ap (λ x. in_use x tool) after) ∙ enable_tool_used tool tool w' ∙ first in
      (busy, rw (enable, known, use_busy tool v busy) refl)
