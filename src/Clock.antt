-- ===== src/Clock.antt =====
-- crates/core/src/clock.rs: ticks of a counter, and nanoseconds since a clock was made.
-- `quanta::Clock` is a third-party crate: what the source asks of it is a field of `Quanta`. The
-- counter itself is hardware, so a reading is an argument.
pub mod Direct
pub mod Search
use trace.Prelude.{
  ℕ, zero, suc, ◌+◌, ◌-◌, ◌*◌, ◌/◌, ◌%◌, ◌^◌, Bool, true, false, Option, none, some,
}
use trace.Prelude.{ltb, ◌==◌, if◌then◌else◌, saturate64, u64_max}

-- `clock.delta_as_nanos(start, end)` of a calibrated clock.
pub record Quanta : Type 0 where
  pub delta_as_nanos : ℕ → ℕ → ℕ

pub data Source : Type 0 where
  self_describing : ℕ → ℕ → Source
  measured : Quanta → Source

pub record Clock : Type 0 where
  pub source : Source
  pub start_ticks : ℕ

-- The counter's frequency, where the target has one that states its own rate.
unfoldable pub self_describing_timebase : Option ℕ → Option (ℕ × ℕ)
self_describing_timebase none = none
self_describing_timebase (some freq) = if freq == 0 then none else some (1_000_000_000, freq)

source_of : Option (ℕ × ℕ) → Quanta → Source
source_of (some (nanos_num, nanos_den)) q = self_describing nanos_num nanos_den
source_of none q = measured q

-- `now` is what `raw()` reads on the clock just made.
unfoldable pub starting_now : Option ℕ → Quanta → ℕ → Clock
unfolding source_of
starting_now freq q now = record {
  source = source_of (self_describing_timebase freq) q;
  start_ticks = now;
}

unfoldable pub is_direct : Clock → Bool
is_direct c = elim c.source [ self_describing n d ↦ true | measured q ↦ false ]

-- `-` on ℕ stops at 0, as `saturating_sub` does; the product of two `u64` fits the `u128`.
unfoldable pub ns_of : Source → ℕ → ℕ → ℕ
ns_of (self_describing nanos_num nanos_den) start ticks =
    (ticks - start) * nanos_num / nanos_den % 2 ^ 64
ns_of (measured q) start ticks = q.delta_as_nanos start ticks

unfoldable pub ns_since_start : Clock → ℕ → ℕ
unfolding ns_of
ns_since_start c ticks = ns_of c.source c.start_ticks ticks

-- How the doubling of `span` ends: at a span that reaches, at the overflow of `checked_mul`, or
-- (`stuck`, never) for want of fuel.
pub data Reach : Type 0 where
  reaches : ℕ → Reach
  overflows : Reach
  stuck : Reach

-- `while self.ns_since_start(self.start_ticks.saturating_add(span)) < ns { .. }`, over `nanos`, the
-- conversion of a tick.
unfoldable pub widen : (ℕ → ℕ) → ℕ → ℕ → ℕ → ℕ → Reach
widen nanos start ns zero span = stuck
widen nanos start ns (suc fuel) span =
    let wider = widen nanos start ns fuel (span * 2) in
    if ltb (nanos (saturate64 (start + span))) ns
    then (if ltb (span * 2) (2 ^ 64) then wider else overflows)
    else reaches span

-- `while lo < hi { .. }`; `none` for want of fuel.
unfoldable pub bisect : (ℕ → ℕ) → ℕ → ℕ → ℕ → ℕ → Option ℕ
bisect nanos ns zero lo hi = none
bisect nanos ns (suc fuel) lo hi =
    let mid = lo + (hi - lo) / 2 in
    let upper = bisect nanos ns fuel (mid + 1) hi in
    let lower = bisect nanos ns fuel lo mid in
    if ltb lo hi then (if ltb (nanos mid) ns then upper else lower) else some lo

after_widening : (ℕ → ℕ) → ℕ → ℕ → Reach → Option ℕ
after_widening nanos start ns (reaches span) =
    bisect nanos ns 65 (saturate64 (start + span / 2)) (saturate64 (start + span))
after_widening nanos start ns overflows = some u64_max
after_widening nanos start ns stuck = none

-- `none` stands for a loop that is not done within its fuel, which does not happen.
ticks_of : Source → ℕ → ℕ → Option ℕ
unfolding after_widening
ticks_of (self_describing nanos_num nanos_den) start ns =
    some (saturate64 (start + ns * nanos_den / nanos_num % 2 ^ 64))
ticks_of (measured q) start ns =
    after_widening (q.delta_as_nanos start) start ns (widen (q.delta_as_nanos start) start ns 65 1)

unfoldable pub ticks_from_ns : Clock → ℕ → Option ℕ
unfolding ticks_of
ticks_from_ns c ns = ticks_of c.source c.start_ticks ns
