-- ===== src/Clock/Direct.antt =====
-- A counter that states its own rate, for crates/core/src/clock.rs: its two conversions.
use trace.Prelude.{ℕ, ◌+◌, ◌-◌, ◌*◌, ◌/◌, ◌^◌, ◌≤◌, ◌<◌, ◌≡◌, refl, some, arith}
use trace.Clock.{self_describing, Clock, ns_of, ticks_of, ns_since_start, ticks_from_ns}
use native.Mathlib.Nat.{
  div-mul-le_self, lt-div-mul-add, le_of_mul-le-mul_right, mod-eq_of_lt, mod-le,
}
use native.Mathlib.Nat.{le_trans, zero-mul, zero-div, mul-le-mul_right, le-div_iff_mul-le}

-- Two divisions in a row lose less than one divisor each.
there_and_back :
    (ns num den : ℕ)
    → 0 < num
    → 0 < den
    → (ns * den / num * num / den ≤ ns) × (ns * den < ns * den / num * num / den * den + num + den)
there_and_back ns num den hn hd =
    let down = div-mul-le_self (ns * den) num in
    let up = lt-div-mul-add {a = ns * den} {b = num} hn in
    let down' = div-mul-le_self (ns * den / num * num) den in
    let up' = lt-div-mul-add {a = ns * den / num * num} {b = den} hd in
    (le_of_mul-le-mul_right {k = den} (le_trans down' down) hd, omega (arith, up, up'))

ticks_of_direct :
    (num den start ns : ℕ)
    → start + ns * den / num < 2 ^ 64
    → ticks_of (self_describing num den) start ns ≡ some (start + ns * den / num)
unfolding ticks_of
ticks_of_direct num den start ns h = ap_some (omega arith)
  where
    ap_some : {a b : ℕ} → a ≡ b → some a ≡ some b
    ap_some e = rw e

ns_of_direct :
    (num den start ticks : ℕ)
    → ticks * num / den < 2 ^ 64
    → ns_of (self_describing num den) start (start + ticks) ≡ ticks * num / den
unfolding ns_of
ns_of_direct num den start ticks h =
    let e : start + ticks - start ≡ ticks = omega arith in rw (e, mod-eq_of_lt h)

-- Where the tick fits a `u64`, a time turned into ticks and back is not later than it was, and less
-- than one tick and one nanosecond earlier.
pub ns_since_start-ticks_from_ns :
    (c : Clock) (num den ns : ℕ)
    → c.source ≡ self_describing num den
    → 0 < num
    → 0 < den
    → ns < 2 ^ 64
    → c.start_ticks + ns * den / num < 2 ^ 64
    → (t : ℕ) × (ticks_from_ns c ns ≡ some t)
      × (ns_since_start c t ≤ ns)
      × (ns * den < ns_since_start c t * den + num + den)
unfolding ns_since_start ticks_from_ns
ns_since_start-ticks_from_ns c num den ns e hn hd small fits =
    let (le, lt) = there_and_back ns num den hn hd in
    let back = ns_of_direct num den c.start_ticks (ns * den / num) (omega (arith, le)) in
    (
      c.start_ticks + ns * den / num,
      rw e (ticks_of_direct num den c.start_ticks ns fits),
      rw (e, back) le,
      rw (e, back) lt,
    )

div_mono : (x y d : ℕ) → 0 < d → x ≤ y → x / d ≤ y / d
div_mono x y d hd h =
    (le-div_iff_mul-le {k = d} {x = x / d} {y = y} hd).1 (le_trans (div-mul-le_self x d) h)

-- A tick up to the anchor reads as 0, and later ticks never read earlier while the result fits.
pub ns_since_start_mono :
    (c : Clock) (num den a b : ℕ)
    → c.source ≡ self_describing num den
    → 0 < den
    → a ≤ b
    → (b - c.start_ticks) * num / den < 2 ^ 64
    → (ns_since_start c a ≤ ns_since_start c b) × (a ≤ c.start_ticks → ns_since_start c a ≡ 0)
unfolding ns_since_start ns_of
ns_since_start_mono c num den a b e hd h fits =
    let later =
      mul-le-mul_right {m = a - c.start_ticks} {n = b - c.start_ticks} num (omega arith) in
    let le = div_mono ((a - c.start_ticks) * num) ((b - c.start_ticks) * num) den hd later in
    (
      rw (e, mod-eq_of_lt fits) (le_trans (mod-le _ _) le),
      λ before.
          let none_left : a - c.start_ticks ≡ 0 = omega arith in
          rw (e, none_left, zero-mul num, zero-div den) refl,
    )
