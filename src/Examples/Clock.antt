-- ===== src/Examples/Clock.antt =====
-- Clocks of 24 MHz and of three nanoseconds a tick.
use trace.Prelude.{ℕ, ◌+◌, ◌-◌, ◌*◌, ◌≤◌, ◌<◌, ◌≡◌, refl, some, arith}
use trace.Clock.{Clock, Quanta, self_describing, measured, ns_since_start, ticks_from_ns}
use trace.Clock.Direct.{ns_since_start-ticks_from_ns, ns_since_start_mono}
use trace.Clock.Search.{ticks_from_ns-IsFirst}

abbrev direct : Clock
direct = record { source = self_describing 1_000_000_000 24_000_000; start_ticks = 500 }

abbrev pub thrice : Quanta
thrice = record { delta_as_nanos = λ a b. (b - a) * 3 }

abbrev pub slow : Clock
slow = record { source = measured thrice; start_ticks = 500 }

ns_since_start-ticks_from_ns_example :
    (t : ℕ) × (ticks_from_ns direct 1000 ≡ some t)
    × (ns_since_start direct t ≤ 1000)
    × (1000 * 24_000_000 < ns_since_start direct t * 24_000_000 + 1_000_000_000 + 24_000_000)
ns_since_start-ticks_from_ns_example =
    ns_since_start-ticks_from_ns direct 1_000_000_000 24_000_000 1000 refl (omega arith)
      (omega arith) (omega arith) (omega arith)

ns_since_start_mono_example :
    (ns_since_start direct 600 ≤ ns_since_start direct 700)
    × (600 ≤ 500 → ns_since_start direct 600 ≡ 0)
ns_since_start_mono_example =
    ns_since_start_mono direct 1_000_000_000 24_000_000 600 700 refl (omega arith) (omega arith)
      (omega arith)

ticks_from_ns-IsFirst_example :
    (t : ℕ) × (ticks_from_ns slow 1000 ≡ some t)
    × (500 ≤ t)
    × (1000 ≤ ns_since_start slow t)
    × ((x : ℕ) → 500 ≤ x → x < t → ns_since_start slow x < 1000)
ticks_from_ns-IsFirst_example =
    ticks_from_ns-IsFirst slow thrice 1000 refl (omega arith) (λ a b h. omega arith) (omega arith)
