-- ===== src/Prelude/Bits.antt =====
-- `&` with a low mask and `|` of disjoint fields as arithmetic, at every width.
use Prim.Native.Nat.{ℕ, zero, suc, ◌+◌, ◌-◌, ◌*◌, ◌/◌, ◌%◌, ◌^◌, ◌≤◌, ◌<◌, min, max}
use Prim.Native.Nat.{bit_and, bit_or, digits, bitwise, bit_and-bitwise, bit_or-bitwise}
use mathlib.Core.Path.{◌≡◌, refl, ap}
use native.Mathlib.Nat.{pow-suc, one-le-pow, le_refl}
use native.Mathlib.Omega.{arith}

-- `bitwise` is a recursion on binary digits with fuel; any fuel that is enough gives the same digits.
module _ (z : ℕ → ℕ) (op : ℕ → ℕ → ℕ) where
  enough_fuel : (n m a b : ℕ) → a ≤ n → a ≤ m → digits z op n a b ≡ digits z op m a b
  enough_fuel zero zero a b h k = refl
  enough_fuel zero (suc m) zero b h k = refl
  enough_fuel zero (suc m) (suc a) b h k = absurd (omega arith)
  enough_fuel (suc n) zero zero b h k = refl
  enough_fuel (suc n) zero (suc a) b h k = absurd (omega arith)
  enough_fuel (suc n) (suc m) zero b h k = refl
  enough_fuel (suc n) (suc m) (suc a) b h k =
      let half = enough_fuel n m (suc a / 2) (b / 2) (omega arith) (omega arith) in rw half

  lowest_digit :
      (a b : ℕ)
      → bitwise z op (suc a) b ≡ bitwise z op (suc a / 2) (b / 2) * 2 + op (suc a % 2) (b % 2)
  lowest_digit a b =
      let half = enough_fuel a (suc a / 2) (suc a / 2) (b / 2) (omega arith) (le_refl _) in
      omega (arith, half)

and_digit : (a b : ℕ) → bit_and a b ≡ bit_and (a / 2) (b / 2) * 2 + min (a % 2) (b % 2)
and_digit zero b = simp bit_and-bitwise (omega arith)
and_digit (suc a) b = simp bit_and-bitwise (lowest_digit (λ _. 0) min a b)

or_digit : (a b : ℕ) → bit_or a b ≡ bit_or (a / 2) (b / 2) * 2 + max (a % 2) (b % 2)
or_digit zero b = simp bit_or-bitwise (omega arith)
or_digit (suc a) b = simp bit_or-bitwise (lowest_digit (λ y. y) max a b)

and_nothing : (n a : ℕ) → a ≤ n → bit_and a 0 ≡ 0
and_nothing n zero h = refl
and_nothing zero (suc a) h = absurd (omega arith)
and_nothing (suc n) (suc a) h =
    omega (arith, and_digit (suc a) 0, and_nothing n (suc a / 2) (omega arith))

or_nothing : (n a : ℕ) → a ≤ n → bit_or a 0 ≡ a
or_nothing n zero h = refl
or_nothing zero (suc a) h = absurd (omega arith)
or_nothing (suc n) (suc a) h =
    omega (arith, or_digit (suc a) 0, or_nothing n (suc a / 2) (omega arith))

double : (q k : ℕ) → q * 2 ^ suc k ≡ 2 * (q * 2 ^ k)
double q k = omega (arith, ap (λ (t : ℕ). q * t) (pow-suc 2 k))

and_field : (k q r : ℕ) → r < 2 ^ k → bit_and (q * 2 ^ k + r) (2 ^ k - 1) ≡ r
and_field zero q r h = omega (arith, and_nothing (q * 1 + r) (q * 1 + r) (le_refl _))
and_field (suc k) q r h = ground (
  arith,
  and_digit (q * 2 ^ suc k + r) (2 ^ suc k - 1),
  double q k,
  pow-suc 2 k,
  and_field k q (r / 2) (omega (arith, pow-suc 2 k)),
)

-- A mask of `k` ones keeps the remainder by `2 ^ k`.
pub and-mask : (k a : ℕ) → bit_and a (2 ^ k - 1) ≡ a % 2 ^ k
and-mask k a = ground (arith, one-le-pow k 2, and_field k (a / 2 ^ k) (a % 2 ^ k))

-- Where `r` fits `k` bits, `(q << k) | r` is the sum.
pub or-shift : (k q r : ℕ) → r < 2 ^ k → bit_or (q * 2 ^ k) r ≡ q * 2 ^ k + r
or-shift zero q r h = ground (arith, or_nothing q q (le_refl q))
or-shift (suc k) q r h = ground (
  arith,
  or_digit (q * 2 ^ suc k) r,
  double q k,
  or-shift k q (r / 2) (omega (arith, pow-suc 2 k)),
)

-- Setting the bit above the low `k` of a number with `k + 1` bits.
pub or-top : (k q r : ℕ) → r < 2 ^ k → q < 2 → bit_or (q * 2 ^ k + r) (2 ^ k) ≡ 2 ^ k + r
or-top zero zero zero h l = refl
or-top zero zero (suc r) h l = absurd (omega arith)
or-top zero (suc zero) zero h l = refl
or-top zero (suc zero) (suc r) h l = absurd (omega arith)
or-top zero (suc (suc q)) r h l = absurd (omega arith)
or-top (suc k) q r h l = ground (
  arith,
  or_digit (q * 2 ^ suc k + r) (2 ^ suc k),
  double q k,
  pow-suc 2 k,
  or-top k q (r / 2) (omega (arith, pow-suc 2 k)) l,
)
