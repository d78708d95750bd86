-- ===== src/Json/Numbers.antt =====
-- The decimal numbers of crates/json/src/lib.rs, and a reader of them.
use trace.Prelude.{
  ℕ, suc, zero, ◌+◌, ◌*◌, ◌/◌, ◌%◌, ◌^◌, ◌<◌, ◌≤◌, ◌≡◌, refl, List, [], ◌∷◌, ◌++◌, Option, some,
  arith, Bool-cases, inl, inr, ◌==◌, length, All,
}
use trace.Json.{push_digits, push_u64, push_micros}
use trace.Prelude.{◌-◌, ap, pow-suc, ◌∙◌}

-- Reading digits, from the number read so far.
unfoldable pub read : ℕ → List ℕ → ℕ
read n [] = n
read n (d ∷ digits) = read (n * 10 + (d - 48)) digits

abbrev pub IsDigit : ℕ → Type 0
IsDigit d = (48 ≤ d) × (d ≤ 57)

-- What is put out from `v` on before the digits `done`.
abbrev Digits : ℕ → ℕ → List ℕ → Option (List ℕ) → Type 0
Digits fuel v done result =
    (out : List ℕ) × (result ≡ some out)
    × (read 0 out ≡ read v done)
    × All IsDigit out
    × (0 < length out)
    × (length out ≤ fuel + length done)

last_digit :
    (fuel v : ℕ) (done : List ℕ)
    → v / 10 ≡ 0
    → All IsDigit done
    → Digits (suc fuel) v done (some ((48 + v % 10) ∷ done))
unfolding read
last_digit fuel v done h k =
    let e : 0 * 10 + (48 + v % 10 - 48) ≡ v = omega arith in
    (
      (48 + v % 10) ∷ done,
      refl,
      ap (λ (n : ℕ). read n done) e,
      ((omega arith, omega arith), k),
      omega arith,
      omega arith,
    )

push_digits_lem :
    (fuel v : ℕ) (done : List ℕ)
    → v < 10 ^ suc fuel
    → All IsDigit done
    → Digits (suc fuel) v done (push_digits (suc fuel) v done)
unfolding push_digits read
push_digits_lem zero v done h k =
    let small : v / 10 ≡ 0 = omega arith in rw (push_digits, small) (last_digit 0 v done small k)
push_digits_lem (suc fuel) v done h k = elim (Bool-cases (v / 10 == 0)) [
  | inl last ↦ rw (push_digits, last) (last_digit (suc fuel) v done (ground arith) k)
  | inr more ↦
      let e : v / 10 * 10 + (48 + v % 10 - 48) ≡ v = omega arith in
      let (out, found, value, all, some_left, bound) =
        push_digits_lem fuel (v / 10) ((48 + v % 10) ∷ done) (omega (arith, pow-suc 10 (suc fuel)))
          ((omega arith, omega arith), k) in
      rw (push_digits, more)
        (out, found, value ∙ ap (λ (n : ℕ). read n done) e, all, some_left, omega (arith, bound))
]

-- A `u64` is put out as one to twenty decimal digits, which read back as the number.
pub push_u64-read :
    (v : ℕ)
    → v < 2 ^ 64
    → (out : List ℕ) × (push_u64 v ≡ some out)
      × (read 0 out ≡ v)
      × All IsDigit out
      × (0 < length out)
      × (length out ≤ 20)
unfolding push_u64 read
push_u64-read v h =
    let (out, found, value, all, some_left, bound) = push_digits_lem 19 v [] (omega arith) tt in
    (out, found, value, all, some_left, omega (arith, bound))

read-append : (n : ℕ) (xs ys : List ℕ) → read n (xs ++ ys) ≡ read (read n xs) ys
unfolding read
read-append n [] ys = refl
read-append n (x ∷ xs) ys = read-append (n * 10 + (x - 48)) xs ys

-- Nanoseconds are put out as microseconds: whole ones in decimal, a point, and exactly three digits
-- of the rest, so that the digits without the point read back as the nanoseconds.
pub push_micros-read :
    (ts_ns : ℕ)
    → ts_ns < 2 ^ 64
    → (whole rest : List ℕ) × (push_micros ts_ns ≡ some (whole ++ 46 ∷ rest))
      × (read 0 (whole ++ rest) ≡ ts_ns)
      × All IsDigit whole
      × All IsDigit rest
      × (length rest ≡ 3)
unfolding push_micros read
push_micros-read ts_ns h =
    let (out, found, value, all, _, _) = push_u64-read (ts_ns / 1000) (omega arith) in
    let frac : ℕ = ts_ns % 1000 in
    let rest : List ℕ = (48 + frac / 100) ∷ (48 + frac / 10 % 10) ∷ (48 + frac % 10) ∷ [] in
    (
      out,
      rest,
      rw (push_micros, found) refl,
      read-append 0 out rest ∙ rw value (omega arith),
      all,
      ((omega arith, omega arith), ((omega arith, omega arith), ((omega arith, omega arith), tt))),
      refl,
    )
