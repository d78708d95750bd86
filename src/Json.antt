-- ===== src/Json.antt =====
-- crates/json/src/lib.rs: the bytes of the Chrome trace format.
-- A buffer that is appended to is the list of what is appended; a byte is a number below 256.
pub mod Numbers
pub mod Strings
pub mod Records
pub mod Exporter
use trace.Prelude.{
  ℕ, suc, zero, ◌+◌, ◌*◌, ◌/◌, ◌%◌, ◌^◌, List, [], ◌∷◌, ◌++◌, ltb, ◌==◌, if◌then◌else◌, Option,
  none, some,
}

-- The digits of `v`, behind those that are `done`. The loop that fills `digits` from its end and the
-- loop that empties it put the last digit last. A `u64` has 20 digits at most: `stuck` is `none`.
unfoldable pub push_digits : ℕ → ℕ → List ℕ → Option (List ℕ)
push_digits zero v done = none
push_digits (suc fuel) v done =
    let digits = (48 + v % 10) ∷ done in
    let more = push_digits fuel (v / 10) digits in if v / 10 == 0 then some digits else more

-- `none` is an index past the end of `digits`, which does not happen.
unfoldable pub push_u64 : ℕ → Option (List ℕ)
push_u64 v = push_digits 20 v []

unfoldable pub push_micros : ℕ → Option (List ℕ)
push_micros ts_ns =
    let frac = ts_ns % 1000 in
    elim (push_u64 (ts_ns / 1000)) [
      | none ↦ none
      | some digits ↦
          some (digits ++ 46 ∷ (48 + frac / 100) ∷ (48 + frac / 10 % 10) ∷ (48 + frac % 10) ∷ [])
    ]

-- `HEX`
abbrev pub hex : ℕ → ℕ
hex d = if ltb d 10 then 48 + d else 87 + d

-- The bytes that stand for one byte of a string.
unfoldable pub escape : ℕ → List ℕ
escape b =
    if b == 34
    then 92 ∷ 34 ∷ []
    else if b == 92
    then 92 ∷ 92 ∷ []
    else if b == 8
    then 92 ∷ 98 ∷ []
    else if b == 9
    then 92 ∷ 116 ∷ []
    else if b == 10
    then 92 ∷ 110 ∷ []
    else if b == 12
    then 92 ∷ 102 ∷ []
    else if b == 13
    then 92 ∷ 114 ∷ []
    else if ltb b 32
    then 92 ∷ 117 ∷ 48 ∷ 48 ∷ hex (b / 16) ∷ hex (b % 16) ∷ []
    else b ∷ []

unfoldable pub escapes : List ℕ → List ℕ
escapes [] = []
escapes (b ∷ bytes) = escape b ++ escapes bytes

unfoldable pub push_string : List ℕ → List ℕ
push_string s = 34 ∷ escapes s ++ 34 ∷ []
