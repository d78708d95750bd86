-- ===== src/Varint.antt =====
-- crates/proto/src/lib.rs, `Varint`: seven bits of a number in each byte, the lowest first.
use trace.Prelude.{
  ℕ, suc, zero, ◌+◌, ◌*◌, ◌/◌, ◌%◌, ◌^◌, ◌<◌, ◌≤◌, ◌≡◌, refl, List, [], ◌∷◌, ◌++◌, Option, some,
  none, arith, Bool-cases, inl, inr, ltb, tests, length, bit_or, if◌then◌else◌, All, pow-suc,
}
use trace.Prelude.Bits.{or-top}
use trace.Prelude.{true, false}

-- `Varint::MAX`
abbrev pub max_bytes : ℕ
max_bytes = 10

-- The loop of `Varint::of`, and the byte behind it; `none` for an index past the end of `bytes`,
-- which does not happen.
unfoldable pub varint_bytes : ℕ → ℕ → Option (List ℕ)
varint_bytes zero v = none
varint_bytes (suc room) v =
    let rest = varint_bytes room (v / 2 ^ 7) in
    if ltb v 128
    then some (v % 2 ^ 8 ∷ [])
    else elim rest [ none ↦ none | some bytes ↦ some (bit_or (v % 2 ^ 8) 128 ∷ bytes) ]

-- `Varint::of`, as `as_slice` gives it.
unfoldable pub varint : ℕ → Option (List ℕ)
varint v = varint_bytes max_bytes v

-- Reading: bytes with the top bit set go on, and the first without ends the number.
unfoldable pub read_varint : List ℕ → Option (ℕ × List ℕ)
read_varint [] = none
read_varint (b ∷ bytes) =
    let rest = read_varint bytes in
    if ltb b 128
    then some (b, bytes)
    else elim rest [ none ↦ none | some (high, after) ↦ some (high * 128 + b % 128, after) ]

continued_lem : (v : ℕ) → bit_or (v % 2 ^ 8) 128 ≡ 128 + v % 128
continued_lem v =
    let e : v % 2 ^ 8 ≡ v % 2 ^ 8 / 128 * 2 ^ 7 + v % 128 = omega arith in
    rw e (or-top 7 (v % 2 ^ 8 / 128) (v % 128) (omega arith) (omega arith))

-- How the bytes of a number read back, before those that come after.
abbrev Reads : ℕ → ℕ → List ℕ → Option (List ℕ) → Type 0
Reads room v after result =
    (bytes : List ℕ) × (result ≡ some bytes)
    × (read_varint (bytes ++ after) ≡ some (v, after))
    × All (λ b. b < 256) bytes
    × (length bytes ≤ suc room)

last_byte :
    (room v : ℕ) (after : List ℕ) → ltb v 128 ≡ true → Reads room v after (some (v % 2 ^ 8 ∷ []))
unfolding read_varint
last_byte room v after last =
    let e : v % 2 ^ 8 ≡ v = omega tests in
    (v % 2 ^ 8 ∷ [], refl, rw e (rw (read_varint, last) refl), (omega arith, tt), omega arith)

varint_bytes_lem :
    (room v : ℕ) (after : List ℕ)
    → v < 128 ^ suc room
    → Reads room v after (varint_bytes (suc room) v)
unfolding varint_bytes read_varint
varint_bytes_lem zero v after h =
    let last : ltb v 128 ≡ true = ground arith in rw last (last_byte 0 v after last)
varint_bytes_lem (suc room) v after h = elim (Bool-cases (ltb v 128)) [
  | inl last ↦ rw last (last_byte (suc room) v after last)
  | inr more ↦
      let (bytes, found, value, small, bound) =
        varint_bytes_lem room (v / 2 ^ 7) after (omega (arith, pow-suc 128 (suc room))) in
      let b : ℕ = 128 + v % 128 in
      let goes_on : ltb b 128 ≡ false = ground arith in
      let e : v / 2 ^ 7 * 128 + b % 128 ≡ v = omega arith in
      (
        b ∷ bytes,
        rw (varint_bytes, more, found, continued_lem v) refl,
        rw (read_varint, goes_on, value, e) refl,
        (omega arith, small),
        omega (arith, bound),
      )
]

-- A `u64` is encoded in ten bytes at most, and a reader gets back the number, whatever follows it, and
-- what follows it.
pub varint-read :
    (v : ℕ) (after : List ℕ)
    → v < 2 ^ 64
    → (bytes : List ℕ) × (varint v ≡ some bytes)
      × (read_varint (bytes ++ after) ≡ some (v, after))
      × All (λ b. b < 256) bytes
      × (length bytes ≤ 10)
unfolding varint
varint-read v after h = varint_bytes_lem 9 v after (omega arith)
