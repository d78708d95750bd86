-- ===== src/Event/Words.antt =====
-- The fields of the packed words.
use trace.Prelude.{ℕ, ◌+◌, ◌*◌, ◌/◌, ◌%◌, ◌^◌, ◌≤◌, ◌<◌, ◌≡◌, refl, ◌∙◌, arith}
use trace.Prelude.Bits.{and-mask, or-shift}
use trace.Event.{EventKind, begin, finish, yield, resume, unwind, throw}
use trace.Event.{discriminant, from_u8, pack_code_kind, code_id_of, kind_of}
use trace.Event.{PackedEvent, ByteOrder, little_endian, big_endian, to_bits, from_bits}

pub from_u8-discriminant : (k : EventKind) → from_u8 (discriminant k) ≡ k
unfolding from_u8 discriminant
from_u8-discriminant begin = refl
from_u8-discriminant finish = refl
from_u8-discriminant yield = refl
from_u8-discriminant resume = refl
from_u8-discriminant unwind = refl
from_u8-discriminant throw = refl

discriminant-le : (k : EventKind) → discriminant k ≤ 6
unfolding discriminant
discriminant-le k = ground arith

-- The packed word in plain arithmetic.
pub pack_code_kind_sum :
    (code_id : ℕ) (k : EventKind)
    → pack_code_kind code_id k ≡ discriminant k * 2 ^ 24 + code_id % 2 ^ 24
unfolding pack_code_kind
pack_code_kind_sum code_id k =
    let fits : discriminant k * 2 ^ 24 % 2 ^ 32 ≡ discriminant k * 2 ^ 24 =
      omega (arith, discriminant-le k) in
    rw (fits, and-mask 24 code_id) (or-shift 24 (discriminant k) (code_id % 2 ^ 24) (omega arith))

-- Packing loses nothing of the kind, nor of a code id below 2 ^ 24; a larger one is cut to its low
-- 24 bits and still leaves the kind alone. The word fits a `u32`.
pub unpack-pack_code_kind :
    (code_id : ℕ) (k : EventKind)
    → (code_id_of (pack_code_kind code_id k) ≡ code_id % 2 ^ 24)
      × (kind_of (pack_code_kind code_id k) ≡ k)
      × (pack_code_kind code_id k < 2 ^ 32)
unfolding code_id_of kind_of
unpack-pack_code_kind code_id k =
    let word = discriminant k * 2 ^ 24 + code_id % 2 ^ 24 in
    let top : word / 2 ^ 24 % 2 ^ 8 ≡ discriminant k = omega (arith, discriminant-le k) in
    rw (pack_code_kind_sum code_id k) (
      and-mask 24 word ∙ omega arith,
      rw top (from_u8-discriminant k),
      omega (arith, discriminant-le k),
    )

-- The bits of a packed event read back as that event, in either byte order, and fit a `u64`.
pub from_bits-to_bits :
    (o : ByteOrder) (p : PackedEvent)
    → p.delta_ticks < 2 ^ 32
    → p.code_kind < 2 ^ 32
    → (from_bits o (to_bits o p) ≡ p) × (to_bits o p < 2 ^ 64)
unfolding from_bits to_bits
from_bits-to_bits little_endian p h k = ground arith
from_bits-to_bits big_endian p h k = ground arith
