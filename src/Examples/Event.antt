-- ===== src/Examples/Event.antt =====
-- Packing a code id that is too large, and the bits of an event.
use trace.Prelude.{◌%◌, ◌^◌, ◌<◌, ◌≡◌, arith}
use trace.Event.{
  PackedEvent, yield, pack_code_kind, code_id_of, kind_of, big_endian, from_bits, to_bits,
}
use trace.Event.Words.{unpack-pack_code_kind, from_bits-to_bits}

unpack-pack_code_kind_example :
    (code_id_of (pack_code_kind 0x5_00_00_07 yield) ≡ 0x5_00_00_07 % 2 ^ 24)
    × (kind_of (pack_code_kind 0x5_00_00_07 yield) ≡ yield)
    × (pack_code_kind 0x5_00_00_07 yield < 2 ^ 32)
unpack-pack_code_kind_example = unpack-pack_code_kind 0x5_00_00_07 yield

abbrev packed : PackedEvent
packed = record { delta_ticks = 77; code_kind = 0x0100_0003 }

from_bits-to_bits_example :
    (from_bits big_endian (to_bits big_endian packed) ≡ packed)
    × (to_bits big_endian packed < 2 ^ 64)
from_bits-to_bits_example = from_bits-to_bits big_endian packed (omega arith) (omega arith)
