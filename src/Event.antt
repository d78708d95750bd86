-- ===== src/Event.antt =====
-- crates/core/src/event.rs: the kinds of event, the packed event of a buffer, and the event that is
-- exported.
pub mod Words
use Prim.Native.String.{String}
use trace.Prelude.{ℕ, ◌+◌, ◌*◌, ◌/◌, ◌%◌, ◌^◌, Bool, true, false, bit_and, bit_or, ◌==◌}
use trace.Prelude.{if◌then◌else◌, add64}
use trace.Clock.{Clock, ns_since_start}

pub data EventKind : Type 0 where
  begin finish yield resume unwind throw : EventKind

-- The discriminants of the `#[repr(u8)]` enum.
unfoldable pub discriminant : EventKind → ℕ
discriminant begin = 1
discriminant finish = 2
discriminant yield = 3
discriminant resume = 4
discriminant unwind = 5
discriminant throw = 6

unfoldable pub from_u8 : ℕ → EventKind
from_u8 v =
    if v == 1
    then begin
    else if v == 2
    then finish
    else if v == 3
    then yield
    else if v == 4
    then resume
    else if v == 5
    then unwind
    else if v == 6
    then throw
    else begin

unfoldable pub as_str : EventKind → String
as_str begin = "start"
as_str finish = "return"
as_str yield = "yield"
as_str resume = "resume"
as_str unwind = "unwind"
as_str throw = "throw"

unfoldable pub opens_slice : EventKind → Bool
opens_slice begin = true
opens_slice resume = true
opens_slice throw = true
opens_slice finish = false
opens_slice yield = false
opens_slice unwind = false

abbrev pub code_id_mask : ℕ
code_id_mask = 0x00ff_ffff

-- `<<` on a `u32` drops what leaves the word.
unfoldable pub pack_code_kind : ℕ → EventKind → ℕ
unfolding discriminant
pack_code_kind code_id kind =
    bit_or (discriminant kind * 2 ^ 24 % 2 ^ 32) (bit_and code_id code_id_mask)

-- `code_kind & CODE_ID_MASK`, and the kind in the top byte.
unfoldable pub code_id_of : ℕ → ℕ
code_id_of code_kind = bit_and code_kind code_id_mask

unfoldable pub kind_of : ℕ → EventKind
unfolding from_u8
kind_of code_kind = from_u8 (code_kind / 2 ^ 24 % 2 ^ 8)

pub record PackedEvent : Type 0 where
  pub delta_ticks : ℕ
  pub code_kind : ℕ

-- `transmute` keeps the bytes, so which half of the `u64` a field is depends on the byte order.
pub data ByteOrder : Type 0 where
  little_endian big_endian : ByteOrder

unfoldable pub to_bits : ByteOrder → PackedEvent → ℕ
to_bits little_endian p = p.delta_ticks + p.code_kind * 2 ^ 32
to_bits big_endian p = p.code_kind + p.delta_ticks * 2 ^ 32

unfoldable pub from_bits : ByteOrder → ℕ → PackedEvent
from_bits little_endian bits = record { delta_ticks = bits % 2 ^ 32; code_kind = bits / 2 ^ 32 }
from_bits big_endian bits = record { delta_ticks = bits / 2 ^ 32; code_kind = bits % 2 ^ 32 }

pub record Event : Type 0 where
  pub ts_ns : ℕ
  pub tid : ℕ
  pub code_kind : ℕ

-- `Event::new`
unfoldable pub new : ℕ → ℕ → ℕ → EventKind → Event
new ts_ns tid code_id kind = record {
  ts_ns = ts_ns;
  tid = tid;
  code_kind = pack_code_kind code_id kind;
}

-- The sum is a `u64`, which wraps in a release build.
unfoldable pub from_packed : Clock → ℕ → ℕ → PackedEvent → Event
from_packed clock base_ticks tid p = record {
  ts_ns = ns_since_start clock (add64 base_ticks p.delta_ticks);
  tid = tid;
  code_kind = p.code_kind;
}

unfoldable pub code_id : Event → ℕ
unfolding code_id_of
code_id e = code_id_of e.code_kind

unfoldable pub kind : Event → EventKind
unfolding kind_of
kind e = kind_of e.code_kind
