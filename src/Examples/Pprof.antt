-- ===== src/Examples/Pprof.antt =====
-- One thread that calls at 100 and returns at 130, and a table with the empty string.
use trace.Prelude.{ℕ, ◌+◌, ◌^◌, ◌<◌, ◌≡◌, List, [], ◌∷◌, arith, ◌*◌}
use trace.Event.{Event, opens_slice, kind, kind_of}
use trace.Pprof.{PprofExporter, write_batch}
use trace.Pprof.Times.{total, open_time, total-write_batch}
use trace.Pprof.Profile.{Strings}

abbrev pub event : ℕ → ℕ → Event
event ts_ns code_kind = record { ts_ns = ts_ns; tid = 4; code_kind = code_kind }

abbrev pub call_and_return : List Event
call_and_return = event 100 (2 ^ 24 + 7) ∷ event 130 (2 * 2 ^ 24 + 7) ∷ []

abbrev start : PprofExporter
start = record { folds = []; self_ns = [] }

small : 0 + open_time [] call_and_return < 2 ^ 64
unfolding open_time opens_slice kind kind_of
small = omega arith

total-write_batch_example :
    total (write_batch call_and_return start).self_ns ≡ 0 + open_time [] call_and_return
total-write_batch_example = total-write_batch call_and_return start small

abbrev head : Strings
head = record { table = "" ∷ []; index = ("", 0) ∷ [] }
