-- ===== src/Examples/Records.antt =====
-- A call and a return of one code object, in the bytes of an ASCII text.
use Prim.Native.String.{String}
use Prim.Native.Char.{code}
use text.Mathlib.TextBridge.{to_list}
use trace.Prelude.{ℕ, ◌≡◌, some, List, [], map, arith, Option}
use trace.Sink.{CodeInfo}
use trace.Json.Exporter.{JsonExporter, Entry, thread_name, dropped_events, finish, create_file}
use trace.Output.{whole}
use trace.Json.Records.{Fits, records}
use trace.Examples.Pprof.{call_and_return}
use trace.Prelude.{true, ◌++◌, ◌∷◌}
use trace.Json.Exporter.Files.{write_all, joined, entries_bytes, entries_of, finish-create_file}

abbrev ascii : String → List ℕ
ascii s = map code (to_list s)

abbrev codes : ℕ → Option CodeInfo
codes id = some (record { qualname = "main"; filename = "a.py"; firstlineno = 12 })

codes-Fits : Fits ascii codes
codes-Fits id = omega arith

-- A stand-in for `serde_json`: it need not give the real bytes.
abbrev to_writer : Entry → List ℕ
to_writer (thread_name pid tid name) = ascii name
to_writer (dropped_events pid count) = count ∷ []

finish-create_file_example :
    (e : JsonExporter) × (f : JsonExporter) × (bytes : List ℕ) × (create_file true true whole true
        77
        (1 ∷ 2 ∷ [])
      ≡ (some e, 91 ∷ []))
    × (write_all ascii to_writer codes (call_and_return ∷ call_and_return ∷ []) (91 ∷ []) e
        ≡ some (true, 91 ∷ bytes, f))
    × (records ascii codes 77 (joined ascii to_writer (call_and_return ∷ call_and_return ∷ []))
        ≡ some bytes)
    × (let (ok, after, _) = finish ascii to_writer ((4, "main") ∷ []) 3 whole true (91 ∷ bytes) f in
        (ok ≡ true)
        × (after
            ≡ 91 ∷ bytes
              ++ entries_bytes ascii to_writer
                  (entries_of ascii to_writer 77 ((4, "main") ∷ []) 3)))
finish-create_file_example =
    finish-create_file ascii to_writer codes 77 (call_and_return ∷ call_and_return ∷ [])
      ((4, "main") ∷ []) 3 (1 ∷ 2 ∷ []) codes-Fits (omega arith)
      (
        ((omega arith, omega arith), ((omega arith, omega arith), tt)),
        (((omega arith, omega arith), ((omega arith, omega arith), tt)), tt),
      )
