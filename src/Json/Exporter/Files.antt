-- ===== src/Json/Exporter/Files.antt =====
-- The bytes of a file that crates/json/src/lib.rs has written from its start to its end.
use Prim.Native.String.{String}
use trace.Prelude.{ℕ}
use trace.Json.Records
use trace.Output.{write, SharedFile, whole, flush, commit, open_shared}
use trace.Json.Records.{Template, bind, records, Fits, IsMade, write_batch-records, template_of}
use trace.Json.Exporter.{
  JsonExporter, Entry, thread_name, dropped_events, put_dropped, put_threads, put_entry,
  write_batch,
}
use trace.Prelude.{
  Bool-cases, List, [], ap, append-nil, append_assoc, if◌then◌else◌, inl, inr, ltb, refl, sym, true,
  ◌++◌, ◌∙◌, ◌∷◌, ◌≡◌,
}
use trace.Json.Exporter.{write, Event, CodeInfo, create_file, begun}
use trace.Prelude.{All, Bool, Option, false, some, ◌<◌, ◌^◌}
use trace.Prelude.{arith, none, some-injective}
use trace.Json.Records.{info_of, event_bytes}
use trace.Event.{code_id}
use trace.Json.Exporter.{finish, new}

-- A flush that the system carries out whole.
flush_whole :
    (file buf : List ℕ)
    → flush whole true file (record { buf = buf }) ≡ (true, file ++ buf, record { buf = [] })
unfolding flush commit
flush_whole file [] = ap (λ f. (true, f, record { buf = [] })) (sym (append-nil file))
flush_whole file (b ∷ buf) = ground arith

bind_inv :
    {A B : Type 0} (o : Option A) (f : A → Option B) {b : B}
    → bind o f ≡ some b
    → (a : A) × (o ≡ some a) × (f a ≡ some b)
bind_inv none f e = cc
bind_inv (some a) f e = (a, refl, e)

module _ (utf8 : String → List ℕ) (to_writer : Entry → List ℕ) where
  -- The bytes of the entries, one after the other.
  abbrev pub entries_bytes : List Entry → List ℕ
  entries_bytes [] = []
  entries_bytes (entry ∷ entries) = to_writer entry ++ 44 ∷ entries_bytes entries

  abbrev pub entries_of : ℕ → List (ℕ × String) → ℕ → List Entry
  entries_of pid [] dropped = if ltb 0 dropped then dropped_events pid dropped ∷ [] else []
  entries_of pid ((tid, name) ∷ threads) dropped =
      thread_name pid tid name ∷ entries_of pid threads dropped

  put_entries :
      (pid : ℕ) (threads : List (ℕ × String)) (dropped : ℕ) (out : SharedFile)
      → (put_dropped utf8 to_writer pid dropped (put_threads utf8 to_writer pid threads out)).buf
        ≡ out.buf ++ entries_bytes (entries_of pid threads dropped)
  unfolding put_threads put_dropped put_entry write
  put_entries pid [] dropped out = elim (Bool-cases (ltb 0 dropped)) [
    | inl some_lost ↦
        rw some_lost (append_assoc out.buf (to_writer (dropped_events pid dropped)) (44 ∷ []))
    | inr none_lost ↦ rw none_lost (sym (append-nil out.buf))
  ]
  put_entries pid ((tid, name) ∷ threads) dropped out =
      let one = put_entry utf8 to_writer (thread_name pid tid name) out in
      put_entries pid threads dropped one
      ∙ ap (λ xs. xs ++ entries_bytes (entries_of pid threads dropped))
          (append_assoc out.buf (to_writer (thread_name pid tid name)) (44 ∷ []))
      ∙ append_assoc out.buf (to_writer (thread_name pid tid name) ++ 44 ∷ [])
          (entries_bytes (entries_of pid threads dropped))
      ∙ ap (◌++◌ out.buf) (
          append_assoc (to_writer (thread_name pid tid name)) (44 ∷ [])
            (entries_bytes (entries_of pid threads dropped)))

  -- The batches one after the other, up to a write that fails.
  unfoldable pub write_all :
      (ℕ → Option CodeInfo)
      → List (List Event)
      → List ℕ
      → JsonExporter
      → Option (Bool × List ℕ × JsonExporter)
  write_all codes [] file e = some (true, file, e)
  write_all codes (events ∷ batches) file e =
      bind (write_batch utf8 to_writer codes events whole true file e) (λ (ok, file', e').
        let rest = write_all codes batches file' e' in if ok then rest else some (false, file', e'))

  abbrev pub joined : List (List Event) → List Event
  joined [] = []
  joined (events ∷ batches) = events ++ joined batches

  records-append :
      (codes : ℕ → Option CodeInfo) (pid : ℕ) (xs ys : List Event) (bytes more : List ℕ)
      → records utf8 codes pid xs ≡ some bytes
      → records utf8 codes pid ys ≡ some more
      → records utf8 codes pid (xs ++ ys) ≡ some (bytes ++ more)
  unfolding records
  records-append codes pid [] ys bytes more e f =
      f ∙ ap (λ xs. some (xs ++ more)) (some-injective _ _ e)
  records-append codes pid (x ∷ xs) ys bytes more e f =
      let (template, t, e1) = bind_inv (template_of utf8 (info_of utf8 (codes (code_id x)))) _ e in
      let (one, o, e2) = bind_inv (event_bytes utf8 pid template x) _ e1 in
      let (rest, r, e3) = bind_inv (records utf8 codes pid xs) _ e2 in
      let all = records-append codes pid xs ys rest more r f in
      rw (records, t, o, all)
        (ap some (sym (append_assoc one rest more) ∙ ap (λ zs. zs ++ more) (some-injective _ _ e3)))

  write_batch_whole :
      (codes : ℕ → Option CodeInfo) (events : List Event) (file : List ℕ) (e : JsonExporter)
      (buf : List ℕ) (templates : List (ℕ × Template))
      → e.out.buf ≡ []
      → Records.write_batch utf8 codes e.pid events e.templates ≡ some (buf, templates)
      → write_batch utf8 to_writer codes events whole true file e
        ≡ some (true, file ++ buf, record e { out = record { buf = [] }; templates = templates })
  unfolding write_batch write
  write_batch_whole codes events file e buf templates empty written =
      rw (write_batch, written, empty, flush_whole file buf) refl

  write_all-records :
      (codes : ℕ → Option CodeInfo) (batches : List (List Event)) (file : List ℕ) (e : JsonExporter)
      → Fits utf8 codes
      → e.pid < 2 ^ 32
      → e.out.buf ≡ []
      → All (λ events. All (λ (ev : Event). (ev.ts_ns < 2 ^ 64) × (ev.tid < 2 ^ 32)) events) batches
      → IsMade utf8 codes e.templates
      → (bytes : List ℕ) × (f : JsonExporter) × (write_all codes batches file e
          ≡ some (true, file ++ bytes, f))
        × (records utf8 codes e.pid (joined batches) ≡ some bytes)
        × (f.out.buf ≡ [])
        × (f.pid ≡ e.pid)
  unfolding write_all records
  write_all-records codes [] file e fits small empty readable made =
      ([], e, rw (append-nil file) refl, refl, empty, refl)
  write_all-records codes (events ∷ batches) file e fits small empty readable made =
      let (buf, templates, written, plain, kept) =
        write_batch-records utf8 codes e.pid events e.templates fits small readable.0 made in
      let next : JsonExporter = record e { out = record { buf = [] }; templates = templates } in
      let (more, f, rest, plain', empty', same) =
        write_all-records codes batches (file ++ buf) next fits small refl readable.1 kept in
      let step : write_batch utf8 to_writer codes events whole true file e
          ≡ some (true, file ++ buf, next) =
        write_batch_whole codes events file e buf templates empty written in
      (
        buf ++ more,
        f,
        rw (write_all, step) rest ∙ ap (λ xs. some (true, xs, f)) (append_assoc file buf more),
        records-append codes e.pid events (joined batches) buf more plain plain',
        empty',
        same,
      )

  finish_whole :
      (threads : List (ℕ × String)) (dropped : ℕ) (file : List ℕ) (e : JsonExporter)
      → e.out.buf ≡ []
      → let (ok, after, _) = finish utf8 to_writer threads dropped whole true file e in
        (ok ≡ true) × (after ≡ file ++ entries_bytes (entries_of e.pid threads dropped))
  unfolding finish
  finish_whole threads dropped file e empty =
      let put =
        put_dropped utf8 to_writer e.pid dropped (put_threads utf8 to_writer e.pid threads e.out) in
      let all : put.buf ≡ entries_bytes (entries_of e.pid threads dropped) =
        put_entries e.pid threads dropped e.out
        ∙ ap (λ xs. xs ++ entries_bytes (entries_of e.pid threads dropped)) empty in
      let flushed = flush_whole file put.buf in
      (
        ap (λ (r : Bool × List ℕ × SharedFile). r.0) flushed,
        ap (λ (r : Bool × List ℕ × SharedFile). r.1) flushed ∙ ap (◌++◌ file) all,
      )

  -- Where every number fits its type and the system's part goes well, a new file is over what stood there:
  -- once all batches are written and `finish` is called, it is `[`, then a record for each event, in
  -- their order and as if made from scratch, and then an entry for each thread and, where events were
  -- dropped, one with their number, each with a comma behind it.
  pub finish-create_file :
      (codes : ℕ → Option CodeInfo) (pid : ℕ) (batches : List (List Event))
      (threads : List (ℕ × String)) (dropped : ℕ) (before : List ℕ)
      → Fits utf8 codes
      → pid < 2 ^ 32
      → All (λ events. All (λ (ev : Event). (ev.ts_ns < 2 ^ 64) × (ev.tid < 2 ^ 32)) events) batches
      → (e : JsonExporter) × (f : JsonExporter) × (bytes : List ℕ) × (create_file true true whole
            true pid before
          ≡ (some e, 91 ∷ []))
        × (write_all codes batches (91 ∷ []) e ≡ some (true, 91 ∷ bytes, f))
        × (records utf8 codes pid (joined batches) ≡ some bytes)
        × (let (ok, after, _) = finish utf8 to_writer threads dropped whole true (91 ∷ bytes) f in
            (ok ≡ true) × (after ≡ 91 ∷ bytes ++ entries_bytes (entries_of pid threads dropped)))
  unfolding create_file begun trace.Output.create open_shared write new
  finish-create_file codes pid batches threads dropped before fits small readable =
      let e : JsonExporter = record { out = record { buf = [] }; pid = pid; templates = [] } in
      let (bytes, f, run, plain, empty, same) =
        write_all-records codes batches (91 ∷ []) e fits small refl readable tt in
      let (ok, after) = finish_whole threads dropped (91 ∷ bytes) f empty in
      (
        e,
        f,
        bytes,
        rw (flush_whole [] (91 ∷ [])) refl,
        run,
        plain,
        (ok, after ∙ ap (λ p. 91 ∷ bytes ++ entries_bytes (entries_of p threads dropped)) same),
      )
