-- ===== src/Json/Records.antt =====
-- crates/json/src/lib.rs: one record for each event. The fixed parts of a code object's records are
-- made once and kept.
use Prim.Native.String.{String}
use trace.Prelude.{
  ℕ, ◌<◌, ◌≡◌, ◌^◌, refl, Option, none, some, List, [], ◌∷◌, ◌++◌, ◌==◌, if◌then◌else◌, arith,
}
use trace.Event.{Event, opens_slice, kind, code_id, as_str}
use trace.Sink.{CodeInfo, default_info, same_text}
use trace.Json.{push_u64, push_micros, push_string}
use trace.Json.Numbers.{push_u64-read, push_micros-read}
use trace.Prelude.{Bool-cases, Option-cases, All, inr, inl, sym, ◌∙◌, ap}

pub record Template : Type 0 where
  pub head : List ℕ
  pub tail : List ℕ

abbrev pub bind : {A B : Type 0} → Option A → (A → Option B) → Option B
bind none f = none
bind (some a) f = f a

bind_total :
    {A B : Type 0} {o : Option A} (f : A → Option B) {a : A}
    → o ≡ some a
    → (b : B) × (f a ≡ some b)
    → (b : B) × (bind o f ≡ some b)
bind_total f e (b, p) = (b, ap (λ o. bind o f) e ∙ p)

abbrev pub find_template : ℕ → List (ℕ × Template) → Option Template
find_template id [] = none
find_template id ((known, template) ∷ templates) =
    if known == id then some template else find_template id templates

-- `utf8` gives the bytes of a `String`; `none` is a number that does not fit its digits.
module _ (utf8 : String → List ℕ) where
  abbrev name_of : CodeInfo → String
  name_of info = if same_text info.qualname "" then "<unknown>" else info.qualname

  -- `Template::of`
  unfoldable pub template_of : CodeInfo → Option Template
  template_of info = bind (push_u64 info.firstlineno) (λ line. some (record {
    head =
        utf8 "{\"name\":" ++ push_string (utf8 (name_of info)) ++ utf8 ",\"cat\":\"py\",\"ph\":\"";
    tail =
        utf8 ",\"args\":{\"file\":"
        ++ push_string (utf8 info.filename)
        ++ utf8 ",\"line\":"
        ++ line
        ++ utf8 ",\"kind\":\"";
  }))

  abbrev pub info_of : Option CodeInfo → CodeInfo
  info_of none = default_info
  info_of (some info) = info

  made : ℕ → List (ℕ × Template) → Option Template → Option (Template × List (ℕ × Template))
  made id templates none = none
  made id templates (some template) = some (template, (id, template) ∷ templates)

  -- `templates.entry(id).or_insert_with(..)`, with the map behind it.
  looked_up :
      (ℕ → Option CodeInfo)
      → ℕ
      → List (ℕ × Template)
      → Option Template
      → Option (Template × List (ℕ × Template))
  unfolding made
  looked_up codes id templates (some template) = some (template, templates)
  looked_up codes id templates none = made id templates (template_of (info_of (codes id)))

  -- The record of one event.
  unfoldable pub event_bytes : ℕ → Template → Event → Option (List ℕ)
  event_bytes pid template ev = bind (push_micros ev.ts_ns) (λ ts. bind (push_u64 pid) (λ process.
      bind (push_u64 ev.tid) (λ thread. some (
        template.head
        ++ (if opens_slice (kind ev) then 66 else 69) ∷ utf8 "\",\"ts\":"
        ++ ts
        ++ utf8 ",\"pid\":"
        ++ process
        ++ utf8 ",\"tid\":"
        ++ thread
        ++ template.tail
        ++ utf8 (as_str (kind ev))
        ++ utf8 "\"}},"))))

  -- What `write_batch` writes, and the templates behind it.
  unfoldable pub write_batch :
      (ℕ → Option CodeInfo)
      → ℕ
      → List Event
      → List (ℕ × Template)
      → Option (List ℕ × List (ℕ × Template))
  unfolding looked_up
  write_batch codes pid [] templates = some ([], templates)
  write_batch codes pid (ev ∷ events) templates =
      bind (looked_up codes (code_id ev) templates (find_template (code_id ev) templates))
        (λ (template, after). bind (event_bytes pid template ev) (λ bytes.
          bind (write_batch codes pid events after) (λ (more, final). some (bytes ++ more, final))))

  -- Every number that is put out fits its type.
  abbrev pub Fits : (ℕ → Option CodeInfo) → Type 0
  Fits codes = (id : ℕ) → (info_of (codes id)).firstlineno < 2 ^ 32

  event_bytes_lem :
      (pid : ℕ) (template : Template) (ev : Event)
      → pid < 2 ^ 32
      → ev.ts_ns < 2 ^ 64
      → ev.tid < 2 ^ 32
      → (bytes : List ℕ) × (event_bytes pid template ev ≡ some bytes)
  unfolding event_bytes
  event_bytes_lem pid template ev h k l =
      let (whole, rest, ts, _, _, _, _) = push_micros-read ev.ts_ns k in
      let (process, p, _, _, _, _) = push_u64-read pid (omega arith) in
      let (thread, t, _, _, _, _) = push_u64-read ev.tid (omega arith) in
      bind_total _ ts (bind_total _ p (bind_total _ t (_, refl)))

  -- The templates kept are those that would be made now.
  abbrev pub IsMade : (ℕ → Option CodeInfo) → List (ℕ × Template) → Type 0
  IsMade codes templates =
      All (λ (e : ℕ × Template). template_of (info_of (codes (e.0))) ≡ some (e.1)) templates

  -- The records without keeping templates.
  unfoldable pub records : (ℕ → Option CodeInfo) → ℕ → List Event → Option (List ℕ)
  records codes pid [] = some []
  records codes pid (ev ∷ events) = bind (template_of (info_of (codes (code_id ev)))) (λ template.
      bind (event_bytes pid template ev)
        (λ bytes. bind (records codes pid events) (λ more. some (bytes ++ more))))

  template_of_lem :
      (info : CodeInfo)
      → info.firstlineno < 2 ^ 32
      → (template : Template) × (template_of info ≡ some template)
  unfolding template_of
  template_of_lem info h =
      let (line, e, _, _, _, _) = push_u64-read info.firstlineno (omega arith) in
      bind_total _ e (_, refl)

  find_template_lem :
      (codes : ℕ → Option CodeInfo) (id : ℕ) (templates : List (ℕ × Template)) (template : Template)
      → IsMade codes templates
      → find_template id templates ≡ some template
      → template_of (info_of (codes id)) ≡ some template
  find_template_lem codes id [] template v e = cc
  find_template_lem codes id ((known, kept) ∷ templates) template v e =
      elim (Bool-cases (known == id)) [
        | inl same ↦ let q : known ≡ id = ground arith in rw (sym q) (v.0 ∙ rw same at e)
        | inr apart ↦ find_template_lem codes id templates template (v.1) (rw apart at e)
      ]

  looked_up_lem :
      (codes : ℕ → Option CodeInfo) (id : ℕ) (templates : List (ℕ × Template))
      → Fits codes
      → IsMade codes templates
      → (template : Template) × (after : List (ℕ × Template)) × (looked_up codes id templates
            (find_template id templates)
          ≡ some (template, after))
        × (template_of (info_of (codes id)) ≡ some template)
        × IsMade codes after
  unfolding looked_up made
  looked_up_lem codes id templates fits v = elim (Option-cases (find_template id templates)) [
    | inr (template, e) ↦
        (template, templates, rw e refl, find_template_lem codes id templates template v e, v)
    | inl absent ↦
        let (template, e) = template_of_lem (info_of (codes id)) (fits id) in
        (template, (id, template) ∷ templates, rw absent (rw e refl), e, (e, v))
  ]

  -- Where every number fits its type, `write_batch` gives a record for each event, in their order. The
  -- templates that it keeps do not show: the bytes are those of records each made from scratch.
  pub write_batch-records :
      (codes : ℕ → Option CodeInfo) (pid : ℕ) (events : List Event)
      (templates : List (ℕ × Template))
      → Fits codes
      → pid < 2 ^ 32
      → All (λ (ev : Event). (ev.ts_ns < 2 ^ 64) × (ev.tid < 2 ^ 32)) events
      → IsMade codes templates
      → (out : List ℕ) × (final : List (ℕ × Template)) × (write_batch codes pid events templates
          ≡ some (out, final))
        × (records codes pid events ≡ some out)
        × IsMade codes final
  unfolding write_batch records
  write_batch-records codes pid [] templates fits h k v = ([], templates, refl, refl, v)
  write_batch-records codes pid (ev ∷ events) templates fits h k v =
      let (template, after, found, made_now, w) =
        looked_up_lem codes (code_id ev) templates fits v in
      let (bytes, b) = event_bytes_lem pid template ev h (k.0.0) (k.0.1) in
      let (more, final, e, f, u) = write_batch-records codes pid events after fits h (k.1) w in
      (
        bytes ++ more,
        final,
        rw (write_batch, found, b, e) refl,
        rw (records, made_now, b, f) refl,
        u,
      )
