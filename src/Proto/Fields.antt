-- ===== src/Proto/Fields.antt =====
-- The fields of an event and the template bytes of crates/proto/src/lib.rs: their lengths and ranges.
use trace.Proto.Safety.{Ready, code_iid-After}
use trace.Proto.Entries.{varint_lem}
use trace.Prelude.{
  Bool, List, Option, [], arith, false, leb, length, length-append, refl, some, true, ℕ, ◌&&◌, ◌++◌,
  ◌+◌, ◌<◌, ◌^◌, ◌∷◌, ◌≡◌, ◌≤◌,
}
use trace.Proto.Templates.{slice, kept, appended}
use trace.Proto.Sequences.{Outside}
use trace.Proto.Packet.{TracePacket}
use trace.Proto.Templates.{opening, event_fields}
use trace.Proto.{ProtoExporter, tag_name_iid, tag_source_location_iid, category_iid}
use trace.Sink.{CodeInfo}
use trace.Proto.Action.{After, pure-After, >>=-After, or_panic-After}
use trace.Prelude.{All}
use trace.Proto.{tag_category_iids}
use trace.Prelude.{drop, take, ◌-◌}

pub All-weaken :
    {A : Type 0} (P Q : A → Type 0) (xs : List A) → ((a : A) → P a → Q a) → All P xs → All Q xs
All-weaken P Q [] f h = tt
All-weaken P Q (x ∷ xs) f h = (f x (h.0), All-weaken P Q xs f (h.1))

-- `&bytes[start..end]` inside.
pub slice-some :
    (bytes : List ℕ) (start end : ℕ)
    → start ≤ end
    → end ≤ length bytes
    → (body : List ℕ) × (slice bytes start end ≡ some body)
slice-some bytes start end h k =
    let inside : (leb start end && leb end (length bytes)) ≡ true = ground arith in
    (take (end - start) (drop start bytes), rw inside refl)

module _ {Out : Type 0} (o : Outside Out)
    (short : (p : TracePacket) (bytes : List ℕ)
      → o.encode p ≡ some bytes
      → length bytes < 2 ^ 64) where
  pub less-Ready :
      (n m tid : ℕ) (x : ProtoExporter Out) → m ≤ n → Ready o short n tid x → Ready o short m tid x
  less-Ready n m tid x less (h, there) = (
    record { ranges = h.ranges; sequences = h.sequences; room = omega (arith, h.room, less) },
    there,
  )

  pub three_lem :
      (xs ys zs : List ℕ) (n m : ℕ)
      → length xs ≤ n
      → length ys ≤ m
      → length (xs ++ ys ++ zs) ≤ n + m + length zs
  three_lem xs ys zs n m h k =
      let outer : length (xs ++ ys ++ zs) ≡ length (xs ++ ys) + length zs =
        length-append (xs ++ ys) zs in
      let inner : length (xs ++ ys) ≡ length xs + length ys = length-append xs ys in
      omega (arith, h, k, outer, inner)

  pub fields_lem :
      (category iid rest : List ℕ)
      → length category ≤ 10
      → length iid ≤ 10
      → length (tag_category_iids ∷ category ++ tag_name_iid ∷ iid ++ rest) ≤ 22 + length rest
  fields_lem category iid rest h k = omega (
    arith,
    h,
    k,
    three_lem (tag_category_iids ∷ category) (tag_name_iid ∷ iid) rest 11 11 (omega arith)
        (omega arith),
  )

  pub opening_lem :
      (category iid : List ℕ) (located : Bool)
      → length category ≤ 10
      → length iid ≤ 10
      → length (opening o category iid located) ≤ 34
  opening_lem category iid true h k =
      omega (arith, fields_lem category iid (tag_source_location_iid ++ iid) h k)
  opening_lem category iid false h k = omega (arith, fields_lem category iid [] h k)

  pub event_fields-After :
      (n tid code_id : ℕ) (opens : Bool) (codes : ℕ → Option CodeInfo) (x : ProtoExporter Out)
      → Ready o short n tid x
      → After
          (λ event y. (length event ≤ 36) × Ready o short n tid y)
          (event_fields o tid code_id opens codes x)
  unfolding event_fields
  event_fields-After n tid code_id false codes x ready = pure-After _ x _ (omega arith, ready)
  event_fields-After n tid code_id true codes x ready =
      >>=-After _ _ x _ _ (code_iid-After o short n tid code_id codes x ready) (λ e y (small, k).
        let (category, f, short_category) = varint_lem category_iid (omega arith) in
        let (iid, g, short_iid) = varint_lem (e.0) small in
        >>=-After _ _ y (λ c z. (length c ≤ 10) × Ready o short n tid z) _
          (or_panic-After _ category y _ f (short_category, k))
          (λ c z (short_c, l).
            >>=-After _ _ z (λ d w. (length d ≤ 10) × Ready o short n tid w) _
              (or_panic-After _ iid z _ g (short_iid, l))
              (λ d w (short_d, m).
                pure-After _ w _ (omega (arith, opening_lem c d (e.1) short_c short_d), m))))

  abbrev pub InBounds : ℕ × ℕ → ProtoExporter Out → Type 0
  InBounds range x = range.0 + range.1 ≤ length x.template_bytes

  pub appended-Ready :
      (n tid : ℕ) (bytes : List ℕ) (x : ProtoExporter Out)
      → length bytes ≤ 64
      → Ready o short (n + 64) tid x
      → Ready o short n tid (appended o bytes x)
  appended-Ready n tid bytes x small (h, there) =
      let longer = length-append x.template_bytes bytes in
      (
        record {
          ranges = All-weaken _ _ x.templates (λ e k. omega (arith, k, longer)) h.ranges;
          sequences = h.sequences;
          room = omega (arith, h.room, longer, small);
        },
        there,
      )

  pub kept-Ready :
      (n tid key : ℕ) (range : ℕ × ℕ) (x : ProtoExporter Out)
      → InBounds range x
      → Ready o short n tid x
      → Ready o short n tid (kept o key range x)
  kept-Ready n tid key range x inside (h, there) =
      (record { ranges = (inside, h.ranges); sequences = h.sequences; room = h.room }, there)
