-- ===== src/Event/Fields.antt =====
-- The fields of an event and its source location: written, then visited.
use native.Mathlib.Nat.{mod-eq_of_lt}
use logpp.Common.{
  ℕ, suc, ◌+◌, ◌*◌, ◌%◌, ◌^◌, ◌≤◌, ◌<◌, ◌≡◌, refl, ap, sym, subst, Option, some, List, [], ◌∷◌,
  ◌++◌, length, ◌>>=◌, length-append, arith,
}
use logpp.Buffer.{LogBuffer, offset_mod}
use logpp.Buffer.Wellformed.{IsValid}
use logpp.Event.{
  EventLogBuffer, Field, Value, block_bytes, write_all, write_fields, visit, visit_fields,
  field_kinds, fields_padding,
}
use logpp.Event.Values.{Extends, Extends-trans, At, Stands-get, encode-At, write_value-Stands}
use logpp.Event.Blocks.{
  AllBelow, AllWritable, length-block_bytes, overlay_block-At, StandAll, StandAll-Extends,
  values_size, WroteAll, WroteAll-cons, WroteAll-nil,
}

-- The keys and values of the fields, in the order of writing.
abbrev pub parts : List Field → List Value
parts [] = []
parts (f ∷ fs) = f.key ∷ f.value ∷ parts fs

visit-StandAll :
    (b : LogBuffer) (os : List ℕ) (fs : List Field)
    → StandAll b os (parts fs)
    → visit b (field_kinds fs) os ≡ some fs
unfolding visit
visit-StandAll b [] [] h = refl
visit-StandAll b (o ∷ os) [] h = elim h [ ]
visit-StandAll b (o ∷ p ∷ os) (f ∷ fs) h =
    rw (Stands-get b o f.key h.0, ◌>>=◌, Stands-get b p f.value h.1.0, visit-StandAll b os fs h.1.1)
visit-StandAll b (o ∷ []) (f ∷ fs) h = elim h.1 [ ]
visit-StandAll b [] (f ∷ fs) h = elim h [ ]

length-parts : (fs : List Field) → length (parts fs) ≡ length fs * 2
length-parts [] = refl
length-parts (f ∷ fs) = omega (arith, length-parts fs)

length-field_kinds : (fs : List Field) → length (field_kinds fs) ≡ length fs
length-field_kinds [] = refl
length-field_kinds (f ∷ fs) = ap suc (length-field_kinds fs)

length-fields_padding : (fs : List Field) → length (fields_padding fs) ≤ 1
length-fields_padding [] = omega arith
length-fields_padding (f ∷ fs) = omega arith

abbrev pub fields_size : List Field → ℕ
fields_size fs = 1 + values_size (parts fs) + length fs * 8

-- The event holds fields.
pub record HasFields (e : EventLogBuffer) (fs : List Field) (os : List ℕ) : Type 0 where
  pub func : e.header.fields_visit_func ≡ some (field_kinds fs)
  pub counted : e.header.fields_count ≡ length fs % 256
  pub block : At e.buffer e.header.fields_block_index (block_bytes os ++ fields_padding fs)
  pub below : AllBelow os
  pub count : length os ≡ length fs * 2
  pub stand : StandAll e.buffer os (parts fs)

-- Up to 255 fields are visited, each with its key and value and in order.
pub HasFields-visit_fields :
    {e : EventLogBuffer} (fs : List Field) {os : List ℕ}
    → HasFields e fs os
    → length fs < 256
    → visit_fields e ≡ some fs
unfolding visit_fields
HasFields-visit_fields {e} [] {os} h few = ground (arith, h.counted)
HasFields-visit_fields {e} (f ∷ fs) {os} h few = ground (
  arith,
  h.counted,
  h.func,
  overlay_block-At e.buffer e.header.fields_block_index (length (field_kinds (f ∷ fs)) * 2) os
      (fields_padding (f ∷ fs)) h.below (omega (arith, h.count, length-field_kinds fs)) h.block,
  visit-StandAll e.buffer os (f ∷ fs) h.stand,
)

-- The count is kept in eight bits: of 256 fields, 512, ..., none is visited.
pub HasFields-visit_fields_wrapped :
    {e : EventLogBuffer} {fs : List Field} {os : List ℕ}
    → HasFields e fs os
    → length fs % 256 ≡ 0
    → visit_fields e ≡ some []
unfolding visit_fields
HasFields-visit_fields_wrapped h wraps = ground (arith, h.counted)

module _ (malloc : ℕ → Option (List ℕ))
    (total : (n : ℕ) → (d : List ℕ) × (malloc n ≡ some d) × (length d ≡ n)) where
  write_all-WroteAll :
      (b : LogBuffer) (fs : List Field)
      → IsValid b
      → AllWritable (parts fs)
      → b.cursor + values_size (parts fs) < 2 ^ 32
      → (os : List ℕ) × (b' : LogBuffer) × (write_all malloc b fs ≡ some (os, b'))
        × WroteAll b b' os (parts fs)
  unfolding write_all
  write_all-WroteAll b [] v w small = ([], b, refl, WroteAll-nil b v)
  write_all-WroteAll b (f ∷ fs) v w small =
      let (c, e, xc, sc, mc) = write_value-Stands malloc total b f.key v w.0 (omega arith) in
      let (d, e', xd, sd, md) =
        write_value-Stands malloc total c f.value xc.valid w.1.0 (omega arith) in
      let (os, g, e'', wrote) = write_all-WroteAll d fs xd.valid w.1.1 (omega arith) in
      (
        b.cursor ∷ c.cursor ∷ os,
        g,
        rw (e, ◌>>=◌, e', e''),
        WroteAll-cons f.key xc sc mc (omega arith)
            (WroteAll-cons f.value xd sd md (omega arith) wrote),
      )

  -- What `writeFields` leaves.
  pub write_fields-HasFields :
      (e : EventLogBuffer) (fs : List Field)
      → IsValid e.buffer
      → AllWritable (parts fs)
      → e.buffer.cursor + fields_size fs < 2 ^ 32
      → (os : List ℕ) × (e' : EventLogBuffer) × (write_fields malloc e fs ≡ some e')
        × HasFields e' fs os
        × Extends e.buffer e'.buffer
        × (e'.header ≡ record e.header {
          fields_count = e'.header.fields_count;
          fields_block_index = e'.header.fields_block_index;
          fields_visit_func = e'.header.fields_visit_func;
        })
  unfolding write_fields
  write_fields-HasFields e fs v w small =
      let (os, b, eb, wrote) = write_all-WroteAll e.buffer fs v w (omega arith) in
      let block : List ℕ = block_bytes os ++ fields_padding fs in
      let size : length block ≤ 1 + length fs * 8 = omega (
        arith,
        length-append (block_bytes os) (fields_padding fs),
        length-block_bytes os,
        wrote.count,
        length-fields_padding fs,
        length-parts fs,
      ) in
      let (c, ec, xc, ac, mc) =
        encode-At malloc total b block wrote.extends.valid (omega (arith, wrote.moved)) in
      (
        os,
        record {
          header = record e.header {
            fields_count = length fs % 256;
            fields_block_index = b.cursor % offset_mod;
            fields_visit_func = some (field_kinds fs);
          };
          buffer = c;
        },
        rw (eb, ◌>>=◌, ec),
        record {
          func = refl;
          counted = refl;
          block = subst (λ i. At c i block) (sym (mod-eq_of_lt (omega (arith, wrote.moved)))) ac;
          below = wrote.below;
          count = omega (arith, wrote.count, length-parts fs);
          stand = StandAll-Extends os (parts fs) xc wrote.stand;
        },
        Extends-trans wrote.extends xc,
        refl,
      )
