-- ===== src/Event/Location.antt =====
-- The source location of an event: written, then read.
use native.Mathlib.Nat.{mod-eq_of_lt}
use logpp.Common.{
  ℕ, ◌+◌, ◌%◌, ◌^◌, ◌<◌, ◌≡◌, refl, sym, subst, Option, none, some, List, [], ◌∷◌, ◌++◌, length,
  ◌>>=◌, arith, append-nil,
}
use logpp.Buffer.{offset_mod, read_as}
use logpp.Buffer.Bytes.{le_bytes, length-le_bytes, le_value-le_bytes}
use logpp.Buffer.Wellformed.{IsValid}
use logpp.Event.{
  EventLogBuffer, SourceLocation, Value, literal, scalar, get_all, block_bytes,
  write_source_location, location, literal_kind, scalar_kind,
}
use logpp.Event.Values.{
  Extends, Extends-trans, At, At-Extends, Stands, Stands-Extends, encode-At, write-At,
}
use logpp.Event.Blocks.{
  AllBelow, length-block_bytes, overlay_block-At, StandAll, StandAll-get_all, StandAll-Extends,
}

-- The two values that a location is written as: the address of the file's name, and the line.
abbrev pub location_values : SourceLocation → List Value
location_values l = literal l.file.data_at ∷ scalar (le_bytes 8 l.line) ∷ []

-- The event holds a source location.
pub record HasLocation (e : EventLogBuffer) (l : SourceLocation) (os : List ℕ) : Type 0 where
  pub nonzero : 0 < e.header.source_location_block_index
  pub block : At e.buffer e.header.source_location_block_index (block_bytes os ++ [])
  pub below : AllBelow os
  pub count : length os ≡ 2
  pub stand : StandAll e.buffer os (location_values l)
  pub small : l.line < 2 ^ 64

-- What is left of a location: the file from its address up to the first NUL, and the line.
abbrev pub read_back : (ℕ → ℕ) → Option SourceLocation → Option SourceLocation
read_back strlen none = none
read_back strlen (some l) =
    some (record l { file = record { data_at = l.file.data_at; size = strlen l.file.data_at } })

pub HasLocation-location :
    {e : EventLogBuffer} {l : SourceLocation} {os : List ℕ} (strlen : ℕ → ℕ)
    → HasLocation e l os
    → location strlen e ≡ some (read_back strlen (some l))
unfolding location
HasLocation-location {e} {l} {os} strlen h = ground (
  arith,
  h.nonzero,
  overlay_block-At e.buffer e.header.source_location_block_index 2 os [] h.below (sym h.count)
      h.block,
  subst (λ n. get_all e.buffer (literal_kind ∷ scalar_kind n ∷ []) os ≡ some (location_values l))
      (length-le_bytes 8 l.line) (StandAll-get_all e.buffer os (location_values l) h.stand),
  le_value-le_bytes 8 l.line h.small,
)

pub HasLocation-Extends :
    {e e' : EventLogBuffer} {l : SourceLocation} {os : List ℕ}
    → Extends e.buffer e'.buffer
    → e'.header.source_location_block_index ≡ e.header.source_location_block_index
    → HasLocation e l os
    → HasLocation e' l os
HasLocation-Extends {e} {e'} {l} {os} x q h = record {
  nonzero = omega (arith, h.nonzero);
  block = subst (λ i. At e'.buffer i (block_bytes os ++ [])) (sym q) (At-Extends x h.block);
  below = h.below;
  count = h.count;
  stand = StandAll-Extends os (location_values l) x h.stand;
  small = h.small;
}

module _ (malloc : ℕ → Option (List ℕ))
    (total : (n : ℕ) → (d : List ℕ) × (malloc n ≡ some d) × (length d ≡ n)) where
  -- What `writeSourceLocation` leaves in an event whose header has been passed.
  pub write_source_location-HasLocation :
      (e : EventLogBuffer) (l : SourceLocation)
      → IsValid e.buffer
      → 0 < e.buffer.cursor
      → l.file.data_at < 2 ^ 64
      → l.line < 2 ^ 64
      → e.buffer.cursor + 24 < 2 ^ 32
      → (os : List ℕ) × (e' : EventLogBuffer) × (write_source_location malloc e l ≡ some e')
        × HasLocation e' l os
        × Extends e.buffer e'.buffer
        × (e'.buffer.cursor ≡ e.buffer.cursor + 24)
        × (e'.header ≡ record e.header {
          source_location_block_index = e'.header.source_location_block_index;
        })
  unfolding write_source_location
  write_source_location-HasLocation e l v pos file_fits line_fits small =
      let file : List ℕ = le_bytes 8 l.file.data_at in
      let line : List ℕ = le_bytes 8 l.line in
      let eight : length file ≡ 8 = length-le_bytes 8 l.file.data_at in
      let eight' : length line ≡ 8 = length-le_bytes 8 l.line in
      let (b, eb, xb, ab, mb) = write-At malloc total e.buffer file v (omega arith) (omega arith) in
      let (c, ec, xc, ac, mc) = write-At malloc total b line xb.valid (omega arith) (omega arith) in
      let os : List ℕ = e.buffer.cursor ∷ b.cursor ∷ [] in
      let size : length (block_bytes os) ≡ 8 = length-block_bytes os in
      let (d, ed, xd, ad, md) = encode-At malloc total c (block_bytes os) xc.valid (omega arith) in
      let literal_stands : Stands b e.buffer.cursor (literal l.file.data_at) = (
        file_fits,
        omega (arith, ab.within),
        subst (λ n. read_as b e.buffer.cursor n ≡ some file) eight ab.found,
      ) in
      let low : c.cursor < offset_mod = omega arith in
      (
        os,
        record {
          header = record e.header { source_location_block_index = c.cursor % offset_mod };
          buffer = d;
        },
        rw (eb, ◌>>=◌, ec, ed),
        record {
          nonzero = omega arith;
          block =
              subst (λ i. At d i (block_bytes os ++ [])) (sym (mod-eq_of_lt low))
                (rw append-nil ad);
          below = (omega arith, (omega arith, tt));
          count = refl;
          stand = (
            Stands-Extends e.buffer.cursor (literal l.file.data_at) (Extends-trans xc xd)
                literal_stands,
            (At-Extends xd ac, tt),
          );
          small = line_fits;
        },
        Extends-trans xb (Extends-trans xc xd),
        omega arith,
        refl,
      )
