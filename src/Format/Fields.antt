-- ===== src/Format/Fields.antt =====
-- `FieldsFormatter`: the fields of an event as a line of pairs.
use logpp.Common.{
  ℕ, ◌+◌, ◌<◌, ◌≡◌, refl, true, false, some, List, [], ◌∷◌, ◌++◌, append-nil, append_assoc, ltb,
  arith,
}
use logpp.Event.{EventLogBuffer, Value, text, literal, scalar, Field, visit_fields}
use logpp.Format.{
  Platform, has_space, write_string_pair, write_value_pair, shown, visit_field, visit_from,
  format_fields,
}
use logpp.Format.Pairs.{Pairs, pairs_tail, pairs_line}

module _ (p : Platform) where
  -- The pair that a field is printed as.
  abbrev pub field_pair : ℕ → Field → List ℕ × List ℕ
  field_pair i f = (shown p i f.key, shown p i f.value)

  abbrev pub field_pairs : ℕ → List Field → Pairs
  field_pairs i [] = []
  field_pairs i (f ∷ fs) = field_pair i f ∷ field_pairs (i + 1) fs

  -- What fmt prints for a scalar has no space.
  abbrev pub IsCompact : ℕ → Value → Type 0
  IsCompact i (text s) = Unit
  IsCompact i (literal a) = Unit
  IsCompact i (scalar bs) = has_space (p.display i bs) ≡ false

  abbrev pub AllCompact : ℕ → List Field → Type 0
  AllCompact i [] = Unit
  AllCompact i (f ∷ fs) = IsCompact i f.value × AllCompact (i + 1) fs

  visit_field-pair :
      (i : ℕ) (key value : Value)
      → IsCompact i value
      → visit_field p i (record { key = key; value = value })
        ≡ write_string_pair (shown p i key) (shown p i value)
  unfolding visit_field write_string_pair write_value_pair shown
  visit_field-pair i key (text s) h = refl
  visit_field-pair i key (literal a) h = refl
  visit_field-pair i key (scalar bs) h = rw h refl

  visit_field-at :
      (i : ℕ) (f : Field)
      → IsCompact i f.value
      → visit_field p i f ≡ write_string_pair (shown p i f.key) (shown p i f.value)
  visit_field-at i f c = visit_field-pair i f.key f.value c

  visit_from-tail :
      (i : ℕ) (fs : List Field) (out : List ℕ)
      → 0 < i
      → AllCompact i fs
      → visit_from p i fs out ≡ out ++ pairs_tail (field_pairs i fs)
  unfolding visit_from pairs_tail
  visit_from-tail i [] out h c = rw (append-nil out) refl
  visit_from-tail i (f ∷ fs) out h (c, cs) =
      let positive : ltb 0 i ≡ true = ground (arith, h) in
      rw
        (
          positive,
          visit_from-tail (i + 1) fs ((out ++ (b' ' ∷ [])) ++ visit_field p i f) (omega arith) cs,
          visit_field-at i f c,
          append_assoc out (b' ' ∷ []) (write_string_pair (shown p i f.key) (shown p i f.value)),
          append_assoc out (b' ' ∷ write_string_pair (shown p i f.key) (shown p i f.value))
              (pairs_tail (field_pairs (i + 1) fs)),
        )
        refl

  -- Behind other pairs, and a blank as the prefix, the fields are the pairs that come next.
  pub format_fields-tail :
      (e : EventLogBuffer) (fs : List Field) (out : List ℕ)
      → visit_fields e ≡ some fs
      → AllCompact 0 fs
      → format_fields p (b' ' ∷ []) e out ≡ some (out ++ pairs_tail (field_pairs 0 fs))
  unfolding format_fields pairs_tail visit_from
  format_fields-tail e [] out h c = rw (h, append-nil out) refl
  format_fields-tail e (f ∷ fs) out h (c, cs) = rw h (
      rw
        (
          visit_from-tail 1 fs ((out ++ (b' ' ∷ [])) ++ visit_field p 0 f) (omega arith) cs,
          visit_field-at 0 f c,
          append_assoc out (b' ' ∷ []) (write_string_pair (shown p 0 f.key) (shown p 0 f.value)),
          append_assoc out (b' ' ∷ write_string_pair (shown p 0 f.key) (shown p 0 f.value))
              (pairs_tail (field_pairs 1 fs)),
        )
        refl)

  -- The fields on their own, behind a prefix.
  abbrev pub fields_line : List ℕ → List Field → List ℕ
  fields_line prefix [] = []
  fields_line prefix (f ∷ fs) = prefix ++ pairs_line (field_pair 0 f) (field_pairs 1 fs)

  pub format_fields-line :
      (prefix : List ℕ) (e : EventLogBuffer) (fs : List Field) (out : List ℕ)
      → visit_fields e ≡ some fs
      → AllCompact 0 fs
      → format_fields p prefix e out ≡ some (out ++ fields_line prefix fs)
  unfolding format_fields pairs_line visit_from
  format_fields-line prefix e [] out h c = rw (h, append-nil out) refl
  format_fields-line prefix e (f ∷ fs) out h (c, cs) = rw h (
      rw
        (
          visit_from-tail 1 fs ((out ++ prefix) ++ visit_field p 0 f) (omega arith) cs,
          visit_field-at 0 f c,
          append_assoc out prefix (write_string_pair (shown p 0 f.key) (shown p 0 f.value)),
          append_assoc out (prefix ++ write_string_pair (shown p 0 f.key) (shown p 0 f.value))
              (pairs_tail (field_pairs 1 fs)),
          append_assoc prefix (write_string_pair (shown p 0 f.key) (shown p 0 f.value))
              (pairs_tail (field_pairs 1 fs)),
        )
        refl)
