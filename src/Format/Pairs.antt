-- ===== src/Format/Pairs.antt =====
-- Lines of pairs `key=value`, where a value with a space stands in quotes, and a reader of them.
use logpp.Common.{
  ℕ, ◌≡◌, refl, Bool, true, false, not, ◌&&◌, Option, none, some, List, [], ◌∷◌, ◌++◌, append-nil,
  append_assoc, if◌then◌else◌, ◌==◌, arith, Bool-cases, inl, inr,
}
use logpp.Pattern.Grammar.{Lacks}
use logpp.Format.{has_space, write_string_pair}

abbrev pub Pairs : Type 0
Pairs = List (List ℕ × List ℕ)

-- Where the reader stands: in a key, behind `=`, in a value, in quotes, behind the quotes.
pub data Place : Type 0 where
  in_key : List ℕ → Place
  behind_equals : List ℕ → Place
  in_value in_quotes behind_quotes : List ℕ → List ℕ → Place

abbrev pub then_pair : List ℕ → List ℕ → Option Pairs → Option Pairs
then_pair k v none = none
then_pair k v (some ps) = some ((k, v) ∷ ps)

unfoldable pub read_from : Place → List ℕ → Option Pairs
read_from (in_key k) [] = none
read_from (in_key k) (c ∷ s) =
    let key_ended = read_from (behind_equals k) s in
    let key_goes_on = read_from (in_key (k ++ (c ∷ []))) s in
    if c == b'=' then key_ended else key_goes_on
read_from (behind_equals k) [] = some ((k, []) ∷ [])
read_from (behind_equals k) (c ∷ s) =
    let quoted = read_from (in_quotes k []) s in
    let next = read_from (in_key []) s in
    let bare = read_from (in_value k (c ∷ [])) s in
    if c == b'"' then quoted else if c == b' ' then then_pair k [] next else bare
read_from (in_value k v) [] = some ((k, v) ∷ [])
read_from (in_value k v) (c ∷ s) =
    let next = read_from (in_key []) s in
    let more = read_from (in_value k (v ++ (c ∷ []))) s in
    if c == b' ' then then_pair k v next else more
read_from (in_quotes k v) [] = none
read_from (in_quotes k v) (c ∷ s) =
    let closed = read_from (behind_quotes k v) s in
    let more = read_from (in_quotes k (v ++ (c ∷ []))) s in if c == b'"' then closed else more
read_from (behind_quotes k v) [] = some ((k, v) ∷ [])
read_from (behind_quotes k v) (c ∷ s) =
    let next = read_from (in_key []) s in if c == b' ' then then_pair k v next else none

-- The pairs of a line; `none` if it is no line of pairs.
unfoldable pub read_pairs : List ℕ → Option Pairs
unfolding read_from
read_pairs s = read_from (in_key []) s

-- The pairs behind others, and the line of one pair and more.
unfoldable pub pairs_tail : Pairs → List ℕ
unfolding write_string_pair
pairs_tail [] = []
pairs_tail ((k, v) ∷ rest) = b' ' ∷ (write_string_pair k v ++ pairs_tail rest)

unfoldable pub pairs_line : List ℕ × List ℕ → Pairs → List ℕ
unfolding write_string_pair pairs_tail
pairs_line (k, v) rest = write_string_pair k v ++ pairs_tail rest

-- Keys without `=`, values without quotes.
abbrev pub AllReadable : Pairs → Type 0
AllReadable [] = Unit
AllReadable ((k, v) ∷ rest) = Lacks b'=' k × Lacks b'"' v × AllReadable rest

has_space_cons :
    (c : ℕ) (s : List ℕ) → has_space (c ∷ s) ≡ false → ((c == b' ') ≡ false) × (has_space s ≡ false)
has_space_cons c s h = (ground (arith, h), ground (arith, h))

module _ (rest : List ℕ) where
  read_from-key :
      (k s : List ℕ)
      → Lacks b'=' s
      → read_from (in_key k) (s ++ (b'=' ∷ rest)) ≡ read_from (behind_equals (k ++ s)) rest
  unfolding read_from
  read_from-key k [] h = rw (append-nil k) refl
  read_from-key k (c ∷ s) (e, h) =
      rw (e, read_from-key (k ++ (c ∷ [])) s h, append_assoc k (c ∷ []) s) refl

module _ (k : List ℕ) where
  read_from-quotes :
      (v s rest : List ℕ)
      → Lacks b'"' s
      → read_from (in_quotes k v) (s ++ (b'"' ∷ rest)) ≡ read_from (behind_quotes k (v ++ s)) rest
  unfolding read_from
  read_from-quotes v [] rest h = rw (append-nil v) refl
  read_from-quotes v (c ∷ s) rest (e, h) =
      rw (e, read_from-quotes (v ++ (c ∷ [])) s rest h, append_assoc v (c ∷ []) s) refl

  read_from-value :
      (v s : List ℕ) → has_space s ≡ false → read_from (in_value k v) s ≡ some ((k, v ++ s) ∷ [])
  unfolding read_from
  read_from-value v [] h = rw (append-nil v) refl
  read_from-value v (c ∷ s) h =
      let (first, others) = has_space_cons c s h in
      rw (first, read_from-value (v ++ (c ∷ [])) s others, append_assoc v (c ∷ []) s) refl

  read_from-value_then :
      (v s rest : List ℕ)
      → has_space s ≡ false
      → read_from (in_value k v) (s ++ (b' ' ∷ rest))
        ≡ then_pair k (v ++ s) (read_from (in_key []) rest)
  unfolding read_from
  read_from-value_then v [] rest h = rw (append-nil v) refl
  read_from-value_then v (c ∷ s) rest h =
      let (first, others) = has_space_cons c s h in
      rw (first, read_from-value_then (v ++ (c ∷ [])) s rest others, append_assoc v (c ∷ []) s) refl

  read_from-equals :
      (v : List ℕ)
      → Lacks b'"' v
      → has_space v ≡ false
      → read_from (behind_equals k) v ≡ some ((k, v) ∷ [])
  unfolding read_from
  read_from-equals [] l h = refl
  read_from-equals (c ∷ v) (q, l) h =
      let (first, others) = has_space_cons c v h in
      rw (q, first) (read_from-value (c ∷ []) v others)

  read_from-equals_then :
      (v rest : List ℕ)
      → Lacks b'"' v
      → has_space v ≡ false
      → read_from (behind_equals k) (v ++ (b' ' ∷ rest))
        ≡ then_pair k v (read_from (in_key []) rest)
  unfolding read_from
  read_from-equals_then [] rest l h = refl
  read_from-equals_then (c ∷ v) rest (q, l) h =
      let (first, others) = has_space_cons c v h in
      rw (q, first) (read_from-value_then (c ∷ []) v rest others)

module _ (k v : List ℕ) (no_equals : Lacks b'=' k) (no_quotes : Lacks b'"' v) where
  read_from-pair : read_from (in_key []) (write_string_pair k v) ≡ some ((k, v) ∷ [])
  unfolding write_string_pair read_from
  read_from-pair = elim (Bool-cases (has_space v)) [
    | inl e ↦
        rw
          (
            e,
            read_from-key (b'"' ∷ (v ++ (b'"' ∷ []))) [] k no_equals,
            read_from-quotes k [] v [] no_quotes,
          )
          refl
    | inr e ↦ rw (e, read_from-key v [] k no_equals) (read_from-equals k v no_quotes e)
  ]

  read_from-pair_then :
      (rest : List ℕ)
      → read_from (in_key []) (write_string_pair k v ++ (b' ' ∷ rest))
        ≡ then_pair k v (read_from (in_key []) rest)
  unfolding write_string_pair read_from
  read_from-pair_then rest = elim (Bool-cases (has_space v)) [
    | inl e ↦
        rw
          (
            e,
            append_assoc k (b'=' ∷ b'"' ∷ (v ++ (b'"' ∷ []))) (b' ' ∷ rest),
            append_assoc v (b'"' ∷ []) (b' ' ∷ rest),
            read_from-key (b'"' ∷ (v ++ (b'"' ∷ b' ' ∷ rest))) [] k no_equals,
            read_from-quotes k [] v (b' ' ∷ rest) no_quotes,
          )
          refl
    | inr e ↦
        rw
          (
            e,
            append_assoc k (b'=' ∷ v) (b' ' ∷ rest),
            read_from-key (v ++ (b' ' ∷ rest)) [] k no_equals,
          )
          (read_from-equals_then k v rest no_quotes e)
  ]

-- A line of pairs reads as the pairs.
pub read_pairs-line :
    (p : List ℕ × List ℕ) (ps : Pairs)
    → AllReadable (p ∷ ps)
    → read_pairs (pairs_line p ps) ≡ some (p ∷ ps)
unfolding read_pairs pairs_line pairs_tail
read_pairs-line (k, v) [] (e, q, r) =
    rw (append-nil (write_string_pair k v)) (read_from-pair k v e q)
read_pairs-line (k, v) (p ∷ ps) (e, q, r) =
    rw (read_from-pair_then k v e q (pairs_line p ps), read_pairs-line p ps r) refl

-- Deciding it.
abbrev lacks : ℕ → List ℕ → Bool
lacks c [] = true
lacks c (d ∷ s) = not (d == c) && lacks c s

abbrev pub all_readable : Pairs → Bool
all_readable [] = true
all_readable ((k, v) ∷ rest) = lacks b'=' k && (lacks b'"' v && all_readable rest)

and_both : (a b : Bool) → (a && b) ≡ true → (a ≡ true) × (b ≡ true)
and_both true b h = (refl, h)
and_both false b h = absurd (cc)

lacks-Lacks : (c : ℕ) (s : List ℕ) → lacks c s ≡ true → Lacks c s
lacks-Lacks c [] h = tt
lacks-Lacks c (d ∷ s) h =
    let (first, others) = and_both (not (d == c)) (lacks c s) h in
    (
      elim (Bool-cases (d == c)) [ inl e ↦ absurd (ground (arith, e, first)) | inr e ↦ e ],
      lacks-Lacks c s others,
    )

pub all_readable-AllReadable : (ps : Pairs) → all_readable ps ≡ true → AllReadable ps
all_readable-AllReadable [] h = tt
all_readable-AllReadable ((k, v) ∷ ps) h =
    let (key, others) = and_both (lacks b'=' k) (lacks b'"' v && all_readable ps) h in
    let (value, rest) = and_both (lacks b'"' v) (all_readable ps) others in
    (lacks-Lacks b'=' k key, lacks-Lacks b'"' v value, all_readable-AllReadable ps rest)
