-- ===== src/LogFmt/Ends.antt =====
-- The parser ends on every pattern.
use logpp.Common.{
  ℕ, zero, suc, ◌+◌, ◌-◌, ◌≤◌, ◌<◌, ◌≡◌, ◌≢◌, ap, sym, subst, Bool, true, false, none, some, List,
  [], ◌∷◌, ◌++◌, length, codes, if◌then◌else◌, ◌==◌, arith, Bool-cases, Option-cases, inl, inr,
}
use logpp.Pattern.{
  Zone, utc, label_of, Label, part_label, local_label, plain_label, fields_label, default_label,
}
use logpp.LogFmt.{
  LogFmtFlag, multi_flag_formatter, key_value_formatter, LogFmtFlags, no_flags, Matched, matched,
  expected_value, unknown_flag, no_fuel, and_match, match_until, match_string, skip_blanks,
  add_capture, add_flag, match_switch, match_label, match_flag, match_pair, match_entry, match_loop,
  match_default, match_pattern,
}
use logpp.LogFmt.Default.{match_default-formatter}

-- A result that ends, and whose rest is not longer than `n`.
abbrev EndsIn {ℓ} : {A : Type ℓ} → (A → Type 0) → Matched A → Type 0
EndsIn P (matched a) = P a
EndsIn P (expected_value i) = Unit
EndsIn P (unknown_flag c i) = Unit
EndsIn P no_fuel = ⊥

EndsIn-and_match {ℓ κ} :
    {A : Type ℓ} {B : Type κ} (P : A → Type 0) (Q : B → Type 0) (m : Matched A) (f : A → Matched B)
    → EndsIn P m
    → ((a : A) → P a → EndsIn Q (f a))
    → EndsIn Q (and_match m f)
EndsIn-and_match P Q (matched a) f h g = g a h
EndsIn-and_match P Q (expected_value i) f h g = tt
EndsIn-and_match P Q (unknown_flag c i) f h g = tt
EndsIn-and_match P Q no_fuel f h g = h

EndsIn-if {ℓ} :
    {A : Type ℓ} (P : A → Type 0) (b : Bool) (x y : Matched A)
    → EndsIn P x
    → EndsIn P y
    → EndsIn P (if b then x else y)
EndsIn-if P true x y h g = h
EndsIn-if P false x y h g = g

length-skip_blanks : (s : List ℕ) → length (skip_blanks s) ≤ length s
unfolding skip_blanks
length-skip_blanks [] = omega arith
length-skip_blanks (c ∷ s) = elim (Bool-cases (c == b' ')) [
  | inl e ↦ rw e (omega (arith, length-skip_blanks s))
  | inr e ↦ rw e (omega arith)
]

length-match_until : (c : ℕ) (s : List ℕ) → length (match_until c s).1 ≤ length s
unfolding match_until
length-match_until c [] = omega arith
length-match_until c (d ∷ s) = elim (Bool-cases (d == c)) [
  | inl e ↦ rw e (omega arith)
  | inr e ↦ rw e (omega (arith, length-match_until c s))
]

length-match_string :
    (str s rest : List ℕ) → match_string str s ≡ some rest → length rest + length str ≤ length s
unfolding match_string
length-match_string [] s rest h = let same : s ≡ rest = cc in omega (arith, ap length same)
length-match_string (c ∷ str) [] rest h = absurd (cc)
length-match_string (c ∷ str) (d ∷ s) rest h = elim (Bool-cases (c == d)) [
  | inl e ↦
      let found = subst (λ b. (if b then match_string str s else none) ≡ some rest) e h in
      omega (arith, length-match_string str s rest found)
  | inr e ↦
      let found = subst (λ b. (if b then match_string str s else none) ≡ some rest) e h in
      absurd (cc)
]

EndsIn-weaken {ℓ} :
    {A : Type ℓ} (P Q : A → Type 0) (m : Matched A)
    → ((a : A) → P a → Q a)
    → EndsIn P m
    → EndsIn Q m
EndsIn-weaken P Q (matched a) w h = w a h
EndsIn-weaken P Q (expected_value i) w h = tt
EndsIn-weaken P Q (unknown_flag c i) w h = tt
EndsIn-weaken P Q no_fuel w h = h

module _ (full : Matched LogFmtFlag) (size : ℕ) (full_ends : EndsIn (λ f. Unit) full) where
  match_switch-ends :
      (label : Label) (zone : Zone) (flags : LogFmtFlags) (c : ℕ) (rest : List ℕ)
      → EndsIn (λ r. Unit) (match_switch full size label zone flags c rest)
  unfolding match_switch
  match_switch-ends (part_label p) zone flags c rest = tt
  match_switch-ends local_label zone flags c rest = tt
  match_switch-ends (plain_label p) zone flags c rest = tt
  match_switch-ends fields_label zone flags c rest = tt
  match_switch-ends default_label zone flags c rest =
      EndsIn-if (λ r. Unit) (c == b'+') (and_match full (λ f. matched (add_flag [] flags f, zone)))
        (unknown_flag c (size - suc (length rest)))
        (EndsIn-and_match (λ f. Unit) (λ r. Unit) full (λ f. matched (add_flag [] flags f, zone))
          full_ends (λ f h. tt))
        tt

  match_flag-ends :
      (zone : Zone) (flags : LogFmtFlags) (capture s : List ℕ)
      → EndsIn (λ r. length r.2 ≤ length s) (match_flag full size zone flags capture s)
  unfolding match_flag match_label
  match_flag-ends zone flags capture [] = omega arith
  match_flag-ends zone flags capture (c ∷ []) = elim (Bool-cases (c == b' ')) [
    | inl e ↦ rw e (omega arith)
    | inr e ↦
        rw e (elim (Bool-cases (c == b'%')) [ inl e' ↦ rw e' tt | inr e' ↦ rw e' (omega arith) ])
  ]
  match_flag-ends zone flags capture (c ∷ d ∷ rest) = EndsIn-if P (c == b' ') stop _ (omega arith) (
      EndsIn-if P (c == b'%') _ _
        (EndsIn-if P (d == b'f') stop _ (omega arith) (
          EndsIn-and_match (λ r. Unit) P
            (match_label full size zone (add_capture flags capture) d rest)
            (λ r. match_flag full size r.1 r.0 [] rest)
            (match_switch-ends (label_of d) zone (add_capture flags capture) d rest)
            (λ r h.
              EndsIn-weaken (λ q. length q.2 ≤ length rest) P (match_flag full size r.1 r.0 [] rest)
                (λ q k. omega (arith, k)) (match_flag-ends r.1 r.0 [] rest))))
        (EndsIn-weaken (λ q. length q.2 ≤ suc (length rest)) P
          (match_flag full size zone flags (capture ++ (c ∷ [])) (d ∷ rest))
          (λ q k. omega (arith, k)) (match_flag-ends zone flags (capture ++ (c ∷ [])) (d ∷ rest))))
    where
      P : LogFmtFlag × Zone × List ℕ → Type 0
      P r = length r.2 ≤ suc (suc (length rest))

      stop : Matched (LogFmtFlag × Zone × List ℕ)
      stop = matched (multi_flag_formatter (add_capture flags capture), zone, c ∷ d ∷ rest)

  match_pair-ends :
      (zone : Zone) (flags : LogFmtFlags) (s : List ℕ)
      → EndsIn (λ r. length r.2 < length s) (match_pair full size zone flags s)
  unfolding match_pair
  match_pair-ends zone flags s =
      at_found (match_until b'=' s).0 (match_until b'=' s).1 (length-match_until b'=' s)
    where
      at_found :
          (key found : List ℕ)
          → length found ≤ length s
          → EndsIn
              (λ (r : LogFmtFlags × Zone × List ℕ). length r.2 < length s)
              (elim found [
                | [] ↦ expected_value size
                | equals ∷ [] ↦ expected_value size
                | equals ∷ c ∷ rest ↦
                    and_match (match_flag full size zone no_flags [] (c ∷ rest)) (λ r.
                      matched (add_flag (codes " ") flags (key_value_formatter key r.0), r.1, r.2))
              ])
      at_found key [] h = tt
      at_found key (equals ∷ []) h = tt
      at_found key (equals ∷ c ∷ rest) h =
          EndsIn-and_match (λ r. length r.2 ≤ suc (length rest)) (λ r. length r.2 < length s)
            (match_flag full size zone no_flags [] (c ∷ rest))
            (λ r. matched (add_flag (codes " ") flags (key_value_formatter key r.0), r.1, r.2))
            (match_flag-ends zone no_flags [] (c ∷ rest)) (λ r k. omega (arith, h, k))

  match_entry-ends :
      (zone : Zone) (flags : LogFmtFlags) (s : List ℕ)
      → EndsIn (λ r. length r.2 < length s) (match_entry full size zone flags s)
  unfolding match_entry
  match_entry-ends zone flags s = elim (Option-cases (match_string (codes "%f") s)) [
    | inl e ↦ rw e (
        EndsIn-and_match (λ r. length r.2 < length s) (λ r. length r.2 < length s)
          (match_pair full size zone flags s) (λ r. matched (r.0, r.1, skip_blanks r.2))
          (match_pair-ends zone flags s) (λ r k. omega (arith, k, length-skip_blanks r.2)))
    | inr (rest, e) ↦
        rw e (omega (arith, length-match_string (codes "%f") s rest e, length-skip_blanks rest))
  ]

  match_loop-ends :
      (fuel : ℕ) (zone : Zone) (flags : LogFmtFlags) (s : List ℕ)
      → length s < fuel
      → EndsIn (λ f. Unit) (match_loop full size fuel zone flags s)
  unfolding match_loop
  match_loop-ends zero zone flags s h = absurd (omega arith)
  match_loop-ends (suc fuel) zone flags [] h = tt
  match_loop-ends (suc fuel) zone flags (c ∷ s) h =
      EndsIn-and_match (λ r. length r.2 < suc (length s)) (λ f. Unit)
        (match_entry full size zone flags (c ∷ s)) (λ r. match_loop full size fuel r.1 r.0 r.2)
        (match_entry-ends zone flags (c ∷ s))
        (λ r k. match_loop-ends fuel r.1 r.0 r.2 (omega (arith, k, h)))

EndsIn-ne : (m : Matched LogFmtFlag) → EndsIn (λ f. Unit) m → m ≢ no_fuel
EndsIn-ne (matched f) h e = cc
EndsIn-ne (expected_value i) h e = cc
EndsIn-ne (unknown_flag c i) h e = cc
EndsIn-ne no_fuel h e = h

-- Every pattern is parsed to a formatter or to an error.
pub match_pattern-ends : (pattern : List ℕ) → match_pattern pattern ≢ no_fuel
unfolding match_pattern
match_pattern-ends pattern = EndsIn-ne _ (elim (Option-cases (match_string (codes "%+") pattern)) [
  | inl e ↦ rw e (
      match_loop-ends match_default (length pattern) default_ends (suc (length pattern)) utc
        no_flags pattern (omega arith))
  | inr (rest, e) ↦ rw e default_ends
])
  where
    default_ends : EndsIn (λ f. Unit) match_default
    default_ends = subst (λ m. EndsIn (λ f. Unit) m) (sym match_default-formatter) tt
