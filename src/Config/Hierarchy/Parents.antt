-- ===== src/Config/Hierarchy/Parents.antt =====
-- `findParent` ends, and a parent by name has a shorter name.
use logpp.Common.{
  ℕ, zero, suc, ◌^◌, ◌≤◌, ◌<◌, ◌≡◌, refl, ◌∙◌, sym, true, ◌&&◌, Option, none, some, List, [], ◌∷◌,
  length, take, length-take, ltb, arith, Bool-cases, Option-cases, inl, inr, ◌⊎◌,
}
use logpp.Level.{iequals}
use logpp.Registry.Key.{is_dot}
use logpp.Registry.Ancestors.{parents, ancestors, first, for_each-ancestors}
use logpp.Options.{Text}
use logpp.Config.{LoggerConfig}
use logpp.Config.Hierarchy.{find_named, find_default, parent_at, find_parent}

iequals_refl : (s : Text) → iequals s s ≡ true
unfolding iequals
iequals_refl [] = refl
iequals_refl (c ∷ s) = ground (arith, iequals_refl s)

iequals-length : (s t : Text) → iequals s t ≡ true → length s ≡ length t
unfolding iequals
iequals-length [] [] h = refl
iequals-length [] (d ∷ t) h = absurd (ground arith)
iequals-length (c ∷ s) [] h = absurd (ground arith)
iequals-length (c ∷ s) (d ∷ t) h = ground (arith, iequals-length s t)

find_named-iequals :
    (name : Text) (ls : List LoggerConfig) (p : LoggerConfig)
    → find_named name ls ≡ some p
    → iequals p.name name ≡ true
unfolding find_named
find_named-iequals name [] p h = absurd (ground arith)
find_named-iequals name (l ∷ ls) p h = ground (arith, find_named-iequals name ls p)

first-parents :
    {R : Type 0} (body : Text → Option R) (key : Text) (n : ℕ) (p : R)
    → n ≤ length key
    → first body (parents key n) ≡ some p
    → (f : Text) × (length f < length key) × (body f ≡ some p)
unfolding first parents
first-parents body key zero p le h = absurd (ground arith)
first-parents body key (suc n) p le h = elim (Bool-cases (is_dot key n && ltb 0 n)) [
  | inl e ↦ elim (Option-cases (body (take n key))) [
    | inl b ↦ first-parents body key n p (omega (arith, le)) (sym (rw (e, b) refl) ∙ h)
    | inr (q, b) ↦ (take n key, omega (arith, le, length-take n key), ground (arith, e, b, h))
  ]
  | inr e ↦ first-parents body key n p (omega (arith, le)) (sym (rw e refl) ∙ h)
]

-- The parent by name, and whether there is one.
module _ (name : Text) (loggers : List LoggerConfig) where
  pub parent_at-some :
      (f : Text) (p : LoggerConfig) → parent_at name loggers f ≡ some p → length p.name ≡ length f
  unfolding parent_at
  parent_at-some f p h = ground (arith, find_named-iequals f loggers p, iequals-length p.name f)

  parent_at_self : parent_at name loggers name ≡ none
  unfolding parent_at
  parent_at_self = rw (iequals_refl name) refl

pub first-shorter :
    (name : Text) (loggers : List LoggerConfig) (p : LoggerConfig)
    → first (parent_at name loggers) (ancestors name) ≡ some p
    → length p.name < length name
unfolding first ancestors
first-shorter [] loggers p h = absurd (ground arith)
first-shorter (c ∷ s) loggers p h =
    let (f, short, b) =
      first-parents (parent_at (c ∷ s) loggers) (c ∷ s) (length (c ∷ s)) p (omega arith)
        (sym (rw (first, parent_at_self (c ∷ s) loggers) refl) ∙ h) in
    omega (arith, short, parent_at-some (c ∷ s) loggers f p b)

-- `findParent` ends for a name of less than 2^63 bytes: its parent has a shorter name, or is the
-- default logger, if there is one.
pub find_parent-cases :
    (l : LoggerConfig) (loggers : List LoggerConfig)
    → length l.name < 2 ^ 63
    → ((p : LoggerConfig) × (find_parent l loggers ≡ some (some p))
        × (length p.name < length l.name))
      ⊎ (find_parent l loggers ≡ some (find_default loggers))
unfolding find_parent
find_parent-cases l loggers small =
    elim (Option-cases (first (parent_at l.name loggers) (ancestors l.name))) [
      | inl e ↦
          inr (rw (find_parent, for_each-ancestors (parent_at l.name loggers) l.name small, e) refl)
      | inr (p, e) ↦ inl (
        p,
        rw (find_parent, for_each-ancestors (parent_at l.name loggers) l.name small, e) refl,
        first-shorter l.name loggers p e,
      )
    ]
