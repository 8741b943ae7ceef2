-- ===== src/Config/Hierarchy/Endless.antt =====
-- A default logger that is not complete.
use logpp.Common.{
  ℕ, zero, suc, ◌^◌, ◌<◌, ◌≡◌, refl, ◌∙◌, ap, ap₂, sym, Bool, true, false, Option, some, List, [],
  ◌∷◌, length, if◌then◌else◌, arith, Option-cases, inl, inr,
}
use logpp.Registry.Ancestors.{ancestors, first, for_each-ancestors}
use logpp.Options.{Text}
use logpp.Config.{LoggerConfig, no_fuel}
use logpp.Config.Hierarchy.{
  is_empty, is_none, has_missing, find_named, find_default, parent_at, find_parent, inherit,
  complete_logger, prepare_from, prepare_loggers,
}
use logpp.Config.Hierarchy.Parents.{first-shorter}

inherit_self : (d : LoggerConfig) → inherit d d ≡ d
unfolding inherit
inherit_self d =
    ap₂ (λ s v. record d { sinks = s; level = v }) (either (is_empty d.sinks) d.sinks)
      (either (is_none d.level) d.level)
  where
    either : {A : Type 0} (b : Bool) (a : A) → (if b then a else a) ≡ a
    either true a = refl
    either false a = refl

first-some :
    {R : Type 0} (body : Text → Option R) (fs : List Text) (p : R)
    → first body fs ≡ some p
    → (f : Text) × (body f ≡ some p)
unfolding first
first-some body [] p h = absurd (ground arith)
first-some body (f ∷ fs) p h = elim (Option-cases (body f)) [
  | inl e ↦ first-some body fs p (sym (rw (first, e) refl) ∙ h)
  | inr (q, e) ↦ (f, ground (arith, h, e))
]

only_named : (d p : LoggerConfig) (f : Text) → parent_at d.name (d ∷ []) f ≡ some p → p ≡ d
unfolding parent_at find_named
only_named d p f h = ground arith

find_parent_self :
    (d : LoggerConfig)
    → d.is_default ≡ true
    → length d.name < 2 ^ 63
    → find_parent d (d ∷ []) ≡ some (some d)
unfolding find_parent find_default
find_parent_self d flag small =
    elim (Option-cases (first (parent_at d.name (d ∷ [])) (ancestors d.name))) [
      | inl e ↦
          rw
            (
              find_parent,
              for_each-ancestors (parent_at d.name (d ∷ [])) d.name small,
              e,
              find_default,
              flag,
            )
            refl
      | inr (p, e) ↦
          let (f, b) = first-some (parent_at d.name (d ∷ [])) (ancestors d.name) p e in
          let short = first-shorter d.name (d ∷ []) p e in
          absurd (omega (arith, short, ap (λ q. length q.name) (only_named d p f b)))
    ]

complete_logger-endless :
    (fuel : ℕ) (d : LoggerConfig)
    → d.is_default ≡ true
    → has_missing d ≡ true
    → length d.name < 2 ^ 63
    → complete_logger fuel [] d [] d ≡ no_fuel
unfolding complete_logger
complete_logger-endless zero d flag missing small = refl
complete_logger-endless (suc fuel) d flag missing small =
    rw (missing, find_parent_self d flag small, inherit_self d)
      (complete_logger-endless fuel d flag missing small)

-- A configuration whose only logger is the default one, and has no level or no sinks: the logger is its
-- own parent, takes nothing, and the loop of `prepareLoggers` does not end, whatever the fuel.
pub prepare_loggers-endless :
    (fuel : ℕ) (d : LoggerConfig)
    → d.is_default ≡ true
    → has_missing d ≡ true
    → length d.name < 2 ^ 63
    → prepare_loggers fuel (d ∷ []) ≡ no_fuel
unfolding prepare_loggers prepare_from
prepare_loggers-endless fuel d flag missing small =
    rw (complete_logger-endless fuel d flag missing small) refl
