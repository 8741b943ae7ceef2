-- ===== src/Config/Hierarchy/Complete.antt =====
-- Where the default logger is complete, `prepareLoggers` ends and leaves all loggers complete.
use logpp.Common.{
  ℕ, zero, suc, ◌+◌, ◌^◌, ◌≤◌, ◌<◌, ◌≡◌, refl, ◌∙◌, ap, sym, Bool, true, false, some, List, [], ◌∷◌,
  ◌++◌, append-nil, append_assoc, length, arith, Bool-cases, inl, inr, ◌⊎◌,
}
use logpp.Config.{LoggerConfig, done}
use logpp.Config.Hierarchy.{
  is_empty, is_none, has_missing, find_default, inherit, complete_logger, prepare_from,
  prepare_loggers,
}
use logpp.Config.Hierarchy.Parents.{find_parent-cases}

-- The first logger with the default flag is complete.
pub record HasDefault (ls : List LoggerConfig) : Type 0 where
  pub default : LoggerConfig
  pub is_first : find_default ls ≡ some default
  pub complete : has_missing default ≡ false

-- A logger keeps its name, its flag, and the level and the sinks that it had.
pub record Kept (l l' : LoggerConfig) : Type 0 where
  pub same_name : l'.name ≡ l.name
  pub same_flag : l'.is_default ≡ l.is_default
  pub kept_level : (is_none l.level ≡ true) ⊎ (l'.level ≡ l.level)
  pub kept_sinks : (is_empty l.sinks ≡ true) ⊎ (l'.sinks ≡ l.sinks)

abbrev pub AllCompleted : List LoggerConfig → List LoggerConfig → Type 0
AllCompleted [] [] = Unit
AllCompleted [] (l' ∷ ls') = ⊥
AllCompleted (l ∷ ls) [] = ⊥
AllCompleted (l ∷ ls) (l' ∷ ls') = (has_missing l' ≡ false) × Kept l l' × AllCompleted ls ls'

Kept-refl : (l : LoggerConfig) → Kept l l
Kept-refl l = record {
  same_name = refl;
  same_flag = refl;
  kept_level = inr refl;
  kept_sinks = inr refl;
}

Kept-trans : (l l' l'' : LoggerConfig) → Kept l l' → Kept l' l'' → Kept l l''
Kept-trans l l' l'' x y = record {
  same_name = y.same_name ∙ x.same_name;
  same_flag = y.same_flag ∙ x.same_flag;
  kept_level = trans_or (λ k. k.level) is_none x.kept_level y.kept_level;
  kept_sinks = trans_or (λ k. k.sinks) is_empty x.kept_sinks y.kept_sinks;
}
  where
    trans_or :
        {A : Type 0} (field : LoggerConfig → A) (missing : A → Bool)
        → (missing (field l) ≡ true) ⊎ (field l' ≡ field l)
        → (missing (field l') ≡ true) ⊎ (field l'' ≡ field l')
        → (missing (field l) ≡ true) ⊎ (field l'' ≡ field l)
    trans_or field missing (inl e) g = inl e
    trans_or field missing (inr e) (inl g) = inl (ap missing (sym e) ∙ g)
    trans_or field missing (inr e) (inr g) = inr (g ∙ e)

inherit_complete : (l p : LoggerConfig) → has_missing p ≡ false → has_missing (inherit l p) ≡ false
unfolding has_missing inherit
inherit_complete l p h = ground arith

inherit-Kept : (l p : LoggerConfig) → Kept l (inherit l p)
unfolding inherit
inherit-Kept l p = record {
  same_name = refl;
  same_flag = refl;
  kept_level = elim (Bool-cases (is_none l.level)) [ inl e ↦ inl e | inr e ↦ inr (rw e refl) ];
  kept_sinks = elim (Bool-cases (is_empty l.sinks)) [ inl e ↦ inl e | inr e ↦ inr (rw e refl) ];
}

module _ (before after : List LoggerConfig) (d : LoggerConfig)
    (complete : has_missing d ≡ false) where
  complete_logger-done :
      (fuel : ℕ) (l current : LoggerConfig)
      → ((l' : LoggerConfig)
          → l'.is_default ≡ l.is_default
          → find_default (before ++ (l' ∷ after)) ≡ some d)
      → length current.name < 2 ^ 63
      → length current.name + 2 ≤ fuel
      → (l' : LoggerConfig) × (complete_logger fuel before l after current ≡ done l')
        × (has_missing l' ≡ false)
        × Kept l l'
  unfolding complete_logger
  complete_logger-done zero l current default small enough = absurd (omega arith)
  complete_logger-done (suc fuel) l current default small enough =
      elim (Bool-cases (has_missing l)) [
        | inr e ↦ (l, rw e refl, e, Kept-refl l)
        | inl e ↦ elim (find_parent-cases current (before ++ (l ∷ after)) small) [
          | inl (p, g, short) ↦
              let rest =
                complete_logger-done fuel (inherit l p) p
                  (λ l' f. default l' (f ∙ (inherit-Kept l p).same_flag)) (omega (arith, short))
                  (omega (arith, short)) in
              (
                rest.0,
                rw (e, g) rest.1,
                rest.2,
                Kept-trans l (inherit l p) rest.0 (inherit-Kept l p) rest.3,
              )
          | inr g ↦ (
            inherit l d,
            rw (e, g, default l refl) (ends fuel (omega arith)),
            inherit_complete l d complete,
            inherit-Kept l d,
          )
        ]
      ]
    where
      ends : (f : ℕ) → 0 < f → complete_logger f before (inherit l d) after d ≡ done (inherit l d)
      ends zero h = absurd (omega arith)
      ends (suc f) h = rw (inherit_complete l d complete) refl

default-stable :
    (before : List LoggerConfig) (l : LoggerConfig) (after : List LoggerConfig) (d : LoggerConfig)
    → find_default (before ++ (l ∷ after)) ≡ some d
    → has_missing d ≡ false
    → has_missing l ≡ true
    → (l' : LoggerConfig) → l'.is_default ≡ l.is_default
    → find_default (before ++ (l' ∷ after)) ≡ some d
unfolding find_default
default-stable [] l after d h complete missing l' same_flag = elim (Bool-cases l.is_default) [
  | inl e ↦
      let found : some l ≡ some d = sym (rw (find_default, e) refl) ∙ h in
      absurd (ground (arith, found))
  | inr e ↦ rw (same_flag, e) (sym (rw (find_default, e) refl) ∙ h)
]
default-stable (b ∷ before) l after d h complete missing l' same_flag =
    elim (Bool-cases b.is_default) [
      | inl e ↦ rw e (sym (rw (find_default, e) refl) ∙ h)
      | inr e ↦ rw e (
          default-stable before l after d (sym (rw (find_default, e) refl) ∙ h) complete missing l'
            same_flag)
    ]

-- Each name is less than 2^63 bytes, and two less than the fuel.
abbrev pub AllShort : ℕ → List LoggerConfig → Type 0
AllShort fuel [] = Unit
AllShort fuel (l ∷ ls) = (length l.name < 2 ^ 63) × (length l.name + 2 ≤ fuel) × AllShort fuel ls

complete_logger-Kept :
    (fuel : ℕ) (before : List LoggerConfig) (l : LoggerConfig) (after : List LoggerConfig)
    (d : LoggerConfig)
    → find_default (before ++ (l ∷ after)) ≡ some d
    → has_missing d ≡ false
    → length l.name < 2 ^ 63
    → length l.name + 2 ≤ fuel
    → (l' : LoggerConfig) × (complete_logger fuel before l after l ≡ done l')
      × (has_missing l' ≡ false)
      × Kept l l'
      × (find_default (before ++ (l' ∷ after)) ≡ some d)
unfolding complete_logger
complete_logger-Kept zero before l after d h complete small enough = absurd (omega arith)
complete_logger-Kept (suc fuel) before l after d h complete small enough =
    elim (Bool-cases (has_missing l)) [
      | inr e ↦ (l, rw e refl, e, Kept-refl l, h)
      | inl e ↦
          let stable = default-stable before l after d h complete e in
          let r = complete_logger-done before after d complete (suc fuel) l l stable small enough in
          (r.0, r.1, r.2, r.3, stable r.0 r.3.same_flag)
    ]

prepare_from-done :
    (fuel : ℕ) (before after : List LoggerConfig) (d : LoggerConfig)
    → find_default (before ++ after) ≡ some d
    → has_missing d ≡ false
    → AllShort fuel after
    → (after' : List LoggerConfig) × (prepare_from fuel before after ≡ done (before ++ after'))
      × AllCompleted after after'
unfolding prepare_from
prepare_from-done fuel before [] d h complete short = ([], ap done (sym (append-nil before)), tt)
prepare_from-done fuel before (l ∷ after) d h complete (small, enough, short) =
    let one = complete_logger-Kept fuel before l after d h complete small enough in
    let rest =
      prepare_from-done fuel (before ++ (one.0 ∷ [])) after d
        (ap find_default (append_assoc before (one.0 ∷ []) after) ∙ one.4) complete short in
    (
      one.0 ∷ rest.0,
      rw one.1 (rest.1 ∙ ap done (append_assoc before (one.0 ∷ []) rest.0)),
      (one.2, one.3, rest.2),
    )

-- If the first default logger has a level and sinks, `prepareLoggers` ends: each logger then has a level
-- and sinks, and keeps its name, its flag, and what it had of them. As many rounds as the longest name
-- has bytes, and two more, are enough; names have less than 2^63 bytes.
pub prepare_loggers-completed :
    (fuel : ℕ) (ls : List LoggerConfig)
    → HasDefault ls
    → AllShort fuel ls
    → (ls' : List LoggerConfig) × (prepare_loggers fuel ls ≡ done ls') × AllCompleted ls ls'
unfolding prepare_loggers
prepare_loggers-completed fuel ls h short =
    prepare_from-done fuel [] ls h.default h.is_first h.complete short
