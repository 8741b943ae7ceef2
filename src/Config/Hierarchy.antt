-- ===== src/Config/Hierarchy.antt =====
-- `findParent` and `prepareLoggers` of src/TomlConfigurator.cpp: a logger without a level or without
-- sinks takes them from its parents, and from the default logger.
pub mod Parents
pub mod Complete
pub mod Endless
use logpp.Common.{
  ℕ, zero, suc, Bool, true, false, Option, none, some, List, [], ◌∷◌, ◌++◌, length, if◌then◌else◌,
  ◌||◌, not, codes,
}
use logpp.Level.{LogLevel, iequals}
use logpp.Registry.Key.{for_each, rbegin}
use logpp.Options.{Text}
use logpp.Config.{Outcome, done, failed, no_fuel, ◌>>=◌, SinkConfig, LoggerConfig}

abbrev is_empty {ℓ} : {A : Type ℓ} → List A → Bool
is_empty [] = true
is_empty (a ∷ rest) = false

abbrev is_none {ℓ} : {A : Type ℓ} → Option A → Bool
is_none none = true
is_none (some a) = false

unfoldable pub has_missing : LoggerConfig → Bool
has_missing l = is_none l.level || is_empty l.sinks

-- `std::find_if` by name and by the default flag.
unfoldable pub find_named : Text → List LoggerConfig → Option LoggerConfig
find_named name [] = none
find_named name (l ∷ ls) =
    let later = find_named name ls in if iequals l.name name then some l else later

unfoldable pub find_default : List LoggerConfig → Option LoggerConfig
find_default [] = none
find_default (l ∷ ls) = let later = find_default ls in if l.is_default then some l else later

-- The body of the loop of `findParent`.
unfoldable pub parent_at : Text → List LoggerConfig → Text → Option LoggerConfig
unfolding find_named
parent_at name loggers fragment =
    if iequals fragment name then none else find_named fragment loggers

-- `findParent`; the outer `none` is a loop that has not ended.
unfoldable pub find_parent : LoggerConfig → List LoggerConfig → Option (Option LoggerConfig)
unfolding parent_at find_default
find_parent l loggers =
    elim (for_each (suc (suc (length l.name))) (parent_at l.name loggers) (rbegin l.name)) [
      | none ↦ none
      | some (some parent) ↦ some (some parent)
      | some none ↦ some (find_default loggers)
    ]

-- What a logger takes from a parent.
unfoldable pub inherit : LoggerConfig → LoggerConfig → LoggerConfig
inherit l parent = record l {
  sinks = if is_empty l.sinks then parent.sinks else l.sinks;
  level = if is_none l.level then parent.level else l.level;
}

-- The inner loop of `prepareLoggers`, on the logger that stands between `before` and `after`.
unfoldable pub complete_logger :
    ℕ → List LoggerConfig → LoggerConfig → List LoggerConfig → LoggerConfig → Outcome LoggerConfig
unfolding has_missing find_parent inherit
complete_logger zero before l after current = no_fuel
complete_logger (suc fuel) before l after current =
    let next = complete_logger fuel before in
    if has_missing l
    then elim (find_parent current (before ++ (l ∷ after))) [
      | none ↦ no_fuel
      | some none ↦ failed (codes "logger: invalid hierarchy: failed to find parent logger")
      | some (some parent) ↦ next (inherit l parent) after parent
    ]
    else done l

-- The outer loop.
unfoldable pub prepare_from :
    ℕ → List LoggerConfig → List LoggerConfig → Outcome (List LoggerConfig)
unfolding complete_logger
prepare_from fuel before [] = done before
prepare_from fuel before (l ∷ after) =
    complete_logger fuel before l after l >>= λ l'. prepare_from fuel (before ++ (l' ∷ [])) after

unfoldable pub prepare_loggers : ℕ → List LoggerConfig → Outcome (List LoggerConfig)
unfolding prepare_from
prepare_loggers fuel loggers = prepare_from fuel [] loggers
