-- ===== src/Config/Apply/Reload.antt =====
-- Which loggers a reload of a watched file reaches.
use logpp.Common.{
  ℕ, ◌^◌, ◌<◌, ◌≡◌, ◌≢◌, refl, ap, true, some, List, [], ◌∷◌, length, length-take, get_elem?, ◌==◌,
  arith, Bool-cases, inl, inr,
}
use logpp.Level.{LogLevel, level_index}
use logpp.Logger.{Logger, set_level}
use logpp.Registry.{update_at}
use logpp.Registry.Defaults.{get_elem?-update_at, get_elem?-update_at_ne}
use logpp.Registry.Matches.{IsWithin, matches_iff}
use logpp.Options.{Text}
use logpp.Config.{LoggerConfig}
use logpp.Config.Apply.{reload_logger, reload_loggers}

IsWithin-length : (name key : Text) → IsWithin name key → length key < length name → ⊥
IsWithin-length name key (h, inl e) longer = omega (arith, ap length e)
IsWithin-length name key (h, inr (i, b, d, q)) longer =
    omega (arith, ap length q, length-take i key)

-- A logger whose name is longer than that of the configuration is not reached, as are all its children.
reload_logger-longer :
    (c : LoggerConfig) (name : Text) (ref : ℕ) (store : List Logger)
    → length c.name < 2 ^ 63
    → length c.name < length name
    → reload_logger c name ref store ≡ some store
unfolding reload_logger
reload_logger-longer c name ref store small longer =
    let (b, m, within) = matches_iff c.name name small in
    elim (Bool-cases b) [
      | inl e ↦ absurd (IsWithin-length name c.name (within.0 e) longer)
      | inr e ↦ rw (m, e) refl
    ]

-- A logger whose name is the configuration's, or a parent of it, gets the level.
reload_logger-within :
    (c : LoggerConfig) (name : Text) (ref : ℕ) (store : List Logger) (level : LogLevel) (l : Logger)
    (k : ℕ)
    → length c.name < 2 ^ 63
    → IsWithin name c.name
    → c.level ≡ some level
    → get_elem? store ref ≡ some l
    → ref ≢ k
    → (store' : List Logger) × (l' : Logger) × (reload_logger c name ref store ≡ some store')
      × (get_elem? store' ref ≡ some l')
      × (level_index l'.level ≡ level_index level)
      × (l'.name ≡ l.name)
      × (get_elem? store' k ≡ get_elem? store k)
unfolding reload_logger set_level
reload_logger-within c name ref store level l k small inside e g distinct =
    let (b, m, within) = matches_iff c.name name small in
    let yes : b ≡ true = within.1 inside in
    elim (Bool-cases (level_index l.level == level_index level)) [
      | inl same_level ↦
          (store, l, rw (m, yes, g, e, same_level) refl, g, ground (arith, same_level), refl, refl)
      | inr other ↦ (
        update_at (λ k. set_level k level) store ref,
        set_level l level,
        rw (m, yes, g, e, other) refl,
        get_elem?-update_at (λ k. set_level k level) store ref g,
        refl,
        refl,
        get_elem?-update_at_ne (λ k. set_level k level) store ref k distinct,
      )
    ]

-- A configuration with a level that is reloaded for a name of less than 2^63 bytes: of two loggers that
-- are registered, in either order, one under that name or a parent of it and one under a longer name, as
-- each child has, the reload gives the level to the first, and leaves every other logger of the store
-- as it was, and so the second, where it is another logger than the first.
pub reload_loggers-reversed :
    (c : LoggerConfig) (parent child : Text) (i j : ℕ) (store : List Logger) (level : LogLevel)
    (l : Logger) (k : ℕ)
    → length c.name < 2 ^ 63
    → c.level ≡ some level
    → IsWithin parent c.name
    → length c.name < length child
    → get_elem? store i ≡ some l
    → i ≢ k
    → (store' : List Logger) × (l' : Logger) × (reload_loggers c
          ((child, j) ∷ (parent, i) ∷ [])
          store
        ≡ some store')
      × (reload_loggers c ((parent, i) ∷ (child, j) ∷ []) store ≡ some store')
      × (get_elem? store' i ≡ some l')
      × (level_index l'.level ≡ level_index level)
      × (get_elem? store' k ≡ get_elem? store k)
unfolding reload_loggers
reload_loggers-reversed c parent child i j store level l k small e inside longer g other =
    let r = reload_logger-within c parent i store level l k small inside e g other in
    let kept = reload_logger-longer c child j store small longer in
    let kept' = reload_logger-longer c child j r.0 small longer in
    (r.0, r.1, rw (kept, r.2) refl, rw (r.2, kept') refl, r.3, r.4, r.6)
