-- ===== src/Config/Apply/Loggers.antt =====
-- A registry that a configuration has set up gives the loggers that it describes.
use logpp.Common.{
  ℕ, ◌^◌, ◌<◌, ◌≡◌, refl, ◌∙◌, ap, sym, subst, Bool, true, false, none, some, List, [], ◌∷◌, ◌++◌,
  length, get_elem?, codes, same, same_iff, arith, Bool-cases, Option-cases, inl, inr, ◌⊎◌,
}
use logpp.Level.{LogLevel}
use logpp.Sinks.{Sink}
use logpp.Logger.{Logger}
use logpp.Registry.{
  LoggerRegistry, Factory, find, insert, find_sink, get, instantiate, make_logger,
  register_logger_func,
}
use logpp.Registry.Ancestors.{ancestors}
use logpp.Registry.Lookup.{AllUnknown, get_lem, resolve-nearest, find-insert_new, find-insert_ne}
use logpp.Options.{Text}
use logpp.Config.{Outcome, done, failed, no_fuel, SinkConfig, LoggerConfig, option_then}
use logpp.Config.Apply.{
  logger_targets, combine, factory_of, succeeds, continue, configure_logger, configure_loggers,
}

abbrev pub AmongConfigs : LoggerConfig → List LoggerConfig → Type 0
AmongConfigs l [] = ⊥
AmongConfigs l (k ∷ ks) = (k ≡ l) ⊎ AmongConfigs l ks

-- What a configured logger is to get: its level, and its sinks combined.
pub record Described (store : List Sink) (r : LoggerRegistry) (l : LoggerConfig) : Type 0 where
  pub level : LogLevel
  pub target : Sink
  pub has_level : l.level ≡ some level
  pub has_target : option_then (logger_targets store r l.sinks) combine ≡ some target

-- A registration leaves the sinks and the loggers that there are, and keeps the factories.
record Registers (r r' : LoggerRegistry) : Type 0 where
  same_sinks : r'.sinks ≡ r.sinks
  same_loggers : r'.loggers ≡ r.loggers
  keeps :
      (p : Text) (f : Factory)
      → find p r.logger_factories ≡ some f
      → find p r'.logger_factories ≡ some f

find-insert_kept :
    {V : Type 0} (k j : Text) (v w : V) (m : List (Text × V))
    → find k m ≡ some w
    → find k (insert j v m).0 ≡ some w
unfolding insert find
find-insert_kept k j v w m h = elim (Bool-cases (same j k)) [
  | inr ne ↦ find-insert_ne k j v m ne ∙ h
  | inl e ↦ elim (Option-cases (find j m)) [
    | inr (u, hit) ↦ rw (insert, hit) h
    | inl miss ↦ absurd (none-some (sym miss ∙ ap (λ i. find i m) ((same_iff j k).0 e) ∙ h))
  ]
]
  where
    none-some : none ≡ some w → ⊥
    none-some q = cc

insert-new :
    {V : Type 0} (k : Text) (v : V) (m : List (Text × V))
    → (insert k v m).1 ≡ true
    → find k (insert k v m).0 ≡ some v
unfolding insert
insert-new k v m h = elim (Option-cases (find k m)) [
  | inl miss ↦ find-insert_new k v m miss
  | inr (w, hit) ↦ absurd (ground (arith, hit, h))
]

register_logger_func-Registers :
    (r : LoggerRegistry) (name : Text) (f : Factory) (b : Bool)
    → Registers r (register_logger_func r name f b).0
unfolding register_logger_func
register_logger_func-Registers r name f true = record {
  same_sinks = refl;
  same_loggers = refl;
  keeps = λ p g h. find-insert_kept p name f g r.logger_factories h;
}
register_logger_func-Registers r name f false = record {
  same_sinks = refl;
  same_loggers = refl;
  keeps = λ p g h. find-insert_kept p name f g r.logger_factories h;
}

register_logger_func-new :
    (r : LoggerRegistry) (name : Text) (f : Factory) (b : Bool)
    → (register_logger_func r name f b).1 ≡ true
    → find name (register_logger_func r name f b).0.logger_factories ≡ some f
unfolding register_logger_func insert
register_logger_func-new r name f true h = insert-new name f r.logger_factories h
register_logger_func-new r name f false h = insert-new name f r.logger_factories h

succeeds-done : (b : Bool) (e : Text) → succeeds b e ≡ done tt → b ≡ true
succeeds-done true e h = refl
succeeds-done false e h = absurd (ground arith)

configure_logger-registered :
    (store : List Sink) (l : LoggerConfig) (r : LoggerRegistry)
    → (configure_logger store l r).0 ≡ done tt
    → (d : Described store r l) × (configure_logger store l r
        ≡ (done tt, (register_logger_func r l.name (factory_of d.level d.target) l.is_default).0))
      × ((register_logger_func r l.name (factory_of d.level d.target) l.is_default).1 ≡ true)
unfolding configure_logger
configure_logger-registered store l r h = elim (Option-cases l.level) [
  | inl e ↦ absurd (ground (arith, e, h))
  | inr (level, e) ↦ elim (Option-cases (logger_targets store r l.sinks)) [
    | inl g ↦ absurd (ground (arith, e, g, h))
    | inr (targets, g) ↦ elim (Option-cases (combine targets)) [
      | inl k ↦ absurd (ground (arith, e, g, k, h))
      | inr (target, k) ↦
          let new_name : (register_logger_func r l.name (factory_of level target) l.is_default).1
              ≡ true =
            succeeds-done _ (codes "logger: logger already exists")
              (sym (rw (configure_logger, e, g, k) refl) ∙ h) in
          (
            record { level = level; target = target; has_level = e; has_target = rw g k },
            rw (configure_logger, e, g, k, new_name) refl,
            new_name,
          )
    ]
  ]
]

-- The references and the sinks that are read when loggers are configured.
Described-Registers :
    (store : List Sink) (r r' : LoggerRegistry) (l : LoggerConfig)
    → Registers r r'
    → Described store r' l
    → Described store r l
unfolding logger_targets find_sink
Described-Registers store r r' l x d = record {
  level = d.level;
  target = d.target;
  has_level = d.has_level;
  has_target = ap (λ ts. option_then ts combine) (sym (same_targets l.sinks)) ∙ d.has_target;
}
  where
    same_targets : (ss : List SinkConfig) → logger_targets store r' ss ≡ logger_targets store r ss
    same_targets [] = refl
    same_targets (s ∷ ss) = rw (logger_targets, find_sink, x.same_sinks, same_targets ss) refl

Registers-trans : (r r' r'' : LoggerRegistry) → Registers r r' → Registers r' r'' → Registers r r''
Registers-trans r r' r'' x y = record {
  same_sinks = y.same_sinks ∙ x.same_sinks;
  same_loggers = y.same_loggers ∙ x.same_loggers;
  keeps = λ p f h. y.keeps p f (x.keeps p f h);
}

-- What a list of configurations registers.
continue-done :
    {R : Type 0} (one rest : Outcome (Unit {0}) × R)
    → (continue one rest).0 ≡ done tt
    → one.0 ≡ done tt
unfolding continue
continue-done (done u, r) rest h = refl
continue-done (failed e, r) rest h = h
continue-done (no_fuel, r) rest h = h

-- What the loggers of a list are to get stands in the registry `r'`.
abbrev AllRegistered : List Sink → LoggerRegistry → List LoggerConfig → LoggerRegistry → Type 0
AllRegistered store r ls r' =
    Registers r r'
    × ((l : LoggerConfig)
        → AmongConfigs l ls
        → (d : Described store r l) × (find l.name r'.logger_factories
            ≡ some (factory_of d.level d.target)))

AllRegistered-cons :
    (store : List Sink) (l : LoggerConfig) (ls : List LoggerConfig) (r r₁ r' : LoggerRegistry)
    → (d : Described store r l) → Registers r r₁
    → find l.name r₁.logger_factories ≡ some (factory_of d.level d.target)
    → AllRegistered store r₁ ls r'
    → AllRegistered store r (l ∷ ls) r'
unfolding Described-Registers
AllRegistered-cons store l ls r r₁ r' d step here (x, all) = (
  Registers-trans r r₁ r' step x,
  λ k m. elim m [
    | inl e ↦
        subst
          (λ c.
            (d : Described store r c) × (find c.name r'.logger_factories
              ≡ some (factory_of d.level d.target)))
          e (d, x.keeps l.name (factory_of d.level d.target) here)
    | inr n ↦ let (dk, fk) = all k n in (Described-Registers store r r₁ k step dk, fk)
  ],
)

configure_loggers-step :
    (store : List Sink) (l : LoggerConfig) (ls : List LoggerConfig) (r r₁ : LoggerRegistry)
    → configure_logger store l r ≡ (done tt, r₁)
    → configure_loggers store (l ∷ ls) r ≡ configure_loggers store ls r₁
unfolding configure_loggers continue
configure_loggers-step store l ls r r₁ e =
    ap (λ one. continue one (configure_loggers store ls one.1)) e

configure_loggers-registered :
    (store : List Sink) (ls : List LoggerConfig) (r : LoggerRegistry)
    → (configure_loggers store ls r).0 ≡ done tt
    → AllRegistered store r ls (configure_loggers store ls r).1
unfolding configure_loggers
configure_loggers-registered store [] r h =
    (record { same_sinks = refl; same_loggers = refl; keeps = λ p f g. g }, λ l m. absurd m)
configure_loggers-registered store (l ∷ ls) r h =
    from_first (λ r₁ g. configure_loggers-registered store ls r₁ g)
      (configure_logger-registered store l r first_done)
  where
    first_done : (configure_logger store l r).0 ≡ done tt
    first_done =
        continue-done (configure_logger store l r)
          (configure_loggers store ls (configure_logger store l r).1) h

    from_first :
        ((r₁ : LoggerRegistry)
          → (configure_loggers store ls r₁).0 ≡ done tt
          → AllRegistered store r₁ ls (configure_loggers store ls r₁).1)
        → ((d : Described store r l) × (configure_logger store l r ≡ (
          done tt,
          (register_logger_func r l.name (factory_of d.level d.target) l.is_default).0,
        ))
            × ((register_logger_func r l.name (factory_of d.level d.target) l.is_default).1 ≡ true))
        → AllRegistered store r (l ∷ ls) (configure_loggers store (l ∷ ls) r).1
    from_first ih (d, made, new_name) =
        subst (λ t. AllRegistered store r (l ∷ ls) t.1) (sym all_made)
          (AllRegistered-cons store l ls r r₁ (configure_loggers store ls r₁).1 d
            (register_logger_func-Registers r l.name (factory_of d.level d.target) l.is_default)
            (register_logger_func-new r l.name (factory_of d.level d.target) l.is_default new_name)
            (ih r₁ (ap (λ t. t.0) (sym all_made) ∙ h)))
      where
        r₁ : LoggerRegistry
        r₁ = (register_logger_func r l.name (factory_of d.level d.target) l.is_default).0

        all_made : configure_loggers store (l ∷ ls) r ≡ configure_loggers store ls r₁
        all_made = configure_loggers-step store l ls r r₁ made

get_elem?-made :
    (r : LoggerRegistry) (name : Text) (level : LogLevel) (target : Sink)
    → (ref : ℕ) × (r' : LoggerRegistry) × (instantiate r name (factory_of level target)
        ≡ (some ref, r'))
      × (get_elem? r'.world.store ref
          ≡ some (record { name = name; level = level; target = target }))
unfolding instantiate make_logger
get_elem?-made r name level target = (
  length r.world.store,
  (instantiate r name (factory_of level target)).1,
  refl,
  get_elem?-last r.world.store (record { name = name; level = level; target = target }),
)
  where
    get_elem?-last :
        (ls : List Logger) (l : Logger) → get_elem? (ls ++ (l ∷ [])) (length ls) ≡ some l
    get_elem?-last [] l = refl
    get_elem?-last (k ∷ ls) l = get_elem?-last ls l

-- Let loggers be configured without an error, in a registry from which no logger has been taken yet. A
-- name of less than 2^63 bytes whose nearest known parent (or itself) is the name of one of the
-- configurations then gets a new logger of that name, with the level of that configuration, and with
-- its sinks, which were all registered.
pub configure_loggers-get :
    (store : List Sink) (ls : List LoggerConfig) (r : LoggerRegistry) (l : LoggerConfig)
    (name : Text) (pre post : List Text)
    → (configure_loggers store ls r).0 ≡ done tt
    → r.loggers ≡ []
    → AmongConfigs l ls
    → length name < 2 ^ 63
    → ancestors name ≡ pre ++ l.name ∷ post
    → AllUnknown (configure_loggers store ls r).1 pre
    → (d : Described store r l) × (ref : ℕ) × (r' : LoggerRegistry) × (get
          (configure_loggers store ls r).1
          name
        ≡ some (some ref, r'))
      × (get_elem? r'.world.store ref
          ≡ some (record { name = name; level = d.level; target = d.target }))
unfolding find
configure_loggers-get store ls r l name pre post h fresh m small e unknown =
    let (x, all) = configure_loggers-registered store ls r h in
    let (d, hit) = all l m in
    let made = get_elem?-made (configure_loggers store ls r).1 name d.level d.target in
    (
      d,
      made.0,
      made.1,
      get_lem (configure_loggers store ls r).1 name small
          ∙ ap some (
              resolve-nearest (configure_loggers store ls r).1 name l.name pre post
                (factory_of d.level d.target) e unknown (ap (find l.name) (x.same_loggers ∙ fresh))
                hit
              ∙ made.2),
      made.3,
    )
