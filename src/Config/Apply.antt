-- ===== src/Config/Apply.antt =====
-- `configureSinks`, `configureLoggers`, `configure`, and the reload of a watched file, of
-- src/TomlConfigurator.cpp.
--
-- The registry holds sinks by reference; the sinks stand in a store. What a configuration that fails has
-- registered before stays registered.
pub mod Loggers
pub mod Reload
pub mod Whole
use logpp.Common.{
  ℕ, zero, suc, Bool, true, false, Option, none, some, List, [], ◌∷◌, ◌++◌, length, get_elem?,
  codes, if◌then◌else◌, leb, ◌==◌,
}
use logpp.Level.{LogLevel, level_index}
use logpp.Sinks.{Sink, Sinks, terminal, level_sink, multi_sink, nil, cons}
use logpp.Logger.{Logger, set_level}
use logpp.Options.{Text, Options}
use logpp.Registry.{
  LoggerRegistry, World, Factory, make_logger, create_sink, register_sink, find_sink,
  register_logger_func, update_at, matches,
}
use logpp.Config.{
  Node, Table, Outcome, done, failed, no_fuel, SinkConfig, LoggerConfig, option_then,
  parse_configuration,
}
use logpp.Config.Hierarchy.{prepare_loggers}

pub record Target : Type 0 where
  pub registry : LoggerRegistry
  pub sinks : List Sink

-- `std::sort` by the line in the file; it leaves open in which order entries of one line come.
unfoldable pub insert_by_line : SinkConfig → List SinkConfig → List SinkConfig
insert_by_line s [] = s ∷ []
insert_by_line s (t ∷ ts) =
    let later = insert_by_line s ts in if leb s.line t.line then s ∷ t ∷ ts else t ∷ later

unfoldable pub sort_by_line : List SinkConfig → List SinkConfig
unfolding insert_by_line
sort_by_line [] = []
sort_by_line (s ∷ ss) = insert_by_line s (sort_by_line ss)

-- `make_shared<LevelSink>`, where a level is given.
abbrev pub leveled : Option LogLevel → Sink → Sink
leveled none s = s
leveled (some level) s = level_sink s level

-- `TRY`, and the loops that return the first error: what comes after a call, unless that has failed.
unfoldable pub continue {ℓ} :
    {R : Type ℓ} → Outcome (Unit {0}) × R → Outcome (Unit {0}) × R → Outcome (Unit {0}) × R
continue (done u, r) rest = rest
continue (failed e, r) rest = (failed e, r)
continue (no_fuel, r) rest = (no_fuel, r)

-- `activateOptions` of the sinks that the factories make, given the registry: the reason of the
-- exception, if there is one.
module _ (activate : LoggerRegistry → ℕ → Options → Option Text) where
  -- The body of the loop of `configureSinks`.
  unfoldable pub configure_sink : SinkConfig → Target → Outcome (Unit {0}) × Target
  unfolding create_sink register_sink
  configure_sink s t = elim (create_sink t.registry s.type) [
    | none ↦ (failed (codes "sink: unknown type"), t)
    | some factory ↦ elim (activate t.registry factory s.options) [
      | some reason ↦ (failed (codes "sink: invalid configuration: " ++ reason), t)
      | none ↦
          let registered = register_sink t.registry s.name (length t.sinks) in
          if registered.1
          then (
            done tt,
            record t {
              registry = registered.0;
              sinks = t.sinks ++ (leveled s.level (terminal (length t.sinks)) ∷ []);
            },
          )
          else (failed (codes "sink: sink already exists"), t)
    ]
  ]

  unfoldable pub configure_sink_list : List SinkConfig → Target → Outcome (Unit {0}) × Target
  unfolding configure_sink continue
  configure_sink_list [] t = (done tt, t)
  configure_sink_list (s ∷ ss) t =
      let one = configure_sink s t in let rest = configure_sink_list ss one.1 in continue one rest

  unfoldable pub configure_sinks : List SinkConfig → Target → Outcome (Unit {0}) × Target
  unfolding sort_by_line configure_sink_list
  configure_sinks sinks t = configure_sink_list (sort_by_line sinks) t

-- The sinks of a logger: none if one of them is not registered.
unfoldable pub logger_targets : List Sink → LoggerRegistry → List SinkConfig → Option (List Sink)
unfolding find_sink
logger_targets store r [] = some []
logger_targets store r (s ∷ ss) =
    let later = logger_targets store r ss in
    option_then (option_then (find_sink r s.name) (get_elem? store))
      (λ t. option_then later (λ ts. some (t ∷ ts)))

abbrev pub to_sinks : List Sink → Sinks
to_sinks [] = nil
to_sinks (s ∷ ss) = cons s (to_sinks ss)

-- One sink is the logger's, more are those of a `MultiSink`.
unfoldable pub combine : List Sink → Option Sink
combine [] = none
combine (s ∷ []) = some s
combine (s ∷ t ∷ ss) = some (multi_sink (to_sinks (s ∷ t ∷ ss)))

-- The factory that is registered for a logger.
abbrev pub factory_of : LogLevel → Sink → Factory
factory_of level target name w =
    make_logger (record { name = name; level = level; target = target }) w

abbrev pub succeeds : Bool → Text → Outcome (Unit {0})
succeeds true e = done tt
succeeds false e = failed e

-- The body of the loop of `configureLoggers`.
unfoldable pub configure_logger :
    List Sink → LoggerConfig → LoggerRegistry → Outcome (Unit {0}) × LoggerRegistry
unfolding logger_targets combine register_logger_func
configure_logger store l r = elim l.level [
  | none ↦ (failed (codes "logger: missing level"), r)
  | some level ↦ elim (logger_targets store r l.sinks) [
    | none ↦ (failed (codes "logger: unknown sink"), r)
    | some targets ↦ elim (combine targets) [
      | none ↦ (failed (codes "logger: missing sinks"), r)
      | some target ↦
          let registered = register_logger_func r l.name (factory_of level target) l.is_default in
          (succeeds registered.1 (codes "logger: logger already exists"), registered.0)
    ]
  ]
]

unfoldable pub configure_loggers :
    List Sink → List LoggerConfig → LoggerRegistry → Outcome (Unit {0}) × LoggerRegistry
unfolding configure_logger continue
configure_loggers store [] r = (done tt, r)
configure_loggers store (l ∷ ls) r =
    let one = configure_logger store l r in
    let rest = configure_loggers store ls one.1 in continue one rest

-- `configure`, on the table that the text was parsed to.
module _ (activate : LoggerRegistry → ℕ → Options → Option Text)
    (bool_of : Node → Option Bool) where
  unfoldable pub configure : ℕ → Table → Target → Outcome (Unit {0}) × Target
  unfolding parse_configuration prepare_loggers configure_sinks configure_loggers continue
  configure fuel table t = elim (parse_configuration bool_of table) [
    | failed e ↦ (failed e, t)
    | no_fuel ↦ (no_fuel, t)
    | done (sinks, loggers) ↦ elim (prepare_loggers fuel loggers) [
      | failed e ↦ (failed e, t)
      | no_fuel ↦ (no_fuel, t)
      | done complete ↦
          let made = configure_sinks activate sinks t in
          let result = configure_loggers made.1.sinks complete made.1.registry in
          continue made (result.0, record made.1 { registry = result.1 })
    ]
  ]

-- The callback of `configureFileAndWatch`, for one configuration and one logger of the registry: `none` is
-- the value of an empty `optional`.
unfoldable pub reload_logger : LoggerConfig → Text → ℕ → List Logger → Option (List Logger)
unfolding matches set_level update_at
reload_logger c name ref store = option_then (matches c.name name) (λ matching.
    if matching
    then option_then (get_elem? store ref) (λ logger. option_then c.level (λ level. some (
        if level_index logger.level == level_index level
        then store
        else update_at (λ l. set_level l level) store ref)))
    else some store)

unfoldable pub reload_loggers : LoggerConfig → List (Text × ℕ) → List Logger → Option (List Logger)
unfolding reload_logger
reload_loggers c [] store = some store
reload_loggers c ((name, ref) ∷ rest) store =
    option_then (reload_logger c name ref store) (λ store'. reload_loggers c rest store')

unfoldable pub reload : List LoggerConfig → LoggerRegistry → Option LoggerRegistry
unfolding reload_loggers
reload [] r = some r
reload (c ∷ cs) r =
    option_then (reload_loggers c r.loggers r.world.store)
      (λ store. reload cs (record r { world = record r.world { store = store } }))
