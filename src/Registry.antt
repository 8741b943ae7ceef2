-- ===== src/Registry.antt =====
-- include/logpp/core/LoggerRegistry.h and src/LoggerRegistry.cpp: loggers by name, found under their
-- own name or that of a parent (`a.b` is a parent of `a.b.c`).
--
-- A logger is shared and mutable: the registry keeps references into a store of loggers. A factory
-- is any function of a name that may create loggers there. Every member function holds the mutex
-- from its first statement to its last, so that a call is one step.
pub mod Key
pub mod Ancestors
pub mod Matches
pub mod Lookup
pub mod Forward
pub mod Defaults
pub mod Free
mod Tests
use logpp.Common.{
  ℕ, zero, suc, ◌+◌, Bool, true, false, Option, none, some, List, [], ◌∷◌, ◌++◌, length, get_elem?,
  if◌then◌else◌, same, ltb, codes, ◌>>=◌,
}
use logpp.Level.{LogLevel, debug, off}
use logpp.Sinks.{Sink, terminal, noop}
use logpp.Logger.{Logger, set_level, set_sink}
use Key.{for_each, rbegin}

-- `std::map`: `insert` keeps what is there under a key.
module _ {ℓ} {V : Type ℓ} where
  unfoldable pub find : List ℕ → List (List ℕ × V) → Option V
  find k [] = none
  find k ((j, v) ∷ m) = if same j k then some v else find k m

  unfoldable pub insert : List ℕ → V → List (List ℕ × V) → List (List ℕ × V) × Bool
  unfolding find
  insert k v m = elim (find k m) [ none ↦ ((k, v) ∷ m, true) | some w ↦ (m, false) ]

-- All the loggers that exist, by reference, and the instances that the default factory made.
pub record World : Type 0 where
  pub store : List Logger
  pub instances : List ℕ

abbrev pub Factory : Type 0
Factory = List ℕ → World → ℕ × World

pub record LoggerRegistry : Type 0 where
  pub world : World
  pub default_logger : Option ℕ
  pub default_logger_factory : Option Factory
  pub logger_factories : List (List ℕ × Factory)
  pub sink_factories : List (List ℕ × ℕ)
  pub loggers : List (List ℕ × ℕ)
  pub sinks : List (List ℕ × ℕ)

-- `make_shared<Logger>`
unfoldable pub make_logger : Logger → World → ℕ × World
make_logger l w = (length w.store, record w { store = w.store ++ (l ∷ []) })

-- `LoggerInstantiator::create`
unfoldable pub create_instance : Factory
unfolding make_logger
create_instance name w =
    let (ref, w') = make_logger (record { name = name; level = off; target = noop }) w in
    (ref, record w' { instances = w'.instances ++ (ref ∷ []) })

-- The loggers at the references `refs` get the level and the sink of `l`.
unfoldable pub update_at : (Logger → Logger) → List Logger → ℕ → List Logger
update_at f [] i = []
update_at f (l ∷ ls) zero = f l ∷ ls
update_at f (l ∷ ls) (suc i) = l ∷ update_at f ls i

unfoldable pub configure : Option Logger → List Logger → ℕ → List Logger
unfolding set_level set_sink update_at
configure none store i = store
configure (some l) store i = update_at (λ k. set_level (set_sink k l.target) l.level) store i

unfoldable pub configure_instances : ℕ → List ℕ → List Logger → List Logger
unfolding configure
configure_instances tmp [] store = store
configure_instances tmp (i ∷ is) store =
    configure_instances tmp is (configure (get_elem? store tmp) store i)

-- Instances that the default factory made before a default was given are brought up to it.
unfoldable pub adopt : Factory → World → World
adopt factory w =
    let (tmp, w') = factory [] w in
    if ltb 0 (length w.instances)
    then record w' { store = configure_instances tmp w'.instances w'.store }
    else w

-- `setDefaultLoggerFunc`
unfoldable pub set_default_logger_func : LoggerRegistry → Factory → LoggerRegistry
unfolding adopt
set_default_logger_func r factory = record r {
  world = adopt factory r.world;
  default_logger_factory = some factory;
}

-- `registerLoggerFunc(name, factory, isDefault)`
unfoldable pub register_logger_func :
    LoggerRegistry → List ℕ → Factory → Bool → LoggerRegistry × Bool
unfolding adopt insert
register_logger_func r name factory is_default =
    let r' =
      if is_default
      then record r { world = adopt factory r.world; default_logger_factory = some factory }
      else r in
    let (factories, inserted) = insert name factory r'.logger_factories in
    (record r' { logger_factories = factories }, inserted)

-- `registerLogger(logger, isDefault)`, of the logger at a reference.
unfoldable pub register_logger : LoggerRegistry → List ℕ → ℕ → Bool → LoggerRegistry × Bool
register_logger r name logger is_default =
    register_logger_func r name (λ _ w. (logger, w)) is_default

-- `setDefaultLogger`
unfoldable pub set_default_logger : LoggerRegistry → List ℕ → ℕ → LoggerRegistry
set_default_logger r name logger = (register_logger r name logger true).0

-- `invoke(factory, name)`, and the entry in `m_loggers`.
unfoldable pub instantiate : LoggerRegistry → List ℕ → Factory → Option ℕ × LoggerRegistry
unfolding insert
instantiate r name factory =
    let (logger, w) = factory name r.world in
    (some logger, record r { world = w; loggers = (insert name logger r.loggers).0 })

-- The body of the loop of `get`, for one fragment of the name.
unfoldable pub get_fragment : LoggerRegistry → List ℕ → List ℕ → Option (Option ℕ × LoggerRegistry)
unfolding find instantiate
get_fragment r name fragment = elim (find fragment r.loggers) [
  | some logger ↦ some (some logger, r)
  | none ↦ elim (find fragment r.logger_factories) [
    | some factory ↦ some (instantiate r name factory)
    | none ↦ none
  ]
]

-- What `get` does behind the loop.
unfoldable pub get_default : LoggerRegistry → List ℕ → Option ℕ × LoggerRegistry
unfolding instantiate
get_default r name = elim r.default_logger_factory [
  | some factory ↦ instantiate r name factory
  | none ↦ (r.default_logger, r)
]

-- `get(name)`. The loop makes at most one round for each byte of the name, and one more.
unfoldable pub get : LoggerRegistry → List ℕ → Option (Option ℕ × LoggerRegistry)
unfolding get_fragment get_default
get r name = for_each (suc (suc (length name))) (get_fragment r name) (rbegin name) >>= λ found.
    elim found [ some res ↦ some res | none ↦ some (get_default r name) ]

-- `matches(key, name)`
unfoldable pub matches : List ℕ → List ℕ → Option Bool
matches key name =
    for_each (suc (suc (length key))) (λ fragment. if same fragment name then some true else none)
      (rbegin key)
    >>= λ found. elim found [ some res ↦ some res | none ↦ some false ]

-- `registerSinkFactory`, `createSink`, `registerSink`, `findSink`
unfoldable pub register_sink_factory : LoggerRegistry → List ℕ → ℕ → LoggerRegistry × Bool
unfolding insert
register_sink_factory r name factory =
    let (m, inserted) = insert name factory r.sink_factories in
    (record r { sink_factories = m }, inserted)

unfoldable pub create_sink : LoggerRegistry → List ℕ → Option ℕ
unfolding find
create_sink r name = find name r.sink_factories

unfoldable pub register_sink : LoggerRegistry → List ℕ → ℕ → LoggerRegistry × Bool
unfolding insert
register_sink r name s =
    let (m, inserted) = insert name s r.sinks in (record r { sinks = m }, inserted)

unfoldable pub find_sink : LoggerRegistry → List ℕ → Option ℕ
unfolding find
find_sink r name = find name r.sinks

-- The `Name` of each sink class that the constructor registers, with a number for its factory.
abbrev pub builtin_sinks : List (List ℕ × ℕ)
builtin_sinks =
    (codes "Async", 0)
    ∷ (codes "ColoredOutputConsole", 1)
    ∷ (codes "ColoredErrorConsole", 2)
    ∷ (codes "OutputConsole", 3)
    ∷ (codes "ErrorConsole", 4)
    ∷ (codes "File", 5)
    ∷ (codes "RollingFile", 6)
    ∷ []

unfoldable pub register_builtin : List (List ℕ × ℕ) → LoggerRegistry → LoggerRegistry
unfolding register_sink_factory
register_builtin [] r = r
register_builtin ((name, factory) ∷ rest) r =
    register_builtin rest (register_sink_factory r name factory).0

-- `LoggerRegistry()`, with the console's sink as the terminal 0.
unfoldable pub new_registry : LoggerRegistry
unfolding make_logger set_default_logger register_builtin create_instance
new_registry =
    let (logger, w) =
      make_logger (record { name = codes "logpp"; level = debug; target = terminal 0 })
        (record { store = []; instances = [] }) in
    let empty : LoggerRegistry = record {
      world = w;
      default_logger = none;
      default_logger_factory = none;
      logger_factories = [];
      sink_factories = [];
      loggers = [];
      sinks = [];
    } in
    record (register_builtin builtin_sinks (set_default_logger empty (codes "logpp") logger)) {
      default_logger_factory = some create_instance;
    }
