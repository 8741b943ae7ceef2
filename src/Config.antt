-- ===== src/Config.antt =====
-- src/TomlConfigurator.cpp and include/logpp/config/TomlConfigurator.h: a registry from a configuration
-- file. This file reads the parsed table.
--
-- toml++ parses the text; a document is what its interface shows: the kind of a node, the entries of a
-- table in its order, the line of a table. Integers and floats stand with the text that `to_string` gives
-- them. Errors are their descriptions, without the region of the source.
pub mod Hierarchy
pub mod Apply
mod Tests
use logpp.Common.{
  ℕ, Bool, true, false, Option, none, some, List, [], ◌∷◌, ◌++◌, codes, same, if◌then◌else◌,
}
use logpp.Level.{LogLevel, parse_level}
use logpp.Options.{Text, Dict, OptionValue, string_value, array_value, dict_value, Options, add}
use logpp.Registry.{insert}

mutual
  pub data Node : Type 0 where
    string_node integer_node float_node : Text → Node
    boolean_node : Bool → Node
    array_node : Nodes → Node
    table_node : ℕ → Table → Node
    date_node : Node

  pub data Nodes : Type 0 where
    no_nodes : Nodes
    node_then : Node → Nodes → Nodes

  pub data Table : Type 0 where
    no_entries : Table
    entry_then : Text → Node → Table → Table

-- A result, an error, or a loop that has not ended within its fuel.
pub data Outcome {ℓ} (A : Type ℓ) : Type ℓ where
  done : A → Outcome A
  failed : Text → Outcome A
  no_fuel : Outcome A

infixl 5 ◌>>=◌
abbrev pub ◌>>=◌ {ℓ κ} : {A : Type ℓ} {B : Type κ} → Outcome A → (A → Outcome B) → Outcome B
done a >>= f = f a
failed e >>= f = failed e
no_fuel >>= f = no_fuel

-- `Error` where a value is missing.
abbrev pub or_fail {ℓ} : {A : Type ℓ} → Text → Option A → Outcome A
or_fail e none = failed e
or_fail e (some a) = done a

-- `table[key]`, `as_table`, `as_array`, `value<std::string>`
unfoldable pub entry : Text → Table → Option Node
entry key no_entries = none
entry key (entry_then k node rest) =
    let later = entry key rest in if same k key then some node else later

unfoldable pub as_table : Node → Option (ℕ × Table)
as_table (table_node line t) = some (line, t)
as_table _ = none

unfoldable pub string_of : Node → Option Text
string_of (string_node s) = some s
string_of _ = none

abbrev pub option_then {ℓ κ} : {A : Type ℓ} {B : Type κ} → Option A → (A → Option B) → Option B
option_then none f = none
option_then (some a) f = f a

-- `toString`
unfoldable pub to_string : Node → Option Text
to_string (string_node s) = some s
to_string (integer_node s) = some s
to_string (float_node s) = some s
to_string (boolean_node b) = some (if b then codes "true" else codes "false")
to_string _ = none

-- The arrays and the tables of `addSinkOption`.
unfoldable pub texts_of : Nodes → Outcome (List Text)
unfolding to_string
texts_of no_nodes = done []
texts_of (node_then node rest) =
    let later = texts_of rest in
    or_fail (codes "invalid array value type") (to_string node) >>= λ s.
    later >>= λ ss. done (s ∷ ss)

unfoldable pub dict_of : Dict → Table → Outcome Dict
unfolding to_string insert
dict_of dict no_entries = done dict
dict_of dict (entry_then key node rest) =
    or_fail (codes "invalid table value type") (to_string node) >>= λ s.
    let inserted = insert key s dict in
    let later = dict_of inserted.0 rest in
    if inserted.1 then later else failed (codes "could not add table value")

abbrev pub added : Text → Options × Bool → Outcome Options
added e (options, true) = done options
added e (options, false) = failed e

-- `addSinkOption`: a Boolean, a float or a date is no option.
unfoldable pub add_sink_option : Options → Text → Node → Outcome Options
unfolding texts_of dict_of add
add_sink_option options key (string_node s) =
    added (codes "invalid option") (add key (string_value s) options)
add_sink_option options key (integer_node s) =
    added (codes "invalid option") (add key (string_value s) options)
add_sink_option options key (array_node nodes) =
    texts_of nodes >>= λ a. added (codes "could not add option") (add key (array_value a) options)
add_sink_option options key (table_node line t) =
    dict_of [] t >>= λ d. added (codes "could not add option") (add key (dict_value d) options)
add_sink_option options key _ = failed (codes "invalid option type")

unfoldable pub sink_options : Options → Table → Outcome Options
unfolding add_sink_option
sink_options options no_entries = done options
sink_options options (entry_then key node rest) =
    add_sink_option options key node >>= λ options'. sink_options options' rest

-- `TomlConfigurator::Sink` and `TomlConfigurator::Logger`
pub record SinkConfig : Type 0 where
  pub name : Text
  pub type : Text
  pub level : Option LogLevel
  pub options : Options
  pub line : ℕ

pub record LoggerConfig : Type 0 where
  pub name : Text
  pub level : Option LogLevel
  pub sinks : List SinkConfig
  pub is_default : Bool

-- `tryRead<std::string>`
unfoldable pub try_read : Table → Text → Text → Outcome Text
unfolding entry string_of
try_read t key e = or_fail e (option_then (entry key t) string_of)

-- The level of a sink or a logger, if there is one.
unfoldable pub read_level : Text → Text → Table → Outcome (Option LogLevel)
unfolding entry string_of
read_level no_string no_level t = elim (entry (codes "level") t) [
  | none ↦ done none
  | some node ↦ or_fail no_string (string_of node) >>= λ s.
      or_fail no_level (parse_level s) >>= λ level. done (some level)
]

unfoldable pub parse_sink : Text → ℕ → Table → Outcome SinkConfig
unfolding try_read read_level sink_options as_table entry
parse_sink name line t = try_read t (codes "type") (codes "sink.type: expected string") >>= λ type.
    read_level (codes "sink.level: expected string") (codes "sink.level: unknown level") t
    >>= λ level.
        (elim (option_then (entry (codes "options") t) as_table) [
          | none ↦ done []
          | some (l, options) ↦ sink_options [] options
        ])
        >>= λ options.
            done
              (record { name = name; type = type; level = level; options = options; line = line })

-- The loop of `parseSinks`: what is no table is passed over.
unfoldable pub parse_sink_entries : Table → Outcome (List SinkConfig)
unfolding parse_sink
parse_sink_entries no_entries = done []
parse_sink_entries (entry_then name (table_node line t) rest) =
    let later = parse_sink_entries rest in
    parse_sink name line t >>= λ s. later >>= λ ss. done (s ∷ ss)
parse_sink_entries (entry_then name node rest) = parse_sink_entries rest

unfoldable pub parse_sinks : Table → Outcome (List SinkConfig)
unfolding parse_sink_entries entry as_table
parse_sinks t = elim (entry (codes "sinks") t) [
  | none ↦ done []
  | some node ↦
      or_fail (codes "sinks: expected table") (as_table node) >>= λ s. parse_sink_entries s.1
]

unfoldable pub find_sink_config : Text → List SinkConfig → Option SinkConfig
find_sink_config name [] = none
find_sink_config name (s ∷ ss) =
    let later = find_sink_config name ss in if same s.name name then some s else later

-- The sinks that a logger names.
unfoldable pub logger_sinks : List SinkConfig → Nodes → Outcome (List SinkConfig)
unfolding find_sink_config string_of
logger_sinks sinks no_nodes = done []
logger_sinks sinks (node_then node rest) =
    let later = logger_sinks sinks rest in
    or_fail (codes "sink: expected string") (string_of node) >>= λ name.
    or_fail (codes "logger: unknown sink reference") (find_sink_config name sinks) >>= λ s.
    later >>= λ ss. done (s ∷ ss)

-- `value<bool>` of toml++
module _ (bool_of : Node → Option Bool) where
  -- `tryReadOr<bool>`
  unfoldable pub try_read_or : Table → Text → Text → Bool → Outcome Bool
  unfolding entry
  try_read_or t key e default_value = elim (entry key t) [
    | none ↦ done default_value
    | some node ↦ or_fail e (bool_of node)
  ]

  unfoldable pub parse_logger : List SinkConfig → Table → Outcome LoggerConfig
  unfolding try_read read_level try_read_or logger_sinks entry
  parse_logger sinks t =
      try_read t (codes "name") (codes "logger.name: expected string") >>= λ name.
      read_level (codes "logger.level: expected string") (codes "logger: unknown level") t
      >>= λ level.
          try_read_or t (codes "default") (codes "logger.default: expected bool") false
          >>= λ is_default.
              (elim (entry (codes "sinks") t) [
                | some (array_node nodes) ↦ logger_sinks sinks nodes
                | _ ↦ done []
              ])
              >>= λ own.
                  done (record { name = name; level = level; sinks = own; is_default = is_default })

  unfoldable pub parse_logger_entries : List SinkConfig → Table → Outcome (List LoggerConfig)
  unfolding parse_logger as_table
  parse_logger_entries sinks no_entries = done []
  parse_logger_entries sinks (entry_then key node rest) =
      let later = parse_logger_entries sinks rest in
      or_fail (codes "expected logger") (as_table node) >>= λ t.
      parse_logger sinks t.1 >>= λ l. later >>= λ ls. done (l ∷ ls)

  unfoldable pub parse_loggers : List SinkConfig → Table → Outcome (List LoggerConfig)
  unfolding parse_logger_entries entry as_table
  parse_loggers sinks t =
      or_fail (codes "expected loggers") (option_then (entry (codes "loggers") t) as_table) >>= λ l.
      parse_logger_entries sinks l.1

  unfoldable pub parse_configuration : Table → Outcome (List SinkConfig × List LoggerConfig)
  unfolding parse_sinks parse_loggers
  parse_configuration t =
      parse_sinks t >>= λ sinks. parse_loggers sinks t >>= λ loggers. done (sinks, loggers)
