-- ===== src/Config/Tests.antt =====
-- The theorems on configurations at concrete ones.
use logpp.Common.{
  ℕ, ◌≡◌, refl, true, false, Bool, Option, none, some, List, [], ◌∷◌, get_elem?, codes, arith, inl,
  inr, same,
}
use logpp.Level.{LogLevel, parse_level, iequals, info, warning, error, level_index}
use logpp.Sinks.{terminal}
use logpp.Logger.{Logger}
use logpp.Registry.{
  LoggerRegistry, find, insert, get, find_sink, create_sink, register_sink, register_logger_func,
  adopt,
}
use logpp.Registry.Key.{is_dot}
use logpp.Registry.Ancestors.{ancestors, parents}
use logpp.Options.{Text, Options}
use logpp.Config.{
  Node, Nodes, Table, string_node, boolean_node, array_node, table_node, no_nodes, node_then,
  no_entries, entry_then, Outcome, done, SinkConfig, LoggerConfig, parse_configuration, parse_sinks,
  parse_loggers, parse_logger_entries, parse_logger, as_table, entry, parse_sink_entries,
  parse_sink, try_read, read_level, try_read_or, logger_sinks, find_sink_config, string_of,
}
use logpp.Config.Hierarchy.{
  has_missing, find_default, prepare_loggers, prepare_from, complete_logger,
}
use logpp.Config.Hierarchy.Complete.{AllCompleted, prepare_loggers-completed}
use logpp.Config.Apply.{
  Target, configure, configure_sinks, sort_by_line, insert_by_line, configure_sink_list,
  configure_sink, configure_loggers, configure_logger, logger_targets, combine, continue,
  reload_loggers,
}
use logpp.Config.Apply.Loggers.{Described}
use logpp.Config.Apply.Whole.{configure-get}
use logpp.Config.Apply.Reload.{reload_loggers-reversed}

abbrev out : SinkConfig
out = record { name = codes "out"; type = codes "File"; level = none; options = []; line = 1 }

abbrev root : LoggerConfig
root = record { name = codes "root"; level = some warning; sinks = out ∷ []; is_default = true }

abbrev net : LoggerConfig
net = record { name = codes "net"; level = some info; sinks = []; is_default = false }

abbrev net_http : LoggerConfig
net_http = record { name = codes "net.http"; level = none; sinks = []; is_default = false }

prepare_loggers-completed_example :
    (ls' : List LoggerConfig) × (prepare_loggers 10 (net_http ∷ net ∷ root ∷ []) ≡ done ls')
    × AllCompleted (net_http ∷ net ∷ root ∷ []) ls'
unfolding find_default has_missing
prepare_loggers-completed_example =
    prepare_loggers-completed 10 (net_http ∷ net ∷ root ∷ [])
      (record { default = root; is_first = refl; complete = refl })
      (omega arith, omega arith, (omega arith, omega arith, (omega arith, omega arith, tt)))

abbrev bare : LoggerConfig
bare = record { name = codes "root"; level = none; sinks = out ∷ []; is_default = true }

-- The sink of the configurations, registered under its name.
abbrev with_out : LoggerRegistry
with_out = record {
  world = record { store = []; instances = [] };
  default_logger = none;
  default_logger_factory = none;
  logger_factories = [];
  sink_factories = [];
  loggers = [];
  sinks = (codes "out", 0) ∷ [];
}

abbrev net_full : LoggerConfig
net_full = record { name = codes "net"; level = some info; sinks = out ∷ []; is_default = false }

abbrev named : Text → LogLevel → Logger
named name level = record { name = name; level = level; target = terminal 7 }

reload_loggers-reversed_example :
    (store' : List Logger) × (l' : Logger) × (reload_loggers
        (record net_full { name = codes "a.b" })
        ((codes "a.b.c", 1) ∷ (codes "a", 0) ∷ [])
        (named (codes "a") error ∷ named (codes "a.b.c") error ∷ [])
      ≡ some store')
    × (reload_loggers
          (record net_full { name = codes "a.b" })
          ((codes "a", 0) ∷ (codes "a.b.c", 1) ∷ [])
          (named (codes "a") error ∷ named (codes "a.b.c") error ∷ [])
        ≡ some store')
    × (get_elem? store' 0 ≡ some l')
    × (level_index l'.level ≡ level_index info)
    × (get_elem? store' 1 ≡ some (named (codes "a.b.c") error))
unfolding is_dot
reload_loggers-reversed_example =
    reload_loggers-reversed (record net_full { name = codes "a.b" }) (codes "a") (codes "a.b.c") 0 1
      (named (codes "a") error ∷ named (codes "a.b.c") error ∷ []) info (named (codes "a") error) 1
      (omega arith) refl (λ e. cc, inr (1, omega arith, refl, refl)) (omega arith) refl (λ e. cc)

abbrev truth : Node → Option Bool
truth (boolean_node b) = some b
truth _ = none

abbrev never_fails : LoggerRegistry → ℕ → Options → Option Text
never_fails r factory options = none

abbrev out_names : Nodes
out_names = node_then (string_node (codes "out")) no_nodes

abbrev logger_table : Text → Text → Bool → Table
logger_table name level is_default = entry_then (codes "name") (string_node name) (
    entry_then (codes "level") (string_node level) (
      entry_then (codes "default") (boolean_node is_default)
        (entry_then (codes "sinks") (array_node out_names) no_entries)))

abbrev table : Table
table =
    entry_then (codes "sinks")
      (table_node 0 (
        entry_then (codes "out")
          (table_node 1 (entry_then (codes "type") (string_node (codes "File")) no_entries))
          no_entries))
      (entry_then (codes "loggers")
        (table_node 2 (
          entry_then (codes "net") (table_node 3 (logger_table (codes "net") (codes "info") false))
            (entry_then (codes "root")
              (table_node 4 (logger_table (codes "root") (codes "warn") true)) no_entries)))
        no_entries)

abbrev empty : Target
empty = record {
  registry = record with_out { sink_factories = (codes "File", 0) ∷ []; sinks = [] };
  sinks = [];
}

abbrev root_full : LoggerConfig
root_full = record {
  name = codes "root";
  level = some warning;
  sinks = out ∷ [];
  is_default = true;
}

table-parsed : parse_configuration truth table ≡ done (out ∷ [], net_full ∷ root_full ∷ [])
unfolding parse_configuration parse_sinks parse_loggers parse_logger_entries parse_logger as_table
    entry parse_sink_entries parse_sink try_read read_level try_read_or logger_sinks
    find_sink_config string_of same parse_level iequals
table-parsed = refl

abbrev configured : Outcome (Unit {0}) × Target
unfolding configure
configured = configure never_fails truth 9 table empty

configured-done : configured ≡ (done tt, configured.1)
unfolding configure parse_configuration parse_sinks parse_loggers parse_logger_entries parse_logger
    as_table entry parse_sink_entries parse_sink try_read read_level try_read_or logger_sinks
    find_sink_config string_of same parse_level iequals prepare_loggers prepare_from complete_logger
    has_missing configure_sinks sort_by_line insert_by_line configure_sink_list configure_sink
    create_sink register_sink find insert configure_loggers configure_logger continue logger_targets
    combine register_logger_func find_sink adopt
configured-done = refl

configure-get_example :
    (d : Described
      (configure_sinks never_fails (out ∷ []) empty).1.sinks
      (configure_sinks never_fails (out ∷ []) empty).1.registry
      net_full)
    × (ref : ℕ) × (r' : LoggerRegistry) × (get configured.1.registry (codes "net.http")
        ≡ some (some ref, r'))
    × (get_elem? r'.world.store ref
        ≡ some (record { name = codes "net.http"; level = d.level; target = d.target }))
unfolding configure parse_configuration parse_sinks parse_loggers parse_logger_entries parse_logger
    as_table entry parse_sink_entries parse_sink try_read read_level try_read_or logger_sinks
    find_sink_config string_of same parse_level iequals prepare_loggers prepare_from complete_logger
    has_missing configure_sinks sort_by_line insert_by_line configure_sink_list configure_sink
    create_sink register_sink find insert configure_loggers configure_logger continue logger_targets
    combine register_logger_func find_sink adopt ancestors parents is_dot
configure-get_example =
    configure-get never_fails truth 9 table empty configured.1 (out ∷ [])
      (net_full ∷ root_full ∷ []) (net_full ∷ root_full ∷ []) net_full (codes "net.http")
      (codes "net.http" ∷ []) [] table-parsed refl configured-done refl (inl refl) (omega arith)
      refl ((refl, refl), tt)
