-- ===== src/Registry/Tests.antt =====
-- A registry at concrete inputs.
use logpp.Common.{
  ℕ, suc, List, [], ◌∷◌, Option, none, some, true, false, Bool, ◌≡◌, ◌↔◌, refl, codes, arith, inl,
  get_elem?, same,
}
use logpp.Level.{info, off, error}
use logpp.Sinks.{terminal, noop}
use logpp.Logger.{Logger}
use logpp.Registry.Key.{begin, rbegin, for_each, forward_fragments, find_from, is_dot}
use logpp.Registry.Ancestors.{ancestors, parents, first, for_each-ancestors}
use logpp.Registry.Matches.{IsWithin, matches_iff}
use logpp.Registry.Lookup.{get_stable, get-register_logger}
use logpp.Registry.Defaults.{Follows, set_default_logger-Follows}
use logpp.Registry.Free.{set_default, lookup, run, log_default, error_to, log_default-run}
use logpp.Registry.{
  LoggerRegistry, new_registry, get, matches, register_logger, set_default_logger, create_instance,
  find,
}

abbrev dotted : List ℕ
dotted = codes "a.b.c"

dotted-ancestors : ancestors dotted ≡ codes "a.b.c" ∷ codes "a.b" ∷ codes "a" ∷ []
unfolding ancestors parents is_dot
dotted-ancestors = refl

forward_dotted :
    forward_fragments 8 (begin dotted) ≡ some (codes "a" ∷ codes "a.b" ∷ codes "a.b.c" ∷ [])
unfolding forward_fragments begin same find_from
forward_dotted = refl

abbrev main : Logger
main = record { name = codes "main"; level = info; target = terminal 1 }

-- A registry whose default factory has made one logger.
abbrev one_instance : LoggerRegistry
one_instance = record {
  world = record {
    store = record { name = codes "x"; level = off; target = noop } ∷ main ∷ [];
    instances = 0 ∷ [];
  };
  default_logger = none;
  default_logger_factory = some create_instance;
  logger_factories = [];
  sink_factories = [];
  loggers = [];
  sinks = [];
}

-- A body that answers at a fragment of one byte.
abbrev if_short : List ℕ → Option ℕ
if_short (c ∷ []) = some c
if_short _ = none

for_each-ancestors_example :
    for_each (suc (suc 5)) if_short (rbegin dotted) ≡ some (first if_short (ancestors dotted))
for_each-ancestors_example = for_each-ancestors if_short dotted (omega arith)

matches_iff_example :
    (b : Bool) × (matches dotted (codes "a.b") ≡ some b)
    × ((b ≡ true) ↔ IsWithin (codes "a.b") dotted)
matches_iff_example = matches_iff dotted (codes "a.b") (omega arith)

get_stable_example :
    (l : Option ℕ) × (r' : LoggerRegistry) × (get one_instance dotted ≡ some (l, r'))
    × (get r' dotted ≡ some (l, r'))
get_stable_example = get_stable one_instance dotted (λ e. cc) (omega arith)

get-register_logger_example :
    (r' : LoggerRegistry) × (register_logger one_instance (codes "a.b") 1 false ≡ (r', true))
    × ((r'' : LoggerRegistry) × (get r' dotted ≡ some (some 1, r'')))
unfolding find same
get-register_logger_example =
    get-register_logger one_instance dotted (codes "a.b") 1 (dotted ∷ []) (codes "a" ∷ [])
      (omega arith) dotted-ancestors (refl, refl) (refl, (refl, refl), tt)

set_default_logger-Follows_example :
    (k' : Logger) × (get_elem? (set_default_logger one_instance (codes "main") 1).world.store 0
      ≡ some k')
    × Follows main k'
    × (k'.name ≡ codes "x")
set_default_logger-Follows_example =
    set_default_logger-Follows one_instance (codes "main") 1 0 main
      (record { name = codes "x"; level = off; target = noop }) refl (inl refl) refl

log_default-run_example :
    (log_default (run new_registry (set_default (codes "main") 0 ∷ lookup dotted ∷ [])) error
      ≡ none)
    × (error_to (run new_registry (set_default (codes "main") 0 ∷ lookup dotted ∷ [])) (some 0)
        ≡ none)
log_default-run_example =
    log_default-run (set_default (codes "main") 0 ∷ lookup dotted ∷ []) error (some 0)
