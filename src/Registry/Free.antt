-- ===== src/Registry/Free.antt =====
-- The free functions of include/logpp/logpp.h. A call is the logger and the level that `Logger::log`
-- is called with, or nothing.
use mathlib.Core.Option.{some-ne-none, some-injective}
use logpp.Registry.Key.{Iterator, iterator_eq, rend, reverse_next, for_each, rbegin}
use logpp.Registry.Lookup.{IsAnswer, Answer, get_fragment-IsAnswer}
use logpp.Common.{
  zero, suc, length, sym, Bool-cases, ℕ, List, Option, none, some, ◌≡◌, Bool, refl, ◌∙◌, ap, arith,
  [], ◌∷◌, true, Option-cases, inl, inr,
}
use logpp.Level.{LogLevel, trace, debug, info, warning, error}
use logpp.Registry.{
  LoggerRegistry, Factory, get, get_fragment, get_default, instantiate, register_logger,
  register_logger_func, set_default_logger, set_default_logger_func, register_sink,
  register_sink_factory, register_builtin, new_registry,
}

-- `log(logger, level, ...)`: a null logger is passed over.
unfoldable pub log_to : Option ℕ → LogLevel → Option (ℕ × LogLevel)
log_to none level = none
log_to (some logger) level = some (logger, level)

unfoldable pub default_logger : LoggerRegistry → Option ℕ
default_logger r = r.default_logger

-- `log(level, ...)`, which `trace(text)`, ..., `error(text)` call.
unfoldable pub log_default : LoggerRegistry → LogLevel → Option (ℕ × LogLevel)
unfolding log_to default_logger
log_default r level = log_to (default_logger r) level

-- `trace(logger, text)`, `debug`, `info`, `warn`, and `error(logger, text)`.
unfoldable pub trace_to : LoggerRegistry → Option ℕ → Option (ℕ × LogLevel)
unfolding log_to
trace_to r logger = log_to logger trace

unfoldable pub debug_to : LoggerRegistry → Option ℕ → Option (ℕ × LogLevel)
unfolding log_to
debug_to r logger = log_to logger debug

unfoldable pub info_to : LoggerRegistry → Option ℕ → Option (ℕ × LogLevel)
unfolding log_to
info_to r logger = log_to logger info

unfoldable pub warn_to : LoggerRegistry → Option ℕ → Option (ℕ × LogLevel)
unfolding log_to
warn_to r logger = log_to logger warning

unfoldable pub error_to : LoggerRegistry → Option ℕ → Option (ℕ × LogLevel)
unfolding log_default
error_to r logger = log_default r error

-- The calls that change a registry.
pub data Call : Type 0 where
  register_func : List ℕ → Factory → Bool → Call
  register : List ℕ → ℕ → Bool → Call
  set_default : List ℕ → ℕ → Call
  set_default_func : Factory → Call
  lookup : List ℕ → Call
  add_sink : List ℕ → ℕ → Call
  add_sink_factory : List ℕ → ℕ → Call

after : LoggerRegistry → Option (Option ℕ × LoggerRegistry) → LoggerRegistry
after r none = r
after r (some (l, r')) = r'

unfoldable pub step : LoggerRegistry → Call → LoggerRegistry
unfolding after
step r (register_func name factory is_default) = (register_logger_func r name factory is_default).0
step r (register name logger is_default) = (register_logger r name logger is_default).0
step r (set_default name logger) = set_default_logger r name logger
step r (set_default_func factory) = set_default_logger_func r factory
step r (lookup name) = after r (get r name)
step r (add_sink name s) = (register_sink r name s).0
step r (add_sink_factory name factory) = (register_sink_factory r name factory).0

unfoldable pub run : LoggerRegistry → List Call → LoggerRegistry
run r [] = r
run r (c ∷ cs) = run (step r c) cs

register_logger_func-default_logger :
    (r : LoggerRegistry) (name : List ℕ) (f : Factory) (b : Bool)
    → (register_logger_func r name f b).0.default_logger ≡ r.default_logger
unfolding register_logger_func
register_logger_func-default_logger r name f b = ground arith

-- An answer of a loop is an answer of its body.
for_each-answer :
    {R : Type 0} {P : R → Type 0} (body : List ℕ → Option R)
    → ((f : List ℕ) (res : R) → body f ≡ some res → P res)
    → (fuel : ℕ) (it : Iterator) (res : R)
    → ◌≡◌ {A = Option (Option R)} (for_each fuel body it) (some (some res))
    → P res
unfolding for_each
for_each-answer body all zero it res h = cc
for_each-answer {R} body all (suc fuel) it res h =
    elim (Bool-cases (iterator_eq it (rend it.key))) [
      | inl e ↦
          absurd
            (some-ne-none res (sym (some-injective none (some res) (sym (rw (e, for_each)) ∙ h))))
      | inr e ↦ elim (Option-cases (body it.fragment)) [
        | inl miss ↦
            for_each-answer body all fuel (reverse_next it) res (sym (rw (e, for_each, miss)) ∙ h)
        | inr (a, hit) ↦
            all it.fragment res
              (hit ∙ some-injective (some a) (some res) (sym (rw (e, for_each, hit)) ∙ h))
      ]
    ]

IsAnswer-default_logger :
    (r : LoggerRegistry) (name : List ℕ) (res : Answer)
    → IsAnswer r name res
    → res.1.default_logger ≡ r.default_logger
unfolding instantiate
IsAnswer-default_logger r name res (inl e) = ap (λ (k : LoggerRegistry). k.default_logger) e
IsAnswer-default_logger r name res (inr (f, e)) = ap (λ (a : Answer). a.1.default_logger) e

get_default-default_logger :
    (r : LoggerRegistry) (name : List ℕ) → (get_default r name).1.default_logger ≡ r.default_logger
unfolding get_default instantiate
get_default-default_logger r name = elim (Option-cases r.default_logger_factory) [
  | inl e ↦ rw (e, get_default)
  | inr (f, e) ↦ rw (e, get_default)
]

get-default_logger :
    (r : LoggerRegistry) (name : List ℕ) → (after r (get r name)).default_logger ≡ r.default_logger
unfolding get after
get-default_logger r name =
    after_loop (for_each (suc (suc (length name))) (get_fragment r name) (rbegin name)) refl
  where
    after_loop :
        (o : Option (Option Answer))
        → ◌≡◌ {A = Option (Option Answer)}
            (for_each (suc (suc (length name))) (get_fragment r name) (rbegin name))
            o
        → (after r (get r name)).default_logger ≡ r.default_logger
    after_loop none e = rw (e, get)
    after_loop (some none) e = rw (e, get) (get_default-default_logger r name)
    after_loop (some (some res)) e =
        rw (e, get)
          (for_each-answer {P = λ (a : Answer). a.1.default_logger ≡ r.default_logger}
            (get_fragment r name)
            (λ f a h. IsAnswer-default_logger r name a (get_fragment-IsAnswer r name f a h)) _ _ res
            e)

-- Every call leaves the default logger as it is.
step-default_logger : (r : LoggerRegistry) (c : Call) → (step r c).default_logger ≡ r.default_logger
unfolding step register_logger set_default_logger set_default_logger_func register_sink
    register_sink_factory
step-default_logger r (register_func name factory is_default) =
    register_logger_func-default_logger r name factory is_default
step-default_logger r (register name logger is_default) =
    register_logger_func-default_logger r name _ is_default
step-default_logger r (set_default name logger) = register_logger_func-default_logger r name _ true
step-default_logger r (set_default_func factory) = refl
step-default_logger r (lookup name) = get-default_logger r name
step-default_logger r (add_sink name s) = refl
step-default_logger r (add_sink_factory name factory) = refl

run-default_logger :
    (r : LoggerRegistry) (cs : List Call) → (run r cs).default_logger ≡ r.default_logger
unfolding run
run-default_logger r [] = refl
run-default_logger r (c ∷ cs) = run-default_logger (step r c) cs ∙ step-default_logger r c

new_registry-default_logger : new_registry.default_logger ≡ none
unfolding new_registry set_default_logger register_logger register_logger_func register_builtin
    register_sink_factory
new_registry-default_logger = refl

-- Whatever calls are made on a new registry, `setDefaultLogger` among them, the free functions that
-- log without a logger log nowhere, at every level; and so does `error` with a logger.
pub log_default-run :
    (cs : List Call) (level : LogLevel) (logger : Option ℕ)
    → (log_default (run new_registry cs) level ≡ none)
      × (error_to (run new_registry cs) logger ≡ none)
unfolding log_default error_to log_to
log_default-run cs level logger = (
  rw (run-default_logger new_registry cs, new_registry-default_logger),
  rw (run-default_logger new_registry cs, new_registry-default_logger),
)
