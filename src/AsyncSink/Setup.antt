-- ===== src/AsyncSink/Setup.antt =====
-- `activateOptions` of include/logpp/sinks/AsyncSink.h: the inner sinks, and the size of the queue.
use logpp.Common.{ℕ, none, some, List, [], ◌∷◌, ◌++◌, codes, if◌then◌else◌}
use logpp.Level.{iequals}
use logpp.Registry.{LoggerRegistry, find, find_sink}
use logpp.Options.{Text, Dict, Options, as_array, as_dict, try_get}
use logpp.Config.{Outcome, done, failed, ◌>>=◌, or_fail}
use logpp.FileSink.Sizes.{ℤ, parse_size}

-- The inner sinks of `activateOptions`.
unfoldable pub find_inner_sinks : LoggerRegistry → List Text → Outcome (List ℕ)
unfolding find_sink
find_inner_sinks r [] = done []
find_inner_sinks r (name ∷ names) =
    let later = find_inner_sinks r names in
    or_fail (codes "sinks: unknown sink `" ++ (name ++ codes "`")) (find_sink r name) >>= λ s.
    later >>= λ ss. done (s ∷ ss)

module _ (strtoll : Text → ℤ × Text) where
  -- The size of the queue; no size is an error.
  unfoldable pub queue_size : Dict → Outcome ℕ
  unfolding find parse_size iequals
  queue_size opts =
      or_fail (codes "queue: expected `type` parameter") (find (codes "type") opts) >>= λ type.
      (if iequals type (codes "bounded")
        then elim (find (codes "size") opts) [
          | none ↦ done 512
          | some text ↦
              or_fail (codes "queue: invalid size `" ++ (text ++ codes "`"))
                (parse_size strtoll text)
        ]
        else failed (codes "queue: unknown type `" ++ (type ++ codes "`")))

  unfoldable pub queue_options : Options → Outcome ℕ
  unfolding queue_size try_get as_dict
  queue_options options = elim (try_get (codes "queue") options) [
    | none ↦ failed (codes "queue: unexpected error")
    | some value ↦ or_fail (codes "queue: expected table") (as_dict value) >>= queue_size
  ]

  -- `activateOptions`, with the default registry: the inner sinks, of which several make a MultiSink, and
  -- the size that the queue is made with.
  unfoldable pub activate_async : LoggerRegistry → Options → Outcome (List ℕ × ℕ)
  unfolding find_inner_sinks queue_options try_get as_array
  activate_async default_registry options =
      or_fail (codes "expected `sinks` parameter") (try_get (codes "sinks") options) >>= λ value.
      or_fail (codes "sinks: expected array") (as_array value) >>= λ names. elim names [
        | [] ↦ failed (codes "sinks: got empty array")
        | name ∷ rest ↦ find_inner_sinks default_registry (name ∷ rest) >>= λ inner.
            queue_options options >>= λ size. done (inner, size)
      ]
