-- ===== src/AsyncSink/Activation.antt =====
-- An asynchronous sink without the option `queue`.
use logpp.Common.{ℕ, ◌≡◌, ◌≢◌, refl, sym, subst, none, List, [], ◌∷◌, codes}
use logpp.Registry.{LoggerRegistry}
use logpp.Options.{Text, Options, as_array, try_get}
use logpp.Config.{Outcome, done, failed, no_fuel, ◌>>=◌, or_fail}
use logpp.FileSink.Sizes.{ℤ}
use logpp.AsyncSink.Setup.{find_inner_sinks, queue_options, activate_async}

abbrev Fails {ℓ} : {A : Type ℓ} → Outcome A → Type 0
Fails (done a) = ⊥
Fails (failed e) = Unit
Fails no_fuel = Unit

Fails->>= {ℓ κ} :
    {A : Type ℓ} {B : Type κ} (m : Outcome A) (f : A → Outcome B)
    → ((a : A) → Fails (f a))
    → Fails (m >>= f)
Fails->>= (done a) f h = h a
Fails->>= (failed e) f h = tt
Fails->>= no_fuel f h = tt

queue_options-failed :
    (strtoll : Text → ℤ × Text) (options : Options)
    → try_get (codes "queue") options ≡ none
    → queue_options strtoll options ≡ failed (codes "queue: unexpected error")
unfolding queue_options
queue_options-failed strtoll options h = rw (queue_options, h) refl

-- Without the option `queue`, an asynchronous sink cannot be activated, whatever its other options are and
-- whatever sinks are registered.
pub activate_async-no_queue :
    (strtoll : Text → ℤ × Text) (r : LoggerRegistry) (options : Options) (result : List ℕ × ℕ)
    → try_get (codes "queue") options ≡ none
    → activate_async strtoll r options ≢ done result
unfolding activate_async
activate_async-no_queue strtoll r options result h e = subst Fails e (
    Fails->>= (or_fail (codes "expected `sinks` parameter") (try_get (codes "sinks") options)) _
      (λ value. Fails->>= (or_fail (codes "sinks: expected array") (as_array value)) _ at_names))
  where
    with_queue :
        (inner : List ℕ)
        → Fails {A = List ℕ × ℕ} (queue_options strtoll options >>= λ size. done (inner, size))
    with_queue inner =
        let no_size = queue_options-failed strtoll options h in
        subst (λ o. Fails {A = List ℕ × ℕ} (o >>= λ size. done (inner, size))) (sym no_size) tt

    at_names :
        (names : List Text)
        → Fails {A = List ℕ × ℕ} (elim names [
          | [] ↦ failed (codes "sinks: got empty array")
          | name ∷ rest ↦ find_inner_sinks r (name ∷ rest) >>= λ inner.
              queue_options strtoll options >>= λ size. done (inner, size)
        ])
    at_names [] = tt
    at_names (name ∷ rest) = Fails->>= (find_inner_sinks r (name ∷ rest)) _ with_queue
