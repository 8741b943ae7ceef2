-- ===== src/Config/Apply/Whole.antt =====
-- `configure` as a whole, from the table to the loggers that the registry hands out.
use logpp.Common.{
  ℕ, ◌^◌, ◌<◌, ◌≡◌, refl, sym, ap, subst, ◌∙◌, Bool, Option, some, List, [], ◌∷◌, ◌++◌, length,
  get_elem?, Bool-cases, Option-cases, inl, inr,
}
use logpp.Registry.{LoggerRegistry, get, create_sink, register_sink}
use logpp.Registry.Ancestors.{ancestors}
use logpp.Registry.Lookup.{AllUnknown}
use logpp.Options.{Text, Options}
use logpp.Config.{
  Node, Table, Outcome, done, failed, no_fuel, SinkConfig, LoggerConfig, parse_configuration,
}
use logpp.Config.Hierarchy.{prepare_loggers}
use logpp.Config.Apply.{
  Target, sort_by_line, configure_sink, configure_sink_list, configure_sinks, configure_loggers,
  configure, continue,
}
use logpp.Config.Apply.Loggers.{AmongConfigs, Described, configure_loggers-get}

register_sink-loggers :
    (r : LoggerRegistry) (name : Text) (n : ℕ) → (register_sink r name n).0.loggers ≡ r.loggers
unfolding register_sink
register_sink-loggers r name n = refl

continue-done {ℓ} :
    {R : Type ℓ} (one rest : Outcome (Unit {0}) × R) (x : R)
    → continue one rest ≡ (done tt, x)
    → rest ≡ (done tt, x)
unfolding continue
continue-done (done u, r) rest x h = h
continue-done (failed e, r) rest x h = absurd (cc)
continue-done (no_fuel, r) rest x h = absurd (cc)

continue-keeps {ℓ κ} :
    {R : Type ℓ} {A : Type κ} (f : R → A) (a : A) (one rest : Outcome (Unit {0}) × R)
    → f one.1 ≡ a
    → f rest.1 ≡ a
    → f (continue one rest).1 ≡ a
unfolding continue
continue-keeps f a (done u, r) rest h g = g
continue-keeps f a (failed e, r) rest h g = h
continue-keeps f a (no_fuel, r) rest h g = h

module _ (activate : LoggerRegistry → ℕ → Options → Option Text) where
  configure_sink-loggers :
      (s : SinkConfig) (t : Target)
      → (configure_sink activate s t).1.registry.loggers ≡ t.registry.loggers
  unfolding configure_sink
  configure_sink-loggers s t = elim (Option-cases (create_sink t.registry s.type)) [
    | inl e ↦ rw (configure_sink, e) refl
    | inr (factory, e) ↦ elim (Option-cases (activate t.registry factory s.options)) [
      | inr (reason, g) ↦ rw (configure_sink, e, g) refl
      | inl g ↦ elim (Bool-cases (register_sink t.registry s.name (length t.sinks)).1) [
        | inl k ↦
            rw (configure_sink, e, g, k) (register_sink-loggers t.registry s.name (length t.sinks))
        | inr k ↦ rw (configure_sink, e, g, k) refl
      ]
    ]
  ]

  configure_sink_list-loggers :
      (ss : List SinkConfig) (t : Target)
      → (configure_sink_list activate ss t).1.registry.loggers ≡ t.registry.loggers
  unfolding configure_sink_list
  configure_sink_list-loggers [] t = refl
  configure_sink_list-loggers (s ∷ ss) t =
      let one = configure_sink activate s t in
      continue-keeps (λ (u : Target). u.registry.loggers) t.registry.loggers one
        (configure_sink_list activate ss one.1) (configure_sink-loggers s t)
        (configure_sink_list-loggers ss one.1 ∙ configure_sink-loggers s t)

configure_eq :
    (activate : LoggerRegistry → ℕ → Options → Option Text) (bool_of : Node → Option Bool)
    (fuel : ℕ) (table : Table) (t : Target) (sinks : List SinkConfig)
    (loggers complete : List LoggerConfig)
    → parse_configuration bool_of table ≡ done (sinks, loggers)
    → prepare_loggers fuel loggers ≡ done complete
    → configure activate bool_of fuel table t
      ≡ continue (configure_sinks activate sinks t) (
        (configure_loggers
            (configure_sinks activate sinks t).1.sinks
            complete
            (configure_sinks activate sinks t).1.registry).0,
        record (configure_sinks activate sinks t).1 {
          registry =
              (configure_loggers
                (configure_sinks activate sinks t).1.sinks
                complete
                (configure_sinks activate sinks t).1.registry).1;
        },
      )
unfolding configure
configure_eq activate bool_of fuel table t sinks loggers complete p q = rw (configure, p, q) refl

-- Let a table be read and the loggers be completed, and let the configuration then succeed on a registry
-- from which no logger has been taken yet. A name of less than 2^63 bytes whose nearest known parent
-- (or itself) is the name of one of the completed loggers gets from the registry a new logger of
-- that name, with the level of the completed logger, and with its sinks, as they stand after the
-- sinks of the table have been configured.
pub configure-get :
    (activate : LoggerRegistry → ℕ → Options → Option Text) (bool_of : Node → Option Bool)
    (fuel : ℕ) (table : Table) (t t' : Target) (sinks : List SinkConfig)
    (loggers complete : List LoggerConfig) (l : LoggerConfig) (name : Text) (pre post : List Text)
    → parse_configuration bool_of table ≡ done (sinks, loggers)
    → prepare_loggers fuel loggers ≡ done complete
    → configure activate bool_of fuel table t ≡ (done tt, t')
    → t.registry.loggers ≡ []
    → AmongConfigs l complete
    → length name < 2 ^ 63
    → ancestors name ≡ pre ++ l.name ∷ post
    → AllUnknown t'.registry pre
    → (d : Described
        (configure_sinks activate sinks t).1.sinks
        (configure_sinks activate sinks t).1.registry
        l)
      × (ref : ℕ) × (r' : LoggerRegistry) × (get t'.registry name ≡ some (some ref, r'))
      × (get_elem? r'.world.store ref
          ≡ some (record { name = name; level = d.level; target = d.target }))
unfolding configure configure_sinks
configure-get activate bool_of fuel table t t' sinks loggers complete l name pre post p q h fresh m
      small e u =
    let (d, ref, r', g, k) =
      configure_loggers-get made.sinks complete made.registry l name pre post
        (ap (λ (x : Outcome (Unit {0}) × Target). x.0) whole)
        (configure_sink_list-loggers activate (sort_by_line sinks) t ∙ fresh) m small e
        (subst (λ r. AllUnknown r pre) (sym registries) u) in
    (d, ref, r', ap (λ r. get r name) (sym registries) ∙ g, k)
  where
    made : Target
    made = (configure_sinks activate sinks t).1

    result : Outcome (Unit {0}) × LoggerRegistry
    result = configure_loggers made.sinks complete made.registry

    finished : Outcome (Unit {0}) × Target
    finished = (result.0, record made { registry = result.1 })

    ended : Outcome (Unit {0}) × Target
    ended = (done tt, t')

    whole : finished ≡ ended
    whole =
        continue-done (configure_sinks activate sinks t) finished t'
          (sym (configure_eq activate bool_of fuel table t sinks loggers complete p q) ∙ h)

    registries : result.1 ≡ t'.registry
    registries = ap (λ (x : Outcome (Unit {0}) × Target). x.1.registry) whole
