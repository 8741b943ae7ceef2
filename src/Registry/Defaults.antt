-- ===== src/Registry/Defaults.antt =====
-- `setDefaultLogger` and the loggers that were created before it.
use native.Mathlib.Decide.{ℕ_discrete}
use logpp.Common.{
  ℕ, zero, suc, ◌<◌, ◌≡◌, ◌≢◌, refl, ◌∙◌, ap, sym, subst, some, List, [], ◌∷◌, length, get_elem?,
  arith, inl, inr, ◌⊎◌,
}
use logpp.Logger.{Logger, set_level, set_sink}
use logpp.Registry.{
  LoggerRegistry, update_at, configure, configure_instances, set_default_logger, register_logger,
  register_logger_func,
}

-- The level and the sink of one logger are those of another; its name is that of a third.
abbrev pub Follows : Logger → Logger → Type 0
Follows l k = (k.level ≡ l.level) × (k.target ≡ l.target)

abbrev pub Among : ℕ → List ℕ → Type 0
Among i [] = ⊥
Among i (x ∷ xs) = (i ≡ x) ⊎ Among i xs

Among-length : (i : ℕ) (is : List ℕ) → Among i is → 0 < length is
Among-length i [] a = elim a [ ]
Among-length i (x ∷ is) a = omega arith

pub get_elem?-update_at :
    (f : Logger → Logger) (store : List Logger) (i : ℕ) {k : Logger}
    → get_elem? store i ≡ some k
    → get_elem? (update_at f store i) i ≡ some (f k)
unfolding update_at
get_elem?-update_at f [] i h = cc
get_elem?-update_at f (x ∷ store) zero h = cc h
get_elem?-update_at f (x ∷ store) (suc i) h = get_elem?-update_at f store i h

pub get_elem?-update_at_ne :
    (f : Logger → Logger) (store : List Logger) (i j : ℕ)
    → i ≢ j
    → get_elem? (update_at f store i) j ≡ get_elem? store j
unfolding update_at
get_elem?-update_at_ne f [] i j h = refl
get_elem?-update_at_ne f (x ∷ store) zero zero h = absurd (h refl)
get_elem?-update_at_ne f (x ∷ store) zero (suc j) h = refl
get_elem?-update_at_ne f (x ∷ store) (suc i) zero h = refl
get_elem?-update_at_ne f (x ∷ store) (suc i) (suc j) h =
    get_elem?-update_at_ne f store i j (λ e. h (ap suc e))

-- One round of the loop: what stands at `j` keeps its name; it follows the new default if it is the
-- instance of the round, and else it is as it was.
record Configured (l k k' : Logger) (turn : Type 0) : Type 0 where
  same_name : k'.name ≡ k.name
  follows : turn → Follows l k'
  keeps : Follows l k → Follows l k'

configure-Configured :
    (l t : Logger) (store : List Logger) (tmp i j : ℕ) (k : Logger)
    → get_elem? store tmp ≡ some t
    → Follows l t
    → get_elem? store j ≡ some k
    → (k' : Logger) × (get_elem? (configure (get_elem? store tmp) store i) j ≡ some k')
      × Configured l k k' (i ≡ j)
unfolding configure set_level set_sink
configure-Configured l t store tmp i j k ht ft hk = elim (ℕ_discrete i j) [
  | yes e ↦ (
    record k { level = t.level; target = t.target },
    rw (ht, configure)
        (subst
          (λ m.
            get_elem? (update_at (λ n. set_level (set_sink n t.target) t.level) store m) j
            ≡ some (record k { level = t.level; target = t.target }))
          (sym e) (get_elem?-update_at _ store j hk)),
    record { same_name = refl; follows = λ _. ft; keeps = λ _. ft },
  )
  | no ne ↦ (
    k,
    rw (ht, configure) (get_elem?-update_at_ne _ store i j ne ∙ hk),
    record { same_name = refl; follows = λ e. absurd (ne e); keeps = λ f. f },
  )
]

-- The whole loop.
configure_instances-Configured :
    (l t : Logger) (tmp : ℕ) (is : List ℕ) (store : List Logger) (j : ℕ) (k : Logger)
    → get_elem? store tmp ≡ some t
    → Follows l t
    → get_elem? store j ≡ some k
    → (k' : Logger) × (get_elem? (configure_instances tmp is store) j ≡ some k')
      × Configured l k k' (Among j is)
unfolding configure_instances
configure_instances-Configured l t tmp [] store j k ht ft hk =
    (k, hk, record { same_name = refl; follows = λ a. elim a [ ]; keeps = λ f. f })
configure_instances-Configured l t tmp (i ∷ is) store j k ht ft hk =
    let store' : List Logger = configure (get_elem? store tmp) store i in
    let (t', ht', ct) = configure-Configured l t store tmp i tmp t ht ft ht in
    let (k1, hk1, c1) = configure-Configured l t store tmp i j k ht ft hk in
    let (k2, hk2, c2) =
      configure_instances-Configured l t' tmp is store' j k1 ht' (ct.keeps ft) hk1 in
    (
      k2,
      hk2,
      record {
        same_name = c2.same_name ∙ c1.same_name;
        follows = elim [ inl e ↦ c2.keeps (c1.follows (sym e)) | inr a ↦ c2.follows a ];
        keeps = λ f. c2.keeps (c1.keeps f);
      },
    )

-- Setting a default logger brings every instance that the default factory has made before up to its
-- level and its sink; the instance keeps its name.
pub set_default_logger-Follows :
    (r : LoggerRegistry) (name : List ℕ) (logger i : ℕ) (l k : Logger)
    → get_elem? r.world.store logger ≡ some l
    → Among i r.world.instances
    → get_elem? r.world.store i ≡ some k
    → (k' : Logger) × (get_elem? (set_default_logger r name logger).world.store i ≡ some k')
      × Follows l k'
      × (k'.name ≡ k.name)
unfolding set_default_logger register_logger register_logger_func
set_default_logger-Follows r name logger i l k hl among hk =
    let (k', hk', c) =
      configure_instances-Configured l l logger r.world.instances r.world.store i k hl (refl, refl)
        hk in
    (k', ground (arith, hk', Among-length i r.world.instances among), c.follows among, c.same_name)
