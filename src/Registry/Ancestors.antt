-- ===== src/Registry/Ancestors.antt =====
-- The loop over a name visits the name and its parents, the longest first, and ends.
use logpp.Common.{
  ℕ, zero, suc, ◌+◌, ◌%◌, ◌^◌, ◌≤◌, ◌<◌, ◌≡◌, ◌≢◌, refl, min, true, ◌&&◌, Option, none, some, List,
  [], ◌∷◌, length, take, if◌then◌else◌, same, same_refl, same_of_ne, ltb, ◌==◌, arith, Bool-cases,
  inl, inr, ◌⊎◌,
}
use logpp.Registry.Key.{
  npos, iterator_eq, is_dot, rfind_below, reverse_step, reverse_next, rbegin, rend, for_each,
}

-- The parents of a name that end before a dot at an index below `n`, the longest first. A dot at the
-- start of the name has no name before it.
unfoldable pub parents : List ℕ → ℕ → List (List ℕ)
parents key zero = []
parents key (suc n) = if is_dot key n && ltb 0 n then take n key ∷ parents key n else parents key n

-- A name and all its parents; of the empty name there is nothing to visit.
unfoldable pub ancestors : List ℕ → List (List ℕ)
ancestors [] = []
ancestors (c ∷ s) = (c ∷ s) ∷ parents (c ∷ s) (length (c ∷ s))

-- The first answer of `body` along a list.
unfoldable pub first {ℓ} : {R : Type ℓ} → (List ℕ → Option R) → List (List ℕ) → Option R
first body [] = none
first body (f ∷ fs) = elim (body f) [ some res ↦ some res | none ↦ first body fs ]

iterator_eq-rend :
    (key fragment : List ℕ) (pos : ℕ)
    → iterator_eq (record { key = key; fragment = fragment; pos = pos }) (rend key)
      ≡ (same fragment [] && pos == npos)
unfolding iterator_eq rend
iterator_eq-rend key fragment pos = rw (same_refl key)

-- At the end the loop stops.
for_each-rend {ℓ} :
    {R : Type ℓ} (body : List ℕ → Option R) (key fragment : List ℕ) (pos fuel : ℕ)
    → fragment ≡ []
    → pos ≡ npos
    → for_each (suc fuel) body (record { key = key; fragment = fragment; pos = pos }) ≡ some none
unfolding for_each same
for_each-rend body key fragment pos fuel e h = rw (iterator_eq-rend key fragment pos, e, h)

-- Elsewhere it makes a round.
for_each-round {ℓ} :
    {R : Type ℓ} (body : List ℕ → Option R) (key fragment : List ℕ) (pos fuel : ℕ)
    → (fragment ≢ []) ⊎ (pos ≢ npos)
    → for_each (suc fuel) body (record { key = key; fragment = fragment; pos = pos })
      ≡ (elim (body fragment) [
        | some res ↦ some (some res)
        | none ↦
            for_each fuel body (reverse_next (record { key = key; fragment = fragment; pos = pos }))
      ])
unfolding for_each
for_each-round body key fragment pos fuel (inl h) =
    rw (iterator_eq-rend key fragment pos, same_of_ne fragment [] h)
for_each-round body key fragment pos fuel (inr h) =
    rw (iterator_eq-rend key fragment pos) (ground arith)

reverse_next-at :
    (key fragment : List ℕ) (pos n : ℕ)
    → n ≤ length key
    → min (pos + 1) (length key) ≡ n
    → reverse_next (record { key = key; fragment = fragment; pos = pos })
      ≡ reverse_step key (rfind_below key n)
unfolding reverse_next
reverse_next-at key fragment pos n h e = rw e

-- A round whose body does not answer goes on; one that answers ends the loop.
first-cons {ℓ} :
    {R : Type ℓ} (o : Option R) (rest : Option (Option R)) (later : Option R)
    → rest ≡ some later
    → ◌≡◌ {A = Option (Option R)}
        (elim o [ some res ↦ some (some res) | none ↦ rest ])
        (some (elim o [ some res ↦ some res | none ↦ later ]))
first-cons none rest later e = e
first-cons (some res) rest later e = refl

parents-dot :
    (key : List ℕ) (m : ℕ)
    → is_dot key (suc m) ≡ true
    → parents key (suc (suc m)) ≡ take (suc m) key ∷ parents key (suc m)
unfolding parents
parents-dot key m e = rw e (ground arith)

-- The loop at the step behind a bound `n` on the position.
for_each-parents {ℓ} :
    {R : Type ℓ} (body : List ℕ → Option R) (key : List ℕ) (n fuel : ℕ)
    → n < fuel
    → n ≤ length key
    → length key < 2 ^ 63
    → for_each fuel body (reverse_step key (rfind_below key n)) ≡ some (first body (parents key n))
unfolding first parents rfind_below reverse_step
for_each-parents body key n zero h k small = absurd (omega arith)
for_each-parents body key zero (suc fuel) h k small = for_each-rend body key [] npos fuel refl refl
for_each-parents body key (suc zero) (suc fuel) h k small = elim (Bool-cases (is_dot key 0)) [
  | inl e ↦ rw (e, reverse_step) (for_each-rend body key [] npos fuel refl refl)
  | inr e ↦ rw (e, reverse_step) (for_each-rend body key [] npos fuel refl refl)
]
for_each-parents {R} body key (suc (suc m)) (suc fuel) h k small =
    elim (Bool-cases (is_dot key (suc m))) [
      | inl e ↦
          let pos : ℕ = (suc m + npos) % 2 ^ 64 in
          let pos_before : pos ≡ m = omega arith in
          let later : Option (Option R) =
            for_each fuel body
              (reverse_next (record { key = key; fragment = take (suc m) key; pos = pos })) in
          let ih : later ≡ some (first body (parents key (suc m))) =
            rw (reverse_next-at key (take (suc m) key) pos (suc m) (omega arith) (omega arith))
              (for_each-parents body key (suc m) fuel (omega arith) (omega arith) small) in
          rw
            (
              parents-dot key m e,
              e,
              reverse_step,
              for_each-round body key (take (suc m) key) pos fuel (inr (omega arith)),
            )
            (first-cons (body (take (suc m) key)) later (first body (parents key (suc m))) ih)
      | inr e ↦
          rw e (for_each-parents body key (suc m) (suc fuel) (omega arith) (omega arith) small)
    ]

-- The loop of `matches` and `get` over a name of less than 2^63 bytes ends within its fuel, and gives
-- the first answer of its body along the name and its parents, the longest first.
pub for_each-ancestors {ℓ} :
    {R : Type ℓ} (body : List ℕ → Option R) (key : List ℕ)
    → length key < 2 ^ 63
    → for_each (suc (suc (length key))) body (rbegin key) ≡ some (first body (ancestors key))
unfolding rbegin first ancestors
for_each-ancestors body [] small = for_each-rend body [] [] npos 1 refl refl
for_each-ancestors {R} body (c ∷ s) small =
    let key : List ℕ = c ∷ s in
    let later : Option (Option R) =
      for_each (suc (length key)) body
        (reverse_next (record { key = key; fragment = key; pos = npos })) in
    rw (for_each-round body key key npos (suc (length key)) (inl (λ e. cc))) (
      first-cons (body key) later (first body (parents key (length key))) (
        rw (reverse_next-at key key npos (length key) (omega arith) (omega arith)) (
          for_each-parents body key (length key) (suc (length key)) (omega arith) (omega arith)
            small)))
