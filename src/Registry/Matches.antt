-- ===== src/Registry/Matches.antt =====
-- `LoggerRegistry::matches`: the names that a key is within.
use native.Mathlib.Decide.{ℕ_discrete}
use logpp.Common.{
  ℕ, zero, suc, ◌^◌, ◌<◌, ◌≡◌, ◌≢◌, refl, ◌∙◌, sym, subst, Bool, true, false, ◌&&◌, ◌||◌, none,
  some, List, [], ◌∷◌, length, take, if◌then◌else◌, same, same_refl, same_iff, ltb, arith,
  Bool-cases, inl, inr, ◌⊎◌, ◌↔◌, ◌>>=◌,
}
use logpp.Registry.Key.{is_dot}
use logpp.Registry.Ancestors.{parents, ancestors, first, for_each-ancestors}
use logpp.Registry.{matches}

listed : List ℕ → List (List ℕ) → Bool
listed name [] = false
listed name (f ∷ fs) = same f name || listed name fs

first-listed :
    (name : List ℕ) (fs : List (List ℕ))
    → first (λ f. if same f name then some true else none) fs
      ≡ (if listed name fs then some true else none)
unfolding first listed
first-listed name [] = refl
first-listed name (f ∷ fs) = ground (arith, first-listed name fs)

listed-parents :
    (name key : List ℕ) (n : ℕ)
    → listed name (parents key n) ≡ true
    → (i : ℕ) × (0 < i) × (i < n) × (is_dot key i ≡ true) × (name ≡ take i key)
unfolding listed parents
listed-parents name key zero h = cc
listed-parents name key (suc n) h = elim (Bool-cases (is_dot key n && ltb 0 n)) [
  | inl e ↦ elim (Bool-cases (same (take n key) name)) [
    | inl hit ↦
        (n, ground arith, omega arith, ground arith, sym ((same_iff (take n key) name).0 hit))
    | inr miss ↦
        let (i, a, b, c, d) = listed-parents name key n (ground arith) in
        (i, a, omega (arith, b), c, d)
  ]
  | inr e ↦
      let (i, a, b, c, d) = listed-parents name key n (ground arith) in
      (i, a, omega (arith, b), c, d)
]

listed_of_last :
    (key : List ℕ) (n : ℕ)
    → 0 < n
    → is_dot key n ≡ true
    → listed (take n key) (parents key (suc n)) ≡ true
unfolding listed parents
listed_of_last key n pos e = ground (arith, same_refl (take n key))

listed_of_dot :
    (key : List ℕ) (i n : ℕ)
    → 0 < i
    → i < n
    → is_dot key i ≡ true
    → listed (take i key) (parents key n) ≡ true
unfolding listed parents
listed_of_dot key i zero pos h e = absurd (omega arith)
listed_of_dot key i (suc n) pos h e = elim (ℕ_discrete i n) [
  | yes q ↦
      subst (λ k. listed (take i key) (parents key (suc k)) ≡ true) q (listed_of_last key i pos e)
  | no q ↦ ground (arith, listed_of_dot key i n pos (omega arith) e)
]

-- A name is a parent of a key, or the key itself.
abbrev pub IsWithin : List ℕ → List ℕ → Type 0
IsWithin name key =
    (name ≢ [])
    × ((name ≡ key) ⊎ ((i : ℕ) × (i < length key) × (is_dot key i ≡ true) × (name ≡ take i key)))

positive_of_take : (name key : List ℕ) (i : ℕ) → name ≢ [] → name ≡ take i key → 0 < i
positive_of_take name key zero h e = absurd (h e)
positive_of_take name key (suc i) h e = omega arith

take-ne-nil : (n : ℕ) (key : List ℕ) → 0 < n → n < length key → take n key ≢ []
take-ne-nil zero key h k = absurd (omega arith)
take-ne-nil (suc n) [] h k = absurd (omega arith)
take-ne-nil (suc n) (x ∷ key) h k = λ e. cc

listed-IsWithin :
    (name : List ℕ) (c : ℕ) (s : List ℕ)
    → listed name (ancestors (c ∷ s)) ≡ true
    → IsWithin name (c ∷ s)
unfolding listed ancestors
listed-IsWithin name c s h = elim (Bool-cases (same (c ∷ s) name)) [
  | inl e ↦ let q : c ∷ s ≡ name = (same_iff (c ∷ s) name).0 e in ((λ nil. cc), inl (sym q))
  | inr e ↦
      let (i, a, b, d, q) = listed-parents name (c ∷ s) (length (c ∷ s)) (ground arith) in
      ((λ nil. take-ne-nil i (c ∷ s) a b (sym q ∙ nil)), inr (i, b, d, q))
]

IsWithin-listed : (name key : List ℕ) → IsWithin name key → listed name (ancestors key) ≡ true
unfolding listed ancestors
IsWithin-listed name [] (h, inl e) = absurd (h e)
IsWithin-listed name [] (h, inr (i, b, d, q)) = absurd (omega arith)
IsWithin-listed name (c ∷ s) (h, inl e) = ground (arith, same_iff (c ∷ s) name)
IsWithin-listed name (c ∷ s) (h, inr (i, b, d, q)) =
    let pos : 0 < i = positive_of_take name (c ∷ s) i h q in
    let found : listed name (parents (c ∷ s) (length (c ∷ s))) ≡ true =
      subst (λ n. listed n (parents (c ∷ s) (length (c ∷ s))) ≡ true) (sym q)
        (listed_of_dot (c ∷ s) i (length (c ∷ s)) pos b d) in
    ground (arith, found)

listed-ancestors_iff :
    (name key : List ℕ) → (listed name (ancestors key) ≡ true) ↔ IsWithin name key
listed-ancestors_iff name [] = (unfold listed ancestors in (λ h. cc), IsWithin-listed name [])
listed-ancestors_iff name (c ∷ s) = (listed-IsWithin name c s, IsWithin-listed name (c ∷ s))

-- `matches(key, name)` always answers, for keys of less than 2^63 bytes; and it says yes exactly when
-- the name is not empty and is the key or what stands before one of the key's dots.
pub matches_iff :
    (key name : List ℕ)
    → length key < 2 ^ 63
    → (b : Bool) × (matches key name ≡ some b) × ((b ≡ true) ↔ IsWithin name key)
unfolding matches
matches_iff key name small = (
  listed name (ancestors key),
  rw
      (
        for_each-ancestors (λ f. if same f name then some true else none) key small,
        ◌>>=◌,
        first-listed name (ancestors key),
      )
      (ground arith),
  listed-ancestors_iff name key,
)
