-- ===== src/Registry/Forward.antt =====
-- The forward iterator of `LoggerKey` over a name with no dot.
use logpp.Common.{
  ℕ, suc, ◌^◌, ◌<◌, ◌≡◌, ◌≢◌, refl, none, some, List, [], ◌∷◌, length, same, same_of_ne, same_refl,
  arith,
}
use logpp.Registry.Key.{
  Iterator, iterator_eq, find_dot, forward_next, begin, rend, forward_fragments,
}

abbrev at_pos : List ℕ → ℕ → Iterator
at_pos key pos = record { key = key; fragment = key; pos = pos }

begin_of_none : (key : List ℕ) → find_dot key 0 ≡ none → begin key ≡ at_pos key 0
unfolding begin
begin_of_none key h = rw (h, begin)

forward_next_first :
    (key : List ℕ)
    → key ≢ []
    → find_dot key 0 ≡ none
    → forward_next (at_pos key 0) ≡ at_pos key (length key)
unfolding forward_next
forward_next_first [] ne h = absurd (ne refl)
forward_next_first (c ∷ s) ne h = rw (h, forward_next) (ground arith)

forward_next_last : (key : List ℕ) → forward_next (at_pos key (length key)) ≡ rend key
unfolding forward_next rend
forward_next_last key = ground arith

forward_fragments-round :
    (key : List ℕ) (pos fuel : ℕ) (fs : List (List ℕ))
    → key ≢ []
    → forward_fragments fuel (forward_next (at_pos key pos)) ≡ some fs
    → forward_fragments (suc fuel) (at_pos key pos) ≡ some (key ∷ fs)
unfolding forward_fragments iterator_eq rend
forward_fragments-round key pos fuel fs ne h = rw (same_of_ne key [] ne, same_refl key, h)

forward_fragments-rend :
    (key : List ℕ) (fuel : ℕ) → forward_fragments (suc fuel) (rend key) ≡ some []
unfolding forward_fragments iterator_eq rend same
forward_fragments-rend key fuel = rw (same_refl key)

-- A name with no dot that is not empty (and has less than 2^63 bytes) is visited twice, although it
-- has one fragment: `begin` adds 1 to the position of a dot that was not found.
pub forward_fragments-twice :
    (key : List ℕ) (fuel : ℕ)
    → key ≢ []
    → length key < 2 ^ 63
    → find_dot key 0 ≡ none
    → forward_fragments (suc (suc (suc fuel))) (begin key) ≡ some (key ∷ key ∷ [])
forward_fragments-twice key fuel ne small h = rw (begin_of_none key h) (
    forward_fragments-round key 0 (suc (suc fuel)) (key ∷ []) ne (
      rw (forward_next_first key ne h) (
        forward_fragments-round key (length key) (suc fuel) [] ne
          (rw (forward_next_last key) (forward_fragments-rend key fuel)))))
