-- ===== src/Registry/Key.antt =====
-- `LoggerKey` of include/logpp/core/LoggerRegistry.h: the iterators over a dotted name.
use logpp.Common.{
  ℕ, zero, suc, ◌+◌, ◌-◌, ◌%◌, ◌^◌, min, Bool, false, ◌&&◌, Option, none, some, List, [], ◌∷◌,
  length, take, get_elem?, if◌then◌else◌, same, ◌==◌,
}

abbrev pub npos : ℕ
npos = 2 ^ 64 - 1

-- `BasicIterator`
pub record Iterator : Type 0 where
  pub key : List ℕ
  pub fragment : List ℕ
  pub pos : ℕ

-- `operator==`
unfoldable pub iterator_eq : Iterator → Iterator → Bool
iterator_eq i j = same i.key j.key && same i.fragment j.fragment && i.pos == j.pos

-- `key[i] == '.'`
unfoldable pub is_dot : List ℕ → ℕ → Bool
is_dot key i = elim (get_elem? key i) [ some c ↦ c == b'.' | none ↦ false ]

-- `std::string_view::rfind('.', pos)`: the last dot at or before `pos`.
unfoldable pub rfind_below : List ℕ → ℕ → Option ℕ
unfolding is_dot
rfind_below key zero = none
rfind_below key (suc n) = if is_dot key n then some n else rfind_below key n

unfoldable pub rfind : List ℕ → ℕ → Option ℕ
rfind key pos = rfind_below key (min (pos + 1) (length key))

-- `std::string_view::find('.', pos)`: the first dot at or behind `pos`, in the `n` bytes from there.
unfoldable pub find_from : List ℕ → ℕ → ℕ → Option ℕ
unfolding is_dot
find_from key pos zero = none
find_from key pos (suc n) = if is_dot key pos then some pos else find_from key (pos + 1) n

unfoldable pub find_dot : List ℕ → ℕ → Option ℕ
find_dot key pos = find_from key pos (length key - pos)

-- `ReverseStrategy::next`; `separatorPos - 1` wraps at 0.
unfoldable pub reverse_step : List ℕ → Option ℕ → Iterator
reverse_step key none = record { key = key; fragment = []; pos = npos }
reverse_step key (some i) = record { key = key; fragment = take i key; pos = (i + npos) % 2 ^ 64 }

unfoldable pub reverse_next : Iterator → Iterator
unfolding reverse_step rfind
reverse_next it = reverse_step it.key (rfind it.key it.pos)

-- `ForwardStrategy::next`
unfoldable pub forward_next : Iterator → Iterator
unfolding find_dot
forward_next it =
    if it.pos == length it.key
    then record { key = it.key; fragment = []; pos = npos }
    else elim (find_dot it.key it.pos) [
      | none ↦ record { key = it.key; fragment = it.key; pos = length it.key }
      | some i ↦ record { key = it.key; fragment = take i it.key; pos = i + 1 }
    ]

-- `begin()`: where there is no dot, `separatorPos + 1` wraps to 0.
unfoldable pub begin : List ℕ → Iterator
unfolding find_dot
begin key = elim (find_dot key 0) [
  | none ↦ record { key = key; fragment = key; pos = (npos + 1) % 2 ^ 64 }
  | some i ↦ record { key = key; fragment = take i key; pos = i + 1 }
]

-- `end()` and `rend()`
unfoldable pub rend : List ℕ → Iterator
rend key = record { key = key; fragment = []; pos = npos }

unfoldable pub rbegin : List ℕ → Iterator
rbegin key = record { key = key; fragment = key; pos = npos }

-- `for (it = ...; it != key.rend(); ++it)`, with a body that may return. `none` is a loop that has
-- not ended within the fuel; `some none` one that has run to its end.
unfoldable pub for_each {ℓ} : {R : Type ℓ} → ℕ → (List ℕ → Option R) → Iterator → Option (Option R)
unfolding iterator_eq rend reverse_next
for_each zero body it = none
for_each (suc fuel) body it =
    let rest = for_each fuel body (reverse_next it) in
    let result = body it.fragment in
    if iterator_eq it (rend it.key)
    then some none
    else elim result [ some res ↦ some (some res) | none ↦ rest ]

-- The fragments that a forward loop visits.
unfoldable pub forward_fragments : ℕ → Iterator → Option (List (List ℕ))
unfolding iterator_eq rend forward_next
forward_fragments zero it = none
forward_fragments (suc fuel) it =
    let rest = forward_fragments fuel (forward_next it) in
    if iterator_eq it (rend it.key)
    then some []
    else elim rest [ none ↦ none | some fs ↦ some (it.fragment ∷ fs) ]
