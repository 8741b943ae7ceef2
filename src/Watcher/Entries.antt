-- ===== src/Watcher/Entries.antt =====
-- The map of the entries.
use logpp.Common.{
  ℕ, ◌≡◌, refl, none, some, [], ◌∷◌, if◌then◌else◌, ◌==◌, arith, Bool-cases, Option-cases, inl, inr,
}
use logpp.Watcher.{WatchEntry, Entries, find_entry, insert_entry, erase_entry}

-- No descriptor stands twice in the map.
abbrev pub IsMap : Entries → Type 0
IsMap [] = Unit
IsMap ((k, e) ∷ es) = (find_entry k es ≡ none) × IsMap es

IsMap-erase_find :
    (es : Entries) (k wd : ℕ) → find_entry k es ≡ none → find_entry k (erase_entry wd es) ≡ none
unfolding find_entry erase_entry
IsMap-erase_find [] k wd h = refl
IsMap-erase_find ((j, e) ∷ es) k wd h = ground (arith, h, IsMap-erase_find es k wd)

pub IsMap-erase : (es : Entries) (wd : ℕ) → IsMap es → IsMap (erase_entry wd es)
unfolding erase_entry
IsMap-erase [] wd h = tt
IsMap-erase ((k, e) ∷ es) wd (n, h) = elim (Bool-cases (wd == k)) [
  | inl q ↦ rw q h
  | inr q ↦ rw q (IsMap-erase_find es k wd n, IsMap-erase es wd h)
]

pub find_entry-erase :
    (es : Entries) (k wd : ℕ)
    → IsMap es
    → find_entry k (erase_entry wd es) ≡ (if k == wd then none else find_entry k es)
unfolding find_entry erase_entry
find_entry-erase [] k wd h = ground arith
find_entry-erase ((j, e) ∷ es) k wd (n, h) = ground (arith, n, find_entry-erase es k wd h)

insert_entry-new :
    (es : Entries) (wd : ℕ) (e : WatchEntry)
    → find_entry wd es ≡ none
    → insert_entry wd e es ≡ (wd, e) ∷ es
unfolding insert_entry
insert_entry-new es wd e n = rw (insert_entry, n) refl

insert_entry-old :
    (es : Entries) (wd : ℕ) (e old : WatchEntry)
    → find_entry wd es ≡ some old
    → insert_entry wd e es ≡ es
unfolding insert_entry
insert_entry-old es wd e old n = rw (insert_entry, n) refl

find_entry-cons :
    (es : Entries) (k wd : ℕ) (e : WatchEntry)
    → find_entry wd es ≡ none
    → find_entry k ((wd, e) ∷ es)
      ≡ elim (find_entry k es) [ some old ↦ some old | none ↦ if k == wd then some e else none ]
unfolding find_entry
find_entry-cons es k wd e n = ground (arith, n)

find_entry-kept :
    (es : Entries) (k wd : ℕ) (e old : WatchEntry)
    → find_entry wd es ≡ some old
    → find_entry k es
      ≡ elim (find_entry k es) [ some old' ↦ some old' | none ↦ if k == wd then some e else none ]
find_entry-kept es k wd e old n = ground (arith, n)

pub find_entry-insert :
    (es : Entries) (k wd : ℕ) (e : WatchEntry)
    → find_entry k (insert_entry wd e es)
      ≡ elim (find_entry k es) [ some old ↦ some old | none ↦ if k == wd then some e else none ]
find_entry-insert es k wd e = elim (Option-cases (find_entry wd es)) [
  | inl n ↦ rw (insert_entry-new es wd e n) (find_entry-cons es k wd e n)
  | inr (old, n) ↦ rw (insert_entry-old es wd e old n) (find_entry-kept es k wd e old n)
]

pub IsMap-insert :
    (es : Entries) (wd : ℕ) (e : WatchEntry) → IsMap es → IsMap (insert_entry wd e es)
IsMap-insert es wd e h = elim (Option-cases (find_entry wd es)) [
  | inl n ↦ rw (insert_entry-new es wd e n) (n, h)
  | inr (old, n) ↦ rw (insert_entry-old es wd e old n) h
]
