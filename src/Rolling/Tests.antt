-- ===== src/Rolling/Tests.antt =====
-- The theorems on rolling files at concrete files.
use logpp.Common.{
  ℕ, zero, suc, ◌+◌, ◌≤◌, ◌<◌, ◌≡◌, refl, ◌∙◌, none, some, List, [], ◌∷◌, ◌++◌, Bool, true, false,
  length, codes, arith,
}
use logpp.Rolling.{FileSystem, put, exists, archive}
use logpp.Rolling.Paths.{numbered, numbered-injective, numbered-ne-base}
use logpp.Rolling.Shift.{Shifted, archive-Shifted, put-same, put-other}
use logpp.Rolling.Policy.{precise_next, round_next, roll_times, Spaced, roll_times-Spaced}
use logpp.Rolling.Filebuf.{
  automatic, truncating, RollingFilebuf, apply_incremental, xsputn, roll_by_size,
}
use logpp.Rolling.Filebuf.History.{IsRolling, CanArchive, history, read_file}
use logpp.Rolling.Filebuf.Writes.{write_all, written, write_all-history, xsputn-bounded}

-- A clock of 60 ticks a minute.
roll_times-Spaced_example :
    Spaced 60 (85 + 60) (roll_times (precise_next 60) none (85 ∷ 100 ∷ 150 ∷ 160 ∷ 300 ∷ []))
roll_times-Spaced_example = roll_times-Spaced 60 85 (100 ∷ 150 ∷ 160 ∷ 300 ∷ []) (omega arith)

round_next_test : round_next 60 1 36085 ≡ 36120
unfolding round_next
round_next_test = refl

abbrev pub base : List ℕ
base = codes "a.log"

-- The file and one archive.
abbrev pub disk : FileSystem
disk = put base (some (codes "new")) (put (numbered base 0) (some (codes "old")) (λ p. none))

abbrev pub all_permitted : List ℕ → List ℕ → Bool
all_permitted s t = true

pub disk-base : disk base ≡ some (codes "new")
disk-base =
    put-same base (some (codes "new")) (put (numbered base 0) (some (codes "old")) (λ p. none))

disk-archive : disk (numbered base 0) ≡ some (codes "old")
disk-archive =
    put-other base (numbered base 0) (some (codes "new"))
      (put (numbered base 0) (some (codes "old")) (λ p. none)) (numbered-ne-base base 0)
    ∙ put-same (numbered base 0) (some (codes "old")) (λ p. none)

pub disk-taken : (i : ℕ) → i < 1 → exists disk (numbered base i) ≡ true
unfolding exists
disk-taken zero h = rw (exists, disk-archive) refl
disk-taken (suc i) h = absurd (omega arith)

pub disk-free : (i : ℕ) → 1 ≤ i → disk (numbered base i) ≡ none
disk-free i h =
    put-other base (numbered base i) (some (codes "new"))
      (put (numbered base 0) (some (codes "old")) (λ p. none)) (numbered-ne-base base i)
    ∙ put-other (numbered base 0) (numbered base i) (some (codes "old")) (λ p. none)
        (λ e. absurd (omega (arith, h, numbered-injective base i 0 e)))

paths_fit : (i : ℕ) → i ≤ 3 → length (numbered base i) ≤ 254
unfolding numbered
paths_fit zero h = omega arith
paths_fit (suc zero) h = omega arith
paths_fit (suc (suc zero)) h = omega arith
paths_fit (suc (suc (suc zero))) h = omega arith
paths_fit (suc (suc (suc (suc i)))) h = absurd (omega arith)

archive-Shifted_example :
    (fs' : FileSystem) × (archive all_permitted 2 base disk ≡ some (1, fs'))
    × Shifted base 1 disk fs'
archive-Shifted_example =
    archive-Shifted all_permitted (λ s t. refl) base 1 2 disk
      (λ i h. paths_fit i (omega (arith, h))) disk-taken (disk-free 1 (omega arith)) (omega arith)

abbrev pub buf : RollingFilebuf Unit
buf = record {
  path = base;
  open_mode = truncating;
  opened = true;
  position = 3;
  policy_state = tt;
  files = disk;
}

pub buf-IsRolling : IsRolling buf 1 (codes "new")
buf-IsRolling = record {
  is_opened = refl;
  at_path = disk-base;
  at_end = refl;
  taken = disk-taken;
  free = disk-free;
}

abbrev pub all_openable : List ℕ → Bool
all_openable p = true

abbrev pub at_start : ℕ → ℕ
at_start n = 0

pub buf-CanArchive : CanArchive all_openable base 3 4
buf-CanArchive = (refl, paths_fit, omega arith)

write_all-history_example :
    (b' : RollingFilebuf Unit) × (m : ℕ) × (c' : List ℕ) × (write_all
        (roll_by_size 2)
        (apply_incremental all_permitted all_openable at_start 4)
        buf
        ((0, codes "abc") ∷ (1, codes "d") ∷ [])
      ≡ some b')
    × IsRolling b' m c'
    × (history base m b'.files
        ≡ history base 1 disk ++ written ((0, codes "abc") ∷ (1, codes "d") ∷ []))
write_all-history_example =
    write_all-history all_permitted (λ s t. refl) all_openable at_start refl (roll_by_size 2) buf 1
      4 (codes "new") ((0, codes "abc") ∷ (1, codes "d") ∷ []) buf-IsRolling buf-CanArchive

xsputn-bounded_example :
    (b' : RollingFilebuf Unit) × (xsputn
        (roll_by_size 4)
        (apply_incremental all_permitted all_openable at_start 4)
        automatic
        0
        buf
        (codes "abc")
      ≡ some b')
    × (length (read_file b'.files b'.path) < 4 + length (codes "abc"))
xsputn-bounded_example =
    xsputn-bounded all_permitted (λ s t. refl) all_openable at_start refl 4 buf 1 4 0 (codes "new")
      (codes "abc") (omega arith) buf-IsRolling
      (refl, λ i h. paths_fit i (omega (arith, h)), omega arith)

abbrev none_permitted : List ℕ → List ℕ → Bool
none_permitted s t = false

abbrev day_of : List ℕ → ℕ → List ℕ
day_of pattern now = codes "1"
