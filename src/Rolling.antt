-- ===== src/Rolling.antt =====
-- include/logpp/sinks/file/RollingOfstream.h: a file that is archived, under a numbered or a dated
-- name, when it has grown to a size or at intervals.
--
-- The file system maps paths to contents. `std::filesystem::rename` moves a file that is there, over
-- one that may stand at the target, if the system permits it. Time is a number of ticks.
pub mod Paths
pub mod Shift
pub mod Filebuf
pub mod Policy
pub mod Tests
use logpp.Common.{
  ℕ, zero, suc, ◌+◌, ◌-◌, ◌*◌, ◌/◌, ◌%◌, ◌^◌, Bool, true, false, not, ◌&&◌, Option, none, some,
  List, [], ◌∷◌, ◌++◌, length, if◌then◌else◌, same, ltb, leb, ◌==◌, ◌>>=◌,
}
use Paths.{format_path}

abbrev pub FileSystem : Type 0
FileSystem = List ℕ → Option (List ℕ)

unfoldable pub put : List ℕ → Option (List ℕ) → FileSystem → FileSystem
put p v fs q = if same p q then v else fs q

-- `std::filesystem::exists`
unfoldable pub exists : FileSystem → List ℕ → Bool
exists fs p = elim (fs p) [ some _ ↦ true | none ↦ false ]

-- What of a rename the system permits.
module _ (permits : List ℕ → List ℕ → Bool) where
  -- `file_utils::rename`
  unfoldable pub rename : List ℕ → List ℕ → FileSystem → FileSystem × Bool
  unfolding put
  rename source target fs = elim (fs source) [
    | none ↦ (fs, false)
    | some c ↦
        if permits source target
        then (put source none (put target (some c) fs), true)
        else (fs, false)
  ]

  -- The first loop of `ArchiveIncremental::archive`: the first number, from `n` on, that is free.
  -- `none` is a path that does not fit the buffer, or a loop that has not ended within the fuel.
  unfoldable pub find_free : ℕ → List ℕ → ℕ → FileSystem → Option ℕ
  unfolding exists
  find_free zero base n fs = none
  find_free (suc fuel) base n fs =
      let rest = find_free fuel base (n + 1) fs in
      format_path base n >>= λ path. if exists fs path then rest else some n

  -- The second loop: from `n` down to 0 the file of each number is renamed to the next, and the base to
  -- number 0.
  unfoldable pub shift : ℕ → List ℕ → FileSystem → Option FileSystem
  unfolding rename
  shift zero base fs = format_path base 0 >>= λ new_path. some (rename base new_path fs).0
  shift (suc n) base fs = format_path base n >>= λ old_path.
      format_path base (suc n) >>= λ new_path. shift n base (rename old_path new_path fs).0

  -- `ArchiveIncremental::archive`: the number that the loop has found, and the files.
  unfoldable pub archive : ℕ → List ℕ → FileSystem → Option (ℕ × FileSystem)
  archive fuel base fs = find_free fuel base 0 fs >>= λ n. shift n base fs >>= λ fs'. some (n, fs')
