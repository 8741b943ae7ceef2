-- ===== src/Rolling/Filebuf.antt =====
-- `basic_rolling_filebuf` and the archive policies of include/logpp/sinks/file/RollingOfstream.h: the
-- stream buffer that asks a rolling policy at each write, and archives its file.
--
-- What is written stands in the file at the buffer's path: the buffering of `std::basic_filebuf`, which
-- `pubsync` and `close` empty, is not modelled.
pub mod History
pub mod Writes
pub mod Closed
use logpp.Common.{
  ℕ, zero, suc, ◌+◌, ◌≤◌, ◌<◌, ◌≡◌, Option, none, some, List, [], ◌∷◌, ◌++◌, length, Bool, true,
  false, not, ◌&&◌, if◌then◌else◌, ◌>>=◌,
}
use logpp.Rolling.{FileSystem, put, exists, rename, archive}
use logpp.Rolling.Policy.{can_roll_size, can_roll_every, apply_every}

pub data RollMode : Type 0 where
  automatic : RollMode
  manual : RollMode

-- The open modes `out` and `app`.
pub data OpenMode : Type 0 where
  truncating : OpenMode
  appending : OpenMode

-- A rolling policy with its state; both calls are given the time and the position in the file.
pub record RollingPolicy (S : Type 0) : Type 0 where
  pub can_roll_policy : S → ℕ → Option ℕ → Bool
  pub apply_policy : S → ℕ → Option ℕ → Bool × S

abbrev pub roll_by_size : ℕ → RollingPolicy Unit
roll_by_size bytes_threshold = record {
  can_roll_policy = λ s now pos. can_roll_size bytes_threshold pos;
  apply_policy = λ s now pos. (can_roll_size bytes_threshold pos, s);
}

abbrev pub roll_every : (ℕ → ℕ) → RollingPolicy (Option ℕ)
roll_every next = record {
  can_roll_policy = λ s now pos. can_roll_every s now;
  apply_policy = λ s now pos. apply_every next s now;
}

-- What `open` leaves of the file that was there.
abbrev pub content : OpenMode → Option (List ℕ) → List ℕ
content truncating old = []
content appending none = []
content appending (some c) = c

-- The position in a file that has been opened.
abbrev pub start : (ℕ → ℕ) → OpenMode → List ℕ → ℕ
start app_position truncating c = 0
start app_position appending c = app_position (length c)

abbrev pub is_automatic : RollMode → Bool
is_automatic automatic = true
is_automatic manual = false

pub record RollingFilebuf (S : Type 0) : Type 0 where
  pub path : List ℕ
  pub open_mode : OpenMode
  pub opened : Bool
  pub position : ℕ
  pub policy_state : S
  pub files : FileSystem

module _ {S : Type 0} where
  -- `pubseekoff(0, cur, out)`, which answers -1 for a file that is not open.
  unfoldable pub tell : RollingFilebuf S → Option ℕ
  tell b = if b.opened then some b.position else none

  -- `std::basic_filebuf::xsputn`
  unfoldable pub put_bytes : RollingFilebuf S → List ℕ → RollingFilebuf S
  unfolding put
  put_bytes b s = elim (b.files b.path) [
    | none ↦ b
    | some c ↦
        if b.opened
        then record b { files = put b.path (some (c ++ s)) b.files; position = length (c ++ s) }
        else b
  ]

-- What the system permits: a rename, and to open a path for writing. `app_position` is the position in
-- a file of a length that has just been opened with `app`.
module _ (permits : List ℕ → List ℕ → Bool) (openable : List ℕ → Bool) (app_position : ℕ → ℕ)
    {S : Type 0} where
  -- `open(path, mode)`, of a file that is not open.
  unfoldable pub open_file : RollingFilebuf S → RollingFilebuf S
  unfolding put
  open_file b =
      if openable b.path
      then record b {
        opened = true;
        position = start app_position b.open_mode (content b.open_mode (b.files b.path));
        files = put b.path (some (content b.open_mode (b.files b.path))) b.files;
      }
      else b

  -- `ArchiveIncremental::apply`, with the fuel of `archive`.
  unfoldable pub apply_incremental : ℕ → ℕ → RollingFilebuf S → Option (RollingFilebuf S)
  unfolding archive
  apply_incremental fuel now b = archive permits fuel b.path b.files >>= λ r.
      some (open_file (record b { opened = false; files = r.1 }))

  -- `ArchiveTimestamp::apply`. `strftime pattern now` is the time in the pattern, the offset and the
  -- time zone applied.
  unfoldable pub apply_timestamp :
      (List ℕ → ℕ → List ℕ) → List ℕ → ℕ → ℕ → RollingFilebuf S → Option (RollingFilebuf S)
  unfolding exists rename archive
  apply_timestamp strftime [] fuel now b = some b
  apply_timestamp strftime (p ∷ pattern) fuel now b =
      let new_path = b.path ++ (b'.' ∷ strftime (p ∷ pattern) now) in
      let old =
        if exists b.files new_path
        then archive permits fuel new_path b.files
        else some (0, b.files) in
      old >>= λ r.
      let moved = rename permits b.path new_path r.1 in
      let closed = record b { opened = false; files = moved.0 } in
      some (if moved.1 then open_file closed else closed)

-- A rolling policy, and the archive policy, which is given the time.
module _ {S : Type 0} (policy : RollingPolicy S)
    (archive_policy : ℕ → RollingFilebuf S → Option (RollingFilebuf S)) where
  unfoldable pub can_roll : ℕ → RollingFilebuf S → Bool
  unfolding tell
  can_roll now b = policy.can_roll_policy b.policy_state now (tell b)

  unfoldable pub roll : ℕ → RollingFilebuf S → Option (RollingFilebuf S)
  unfolding tell
  roll now b =
      archive_policy now
        (record b { policy_state = (policy.apply_policy b.policy_state now (tell b)).1 })

  -- `xsputn`
  unfoldable pub xsputn : RollMode → ℕ → RollingFilebuf S → List ℕ → Option (RollingFilebuf S)
  unfolding tell put_bytes
  xsputn mode now b s =
      let applied = policy.apply_policy b.policy_state now (tell b) in
      let b₁ = record b { policy_state = applied.1 } in
      let rolled = archive_policy now b₁ in
      (if applied.0 && is_automatic mode then rolled else some b₁) >>= λ b₂. some (put_bytes b₂ s)
