-- ===== src/Rolling/Filebuf/Closed.antt =====
-- A rolling file that stops to roll: a write in mode `manual`, and a rename that is refused.
use logpp.Common.{
  ℕ, ◌≤◌, ◌<◌, ◌≡◌, ◌≢◌, refl, ◌∙◌, ap, Option, none, some, List, [], ◌∷◌, ◌++◌, Bool, true, false,
  leb, arith, Bool-cases, Option-cases, inl, inr,
}
use logpp.Rolling.{FileSystem, exists, rename}
use logpp.Rolling.Shift.{put-other}
use logpp.Rolling.Policy.{can_roll_every, apply_every, apply_every-next, can_roll_size}
use logpp.Rolling.Filebuf.{
  automatic, manual, RollingFilebuf, apply_timestamp, xsputn, tell, can_roll, put_bytes,
  roll_by_size, roll_every,
}
use logpp.Rolling.Filebuf.Writes.{write_all}

put_bytes-policy_state :
    {S : Type 0} (b : RollingFilebuf S) (s : List ℕ) → (put_bytes b s).policy_state ≡ b.policy_state
unfolding put_bytes
put_bytes-policy_state b s = elim (Option-cases (b.files b.path)) [
  | inl e ↦ rw (put_bytes, e) refl
  | inr (c, e) ↦ elim (Bool-cases b.opened) [
    | inl o ↦ rw (put_bytes, e, o) refl
    | inr o ↦ rw (put_bytes, e, o) refl
  ]
]

put_bytes-others :
    {S : Type 0} (b : RollingFilebuf S) (s q : List ℕ)
    → q ≢ b.path
    → (put_bytes b s).files q ≡ b.files q
unfolding put_bytes
put_bytes-others b s q ne = elim (Option-cases (b.files b.path)) [
  | inl e ↦ rw (put_bytes, e) refl
  | inr (c, e) ↦ elim (Bool-cases b.opened) [
    | inl o ↦ rw (put_bytes, e, o) (put-other b.path q (some (c ++ s)) b.files ne)
    | inr o ↦ rw (put_bytes, e, o) refl
  ]
]

-- A file with policy `RollEvery` in mode `manual`, where the next point after a time is later than it.
-- While the file can be rolled, a write still rolls nothing: no other file changes. But it moves the
-- next point on, so that `can_roll` says no: the caller who asks only after a write never rolls.
pub xsputn-manual :
    (next : ℕ → ℕ)
    (archive_policy : ℕ → RollingFilebuf (Option ℕ) → Option (RollingFilebuf (Option ℕ))) (now : ℕ)
    (b : RollingFilebuf (Option ℕ)) (s : List ℕ)
    → now < next now
    → can_roll (roll_every next) archive_policy now b ≡ true
    → (b' : RollingFilebuf (Option ℕ)) × (xsputn (roll_every next) archive_policy manual now b s
        ≡ some b')
      × ((q : List ℕ) → q ≢ b.path → b'.files q ≡ b.files q)
      × (can_roll (roll_every next) archive_policy now b' ≡ false)
unfolding xsputn can_roll can_roll_every apply_every
xsputn-manual next archive_policy now b s later due =
    let a = apply_every-next next b.policy_state now later in
    let b₁ = record b { policy_state = some a.0 } in
    (
      put_bytes b₁ s,
      rw (a.1, due) refl,
      λ q ne. put_bytes-others b₁ s q ne,
      ap (λ p. can_roll_every p now) (put_bytes-policy_state b₁ s) ∙ a.3,
    )

put_bytes-closed :
    {S : Type 0} (b : RollingFilebuf S) (s : List ℕ) → b.opened ≡ false → put_bytes b s ≡ b
unfolding put_bytes
put_bytes-closed b s o = elim (Option-cases (b.files b.path)) [
  | inl e ↦ rw (put_bytes, e) refl
  | inr (c, e) ↦ rw (put_bytes, e, o) refl
]

rename-refused :
    (permits : List ℕ → List ℕ → Bool) (s t : List ℕ) (fs : FileSystem)
    → permits s t ≡ false
    → rename permits s t fs ≡ (fs, false)
unfolding rename
rename-refused permits s t fs h = elim (Option-cases (fs s)) [
  | inl e ↦ rw (rename, e) refl
  | inr (c, e) ↦ rw (rename, e, h) refl
]

tell-closed : {S : Type 0} (b : RollingFilebuf S) → b.opened ≡ false → tell b ≡ none
unfolding tell
tell-closed b o = rw (tell, o) refl

xsputn-closed :
    (bytes_threshold : ℕ) (archive_policy : ℕ → RollingFilebuf Unit → Option (RollingFilebuf Unit))
    (now : ℕ) (b : RollingFilebuf Unit) (s : List ℕ)
    → b.opened ≡ false
    → xsputn (roll_by_size bytes_threshold) archive_policy automatic now b s ≡ some b
unfolding xsputn can_roll_size
xsputn-closed bytes_threshold archive_policy now b s o =
    rw (tell-closed b o) (ap some (put_bytes-closed b s o))

write_all-closed :
    (bytes_threshold : ℕ) (archive_policy : ℕ → RollingFilebuf Unit → Option (RollingFilebuf Unit))
    (b : RollingFilebuf Unit) (ws : List (ℕ × List ℕ))
    → b.opened ≡ false
    → write_all (roll_by_size bytes_threshold) archive_policy b ws ≡ some b
unfolding write_all
write_all-closed bytes_threshold archive_policy b [] o = refl
write_all-closed bytes_threshold archive_policy b (w ∷ ws) o =
    rw (xsputn-closed bytes_threshold archive_policy w.0 b w.1 o)
      (write_all-closed bytes_threshold archive_policy b ws o)

apply_timestamp-refused :
    (permits : List ℕ → List ℕ → Bool) (openable : List ℕ → Bool) (app_position : ℕ → ℕ)
    (strftime : List ℕ → ℕ → List ℕ) (p : ℕ) (pattern : List ℕ) (fuel now : ℕ)
    (b : RollingFilebuf Unit)
    → exists b.files (b.path ++ (b'.' ∷ strftime (p ∷ pattern) now)) ≡ false
    → permits b.path (b.path ++ (b'.' ∷ strftime (p ∷ pattern) now)) ≡ false
    → apply_timestamp permits openable app_position strftime (p ∷ pattern) fuel now b
      ≡ some (record b { opened = false })
unfolding apply_timestamp
apply_timestamp-refused permits openable app_position strftime p pattern fuel now b free refused =
    rw
      (
        free,
        rename-refused permits b.path (b.path ++ (b'.' ∷ strftime (p ∷ pattern) now)) b.files
            refused,
      )
      refl

-- A file with policies `RollBySize` and `ArchiveTimestamp` that has reached the threshold, where the
-- archive's path is free and the system refuses the rename. The write that is to roll it leaves it
-- closed, and no file has changed: what was to be written is lost, and so is what is written after.
pub xsputn-lost :
    (permits : List ℕ → List ℕ → Bool) (openable : List ℕ → Bool) (app_position : ℕ → ℕ)
    (strftime : List ℕ → ℕ → List ℕ) (p : ℕ) (pattern : List ℕ) (fuel bytes_threshold now : ℕ)
    (b : RollingFilebuf Unit) (s : List ℕ)
    → b.opened ≡ true
    → bytes_threshold ≤ b.position
    → exists b.files (b.path ++ (b'.' ∷ strftime (p ∷ pattern) now)) ≡ false
    → permits b.path (b.path ++ (b'.' ∷ strftime (p ∷ pattern) now)) ≡ false
    → let archive_policy =
        apply_timestamp permits openable app_position strftime (p ∷ pattern) fuel in
      (b' : RollingFilebuf Unit) × (xsputn
          (roll_by_size bytes_threshold)
          archive_policy
          automatic
          now
          b
          s
        ≡ some b')
      × (b'.opened ≡ false)
      × (b'.files ≡ b.files)
      × ((ws : List (ℕ × List ℕ))
          → write_all (roll_by_size bytes_threshold) archive_policy b' ws ≡ some b')
unfolding xsputn tell can_roll_size apply_timestamp
xsputn-lost permits openable app_position strftime p pattern fuel bytes_threshold now b s o full
      free refused =
    (
      record b { opened = false },
      rw
          (
            o,
            due,
            apply_timestamp-refused permits openable app_position strftime p pattern fuel now b free
                refused,
          )
          (ap some (put_bytes-closed (record b { opened = false }) s refl)),
      refl,
      refl,
      λ ws.
          write_all-closed bytes_threshold
            (apply_timestamp permits openable app_position strftime (p ∷ pattern) fuel)
            (record b { opened = false }) ws refl,
    )
  where
    due : leb bytes_threshold b.position ≡ true
    due = ground (arith, full)
