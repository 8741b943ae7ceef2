-- ===== src/Rolling/Filebuf/Writes.antt =====
-- Sequences of writes to a rolling file, and the size of the file.
use logpp.Common.{
  ℕ, suc, ◌+◌, ◌≤◌, ◌<◌, ◌≡◌, refl, ◌∙◌, ap, sym, subst, Option, some, List, [], ◌∷◌, ◌++◌,
  append-nil, append_assoc, Bool, true, false, length, length-append, if◌then◌else◌, leb, arith,
  Bool-cases, inl, inr, ◌>>=◌,
}
use logpp.Rolling.Policy.{can_roll_size}
use logpp.Rolling.Filebuf.{
  automatic, RollingPolicy, RollingFilebuf, apply_incremental, xsputn, tell, roll_by_size,
}
use logpp.Rolling.Filebuf.History.{
  IsRolling, CanArchive, history, read_file, text_of, xsputn-Extended,
}

-- What a list of writes, each with its time, puts into the file.
abbrev pub written : List (ℕ × List ℕ) → List ℕ
written [] = []
written (w ∷ ws) = w.1 ++ written ws

module _ {S : Type 0} (policy : RollingPolicy S)
    (archive_policy : ℕ → RollingFilebuf S → Option (RollingFilebuf S)) where
  -- The writes one after the other, in mode `automatic`.
  unfoldable pub write_all : RollingFilebuf S → List (ℕ × List ℕ) → Option (RollingFilebuf S)
  unfolding xsputn
  write_all b [] = some b
  write_all b (w ∷ ws) = xsputn policy archive_policy automatic w.0 b w.1 >>= λ b'. write_all b' ws

at_most_one : (rolls : Bool) (n : ℕ) → (if rolls then suc n else n) ≤ suc n
at_most_one true n = omega arith
at_most_one false n = omega arith

roll_by_size-bounded :
    (bytes_threshold : ℕ) (c s : List ℕ)
    → 0 < bytes_threshold
    → length (if leb bytes_threshold (length c) then s else c ++ s) < bytes_threshold + length s
roll_by_size-bounded bytes_threshold c s h = elim (Bool-cases (leb bytes_threshold (length c))) [
  | inl e ↦ rw e (omega arith)
  | inr e ↦
      let below : length c < bytes_threshold = ground arith in
      rw (e, length-append c s) (omega (arith, below))
]

module _ (permits : List ℕ → List ℕ → Bool) (permitted : (s t : List ℕ) → permits s t ≡ true)
    (openable : List ℕ → Bool) (app_position : ℕ → ℕ) (at_zero : app_position 0 ≡ 0)
    {S : Type 0} where
  -- Where the system permits the renames and opens the file, and the paths of as many more archives as
  -- there are writes fit in 254 bytes, and an empty file opens at position 0, writes to an open file lose nothing, whatever the
  -- rolling policy: they all succeed, and the archives, from the oldest, and the file hold what they
  -- held before, followed by what was written, in order.
  pub write_all-history :
      (policy : RollingPolicy S) (b : RollingFilebuf S) (n fuel : ℕ) (c : List ℕ)
      (ws : List (ℕ × List ℕ))
      → IsRolling b n c
      → CanArchive openable b.path (n + length ws) fuel
      → (b' : RollingFilebuf S) × (m : ℕ) × (c' : List ℕ) × (write_all policy
            (apply_incremental permits openable app_position fuel)
            b
            ws
          ≡ some b')
        × IsRolling b' m c'
        × (history b.path m b'.files ≡ history b.path n b.files ++ written ws)
  unfolding write_all
  write_all-history policy b n fuel c [] r can =
      (b, n, c, refl, r, sym (append-nil (history b.path n b.files)))
  write_all-history policy b n fuel c (w ∷ ws) r (can_open, fits, enough) =
      let one =
        xsputn-Extended permits permitted openable app_position at_zero policy b n fuel w.0 c w.1 r
          (can_open, λ i h. fits i (omega arith), omega (arith, enough)) in
      let rolls = (policy.apply_policy b.policy_state w.0 (tell b)).0 in
      let few : (if rolls then suc n else n) ≤ suc n = at_most_one rolls n in
      let rest =
        write_all-history policy one.0 (if rolls then suc n else n) fuel
          (if rolls then w.1 else c ++ w.1) ws one.2.rolling
          (subst (λ p. CanArchive openable p ((if rolls then suc n else n) + length ws) fuel)
            (sym one.2.same_path)
            (can_open, λ i h. fits i (omega (arith, h, few)), omega (arith, enough, few))) in
      (
        rest.0,
        rest.1,
        rest.2,
        rw one.1 rest.3,
        rest.4,
        subst
              (λ p.
                history p rest.1 rest.0.files
                ≡ history p (if rolls then suc n else n) one.0.files ++ written ws)
              one.2.same_path rest.5
            ∙ ap (λ l. l ++ written ws) one.2.longer
            ∙ append_assoc (history b.path n b.files) w.1 (written ws),
      )

module _ (permits : List ℕ → List ℕ → Bool) (permitted : (s t : List ℕ) → permits s t ≡ true)
    (openable : List ℕ → Bool) (app_position : ℕ → ℕ) (at_zero : app_position 0 ≡ 0) where
  -- A stream buffer that rolls by size, in automatic mode, with archives by number and a threshold
  -- greater than 0; its file is open with the position at its end, and its archives are numbered without
  -- gaps. Where archives can be made, and an empty file opens at position 0, a write to it succeeds, and
  -- the file then has less than the threshold's bytes and those of the write.
  pub xsputn-bounded :
      (bytes_threshold : ℕ) (b : RollingFilebuf Unit) (n fuel now : ℕ) (c s : List ℕ)
      → 0 < bytes_threshold
      → IsRolling b n c
      → CanArchive openable b.path n fuel
      → (b' : RollingFilebuf Unit) × (xsputn
            (roll_by_size bytes_threshold)
            (apply_incremental permits openable app_position fuel)
            automatic
            now
            b
            s
          ≡ some b')
        × (length (read_file b'.files b'.path) < bytes_threshold + length s)
  unfolding text_of tell can_roll_size
  xsputn-bounded bytes_threshold b n fuel now c s h r can =
      let one =
        xsputn-Extended permits permitted openable app_position at_zero
          (roll_by_size bytes_threshold) b n fuel now c s r can in
      let rolls = can_roll_size bytes_threshold (tell b) in
      let bound : length (if rolls then s else c ++ s) < bytes_threshold + length s =
        rw (tell, r.is_opened, r.at_end) (roll_by_size-bounded bytes_threshold c s h) in
      (one.0, one.1, rw (one.2.rolling.at_path) bound)
