-- ===== src/FileSink/History.antt =====
-- What a rolling file sink has written, over the archives and the file.
use logpp.Common.{
  ℕ, suc, ◌+◌, ◌≤◌, ◌≡◌, refl, ◌∙◌, ap, sym, subst, some, List, [], ◌∷◌, ◌++◌, append-nil,
  append_assoc, Bool, true, false, length, if◌then◌else◌, arith, Bool-cases, inl, inr,
}
use logpp.Logger.{Entry}
use logpp.Format.{OnFormat}
use logpp.Rolling.Filebuf.{
  manual, RollingPolicy, RollingFilebuf, put_bytes, apply_incremental, can_roll, roll, xsputn, tell,
}
use logpp.Rolling.Filebuf.History.{
  IsRolling, Extended, CanArchive, history, put_bytes-Extended, Extended-trans, set_policy-Extended,
  apply_incremental-Extended,
}
use logpp.FileSink.{
  File, FileSink, Times, write_char, write_data, file_can_roll, file_roll, file_sink, rolling_sink,
  sink_entries,
}

Extended-append :
    {S : Type 0} (b b₁ b₂ : RollingFilebuf S) (n m k : ℕ) (c c' s s' : List ℕ)
    → Extended b b₁ n m c s
    → Extended b₁ b₂ m k c' s'
    → Extended b b₂ n k c' (s ++ s')
Extended-append b b₁ b₂ n m k c c' s s' x y = record {
  rolling = y.rolling;
  same_path = y.same_path ∙ x.same_path;
  longer =
      subst (λ p. history p k b₂.files ≡ history p m b₁.files ++ s') x.same_path y.longer
      ∙ ap (λ l. l ++ s') x.longer
      ∙ append_assoc (history b.path n b.files) s s';
}

abbrev opened_file : {S : Type 0} → RollingFilebuf S → File S
opened_file b = record { has_rofs = true; buf = b }

-- The sink with an open file.
abbrev pub sink_on : {S : Type 0} → OnFormat → RollingFilebuf S → FileSink S
sink_on formatter b = record { formatter = formatter; file = some (opened_file b) }

module _ (permits : List ℕ → List ℕ → Bool) (permitted : (s t : List ℕ) → permits s t ≡ true)
    (openable : List ℕ → Bool) (app_position : ℕ → ℕ) (at_zero : app_position 0 ≡ 0) {S : Type 0}
    (policy : RollingPolicy S) (fuel : ℕ) where
  xsputn-Extended_manual :
      (b : RollingFilebuf S) (n now : ℕ) (c s : List ℕ)
      → IsRolling b n c
      → (b' : RollingFilebuf S) × (xsputn policy
            (apply_incremental permits openable app_position fuel)
            manual
            now
            b
            s
          ≡ some b')
        × Extended b b' n n (c ++ s) s
  unfolding xsputn
  xsputn-Extended_manual b n now c s r =
      let applied = policy.apply_policy b.policy_state now (tell b) in
      let b₁ = record b { policy_state = applied.1 } in
      let set = set_policy-Extended b n c applied.1 r in
      let extended = Extended-trans set (put_bytes-Extended b₁ n c s set.rolling) in
      elim (Bool-cases applied.0) [
        | inl e ↦ (put_bytes b₁ s, rw e refl, extended)
        | inr e ↦ (put_bytes b₁ s, rw e refl, extended)
      ]

  file_roll-Extended :
      (b : RollingFilebuf S) (n now : ℕ) (c : List ℕ)
      → IsRolling b n c
      → CanArchive openable b.path n fuel
      → (b' : RollingFilebuf S) × (file_roll policy
            (apply_incremental permits openable app_position fuel)
            now
            (opened_file b)
          ≡ some (opened_file b'))
        × Extended b b' n (suc n) [] []
  unfolding file_roll roll
  file_roll-Extended b n now c r can =
      let applied = policy.apply_policy b.policy_state now (tell b) in
      let b₁ = record b { policy_state = applied.1 } in
      let set = set_policy-Extended b n c applied.1 r in
      let rolled =
        apply_incremental-Extended permits permitted openable app_position at_zero b₁ n fuel now c
          set.rolling can in
      (rolled.0, rw rolled.1 refl, Extended-trans set rolled.2)

  file_sink-Extended :
      (formatter : OnFormat) (b : RollingFilebuf S) (n now : ℕ) (c line : List ℕ) (entry : Entry)
      → IsRolling b n c
      → formatter entry.name entry.level entry.buffer [] ≡ some line
      → (b' : RollingFilebuf S) × (file_sink policy
            (apply_incremental permits openable app_position fuel)
            now
            (sink_on formatter b)
            entry
          ≡ some (sink_on formatter b'))
        × Extended b b' n n ((c ++ line) ++ (10 ∷ [])) (line ++ (10 ∷ []))
  unfolding file_sink write_data write_char
  file_sink-Extended formatter b n now c line entry r printed =
      let one = xsputn-Extended_manual b n now c line r in
      (
        put_bytes one.0 (10 ∷ []),
        rw (printed, one.1) refl,
        Extended-append b one.0 (put_bytes one.0 (10 ∷ [])) n n n (c ++ line)
            ((c ++ line) ++ (10 ∷ [])) line (10 ∷ []) one.2
            (put_bytes-Extended one.0 n (c ++ line) (10 ∷ []) one.2.rolling),
      )

  -- One event: the file is archived first exactly when `can_roll` says so, and then the line is written.
  pub rolling_sink-Extended :
      (formatter : OnFormat) (b : RollingFilebuf S) (n : ℕ) (times : Times) (c line : List ℕ)
      (entry : Entry)
      → IsRolling b n c
      → CanArchive openable b.path n fuel
      → formatter entry.name entry.level entry.buffer [] ≡ some line
      → let rolls =
          can_roll policy (apply_incremental permits openable app_position fuel) times.at_check b in
        (b' : RollingFilebuf S) × (rolling_sink policy
            (apply_incremental permits openable app_position fuel)
            times
            (sink_on formatter b)
            entry
          ≡ some (sink_on formatter b'))
        × Extended b b' n
            (if rolls then suc n else n)
            (((if rolls then [] else c) ++ line) ++ (10 ∷ []))
            (line ++ (10 ∷ []))
  unfolding rolling_sink file_can_roll
  rolling_sink-Extended formatter b n times c line entry r can printed =
      elim (Bool-cases
        (can_roll policy (apply_incremental permits openable app_position fuel) times.at_check b)) [
          | inl e ↦
              let rolled = file_roll-Extended b n times.at_roll c r can in
              let sent =
                file_sink-Extended formatter rolled.0 (suc n) times.at_write [] line entry
                  rolled.2.rolling printed in
              (sent.0, rw (e, rolled.1) sent.1, rw e (Extended-trans rolled.2 sent.2))
          | inr e ↦
              let sent = file_sink-Extended formatter b n times.at_write c line entry r printed in
              (sent.0, rw e sent.1, rw e sent.2)
        ]

-- The lines that the entries are formatted to.
abbrev pub AllPrinted : OnFormat → List (Times × Entry) → List (List ℕ) → Type 0
AllPrinted formatter [] [] = Unit
AllPrinted formatter [] (l ∷ ls) = ⊥
AllPrinted formatter (x ∷ xs) [] = ⊥
AllPrinted formatter (x ∷ xs) (l ∷ ls) =
    (formatter x.1.name x.1.level x.1.buffer [] ≡ some l) × AllPrinted formatter xs ls

-- Lines, each ended by a line feed.
abbrev pub text_of_lines : List (List ℕ) → List ℕ
text_of_lines [] = []
text_of_lines (l ∷ ls) = (l ++ (10 ∷ [])) ++ text_of_lines ls

at_most_one : (rolls : Bool) (n : ℕ) → (if rolls then suc n else n) ≤ suc n
at_most_one true n = omega arith
at_most_one false n = omega arith

module _ (permits : List ℕ → List ℕ → Bool) (permitted : (s t : List ℕ) → permits s t ≡ true)
    (openable : List ℕ → Bool) (app_position : ℕ → ℕ) (at_zero : app_position 0 ≡ 0) {S : Type 0}
    (policy : RollingPolicy S) (fuel : ℕ) (formatter : OnFormat) where
  -- A rolling file sink with an open file, where the system permits the renames and opens the file, an empty
  -- file opens at position 0, and the paths of as many more archives as there are events fit in 254 bytes:
  -- events that the formatter prints are all written, whatever the rolling policy and whenever the clock
  -- is read. The archives, from the oldest, and the file hold what they held before, followed by the lines
  -- in order, each ended by a line feed.
  pub sink_entries-history :
      (b : RollingFilebuf S) (n : ℕ) (c : List ℕ) (xs : List (Times × Entry)) (ls : List (List ℕ))
      → IsRolling b n c
      → CanArchive openable b.path (n + length xs) fuel
      → AllPrinted formatter xs ls
      → (b' : RollingFilebuf S) × (m : ℕ) × (c' : List ℕ) × (sink_entries policy
            (apply_incremental permits openable app_position fuel)
            (sink_on formatter b)
            xs
          ≡ some (sink_on formatter b'))
        × IsRolling b' m c'
        × (history b.path m b'.files ≡ history b.path n b.files ++ text_of_lines ls)
  unfolding sink_entries
  sink_entries-history b n c [] [] r can p =
      (b, n, c, refl, r, sym (append-nil (history b.path n b.files)))
  sink_entries-history b n c [] (l ∷ ls) r can p = absurd p
  sink_entries-history b n c (x ∷ xs) [] r can p = absurd p
  sink_entries-history b n c (x ∷ xs) (l ∷ ls) r (can_open, fits, enough) (p, ps) =
      let one =
        rolling_sink-Extended permits permitted openable app_position at_zero policy fuel formatter
          b n x.0 c l x.1 r (can_open, λ i h. fits i (omega arith), omega (arith, enough)) p in
      let rolls =
        can_roll policy (apply_incremental permits openable app_position fuel) x.0.at_check b in
      let k : ℕ = if rolls then suc n else n in
      let few : k ≤ suc n = at_most_one rolls n in
      let rest =
        sink_entries-history one.0 k (((if rolls then [] else c) ++ l) ++ (10 ∷ [])) xs ls
          one.2.rolling
          (subst (λ q. CanArchive openable q (k + length xs) fuel) (sym one.2.same_path)
            (can_open, λ i h. fits i (omega (arith, h, few)), omega (arith, enough, few)))
          ps in
      (
        rest.0,
        rest.1,
        rest.2,
        rw one.1 rest.3,
        rest.4,
        subst (λ q. history q rest.1 rest.0.files ≡ history q k one.0.files ++ text_of_lines ls)
              one.2.same_path rest.5
            ∙ ap (λ t. t ++ text_of_lines ls) one.2.longer
            ∙ append_assoc (history b.path n b.files) (l ++ (10 ∷ [])) (text_of_lines ls),
      )
