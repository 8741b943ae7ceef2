-- ===== src/Rolling/Filebuf/History.antt =====
-- What has been written to a rolling file, over its archives.
use logpp.Common.{
  ℕ, zero, suc, ◌≤◌, ◌<◌, ◌≡◌, refl, ◌∙◌, ap, sym, subst, Option, none, some, List, [], ◌++◌,
  append-nil, append_assoc, Bool, true, false, length, if◌then◌else◌, arith, Bool-cases, inl, inr,
}
use logpp.Rolling.{FileSystem, put, exists}
use logpp.Rolling.Paths.{numbered, numbered-injective, numbered-ne-base}
use logpp.Rolling.Shift.{Shifted, archive-Shifted, put-same, put-other}
use logpp.Rolling.Filebuf.{
  OpenMode, truncating, appending, content, start, automatic, RollingPolicy, RollingFilebuf,
  put_bytes, open_file, apply_incremental, xsputn, tell,
}

unfoldable pub text_of : Option (List ℕ) → List ℕ
text_of none = []
text_of (some c) = c

abbrev pub read_file : FileSystem → List ℕ → List ℕ
read_file fs p = text_of (fs p)

-- The archives with the numbers n - 1 down to 0, from the oldest.
unfoldable pub archived : List ℕ → ℕ → FileSystem → List ℕ
archived base zero fs = []
archived base (suc n) fs = read_file fs (numbered base n) ++ archived base n fs

-- The archives and the file.
abbrev pub history : List ℕ → ℕ → FileSystem → List ℕ
history base n fs = archived base n fs ++ read_file fs base

-- An open file with the archives 0 to n - 1.
pub record IsRolling {S : Type 0} (b : RollingFilebuf S) (n : ℕ) (c : List ℕ) : Type 0 where
  pub is_opened : b.opened ≡ true
  pub at_path : b.files b.path ≡ some c
  pub at_end : b.position ≡ length c
  pub taken : (i : ℕ) → i < n → exists b.files (numbered b.path i) ≡ true
  pub free : (i : ℕ) → n ≤ i → b.files (numbered b.path i) ≡ none

archived_ext :
    (base : List ℕ) (n : ℕ) (fs fs' : FileSystem)
    → ((i : ℕ) → i < n → fs' (numbered base i) ≡ fs (numbered base i))
    → archived base n fs' ≡ archived base n fs
unfolding archived
archived_ext base zero fs fs' h = refl
archived_ext base (suc n) fs fs' h =
    rw (h n (omega arith), archived_ext base n fs fs' (λ i l. h i (omega (arith, l)))) refl

archived-Shifted :
    (base : List ℕ) (n k : ℕ) (fs fs' : FileSystem)
    → Shifted base n fs fs'
    → k ≤ n
    → archived base (suc k) fs' ≡ archived base k fs ++ read_file fs base
unfolding archived
archived-Shifted base n zero fs fs' s h = rw s.newest (append-nil (read_file fs base))
archived-Shifted base n (suc k) fs fs' s h =
    rw (s.older k (omega arith), archived-Shifted base n k fs fs' s (omega arith))
      (sym (append_assoc (read_file fs (numbered base k)) (archived base k fs) (read_file fs base)))

-- What a write has made of a rolling file: the path stays, and the history is longer by what was
-- written.
pub record Extended {S : Type 0} (b b' : RollingFilebuf S) (n m : ℕ) (c s : List ℕ) : Type 0 where
  pub rolling : IsRolling b' m c
  pub same_path : b'.path ≡ b.path
  pub longer : history b.path m b'.files ≡ history b.path n b.files ++ s

exists_ext : (fs fs' : FileSystem) (p q : List ℕ) → fs' q ≡ fs p → exists fs' q ≡ exists fs p
unfolding exists
exists_ext fs fs' p q e = rw (exists, e) refl

module _ {S : Type 0} where
  put_bytes-some :
      (b : RollingFilebuf S) (c s : List ℕ)
      → b.opened ≡ true
      → b.files b.path ≡ some c
      → put_bytes b s
        ≡ record b { files = put b.path (some (c ++ s)) b.files; position = length (c ++ s) }
  unfolding put_bytes
  put_bytes-some b c s o e = rw (put_bytes, e, o) refl

  pub put_bytes-Extended :
      (b : RollingFilebuf S) (n : ℕ) (c s : List ℕ)
      → IsRolling b n c
      → Extended b (put_bytes b s) n n (c ++ s) s
  unfolding text_of
  put_bytes-Extended b n c s r =
      subst (λ b'. Extended b b' n n (c ++ s) s) (sym (put_bytes-some b c s r.is_opened r.at_path))
        (record { rolling = still; same_path = refl; longer = extended })
    where
      fs' : FileSystem
      fs' = put b.path (some (c ++ s)) b.files

      at_base : fs' b.path ≡ some (c ++ s)
      at_base = put-same b.path (some (c ++ s)) b.files

      elsewhere : (i : ℕ) → fs' (numbered b.path i) ≡ b.files (numbered b.path i)
      elsewhere i =
          put-other b.path (numbered b.path i) (some (c ++ s)) b.files (numbered-ne-base b.path i)

      still : IsRolling (record b { files = fs'; position = length (c ++ s) }) n (c ++ s)
      still = record {
        is_opened = r.is_opened;
        at_path = at_base;
        at_end = refl;
        taken = λ i h.
            exists_ext b.files fs' (numbered b.path i) (numbered b.path i) (elsewhere i)
            ∙ r.taken i h;
        free = λ i h. elsewhere i ∙ r.free i h;
      }

      extended : history b.path n fs' ≡ history b.path n b.files ++ s
      extended =
          rw (archived_ext b.path n b.files fs' (λ i h. elsewhere i), at_base, r.at_path)
            (sym (append_assoc (archived b.path n b.files) c s))

  pub Extended-trans :
      {b b₁ b₂ : RollingFilebuf S} {n m k : ℕ} {c c' s : List ℕ}
      → Extended b b₁ n m c []
      → Extended b₁ b₂ m k c' s
      → Extended b b₂ n k c' s
  Extended-trans {b} {b₁} {b₂} {n} {m} {k} {c} {c'} {s} x y = record {
    rolling = y.rolling;
    same_path = y.same_path ∙ x.same_path;
    longer =
        subst (λ p. history p k b₂.files ≡ history p m b₁.files ++ s) x.same_path y.longer
        ∙ ap (λ l. l ++ s) (x.longer ∙ append-nil (history b.path n b.files));
  }

  pub set_policy-Extended :
      (b : RollingFilebuf S) (n : ℕ) (c : List ℕ) (p : S)
      → IsRolling b n c
      → Extended b (record b { policy_state = p }) n n c []
  set_policy-Extended b n c p r = record {
    rolling = record {
      is_opened = r.is_opened;
      at_path = r.at_path;
      at_end = r.at_end;
      taken = r.taken;
      free = r.free;
    };
    same_path = refl;
    longer = sym (append-nil (history b.path n b.files));
  }

-- The conditions under which the archives up to number `n` can be made.
abbrev pub CanArchive : (List ℕ → Bool) → List ℕ → ℕ → ℕ → Type 0
CanArchive openable base n fuel =
    (openable base ≡ true) × ((i : ℕ) → i ≤ n → length (numbered base i) ≤ 254) × (n < fuel)

content-none : (mode : OpenMode) → content mode none ≡ []
content-none truncating = refl
content-none appending = refl

start-empty :
    (app_position : ℕ → ℕ) (mode : OpenMode) → app_position 0 ≡ 0 → start app_position mode [] ≡ 0
start-empty app_position truncating h = refl
start-empty app_position appending h = h

module _ (permits : List ℕ → List ℕ → Bool) (permitted : (s t : List ℕ) → permits s t ≡ true)
    (openable : List ℕ → Bool) (app_position : ℕ → ℕ) (at_zero : app_position 0 ≡ 0)
    {S : Type 0} where
  -- A file that is not there is opened empty.
  open_file-some :
      (b : RollingFilebuf S)
      → b.files b.path ≡ none
      → openable b.path ≡ true
      → open_file permits openable app_position b
        ≡ record b { opened = true; position = 0; files = put b.path (some []) b.files }
  unfolding open_file
  open_file-some b t o =
      rw (open_file, o, t, content-none b.open_mode, start-empty app_position b.open_mode at_zero)
        refl

  open_file-Extended :
      (b : RollingFilebuf S) (n : ℕ) (c : List ℕ) (fs' : FileSystem)
      → IsRolling b n c
      → Shifted b.path n b.files fs'
      → Extended b
          (record b { opened = true; position = 0; files = put b.path (some []) fs' })
          n
          (suc n)
          []
          []
  unfolding text_of exists
  open_file-Extended b n c fs' r s = record {
    rolling = fresh_file;
    same_path = refl;
    longer = kept;
  }
    where
      new_fs : FileSystem
      new_fs = put b.path (some []) fs'

      elsewhere : (i : ℕ) → new_fs (numbered b.path i) ≡ fs' (numbered b.path i)
      elsewhere i = put-other b.path (numbered b.path i) (some []) fs' (numbered-ne-base b.path i)

      taken_at : (i : ℕ) → i < suc n → exists new_fs (numbered b.path i) ≡ true
      taken_at zero h = rw (exists, elsewhere 0, s.newest, r.at_path) refl
      taken_at (suc i) h =
          exists_ext b.files new_fs (numbered b.path i) (numbered b.path (suc i))
            (elsewhere (suc i) ∙ s.older i (omega arith))
          ∙ r.taken i (omega arith)

      free_at : (i : ℕ) → suc n ≤ i → new_fs (numbered b.path i) ≡ none
      free_at i h =
          elsewhere i
          ∙ s.others (numbered b.path i) (numbered-ne-base b.path i)
              (λ j l e. absurd (omega (arith, h, l, numbered-injective b.path i j e)))
          ∙ r.free i (omega arith)

      fresh_file : IsRolling (record b { opened = true; position = 0; files = new_fs }) (suc n) []
      fresh_file = record {
        is_opened = refl;
        at_path = put-same b.path (some []) fs';
        at_end = refl;
        taken = taken_at;
        free = free_at;
      }

      kept : history b.path (suc n) new_fs ≡ history b.path n b.files ++ []
      kept =
          rw
            (
              archived_ext b.path (suc n) fs' new_fs (λ i h. elsewhere i),
              put-same b.path (some []) fs',
            )
            (ap (λ l. l ++ []) (archived-Shifted b.path n n b.files fs' s (omega arith)))

  pub apply_incremental-Extended :
      (b : RollingFilebuf S) (n fuel now : ℕ) (c : List ℕ)
      → IsRolling b n c
      → CanArchive openable b.path n fuel
      → (b' : RollingFilebuf S) × (apply_incremental permits openable app_position fuel now b
          ≡ some b')
        × Extended b b' n (suc n) [] []
  unfolding apply_incremental
  apply_incremental-Extended b n fuel now c r (can_open, fits, enough) =
      let a =
        archive-Shifted permits permitted b.path n fuel b.files fits r.taken
          (r.free n (omega arith)) enough in
      (
        record b { opened = true; position = 0; files = put b.path (some []) a.0 },
        rw (a.1) (
            ap some
              (open_file-some (record b { opened = false; files = a.0 }) a.2.base_free can_open)),
        open_file-Extended b n c a.0 r a.2,
      )

  -- One write, whatever the rolling policy says.
  pub xsputn-Extended :
      (policy : RollingPolicy S) (b : RollingFilebuf S) (n fuel now : ℕ) (c s : List ℕ)
      → IsRolling b n c
      → CanArchive openable b.path n fuel
      → let rolls = (policy.apply_policy b.policy_state now (tell b)).0 in
        (b' : RollingFilebuf S) × (xsputn policy
            (apply_incremental permits openable app_position fuel)
            automatic
            now
            b
            s
          ≡ some b')
        × Extended b b' n (if rolls then suc n else n) (if rolls then s else c ++ s) s
  unfolding xsputn tell
  xsputn-Extended policy b n fuel now c s r can =
      elim (Bool-cases (policy.apply_policy b.policy_state now (tell b)).0) [
        | inl e ↦ (
          put_bytes rolled.0 s,
          rw (e, rolled.1) refl,
          rw e (
              Extended-trans (Extended-trans applied rolled.2)
                (put_bytes-Extended rolled.0 (suc n) [] s rolled.2.rolling)),
        )
        | inr e ↦ (
          put_bytes b₁ s,
          rw e refl,
          rw e (Extended-trans applied (put_bytes-Extended b₁ n c s applied.rolling)),
        )
      ]
    where
      b₁ : RollingFilebuf S
      b₁ = record b { policy_state = (policy.apply_policy b.policy_state now (tell b)).1 }

      applied : Extended b b₁ n n c []
      applied = set_policy-Extended b n c (policy.apply_policy b.policy_state now (tell b)).1 r

      rolled :
          (b₂ : RollingFilebuf S) × (apply_incremental permits openable app_position fuel now b₁
            ≡ some b₂)
          × Extended b₁ b₂ n (suc n) [] []
      rolled = apply_incremental-Extended b₁ n fuel now c applied.rolling can
