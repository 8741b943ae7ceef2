-- ===== src/Rolling/Shift.antt =====
-- `ArchiveIncremental::archive`: the loop that looks for a free number, and the loop of renames.
use logpp.Common.{
  ℕ, zero, suc, ◌+◌, ◌≤◌, ◌<◌, ◌≡◌, ◌≢◌, refl, ◌∙◌, sym, Option, none, some, List, Bool, true,
  false, length, leb, arith, Bool-cases, Option-cases, inl, inr, same_refl, same_of_ne,
}
use logpp.Rolling.{FileSystem, put, exists, rename, find_free, shift, archive}
use logpp.Rolling.Paths.{numbered, numbered-injective, numbered-ne-base, format_path-some}

pub put-same : (p : List ℕ) (v : Option (List ℕ)) (fs : FileSystem) → put p v fs p ≡ v
unfolding put
put-same p v fs = rw (same_refl p) refl

pub put-other : (p q : List ℕ) (v : Option (List ℕ)) (fs : FileSystem) → q ≢ p → put p v fs q ≡ fs q
unfolding put
put-other p q v fs h = rw (same_of_ne p q (λ e. h (sym e))) refl

-- What a permitted rename to a free path does.
record Moved (s t : List ℕ) (fs fs' : FileSystem) : Type 0 where
  at_target : fs' t ≡ fs s
  at_source : fs' s ≡ none
  elsewhere : (q : List ℕ) → q ≢ s → q ≢ t → fs' q ≡ fs q

-- The files after the renames from number `k` down.
pub record Shifted (base : List ℕ) (k : ℕ) (fs fs' : FileSystem) : Type 0 where
  pub base_free : fs' base ≡ none
  pub newest : fs' (numbered base 0) ≡ fs base
  pub older : (i : ℕ) → i < k → fs' (numbered base (suc i)) ≡ fs (numbered base i)
  pub others : (q : List ℕ) → q ≢ base → ((i : ℕ) → i ≤ k → q ≢ numbered base i) → fs' q ≡ fs q

numbered-ne : (base : List ℕ) (n m : ℕ) → n ≢ m → numbered base n ≢ numbered base m
numbered-ne base n m h e = h (numbered-injective base n m e)

module _ (permits : List ℕ → List ℕ → Bool) (permitted : (s t : List ℕ) → permits s t ≡ true) where
  rename-Moved :
      (s t : List ℕ) (fs : FileSystem)
      → s ≢ t
      → fs t ≡ none
      → Moved s t fs (rename permits s t fs).0
  unfolding rename
  rename-Moved s t fs ne free = elim (Option-cases (fs s)) [
    | inl e ↦
        rw (rename, e)
          (record { at_target = free ∙ sym e; at_source = e; elsewhere = λ q h g. refl })
    | inr (c, e) ↦
        rw (rename, e, permitted s t)
          (record {
            at_target =
                put-other s t none (put t (some c) fs) (λ g. ne (sym g))
                ∙ put-same t (some c) fs
                ∙ sym e;
            at_source = put-same s none (put t (some c) fs);
            elsewhere =
                λ q h g. put-other s q none (put t (some c) fs) h ∙ put-other t q (some c) fs g;
          })
  ]

  pub shift-Shifted :
      (k : ℕ) (base : List ℕ) (fs : FileSystem)
      → ((i : ℕ) → i ≤ k → length (numbered base i) ≤ 254)
      → fs (numbered base k) ≡ none
      → (fs' : FileSystem) × (shift permits k base fs ≡ some fs') × Shifted base k fs fs'
  unfolding shift
  shift-Shifted zero base fs fits free =
      let m : Moved base (numbered base 0) fs (rename permits base (numbered base 0) fs).0 =
        rename-Moved base (numbered base 0) fs (λ e. numbered-ne-base base 0 (sym e)) free in
      (
        (rename permits base (numbered base 0) fs).0,
        rw (format_path-some base 0 (fits 0 (omega arith))) refl,
        record {
          base_free = m.at_source;
          newest = m.at_target;
          older = λ i h. absurd (omega arith);
          others = λ q h g. m.elsewhere q h (g 0 (omega arith));
        },
      )
  shift-Shifted (suc k) base fs fits free =
      let fs₁ : FileSystem = (rename permits (numbered base k) (numbered base (suc k)) fs).0 in
      let m : Moved (numbered base k) (numbered base (suc k)) fs fs₁ =
        rename-Moved (numbered base k) (numbered base (suc k)) fs
          (numbered-ne base k (suc k) (λ e. absurd (omega (arith, e)))) free in
      let rest = shift-Shifted k base fs₁ (λ i h. fits i (omega (arith, h))) m.at_source in
      (
        rest.0,
        rw
            (
              format_path-some base k (fits k (omega arith)),
              format_path-some base (suc k) (fits (suc k) (omega arith)),
            )
            rest.1,
        shifted m rest.2,
      )
    where
      shifted :
          {fs₁ fs' : FileSystem}
          → Moved (numbered base k) (numbered base (suc k)) fs fs₁
          → Shifted base k fs₁ fs'
          → Shifted base (suc k) fs fs'
      shifted {fs₁} {fs'} m r = record {
        base_free = r.base_free;
        newest =
            r.newest
            ∙ m.elsewhere base (λ e. numbered-ne-base base k (sym e))
                (λ e. numbered-ne-base base (suc k) (sym e));
        older = older_moved;
        others = λ q h g.
            r.others q h (λ i le. g i (omega (arith, le)))
            ∙ m.elsewhere q (g k (omega arith)) (g (suc k) (omega arith));
      }
        where
          older_moved : (i : ℕ) → i < suc k → fs' (numbered base (suc i)) ≡ fs (numbered base i)
          older_moved i h = elim (Bool-cases (leb k i)) [
            | inl e ↦
                let same_i : i ≡ k = ground arith in
                rw same_i (
                  r.others (numbered base (suc k)) (numbered-ne-base base (suc k))
                    (λ j le. numbered-ne base (suc k) j (λ g. absurd (omega (arith, g, le))))
                  ∙ m.at_target)
            | inr e ↦
                let less : i < k = ground arith in
                r.older i less
                ∙ m.elsewhere (numbered base i)
                    (numbered-ne base i k (λ g. absurd (omega (arith, g, less))))
                    (numbered-ne base i (suc k) (λ g. absurd (omega (arith, g, less))))
          ]

  find_free-least :
      (fuel : ℕ) (base : List ℕ) (n m : ℕ) (fs : FileSystem)
      → ((i : ℕ) → i ≤ m → length (numbered base i) ≤ 254)
      → ((i : ℕ) → i < m → exists fs (numbered base i) ≡ true)
      → fs (numbered base m) ≡ none
      → n ≤ m
      → m < n + fuel
      → find_free permits fuel base n fs ≡ some m
  unfolding find_free exists
  find_free-least zero base n m fs fits taken free le more = absurd (omega arith)
  find_free-least (suc fuel) base n m fs fits taken free le more = elim (Bool-cases (leb m n)) [
    | inl e ↦
        let same_n : n ≡ m = ground arith in
        rw (format_path-some base n (fits n le), same_n, free_here) refl
    | inr e ↦
        let less : n < m = ground arith in
        rw (format_path-some base n (fits n le), taken n less)
          (find_free-least fuel base (n + 1) m fs fits taken free (omega (arith, less))
            (omega (arith, more)))
  ]
    where
      free_here : exists fs (numbered base m) ≡ false
      free_here = rw (exists, free) refl

  -- Where the system permits the renames, let `n` be the first number whose archive does not exist,
  -- and let the paths up to it fit in 254 bytes. Then both loops of `archive` end, it returns `n`, and
  -- no file is lost: the file is archived as number 0, each of the archives 0 to n - 1 has moved to
  -- the next number, nothing is left at the path itself, and every other path is as it was.
  pub archive-Shifted :
      (base : List ℕ) (n fuel : ℕ) (fs : FileSystem)
      → ((i : ℕ) → i ≤ n → length (numbered base i) ≤ 254)
      → ((i : ℕ) → i < n → exists fs (numbered base i) ≡ true)
      → fs (numbered base n) ≡ none
      → n < fuel
      → (fs' : FileSystem) × (archive permits fuel base fs ≡ some (n, fs')) × Shifted base n fs fs'
  unfolding archive
  archive-Shifted base n fuel fs fits taken free enough =
      let s = shift-Shifted n base fs fits free in
      (
        s.0,
        rw
            (
              find_free-least fuel base 0 n fs fits taken free (omega arith)
                  (omega (arith, enough)),
              s.1,
            )
            refl,
        s.2,
      )
