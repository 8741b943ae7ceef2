-- ===== src/LogFmt/Entries.antt =====
-- The body of the loop of `matchPattern` on the entries that `render_entry` writes.
use logpp.Common.{
  ℕ, zero, suc, ◌≡◌, refl, Bool, true, false, none, List, [], ◌∷◌, ◌++◌, codes, ◌==◌,
}
use logpp.Pattern.{Zone}
use logpp.Pattern.Grammar.{Lacks}
use logpp.LogFmt.{
  LogFmtFlag, key_value_formatter, flag_formatter_proxy, LogFmtFlags, no_flags, then_flag,
  push_back, add_flag, add_fields, matched, and_match, match_until, match_string, skip_blanks,
  match_flag, match_pair, match_entry, match_default,
}
use logpp.LogFmt.Grammar.{
  Piece, Entry, all_fields, pair, Layout, render_value, blanks, render_entry, render, separator,
  entry_meaning, IsNonempty, IsClosed, IsKey, IsLayout,
}
use logpp.LogFmt.Values.{Stops, match_flag-value}

skip_blanks-blanks :
    (n : ℕ) (es : Layout) → IsLayout es → skip_blanks (blanks n (render es)) ≡ render es
unfolding skip_blanks blanks render render_entry
skip_blanks-blanks (suc n) es h = skip_blanks-blanks n es h
skip_blanks-blanks zero [] h = refl
skip_blanks-blanks zero ((all_fields, m) ∷ es) h = refl
skip_blanks-blanks zero ((pair [] ps, m) ∷ es) h = refl
skip_blanks-blanks zero ((pair (c ∷ key) ps, m) ∷ es) ((p, b, l), v, k, h) = rw b refl

match_until-key :
    (c : ℕ) (key rest : List ℕ)
    → Lacks c key
    → (c == c) ≡ true
    → match_until c (key ++ (c ∷ rest)) ≡ (key, c ∷ rest)
unfolding match_until
match_until-key c [] rest h e = rw e refl
match_until-key c (d ∷ key) rest (p, h) e = rw (p, match_until-key c key rest h e) refl

Lacks-key : (key : List ℕ) → IsKey key → Lacks b'=' key
Lacks-key [] h = tt
Lacks-key (c ∷ key) (p, b, l) = l

-- Whether an entry comes first, as `MultiFlagFormatter::add` asks it.
abbrev pub is_first : LogFmtFlags → Bool
is_first no_flags = true
is_first (then_flag f fs) = false

pub is_first-push_back : (fs : LogFmtFlags) (f : LogFmtFlag) → is_first (push_back fs f) ≡ false
unfolding push_back
is_first-push_back no_flags f = refl
is_first-push_back (then_flag g fs) f = refl

add_flag-separator :
    (fs : LogFmtFlags) (f : LogFmtFlag)
    → add_flag (codes " ") fs f ≡ push_back fs (flag_formatter_proxy (separator (is_first fs)) f)
unfolding add_flag
add_flag-separator no_flags f = refl
add_flag-separator (then_flag g fs) f = refl

pub match_string-key :
    (flag key rest : List ℕ) → IsKey key → match_string (b'%' ∷ flag) (key ++ (b'=' ∷ rest)) ≡ none
unfolding match_string
match_string-key flag [] rest h = refl
match_string-key flag (c ∷ key) rest (p, b, l) = rw p refl

module _ (size : ℕ) where
  Stops-blank : (s : List ℕ) → Stops size (b' ' ∷ s)
  unfolding match_flag
  Stops-blank [] zone fs capture = refl
  Stops-blank (c ∷ s) zone fs capture = refl

  Stops-closed :
      (ps : List Piece) (n : ℕ) (es : Layout) → IsClosed ps n es → Stops size (blanks n (render es))
  unfolding match_flag blanks render render_entry
  Stops-closed ps (suc n) es h zone fs capture = Stops-blank (blanks n (render es)) zone fs capture
  Stops-closed ps zero [] h zone fs capture = refl
  Stops-closed ps zero ((all_fields, n) ∷ es) h zone fs capture = refl
  Stops-closed ps zero ((pair key qs, n) ∷ es) h zone fs capture = absurd h

  match_pair-key :
      (zone : Zone) (fs : LogFmtFlags) (key value : List ℕ)
      → IsKey key
      → IsNonempty value
      → match_pair match_default size zone fs (key ++ (b'=' ∷ value))
        ≡ and_match
            (match_flag match_default size zone no_flags [] value)
            (λ r. matched (add_flag (codes " ") fs (key_value_formatter key r.0), r.1, r.2))
  unfolding match_pair
  match_pair-key zone fs key [] h n = absurd n
  match_pair-key zone fs key (c ∷ value) h n =
      rw (match_pair, match_until-key b'=' key (c ∷ value) (Lacks-key key h) refl)
        (simp (match_until-key b'=' key (c ∷ value) (Lacks-key key h) refl))

IsNonempty-append : (a b : List ℕ) → IsNonempty b → IsNonempty (a ++ b)
IsNonempty-append [] b h = h
IsNonempty-append (c ∷ a) b h = tt

IsNonempty-value :
    (ps : List Piece) (rest : List ℕ) → IsNonempty rest → IsNonempty (render_value ps rest)
unfolding render_value
IsNonempty-value [] rest h = h
IsNonempty-value (p ∷ ps) rest h = IsNonempty-append _ _ (IsNonempty-value ps rest h)

IsNonempty-closed :
    (ps : List Piece) (n : ℕ) (es : Layout)
    → IsClosed ps n es
    → IsNonempty (render_value ps (blanks n (render es)))
unfolding blanks render render_entry
IsNonempty-closed ps (suc n) es h = IsNonempty-value ps _ tt
IsNonempty-closed ps zero [] h = h
IsNonempty-closed ps zero ((all_fields, n) ∷ es) h = IsNonempty-value ps _ tt
IsNonempty-closed ps zero ((pair key qs, n) ∷ es) h = absurd h

pub IsNonempty-entry : (e : Entry) (rest : List ℕ) → IsNonempty (render_entry e rest)
unfolding render_entry
IsNonempty-entry all_fields rest = tt
IsNonempty-entry (pair key ps) rest = IsNonempty-append key _ tt

module _ (size : ℕ) where
  pub match_entry-entry :
      (zone : Zone) (fs : LogFmtFlags) (e : Entry) (n : ℕ) (es : Layout)
      → IsLayout ((e, n) ∷ es)
      → match_entry match_default size zone fs (render_entry e (blanks n (render es)))
        ≡ matched (
          push_back fs (entry_meaning (is_first fs) zone e).0,
          (entry_meaning (is_first fs) zone e).1,
          render es,
        )
  unfolding match_entry render_entry entry_meaning match_string add_fields
  match_entry-entry zone fs all_fields n es h = rw (skip_blanks-blanks n es h) refl
  match_entry-entry zone fs (pair key ps) n es (k, v, c, h) =
      rw
        (
          match_entry,
          render_entry,
          entry_meaning,
          match_string-key (b'f' ∷ []) key (render_value ps (blanks n (render es))) k,
          match_pair-key size zone fs key (render_value ps (blanks n (render es))) k
              (IsNonempty-closed ps n es c),
          match_flag-value size (blanks n (render es)) false zone no_flags [] ps
              (Stops-closed size ps n es c) v (λ g. refl),
          skip_blanks-blanks n es h,
          add_flag-separator fs,
        )
        refl
