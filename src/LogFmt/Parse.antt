-- ===== src/LogFmt/Parse.antt =====
-- `matchPattern` on what `render` writes.
use logpp.Common.{
  ℕ, zero, suc, ◌<◌, ◌≤◌, ◌≡◌, refl, true, false, none, List, [], ◌∷◌, codes, length, length-append,
  arith,
}
use logpp.Pattern.{Zone, utc}
use logpp.LogFmt.{
  LogFmtFlag, multi_flag_formatter, LogFmtFlags, no_flags, push_back, matched, and_match,
  match_string, match_entry, match_loop, match_default, match_pattern,
}
use logpp.LogFmt.Grammar.{
  Piece, Entry, all_fields, pair, Layout, render_piece, render_value, blanks, render_entry, render,
  entry_meaning, meaning, IsNonempty, IsLayout,
}
use logpp.LogFmt.Values.{join, join-push_back, join-no_flags}
use logpp.LogFmt.Entries.{
  is_first, is_first-push_back, match_string-key, IsNonempty-entry, match_entry-entry,
}

IsLayout-rest : (e : Entry) (n : ℕ) (es : Layout) → IsLayout ((e, n) ∷ es) → IsLayout es
IsLayout-rest all_fields n es h = h
IsLayout-rest (pair key ps) n es (k, v, c, h) = h

length-blanks : (n : ℕ) (rest : List ℕ) → length rest ≤ length (blanks n rest)
unfolding blanks
length-blanks zero rest = omega arith
length-blanks (suc n) rest = omega (arith, length-blanks n rest)

length-render_value :
    (ps : List Piece) (rest : List ℕ) → length rest ≤ length (render_value ps rest)
unfolding render_value
length-render_value [] rest = omega arith
length-render_value (p ∷ ps) rest =
    omega
      (arith, length-append (render_piece p) (render_value ps rest), length-render_value ps rest)

length-render_entry : (e : Entry) (rest : List ℕ) → length rest < length (render_entry e rest)
unfolding render_entry
length-render_entry all_fields rest = omega arith
length-render_entry (pair key ps) rest =
    omega (arith, length-append key (b'=' ∷ render_value ps rest), length-render_value ps rest)

module _ (size : ℕ) where
  match_loop-step :
      (fuel : ℕ) (zone : Zone) (fs : LogFmtFlags) (s : List ℕ)
      → IsNonempty s
      → match_loop match_default size (suc fuel) zone fs s
        ≡ and_match
            (match_entry match_default size zone fs s)
            (λ r. match_loop match_default size fuel r.1 r.0 r.2)
  unfolding match_loop
  match_loop-step fuel zone fs [] h = absurd h
  match_loop-step fuel zone fs (c ∷ s) h = refl

  match_loop-nil :
      (fuel : ℕ) (zone : Zone) (fs : LogFmtFlags)
      → match_loop match_default size (suc fuel) zone fs [] ≡ matched (multi_flag_formatter fs)
  unfolding match_loop
  match_loop-nil fuel zone fs = refl

  match_loop-render :
      (fuel : ℕ) (zone : Zone) (fs : LogFmtFlags) (es : Layout)
      → IsLayout es
      → length (render es) < fuel
      → match_loop match_default size fuel zone fs (render es)
        ≡ matched (multi_flag_formatter (join fs (meaning (is_first fs) zone es)))
  unfolding render meaning
  match_loop-render zero zone fs es h more = absurd (omega arith)
  match_loop-render (suc fuel) zone fs [] h more =
      rw (join-no_flags fs) (match_loop-nil fuel zone fs)
  match_loop-render (suc fuel) zone fs ((e, n) ∷ es) h more =
      rw
        (
          match_loop-step fuel zone fs (render_entry e (blanks n (render es)))
              (IsNonempty-entry e (blanks n (render es))),
          match_entry-entry size zone fs e n es h,
          match_loop-render fuel m.1 (push_back fs m.0) es (IsLayout-rest e n es h) enough,
          is_first-push_back fs m.0,
          join-push_back fs (meaning false m.1 es) m.0,
        )
        refl
    where
      m : LogFmtFlag × Zone
      m = entry_meaning (is_first fs) zone e

      enough : length (render es) < fuel
      enough =
          omega
            (arith, more, length-blanks n (render es), length-render_entry e (blanks n (render es)))

match_string-full : (es : Layout) → IsLayout es → match_string (codes "%+") (render es) ≡ none
unfolding match_string render render_entry
match_string-full [] h = refl
match_string-full ((all_fields, n) ∷ es) h = refl
match_string-full ((pair key ps, n) ∷ es) (k, v, c, h) = match_string-key (b'+' ∷ []) key _ k

-- Entries written as a pattern, with any number of blanks behind each, are parsed to the formatters that
-- they mean: for the fields their formatter, for a key with its value a formatter that prints a blank
-- unless it comes first, and then the key with what the value prints; in a value, texts as they are, dates
-- and times in UTC up to the first `%L` of the pattern and in local time behind it, and `%+` as the
-- default pattern. The conditions: a key begins with no blank and no `%` and has no `=`, a text in a
-- value has no blank and no `%` and does not follow another text, and behind a pair stands a blank, the
-- fields or the end, where at the end the value is not empty.
pub match_pattern-render :
    (es : Layout)
    → IsLayout es
    → match_pattern (render es) ≡ matched (multi_flag_formatter (meaning true utc es))
unfolding match_pattern
match_pattern-render es h =
    rw (match_pattern, match_string-full es h)
      (match_loop-render (length (render es)) (suc (length (render es))) utc no_flags es h
        (omega arith))
