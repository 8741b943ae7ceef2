-- ===== src/LogFmt/Values.antt =====
-- `matchFlag` on the values that `render_value` writes.
use logpp.Common.{
  ℕ, ◌≡◌, refl, ap, Bool, true, false, List, [], ◌∷◌, ◌++◌, append-nil, append_assoc, ◌==◌,
}
use logpp.Pattern.{
  Zone, local, Part, year, month, day, hours, minutes, seconds, milliseconds, microseconds, Plain,
  thread_id, event_text, level_name, logger_name, source_file, source_line, zoned, plain, label_of,
}
use logpp.Pattern.Grammar.{char_of, plain_char, Lacks}
use logpp.LogFmt.{
  LogFmtFlag, flag_formatter, flag_formatter_proxy, multi_flag_formatter, LogFmtFlags, no_flags,
  then_flag, push_back, add_flag, add_capture, Matched, matched, and_match, match_switch,
  match_label, match_flag, match_default,
}
use logpp.LogFmt.Default.{sequence_of, default_formatter, match_default-formatter}
use logpp.LogFmt.Grammar.{
  Piece, text, part, go_local, flag, full, render_piece, render_value, literals, piece_meaning,
  value_meaning, IsValue,
}

-- The flags of one sequence behind another.
abbrev pub join : LogFmtFlags → LogFmtFlags → LogFmtFlags
join no_flags gs = gs
join (then_flag f fs) gs = then_flag f (join fs gs)

pub join-push_back :
    (fs gs : LogFmtFlags) (f : LogFmtFlag) → join (push_back fs f) gs ≡ join fs (then_flag f gs)
unfolding push_back
join-push_back no_flags gs f = refl
join-push_back (then_flag g fs) gs f = rw (join-push_back fs gs f) refl

pub join-no_flags : (fs : LogFmtFlags) → join fs no_flags ≡ fs
join-no_flags no_flags = refl
join-no_flags (then_flag f fs) = rw (join-no_flags fs) refl

add_flag-push_back :
    (fs : LogFmtFlags) (f : LogFmtFlag)
    → add_flag [] fs f ≡ push_back fs (flag_formatter_proxy [] f)
unfolding add_flag
add_flag-push_back no_flags f = refl
add_flag-push_back (then_flag g fs) f = refl

join-add_flag :
    (fs : LogFmtFlags) (f : LogFmtFlag) (l : List LogFmtFlag)
    → join (add_flag [] fs f) (sequence_of l) ≡ join fs (sequence_of (f ∷ l))
join-add_flag fs f l =
    rw (add_flag-push_back fs f) (join-push_back fs (sequence_of l) (flag_formatter_proxy [] f))

join-add_capture :
    (fs : LogFmtFlags) (s : List ℕ) (l : List LogFmtFlag)
    → join (add_capture fs s) (sequence_of l) ≡ join fs (sequence_of (literals s ++ l))
unfolding add_capture
join-add_capture fs [] l = refl
join-add_capture fs (c ∷ s) l = join-add_flag fs _ l

module _ (size : ℕ) where
  match_flag-char :
      (zone : Zone) (fs : LogFmtFlags) (capture : List ℕ) (c : ℕ) (rest : List ℕ)
      → (c == b'%') ≡ false
      → (c == b' ') ≡ false
      → match_flag match_default size zone fs capture (c ∷ rest)
        ≡ match_flag match_default size zone fs (capture ++ (c ∷ [])) rest
  unfolding match_flag
  match_flag-char zone fs capture c [] p b = rw (b, p) refl
  match_flag-char zone fs capture c (d ∷ rest) p b = rw (b, p) refl

  match_flag-text :
      (zone : Zone) (fs : LogFmtFlags) (capture s rest : List ℕ)
      → Lacks b'%' s
      → Lacks b' ' s
      → match_flag match_default size zone fs capture (s ++ rest)
        ≡ match_flag match_default size zone fs (capture ++ s) rest
  match_flag-text zone fs capture [] rest p b = rw (append-nil capture) refl
  match_flag-text zone fs capture (c ∷ s) rest (p, ps) (b, bs) =
      rw
        (
          match_flag-char zone fs capture c (s ++ rest) p b,
          match_flag-text zone fs (capture ++ (c ∷ [])) s rest ps bs,
          append_assoc capture (c ∷ []) s,
        )
        refl

  -- A flag adds its formatter behind the text that is captured.
  match_flag-part :
      (zone : Zone) (fs : LogFmtFlags) (capture : List ℕ) (p : Part) (rest : List ℕ)
      → match_flag match_default size zone fs capture (b'%' ∷ char_of p ∷ rest)
        ≡ match_flag match_default size zone
            (add_flag [] (add_capture fs capture) (flag_formatter (zoned p zone)))
            []
            rest
  unfolding match_flag match_label match_switch label_of char_of
  match_flag-part zone fs capture year rest = refl
  match_flag-part zone fs capture month rest = refl
  match_flag-part zone fs capture day rest = refl
  match_flag-part zone fs capture hours rest = refl
  match_flag-part zone fs capture minutes rest = refl
  match_flag-part zone fs capture seconds rest = refl
  match_flag-part zone fs capture milliseconds rest = refl
  match_flag-part zone fs capture microseconds rest = refl

  match_flag-plain :
      (zone : Zone) (fs : LogFmtFlags) (capture : List ℕ) (p : Plain) (rest : List ℕ)
      → match_flag match_default size zone fs capture (b'%' ∷ plain_char p ∷ rest)
        ≡ match_flag match_default size zone
            (add_flag [] (add_capture fs capture) (flag_formatter (plain p)))
            []
            rest
  unfolding match_flag match_label match_switch label_of plain_char
  match_flag-plain zone fs capture thread_id rest = refl
  match_flag-plain zone fs capture event_text rest = refl
  match_flag-plain zone fs capture level_name rest = refl
  match_flag-plain zone fs capture logger_name rest = refl
  match_flag-plain zone fs capture source_file rest = refl
  match_flag-plain zone fs capture source_line rest = refl

  match_flag-local :
      (zone : Zone) (fs : LogFmtFlags) (capture rest : List ℕ)
      → match_flag match_default size zone fs capture (b'%' ∷ b'L' ∷ rest)
        ≡ match_flag match_default size local (add_capture fs capture) [] rest
  unfolding match_flag match_label match_switch label_of
  match_flag-local zone fs capture rest = refl

  match_flag-full :
      (zone : Zone) (fs : LogFmtFlags) (capture rest : List ℕ)
      → match_flag match_default size zone fs capture (b'%' ∷ b'+' ∷ rest)
        ≡ match_flag match_default size zone
            (add_flag [] (add_capture fs capture) default_formatter)
            []
            rest
  unfolding match_flag match_label match_switch label_of
  match_flag-full zone fs capture rest =
      ap
        (λ (m : Matched LogFmtFlag).
          and_match {A = LogFmtFlags × Zone}
            (and_match m (λ f. matched (add_flag [] (add_capture fs capture) f, zone)))
            (λ r. match_flag match_default size r.1 r.0 [] rest))
        match_default-formatter

  -- The value ends before `tail`.
  abbrev pub Stops : List ℕ → Type 0
  Stops tail =
      (zone : Zone) (fs : LogFmtFlags) (capture : List ℕ)
      → match_flag match_default size zone fs capture tail
        ≡ matched (multi_flag_formatter (add_capture fs capture), zone, tail)

  pub match_flag-value :
      (tail : List ℕ) (b : Bool) (zone : Zone) (fs : LogFmtFlags) (capture : List ℕ)
      (ps : List Piece)
      → Stops tail
      → IsValue b ps
      → (b ≡ false → capture ≡ [])
      → match_flag match_default size zone fs capture (render_value ps tail)
        ≡ matched (
          multi_flag_formatter
              (join (add_capture fs capture) (sequence_of (value_meaning zone ps).0)),
          (value_meaning zone ps).1,
          tail,
        )
  unfolding render_value render_piece value_meaning piece_meaning add_capture
  match_flag-value tail b zone fs capture [] stops h e =
      rw (join-no_flags (add_capture fs capture)) (stops zone fs capture)
  match_flag-value tail b zone fs capture (text s ∷ ps) stops (f, p, bl, h) e =
      rw
        (
          match_flag-text zone fs capture s (render_value ps tail) p bl,
          e f,
          match_flag-value tail true zone fs s ps stops h (λ g. cc),
          join-add_capture fs s (value_meaning zone ps).0,
        )
        refl
  match_flag-value tail b zone fs capture (part x ∷ ps) stops h e =
      rw
        (
          match_flag-part zone fs capture x (render_value ps tail),
          match_flag-value tail false zone
              (add_flag [] (add_capture fs capture) (flag_formatter (zoned x zone))) [] ps stops h
              (λ g. refl),
          join-add_flag (add_capture fs capture) (flag_formatter (zoned x zone))
              (value_meaning zone ps).0,
        )
        refl
  match_flag-value tail b zone fs capture (go_local ∷ ps) stops h e =
      rw (match_flag-local zone fs capture (render_value ps tail))
        (match_flag-value tail false local (add_capture fs capture) [] ps stops h (λ g. refl))
  match_flag-value tail b zone fs capture (flag x ∷ ps) stops h e =
      rw
        (
          match_flag-plain zone fs capture x (render_value ps tail),
          match_flag-value tail false zone
              (add_flag [] (add_capture fs capture) (flag_formatter (plain x))) [] ps stops h
              (λ g. refl),
          join-add_flag (add_capture fs capture) (flag_formatter (plain x))
              (value_meaning zone ps).0,
        )
        refl
  match_flag-value tail b zone fs capture (full ∷ ps) stops h e =
      rw
        (
          match_flag-full zone fs capture (render_value ps tail),
          match_flag-value tail false zone (add_flag [] (add_capture fs capture) default_formatter)
              [] ps stops h (λ g. refl),
          join-add_flag (add_capture fs capture) default_formatter (value_meaning zone ps).0,
        )
        refl
