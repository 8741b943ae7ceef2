-- ===== src/Pattern/Parse.antt =====
-- `parsePattern` on what `render` writes.
use logpp.Common.{
  ℕ, zero, suc, ◌+◌, ◌-◌, ◌<◌, ◌≡◌, refl, ap, Bool, true, false, List, [], ◌∷◌, ◌++◌, append-nil,
  append_assoc, length, length-append, ◌==◌, arith,
}
use logpp.Pattern.{
  Zone, utc, local, Part, year, month, day, hours, minutes, seconds, milliseconds, microseconds,
  Plain, thread_id, event_text, level_name, logger_name, source_file, source_line, zoned, plain,
  fields, custom, default_label, label_of, ok, parse_flag_parameter, flush, parse_label, parse_flag,
  parse_percent, parse_loop, parse_full, parse_pattern,
}
use logpp.Pattern.Grammar.{
  Token, text, part, go_local, flag, fields_with, custom_with, full, render, render_token, char_of,
  plain_char, token_meaning, meaning, full_formatters, Lacks, IsProper, parse_full-formatters,
  until_bracket-param,
}

bracket-rest : (s rest : List ℕ) → (s ++ (b']' ∷ [])) ++ rest ≡ s ++ (b']' ∷ rest)
bracket-rest s rest = append_assoc s (b']' ∷ []) rest

module _ (registered : ℕ → Bool) where
  parse_percent-part :
      (zone : Zone) (p : Part) (rest : List ℕ)
      → parse_percent registered (parse_full registered) zone (char_of p ∷ rest)
        ≡ ok (zoned p zone ∷ [], zone, rest)
  unfolding parse_percent parse_flag parse_label label_of char_of
  parse_percent-part zone year rest = refl
  parse_percent-part zone month rest = refl
  parse_percent-part zone day rest = refl
  parse_percent-part zone hours rest = refl
  parse_percent-part zone minutes rest = refl
  parse_percent-part zone seconds rest = refl
  parse_percent-part zone milliseconds rest = refl
  parse_percent-part zone microseconds rest = refl

  parse_percent-plain :
      (zone : Zone) (p : Plain) (rest : List ℕ)
      → parse_percent registered (parse_full registered) zone (plain_char p ∷ rest)
        ≡ ok (plain p ∷ [], zone, rest)
  unfolding parse_percent parse_flag parse_label label_of plain_char
  parse_percent-plain zone thread_id rest = refl
  parse_percent-plain zone event_text rest = refl
  parse_percent-plain zone level_name rest = refl
  parse_percent-plain zone logger_name rest = refl
  parse_percent-plain zone source_file rest = refl
  parse_percent-plain zone source_line rest = refl

  parse_percent-fields :
      (zone : Zone) (s rest : List ℕ)
      → Lacks b']' s
      → parse_percent registered
          (parse_full registered)
          zone
          (b'f' ∷ b'[' ∷ ((s ++ (b']' ∷ [])) ++ rest))
        ≡ ok (fields s ∷ [], zone, rest)
  unfolding parse_percent parse_flag parse_label label_of parse_flag_parameter
  parse_percent-fields zone s rest h =
      rw (bracket-rest s rest, until_bracket-param [] s rest h) refl

  parse_percent-custom :
      (zone : Zone) (c : ℕ) (s rest : List ℕ)
      → label_of c ≡ default_label
      → (c == b'+') ≡ false
      → registered c ≡ true
      → Lacks b']' s
      → parse_percent registered
          (parse_full registered)
          zone
          (c ∷ b'[' ∷ ((s ++ (b']' ∷ [])) ++ rest))
        ≡ ok (custom c s ∷ [], zone, rest)
  unfolding parse_percent parse_flag parse_label parse_flag_parameter
  parse_percent-custom zone c s rest l p r h =
      rw (p, l, r, bracket-rest s rest, until_bracket-param [] s rest h) refl

  parse_percent-local :
      (zone : Zone) (rest : List ℕ)
      → parse_percent registered (parse_full registered) zone (b'L' ∷ rest) ≡ ok ([], local, rest)
  unfolding parse_percent parse_flag parse_label label_of
  parse_percent-local zone rest = refl

  parse_percent-full :
      (zone : Zone) (rest : List ℕ)
      → parse_percent registered (parse_full registered) zone (b'+' ∷ rest)
        ≡ ok (full_formatters, utc, rest)
  unfolding parse_percent
  parse_percent-full zone rest = rw (parse_full-formatters registered) refl

  parse_loop-text :
      (s : List ℕ) (n fuel : ℕ) (zone : Zone) (lit rest : List ℕ)
      → Lacks b'%' s
      → n ≡ length s + fuel
      → parse_loop registered (parse_full registered) n zone lit (s ++ rest)
        ≡ parse_loop registered (parse_full registered) fuel zone (lit ++ s) rest
  unfolding parse_loop
  parse_loop-text [] n fuel zone lit rest h e =
      let same_n : n ≡ fuel = omega (arith, e) in rw (same_n, append-nil lit) refl
  parse_loop-text (c ∷ s) zero fuel zone lit rest (d, h) e = absurd (omega (arith, e))
  parse_loop-text (c ∷ s) (suc n) fuel zone lit rest (d, h) e =
      rw
        (
          d,
          parse_loop-text s n fuel zone (lit ++ (c ∷ [])) rest h (omega (arith, e)),
          append_assoc lit (c ∷ []) s,
        )
        refl

  -- What a token does that begins with `%`, where the rest of the tokens does what it means.
  parse_loop-token :
      (t : Token) (body : List ℕ) (fuel : ℕ) (zone : Zone) (lit : List ℕ) (ts : List Token)
      → render_token t ≡ b'%' ∷ body
      → ((rest : List ℕ)
          → parse_percent registered (parse_full registered) zone (body ++ rest)
            ≡ ok ((token_meaning zone t).0, (token_meaning zone t).1, rest))
      → ((f : ℕ) (z : Zone)
          → length (render ts) < f
          → parse_loop registered (parse_full registered) f z [] (render ts) ≡ ok (meaning z ts))
      → length (render (t ∷ ts)) < fuel
      → parse_loop registered (parse_full registered) fuel zone lit (render (t ∷ ts))
        ≡ ok (flush lit ++ (meaning zone (t ∷ ts)).0, (meaning zone (t ∷ ts)).1)
  unfolding parse_loop render meaning
  parse_loop-token t body zero zone lit ts e h ih more = absurd (omega arith)
  parse_loop-token t body (suc fuel) zone lit ts e h ih more =
      rw (e, h (render ts), ih fuel (token_meaning zone t).1 enough) refl
    where
      enough : length (render ts) < fuel
      enough = omega (arith, length-append (render_token t) (render ts), ap length e, more)

  parse_loop-render :
      (b : Bool) (fuel : ℕ) (zone : Zone) (lit : List ℕ) (ts : List Token)
      → IsProper registered b ts
      → (b ≡ false → lit ≡ [])
      → length (render ts) < fuel
      → parse_loop registered (parse_full registered) fuel zone lit (render ts)
        ≡ ok (flush lit ++ (meaning zone ts).0, (meaning zone ts).1)
  unfolding parse_loop render meaning render_token
  parse_loop-render b zero zone lit [] p e more = absurd (omega arith)
  parse_loop-render b (suc fuel) zone lit [] p e more = rw (append-nil (flush lit)) refl
  parse_loop-render b fuel zone lit (text s ∷ ts) (h, l, p) e more =
      rw (parse_loop-text s fuel (fuel - length s) zone lit (render ts) l split, e h)
        (parse_loop-render true (fuel - length s) zone s ts p (λ g. cc) enough)
    where
      split : fuel ≡ length s + (fuel - length s)
      split = omega (arith, more, length-append s (render ts))

      enough : length (render ts) < fuel - length s
      enough = omega (arith, more, length-append s (render ts))
  parse_loop-render b fuel zone lit (part x ∷ ts) p e more =
      parse_loop-token (part x) (char_of x ∷ []) fuel zone lit ts refl
        (λ rest. parse_percent-part zone x rest)
        (λ f z h. parse_loop-render false f z [] ts p (λ g. refl) h) more
  parse_loop-render b fuel zone lit (go_local ∷ ts) p e more =
      parse_loop-token go_local (b'L' ∷ []) fuel zone lit ts refl
        (λ rest. parse_percent-local zone rest)
        (λ f z h. parse_loop-render false f z [] ts p (λ g. refl) h) more
  parse_loop-render b fuel zone lit (flag x ∷ ts) p e more =
      parse_loop-token (flag x) (plain_char x ∷ []) fuel zone lit ts refl
        (λ rest. parse_percent-plain zone x rest)
        (λ f z h. parse_loop-render false f z [] ts p (λ g. refl) h) more
  parse_loop-render b fuel zone lit (fields_with s ∷ ts) (l, p) e more =
      parse_loop-token (fields_with s) (b'f' ∷ b'[' ∷ (s ++ (b']' ∷ []))) fuel zone lit ts refl
        (λ rest. parse_percent-fields zone s rest l)
        (λ f z h. parse_loop-render false f z [] ts p (λ g. refl) h) more
  parse_loop-render b fuel zone lit (custom_with c s ∷ ts) (d, q, r, l, p) e more =
      parse_loop-token (custom_with c s) (c ∷ b'[' ∷ (s ++ (b']' ∷ []))) fuel zone lit ts refl
        (λ rest. parse_percent-custom zone c s rest d q r l)
        (λ f z h. parse_loop-render false f z [] ts p (λ g. refl) h) more
  parse_loop-render b fuel zone lit (full ∷ ts) p e more =
      parse_loop-token full (b'+' ∷ []) fuel zone lit ts refl (λ rest. parse_percent-full zone rest)
        (λ f z h. parse_loop-render false f z [] ts p (λ g. refl) h) more

  -- A proper sequence of tokens, written as a pattern, is parsed to the formatters that the tokens
  -- mean: texts as they are, dates and times in UTC up to the first `%L` and in local time behind it,
  -- fields and custom flags with their parameters. But `%+` means the full format in UTC, and sets the
  -- zone of what follows back to UTC, a `%L` before it notwithstanding.
  pub parse_pattern-render :
      (ts : List Token)
      → IsProper registered false ts
      → parse_pattern registered (render ts) ≡ ok (meaning utc ts)
  unfolding parse_pattern
  parse_pattern-render ts p =
      parse_loop-render false (suc (length (render ts))) utc [] ts p (λ g. refl) (omega arith)
