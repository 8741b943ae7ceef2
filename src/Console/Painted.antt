-- ===== src/Console/Painted.antt =====
-- What a reader of the console sees: each byte, with the colour it is printed in.
use logpp.Common.{
  ℕ, ◌≡◌, refl, Option, none, some, List, [], ◌∷◌, ◌++◌, append-nil, append_assoc, map,
}
use logpp.Level.{LogLevel}
use logpp.Logger.{Entry}
use logpp.Format.{OnFormat}
use logpp.Options.{Text}
use logpp.Console.{
  Color, Chunk, bytes, fg, reset, Theme, get_fg_color, apply_to, colored_sink, console_sink,
  sink_each,
}

-- The bytes of a stream with their colours, from the colour `now`; and the colour behind them.
abbrev pub painted : Option Color → List Chunk → List (Option Color × ℕ)
painted now [] = []
painted now (bytes s ∷ os) = map (λ c. (now, c)) s ++ painted now os
painted now (fg color ∷ os) = painted (some color) os
painted now (reset ∷ os) = painted none os

abbrev pub color_behind : Option Color → List Chunk → Option Color
color_behind now [] = now
color_behind now (bytes s ∷ os) = color_behind now os
color_behind now (fg color ∷ os) = color_behind (some color) os
color_behind now (reset ∷ os) = color_behind none os

painted-append :
    (now : Option Color) (a b : List Chunk)
    → painted now (a ++ b) ≡ painted now a ++ painted (color_behind now a) b
painted-append now [] b = refl
painted-append now (bytes s ∷ a) b =
    rw
      (
        painted-append now a b,
        append_assoc (map (λ c. (now, c)) s) (painted now a) (painted (color_behind now a) b),
      )
      refl
painted-append now (fg color ∷ a) b = painted-append (some color) a b
painted-append now (reset ∷ a) b = painted-append none a b

color_behind-append :
    (now : Option Color) (a b : List Chunk)
    → color_behind now (a ++ b) ≡ color_behind (color_behind now a) b
color_behind-append now [] b = refl
color_behind-append now (bytes s ∷ a) b = color_behind-append now a b
color_behind-append now (fg color ∷ a) b = color_behind-append (some color) a b
color_behind-append now (reset ∷ a) b = color_behind-append none a b

abbrev line_feed : List Chunk
line_feed = bytes (10 ∷ []) ∷ []

-- What stands behind a stream that ends in no colour.
painted-tail :
    (os a : List Chunk) (seen : List (Option Color × ℕ))
    → color_behind none os ≡ none
    → color_behind none (a ++ line_feed) ≡ none
    → painted none (a ++ line_feed) ≡ seen
    → (color_behind none ((os ++ a) ++ line_feed) ≡ none)
      × (painted none ((os ++ a) ++ line_feed) ≡ painted none os ++ seen)
painted-tail os a seen h e p = (
  rw (append_assoc os a line_feed, color_behind-append none os (a ++ line_feed), h) e,
  rw (append_assoc os a line_feed, painted-append none os (a ++ line_feed), h, p) refl,
)

-- Each line in its colour, and the line feeds in none.
abbrev pub page : List (Option Color × Text) → List (Option Color × ℕ)
page [] = []
page ((color, s) ∷ lines) = (map (λ c. (color, c)) s ++ ((none, 10) ∷ [])) ++ page lines

module _ (formatter : OnFormat) where
  -- The entries are printed as these lines, in the colours that `color_of` gives their levels.
  abbrev pub PrintsAs :
      (LogLevel → Option (Option Color)) → List Entry → List (Option Color × Text) → Type 0
  PrintsAs color_of [] lines = lines ≡ []
  PrintsAs color_of (e ∷ es) lines =
      (color : Option Color) × (s : Text) × (rest : List (Option Color × Text)) × (lines
        ≡ (color, s) ∷ rest)
      × (formatter e.name e.level e.buffer [] ≡ some s)
      × (color_of e.level ≡ some color)
      × PrintsAs color_of es rest

  -- What one sink does to what is seen, where nothing is coloured behind the stream.
  module _ (one : List Chunk → Entry → Option (List Chunk))
      (color_of : LogLevel → Option (Option Color)) where
    abbrev Paints : Type 0
    Paints =
        (os : List Chunk) (e : Entry) (color : Option Color) (s : Text)
        → color_behind none os ≡ none
        → formatter e.name e.level e.buffer [] ≡ some s
        → color_of e.level ≡ some color
        → (os' : List Chunk) × (one os e ≡ some os')
          × (color_behind none os' ≡ none)
          × (painted none os' ≡ painted none os ++ (map (λ c. (color, c)) s ++ ((none, 10) ∷ [])))

    sink_each-painted :
        Paints
        → (os : List Chunk) (es : List Entry) (lines : List (Option Color × Text))
        → color_behind none os ≡ none
        → PrintsAs color_of es lines
        → (os' : List Chunk) × (sink_each one os es ≡ some os')
          × (color_behind none os' ≡ none)
          × (painted none os' ≡ painted none os ++ page lines)
    unfolding sink_each
    sink_each-painted paints os [] lines h p =
        (os, refl, h, rw (p, append-nil (painted none os)) refl)
    sink_each-painted paints os (e ∷ es) lines h (color, s, rest, q, f, c, p) =
        let (os1, e1, h1, p1) = paints os e color s h f c in
        let (os2, e2, h2, p2) = sink_each-painted paints os1 es rest h1 p in
        (
          os2,
          rw e1 e2,
          h2,
          rw (p2, p1, q)
              (append_assoc (painted none os) (map (λ c. (color, c)) s ++ ((none, 10) ∷ []))
                (page rest)),
        )

  colored_sink-paints : (theme : Theme) → Paints (colored_sink formatter theme) (get_fg_color theme)
  unfolding colored_sink
  colored_sink-paints theme os e (some color) s h f c =
      let a : List Chunk = fg color ∷ bytes s ∷ reset ∷ [] in
      let t = painted-tail os a (map (λ c. (some color, c)) s ++ ((none, 10) ∷ [])) h refl refl in
      ((os ++ a) ++ line_feed, rw (f, apply_to, c) refl, t.0, t.1)
  colored_sink-paints theme os e none s h f c =
      let a : List Chunk = bytes s ∷ [] in
      let t = painted-tail os a (map (λ c. (none, c)) s ++ ((none, 10) ∷ [])) h refl refl in
      ((os ++ a) ++ line_feed, rw (f, apply_to, c) refl, t.0, t.1)

  console_sink-paints : Paints (console_sink formatter) (λ level. some none)
  unfolding console_sink
  console_sink-paints os e none s h f c =
      let a : List Chunk = bytes s ∷ [] in
      let t = painted-tail os a (map (λ c. (none, c)) s ++ ((none, 10) ∷ [])) h refl refl in
      ((os ++ a) ++ line_feed, rw f refl, t.0, t.1)
  console_sink-paints os e (some color) s h f c = absurd (cc)

  -- On a stream behind which nothing is coloured, a coloured console prints the entries as lines, each in
  -- the colour that the theme has for its level, or in none, with a line feed in no colour behind it; and
  -- nothing is coloured behind them. The conditions: the formatter prints the entries, and the theme
  -- has a place for each of their levels.
  pub colored_sink-painted :
      (theme : Theme) (os : List Chunk) (es : List Entry) (lines : List (Option Color × Text))
      → color_behind none os ≡ none
      → PrintsAs (get_fg_color theme) es lines
      → (os' : List Chunk) × (sink_each (colored_sink formatter theme) os es ≡ some os')
        × (color_behind none os' ≡ none)
        × (painted none os' ≡ painted none os ++ page lines)
  colored_sink-painted theme os es lines h p =
      sink_each-painted (colored_sink formatter theme) (get_fg_color theme)
        (colored_sink-paints theme) os es lines h p

  -- A plain console prints the same lines in no colour, provided that the formatter prints the entries.
  pub console_sink-painted :
      (os : List Chunk) (es : List Entry) (lines : List (Option Color × Text))
      → color_behind none os ≡ none
      → PrintsAs (λ level. some none) es lines
      → (os' : List Chunk) × (sink_each (console_sink formatter) os es ≡ some os')
        × (color_behind none os' ≡ none)
        × (painted none os' ≡ painted none os ++ page lines)
  console_sink-painted os es lines h p =
      sink_each-painted (console_sink formatter) (λ level. some none) console_sink-paints os es
        lines h p
