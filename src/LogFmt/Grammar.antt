-- ===== src/LogFmt/Grammar.antt =====
-- The logfmt patterns as sequences of entries, and what each stands for.
use logpp.Common.{ℕ, zero, suc, ◌≡◌, Bool, true, false, List, [], ◌∷◌, ◌++◌, codes, ◌==◌}
use logpp.Pattern.{Zone, local, Part, Plain, literal, zoned, plain, fields}
use logpp.Pattern.Grammar.{char_of, plain_char, Lacks}
use logpp.LogFmt.{
  LogFmtFlag, flag_formatter, key_value_formatter, flag_formatter_proxy, multi_flag_formatter,
  LogFmtFlags, no_flags, then_flag,
}
use logpp.LogFmt.Default.{sequence_of, default_formatter}

pub data Piece : Type 0 where
  text : List ℕ → Piece
  part : Part → Piece
  go_local : Piece
  flag : Plain → Piece
  full : Piece

-- An entry: the fields of the event, or a key with its value.
pub data Entry : Type 0 where
  all_fields : Entry
  pair : List ℕ → List Piece → Entry

-- Entries, each with the number of blanks behind it.
abbrev pub Layout : Type 0
Layout = List (Entry × ℕ)

unfoldable pub render_piece : Piece → List ℕ
unfolding char_of plain_char
render_piece (text s) = s
render_piece (part p) = b'%' ∷ char_of p ∷ []
render_piece go_local = b'%' ∷ b'L' ∷ []
render_piece (flag p) = b'%' ∷ plain_char p ∷ []
render_piece full = b'%' ∷ b'+' ∷ []

-- What a sequence of pieces is written as, with `rest` behind it.
unfoldable pub render_value : List Piece → List ℕ → List ℕ
unfolding render_piece
render_value [] rest = rest
render_value (p ∷ ps) rest = render_piece p ++ render_value ps rest

unfoldable pub blanks : ℕ → List ℕ → List ℕ
blanks zero rest = rest
blanks (suc n) rest = b' ' ∷ blanks n rest

unfoldable pub render_entry : Entry → List ℕ → List ℕ
unfolding render_value
render_entry all_fields rest = b'%' ∷ b'f' ∷ rest
render_entry (pair key ps) rest = key ++ (b'=' ∷ render_value ps rest)

-- The pattern that a sequence of entries is written as.
unfoldable pub render : Layout → List ℕ
unfolding render_entry blanks
render [] = []
render ((e, n) ∷ es) = render_entry e (blanks n (render es))

-- The text of a piece, if it is not empty.
abbrev pub literals : List ℕ → List LogFmtFlag
literals [] = []
literals (c ∷ s) = flag_formatter (literal (c ∷ s)) ∷ []

-- The formatters of a value, and the zone behind it.
unfoldable pub piece_meaning : Zone → Piece → List LogFmtFlag × Zone
piece_meaning zone (text s) = (literals s, zone)
piece_meaning zone (part p) = (flag_formatter (zoned p zone) ∷ [], zone)
piece_meaning zone go_local = ([], local)
piece_meaning zone (flag p) = (flag_formatter (plain p) ∷ [], zone)
piece_meaning zone full = (default_formatter ∷ [], zone)

unfoldable pub value_meaning : Zone → List Piece → List LogFmtFlag × Zone
unfolding piece_meaning
value_meaning zone [] = ([], zone)
value_meaning zone (p ∷ ps) =
    let m = piece_meaning zone p in let rest = value_meaning m.1 ps in (m.0 ++ rest.0, rest.1)

abbrev pub separator : Bool → List ℕ
separator true = []
separator false = codes " "

-- A pair prints a blank before it, unless it stands first; the fields print none of their own.
unfoldable pub entry_meaning : Bool → Zone → Entry → LogFmtFlag × Zone
unfolding value_meaning
entry_meaning first zone all_fields = (flag_formatter (fields (codes " ")), zone)
entry_meaning first zone (pair key ps) =
    let m = value_meaning zone ps in
    (
      flag_formatter_proxy (separator first)
          (key_value_formatter key (multi_flag_formatter (sequence_of m.0))),
      m.1,
    )

unfoldable pub meaning : Bool → Zone → Layout → LogFmtFlags
unfolding entry_meaning
meaning first zone [] = no_flags
meaning first zone ((e, n) ∷ es) =
    let m = entry_meaning first zone e in then_flag m.0 (meaning false m.1 es)

-- No blank and no `%` in a text, and no text directly behind a text.
abbrev pub IsValue : Bool → List Piece → Type 0
IsValue after_text [] = Unit
IsValue after_text (text s ∷ ps) =
    (after_text ≡ false) × Lacks b'%' s × Lacks b' ' s × IsValue true ps
IsValue after_text (part p ∷ ps) = IsValue false ps
IsValue after_text (go_local ∷ ps) = IsValue false ps
IsValue after_text (flag p ∷ ps) = IsValue false ps
IsValue after_text (full ∷ ps) = IsValue false ps

abbrev pub IsNonempty : List ℕ → Type 0
IsNonempty [] = ⊥
IsNonempty (c ∷ s) = Unit

-- Behind a pair stands a blank, the end, or the fields; at the end the value is not empty.
abbrev pub IsClosed : List Piece → ℕ → Layout → Type 0
IsClosed ps (suc n) es = Unit
IsClosed ps zero [] = IsNonempty (render_value ps [])
IsClosed ps zero ((all_fields, n) ∷ es) = Unit
IsClosed ps zero ((pair key qs, n) ∷ es) = ⊥

-- A key does not begin with a blank or a `%`, and has no `=`.
abbrev pub IsKey : List ℕ → Type 0
IsKey [] = Unit
IsKey (c ∷ key) = ((b'%' == c) ≡ false) × ((c == b' ') ≡ false) × Lacks b'=' (c ∷ key)

abbrev pub IsLayout : Layout → Type 0
IsLayout [] = Unit
IsLayout ((all_fields, n) ∷ es) = IsLayout es
IsLayout ((pair key ps, n) ∷ es) = IsKey key × IsValue false ps × IsClosed ps n es × IsLayout es
