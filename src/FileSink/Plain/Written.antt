-- ===== src/FileSink/Plain/Written.antt =====
-- What a FileSink writes to the files.
use logpp.Common.{
  ◌≡◌, refl, ap, ap₂, sym, ◌∙◌, Bool, true, false, ◌&&◌, Option, none, some, List, [], ◌∷◌, ◌++◌,
  append-nil, append_assoc, if◌then◌else◌, same, same_iff, Bool-cases, inl, inr,
}
use logpp.Logger.{Entry}
use logpp.Options.{Text}
use logpp.Rolling.{FileSystem, put}
use logpp.Rolling.Filebuf.{appending, content}
use logpp.FileSink.Plain.{
  PlainFile, PlainSink, unopened, open_plain, write_plain, close_plain, open_sink, close_file,
  close_sink, sink_file, plain_sink, PlainStep, open_step, close_step, sink_step, take_plain_step,
  run_plain,
}

-- What stands in a file; a file that is not there has nothing in it.
abbrev pub text_in : FileSystem → Text → Text
text_in files p = content appending (files p)

-- The path of the file that is open, if one is.
abbrev pub path_of : Option PlainFile → Option Text
path_of none = none
path_of (some f) = if f.has_ofs then some f.path else none

abbrev pub stands_at : Text → Option Text → Bool
stands_at p none = false
stands_at p (some q) = same q p

text_in-put :
    (p q : Text) (c : Text) (files : FileSystem)
    → text_in (put q (some c) files) p ≡ (if same q p then c else text_in files p)
unfolding put
text_in-put p q c files = elim (Bool-cases (same q p)) [ inl e ↦ rw e refl | inr e ↦ rw e refl ]

-- Opening changes no text, and writing appends.
text_in-opened :
    (p q : Text) (files : FileSystem)
    → text_in (put q (some (content appending (files q))) files) p ≡ text_in files p
text_in-opened p q files = elim (Bool-cases (same q p)) [
  | inl e ↦ text_in-put p q (text_in files q) files ∙ rw e (ap (text_in files) ((same_iff q p).0 e))
  | inr e ↦ text_in-put p q (text_in files q) files ∙ rw e refl
]

write_plain-at :
    (path : Text) (has_ofs : Bool) (p c : Text) (files : FileSystem)
    → text_in (write_plain c (record { has_ofs = has_ofs; path = path }) files).0 p
      ≡ text_in files p ++ (if stands_at p (if has_ofs then some path else none) then c else [])
unfolding write_plain
write_plain-at path false p c files = sym (append-nil (text_in files p))
write_plain-at path true p c files = elim (Bool-cases (same path p)) [
  | inl e ↦
      text_in-put p path (text_in files path ++ c) files
      ∙ rw e (ap (λ q. text_in files q ++ c) ((same_iff path p).0 e))
  | inr e ↦
      text_in-put p path (text_in files path ++ c) files ∙ rw e (sym (append-nil (text_in files p)))
]

if-append :
    (b : Bool) (t x y : Text)
    → (t ++ (if b then x else [])) ++ (if b then y else []) ≡ t ++ (if b then x ++ y else [])
if-append true t x y = append_assoc t x y
if-append false t x y = append-nil (t ++ [])

sink_file-text :
    (o : Option PlainFile) (p : Text) (e : Entry) (s : PlainSink) (line : Text)
    → s.formatter e.name e.level e.buffer [] ≡ some line
    → (files : FileSystem) × (sink_file e o s ≡ some (record s { files = files }))
      × (text_in files p
          ≡ text_in s.files p ++ (if stands_at p (path_of o) then line ++ (10 ∷ []) else []))
unfolding sink_file
sink_file-text none p e s line h = (s.files, refl, sym (append-nil (text_in s.files p)))
sink_file-text (some f) p e s line h =
    let first = (write_plain line f s.files).0 in
    (
      (write_plain (10 ∷ []) f first).0,
      rw h refl,
      write_plain-at f.path f.has_ofs p (10 ∷ []) first
          ∙ ap (λ t. t ++ (if stands_at p (path_of (some f)) then 10 ∷ [] else []))
              (write_plain-at f.path f.has_ofs p line s.files)
          ∙ if-append (stands_at p (path_of (some f))) (text_in s.files p) line (10 ∷ []),
    )

close_file-path : (o : Option PlainFile) → path_of (close_file o).0 ≡ none
unfolding close_file close_plain
close_file-path none = refl
close_file-path (some f) = elim (Bool-cases f.has_ofs) [ inl e ↦ rw e refl | inr e ↦ rw e refl ]

module _ (creates opens : Text → Bool) (prints : Entry → Text) where
  -- The lines that go to the file `p`, where the file of `current` is open at first.
  unfoldable pub written : Text → Option Text → List PlainStep → Text
  written p current [] = []
  written p current (open_step path ∷ xs) =
      written p (if creates path && opens path then some path else none) xs
  written p current (close_step ∷ xs) = written p none xs
  written p current (sink_step e ∷ xs) =
      (if stands_at p current then prints e ++ (10 ∷ []) else []) ++ written p current xs

  open_plain-text :
      (p path : Text) (files : FileSystem)
      → (text_in (open_plain creates opens path unopened files).1 p ≡ text_in files p)
        × (path_of (some (open_plain creates opens path unopened files).0)
            ≡ (if creates path && opens path then some path else none))
  unfolding open_plain
  open_plain-text p path files = elim (Bool-cases (creates path)) [
    | inr e ↦ rw e (refl, refl)
    | inl e ↦ elim (Bool-cases (opens path)) [
      | inr g ↦ rw (e, g) (refl, refl)
      | inl g ↦ rw (e, g) (text_in-opened p path files, refl)
    ]
  ]

  -- A FileSink whose formatter prints each event as a line, whatever it is, and whatever its opens, closes and
  -- events are: every step ends. The text of each file is what it was before, followed by
  -- the lines of the events that came while that file was the open one, in order, each ended by a line feed.
  -- An open that fails, at the directories or at the stream, leaves no file open.
  pub run_plain-written :
      (p : Text) (xs : List PlainStep) (s : PlainSink)
      → ((e : Entry) → s.formatter e.name e.level e.buffer [] ≡ some (prints e))
      → (s' : PlainSink) × (run_plain creates opens xs s ≡ some s')
        × (text_in s'.files p ≡ text_in s.files p ++ written p (path_of s.file) xs)
  unfolding run_plain take_plain_step open_sink close_sink plain_sink written
  run_plain-written p [] s h = (s, refl, sym (append-nil (text_in s.files p)))
  run_plain-written p (open_step path ∷ xs) s h =
      let (t, o) = open_plain-text p path s.files in
      let (s', r, w) = run_plain-written p xs (open_sink creates opens path s).0 h in
      (s', r, w ∙ ap₂ (λ l c. l ++ written p c xs) t o)
  run_plain-written p (close_step ∷ xs) s h =
      let (s', r, w) = run_plain-written p xs (close_sink s).0 h in
      (s', r, w ∙ ap (λ c. text_in s.files p ++ written p c xs) (close_file-path s.file))
  run_plain-written p (sink_step e ∷ xs) s h =
      let (files, r, t) = sink_file-text s.file p e s (prints e) (h e) in
      let (s', r', w) = run_plain-written p xs (record s { files = files }) h in
      (
        s',
        rw r r',
        w
            ∙ ap (λ l. l ++ written p (path_of s.file) xs) t
            ∙ append_assoc (text_in s.files p) _ (written p (path_of s.file) xs),
      )
