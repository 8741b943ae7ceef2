-- ===== src/Event/Text.antt =====
-- The text of an event: `writeText`, then `formatText`.
use native.Mathlib.Nat.{mod-eq_of_lt}
use logpp.Common.{
  ℕ, suc, ◌+◌, ◌*◌, ◌%◌, ◌^◌, ◌≤◌, ◌<◌, ◌≡◌, refl, ◌∙◌, ap, sym, subst, Option, some, List, [], ◌∷◌,
  ◌++◌, map, length, ◌>>=◌, length-append, arith,
}
use logpp.Buffer.{offset_mod}
use logpp.Buffer.Wellformed.{IsValid}
use logpp.Event.{
  EventLogBuffer, Value, text, kind_of, block_bytes, write_text, format_text, args_padding,
  apply_format,
}
use logpp.Event.Values.{Extends, Extends-trans, At, At-Extends, encode-At, write_string-Stands}
use logpp.Event.Blocks.{
  AllBelow, AllWritable, length-block_bytes, overlay_block-At, StandAll, StandAll-get_all,
  StandAll-Extends, values_size, WroteAll, WroteAll-cons, write_format_args-WroteAll,
}

-- The event holds a text and its format arguments.
pub record HasText (e : EventLogBuffer) (s : List ℕ) (args : List Value) (os : List ℕ)
    : Type 0 where
  pub func : e.header.format_func ≡ some (map kind_of args)
  pub block : At e.buffer e.header.text_block_index (block_bytes os ++ args_padding args)
  pub below : AllBelow os
  pub count : length os ≡ suc (length args)
  pub stand : StandAll e.buffer os (text s ∷ args)

-- What a reader of the event gets: the text itself, or what fmt makes of it and the arguments.
abbrev pub message : (List ℕ → List Value → List ℕ) → List ℕ → List Value → List ℕ
message format_to s [] = s
message format_to s (v ∷ vs) = format_to s (v ∷ vs)

apply_format-message :
    (f : List ℕ → List Value → List ℕ) (s : List ℕ) (args : List Value)
    → apply_format f (text s ∷ args) ≡ some (message f s args)
apply_format-message f s [] = refl
apply_format-message f s (v ∷ vs) = refl

length-map : (vs : List Value) → length (map kind_of vs) ≡ length vs
length-map [] = refl
length-map (v ∷ vs) = ap suc (length-map vs)

pub HasText-format_text :
    (f : List ℕ → List Value → List ℕ) {e : EventLogBuffer} {s : List ℕ} {args : List Value}
    {os : List ℕ}
    → HasText e s args os
    → format_text f e ≡ some (message f s args)
unfolding format_text
HasText-format_text f {e} {s} {args} {os} h =
    rw
      (
        h.func,
        ◌>>=◌,
        overlay_block-At e.buffer e.header.text_block_index (suc (length (map kind_of args))) os
            (args_padding args) h.below (omega (arith, h.count, length-map args)) h.block,
        StandAll-get_all e.buffer os (text s ∷ args) h.stand,
      )
      (apply_format-message f s args)

pub HasText-Extends :
    {e e' : EventLogBuffer} {s : List ℕ} {args : List Value} {os : List ℕ}
    → Extends e.buffer e'.buffer
    → e'.header.format_func ≡ e.header.format_func
    → e'.header.text_block_index ≡ e.header.text_block_index
    → HasText e s args os
    → HasText e' s args os
HasText-Extends {e} {e'} {s} {args} {os} x p q h = record {
  func = p ∙ h.func;
  block =
      subst (λ i. At e'.buffer i (block_bytes os ++ args_padding args)) (sym q)
        (At-Extends x h.block);
  below = h.below;
  count = h.count;
  stand = StandAll-Extends os (text s ∷ args) x h.stand;
}

abbrev pub text_size : List ℕ → List Value → ℕ
text_size s args = 12 + length s + values_size args + length args * 4

length-args_padding : (args : List Value) → length (args_padding args) ≤ 4
length-args_padding [] = omega arith
length-args_padding (v ∷ vs) = omega arith

module _ (malloc : ℕ → Option (List ℕ))
    (total : (n : ℕ) → (d : List ℕ) × (malloc n ≡ some d) × (length d ≡ n)) where
  -- What `writeText` leaves; the rest of the header is as before.
  pub write_text-HasText :
      (e : EventLogBuffer) (s : List ℕ) (args : List Value)
      → IsValid e.buffer
      → length s < 2 ^ 32
      → AllWritable args
      → e.buffer.cursor + text_size s args < 2 ^ 32
      → (os : List ℕ) × (e' : EventLogBuffer) × (write_text malloc e s args ≡ some e')
        × HasText e' s args os
        × Extends e.buffer e'.buffer
        × (e'.buffer.cursor ≤ e.buffer.cursor + text_size s args)
        × (e'.header ≡ record e.header {
          text_block_index = e'.header.text_block_index;
          format_func = e'.header.format_func;
        })
  unfolding write_text
  write_text-HasText e s args v short w small =
      let (b, eb, xb, sb, mb) = write_string-Stands malloc total e.buffer s v short (omega arith) in
      let (os, c, ec, wrote) =
        write_format_args-WroteAll malloc total b args xb.valid w (omega arith) in
      let all : WroteAll e.buffer c (e.buffer.cursor ∷ os) (text s ∷ args) =
        WroteAll-cons (text s) xb sb mb (omega arith) wrote in
      let size : length (block_bytes (e.buffer.cursor ∷ os) ++ args_padding args)
          ≤ 8 + length args * 4 =
        omega (
          arith,
          length-append (block_bytes (e.buffer.cursor ∷ os)) (args_padding args),
          length-block_bytes (e.buffer.cursor ∷ os),
          wrote.count,
          length-args_padding args,
        ) in
      let (d, ed, xd, ad, md) =
        encode-At malloc total c (block_bytes (e.buffer.cursor ∷ os) ++ args_padding args)
          wrote.extends.valid (omega (arith, wrote.moved)) in
      (
        e.buffer.cursor ∷ os,
        record {
          header = record e.header {
            text_block_index = c.cursor % offset_mod;
            format_func = some (map kind_of args);
          };
          buffer = d;
        },
        rw (eb, ◌>>=◌, ec, ed),
        record {
          func = refl;
          block =
              subst (λ i. At d i (block_bytes (e.buffer.cursor ∷ os) ++ args_padding args))
                (sym (mod-eq_of_lt (omega (arith, wrote.moved)))) ad;
          below = all.below;
          count = omega (arith, wrote.count);
          stand = StandAll-Extends (e.buffer.cursor ∷ os) (text s ∷ args) xd all.stand;
        },
        Extends-trans all.extends xd,
        omega (arith, wrote.moved),
        refl,
      )
