-- ===== src/Event/Blocks.antt =====
-- Blocks of offsets, and lists of values behind them.
use logpp.Common.{
  ℕ, suc, ◌+◌, ◌*◌, ◌^◌, ◌≤◌, ◌<◌, ◌≡◌, refl, ◌∙◌, ap, ap₂, sym, Option, some, List, [], ◌∷◌, ◌++◌,
  map, length, take, drop, ◌>>=◌, length-append, arith, take-take, take-append_len, drop-append_len,
}
use logpp.Buffer.Bytes.{le_bytes, le_value, length-le_bytes, le_value-le_bytes}
use logpp.Buffer.{LogBuffer, read_as, storage}
use logpp.Buffer.Wellformed.{IsValid}
use logpp.Event.{
  Value, kind_of, get_all, block_bytes, split_block, overlay_block, write_format_args,
}
use logpp.Event.Values.{
  Extends, Extends-trans, At, Stands, Stands-get, Stands-Extends, value_size, IsWritable,
  write_value-Stands,
}

-- Every offset fits an `OffsetType`.
abbrev pub AllBelow : List ℕ → Type 0
AllBelow [] = Unit {0}
AllBelow (o ∷ os) = (o < 2 ^ 32) × AllBelow os

pub length-block_bytes : (os : List ℕ) → length (block_bytes os) ≡ length os * 4
unfolding block_bytes
length-block_bytes [] = refl
length-block_bytes (o ∷ os) = omega (
  arith,
  length-append (le_bytes 4 o) (block_bytes os),
  length-le_bytes 4 o,
  length-block_bytes os,
)

split_block-block_bytes :
    (os : List ℕ) → AllBelow os → split_block (length os) (block_bytes os) ≡ os
unfolding block_bytes split_block
split_block-block_bytes [] h = refl
split_block-block_bytes (o ∷ os) h =
    let four : 4 ≡ length (le_bytes 4 o) = sym (length-le_bytes 4 o) in
    ap₂ ◌∷◌
      (ap le_value (take-append_len 4 (le_bytes 4 o) (block_bytes os) four)
        ∙ le_value-le_bytes 4 o h.0)
      (ap (split_block (length os)) (drop-append_len 4 (le_bytes 4 o) (block_bytes os) four)
        ∙ split_block-block_bytes os h.1)

read_as-prefix :
    (b : LogBuffer) (i n m : ℕ) {bs : List ℕ}
    → m ≤ n
    → read_as b i n ≡ some bs
    → read_as b i m ≡ some (take m bs)
unfolding read_as
read_as-prefix b i n m h e = ground (arith, take-take m n (drop i (storage b)) h)

-- The offsets of a block are read back.
pub overlay_block-At :
    (b : LogBuffer) (i n : ℕ) (os pad : List ℕ)
    → AllBelow os
    → n ≡ length os
    → At b i (block_bytes os ++ pad)
    → overlay_block b i n ≡ some os
unfolding overlay_block
overlay_block-At b i n os pad low e a =
    let four : n * 4 ≡ length (block_bytes os) = omega (arith, length-block_bytes os) in
    rw
      (
        read_as-prefix b i (length (block_bytes os ++ pad)) (n * 4)
            (omega (arith, length-append (block_bytes os) pad)) a.found,
        ◌>>=◌,
        take-append_len (n * 4) (block_bytes os) pad four,
        e,
      )
      (ap some (split_block-block_bytes os low))

-- Values stand at the offsets of a list, one by one.
abbrev pub StandAll : LogBuffer → List ℕ → List Value → Type 0
StandAll b [] [] = Unit {0}
StandAll b (o ∷ os) (v ∷ vs) = Stands b o v × StandAll b os vs
StandAll b [] (v ∷ vs) = ⊥
StandAll b (o ∷ os) [] = ⊥

pub StandAll-get_all :
    (b : LogBuffer) (os : List ℕ) (vs : List Value)
    → StandAll b os vs
    → get_all b (map kind_of vs) os ≡ some vs
unfolding get_all
StandAll-get_all b [] [] h = refl
StandAll-get_all b (o ∷ os) (v ∷ vs) h =
    rw (Stands-get b o v h.0, ◌>>=◌, StandAll-get_all b os vs h.1)
StandAll-get_all b [] (v ∷ vs) h = elim h [ ]
StandAll-get_all b (o ∷ os) [] h = elim h [ ]

pub StandAll-Extends :
    {b b' : LogBuffer} (os : List ℕ) (vs : List Value)
    → Extends b b'
    → StandAll b os vs
    → StandAll b' os vs
StandAll-Extends [] [] e h = tt
StandAll-Extends (o ∷ os) (v ∷ vs) e h = (Stands-Extends o v e h.0, StandAll-Extends os vs e h.1)
StandAll-Extends [] (v ∷ vs) e h = elim h [ ]
StandAll-Extends (o ∷ os) [] e h = elim h [ ]

abbrev pub values_size : List Value → ℕ
values_size [] = 0
values_size (v ∷ vs) = value_size v + values_size vs

abbrev pub AllWritable : List Value → Type 0
AllWritable [] = Unit {0}
AllWritable (v ∷ vs) = IsWritable v × AllWritable vs

-- What writing a list of values leaves, with their offsets.
pub record WroteAll (b b' : LogBuffer) (os : List ℕ) (vs : List Value) : Type 0 where
  pub extends : Extends b b'
  pub stand : StandAll b' os vs
  pub below : AllBelow os
  pub count : length os ≡ length vs
  pub moved : b'.cursor ≡ b.cursor + values_size vs

pub WroteAll-cons :
    {a b c : LogBuffer} {os : List ℕ} {vs : List Value} (v : Value)
    → Extends a b
    → Stands b a.cursor v
    → b.cursor ≡ a.cursor + value_size v
    → a.cursor < 2 ^ 32
    → WroteAll b c os vs
    → WroteAll a c (a.cursor ∷ os) (v ∷ vs)
WroteAll-cons {a} v x s m low w = record {
  extends = Extends-trans x w.extends;
  stand = (Stands-Extends a.cursor v w.extends s, w.stand);
  below = (low, w.below);
  count = ap suc w.count;
  moved = omega (arith, w.moved);
}

pub WroteAll-nil : (b : LogBuffer) → IsValid b → WroteAll b b [] []
WroteAll-nil b v = record {
  extends = record { valid = v; grows = omega arith; reads = λ i n h. refl };
  stand = tt;
  below = tt;
  count = refl;
  moved = omega arith;
}

module _ (malloc : ℕ → Option (List ℕ))
    (total : (n : ℕ) → (d : List ℕ) × (malloc n ≡ some d) × (length d ≡ n)) where
  pub write_format_args-WroteAll :
      (b : LogBuffer) (vs : List Value)
      → IsValid b
      → AllWritable vs
      → b.cursor + values_size vs < 2 ^ 32
      → (os : List ℕ) × (b' : LogBuffer) × (write_format_args malloc b vs ≡ some (os, b'))
        × WroteAll b b' os vs
  unfolding write_format_args
  write_format_args-WroteAll b [] v w small = ([], b, refl, WroteAll-nil b v)
  write_format_args-WroteAll b (x ∷ vs) v w small =
      let (c, e, xt, s, m) = write_value-Stands malloc total b x v w.0 (omega arith) in
      let (os, d, e', wrote) = write_format_args-WroteAll c vs xt.valid w.1 (omega arith) in
      (b.cursor ∷ os, d, rw (e, ◌>>=◌, e'), WroteAll-cons x xt s m (omega arith) wrote)
