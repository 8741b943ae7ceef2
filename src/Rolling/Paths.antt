-- ===== src/Rolling/Paths.antt =====
-- The paths of the archives: `formatPath` of `ArchiveIncremental::archive`.
use logpp.Common.{
  ℕ, zero, suc, ◌+◌, ◌-◌, ◌*◌, ◌/◌, ◌%◌, ◌≤◌, ◌<◌, ◌≡◌, ◌≢◌, refl, ◌∙◌, ap, sym, Option, none, some,
  List, [], ◌∷◌, ◌++◌, length, drop, drop-append_len, length-append, if◌then◌else◌, ltb, leb, arith,
  Bool-cases, inl, inr,
}

-- `%d` of a number that is not negative, in `fuel` digits at most.
unfoldable pub decimal_from : ℕ → ℕ → List ℕ
decimal_from zero n = []
decimal_from (suc fuel) n =
    let front = decimal_from fuel (n / 10) in
    if ltb n 10 then (b'0' + n) ∷ [] else front ++ ((b'0' + n % 10) ∷ [])

unfoldable pub decimal : ℕ → List ℕ
unfolding decimal_from
decimal n = decimal_from (suc n) n

-- The text that `snprintf` is to print for `"%s.%d"`.
unfoldable pub numbered : List ℕ → ℕ → List ℕ
unfolding decimal
numbered base n = base ++ (b'.' ∷ decimal n)

-- `formatPath`: `snprintf` cuts the text to 254 bytes and returns its whole length, so that a longer
-- one makes `std::string(pathBuf, len)` read past the buffer.
unfoldable pub format_path : List ℕ → ℕ → Option (List ℕ)
unfolding numbered
format_path base n = if leb (length (numbered base n)) 254 then some (numbered base n) else none

value_from : ℕ → List ℕ → ℕ
value_from acc [] = acc
value_from acc (c ∷ cs) = value_from (acc * 10 + (c - b'0')) cs

value_from-append :
    (acc : ℕ) (cs : List ℕ) (c : ℕ)
    → value_from acc (cs ++ (c ∷ [])) ≡ value_from acc cs * 10 + (c - b'0')
unfolding value_from
value_from-append acc [] c = refl
value_from-append acc (d ∷ cs) c = value_from-append (acc * 10 + (d - b'0')) cs c

value_from-decimal_from : (fuel n : ℕ) → n < fuel → value_from 0 (decimal_from fuel n) ≡ n
unfolding value_from decimal_from
value_from-decimal_from zero n h = absurd (omega arith)
value_from-decimal_from (suc fuel) n h = elim (Bool-cases (ltb n 10)) [
  | inl e ↦ rw e (omega arith)
  | inr e ↦
      let big : 10 ≤ n = ground arith in
      rw
        (
          e,
          value_from-append 0 (decimal_from fuel (n / 10)) (b'0' + n % 10),
          value_from-decimal_from fuel (n / 10) (omega arith),
        )
        (omega arith)
]

pub decimal-injective : (n m : ℕ) → decimal n ≡ decimal m → n ≡ m
unfolding decimal
decimal-injective n m e =
    sym (value_from-decimal_from (suc n) n (omega arith))
    ∙ ap (value_from 0) e
    ∙ value_from-decimal_from (suc m) m (omega arith)

pub numbered-injective : (base : List ℕ) (n m : ℕ) → numbered base n ≡ numbered base m → n ≡ m
unfolding numbered
numbered-injective base n m e = decimal-injective n m (ap (drop 1) after_base)
  where
    after_base : b'.' ∷ decimal n ≡ b'.' ∷ decimal m
    after_base =
        sym (drop-append_len (length base) base (b'.' ∷ decimal n) refl)
        ∙ ap (drop (length base)) e
        ∙ drop-append_len (length base) base (b'.' ∷ decimal m) refl

pub numbered-ne-base : (base : List ℕ) (n : ℕ) → numbered base n ≢ base
unfolding numbered
numbered-ne-base base n e =
    absurd (omega (arith, ap length e, length-append base (b'.' ∷ decimal n)))

pub format_path-some :
    (base : List ℕ) (n : ℕ)
    → length (numbered base n) ≤ 254
    → format_path base n ≡ some (numbered base n)
unfolding format_path
format_path-some base n h = ground arith

pub format_path-none :
    (base : List ℕ) (n : ℕ) → 254 < length (numbered base n) → format_path base n ≡ none
unfolding format_path
format_path-none base n h = ground arith
