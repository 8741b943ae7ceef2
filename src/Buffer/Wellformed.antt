-- ===== src/Buffer/Wellformed.antt =====
-- When a buffer is well formed, and what storing and reserving do to one that is.
use logpp.Common.{
  ℕ, ◌+◌, ◌^◌, ◌≤◌, ◌<◌, ◌≡◌, refl, some, List, ◌++◌, length, take, drop, length-append,
  length-take, length-drop, arith, length-replicate,
}
use logpp.Buffer.{
  LogBuffer, Pointer, inlined, block, null, storage, replace_at, overwrite, read_as, store_at,
  fresh, is_small,
}

abbrev pub IsLive : Pointer → Type 0
IsLive inlined = Unit {0}
IsLive (block d) = Unit {0}
IsLive null = ⊥

-- The capacity is memory that the buffer owns, and what is written lies within.
pub record IsValid (b : LogBuffer) : Type 0 where
  pub fits : b.cursor ≤ b.capacity
  pub room : b.capacity ≤ length (storage b)
  pub small : b.capacity < 2 ^ 63
  pub live : IsLive b.data_ptr

-- What has been written.
abbrev pub contents : LogBuffer → List ℕ
contents b = take b.cursor (storage b)

pub length-contents : (b : LogBuffer) → IsValid b → length (contents b) ≡ b.cursor
length-contents b v = omega (arith, length-take b.cursor (storage b))

pub fresh-IsValid : (n : ℕ) → n < 2 ^ 63 → IsValid (fresh n)
unfolding fresh
fresh-IsValid n h = record {
  fits = omega arith;
  room = omega (arith, length-replicate {A = ℕ} n 0);
  small = h;
  live = tt;
}

-- What a store leaves.
pub record Stored (b b' : LogBuffer) (d : List ℕ) : Type 0 where
  pub holds : storage b' ≡ d
  pub same_capacity : b'.capacity ≡ b.capacity
  pub same_cursor : b'.cursor ≡ b.cursor
  pub stays_live : IsLive b'.data_ptr
  pub same_place : is_small b'.data_ptr ≡ is_small b.data_ptr

replace_at-Stored :
    (p : Pointer) (d : List ℕ) (b : LogBuffer)
    → b.data_ptr ≡ p
    → IsLive p
    → Stored b (replace_at p d b) d
replace_at-Stored inlined d b e l = record {
  holds = rw e;
  same_capacity = refl;
  same_cursor = refl;
  stays_live = rw e tt;
  same_place = refl;
}
replace_at-Stored (block c) d b e l = record {
  holds = refl;
  same_capacity = refl;
  same_cursor = refl;
  stays_live = tt;
  same_place = unfold is_small in (rw e);
}
replace_at-Stored null d b e l = elim l [ ]

pub overwrite-some :
    (dst : List ℕ) (i : ℕ) (src : List ℕ)
    → i + length src ≤ length dst
    → overwrite dst i src ≡ some (take i dst ++ (src ++ drop (i + length src) dst))
unfolding overwrite
overwrite-some dst i src h = ground arith

pub length-overwritten :
    (dst : List ℕ) (i : ℕ) (src : List ℕ)
    → i + length src ≤ length dst
    → length (take i dst ++ (src ++ drop (i + length src) dst)) ≡ length dst
length-overwritten dst i src h = omega (
  arith,
  length-append (take i dst) (src ++ drop (i + length src) dst),
  length-append src (drop (i + length src) dst),
  length-take i dst,
  length-drop (i + length src) dst,
)

pub store_at-some :
    (b : LogBuffer) (i : ℕ) (src : List ℕ)
    → IsLive b.data_ptr
    → i + length src ≤ length (storage b)
    → (b' : LogBuffer) × (store_at b i src ≡ some b')
      × Stored b b' (take i (storage b) ++ (src ++ drop (i + length src) (storage b)))
unfolding store_at
store_at-some b i src l h = (
  replace_at b.data_ptr (take i (storage b) ++ (src ++ drop (i + length src) (storage b))) b,
  rw (overwrite-some (storage b) i src h),
  replace_at-Stored b.data_ptr _ b refl l,
)

pub read_as-some :
    (b : LogBuffer) (i n : ℕ)
    → i + n ≤ length (storage b)
    → read_as b i n ≡ some (take n (drop i (storage b)))
unfolding read_as
read_as-some b i n h = ground arith
