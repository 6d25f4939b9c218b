-- ===== src/Conv/Exact.antt =====
-- Conversions between the integer types, bindings/c++/conv.cc: through a double, and the operators
-- of DeaiCheckedIntConverter.
use deai.Common.{
  ◌>>=◌, Option, ℕ, ◌%◌, ◌≤◌, ◌<◌, Bool, true, false, none, some, ◌≡◌, refl, ◌==◌, ltb,
  if◌then◌else◌, arith, Bool-cases, inl, inr, not, ap, ◌∙◌, ◌&&◌,
}
use native.Mathlib.Nat.{mod-eq_of_lt, mod-lt}
use deai.Common.Int.{ℤ, pos, negsuc, ltb_ℤ, pos_part}
use deai.Errors.{Result, ok, err, einval}
use deai.Heap.{Heap}
use deai.Refs.{di_free_value}
use deai.Types.{DiType, type_id, di_sizeof_type}
use deai.Value.{Value, type_of}
use deai.Conv.{
  CheckedInt, unsigned, signed, cast_int, narrow_int, narrow_uint, to_int64, to_uint64, yields,
  from_checked, made, is_integer, within, of_number, numbered, stepped, convert, converter,
  to_number, number_step, di_type_conversion,
}

-- The number that is converted.
abbrev pub value : CheckedInt → ℤ
value (unsigned u) = pos u
value (signed i) = i

abbrev pub exact : DiType → ℤ → Result Value
exact t z = if within t z then ok (of_number t z) else err einval

small_mod : (n : ℕ) → n < 4294967296 → n % 4294967296 ≡ n
small_mod n l = mod-eq_of_lt l

cast-small : (z : ℤ) → within DiType.nint z ≡ true → cast_int z ≡ z
unfolding cast_int
cast-small (pos n) w =
    let low : n ≤ 2147483647 = ground (arith, w) in
    rw (small_mod n (omega arith)) (ground (arith, low))
cast-small (negsuc n) w =
    let low : n ≤ 2147483647 = ground (arith, w) in
    rw (small_mod n (omega arith)) (ground (arith, low))

narrow_int-exact :
    (c : CheckedInt)
    → narrow_int 2147483647 c ≡ (if within DiType.nint (value c) then some (value c) else none)
unfolding narrow_int
narrow_int-exact (unsigned u) = elim (Bool-cases (ltb 2147483647 u)) [
  | inl big ↦ ground (arith, big)
  | inr small ↦ ground (arith, small, cast-small (pos u) (ground (arith, small)))
]
narrow_int-exact (signed i) = elim (Bool-cases (within DiType.nint i)) [
  | inl w ↦ ground (arith, w, cast-small i w)
  | inr w ↦ ground (arith, w)
]

uint_mod :
    (n : ℕ)
    → (if n % 4294967296 == n then some (n % 4294967296) else none)
      ≡ (if within DiType.nuint (pos n) then some n else none)
uint_mod n = elim (Bool-cases (ltb n 4294967296)) [
  | inl small ↦ let same = small_mod n (ground (arith, small)) in rw same (ground (arith, small))
  | inr big ↦
      let low : n % 4294967296 < 4294967296 = mod-lt n (omega arith) in ground (arith, big, low)
]

narrow_uint-exact :
    (c : CheckedInt)
    → narrow_uint 4294967296 c
      ≡ (if within DiType.nuint (value c) then some (pos_part (value c)) else none)
unfolding narrow_uint
narrow_uint-exact (unsigned u) = uint_mod u
narrow_uint-exact (signed (pos n)) = uint_mod n
narrow_uint-exact (signed (negsuc n)) = ground arith

-- A number of 64 bits.
abbrev pub Wide : CheckedInt → Type 0
Wide (unsigned u) = u ≤ 18446744073709551615
Wide (signed i) = within DiType.int i ≡ true

to_int64-exact :
    (c : CheckedInt)
    → Wide c
    → to_int64 c ≡ (if within DiType.int (value c) then some (value c) else none)
unfolding to_int64
to_int64-exact (unsigned u) w = ground (arith, w)
to_int64-exact (signed i) w = rw w refl

to_uint64-exact :
    (c : CheckedInt)
    → Wide c
    → to_uint64 c ≡ (if within DiType.uint (value c) then some (pos_part (value c)) else none)
unfolding to_uint64
to_uint64-exact (unsigned u) w = ground (arith, w)
to_uint64-exact (signed (pos n)) w = ground (arith, w)
to_uint64-exact (signed (negsuc n)) w = ground (arith, w)

made-if :
    {A : Type 0} (f : A → Value) (b : Bool) (a : A)
    → made f (if b then some a else none) ≡ (if b then ok (f a) else err einval)
made-if f true a = refl
made-if f false a = refl

-- The operators of DeaiCheckedIntConverter for the integer types, of a number of 64 bits: the number,
-- where the type has it, and nothing where it has not.
pub checked-exact :
    (t : DiType) (c : CheckedInt)
    → is_integer t ≡ true
    → Wide c
    → from_checked t c ≡ exact t (value c)
unfolding from_checked
checked-exact DiType.int c i w =
    ap (made Value.int) (to_int64-exact c w)
    ∙ made-if Value.int (within DiType.int (value c)) (value c)
checked-exact DiType.uint c i w =
    ap (made Value.uint) (to_uint64-exact c w)
    ∙ made-if Value.uint (within DiType.uint (value c)) (pos_part (value c))
checked-exact DiType.nint c i w =
    ap (made Value.nint) (narrow_int-exact c)
    ∙ made-if Value.nint (within DiType.nint (value c)) (value c)
checked-exact DiType.nuint c i w =
    ap (made Value.nuint) (narrow_uint-exact c)
    ∙ made-if Value.nuint (within DiType.nuint (value c)) (pos_part (value c))
checked-exact _ c i w = cc

-- A value of an integer type, with its number.
pub data Number : Value → ℤ → Type 0 where
  of_int : (z : ℤ) → within DiType.int z ≡ true → Number (Value.int z) z
  of_uint : (n : ℕ) → within DiType.uint (pos n) ≡ true → Number (Value.uint n) (pos n)
  of_nint : (z : ℤ) → within DiType.nint z ≡ true → Number (Value.nint z) z
  of_nuint : (n : ℕ) → within DiType.nuint (pos n) ≡ true → Number (Value.nuint n) (pos n)

Number-free :
    (unref : ℕ → Heap → Option Heap) (v : Value) (z : ℤ) (h : Heap)
    → Number v z
    → di_free_value unref v h ≡ some h
unfolding di_free_value
Number-free unref v y h (of_int z w) = refl
Number-free unref v y h (of_uint n w) = refl
Number-free unref v y h (of_nint z w) = refl
Number-free unref v y h (of_nuint n w) = refl

Number-size :
    (v : Value) (z : ℤ) → Number v z → (size : ℕ) × (di_sizeof_type (type_of v) ≡ some size)
unfolding di_sizeof_type type_of
Number-size v y (of_int z w) = (8, refl)
Number-size v y (of_uint n w) = (8, refl)
Number-size v y (of_nint z w) = (4, refl)
Number-size v y (of_nuint n w) = (4, refl)

same-exact :
    (t : DiType) (v : Value) (z : ℤ)
    → is_integer t ≡ true
    → Number v z
    → (type_id (type_of v) == type_id t) ≡ true
    → (within t z ≡ true) × (v ≡ of_number t z)
unfolding type_id type_of
same-exact DiType.int v y i (of_int z w) e = (w, refl)
same-exact DiType.uint v y i (of_int z w) e = cc
same-exact DiType.nint v y i (of_int z w) e = cc
same-exact DiType.nuint v y i (of_int z w) e = cc
same-exact DiType.int v y i (of_uint n w) e = cc
same-exact DiType.uint v y i (of_uint n w) e = (w, refl)
same-exact DiType.nint v y i (of_uint n w) e = cc
same-exact DiType.nuint v y i (of_uint n w) e = cc
same-exact DiType.int v y i (of_nint z w) e = cc
same-exact DiType.uint v y i (of_nint z w) e = cc
same-exact DiType.nint v y i (of_nint z w) e = (w, refl)
same-exact DiType.nuint v y i (of_nint z w) e = cc
same-exact DiType.int v y i (of_nuint n w) e = cc
same-exact DiType.uint v y i (of_nuint n w) e = cc
same-exact DiType.nint v y i (of_nuint n w) e = cc
same-exact DiType.nuint v y i (of_nuint n w) e = (w, refl)
same-exact _ v y i k e = cc

if-kept :
    (b : Bool) (w v : Value)
    → (if b then some (yields w v) else none)
      ≡ ((if b then some w else none) >>= λ x. some (yields x v))
if-kept true w v = refl
if-kept false w v = refl

-- The numbers that a double has exactly, from -2^53 to 2^53
abbrev pub exact_in_double : ℤ → Bool
exact_in_double z = not (ltb_ℤ (pos 9007199254740992) z) && not (ltb_ℤ z (negsuc 9007199254740991))

-- The number in the target type, if that has it
abbrev pub kept : DiType → ℤ → Option Value
kept t z = if within t z then some (of_number t z) else none

module _ (to_double : ℤ → ℕ) (truncate : ℕ → ℤ) where
  step-exact :
      (t : DiType) (z : ℤ) (v : Value)
      → is_integer t ≡ true
      → truncate (to_double z) ≡ z
      → number_step to_double truncate t z v ≡ (kept t z >>= λ w. some (yields w v))
  unfolding number_step
  step-exact DiType.int z v i e = rw e (if-kept (within DiType.int z) (Value.int z) v)
  step-exact DiType.uint z v i e = rw e (if-kept (within DiType.uint z) (Value.uint (pos_part z)) v)
  step-exact DiType.nint z v i e = rw e (if-kept (within DiType.nint z) (Value.nint z) v)
  step-exact DiType.nuint z v i e =
      rw e (if-kept (within DiType.nuint z) (Value.nuint (pos_part z)) v)
  step-exact _ z v i e = cc

  to_number-Number :
      (t : DiType) (v : Value) (z : ℤ)
      → Number v z
      → to_number to_double truncate t v ≡ number_step to_double truncate t z v
  unfolding to_number
  to_number-Number t v y (of_int z w) = refl
  to_number-Number t v y (of_uint n w) = refl
  to_number-Number t v y (of_nint z w) = refl
  to_number-Number t v y (of_nuint n w) = refl

  module _ (dead : ℕ) (unref : ℕ → Heap → Option Heap) where
    converter-integer :
        (borrow : Bool) (t : DiType) (v : Value) (h : Heap)
        → is_integer t ≡ true
        → converter to_double truncate dead borrow t v h ≡ numbered to_double truncate t v h
    unfolding converter
    converter-integer borrow DiType.int v h i = refl
    converter-integer borrow DiType.uint v h i = refl
    converter-integer borrow DiType.nint v h i = refl
    converter-integer borrow DiType.nuint v h i = refl
    converter-integer borrow _ v h i = cc

    convert-closed :
        (borrow : Bool) (t : DiType) (v : Value) (z : ℤ) (h : Heap)
        → Number v z
        → convert to_double truncate dead unref borrow t v h ≡ (
            converter to_double truncate dead borrow t v h >>= λ x.
            stepped v x.0 x.1 (λ h2. some (none, v, h2)))
    unfolding convert
    convert-closed borrow t v y h (of_int z w) = refl
    convert-closed borrow t v y h (of_uint n w) = refl
    convert-closed borrow t v y h (of_nint z w) = refl
    convert-closed borrow t v y h (of_nuint n w) = refl

    -- What is left of a converted number is the number, which owns nothing.
    convert-Number :
        (borrow : Bool) (t : DiType) (v : Value) (z : ℤ) (h : Heap)
        → is_integer t ≡ true
        → Number v z
        → truncate (to_double z) ≡ z
        → convert to_double truncate dead unref borrow t v h
          ≡ (kept t z >>= λ w. some (some w, v, h))
    convert-Number borrow t v z h i k e = rw (convert-closed borrow t v z h k) (
        rw (converter-integer borrow t v h i, to_number-Number t v z k, step-exact t z v i e)
          (elim (Bool-cases (within t z)) [ inl w ↦ rw w refl | inr w ↦ rw w refl ]))

-- `di_type_conversion`, borrowing or not, from an integer type to an integer type, of a number from
-- -2^53 to 2^53, which the platform's conversion to a double keeps: where the target type has the
-- number, it gives the same number and leaves the heap alone; where it has not, the code is undefined.
pub conversion-exact :
    (to_double : ℤ → ℕ) (truncate : ℕ → ℤ) (dead : ℕ) (unref : ℕ → Heap → Option Heap)
    (borrow : Bool) (t : DiType) (v : Value) (z : ℤ) (h : Heap)
    → ((i : ℤ) → exact_in_double i ≡ true → truncate (to_double i) ≡ i)
    → is_integer t ≡ true
    → Number v z
    → exact_in_double z ≡ true
    → di_type_conversion to_double truncate dead unref borrow t v h
      ≡ (if within t z then some (ok (of_number t z), h) else none)
unfolding di_type_conversion
conversion-exact to_double truncate dead unref borrow t v z h keeps i k small =
    let (size, known) = Number-size v z k in
    let run =
      λ (b : Bool). convert-Number to_double truncate dead unref b t v z h i k (keeps z small) in
    elim (Bool-cases (type_id (type_of v) == type_id t)) [
      | inl same ↦
          let (w, it) = same-exact t v z i k same in
          rw (same, known, w) (ap (λ r. some (ok r, h)) it)
      | inr other ↦ elim (Bool-cases (within t z)) [
        | inl w ↦ elim (Bool-cases borrow) [
          | inl b ↦ rw (other, b, run true, w) refl
          | inr b ↦ rw (other, b, known, run false, w, Number-free unref v z h k) refl
        ]
        | inr w ↦ elim (Bool-cases borrow) [
          | inl b ↦ rw (other, b, run true, w) refl
          | inr b ↦ rw (other, b, known, run false, w) refl
        ]
      ]
    ]
