-- ===== src/Conv.antt =====
-- Conversion of values: bindings/c++/conv.cc, `DeaiCheckedIntConverter`, `DeaiVariantConverter` and
-- `di_type_conversion`. `none` is a fault or undefined. The platform's conversion of an integer to a
-- double, the integral part of a double and the address of `dead_weak_ref` are parameters. A converter that owns its value is left with what it
-- did not give away, and frees that.
pub mod Exact
pub mod Ledger
use deai.Common.{
  ◌&&◌, length, ◌>>=◌, ◌>>◌, check, ℕ, zero, suc, ◌+◌, ◌-◌, ◌^◌, ◌%◌, not, Bool, true, false, ◌||◌,
  Option, none, some, ◌==◌, ltb, if◌then◌else◌,
}
use deai.Common.Int.{ℤ, pos, negsuc, ltb_ℤ, pos_part}
use deai.Errors.{Result, ok, err, einval}
use mathlib.Core.Option
use deai.Text.{Text, di_string_borrow, di_string_ndup, size}
use deai.Heap.{Heap, deref}
use deai.Refs.{di_upgrade_weak_ref, di_weakly_ref_object, di_free_value}
use deai.Types.{DiType, type_id, di_sizeof_type}
use deai.Value.{Value, Values, end, item, type_of}

pub data CheckedInt : Type 0 where
  unsigned : ℕ → CheckedInt
  signed : ℤ → CheckedInt

-- static_cast<int>, of 32 bits
unfoldable pub cast_int : ℤ → ℤ
cast_int (pos n) =
    let m = n % 4294967296 in if ltb 2147483647 m then negsuc (4294967295 - m) else pos m
cast_int (negsuc n) =
    let m = n % 4294967296 in if ltb 2147483647 m then pos (4294967295 - m) else negsuc m

-- operator std::optional<intN_t>, of at most 32 bits, by the largest value of the type
unfoldable pub narrow_int : ℕ → CheckedInt → Option ℤ
unfolding cast_int
narrow_int max (unsigned u) = if ltb max u then none else some (cast_int (pos u))
narrow_int max (signed i) =
    if ltb_ℤ (pos max) i || ltb_ℤ i (negsuc max) then none else some (cast_int i)

-- operator std::optional<uintN_t>, of at most 32 bits, by the number of values of the type
unfoldable pub narrow_uint : ℕ → CheckedInt → Option ℕ
narrow_uint limit (unsigned u) = let ret = u % limit in if ret == u then some ret else none
narrow_uint limit (signed (negsuc n)) = none
narrow_uint limit (signed (pos n)) = let ret = n % limit in if ret == n then some ret else none

unfoldable pub to_int64 : CheckedInt → Option ℤ
to_int64 (signed i) = some i
to_int64 (unsigned u) = if ltb 9223372036854775807 u then none else some (pos u)

unfoldable pub to_uint64 : CheckedInt → Option ℕ
to_uint64 (unsigned u) = some u
to_uint64 (signed (pos n)) = some n
to_uint64 (signed (negsuc n)) = none

abbrev pub made : {A : Type 0} → (A → Value) → Option A → Result Value
made f none = err einval
made f (some a) = ok (f a)

-- The operators for the four integer targets, which no conversion takes
unfoldable pub from_checked : DiType → CheckedInt → Result Value
unfolding narrow_int narrow_uint to_int64 to_uint64
from_checked DiType.int c = made Value.int (to_int64 c)
from_checked DiType.uint c = made Value.uint (to_uint64 c)
from_checked DiType.nint c = made Value.nint (narrow_int 2147483647 c)
from_checked DiType.nuint c = made Value.nuint (narrow_uint 4294967296 c)
from_checked _ c = err einval

-- What an operator does: it yields a value and leaves one in the converter, it refuses, or it goes on
-- with the inner value.
pub data Step : Type 0 where
  yields : Value → Value → Step
  refuses : Step
  descends : Step

abbrev pub is_integer : DiType → Bool
is_integer DiType.int = true
is_integer DiType.uint = true
is_integer DiType.nint = true
is_integer DiType.nuint = true
is_integer t = false

-- The numbers that an integer type has.
abbrev pub within : DiType → ℤ → Bool
within DiType.int z =
    not (ltb_ℤ (pos 9223372036854775807) z) && not (ltb_ℤ z (negsuc 9223372036854775807))
within DiType.uint z = not (ltb_ℤ (pos 18446744073709551615) z) && not (ltb_ℤ z (pos 0))
within DiType.nint z = not (ltb_ℤ (pos 2147483647) z) && not (ltb_ℤ z (negsuc 2147483647))
within DiType.nuint z = not (ltb_ℤ (pos 4294967295) z) && not (ltb_ℤ z (pos 0))
within _ z = false

-- The value of an integer type with this number.
abbrev pub of_number : DiType → ℤ → Value
of_number DiType.int z = Value.int z
of_number DiType.uint z = Value.uint (pos_part z)
of_number DiType.nint z = Value.nint z
of_number DiType.nuint z = Value.nuint (pos_part z)
of_number t z = Value.nil

-- The elements of a tuple, if all have the type of the first.
unfoldable pub same_types : DiType → Values → Bool
unfolding type_id type_of
same_types t end = true
same_types t (item v vs) = let rest = same_types t vs in type_id (type_of v) == type_id t && rest

unfoldable pub tuple_to_array : Bool → Values → Step
unfolding same_types type_of
tuple_to_array borrow end = yields (Value.array DiType.nil end) (Value.tuple end)
tuple_to_array borrow (item v end) =
    yields (Value.array (type_of v) (item v end)) (Value.tuple (item v end))
tuple_to_array borrow (item v (item w vs)) =
    if borrow
    then refuses
    else if same_types (type_of v) (item w vs)
    then yields (Value.array (type_of v) (item v (item w vs))) Value.nil
    else refuses

unfoldable pub array_to_tuple : Bool → DiType → Values → Step
array_to_tuple borrow t end = yields (Value.tuple end) (Value.array t end)
array_to_tuple borrow t (item v vs) =
    if borrow then refuses else yields (Value.tuple (item v vs)) Value.nil

unfoldable pub to_string : Bool → Value → Step
to_string borrow (Value.string s) = yields (Value.string s) Value.nil
to_string borrow (Value.string_literal cs) =
    yields
      (Value.string
        (if borrow then di_string_borrow cs else di_string_ndup cs (size (di_string_borrow cs))))
      (Value.string_literal cs)
to_string borrow v = descends

unfoldable pub to_array : Bool → Value → Step
unfolding tuple_to_array
to_array borrow (Value.array t vs) = yields (Value.array t vs) Value.nil
to_array borrow Value.nil = yields (Value.array DiType.nil end) Value.nil
to_array borrow (Value.empty_object o) = yields (Value.array DiType.nil end) (Value.empty_object o)
to_array borrow (Value.tuple vs) = tuple_to_array borrow vs
to_array borrow v = descends

unfoldable pub to_tuple : Bool → Value → Step
unfolding array_to_tuple
to_tuple borrow (Value.tuple vs) = yields (Value.tuple vs) Value.nil
to_tuple borrow Value.nil = yields (Value.tuple end) Value.nil
to_tuple borrow (Value.empty_object o) = yields (Value.tuple end) (Value.empty_object o)
to_tuple borrow (Value.array t vs) = array_to_tuple borrow t vs
to_tuple borrow v = descends

unfoldable pub to_object : Bool → Value → Heap → Option (Step × Heap)
unfolding di_upgrade_weak_ref
to_object borrow (Value.object o) h = some (yields (Value.object o) Value.nil, h)
to_object borrow (Value.empty_object o) h = some (yields (Value.object o) Value.nil, h)
to_object true (Value.weak_object w) h = some (descends, h)
to_object false (Value.weak_object w) h = do
  (strong, h1) ← di_upgrade_weak_ref w h
  some (elim strong [ none ↦ refuses | some o ↦ yields (Value.object o) (Value.weak_object w) ], h1)
to_object borrow v h = some (descends, h)

abbrev pub weak_of_object : Bool → ℕ → Value → Heap → Option (Step × Heap)
weak_of_object true o v h = some (yields (Value.weak_object o) v, h)
weak_of_object false o v h =
    di_weakly_ref_object o h >>= λ h1. some (yields (Value.weak_object o) v, h1)

unfoldable pub to_pointer : Value → Step
to_pointer Value.nil = yields (Value.pointer 0) Value.nil
to_pointer (Value.pointer p) = yields (Value.pointer p) (Value.pointer p)
to_pointer v = descends

unfoldable pub to_bool : Value → Step
to_bool (Value.bool b) = yields (Value.bool b) (Value.bool b)
to_bool v = descends

unfoldable pub to_literal : Value → Step
to_literal (Value.string_literal cs) = yields (Value.string_literal cs) (Value.string_literal cs)
to_literal v = descends

-- What a converter gave, what it is left with, and the heap.
abbrev pub Converted : Type 0
Converted = Option (Option Value × Value × Heap)

-- `inner` is the conversion of the inner value.
abbrev pub stepped : Value → Step → Heap → (Heap → Converted) → Converted
stepped v (yields w left) h inner = some (some w, left, h)
stepped v refuses h inner = some (none, v, h)
stepped v descends h inner = inner h

abbrev pub given : Option Value → Result Value
given none = err einval
given (some v) = ok v

module _ (unref : ℕ → Heap → Option Heap) where
  -- The converter of an inner value that is owned frees what it is left with.
  unfoldable pub emptied : Value → Converted → Converted
  unfolding type_of di_sizeof_type
  emptied v run = do
    size ← di_sizeof_type (type_of v)
    (given, left, h) ← run
    h1 ← di_free_value unref left h
    some (given, Value.nil, h1)

module _ (to_double : ℤ → ℕ) (truncate : ℕ → ℤ) where
  -- A number as the target, double or an integer type. std::optional<T> is made from the
  -- DeaiCheckedIntConverter through its operator double, and the double is cast to T: a cast that
  -- does not fit is undefined.
  unfoldable pub number_step : DiType → ℤ → Value → Option Step
  number_step DiType.float z v = some (yields (Value.float (to_double z)) v)
  number_step t z v =
      if within t (truncate (to_double z))
      then some (yields (of_number t (truncate (to_double z))) v)
      else none

  unfoldable pub to_number : DiType → Value → Option Step
  unfolding number_step
  to_number t (Value.int i) = number_step t i (Value.int i)
  to_number t (Value.uint u) = number_step t (pos u) (Value.uint u)
  to_number t (Value.nint i) = number_step t i (Value.nint i)
  to_number t (Value.nuint u) = number_step t (pos u) (Value.nuint u)
  to_number DiType.float (Value.float f) = some (yields (Value.float f) (Value.float f))
  to_number t (Value.float f) = some refuses
  to_number t v = some descends

  abbrev pub numbered : DiType → Value → Heap → Option (Step × Heap)
  numbered t v h = to_number t v >>= λ s. some (s, h)

module _ (to_double : ℤ → ℕ) (truncate : ℕ → ℤ) (dead_weak_ref : ℕ) where
  unfoldable pub to_weak : Bool → Value → Heap → Option (Step × Heap)
  unfolding di_weakly_ref_object
  to_weak borrow (Value.weak_object w) h = some (yields (Value.weak_object w) Value.nil, h)
  to_weak borrow (Value.object o) h = weak_of_object borrow o (Value.object o) h
  to_weak borrow (Value.empty_object o) h = weak_of_object borrow o (Value.empty_object o) h
  to_weak borrow Value.nil h = some (yields (Value.weak_object dead_weak_ref) Value.nil, h)
  to_weak borrow v h = some (descends, h)

  -- The operator for a target. That for variants leaves the value, which it has copied, in place.
  unfoldable pub converter : Bool → DiType → Value → Heap → Option (Step × Heap)
  unfolding to_number to_string to_array to_tuple to_object to_weak to_pointer to_bool to_literal
  converter borrow DiType.int v h = numbered to_double truncate DiType.int v h
  converter borrow DiType.uint v h = numbered to_double truncate DiType.uint v h
  converter borrow DiType.nint v h = numbered to_double truncate DiType.nint v h
  converter borrow DiType.nuint v h = numbered to_double truncate DiType.nuint v h
  converter borrow DiType.float v h = numbered to_double truncate DiType.float v h
  converter borrow DiType.bool v h = some (to_bool v, h)
  converter borrow DiType.string v h = some (to_string borrow v, h)
  converter borrow DiType.string_literal v h = some (to_literal v, h)
  converter borrow DiType.array v h = some (to_array borrow v, h)
  converter borrow DiType.tuple v h = some (to_tuple borrow v, h)
  converter borrow DiType.object v h = to_object borrow v h
  converter borrow DiType.weak_object v h = to_weak borrow v h
  converter borrow DiType.pointer v h = some (to_pointer v, h)
  converter borrow DiType.variant v h = some (yields (Value.variant v) v, h)
  converter borrow _ v h = some (refuses, h)

  module _ (unref : ℕ → Heap → Option Heap) where
    -- A value inside a variant, or alone in a tuple or an array, is converted itself; of a borrowed
    -- tuple or array the code reads the field of variants.
    unfoldable pub convert : Bool → DiType → Value → Heap → Converted
    unfolding converter emptied
    convert borrow t (Value.variant v) h = do
      (s, h1) ← converter borrow t (Value.variant v) h
      stepped (Value.variant v) s h1
          (λ h2. if borrow then convert borrow t v h2 else emptied unref v (convert borrow t v h2))
    convert borrow t (Value.tuple (item v end)) h = do
      (s, h1) ← converter borrow t (Value.tuple (item v end)) h
      stepped (Value.tuple (item v end)) s h1
          (λ h2. if borrow then none else emptied unref v (convert borrow t v h2))
    convert borrow t (Value.array e (item v end)) h = do
      (s, h1) ← converter borrow t (Value.array e (item v end)) h
      stepped (Value.array e (item v end)) s h1
          (λ h2. if borrow then none else emptied unref v (convert borrow t v h2))
    convert borrow t v h = do
      (s, h1) ← converter borrow t v h
      stepped v s h1 (λ h2. some (none, v, h2))

    unfoldable pub di_type_conversion : Bool → DiType → Value → Heap → Option (Result Value × Heap)
    unfolding convert type_id type_of di_sizeof_type
    di_type_conversion borrow t v h =
        if type_id (type_of v) == type_id t
        then (do size ← di_sizeof_type (type_of v); some (ok v, h))
        else if borrow
        then (do (r, left, h1) ← convert true t v h; some (given r, h1))
        else (do
          size ← di_sizeof_type (type_of v)
          (r, left, h1) ← convert false t v h
          h2 ← di_free_value unref left h1
          some (given r, h2))
