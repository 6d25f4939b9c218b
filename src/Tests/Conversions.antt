-- ===== src/Tests/Conversions.antt =====
-- Conversions between integers, of values that hold references, and of a tuple.
use deai.Common.{
  ltb, ◌*◌, ◌/◌, ◌+◌, ◌%◌, ◌==◌, if◌then◌else◌, ℕ, ◌≤◌, Option, true, false, none, some, ◌≡◌, refl,
  arith, [], ◌∷◌,
}
use deai.Common.Int.{ℤ, pos, negsuc}
use deai.Errors.{Result, ok, err, einval}
use deai.Types.{DiType, type_id, di_sizeof_type}
use deai.Value.{Value, end, item, type_of, one_at, strong, weak, sound}
use deai.Heap.{Object, Heap, find_member}
use deai.Heap.Sums.{total}
use deai.Refs.{di_unref_object, di_free_value, di_drop_weak_ref, fresh}
use deai.Refs.Counts.{Counted, Counted-cong, live}
use deai.Refs.Steps.{◌⊕◌}
use deai.Conv.{di_type_conversion, from_checked, signed}
use deai.Conv.Exact.{Number, exact_in_double, checked-exact, conversion-exact}
use deai.Conv.Ledger.{strong_result, weak_result, conversion-Counted}
use deai.Tests.Objects.{family, family-Counted, nobody, idle_dtor, idle-Tame}

-- Two codes of a number to its integral part. From 2^53 on, the odd ones are rounded.
abbrev rounded : ℕ → ℕ
rounded n = if ltb 9007199254740992 n then 2 * (n / 2) else n

abbrev doubled : ℤ → ℕ
doubled (pos n) = 2 * rounded n
doubled (negsuc n) = 2 * n + 1

abbrev truncated : ℕ → ℤ
truncated d = if d % 2 == 0 then pos (d / 2) else negsuc (d / 2)

even_half : (n : ℕ) → ((2 * n) % 2 ≡ 0) × ((2 * n) / 2 ≡ n)
even_half n = (omega arith, omega arith)

odd_half : (n : ℕ) → ((2 * n + 1) % 2 ≡ 1) × ((2 * n + 1) / 2 ≡ n)
odd_half n = (omega arith, omega arith)

doubled-exact : (i : ℤ) → exact_in_double i ≡ true → truncated (doubled i) ≡ i
doubled-exact (pos n) e =
    let small : rounded n ≡ n = ground (arith, e) in
    let (even, half) = even_half n in rw small (rw (even, half) refl)
doubled-exact (negsuc n) e = let (odd, half) = odd_half n in rw (odd, half) refl

abbrev unref : ℕ → Heap → Option Heap
unref = di_unref_object idle_dtor 2

conversion-exact_example :
    di_type_conversion doubled truncated 7 unref true DiType.nuint
      (Value.int (pos 4294967295))
      family
    ≡ some (ok (Value.nuint 4294967295), family)
conversion-exact_example =
    conversion-exact doubled truncated 7 unref true DiType.nuint (Value.int (pos 4294967295))
      (pos 4294967295) family doubled-exact refl (Number.of_int (pos 4294967295) refl) refl

checked-exact_example : from_checked DiType.uint (signed (negsuc 0)) ≡ err einval
checked-exact_example = checked-exact DiType.uint (signed (negsuc 0)) refl refl

conversion-Counted_example :
    (r : Result Value) × (h' : Heap) × (di_type_conversion doubled truncated 7 unref false
        DiType.object
        (Value.weak_object 1)
        family
      ≡ some (r, h'))
    × Counted (nobody ⊕ one_at 0 ⊕ strong_result r) (nobody ⊕ weak_result r) nobody h'
    × (live h' ≤ 2)
unfolding strong weak sound total
conversion-Counted_example =
    conversion-Counted doubled truncated 7 idle_dtor 2 DiType.object (Value.weak_object 1)
      (nobody ⊕ one_at 0) nobody nobody family idle-Tame refl refl refl
      (Counted-cong (λ q. omega arith) (λ q. refl) (λ q. refl) family-Counted) (omega arith)

-- A number that the target has not is cast all the same.
negative_undefined :
    di_type_conversion doubled truncated 7 unref true DiType.uint (Value.nint (negsuc 0)) family
    ≡ none
unfolding di_type_conversion type_id type_of
negative_undefined = refl

-- 2^53 + 1 becomes 2^53.
large_changes :
    di_type_conversion doubled truncated 7 unref true DiType.uint
      (Value.int (pos 9007199254740993))
      family
    ≡ some (ok (Value.uint 9007199254740992), family)
unfolding di_type_conversion type_id type_of
large_changes = refl

-- Alone in a tuple, an integer is found if the tuple is owned.
owned_tuple_runs :
    di_type_conversion doubled truncated 7 unref false DiType.int
      (Value.tuple (item (Value.nint (pos 7)) end))
      family
    ≡ some (ok (Value.int (pos 7)), family)
unfolding di_type_conversion type_id type_of di_sizeof_type di_free_value
owned_tuple_runs = refl

borrowed_tuple_faults :
    di_type_conversion doubled truncated 7 unref true DiType.int
      (Value.tuple (item (Value.nint (pos 7)) end))
      family
    ≡ none
unfolding di_type_conversion type_id type_of
borrowed_tuple_faults = refl

-- One object, held by one reference
abbrev lone : Heap
lone = record { cells = some fresh ∷ []; unreferred = []; isolated = [] }

abbrev gone : Heap
gone = record { cells = none ∷ []; unreferred = []; isolated = [] }

-- An object that is owned and converted to a variant is destroyed; the variant that is given holds it.
owned_variant_dangles :
    di_type_conversion doubled truncated 7 unref false DiType.variant (Value.object 0) lone
    ≡ some (ok (Value.variant (Value.object 0)), gone)
unfolding di_type_conversion type_id type_of di_sizeof_type di_free_value di_unref_object
    find_member
owned_variant_dangles = refl

-- So with a tuple of one object converted to an array.
owned_array_dangles :
    di_type_conversion doubled truncated 7 unref false DiType.array
      (Value.tuple (item (Value.object 0) end))
      lone
    ≡ some (ok (Value.array DiType.object (item (Value.object 0) end)), gone)
unfolding di_type_conversion type_id type_of di_sizeof_type di_free_value di_unref_object
    find_member
owned_array_dangles = refl

-- Dropping the weak reference that nil is converted to takes the last weak reference to
-- `dead_weak_ref` (here the object 0), whose memory is static.
abbrev static_object : Object
static_object = record fresh { ref_count = 0; destroyed = true }

abbrev grave : Heap
grave = record { cells = some static_object ∷ []; unreferred = []; isolated = [] }

nil_to_weak_runs :
    di_type_conversion doubled truncated 0 unref false DiType.weak_object Value.nil grave
    ≡ some (ok (Value.weak_object 0), grave)
unfolding di_type_conversion type_id type_of di_sizeof_type di_free_value
nil_to_weak_runs = refl

dead_weak_ref_freed : di_drop_weak_ref 0 grave ≡ some gone
unfolding di_drop_weak_ref
dead_weak_ref_freed = refl
