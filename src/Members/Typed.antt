-- ===== src/Members/Typed.antt =====
-- Members of a type that is asked for: object.c, `di_getxt`, `di_rawgetxt`, `di_get_type`,
-- `di_check_type`, `di_callx` and `di_object_to_string` without a place for an error. Call functions,
-- what `%p` prints, and `di_new_error` are parameters. `none` is a fault.
use deai.Common.{
  ℕ, Bool, true, false, List, [], ◌∷◌, ◌++◌, Option, none, some, ◌>>=◌, ◌>>◌, ◌+◌, leb, length,
  check,
}
use deai.Common.Int.{ℤ}
use deai.Errors.{enoent, einval, Result, ok, err}
use deai.Types.{DiType}
use deai.Text.{Text, chars, c_str, same_bytes, di_clone_string}
use deai.Value.{Value}
use deai.Heap.{Heap, deref}
use deai.Conv.{di_type_conversion}
use deai.Members.{di_rawgetx, di_refrawgetx}
use deai.Members.Handlers.{Called, gives, fails, throws, CallFn, di_call_object, di_getx}

-- A code, or the value, as a call's end
abbrev pub ended : Result Value → Called
ended (ok v) = gives v
ended (err e) = fails e

-- MAX_NARGS
abbrev pub max_nargs : ℕ
max_nargs = 128

abbrev pub type_name : List ℕ
type_name = b'_' ∷ b'_' ∷ b't' ∷ b'y' ∷ b'p' ∷ b'e' ∷ []

abbrev pub plain_object : List ℕ
plain_object = b'd' ∷ b'e' ∷ b'a' ∷ b'i' ∷ b':' ∷ b'o' ∷ b'b' ∷ b'j' ∷ b'e' ∷ b'c' ∷ b't' ∷ []

abbrev pub to_string_name : List ℕ
to_string_name = b'_' ∷ b'_' ∷ b't' ∷ b'o' ∷ b'_' ∷ b's' ∷ b't' ∷ b'r' ∷ b'i' ∷ b'n' ∷ b'g' ∷ []

module _ (to_double : ℤ → ℕ) (truncate : ℕ → ℤ) (dead_weak_ref : ℕ)
    (unref : ℕ → Heap → Option Heap) where
  unfoldable pub di_rawgetxt : ℕ → Text → DiType → Heap → Option (Result Value × Heap)
  unfolding di_rawgetx di_type_conversion
  di_rawgetxt o prop t h = do
    (raw, h1) ← di_rawgetx o prop h
    elim raw [
      | err e ↦ some (err e, h1)
      | ok v ↦ di_type_conversion to_double truncate dead_weak_ref unref false t v h1
    ]

  -- The name that a conversion to string literals gave.
  abbrev named_type : Result Value → Option (Result (List ℕ))
  named_type (ok (Value.string_literal cs)) = some (ok cs)
  named_type (ok v) = none
  named_type (err enoent) = some (ok plain_object)
  named_type (err e) = some (err e)

  unfoldable pub di_get_type : ℕ → Heap → Option (Result (List ℕ) × Heap)
  unfolding di_rawgetxt
  di_get_type o h = do
    (r, h1) ← di_rawgetxt o (chars type_name) DiType.string_literal h
    name ← named_type r
    some (name, h1)

  unfoldable pub di_check_type : ℕ → List ℕ → Heap → Option (Bool × Heap)
  unfolding di_get_type same_bytes c_str
  di_check_type o tyname h = do
    (r, h1) ← di_get_type o h
    some (elim r [ err e ↦ false | ok ot ↦ same_bytes (c_str ot) (c_str tyname) ], h1)

  module _ (call : CallFn) where
    unfoldable pub di_getxt : ℕ → Text → DiType → Heap → Option (Called × Heap)
    unfolding di_getx di_type_conversion
    di_getxt o prop t h = do
      (r, h1) ← di_getx call unref false o prop h
      elim r [
        | gives v ↦ do
          (c, h2) ← di_type_conversion to_double truncate dead_weak_ref unref false t v h1
          some (ended c, h2)
        | other ↦ some (other, h1)
      ]

    -- The object goes before the arguments. The reference to the method, which the caller took, is
    -- dropped after the call, but neither without a call function nor on an exception.
    unfoldable pub di_call_internal : ℕ → ℕ → List Value → Heap → Option (Bool × Called × Heap)
    di_call_internal self method args h = do
      ob ← deref method h
      elim ob.call [
        | none ↦ some (false, fails einval, h)
        | some f ↦ do
          check (leb (length args + 1) max_nargs)
          (r, h1) ← call f method (Value.object self ∷ args) h
          elim r [
            | throws e ↦ some (false, throws e, h1)
            | other ↦ do h2 ← unref method h1; some (true, other, h2)
          ]
      ]

    unfoldable pub di_callx : ℕ → Text → List Value → Heap → Option (Bool × Called × Heap)
    unfolding di_getxt di_call_internal
    di_callx self name args h = do
      (val, h1) ← di_getxt self name DiType.object h
      elim val [
        | gives (Value.object method) ↦ di_call_internal self method args h1
        | gives v ↦ none
        | other ↦ some (false, other, h1)
      ]

    module _ (print_pointer : ℕ → List ℕ) (new_error : Heap → Option (ℕ × Heap)) where
      unfoldable pub di_object_to_string_fallback : ℕ → Text
      di_object_to_string_fallback o =
          chars
            (b'[' ∷ b'o' ∷ b'b' ∷ b'j' ∷ b'e' ∷ b'c' ∷ b't' ∷ b':' ∷ print_pointer o ++ b']' ∷ [])

      -- The value that the function gave is owned.
      unfoldable pub string_given : ℕ → Called → Heap → Option (Called × Heap)
      unfolding di_object_to_string_fallback di_type_conversion
      string_given o (gives v) h = do
        (c, h1) ←
            di_type_conversion to_double truncate dead_weak_ref unref false DiType.string
              (Value.variant v) h
        elim c [
          | ok s ↦ some (gives s, h1)
          | err e ↦ do (x, h2) ← new_error h1; some (throws x, h2)
        ]
      string_given o (fails e) h = some (gives (Value.string (di_object_to_string_fallback o)), h)
      string_given o r h = some (r, h)

      -- `__to_string` is no string.
      unfoldable pub call_to_string : ℕ → Result Value → Heap → Option (Called × Heap)
      unfolding di_object_to_string_fallback string_given di_call_object
      call_to_string o (ok (Value.object conv)) h = do
        (r, h1) ← di_call_object call conv (Value.object o ∷ []) h
        string_given o r h1
      call_to_string o other h = some (gives (Value.string (di_object_to_string_fallback o)), h)

      unfoldable pub di_object_to_string : ℕ → Heap → Option (Called × Heap)
      unfolding di_refrawgetx di_type_conversion di_clone_string call_to_string
          di_object_to_string_fallback
      di_object_to_string o h = do
        found ← di_refrawgetx o (chars to_string_name) h
        elim found [
          | err e ↦ some (gives (Value.string (di_object_to_string_fallback o)), h)
          | ok v ↦ do
            (r, h1) ←
                di_type_conversion to_double truncate dead_weak_ref unref true DiType.string
                  (Value.variant v) h
            elim r [
              | ok (Value.string s) ↦ some (gives (Value.string (di_clone_string s)), h1)
              | _ ↦ do
                (c, h2) ←
                    di_type_conversion to_double truncate dead_weak_ref unref true DiType.object
                      (Value.variant v) h1
                call_to_string o c h2
            ]
        ]
