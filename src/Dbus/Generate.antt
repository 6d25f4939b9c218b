-- ===== src/Dbus/Generate.antt =====
-- The signature of a value: plugins/dbus/signature.c. `none` is a fault: a panic, an assertion that
-- fails, an int that overflows, or a read of memory that is null or was not written. The codes are those that D-Bus gives
-- its types; 0 is DBUS_TYPE_INVALID. `dbus_type_is_basic` is a parameter.
pub mod Fits
use deai.Common.{
  ℕ, zero, suc, ◌+◌, ◌-◌, Bool, true, false, ◌||◌, List, [], ◌∷◌, ◌++◌, Option, none, some, ◌==◌,
  if◌then◌else◌, ◌>>=◌, ◌>>◌, check, length, ltb,
}
use deai.Common.Int.{ℤ, pos, negsuc, ◌+ℤ◌, ltb_ℤ}
use deai.Errors.{einval, Result, ok, err}
use deai.Types.{DiType, type_id}
use deai.Text.{chars}
use deai.Value.{Value, Values, end, item, array, tuple, variant, type_of}
use deai.Dbus.Signature.{Signature, Signatures, sig, done, child}

unfoldable pub di_type_to_dbus_basic : DiType → Option ℕ
di_type_to_dbus_basic DiType.bool = some b'b'
di_type_to_dbus_basic DiType.int = some b'x'
di_type_to_dbus_basic DiType.uint = some b't'
di_type_to_dbus_basic DiType.nint = some b'i'
di_type_to_dbus_basic DiType.nuint = some b'u'
di_type_to_dbus_basic DiType.float = some b'd'
di_type_to_dbus_basic DiType.string = some b's'
di_type_to_dbus_basic DiType.string_literal = some b's'
di_type_to_dbus_basic DiType.array = some b'a'
di_type_to_dbus_basic DiType.tuple = some b'r'
di_type_to_dbus_basic DiType.any = none
di_type_to_dbus_basic DiType.last_type = none
di_type_to_dbus_basic _ = some 0

abbrev pub is_integer : DiType → Bool
is_integer DiType.uint = true
is_integer DiType.int = true
is_integer DiType.nint = true
is_integer DiType.nuint = true
is_integer _ = false

abbrev pub same_type : DiType → DiType → Bool
same_type a b = type_id a == type_id b

-- The codes n, i, x, q, u and t are the integers, s and o the texts; h is a file descriptor.
unfoldable pub is_basic_type_compatible : DiType → ℕ → Option Bool
unfolding type_id
is_basic_type_compatible type dbus_type =
    if dbus_type == b'b'
    then some (same_type type DiType.bool)
    else if dbus_type == b'n'
        || dbus_type == b'i'
        || dbus_type == b'x'
        || dbus_type == b'q'
        || dbus_type == b'u'
        || dbus_type == b't'
    then some (is_integer type)
    else if dbus_type == b'd'
    then some (same_type type DiType.float)
    else if dbus_type == b's' || dbus_type == b'o'
    then some (same_type type DiType.string)
    else if dbus_type == b'a' || dbus_type == b'r' || dbus_type == b'v'
    then none
    else some false

-- A test for a negative number.
abbrev pub is_negative : ℤ → Bool
is_negative (pos n) = false
is_negative (negsuc n) = true

abbrev same_int : ℤ → ℤ → Bool
same_int (pos m) (pos n) = m == n
same_int (negsuc m) (negsuc n) = m == n
same_int _ _ = false

-- The sum of two ints, which is undefined past INT_MAX. No sum here is negative but for -1 + 1.
unfoldable pub add_int : ℤ → ℤ → Option ℤ
unfolding ◌+ℤ◌
add_int a b = if ltb_ℤ (pos 2147483647) (a +ℤ b) then none else some (a +ℤ b)

-- The loop over `i < arr.elem_type`, which looks at the first element each time.
unfoldable pub same_again : ℕ → Option ℤ → ℤ → Option ℤ
unfolding add_int
same_again zero again v0 = add_int (pos 1) v0
same_again (suc n) again v0 =
    again >>= λ v. if same_int v v0 then same_again n again v0 else some (negsuc 0)

abbrev pub byte_at : List ℕ → Option (ℕ × List ℕ)
byte_at [] = none
byte_at (c ∷ cs) = some (c, cs)

-- The tests with which `verify_type_signature` starts: an answer, or the code and what follows it.
pub data Entry : Type 0 where
  answer : Option (List ℕ) → Entry
  look : ℕ → List ℕ → Entry

-- The types whose elements can differ in structure.
abbrev pub is_varied : DiType → Bool
is_varied DiType.array = true
is_varied DiType.tuple = true
is_varied DiType.variant = true
is_varied _ = false

-- `ret2 == NULL || ret2 != ret`, of two places in one text.
abbrev pub same_place : Option (List ℕ) → Option (List ℕ) → Bool
same_place (some a) (some b) = length a == length b
same_place _ _ = false

-- The end of a struct.
abbrev pub close_brace : Option (List ℕ) → Option (Option (List ℕ))
close_brace none = some none
close_brace (some s) = byte_at s >>= λ r. some (if r.0 == b')' then some r.1 else none)

module _ (is_basic : ℕ → Bool) where
  unfoldable pub entry : DiType → List ℕ → Option Entry
  unfolding di_type_to_dbus_basic is_basic_type_compatible
  entry t signature = do
    dtype ← di_type_to_dbus_basic t
    r ← byte_at signature
    if is_basic dtype
        then (is_basic_type_compatible t r.0 >>= λ b. some (answer (if b then some r.1 else none)))
        else if r.0 == b'v'
        then some (answer (some r.1))
        else some (look r.0 r.1)

  -- What is not matched of the signature; `none` inside is NULL. An array without elements has no
  -- memory to look at.
  unfoldable mutual
    unfolding entry

    pub verify_type_signature : Value → List ℕ → Option (Option (List ℕ))
    verify_type_signature (variant v) s = entry DiType.variant s >>= λ e. elim e [
      | answer a ↦ some a
      | look c rest ↦ verify_type_signature v s
    ]
    verify_type_signature (tuple vs) s = entry DiType.tuple s >>= λ e. elim e [
      | answer a ↦ some a
      | look c rest ↦
          let inner = verify_each vs rest in if c == b'(' then inner >>= close_brace else some none
    ]
    verify_type_signature (array t end) s = entry DiType.array s >>= λ e. elim e [
      | answer a ↦ some a
      | look c rest ↦
          if c == b'a' then none else if c == b'(' then close_brace (some rest) else some none
    ]
    verify_type_signature (array t (item v vs)) s = entry DiType.array s >>= λ e. elim e [
      | answer a ↦ some a
      | look c rest ↦
          let first = verify_type_signature v rest in
          let others = verify_alike vs rest in
          let inner = verify_each (item v vs) rest in
          if c == b'a'
          then (do ret ← first; if is_varied t then others ret else some ret)
          else if c == b'('
          then inner >>= close_brace
          else some none
    ]
    verify_type_signature v s =
        entry (type_of v) s >>= λ e. elim e [ answer a ↦ some a | look c rest ↦ some none ]

    -- The elements behind the first end where it ended.
    pub verify_alike : Values → List ℕ → Option (List ℕ) → Option (Option (List ℕ))
    verify_alike end s ret = some ret
    verify_alike (item v vs) s ret = verify_type_signature v s >>= λ ret2.
        let rest = verify_alike vs s ret in if same_place ret2 ret then rest else some none

    -- The elements match one after the other.
    pub verify_each : Values → List ℕ → Option (Option (List ℕ))
    verify_each end curr = some (some curr)
    verify_each (item v vs) curr = verify_type_signature v curr >>= λ r. elim r [
      | none ↦ some none
      | some next ↦ verify_each vs next
    ]

  unfoldable mutual
    unfolding di_type_to_dbus_basic type_of same_again type_id add_int

    pub type_signature_length_of_di_value : Value → Option ℤ
    type_signature_length_of_di_value (array t vs) = do
      dtype ← di_type_to_dbus_basic DiType.array
      let first = length_of_first t vs
      if is_basic dtype then some (pos 1) else (do v0 ← first; same_again (type_id t - 1) first v0)
    type_signature_length_of_di_value (tuple vs) = do
      dtype ← di_type_to_dbus_basic DiType.tuple
      let all = length_of_each vs (pos 0)
      if is_basic dtype then some (pos 1) else all
    type_signature_length_of_di_value (variant v) = do
      dtype ← di_type_to_dbus_basic DiType.variant
      let inner = type_signature_length_of_di_value v
      if is_basic dtype then some (pos 1) else inner
    type_signature_length_of_di_value v = do
      dtype ← di_type_to_dbus_basic (type_of v)
      some (if is_basic dtype then pos 1 else negsuc 0)

    pub length_of_first : DiType → Values → Option ℤ
    length_of_first t end = none
    length_of_first t (item v vs) = type_signature_length_of_di_value v

    -- `ret` so far, and 2 for the braces at the end.
    pub length_of_each : Values → ℤ → Option ℤ
    length_of_each end ret = add_int ret (pos 2)
    length_of_each (item v vs) ret = do
      tmp ← type_signature_length_of_di_value v
      let rest = add_int ret tmp >>= λ sum. length_of_each vs sum
      if is_negative tmp then some tmp else rest

  -- What was written, beside the result: the bytes stay when the result is an error.
  abbrev pub Written : Type 0
  Written = Result Signature × List ℕ

  abbrev pub leaf : ℕ → Written
  leaf c = (ok (sig (chars (c ∷ [])) done), c ∷ [])

  -- An element that failed is never verified; then the buffer holds no whole type.
  unfoldable pub close_array : Written → Option (List ℕ) → Option Written
  close_array (r, bytes) none = some (err einval, b'a' ∷ bytes)
  close_array (ok c, bytes) (some rest) =
      some (ok (sig (chars (b'a' ∷ bytes)) (child c done)), b'a' ∷ bytes)
  close_array (err e, bytes) (some rest) = none

  -- The loop over a tuple: the children and their bytes.
  abbrev pub Children : Type 0
  Children = Result Signatures × List ℕ

  unfoldable pub push : Written → Children → Children
  push (ok c, xs) (ok cs, ys) = (ok (child c cs), xs ++ ys)
  push (ok c, xs) (err e, ys) = (err e, xs ++ ys)
  push (err e, xs) _ = (err e, xs)

  unfoldable pub close_tuple : Children → Written
  close_tuple (ok cs, bytes) =
      (ok (sig (chars (b'(' ∷ (bytes ++ b')' ∷ []))) cs), b'(' ∷ (bytes ++ b')' ∷ []))
  close_tuple (err e, bytes) = (err e, b'(' ∷ bytes)

  unfoldable mutual
    unfolding di_type_to_dbus_basic type_of verify_type_signature close_array push close_tuple

    pub type_signature_of_di_value_to_buffer : Value → Option Written
    type_signature_of_di_value_to_buffer (array t end) = do
      dtype ← di_type_to_dbus_basic DiType.array
      if is_basic dtype then some (leaf dtype) else none
    type_signature_of_di_value_to_buffer (array t (item v vs)) = do
      dtype ← di_type_to_dbus_basic DiType.array
      let first = type_signature_of_di_value_to_buffer v
      if is_basic dtype then some (leaf dtype) else (do
        res ← first
        rest ← verify_type_signature (array t (item v vs)) (b'a' ∷ res.1)
        close_array res rest)
    type_signature_of_di_value_to_buffer (tuple vs) = do
      dtype ← di_type_to_dbus_basic DiType.tuple
      let all = children_to_buffer vs
      if is_basic dtype then some (leaf dtype) else all >>= λ cs. some (close_tuple cs)
    type_signature_of_di_value_to_buffer (variant v) = do
      dtype ← di_type_to_dbus_basic DiType.variant
      some (if is_basic dtype then leaf dtype else leaf b'v')
    type_signature_of_di_value_to_buffer v = do
      dtype ← di_type_to_dbus_basic (type_of v)
      some (if is_basic dtype then leaf dtype else (err einval, []))

    pub children_to_buffer : Values → Option Children
    children_to_buffer end = some (ok done, [])
    children_to_buffer (item v vs) = type_signature_of_di_value_to_buffer v >>= λ c. elim c.0 [
      | err e ↦ some (err e, c.1)
      | ok _ ↦ children_to_buffer vs >>= λ cs. some (push c cs)
    ]

  -- The buffer has `len + 1` bytes, an int; more that is written is a fault, and so is the NUL at its end
  -- where an error has freed it.
  unfoldable pub type_signature_of_di_value : Value → Option (Result Signature)
  unfolding type_signature_length_of_di_value type_signature_of_di_value_to_buffer
  type_signature_of_di_value var = do
    len ← type_signature_length_of_di_value var
    elim len [
      | negsuc _ ↦ some (err einval)
      | pos n ↦ type_signature_of_di_value_to_buffer var >>= λ rc.
          check (ltb n 2147483647)
          >> check (ltb (length rc.1) (n + 2))
          >> elim rc.0 [ ok s ↦ some (ok s) | err e ↦ none ]
    ]
