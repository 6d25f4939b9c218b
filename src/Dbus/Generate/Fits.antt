-- ===== src/Dbus/Generate/Fits.antt =====
-- Signatures of values without arrays, plugins/dbus/signature.c: they fit their buffer.
use deai.Common.{
  ℕ, ◌+◌, ◌≤◌, ◌<◌, ◌≡◌, refl, ap, subst, Bool, true, false, ◌&&◌, [], ◌∷◌, some, arith, length,
  length-append, append-nil, and_left, and_right,
}
use deai.Common.Int.{pos, ◌+ℤ◌}
use deai.Errors.{ok}
use deai.Text.{chars}
use deai.Value.{Value, Values, end, item}
use deai.Dbus.Signature.{sig, done, child, parse_dbus_signature}
use deai.Dbus.Signature.Grammar.{
  DbusType, DbusTypes, basic, struct, next, print, print_all, tree, trees, known, all_known, Codes,
}
use deai.Dbus.Signature.Parse.{parse-print_all}
use deai.Dbus.Signature.Texts.{print-nonempty}
use deai.Dbus.Generate.{
  type_signature_length_of_di_value, length_of_each, type_signature_of_di_value_to_buffer,
  children_to_buffer, type_signature_of_di_value, close_tuple, add_int,
}

-- Values of supported types, without arrays.
unfoldable mutual
  pub is_plain : Value → Bool
  is_plain (Value.bool b) = true
  is_plain (Value.int i) = true
  is_plain (Value.uint n) = true
  is_plain (Value.nint i) = true
  is_plain (Value.nuint n) = true
  is_plain (Value.float f) = true
  is_plain (Value.string s) = true
  is_plain (Value.string_literal s) = true
  is_plain (Value.tuple vs) = all_plain vs
  is_plain (Value.variant v) = is_plain v
  is_plain _ = false

  pub all_plain : Values → Bool
  all_plain end = true
  all_plain (item v vs) = is_plain v && all_plain vs

-- The bytes for the signature of such a value
unfoldable mutual
  pub measure : Value → ℕ
  measure (Value.tuple vs) = measure_each vs + 2
  measure (Value.variant v) = measure v
  measure v = 1

  pub measure_each : Values → ℕ
  measure_each end = 0
  measure_each (item v vs) = measure v + measure_each vs

add_pos : (m n : ℕ) → m + n < 2147483648 → add_int (pos m) (pos n) ≡ some (pos (m + n))
unfolding add_int ◌+ℤ◌
add_pos m n l = ground (arith, l)

module _ (is_valid is_basic : ℕ → Bool) where
  -- libdbus knows the codes of the basic types, and takes neither the code of a struct nor
  -- DBUS_TYPE_INVALID for one.
  pub record Basics : Type 0 where
    pub bool : is_basic b'b' ≡ true
    pub int64 : is_basic b'x' ≡ true
    pub uint64 : is_basic b't' ≡ true
    pub int32 : is_basic b'i' ≡ true
    pub uint32 : is_basic b'u' ≡ true
    pub double : is_basic b'd' ≡ true
    pub string : is_basic b's' ≡ true
    pub struct : is_basic b'r' ≡ false
    pub invalid : is_basic 0 ≡ false
    pub valid : (c : ℕ) → is_basic c ≡ true → is_valid c ≡ true

  Fits : Value → Type 0
  Fits v =
      (t : DbusType) × (type_signature_of_di_value_to_buffer is_basic v
        ≡ some (ok (tree t), print t))
      × (measure v < 2147483648
          → type_signature_length_of_di_value is_basic v ≡ some (pos (measure v)))
      × (length (print t) ≤ measure v)
      × (known is_valid is_basic t ≡ true)

  FitEach : Values → Type 0
  FitEach vs =
      (ts : DbusTypes) × (children_to_buffer is_basic vs ≡ some (ok (trees ts), print_all ts))
      × ((m : ℕ)
          → m + measure_each vs + 2 < 2147483648
          → length_of_each is_basic vs (pos m) ≡ some (pos (m + measure_each vs + 2)))
      × (length (print_all ts) ≤ measure_each vs)
      × (all_known is_valid is_basic ts ≡ true)

  known_basic : (c : ℕ) → Basics → is_basic c ≡ true → known is_valid is_basic (basic c) ≡ true
  unfolding known
  known_basic c b e = rw (b.valid c e, e) refl

  -- A leaf of the tree: one byte.
  leaf-Fits :
      (v : Value) (c : ℕ)
      → Basics
      → is_basic c ≡ true
      → type_signature_of_di_value_to_buffer is_basic v
        ≡ some (ok (sig (chars (c ∷ [])) done), c ∷ [])
      → type_signature_length_of_di_value is_basic v ≡ some (pos 1)
      → measure v ≡ 1
      → Fits v
  unfolding Fits tree print
  leaf-Fits v c b e w l one = (basic c, w, λ _. rw one l, omega (arith, one), known_basic c b e)

  item-Fits : (v : Value) (vs : Values) → Fits v → FitEach vs → FitEach (item v vs)
  unfolding Fits FitEach children_to_buffer trees known length_of_each measure
  item-Fits v vs (t, w, l, le, k) (ts, ws, ls, les, ks) = (
    next t ts,
    rw (w, ws) refl,
    λ m small.
        rw (l (omega arith), add_pos m (measure v) (omega arith), ls (m + measure v) (omega arith))
          (ap (λ x. some (pos x)) (omega arith)),
    omega (arith, length-append (print t) (print_all ts)),
    rw (k, ks) refl,
  )

  tuple-Fits : Basics → (vs : Values) → FitEach vs → Fits (Value.tuple vs)
  unfolding Fits FitEach type_signature_of_di_value_to_buffer type_signature_length_of_di_value
      close_tuple tree known measure
  tuple-Fits b vs (ts, w, l, le, k) = (
    struct ts,
    rw (b.struct, w) refl,
    λ small. rw (b.struct, l 0 (omega arith)) (ap (λ x. some (pos x)) (omega arith)),
    omega (arith, length-append (print_all ts) (b')' ∷ [])),
    k,
  )

  mutual
    unfolding is_plain type_signature_of_di_value_to_buffer type_signature_length_of_di_value
        length_of_each Fits FitEach tree known print measure

    value-Fits : (v : Value) → Basics → is_plain v ≡ true → Fits v
    value-Fits (Value.bool x) b p =
        leaf-Fits (Value.bool x) b'b' b b.bool (rw b.bool refl) (rw b.bool refl) refl
    value-Fits (Value.int x) b p =
        leaf-Fits (Value.int x) b'x' b b.int64 (rw b.int64 refl) (rw b.int64 refl) refl
    value-Fits (Value.uint x) b p =
        leaf-Fits (Value.uint x) b't' b b.uint64 (rw b.uint64 refl) (rw b.uint64 refl) refl
    value-Fits (Value.nint x) b p =
        leaf-Fits (Value.nint x) b'i' b b.int32 (rw b.int32 refl) (rw b.int32 refl) refl
    value-Fits (Value.nuint x) b p =
        leaf-Fits (Value.nuint x) b'u' b b.uint32 (rw b.uint32 refl) (rw b.uint32 refl) refl
    value-Fits (Value.float x) b p =
        leaf-Fits (Value.float x) b'd' b b.double (rw b.double refl) (rw b.double refl) refl
    value-Fits (Value.string x) b p =
        leaf-Fits (Value.string x) b's' b b.string (rw b.string refl) (rw b.string refl) refl
    value-Fits (Value.string_literal x) b p =
        leaf-Fits (Value.string_literal x) b's' b b.string (rw b.string refl) (rw b.string refl)
          refl
    value-Fits (Value.tuple vs) b p = tuple-Fits b vs (each-Fits vs b p)
    value-Fits (Value.variant v) b p =
        let (t, w, l, le, k) = value-Fits v b p in
        (
          DbusType.variant,
          rw b.invalid refl,
          λ small. rw (b.invalid, l small) refl,
          omega (arith, print-nonempty t),
          refl,
        )
    value-Fits Value.nil b p = cc
    value-Fits Value.any b p = cc
    value-Fits Value.last_type b p = cc
    value-Fits (Value.pointer x) b p = cc
    value-Fits (Value.object x) b p = cc
    value-Fits (Value.empty_object x) b p = cc
    value-Fits (Value.weak_object x) b p = cc
    value-Fits (Value.array t vs) b p = cc

    each-Fits : (vs : Values) → Basics → all_plain vs ≡ true → FitEach vs
    each-Fits end b p = (
      DbusTypes.none,
      refl,
      λ m small. rw (add_pos m 2 (omega arith)) (ap (λ x. some (pos x)) (omega arith)),
      omega arith,
      refl,
    )
    each-Fits (item v vs) b p =
        item-Fits v vs (value-Fits v b (and_left (is_plain v) (all_plain vs) p))
          (each-Fits vs b (and_right (is_plain v) (all_plain vs) p))

-- A value of supported types without arrays, as arguments and as the elements of tuples and
-- variants, of which the signature is measured below INT_MAX, gets a signature: no int overflows, what
-- is written fits the memory that was measured for it, and the parser reads the text back into the
-- same tree. libdbus knows the basic types, and no container, as basic.
pub signature-parses :
    (is_valid is_basic : ℕ → Bool) (v : Value)
    → Basics is_valid is_basic
    → Codes is_valid is_basic
    → is_plain v ≡ true
    → measure v < 2147483647
    → (t : DbusType) × (type_signature_of_di_value is_basic v ≡ some (ok (tree t)))
      × (type_signature_length_of_di_value is_basic v ≡ some (pos (measure v)))
      × (length (print t) ≤ measure v)
      × (parse_dbus_signature is_valid is_basic (chars (print t))
          ≡ some (ok (sig (chars (print t)) (child (tree t) done))))
unfolding type_signature_of_di_value Fits print trees known
signature-parses is_valid is_basic v b codes p s =
    let (t, w, l, le, k) = value-Fits is_valid is_basic v b p in
    let measured = l (omega arith) in
    (
      t,
      ground (arith, measured, w, le, s),
      measured,
      le,
      subst
          (λ xs.
            parse_dbus_signature is_valid is_basic (chars xs)
            ≡ some (ok (sig (chars xs) (child (tree t) done))))
          (append-nil (print t))
          (parse-print_all is_valid is_basic t DbusTypes.none codes (rw k refl)
            (rw (append-nil (print t)) (omega arith))),
    )
