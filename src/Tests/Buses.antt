-- ===== src/Tests/Buses.antt =====
-- D-Bus signatures: the theorems at concrete types and values.
use deai.Common.{
  ℕ, ◌≤◌, ◌≡◌, refl, Bool, true, false, ◌||◌, List, [], ◌∷◌, none, some, arith, length, ◌==◌,
}
use deai.Common.Int.{pos}
use deai.Errors.{ok, err, einval}
use deai.Text.{chars, di_suffix}
use deai.Types.{DiType}
use deai.Value.{Value, end, item}
use deai.Dbus.Signature.{sig, done, child, parse_dbus_signature, kind}
use deai.Dbus.Signature.Grammar.{
  DbusType, DbusTypes, basic, variant, array, struct, next, print, print_all, tree, trees, Codes,
  all_known,
}
use deai.Dbus.Signature.Parse.{parse-print_all}
use deai.Dbus.Generate.{type_signature_of_di_value, type_signature_length_of_di_value}
use deai.Dbus.Generate.Fits.{Basics, is_plain, measure, signature-parses}

abbrev one_of : List ℕ → ℕ → Bool
one_of [] c = false
one_of (d ∷ ds) c = c == d || one_of ds c

-- The codes of the basic types.
abbrev basic_code : ℕ → Bool
basic_code =
    one_of (
      b'y' ∷ b'b' ∷ b'n' ∷ b'q' ∷ b'i' ∷ b'u' ∷ b'x' ∷ b't' ∷ b'd' ∷ b's' ∷ b'o' ∷ b'g' ∷ b'h' ∷ [])

abbrev valid_code : ℕ → Bool
valid_code c = basic_code c || one_of (b'a' ∷ b'v' ∷ b'r' ∷ b'e' ∷ []) c

codes : Codes valid_code basic_code
codes = record { no_array = refl; no_struct = refl; no_end = refl; no_nul = refl }

-- "a(sv)i"
abbrev first_type : DbusType
first_type = array (struct (next (basic b's') (next variant DbusTypes.none)))

abbrev other_types : DbusTypes
other_types = next (basic b'i') DbusTypes.none

types_known : all_known valid_code basic_code (next first_type other_types) ≡ true
unfolding all_known
types_known = refl

types_short : length (print_all (next first_type other_types)) ≡ 6
unfolding print
types_short = refl

parse-print_all_example :
    parse_dbus_signature valid_code basic_code (chars (print_all (next first_type other_types)))
    ≡ some (
        ok (
          sig
            (chars (print_all (next first_type other_types)))
            (trees (next first_type other_types))))
parse-print_all_example =
    parse-print_all valid_code basic_code first_type other_types codes types_known
      (omega (arith, types_short))

-- A text and an integer in a variant.
abbrev pair : Value
pair =
    Value.tuple
      (item (Value.string (chars (b'k' ∷ []))) (item (Value.variant (Value.int (pos 3))) end))

basics : Basics valid_code basic_code
basics = record {
  bool = refl;
  int64 = refl;
  uint64 = refl;
  int32 = refl;
  uint32 = refl;
  double = refl;
  string = refl;
  struct = refl;
  invalid = refl;
  valid = λ c e. rw e refl;
}

signature-parses_example :
    (t : DbusType) × (type_signature_of_di_value basic_code pair ≡ some (ok (tree t)))
    × (type_signature_length_of_di_value basic_code pair ≡ some (pos 4))
    × (length (print t) ≤ 4)
    × (parse_dbus_signature valid_code basic_code (chars (print t))
        ≡ some (ok (sig (chars (print t)) (child (tree t) done))))
unfolding is_plain measure
signature-parses_example =
    signature-parses valid_code basic_code pair basics codes refl (omega arith)

-- An array of pairs of a text and a pointer: 1 byte is allocated, and 3 are written.
abbrev unsupported : Value
unsupported =
    Value.array DiType.tuple
      (item (Value.tuple (item (Value.string (chars [])) (item (Value.pointer 0) end))) end)

unsupported_length : type_signature_length_of_di_value basic_code unsupported ≡ some (pos 0)
unfolding type_signature_length_of_di_value
unsupported_length = refl

unsupported_faults : type_signature_of_di_value basic_code unsupported ≡ none
unfolding type_signature_of_di_value
unsupported_faults = refl

-- A signature that ends where an element type is due is read through a null pointer.
unfinished_array : parse_dbus_signature valid_code basic_code (chars (b'a' ∷ [])) ≡ none
unfolding parse_dbus_signature kind
unfinished_array = refl

-- Dict entries are complete element types of D-Bus arrays; "a{sv}" is refused.
dict_refused :
    parse_dbus_signature valid_code basic_code (chars (b'a' ∷ b'{' ∷ b's' ∷ b'v' ∷ b'}' ∷ []))
    ≡ some (err einval)
unfolding parse_dbus_signature kind di_suffix
dict_refused = refl
