-- ===== src/Dbus/Signature.antt =====
-- Type signatures: plugins/dbus/signature.c, parsing. `none` is a fault: a read past the end of a
-- string or through a null pointer, an int that overflows, or an assertion that fails. The parser calls itself on fuel.
-- `dbus_type_is_valid` and `dbus_type_is_basic` of libdbus are parameters.
pub mod Grammar
pub mod Texts
pub mod Parse
use deai.Common.{
  ℕ, zero, suc, ◌+◌, Bool, true, false, ◌&&◌, ◌||◌, List, [], ◌∷◌, Option, none, some, ◌==◌,
  if◌then◌else◌, ◌>>=◌, ◌>>◌, check, ltb, ◌%◌, ◌^◌, ◌-◌,
}
use deai.Errors.{einval, Result, ok, err}
use deai.Text.{Text, null, chars, size, di_suffix, di_substring}

-- struct dbus_signature, where `nchild` is not negative; a negative one is an error.
mutual
  pub data Signature : Type 0 where
    sig : Text → Signatures → Signature

  pub data Signatures : Type 0 where
    done : Signatures
    child : Signature → Signatures → Signatures

unfoldable pub current : Signature → Text
current (sig s cs) = s

-- *signature.data
unfoldable pub first_byte : Text → Option ℕ
first_byte null = none
first_byte (chars []) = none
first_byte (chars (c ∷ cs)) = some c

-- The cases of `parse_dbus_signature_one`.
pub data Kind : Type 0 where
  leaf of_array of_struct invalid : Kind

-- What the loop has collected: the children, the sum of their lengths, which the code reduces to an
-- int after each addition, and the text behind them.
pub record Parsed : Type 0 where
  pub children : Signatures
  pub length : ℕ
  pub rest : Text

-- An int that holds a sum of lengths, as a size_t.
unfoldable pub int_to_size : ℕ → ℕ
int_to_size n = let m = n % 4294967296 in if ltb 2147483647 m then m + (2 ^ 64 - 4294967296) else m

-- The end of `parse_dbus_signaure_sequence`
unfoldable pub close_sequence : Text → Result Parsed → Result (Signature × Text)
unfolding int_to_size
close_sequence curr (err e) = err e
close_sequence curr (ok p) =
    ok (sig (di_substring curr 0 (int_to_size p.length)) p.children, p.rest)

-- What `parse_dbus_signature_one` makes of the element behind an 'a'.
unfoldable pub close_array : Text → Result (Signature × Text) → Result (Signature × Text)
unfolding current
close_array s (err e) = err e
close_array s (ok (c, rest)) =
    ok (sig (di_substring s 0 (size (current c) + 1)) (child c done), rest)

-- What it makes of the sequence behind a '('.
unfoldable pub close_struct : Text → Result (Signature × Text) → Option (Result (Signature × Text))
unfolding first_byte
close_struct s (err e) = some (err e)
close_struct s (ok (sig inner cs, next)) = do
  c ← first_byte next
  check (c == b')')
  some (ok (sig (di_substring s 0 (size inner + 2)) cs, di_suffix next 1))

-- One more child in front of what the rest of the loop collects.
unfoldable pub push_child : Signature → Result Parsed → Result Parsed
unfolding current
push_child c (err e) = err e
push_child c (ok p) =
    ok (record {
      children = child c p.children;
      length = size (current c) + p.length;
      rest = p.rest;
    })

module _ (is_valid is_basic : ℕ → Bool) where
  unfoldable pub kind : ℕ → Kind
  kind c =
      if is_valid c && is_basic c || c == b'v'
      then leaf
      else if c == b'a'
      then of_array
      else if c == b'('
      then of_struct
      else invalid

  -- while (signature.length != 0 && *signature.data != end_char): `some true` goes on
  unfoldable pub goes_on : Text → ℕ → Option Bool
  unfolding first_byte
  goes_on s end_char =
      if size s == 0
      then some false
      else (do c ← first_byte s; some (if c == end_char then false else true))

  unfoldable mutual
    unfolding first_byte close_sequence close_array close_struct push_child goes_on

    pub parse_dbus_signature_one : ℕ → Text → Option (Result (Signature × Text))
    parse_dbus_signature_one zero s = none
    parse_dbus_signature_one (suc n) s = do
      c ← first_byte s
      elim (kind c) [
        | leaf ↦ some (ok (sig (di_substring s 0 1) done, di_suffix s 1))
        | of_array ↦ parse_dbus_signature_one n (di_suffix s 1) >>= λ r. some (close_array s r)
        | of_struct ↦ parse_loop n 0 (di_suffix s 1) b')' >>= λ r.
            close_struct s (close_sequence (di_suffix s 1) r)
        | invalid ↦ some (err einval)
      ]

    -- `nchild` is an int, and so is `capacity`, which is the next 2^k - 1: past INT_MAX they overflow.
    pub parse_loop : ℕ → ℕ → Text → ℕ → Option (Result Parsed)
    parse_loop zero nchild s end_char = none
    parse_loop (suc n) nchild s end_char = do
      more ← goes_on s end_char
      elim more [
        | false ↦ some (ok (record { children = done; length = 0; rest = s }))
        | true ↦ check (ltb nchild 2147483647) >> parse_dbus_signature_one n s >>= λ r. elim r [
          | err e ↦ some (err e)
          | ok found ↦
              parse_loop n (nchild + 1) found.1 end_char >>= λ p. some (push_child found.0 p)
        ]
      ]

  unfoldable pub parse_dbus_signaure_sequence : ℕ → Text → ℕ → Option (Result (Signature × Text))
  unfolding parse_loop close_sequence
  parse_dbus_signaure_sequence n s end_char =
      parse_loop n 0 s end_char >>= λ r. some (close_sequence s r)

  -- A sequence that has children, or an error, is returned as it is.
  unfoldable pub finish : Text → Result (Signature × Text) → Option (Result Signature)
  finish s (err e) = some (err e)
  finish s (ok (sig inner (child c cs), rest)) = some (ok (sig inner (child c cs)))
  finish s (ok (sig inner done, rest)) = check (size rest == 0) >> some (ok (sig s done))

  -- Every call consumes a byte, or is the last of a loop.
  unfoldable pub parse_dbus_signature : Text → Option (Result Signature)
  unfolding parse_dbus_signaure_sequence finish
  parse_dbus_signature s = parse_dbus_signaure_sequence (size s + 1) s 0 >>= finish s
