-- ===== src/Members/Handlers.antt =====
-- Members with handlers: object.c, `call_handler_with_fallback`, `di_setx`, `di_getx` and
-- `di_delete_member`, with `di_call_object` of callable.c and `di_call_object_catch` of
-- exception.cc. A call function is a function pointer: a parameter. `none` is a fault.
pub mod Obliging
pub mod Get
pub mod Delete
pub mod Next
use deai.Common.{
  ℕ, zero, suc, Bool, true, false, not, ◌&&◌, ◌||◌, List, [], ◌∷◌, ◌++◌, Option, none, some, ◌==◌,
  if◌then◌else◌, ◌>>=◌, ◌>>◌, check,
}
use mathlib.Core.Option
use deai.Errors.{Errno, enoent, erange, Result, ok, err}
use deai.Text.{Text, null, chars, di_string_eq}
use deai.Value.{Value, nil, last_type, object, string, variant}
use deai.Heap.{Member, Object, Heap, deref, put, find_member}
use deai.Refs.{di_copy_value, di_free_value}
use deai.Members.{di_lookup, di_refrawgetx, di_rawgetx, di_add_member_clone, di_delete_member_raw}

-- How a call ends: with 0 and a value, with a code, with 0 and an error object that was caught, or
-- with an exception.
pub data Called : Type 0 where
  gives : Value → Called
  fails : Errno → Called
  raises : ℕ → Called
  throws : ℕ → Called

-- The bytes that `%.*s` prints.
unfoldable pub until_nul : List ℕ → List ℕ
until_nul [] = []
until_nul (c ∷ cs) = let rest = until_nul cs in if c == 0 then [] else c ∷ rest

unfoldable pub printed : Text → List ℕ
unfolding until_nul
printed null = []
printed (chars cs) = until_nul cs

abbrev pub get_prefix : List ℕ
get_prefix = b'_' ∷ b'_' ∷ b'g' ∷ b'e' ∷ b't' ∷ []

abbrev pub set_prefix : List ℕ
set_prefix = b'_' ∷ b'_' ∷ b's' ∷ b'e' ∷ b't' ∷ []

abbrev pub delete_prefix : List ℕ
delete_prefix = b'_' ∷ b'_' ∷ b'd' ∷ b'e' ∷ b'l' ∷ b'e' ∷ b't' ∷ b'e' ∷ []

-- The member's type must be that of objects.
abbrev pub as_object : Value → Result ℕ
as_object (object p) = ok p
as_object _ = err erange

-- di_rawget_borrowed2 of a handler
unfoldable pub borrow_object : ℕ → Text → Heap → Option (Result ℕ)
unfolding di_refrawgetx
borrow_object o name h = do
  found ← di_refrawgetx o name h
  some (elim found [ err e ↦ err e | ok v ↦ as_object v ])

-- rc != 0
abbrev pub failed : Called → Bool
failed (fails e) = true
failed _ = false

-- No argument is DI_LAST_TYPE.
abbrev pub argument : Option Value → List Value
argument none = []
argument (some v) = v ∷ []

unfoldable pub di_free_last_type : Value → Bool
di_free_last_type last_type = true
di_free_last_type (variant v) = di_free_last_type v
di_free_last_type _ = false

-- An exception becomes 0 and an error object.
abbrev pub caught : Called → Called
caught (throws e) = raises e
caught r = r

-- A code, as a call's end
abbrev pub coded : Result (Unit {0}) → Called
coded (ok u) = gives nil
coded (err e) = fails e

-- What a getter's end means: a value that holds DI_LAST_TYPE is no value.
abbrev pub answer : Called → Called
answer (gives v) = if di_free_last_type v then fails enoent else gives v
answer r = r

-- rc != 0, or an exception
abbrev pub stops : Called → Bool
stops (fails e) = true
stops (throws e) = true
stops _ = false

-- A code after a deleter that raised: the error object stays beside 0.
abbrev pub behind : Called → Called → Called
behind (raises x) (gives v) = raises x
behind _ r = r

unfoldable pub set_value : Text → Value → List Member → List Member
set_value name v [] = []
set_value name v (m ∷ ms) =
    if di_string_eq m.name name then record m { value = v } ∷ ms else m ∷ set_value name v ms

-- The function, the object that is called, and the arguments.
abbrev pub CallFn : Type 0
CallFn = ℕ → ℕ → List Value → Heap → Option (Called × Heap)

module _ (call : CallFn) where
  unfoldable pub di_call_object : ℕ → List Value → Heap → Option (Called × Heap)
  di_call_object o args h = do ob ← deref o h; f ← ob.call; call f o args h

  unfoldable pub di_call_object_catch : ℕ → List Value → Heap → Option (Called × Heap)
  unfolding di_call_object
  di_call_object_catch o args h = do (r, h') ← di_call_object o args h; some (caught r, h')

  -- Whether the caller gave a place for an error
  unfoldable pub call_either : Bool → ℕ → List Value → Heap → Option (Called × Heap)
  unfolding di_call_object_catch
  call_either catching o args h =
      if catching then di_call_object_catch o args h else di_call_object o args h

  -- The specific handler; ENOENT without one.
  unfoldable pub call_first :
      Bool → ℕ → List ℕ → Text → Option Value → Heap → Option (Bool × Called × Heap)
  unfolding borrow_object call_either printed
  call_first catching o prefix name arg h = do
    handler ← borrow_object o (chars (prefix ++ b'_' ∷ printed name)) h
    elim handler [
      | err e ↦ some (false, fails enoent, h)
      | ok p ↦ do (r, h') ← call_either catching p (object o ∷ argument arg) h; some (true, r, h')
    ]

  -- The general handler, with the name as its second argument.
  unfoldable pub call_second :
      Bool → ℕ → List ℕ → Text → Option Value → Bool × Called × Heap → Option (Bool × Called × Heap)
  unfolding borrow_object call_either
  call_second catching o prefix name arg (found, r, h) = do
    handler ← borrow_object o (chars prefix) h
    elim handler [
      | err e ↦ some (found, r, h)
      | ok p ↦ do
        (r', h') ← call_either catching p (object o ∷ string name ∷ argument arg) h
        some (true, r', h')
    ]

  module _ (unref : ℕ → Heap → Option Heap) where
    -- Without a place for it, the value that a handler gave is freed.
    unfoldable pub keep_or_free : Bool → Called → Heap → Option (Called × Heap)
    keep_or_free keep (gives v) h =
        if keep then some (gives v, h) else (do h' ← di_free_value unref v h; some (gives nil, h'))
    keep_or_free keep r h = some (r, h)

    -- The first result tells whether there was a handler.
    unfoldable pub call_handler_with_fallback :
        Bool → Bool → ℕ → List ℕ → Text → Option Value → Heap → Option (Bool × Called × Heap)
    unfolding call_first call_second keep_or_free
    call_handler_with_fallback catching keep o prefix name arg h = do
      (found, r, h1) ← call_first catching o prefix name arg h
      (either, r2, h2) ←
          (if failed r
            then call_second catching o prefix name arg (found, r, h1)
            else some (found, r, h1))
      (r3, h3) ← keep_or_free keep r2 h2
      some (either, r3, h3)

    unfoldable pub di_getx : Bool → ℕ → Text → Heap → Option (Called × Heap)
    unfolding di_rawgetx call_handler_with_fallback di_free_last_type
    di_getx catching o prop h = do
      (raw, h1) ← di_rawgetx o prop h
      elim raw [
        | ok v ↦ some (gives v, h1)
        | err e ↦ do
          (found, r, h2) ← call_handler_with_fallback catching true o get_prefix prop none h1
          some (answer r, h2)
      ]

    unfoldable pub di_delete_member : Bool → ℕ → Text → Heap → Option (Called × Heap)
    unfolding call_handler_with_fallback di_delete_member_raw
    di_delete_member catching o name h = do
      (found, r, h1) ← call_handler_with_fallback catching false o delete_prefix name none h
      if found
          then some (r, h1)
          else (do (rc, h2) ← di_delete_member_raw unref o name h1; some (coded rc, h2))

    -- The entry's value is written over. `none`: the entry is gone. One that was put back under the name
    -- meanwhile is taken for the old one.
    unfoldable pub replace_value : ℕ → Text → Value → Heap → Option Heap
    unfolding di_lookup set_value
    replace_value o prop v h = do
      found ← di_lookup o prop h
      m ← found
      (w, h') ← di_copy_value v h
      ob ← deref o h'
      some (put o (record ob { members = set_value m.name w ob.members }) h')

    -- The setter; else the deleter; then the value is replaced, and the old one is freed while it
    -- still stands in the table.
    unfoldable pub di_setx : Bool → ℕ → Text → Value → Heap → Option (Called × Heap)
    unfolding call_handler_with_fallback di_lookup replace_value di_add_member_clone
    di_setx catching o prop v h = do
      (found, r, h1) ← call_handler_with_fallback catching false o set_prefix prop (some v) h
      if found then some (r, h1) else (do
        (deleter, r2, h2) ← call_handler_with_fallback catching false o delete_prefix prop none h1
        if deleter && stops r2 then some (r2, h2) else (do
          mem ← di_lookup o prop h2
          elim mem [
            | some m ↦ do
              freed ← di_free_value unref m.value h2
              h3 ← replace_value o prop v freed
              some (behind r2 (gives nil), h3)
            | none ↦ do
              (rc, h3) ← di_add_member_clone unref o prop v h2
              some (behind r2 (coded rc), h3)
          ]))
