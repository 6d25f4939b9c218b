-- ===== src/Members.antt =====
-- The members of an object: object.c from `check_new_member` to `di_lookup`, the raw accessors, and
-- `di_rawsetx` of include/deai/helper.h. `none` is a fault; a function that returns a code
-- returns it beside the heap.
pub mod Table
pub mod Map
pub mod Ledger
pub mod Handlers
pub mod Typed
use deai.Common.{
  ℕ, zero, suc, ◌+◌, Bool, true, false, not, ◌&&◌, List, [], ◌∷◌, ◌++◌, Option, none, some, ◌==◌,
  if◌then◌else◌, ◌>>=◌, ◌>>◌, check, map,
}
use deai.Errors.{Errno, enoent, einval, eexist, Result, ok, err}
use deai.Types.{DiType, di_sizeof_type}
use deai.Text.{Text, null, chars, di_clone_string, di_string_starts_with}
use deai.Value.{Value, type_of}
use deai.Heap.{Member, Object, Heap, deref, put, find_member, remove_member}
use deai.Refs.{di_copy_value, di_free_value, di_remove_member_raw_impl}

-- `none` inside is NULL: the name's data is null, or no member has the name.
unfoldable pub lookup_in : Text → List Member → Option Member
lookup_in null ms = none
lookup_in (chars cs) ms = find_member (chars cs) ms

unfoldable pub di_lookup : ℕ → Text → Heap → Option (Option Member)
unfolding lookup_in
di_lookup o name h = do ob ← deref o h; some (lookup_in name ob.members)

unfoldable pub check_new_member : Text → List Member → Result (Unit {0})
check_new_member null ms = err einval
check_new_member (chars cs) ms = elim (find_member (chars cs) ms) [
  | none ↦ ok tt
  | some om ↦ err eexist
]

-- The new entry goes to the end of the table.
unfoldable pub di_insert_member : ℕ → Member → Heap → Option (Result (Unit {0}) × Heap)
unfolding check_new_member
di_insert_member o m h = do
  ob ← deref o h
  elim (check_new_member m.name ob.members) [
    | err e ↦ some (err e, h)
    | ok _ ↦ some (ok tt, put o (record ob { members = ob.members ++ m ∷ [] }) h)
  ]

-- A value as the caller's tuple or variant holds it, where nothing was found.
unfoldable pub di_refrawgetx : ℕ → Text → Heap → Option (Result Value)
unfolding di_lookup
di_refrawgetx o prop h = do
  found ← di_lookup o prop h
  elim found [
    | none ↦ some (err enoent)
    | some m ↦
        di_sizeof_type (type_of m.value) >>= λ size. check (not (size == 0)) >> some (ok m.value)
  ]

-- The value is a copy, which the caller owns.
unfoldable pub di_rawgetx : ℕ → Text → Heap → Option (Result Value × Heap)
unfolding di_refrawgetx
di_rawgetx o prop h = do
  found ← di_refrawgetx o prop h
  elim found [ err e ↦ some (err e, h) | ok v ↦ di_copy_value v h >>= λ r. some (ok r.0, r.1) ]

unfoldable pub di_remove_member_raw : ℕ → Text → Heap → Option (Result Value × Heap)
unfolding di_lookup
di_remove_member_raw o name h = do
  found ← di_lookup o name h
  elim found [
    | none ↦ some (err enoent, h)
    | some m ↦ di_remove_member_raw_impl o name h >>= λ r. some (ok r.0, r.1)
  ]

-- HASH_ITER, with a clone of each name
unfoldable pub di_get_all_member_names_raw : ℕ → Heap → Option (List Text)
di_get_all_member_names_raw o h = do
  ob ← deref o h
  some (map (λ m. di_clone_string m.name) ob.members)

unfoldable pub di_is_empty_object : ℕ → Heap → Option Bool
di_is_empty_object o h = do ob ← deref o h; some (elim ob.members [ [] ↦ true | m ∷ ms ↦ false ])

module _ (unref : ℕ → Heap → Option Heap) where
  -- `v` moves into the object. If there is such a member it is freed, but with a null name the
  -- function returns before.
  unfoldable pub di_add_member : ℕ → Text → Value → Heap → Option (Result (Unit {0}) × Heap)
  unfolding di_insert_member
  di_add_member o null v h = some (err einval, h)
  di_add_member o (chars cs) v h = do
    (rc, h1) ← di_insert_member o (record { name = di_clone_string (chars cs); value = v }) h
    elim rc [
      | ok _ ↦ some (ok tt, h1)
      | err e ↦ di_free_value unref v h1 >>= λ h2. some (err e, h2)
    ]

  unfoldable pub di_add_member_clone : ℕ → Text → Value → Heap → Option (Result (Unit {0}) × Heap)
  unfolding di_add_member
  di_add_member_clone o name v h = do
    size ← di_sizeof_type (type_of v)
    if size == 0
        then some (err einval, h)
        else (do (copy, h1) ← di_copy_value v h; di_add_member o name copy h1)

  -- The value that the caller held is moved; it is left with nil.
  unfoldable pub di_add_member_move : ℕ → Text → Value → Heap → Option (Result (Unit {0}) × Heap)
  unfolding di_add_member
  di_add_member_move o name v h = do
    size ← di_sizeof_type (type_of v)
    if size == 0 then some (err einval, h) else di_add_member o name v h

  unfoldable pub di_delete_member_raw : ℕ → Text → Heap → Option (Result (Unit {0}) × Heap)
  unfolding di_remove_member_raw
  di_delete_member_raw o name h = do
    (found, h1) ← di_remove_member_raw o name h
    elim found [
      | err e ↦ some (err e, h1)
      | ok v ↦ di_free_value unref v h1 >>= λ h2. some (ok tt, h2)
    ]

  -- Any code of the deletion but ENOENT is returned.
  unfoldable pub di_rawsetx : ℕ → Text → Value → Heap → Option (Result (Unit {0}) × Heap)
  unfolding di_delete_member_raw di_add_member_clone
  di_rawsetx o prop v h = do
    (rc, h1) ← di_delete_member_raw o prop h
    elim rc [
      | ok _ ↦ di_add_member_clone o prop v h1
      | err enoent ↦ di_add_member_clone o prop v h1
      | err e ↦ some (err e, h1)
    ]
