-- ===== src/Refs.antt =====
-- Reference counting: object.c, from `di_init_object` to `di_unref_object`, and the release and
-- copy of values. `none` is a fault: an assertion that fails, or a use of memory that was freed.
-- `unref` calls itself through the members of the objects that it destroys, on fuel that bounds
-- the depth of these calls. A destructor is a function pointer of a plugin: a parameter.
pub mod Counts
pub mod Steps
pub mod Frame
pub mod Free
pub mod Finalize
pub mod Release
pub mod Unref
pub mod Copy
pub mod Upgrade
pub mod Fresh
use deai.Common.{
  ℕ, zero, suc, ◌+◌, ◌-◌, ◌^◌, Bool, true, false, not, List, [], ◌∷◌, ◌++◌, Option, none, some,
  ◌==◌, ◌||◌, ◌&&◌, ltb, if◌then◌else◌, ◌>>=◌, ◌>>◌, check, length,
}
use mathlib.Core.Option
use deai.Types.{DiType, di_sizeof_type}
use deai.Text.{Text, di_clone_string}
use deai.Value.{
  Value, Values, end, item, array, tuple, object, empty_object, weak_object, variant, last_type,
  any, string,
}
use deai.Heap.{
  Member, Object, Heap, cell, deref, put, free, is_linked, list_del_init, list_add, find_member,
  remove_member,
}

abbrev pub fresh : Object
fresh = record {
  members = [];
  dtor = none;
  call = none;
  ref_count = 1;
  weak_ref_count = 1;
  ref_count_scan = 0;
  mark = 0;
  destroyed = false;
  nhandlers = none;
  anonymous_roots = [];
}

-- `di_new_object` takes a size and an alignment, and gives no object if one is too small;
-- memory is cleared, then `di_init_object`. A new object is a new cell.
unfoldable pub di_new_object : ℕ → ℕ → Heap → Option ℕ × Heap
di_new_object size alignment h =
    if ltb size 128
    then (none, h)
    else if ltb alignment 8
    then (none, h)
    else (some (length h.cells), record h { cells = h.cells ++ some fresh ∷ [] })

unfoldable pub di_ref_object : ℕ → Heap → Option Heap
di_ref_object o h = do ob ← deref o h; some (put o (record ob { ref_count = ob.ref_count + 1 }) h)

unfoldable pub di_weakly_ref_object : ℕ → Heap → Option Heap
di_weakly_ref_object o h = do
  ob ← deref o h
  some (put o (record ob { weak_ref_count = ob.weak_ref_count + 1 }) h)

-- obj->mark == 0 || obj->mark == 2 || obj->mark == 3
abbrev pub callable_mark : ℕ → Bool
callable_mark m = m == 0 || m == 2 || m == 3

-- A strong reference to the object behind a weak one, if it is alive and not to be collected.
unfoldable pub di_upgrade_weak_ref : ℕ → Heap → Option (Option ℕ × Heap)
unfolding di_ref_object
di_upgrade_weak_ref w h = do
  ob ← deref w h
  check (callable_mark ob.mark)
  if ltb 0 ob.ref_count && not ob.destroyed && not (ob.mark == 2) && not (ob.mark == 3)
      then (do h' ← di_ref_object w h; some (some w, h'))
      else some (none, h)

-- count--, of a uint64_t
abbrev pub decrement : ℕ → ℕ
decrement n = if n == 0 then 2 ^ 64 - 1 else n - 1

unfoldable pub di_decrement_weak_ref_count : ℕ → Heap → Option Heap
di_decrement_weak_ref_count o h = do
  ob ← deref o h
  let left = record ob { weak_ref_count = decrement ob.weak_ref_count }
  if left.weak_ref_count == 0
      then (do check (left.ref_count == 0); some (free o h))
      else some (put o left h)

unfoldable pub di_drop_weak_ref : ℕ → Heap → Option Heap
unfolding di_decrement_weak_ref_count
di_drop_weak_ref w h = di_decrement_weak_ref_count w h

-- Takes a member out of the table; its value now belongs to the caller.
unfoldable pub di_remove_member_raw_impl : ℕ → Text → Heap → Option (Value × Heap)
di_remove_member_raw_impl o name h = do
  ob ← deref o h
  m ← find_member name ob.members
  some (m.value, put o (record ob { members = remove_member name ob.members }) h)

-- `unref` is `di_unref_object`. A variant's value is freed as `di_free_variant` does.
module _ (unref : ℕ → Heap → Option Heap) where
  unfoldable mutual
    unfolding di_drop_weak_ref

    pub di_free_value : Value → Heap → Option Heap
    di_free_value (array t vs) h = di_free_items vs h
    di_free_value (tuple vs) h = di_free_items vs h
    di_free_value (object o) h = unref o h
    di_free_value (empty_object o) h = unref o h
    di_free_value (weak_object w) h = di_drop_weak_ref w h
    di_free_value (variant v) h = di_free_value v h
    di_free_value last_type h = none
    di_free_value any h = none
    di_free_value _ h = some h

    -- the loops of `di_free_array` and `di_free_tuple`
    pub di_free_items : Values → Heap → Option Heap
    di_free_items end h = some h
    di_free_items (item v vs) h = di_free_value v h >>= λ h'. di_free_items vs h'

  -- The loop of `di_finalize_object_inner` over the members that the object has at its start.
  unfoldable pub finalize_members : ℕ → List Member → Heap → Option Heap
  unfolding di_remove_member_raw_impl
  finalize_members o [] h = some h
  finalize_members o (m ∷ ms) h = do
    (v, taken) ← di_remove_member_raw_impl o m.name h
    freed ← di_free_value v taken
    finalize_members o ms freed

  module _ (run_dtor : ℕ → ℕ → Heap → Option Heap) where
    unfoldable pub call_dtor : Option ℕ → ℕ → Object → Heap → Option Heap
    call_dtor none o ob h = some h
    call_dtor (some d) o ob h = run_dtor d o (put o (record ob { dtor = none }) h)

    unfoldable pub di_finalize_object_inner : ℕ → Heap → Option Heap
    unfolding finalize_members call_dtor
    di_finalize_object_inner o h = do
      ob ← deref o h
      done ← call_dtor ob.dtor o ob h
      left ← deref o done
      finalize_members o left.members done

    -- An object that was destroyed before is only logged.
    unfoldable pub di_destroy_object : ℕ → Heap → Option Heap
    unfolding di_finalize_object_inner di_decrement_weak_ref_count
    di_destroy_object o h = do
      ob ← deref o h
      check (ob.ref_count == 0)
      gone ← di_finalize_object_inner o (put o (record ob { destroyed = true }) h)
      di_decrement_weak_ref_count o gone

-- What `di_unref_object` does with the object that has one reference less.
unfoldable pub settle : (ℕ → Heap → Option Heap) → ℕ → Object → Heap → Option Heap
unfolding list_del_init list_add is_linked
settle destroy o left h =
    if left.ref_count == 0
    then destroy o (list_del_init o (put o left h))
    else if not (is_linked o h) && left.mark == 0
    then some (list_add o (put o left h))
    else some (put o left h)

unfoldable pub di_unref_object : (ℕ → ℕ → Heap → Option Heap) → ℕ → ℕ → Heap → Option Heap
unfolding settle di_destroy_object
di_unref_object run_dtor zero o h = none
di_unref_object run_dtor (suc fuel) o h = do
  ob ← deref o h
  check (ltb 0 ob.ref_count)
  check (not ob.destroyed)
  check (callable_mark ob.mark)
  settle (di_destroy_object (di_unref_object run_dtor fuel) run_dtor) o
      (record ob { ref_count = ob.ref_count - 1 }) h

-- A copy owns references of its own, and its strings are clones. `none` stands for a panic or an
-- abort, on a type that has no values.
unfoldable mutual
  unfolding di_ref_object di_weakly_ref_object

  pub di_copy_value : Value → Heap → Option (Value × Heap)
  di_copy_value (array t end) h = some (array t end, h)
  di_copy_value (array t (item v vs)) h = do
    size ← di_sizeof_type t
    check (not (size == 0))
    (ws, h') ← copy_items (item v vs) h
    some (array t ws, h')
  di_copy_value (tuple vs) h = do (ws, h') ← copy_items vs h; some (tuple ws, h')
  di_copy_value (variant v) h = do (w, h') ← di_copy_value v h; some (variant w, h')
  di_copy_value (string s) h = some (string (di_clone_string s), h)
  di_copy_value (object o) h = di_ref_object o h >>= λ h'. some (object o, h')
  di_copy_value (empty_object o) h = di_ref_object o h >>= λ h'. some (empty_object o, h')
  di_copy_value (weak_object w) h = di_weakly_ref_object w h >>= λ h'. some (weak_object w, h')
  di_copy_value any h = none
  di_copy_value last_type h = none
  di_copy_value v h = some (v, h)

  pub copy_items : Values → Heap → Option (Values × Heap)
  copy_items end h = some (end, h)
  copy_items (item v vs) h = do
    (w, h1) ← di_copy_value v h
    (ws, h2) ← copy_items vs h1
    some (item w ws, h2)
