-- ===== src/Roots.antt =====
-- The roots, which keep objects alive: main.c, from `di_add_root` to `di_roots_dtor`. Named roots are
-- members, unnamed ones are in a table (uthash) that holds a reference to each. `none` is a fault.
pub mod Clear
pub mod Ledger
use deai.Common.{
  ℕ, zero, suc, ◌+◌, Bool, true, false, List, [], ◌∷◌, ◌++◌, Option, none, some, length,
  if◌then◌else◌, ◌>>=◌,
}
use mathlib.Core.Option
use deai.Errors.{Result, ok, err}
use deai.Text.{Text, chars, di_string_eq, di_string_starts_with}
use deai.Value.{Value}
use deai.Heap.{Member, Object, Heap, deref, put, mem, without}
use deai.Refs.{di_ref_object}
use deai.Members.{di_add_member_clone, di_delete_member_raw}
use deai.Members.Handlers.{printed}

abbrev pub root_prefix : List ℕ
root_prefix = b'_' ∷ b'_' ∷ b'_' ∷ b'r' ∷ b'o' ∷ b'o' ∷ b't' ∷ b'_' ∷ []

abbrev pub root_key : Text → Text
root_key key = chars (root_prefix ++ printed key)

-- rc == 0
abbrev pub succeeded : Result (Unit {0}) → Bool
succeeded (ok u) = true
succeeded (err e) = false

abbrev pub heap_after : Result (Unit {0}) × Heap → Option Heap
heap_after (rc, h) = some h

-- The entry after that of a name; `none` if the name's entry is gone.
unfoldable pub next_of : Text → List Member → Option (Option Text)
next_of name [] = none
next_of name (m ∷ []) = if di_string_eq m.name name then some none else none
next_of name (m ∷ n ∷ ms) =
    let rest = next_of name (n ∷ ms) in
    if di_string_eq m.name name then some (some n.name) else rest

abbrev pub first_name : List Member → Option Text
first_name [] = none
first_name (m ∷ ms) = some m.name

module _ (unref : ℕ → Heap → Option Heap) where
  unfoldable pub di_add_root : ℕ → Text → ℕ → Heap → Option (Bool × Heap)
  unfolding di_add_member_clone printed
  di_add_root roots key obj h = do
    (rc, h1) ← di_add_member_clone unref roots (root_key key) (Value.object obj) h
    some (succeeded rc, h1)

  unfoldable pub di_remove_root : ℕ → Text → Heap → Option (Bool × Heap)
  unfolding di_delete_member_raw printed
  di_remove_root roots key h = do
    (rc, h1) ← di_delete_member_raw unref roots (root_key key) h
    some (succeeded rc, h1)

  -- The body of the loop
  unfoldable pub clear_root : ℕ → Text → Heap → Option Heap
  unfolding di_string_starts_with di_delete_member_raw
  clear_root roots name h =
      if di_string_starts_with name root_prefix
      then di_delete_member_raw unref roots name h >>= heap_after
      else some h

  -- HASH_ITER reads the entry after this one before the body, and goes there afterwards: it faults if
  -- the body has freed that one. An entry is known by its name.
  unfoldable pub clear_from : ℕ → ℕ → Option Text → Heap → Option Heap
  unfolding next_of
  clear_from fuel roots none h = some h
  clear_from zero roots (some name) h = none
  clear_from (suc fuel) roots (some name) h = do
    ob ← deref roots h
    next ← next_of name ob.members
    h1 ← clear_root roots name h
    clear_from fuel roots next h1

  unfoldable pub di_clear_roots : ℕ → ℕ → Heap → Option Heap
  unfolding clear_from
  di_clear_roots fuel roots h = do
    ob ← deref roots h
    clear_from fuel roots (first_name ob.members) h

  unfoldable pub di_remove_anonymous_root : ℕ → ℕ → Heap → Option (Bool × Heap)
  unfolding mem without
  di_remove_anonymous_root roots root h = do
    ob ← deref roots h
    if mem root ob.anonymous_roots
        then (do
          h1 ←
              unref root
                (put roots (record ob { anonymous_roots = without root ob.anonymous_roots }) h)
          some (true, h1))
        else some (false, h)

  unfoldable pub unref_all : List ℕ → Heap → Option Heap
  unref_all [] h = some h
  unref_all (p ∷ ps) h = unref p h >>= λ h'. unref_all ps h'

  -- The table is emptied before the first reference is dropped.
  unfoldable pub di_roots_dtor : ℕ → Heap → Option Heap
  unfolding unref_all
  di_roots_dtor roots h = do
    ob ← deref roots h
    unref_all ob.anonymous_roots (put roots (record ob { anonymous_roots = [] }) h)

unfoldable pub di_add_anonymous_root : ℕ → ℕ → Heap → Option (Bool × Heap)
unfolding mem di_ref_object
di_add_anonymous_root roots root h = do
  ob ← deref roots h
  if mem root ob.anonymous_roots then some (false, h) else (do
    h1 ← di_ref_object root h
    left ← deref roots h1
    some (true, put roots (record left { anonymous_roots = left.anonymous_roots ++ root ∷ [] }) h1))

-- The getter of the roots object
unfoldable pub di_roots_getter : ℕ → Heap → Option (ℕ × Heap)
unfolding di_ref_object
di_roots_getter roots h = di_ref_object roots h >>= λ h'. some (roots, h')
