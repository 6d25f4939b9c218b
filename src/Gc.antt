-- ===== src/Gc.antt =====
-- The collector of cycles: object.c from `di_scan_type` to `di_collect_garbage`. `none` is a fault.
-- A scan calls itself through the objects that it enters, on fuel for the depth of these calls, and
-- walks the members that an object has when it is entered. Destructors are a parameter.
pub mod Recolor
pub mod Mark
mod Visited
pub mod Roots
pub mod Scan
pub mod Visit
pub mod Start
mod Revived
pub mod Garbage
pub mod Spared
use deai.Common.{
  ℕ, zero, suc, ◌+◌, ◌-◌, Bool, true, false, not, ◌||◌, ◌&&◌, List, [], ◌∷◌, Option, none, some,
  ◌==◌, leb, if◌then◌else◌, ◌>>=◌, ◌>>◌, check,
}
use mathlib.Core.Option
use deai.Value.{Value, Values, end, item, object, array, tuple, variant}
use deai.Heap.{Member, Object, Heap, deref, put, list_del_init}
use deai.Refs.{decrement, di_ref_object, di_unref_object, di_finalize_object_inner}

-- What a `pre` function returns: `none` is a negative number, and the scan does not enter.
abbrev pub Pre : Type 0
Pre = ℕ → ℕ → Heap → Option (Option ℕ × Heap)

-- `visit` is the case of an object.
module _ (visit : ℕ → ℕ → Heap → Option Heap) where
  unfoldable mutual
    pub di_scan_type : Value → ℕ → Heap → Option Heap
    di_scan_type (object o) state h = visit o state h
    di_scan_type (array t vs) state h = scan_items vs state h
    di_scan_type (tuple vs) state h = scan_items vs state h
    di_scan_type (variant v) state h = di_scan_type v state h
    di_scan_type _ state h = some h

    pub scan_items : Values → ℕ → Heap → Option Heap
    scan_items end state h = some h
    scan_items (item v vs) state h = di_scan_type v state h >>= λ h'. scan_items vs state h'

  unfoldable pub scan_members : List Member → ℕ → Heap → Option Heap
  unfolding di_scan_type
  scan_members [] state h = some h
  scan_members (m ∷ ms) state h = di_scan_type m.value state h >>= λ h'. scan_members ms state h'

module _ (pre : Pre) (post : ℕ → Heap → Option Heap) where
  unfoldable pub scan_object : ℕ → ℕ → ℕ → Heap → Option Heap
  unfolding scan_members
  scan_object zero o state h = none
  scan_object (suc fuel) o state h = do
    (next, h1) ← pre o state h
    elim next [
      | none ↦ some h1
      | some inner ↦ do
        ob ← deref o h1
        h2 ← scan_members (scan_object fuel) ob.members inner h1
        post o h2
    ]

-- No `post` function
abbrev pub nothing : ℕ → Heap → Option Heap
nothing o h = some h

-- Stage 1: count the references, and mark with 1.
unfoldable pub di_collect_garbage_mark : Pre
unfolding list_del_init
di_collect_garbage_mark o state h = do
  ob ← deref o h
  let counted = record ob { ref_count_scan = ob.ref_count_scan + 1 }
  if ob.mark == 1
      then some (none, list_del_init o (put o counted h))
      else some (some 0, list_del_init o (put o (record counted { mark = 1 }) h))

-- Stage 2: mark with 2, or revive. A state that is not 0 revives.
unfoldable pub di_collect_garbage_scan : Pre
di_collect_garbage_scan o revive h = do
  ob ← deref o h
  check (leb ob.ref_count_scan ob.ref_count)
  if not (revive == 0) || not (ob.ref_count_scan == ob.ref_count)
      then if ob.mark == 0
        then some (none, h)
        else some (some 1, put o (record ob { ref_count_scan = 0; mark = 0 }) h)
      else if ob.mark == 2 || ob.mark == 0
      then some (none, h)
      else some (some 0, put o (record ob { mark = 2 }) h)

-- Stage 3: mark with 3 and keep alive; then finalize, from the leaves.
unfoldable pub di_collect_garbage_collect_pre : Pre
unfolding di_ref_object
di_collect_garbage_collect_pre o state h = do
  ob ← deref o h
  if ob.mark == 0 || ob.mark == 3 then some (none, h) else (do
    kept ← di_ref_object o h
    held ← deref o kept
    some (some 0, put o (record held { mark = 3 }) kept))

-- One root: marked, its own visit not counted, and put into the list of isolated roots.
unfoldable pub mark_root : ℕ → ℕ → Heap → Option Heap
unfolding scan_object di_collect_garbage_mark
mark_root fuel i h = do
  ob ← deref i h
  check (ob.mark == 0)
  scanned ← scan_object di_collect_garbage_mark nothing fuel i 0 h
  left ← deref i scanned
  let back = put i (record left { ref_count_scan = decrement left.ref_count_scan }) scanned
  some (record back { isolated = i ∷ back.isolated })

-- The loop of stage 1, on fuel for its rounds and for its scans.
unfoldable pub mark_roots : ℕ → ℕ → Heap → Option Heap
unfolding mark_root
mark_roots fuel zero h = none
mark_roots fuel (suc n) h = elim h.unreferred [
  | [] ↦ some h
  | i ∷ is ↦ mark_root fuel i h >>= λ h'. mark_roots fuel n h'
]

-- list_for_each_entry, over stage 2
unfoldable pub scan_roots : ℕ → List ℕ → Heap → Option Heap
unfolding scan_object di_collect_garbage_scan
scan_roots fuel [] h = some h
scan_roots fuel (i ∷ is) h =
    scan_object di_collect_garbage_scan nothing fuel i 0 h >>= λ h'. scan_roots fuel is h'

-- list_for_each_entry_safe: revived roots leave the list.
unfoldable pub drop_revived : List ℕ → Heap → Option Heap
unfolding list_del_init
drop_revived [] h = some h
drop_revived (i ∷ is) h = do
  ob ← deref i h
  check (ob.mark == 0 || ob.mark == 2)
  drop_revived is (if ob.mark == 2 then h else list_del_init i h)

module _ (run_dtor : ℕ → ℕ → Heap → Option Heap) where
  unfoldable pub di_collect_garbage_collect_post : ℕ → ℕ → Heap → Option Heap
  unfolding di_finalize_object_inner di_unref_object
  di_collect_garbage_collect_post fuel o h = do
    ob ← deref o h
    check (ob.mark == 3)
    done ← di_finalize_object_inner (di_unref_object run_dtor fuel) run_dtor o h
    di_unref_object run_dtor fuel o done

  -- The loop of stage 3: the last reference to a root takes it out of the list.
  unfoldable pub collect_roots : ℕ → ℕ → Heap → Option Heap
  unfolding scan_object di_collect_garbage_collect_pre di_collect_garbage_collect_post
  collect_roots fuel zero h = none
  collect_roots fuel (suc n) h = elim h.isolated [
    | [] ↦ some h
    | i ∷ is ↦
        scan_object di_collect_garbage_collect_pre (di_collect_garbage_collect_post fuel) fuel i 0 h
        >>= λ h'. collect_roots fuel n h'
  ]

  -- One round of `di_collect_garbage`. The list of isolated roots starts empty.
  unfoldable pub collect_round : ℕ → Heap → Option Heap
  unfolding mark_roots scan_roots drop_revived collect_roots
  collect_round fuel h = do
    marked ← mark_roots fuel fuel (record h { isolated = [] })
    colored ← scan_roots fuel marked.isolated marked
    isolated ← drop_revived colored.isolated colored
    collect_roots fuel fuel isolated

  -- The rounds, as long as a round leaves unreferred objects.
  unfoldable pub di_collect_garbage : ℕ → ℕ → Heap → Option Heap
  unfolding collect_round
  di_collect_garbage fuel zero h = none
  di_collect_garbage fuel (suc n) h = elim h.unreferred [
    | [] ↦ some h
    | i ∷ is ↦ collect_round fuel h >>= λ h'. di_collect_garbage fuel n h'
  ]
