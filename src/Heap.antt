-- ===== src/Heap.antt =====
-- The heap of objects: `di_object_internal` and `di_member` of di_internal.h. The member table
-- (uthash) is the list of its entries in the order of their insertion, in which HASH_ITER walks.
-- A count is a plain number: a reference takes memory, so that a uint64_t does not overflow.
pub mod Sums
use deai.Common.{
  ℕ, zero, suc, ◌+◌, Bool, true, false, not, List, [], ◌∷◌, ◌++◌, Option, none, some, set, ◌==◌,
  ◌||◌, ◌≡◌, ◌≢◌, refl, ap, if◌then◌else◌, ◌>>=◌, length, ◌<◌, arith, ◌≤◌, ◌&&◌, get_elem?,
}
use deai.Common.Int.{ℤ}
use deai.Text.{Text, di_string_eq}
use deai.Value.{Value}

pub record Member : Type 0 where
  pub name : Text
  pub value : Value

-- `dtor` and `call` are numbers of functions; the members stand in the order of insertion. The count
-- `nhandlers` follows the fields of an object only in a `struct di_signal`, and the table
-- `anonymous_roots`, in the order of insertion, only in a `struct di_roots`.
pub record Object : Type 0 where
  pub members : List Member
  pub dtor : Option ℕ
  pub call : Option ℕ
  pub ref_count : ℕ
  pub weak_ref_count : ℕ
  pub ref_count_scan : ℕ
  pub mark : ℕ
  pub destroyed : Bool
  pub nhandlers : Option ℤ
  pub anonymous_roots : List ℕ

-- A cell that was freed holds `none`. `unreferred` is the list `unreferred_objects`, and `isolated`
-- the list of roots of the collector that runs; an object is in one of them when its
-- `unreferred_siblings` is linked.
pub record Heap : Type 0 where
  pub cells : List (Option Object)
  pub unreferred : List ℕ
  pub isolated : List ℕ

-- The object in a cell; `none` is a pointer to freed memory, or to none.
abbrev pub cell : List (Option Object) → ℕ → Option Object
cell [] o = none
cell (c ∷ cs) zero = c
cell (c ∷ cs) (suc o) = cell cs o

abbrev pub deref : ℕ → Heap → Option Object
deref o h = cell h.cells o

-- Writes an object back.
abbrev pub put : ℕ → Object → Heap → Heap
put o ob h = record h { cells = set h.cells o (some ob) }

-- free ()
abbrev pub free : ℕ → Heap → Heap
free o h = record h { cells = set h.cells o none }

unfoldable pub mem : ℕ → List ℕ → Bool
mem o [] = false
mem o (p ∷ ps) = o == p || mem o ps

unfoldable pub unlink : ℕ → List ℕ → List ℕ
unlink o [] = []
unlink o (p ∷ ps) = let rest = unlink o ps in if o == p then rest else p ∷ rest

-- Only the first entry is taken out.
unfoldable pub without : ℕ → List ℕ → List ℕ
without p [] = []
without p (q ∷ qs) = let rest = without p qs in if q == p then qs else q ∷ rest

-- list_del_init of `unreferred_siblings`
unfoldable pub list_del_init : ℕ → Heap → Heap
unfolding unlink
list_del_init o h = record h { unreferred = unlink o h.unreferred; isolated = unlink o h.isolated }

-- list_empty (&obj->unreferred_siblings), negated
unfoldable pub is_linked : ℕ → Heap → Bool
unfolding mem
is_linked o h = mem o h.unreferred || mem o h.isolated

-- list_add to `unreferred_objects`
unfoldable pub list_add : ℕ → Heap → Heap
list_add o h = record h { unreferred = o ∷ h.unreferred }

-- HASH_FIND
unfoldable pub find_member : Text → List Member → Option Member
find_member name [] = none
find_member name (m ∷ ms) = if di_string_eq m.name name then some m else find_member name ms

-- HASH_DEL
unfoldable pub remove_member : Text → List Member → List Member
remove_member name [] = []
remove_member name (m ∷ ms) = if di_string_eq m.name name then ms else m ∷ remove_member name ms

pub cell-set_self :
    (cs : List (Option Object)) (o : ℕ) (c : Option Object) {ob : Object}
    → cell cs o ≡ some ob
    → cell (set cs o c) o ≡ c
cell-set_self [] o c h = cc
cell-set_self (d ∷ cs) zero c h = refl
cell-set_self (d ∷ cs) (suc o) c h = cell-set_self cs o c h

pub cell-set_ne :
    (cs : List (Option Object)) (o q : ℕ) (c : Option Object)
    → q ≢ o
    → cell (set cs o c) q ≡ cell cs q
cell-set_ne [] o q c h = refl
cell-set_ne (d ∷ cs) zero zero c h = absurd (h refl)
cell-set_ne (d ∷ cs) zero (suc q) c h = refl
cell-set_ne (d ∷ cs) (suc o) zero c h = refl
cell-set_ne (d ∷ cs) (suc o) (suc q) c h = cell-set_ne cs o q c (λ e. h (ap suc e))
