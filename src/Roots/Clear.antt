-- ===== src/Roots/Clear.antt =====
-- Clearing the named roots: main.c, `di_clear_roots`.
use deai.Common.{
  ℕ, suc, ◌<◌, true, false, List, [], ◌∷◌, ◌++◌, append_assoc, Option, none, some, ◌≡◌, refl, sym,
  ap, ◌∙◌, arith, length, if◌then◌else◌, Bool-cases, inl, inr, ◌>>=◌,
}
use deai.Text.{chars, di_string_eq, di_string_starts_with}
use deai.Text.Slice.{string_eq_iff}
use deai.Value.{Value, one_at, strong, weak}
use deai.Heap.{Member, Object, Heap, cell, deref, put, find_member, remove_member, cell-set_self}
use deai.Refs.{di_unref_object}
use deai.Refs.Counts.{Counted, Counted-cong}
use deai.Refs.Steps.{◌⊕◌}
use deai.Refs.Release.{less}
use deai.Refs.Unref.{held-unref}
use deai.Members.{di_delete_member_raw}
use deai.Members.Table.{Distinct, eq_false_sym, find-append_other}
use deai.Members.Ledger.{remove-Counted, delete-run}
use deai.Signals.Refines.{signal-put}
use deai.Roots.{
  root_prefix, next_of, first_name, clear_root, heap_after, clear_from, di_clear_roots,
}

-- The members that are no roots
unfoldable pub others : List Member → List Member
others [] = []
others (m ∷ ms) = if di_string_starts_with m.name root_prefix then others ms else m ∷ others ms

-- Names are not null, and what is held under a root's name is an object that the caller holds too.
abbrev pub Clearable : (ℕ → ℕ) → List Member → Type 0
Clearable S [] = Unit {0}
Clearable S (m ∷ ms) =
    ((cs : List ℕ) × (m.name ≡ chars cs))
    × (di_string_starts_with m.name root_prefix ≡ true
        → (p : ℕ) × (m.value ≡ Value.object p) × (0 < S p))
    × Clearable S ms

-- No name of the second list is in the first.
abbrev Apart : List Member → List Member → Type 0
Apart kept [] = Unit {0}
Apart kept (m ∷ ms) = (find_member m.name kept ≡ none) × Apart kept ms

name_self : (m : Member) → di_string_eq m.name m.name ≡ true
name_self m = (string_eq_iff m.name m.name).1 refl

next-middle :
    (kept : List Member) (m : Member) (rest : List Member)
    → find_member m.name kept ≡ none
    → next_of m.name (kept ++ m ∷ rest) ≡ some (first_name rest)
unfolding next_of find_member
next-middle [] m [] e = rw (name_self m) refl
next-middle [] m (n ∷ rest) e = rw (name_self m) refl
next-middle (k ∷ []) m rest e = ground (arith, next-middle [] m rest)
next-middle (k ∷ x ∷ ks) m rest e = ground (arith, next-middle (x ∷ ks) m rest)

find-middle :
    (kept : List Member) (m : Member) (rest : List Member)
    → find_member m.name kept ≡ none
    → (find_member m.name (kept ++ m ∷ rest) ≡ some m)
      × (remove_member m.name (kept ++ m ∷ rest) ≡ kept ++ rest)
unfolding find_member remove_member
find-middle [] m rest e = (rw (name_self m) refl, rw (name_self m) refl)
find-middle (k ∷ ks) m rest e =
    (ground (arith, find-middle ks m rest), ground (arith, find-middle ks m rest))

Apart-append :
    (kept : List Member) (m : Member) (ms : List Member)
    → Apart kept ms
    → find_member m.name ms ≡ none
    → Apart (kept ++ m ∷ []) ms
unfolding find_member
Apart-append kept m [] a e = tt
Apart-append kept m (n ∷ ms) a e =
    let differs : di_string_eq m.name n.name ≡ false = eq_false_sym n.name m.name (ground arith) in
    (find-append_other n.name kept m differs ∙ a.0, Apart-append kept m ms a.1 (ground arith))

Apart-nothing : (ms : List Member) → Apart [] ms
unfolding find_member
Apart-nothing [] = tt
Apart-nothing (m ∷ ms) = (refl, Apart-nothing ms)

-- What the loop does from the heap `h` on, where `kept` stands before the entries that are left
abbrev pub Clears : (S W D : ℕ → ℕ) (roots : ℕ) (left : List Member) → Option Heap → Type 0
Clears S W D roots left run =
    (h' : Heap) × (ob' : Object) × (run ≡ some h')
    × (deref roots h' ≡ some ob')
    × (ob'.members ≡ left)
    × Counted S W D h'

module _ (run_dtor : ℕ → ℕ → Heap → Option Heap) (fuel : ℕ) (S W D : ℕ → ℕ) (roots : ℕ) where
  delete-root :
      (kept : List Member) (m : Member) (rest : List Member) (cs : List ℕ) (p : ℕ) (h : Heap)
      (ob : Object)
      → Counted S W D h
      → deref roots h ≡ some ob
      → ob.members ≡ kept ++ m ∷ rest
      → find_member m.name kept ≡ none
      → di_string_starts_with m.name root_prefix ≡ true
      → m.name ≡ chars cs
      → m.value ≡ Value.object p
      → 0 < S p
      → (h' : Heap) × (ob' : Object) × (clear_root
            (di_unref_object run_dtor (suc fuel))
            roots
            m.name
            h
          ≡ some h')
        × (deref roots h' ≡ some ob')
        × (ob'.members ≡ kept ++ rest)
        × Counted S W D h'
  unfolding strong weak clear_root
  delete-root kept m rest cs p h ob c e ms apart root named value held =
      let u = di_unref_object run_dtor (suc fuel) in
      let f : find_member (chars cs) ob.members ≡ some m =
        ap (λ x. find_member x ob.members) (sym named)
        ∙ ap (find_member m.name) ms
        ∙ (find-middle kept m rest apart).0 in
      let r : remove_member (chars cs) ob.members ≡ kept ++ rest =
        ap (λ x. remove_member x ob.members) (sym named)
        ∙ ap (remove_member m.name) ms
        ∙ (find-middle kept m rest apart).1 in
      let ob1 : Object = record ob { members = remove_member (chars cs) ob.members } in
      let h1 = put roots ob1 h in
      let e1 : deref roots h1 ≡ some ob1 = cell-set_self h.cells roots (some ob1) e in
      let c1 : Counted (S ⊕ one_at p) W D h1 =
        Counted-cong (λ q. omega (arith, ap (strong q) value))
          (λ q. omega (arith, ap (weak q) value)) (λ q. refl)
          (remove-Counted roots h ob e (chars cs) m c f) in
      let (pb, h2, ep, run, cells, c2) = held-unref run_dtor fuel S W D p h1 c1 held in
      let (ob2, e2, same, kept_count) = signal-put p pb (less pb) roots ob1 h1 ep refl refl e1 in
      (
        h2,
        ob2,
        ap (λ b. if b then di_delete_member_raw u roots m.name h >>= heap_after else some h) root
            ∙ ap (λ x. x >>= heap_after)
                (ap (λ x. di_delete_member_raw u roots x h) named
                  ∙ delete-run u roots cs p h h2 ob m e f value run),
        ap (λ cs. cell cs roots) cells ∙ e2,
        same ∙ r,
        c2,
      )

  skip-other :
      (m : Member) (h : Heap)
      → di_string_starts_with m.name root_prefix ≡ false
      → clear_root (di_unref_object run_dtor (suc fuel)) roots m.name h ≡ some h
  unfolding clear_root
  skip-other m h other =
      ap
        (λ b.
          if b
          then di_delete_member_raw (di_unref_object run_dtor (suc fuel)) roots m.name h
            >>= heap_after
          else some h)
        other

  clear-run :
      (kept rest : List Member) (h : Heap) (ob : Object)
      → Counted S W D h
      → deref roots h ≡ some ob
      → ob.members ≡ kept ++ rest
      → Distinct rest
      → Apart kept rest
      → Clearable S rest
      → Clears S W D roots
          (kept ++ others rest)
          (clear_from (di_unref_object run_dtor (suc fuel)) (length rest) roots (first_name rest) h)
  unfolding clear_from others
  clear-run kept [] h ob c e ms d a k = (h, ob, refl, e, ms, c)
  clear-run kept (m ∷ rest) h ob c e ms d a k =
      let next = ap (next_of m.name) ms ∙ next-middle kept m rest a.0 in
      elim (Bool-cases (di_string_starts_with m.name root_prefix)) [
        | inl root ↦
            let (p, value, held) = k.1 root in
            let (h1, ob1, run, e1, ms1, c1) =
              delete-root kept m rest k.0.0 p h ob c e ms a.0 root k.0.1 value held in
            let (h2, ob2, runs, e2, ms2, c2) = clear-run kept rest h1 ob1 c1 e1 ms1 d.1 a.1 k.2 in
            (h2, ob2, rw (e, next, run) runs, e2, rw root ms2, c2)
        | inr other ↦
            let (h2, ob2, runs, e2, ms2, c2) =
              clear-run (kept ++ m ∷ []) rest h ob c e (ms ∙ sym (append_assoc kept (m ∷ []) rest))
                d.1 (Apart-append kept m rest a.1 d.0) k.2 in
            (
              h2,
              ob2,
              rw (e, next, skip-other m h other) runs,
              e2,
              rw other (ms2 ∙ append_assoc kept (m ∷ []) (others rest)),
              c2,
            )
      ]

-- `di_clear_roots`, on a heap whose counts are right, with distinct names that are not null and roots
-- that the caller holds besides: it returns, with one round for each member, and just the members that
-- are no roots are left, in their order; the counts are right.
pub clear_roots-Clears :
    (run_dtor : ℕ → ℕ → Heap → Option Heap) (fuel : ℕ) (S W D : ℕ → ℕ) (roots : ℕ) (h : Heap)
    (ob : Object)
    → Counted S W D h
    → deref roots h ≡ some ob
    → Distinct ob.members
    → Clearable S ob.members
    → Clears S W D roots
        (others ob.members)
        (di_clear_roots (di_unref_object run_dtor (suc fuel)) (length ob.members) roots h)
unfolding di_clear_roots
clear_roots-Clears run_dtor fuel S W D roots h ob c e d k =
    let (h', ob', run, e', ms, c') =
      clear-run run_dtor fuel S W D roots [] ob.members h ob c e refl d (Apart-nothing ob.members)
        k in
    (h', ob', rw e run, e', ms, c')
