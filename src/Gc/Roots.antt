-- ===== src/Gc/Roots.antt =====
-- Stage 1 of the collector over all unreferred objects: `mark_roots` for object.c.
use deai.Common.{
  ℕ, zero, suc, ◌+◌, ◌≤◌, ◌<◌, true, false, List, [], ◌∷◌, some, set, ◌≡◌, ◌⊎◌, inl, inr, refl, sym,
  ap, subst, ◌∙◌, arith, ◌==◌, if◌then◌else◌, length, ℕ_discrete,
}
use deai.Value.{one_at}
use deai.Heap.{Member, Object, Heap, deref, mem, unlink, cell-set_self, cell-set_ne}
use deai.Heap.Sums.{total-set}
use deai.Refs.{decrement}
use deai.Refs.Steps.{one_at_self, one_at-ne}
use deai.Gc.{scan_object, nothing, di_collect_garbage_mark, mark_root, mark_roots}
use deai.Gc.Recolor.{
  scanned_members, Cells, Cells-refl, Cells-trans, Cells-cell, Cells-set, Cells-total_le, scan_in,
  Followed, Based,
}
use deai.Gc.Mark.{
  Darker, Darker-refl, Darker-trans, from_marked, marked_refs, unmarked, count_in, scan_count,
  mark_in, Lit, Walk, Found, Marking, Walk-mono, Walk-trans, Lit-frame, Based-frame, Followed-frame,
  scan_in-frame,
}
use deai.Gc.Visited.{mark-object, mark-Marks, enter-Marking, length-unlink, lit_after}

-- Between two roots: the scan counts are those of the references in marked objects, every marked
-- object is reached from an isolated root, and the roots that are left are allocated and not marked.
pub record Rooted (us : List ℕ) (base : ℕ → List Member) (h : Heap) : Type 0 where
  pub balanced : (q : ℕ) → scan_count q h ≡ marked_refs q h
  pub reached : (q : ℕ) → Lit h q → (r : ℕ) × (mem r h.isolated ≡ true) × Walk base (Lit h) r q
  pub kept : (q : ℕ) → mem q h.isolated ≡ true → (ob : Object) × (deref q h ≡ some ob)
  pub left :
      (q : ℕ) → mem q h.unreferred ≡ true → (ob : Object) × (deref q h ≡ some ob) × (ob.mark ≡ 0)
  pub visited : (q : ℕ) → mem q us ≡ true → (mem q h.unreferred ≡ true) ⊎ Lit h q
  pub based : Based base h
  pub followed : Followed (λ q. scan_in q h) h

-- The marks only grow, and so do the references in marked objects.
marked_refs_grow :
    (h h' : Heap) (q : ℕ) → Cells Darker h.cells h'.cells → marked_refs q h ≤ marked_refs q h'
marked_refs_grow h h' q x = Cells-total_le (from_marked q) (from_marked q) (λ a b d. grow a b d) x
  where
    grow : (a b : Object) → Darker a b → from_marked q a ≤ from_marked q b
    grow a b d =
        let same : a.members ≡ b.members = ap (λ (z : Object). z.members) (sym d.same) in
        ground (arith, d.dark, ap (scanned_members q) same)

one_at_pos : (i p : ℕ) → 0 < one_at i p → p ≡ i
one_at_pos i p h = ground arith

-- One root, from the heap `h2` that its scan leaves: `lf` is the root there.
module _ {us : List ℕ} (base : ℕ → List Member) (h h2 : Heap) (i : ℕ) (ob lf : Object)
    (e : deref i h ≡ some ob) (zero_mark : ob.mark ≡ 0) (k : Rooted us base h)
    (m : Marking base (one_at i) h h2) (at : deref i h2 ≡ some lf) (lit : Lit h2 i) where
  abbrev back : Object
  back = record lf { ref_count_scan = decrement lf.ref_count_scan }

  abbrev rooted : Heap
  rooted = record {
    cells = set h2.cells i (some back);
    unreferred = h2.unreferred;
    isolated = i ∷ h2.isolated;
  }

  pub back-frame : Cells Darker h2.cells rooted.cells
  back-frame = Cells-set h2.cells i back Darker-refl at (record { same = refl; dark = inl refl })

  whole-frame : Cells Darker h.cells rooted.cells
  whole-frame = Cells-trans Darker-trans m.frame back-frame

  back-refs : (q : ℕ) → marked_refs q rooted ≡ marked_refs q h2
  back-refs q = omega (arith, total-set (from_marked q) h2.cells i lf back at)

  was_counted : (q : ℕ) → scan_count q h2 ≡ marked_refs q h2 + one_at i q
  was_counted q = omega (arith, m.counts q, k.balanced q)

  back-balanced : (q : ℕ) → scan_count q rooted ≡ marked_refs q rooted
  back-balanced q = elim (ℕ_discrete q i) [
    | yes p ↦
        subst (λ x. scan_count x rooted ≡ marked_refs x rooted) (sym p)
          (rw (cell-set_self h2.cells i (some back) at, back-refs i)
            (ground (arith, was_counted i, one_at_self i, ap count_in at)))
    | no ne ↦
        rw (cell-set_ne h2.cells i q (some back) ne, back-refs q)
          (omega (arith, was_counted q, one_at-ne i q ne))
  ]

  lit_back : (q : ℕ) → Lit rooted q → Lit h2 q
  lit_back q l = elim (ℕ_discrete q i) [
    | yes p ↦ subst (λ x. Lit h2 x) (sym p) lit
    | no ne ↦ rw (← cell-set_ne h2.cells i q (some back) ne) l
  ]

  lit_on : (q : ℕ) → Lit h2 q → Lit rooted q
  lit_on = Lit-frame h2 rooted back-frame

  head_linked : mem i (i ∷ h2.isolated) ≡ true
  unfolding mem
  head_linked = ground arith

  tail_linked : (q : ℕ) → mem q h2.isolated ≡ true → mem q (i ∷ h2.isolated) ≡ true
  unfolding mem
  tail_linked q j = ground (arith, j)

  linked_cases : (q : ℕ) → mem q (i ∷ h2.isolated) ≡ true → (q ≡ i) ⊎ (mem q h2.isolated ≡ true)
  unfolding mem
  linked_cases q j = ground (arith, j)

  -- What was found in the scan of the root is reached from it.
  from_root : (q : ℕ) → Found base (one_at i) h2 q → Walk base (Lit rooted) i q
  from_root q (p, pos, w) =
      subst (λ x. Walk base (Lit rooted) x q) (one_at_pos i p pos) (Walk-mono lit_on w)

  back-reached :
      (q : ℕ)
      → Lit rooted q
      → (r : ℕ) × (mem r (i ∷ h2.isolated) ≡ true) × Walk base (Lit rooted) r q
  back-reached q l = elim (m.reach q (lit_back q l)) [
    | inr f ↦ (i, head_linked, from_root q f)
    | inl old ↦
        let (r, j, w) = k.reached q old in
        let v = Walk-mono (Lit-frame h rooted whole-frame) w in
        elim (m.stays r j) [
          | inl on ↦ (r, tail_linked r on, v)
          | inr f ↦ (i, head_linked, Walk-trans (from_root r f) v)
        ]
  ]

  back-kept : (q : ℕ) → mem q (i ∷ h2.isolated) ≡ true → (x : Object) × (deref q rooted ≡ some x)
  back-kept q j = elim (linked_cases q j) [
    | inl p ↦ (
      back,
      subst (λ x. deref x rooted ≡ some back) (sym p) (cell-set_self h2.cells i (some back) at),
    )
    | inr on ↦
        let (x, there) = k.kept q (m.within q on) in
        let (y, then_, d) = Cells-cell q whole-frame there in (y, then_)
  ]

  back-left :
      (q : ℕ) → mem q h2.unreferred ≡ true → (x : Object) × (deref q rooted ≡ some x) × (x.mark ≡ 0)
  back-left q j =
      let (was, f) = m.out q j in
      let (x, there, dark) = k.left q was in
      let (y, then_, d) = Cells-cell q whole-frame there in
      (
        y,
        then_,
        elim d.dark [
          | inl same ↦ same ∙ dark
          | inr one ↦
              absurd
                (omega (arith, f (lit_back q (ap mark_in then_ ∙ one)), ap mark_in there, dark))
        ],
      )

  pub back-Rooted : Rooted us base rooted
  back-Rooted = record {
    balanced = back-balanced;
    reached = back-reached;
    kept = back-kept;
    left = back-left;
    visited = λ q i. elim (k.visited q i) [
      | inr l ↦ inr (Lit-frame h rooted whole-frame q l)
      | inl j ↦ elim (m.drops q j) [ inl on ↦ inl on | inr l ↦ inr (lit_on q l) ]
    ];
    based = Based-frame base h rooted whole-frame k.based;
    followed = λ q p.
        Followed-frame h rooted whole-frame k.followed q
          (omega (arith, p, scan_in-frame h rooted q whole-frame));
  }

root-run :
    (n i : ℕ) (h h2 : Heap) (ob lf : Object)
    → deref i h ≡ some ob
    → ob.mark ≡ 0
    → scan_object di_collect_garbage_mark nothing n i 0 h ≡ some h2
    → deref i h2 ≡ some lf
    → mark_root n i h
      ≡ some (record {
        cells = set h2.cells i (some (record lf { ref_count_scan = decrement lf.ref_count_scan }));
        unreferred = h2.unreferred;
        isolated = i ∷ h2.isolated;
      })
unfolding mark_root
root-run n i h h2 ob lf e z run at = rw (e, z, run, at) refl

unlink-head : (i : ℕ) (is : List ℕ) → length (unlink i (i ∷ is)) < length (i ∷ is)
unfolding unlink
unlink-head i is = ground (arith, length-unlink i is)

mem-head : (i : ℕ) (is : List ℕ) → mem i (i ∷ is) ≡ true
unfolding mem
mem-head i is = ground arith

-- A round of the loop: the first unreferred object.
root_round :
    {us : List ℕ} (base : ℕ → List Member) (n i : ℕ) (is : List ℕ) (h : Heap)
    → h.unreferred ≡ i ∷ is
    → Rooted us base h
    → unmarked h < n
    → (h' : Heap) × (mark_root n i h ≡ some h')
      × Rooted us base h'
      × Cells Darker h.cells h'.cells
      × (unmarked h' ≤ unmarked h)
      × (length h'.unreferred < length h.unreferred)
root_round {us} base zero i is h u k l = absurd (omega arith)
root_round {us} base (suc n) i is h u k l =
    let (ob, e, z) = k.left i (subst (λ xs. mem i xs ≡ true) (sym u) (mem-head i is)) in
    let fresh : (ob.mark == 1) ≡ false = ground (arith, z) in
    let (h2, run, m) =
      mark-object base n i 0 h ob e (mark-Marks base n) fresh k.followed k.based l in
    let big = enter-Marking base i h h2 ob e fresh k.based m in
    let lit = lit_after base i h h2 ob e fresh k.based m in
    let (lf, at, d) = Cells-cell i big.frame e in
    let done = back-Rooted base h h2 i ob lf e z k big at lit in
    let same =
      total-set (λ (x : Object). if x.mark == 1 then 0 else 1) h2.cells i lf
        (record lf { ref_count_scan = decrement lf.ref_count_scan }) at in
    (
      rooted base h h2 i ob lf e z k big at lit,
      root-run (suc n) i h h2 ob lf e z run at,
      done,
      whole-frame base h h2 i ob lf e z k big at lit,
      omega (arith, big.fewer, same),
      subst (λ xs. length h2.unreferred < length xs) (sym u)
          (omega (arith, m.shorter, ap (λ xs. length (unlink i xs)) u, unlink-head i is)),
    )

roots-cases : (ps : List ℕ) → (ps ≡ []) ⊎ ((p : ℕ) × (rest : List ℕ) × (ps ≡ p ∷ rest))
roots-cases [] = inl refl
roots-cases (p ∷ ps) = inr (p, ps, refl)

loop-empty : (fuel n : ℕ) (h : Heap) → h.unreferred ≡ [] → mark_roots fuel (suc n) h ≡ some h
unfolding mark_roots
loop-empty fuel n h e = ground (arith, e)

loop-round :
    (fuel n i : ℕ) (is : List ℕ) (h h' : Heap)
    → h.unreferred ≡ i ∷ is
    → mark_root fuel i h ≡ some h'
    → mark_roots fuel (suc n) h ≡ mark_roots fuel n h'
unfolding mark_roots
loop-round fuel n i is h h' e run = ground (arith, e, run)

-- Stage 1 returns, with fuel for the objects and for the list.
pub mark_roots-Rooted :
    {us : List ℕ} (base : ℕ → List Member) (fuel n : ℕ) (h : Heap)
    → Rooted us base h
    → unmarked h < fuel
    → length h.unreferred < n
    → (h' : Heap) × (mark_roots fuel n h ≡ some h')
      × Rooted us base h'
      × Cells Darker h.cells h'.cells
      × (h'.unreferred ≡ [])
mark_roots-Rooted base fuel zero h k l u = absurd (omega arith)
mark_roots-Rooted base fuel (suc n) h k l u = elim (roots-cases h.unreferred) [
  | inl e ↦ (h, loop-empty fuel n h e, k, Cells-refl Darker-refl h.cells, e)
  | inr (i, is, e) ↦
      let (h1, run, k1, x, f, s) = root_round base fuel i is h e k l in
      let (h2, go, k2, y, none_left) =
        mark_roots-Rooted base fuel n h1 k1 (omega arith) (omega arith) in
      (h2, loop-round fuel n i is h h1 e run ∙ go, k2, Cells-trans Darker-trans x y, none_left)
]
