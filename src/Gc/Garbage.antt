-- ===== src/Gc/Garbage.antt =====
-- What the collector of object.c takes for garbage: stages 1 and 2 together, over the ledger.
use deai.Common.{
  ℕ, ◌+◌, ◌*◌, ◌≤◌, ◌<◌, true, List, [], ◌∷◌, some, ◌≡◌, ◌≢◌, inl, inr, sym, ap, subst, ◌∙◌, arith,
  ◌==◌, if◌then◌else◌, length, Option-cases, ℕ_discrete,
}
use deai.Heap.{Object, Heap, cell, deref, mem}
use deai.Heap.Sums.{strong_members}
use deai.Refs.Counts.{Counted, strong_in}
use deai.Gc.{mark_roots, scan_roots, drop_revived}
use deai.Gc.Recolor.{
  scanned_members, scanned_members-le, Cells, Cells-map, Cells-trans, Cells-cell, Cells-back,
  total_le_double, total-tight,
}
use deai.Gc.Mark.{Darker, from_marked, marked_refs, mark_in, Lit, Walk, here, step}
use deai.Gc.Roots.{Rooted, mark_roots-Rooted}
use deai.Gc.Scan.{Fade-members, Fade-mark, Ready-Fade, Scanning, mark_of}
use deai.Gc.Visit.{listed, scan_roots-Scanning}
use deai.Gc.Revived.{drop-roots}
use deai.Gc.Start.{
  Unmarked, start, base_of, start-Rooted, low_mark, count-le, marked_refs-le, marked-Ready,
  low_heat,
}

listed-mem : (q : ℕ) (is : List ℕ) → 0 < listed q is → mem q is ≡ true
unfolding listed mem
listed-mem q [] pos = absurd (omega arith)
listed-mem q (p ∷ ps) pos = ground (arith, listed-mem q ps)

mem-listed : (q : ℕ) (is : List ℕ) → mem q is ≡ true → 0 < listed q is
unfolding listed mem
mem-listed q [] i = cc
mem-listed q (p ∷ ps) i = ground (arith, mem-listed q ps)

-- All that leads to a garbage object is a member of garbage.
abbrev pub Garbage : (ℕ → ℕ) → Heap → ℕ → Type 0
Garbage S h o =
    (S o ≡ 0)
    × ((p : ℕ) (ob : Object) → deref p h ≡ some ob → 0 < strong_members o ob.members → ob.mark ≡ 2)

-- Only the scan count and the mark of an object change.
abbrev pub Recolored : Object → Object → Type 0
Recolored a b = b ≡ record a { ref_count_scan = b.ref_count_scan; mark = b.mark }

Recolored-trans : (a b c : Object) → Recolored a b → Recolored b c → Recolored a c
Recolored-trans a b c x y =
    y ∙ ap {A = Object} (λ z. record z { ref_count_scan = c.ref_count_scan; mark = c.mark }) x

-- What the two stages and the removal of the revived roots leave.
pub record Isolated (S : ℕ → ℕ) (h h' : Heap) : Type 0 where
  pub same : Cells Recolored h.cells h'.cells
  pub garbage : (o : ℕ) → mark_of o h' ≡ 2 → Garbage S h' o
  pub roots : (r : ℕ) → mem r h'.isolated ≡ true → mark_of r h' ≡ 2

module _ {S W D : ℕ → ℕ} (h : Heap) (c : Counted S W D h) (u : Unmarked h) (h1 h2 : Heap)
    (k : Rooted h.unreferred (base_of h) h1) (x : Cells Darker h.cells h1.cells)
    (s : Scanning (base_of h) (λ q. listed q h1.isolated) 0 h1 h2) where
  pub small_mark : (q : ℕ) → mark_of q h2 ≤ 2
  small_mark q = elim (Option-cases (deref q h2)) [
    | inl e ↦ rw e (omega arith)
    | inr (b, e) ↦ omega (
      arith,
      ap mark_in e,
      ((Ready-Fade (base_of h) h1 h2 s.frame (marked-Ready h c u h1 k x)).fine q b e).1,
    )
  ]

  -- An object that stage 2 came by leads to no object that it did not come by.
  next_seen :
      (p q : ℕ)
      → Lit h1 p
      → mark_of p h2 ≢ 1
      → 0 < scanned_members q (base_of h p)
      → mark_of q h2 ≢ 1
  next_seen p q lit ne pos =
      let g = s.closed p (λ e. ne (e ∙ lit)) in
      elim (ℕ_discrete (mark_of p h2) 2) [
        | yes two ↦ g.garbage two q pos
        | no other ↦ λ one. absurd (omega (arith, one, g.alive (gone other) q pos))
      ]
    where
      gone : mark_of p h2 ≢ 2 → mark_of p h2 ≡ 0
      gone other = let low = small_mark p in ground (arith, low, ne, other)

  along : {p q : ℕ} → Walk (base_of h) (Lit h1) p q → mark_of p h2 ≢ 1 → mark_of q h2 ≢ 1
  along (here l) ne = ne
  along (step {p} {q} l pos w) ne = along w (next_seen p q l ne pos)

  pub no_ones : (q : ℕ) → mark_of q h2 ≢ 1
  no_ones q one = elim (ℕ_discrete (mark_of q h1) 1) [
    | no other ↦ absurd ((Fade-mark h1 h2 q s.frame).1 other one)
    | yes lit ↦
        let (r, i, w) = k.reached q lit in
        absurd (along w (s.seen r (mem-listed r h1.isolated i)) one)
  ]

  module _ (o : ℕ) (ob : Object) (e : deref o h2 ≡ some ob) (two : ob.mark ≡ 2) where
    -- Every reference to a garbage object was counted.
    all_counted : (S o ≡ 0) × (strong_in o h1 ≤ marked_refs o h1)
    all_counted =
        let (a, at, d) = Cells-back o s.frame e in
        let (r, n) = count-le h c u h1 k x o a at in
        let low : a.mark ≤ 1 = omega (arith, low_mark h c u h1 k x o, ap mark_in at) in
        let full : a.ref_count_scan ≡ a.ref_count = ground (arith, d.change, two, low) in
        let most = marked_refs-le h c u h1 k x o in
        (omega (arith, r, n, full, most), omega (arith, r, n, full, most))

    holder_lit :
        (p : ℕ) (a : Object)
        → deref p h1 ≡ some a
        → 0 < strong_members o a.members
        → (a.mark ≡ 1) × (0 < scanned_members o a.members)
    holder_lit p a at pos =
        let same : from_marked o a ≡ strong_members o a.members =
          total-tight (from_marked o) (λ z. strong_members o z.members) h1.cells p a less
            all_counted.1 at in
        ground (arith, same, pos)
      where
        less : (z : Object) → from_marked o z ≤ strong_members o z.members
        less z = let le = scanned_members-le o z.members in ground (arith, le)

    pub two-Garbage : Garbage S h2 o
    two-Garbage = (all_counted.0, λ p b at pos. holder p b at pos)
      where
        holder :
            (p : ℕ) (b : Object) → deref p h2 ≡ some b → 0 < strong_members o b.members → b.mark ≡ 2
        holder p b at pos =
            let (a, there, d) = Cells-back p s.frame at in
            let (lit, scan) =
              holder_lit p a there
                (subst (λ ms. 0 < strong_members o ms) (Fade-members a b d) pos) in
            let ne : mark_of p h2 ≢ 1 = no_ones p in
            let good = s.closed p (λ same. ne (same ∙ (ap mark_in there ∙ lit))) in
            let dead : mark_of p h2 ≢ 0 = λ z. absurd (
              omega (
                arith,
                two,
                ap mark_in e,
                good.alive z o (subst (λ ms. 0 < scanned_members o ms) (k.based p a there) scan),
              )) in
            let low = small_mark p in sym (ap mark_in at) ∙ ground (arith, low, ne, dead)

  pub stage-Garbage : (o : ℕ) → mark_of o h2 ≡ 2 → Garbage S h2 o
  stage-Garbage o two = elim (Option-cases (deref o h2)) [
    | inl e ↦ absurd (omega (arith, ap mark_in e, two))
    | inr (ob, e) ↦ two-Garbage o ob e (sym (ap mark_in e) ∙ two)
  ]

  pub root-left :
      (q : ℕ)
      → mem q h2.isolated ≡ true
      → (ob : Object) × (deref q h2 ≡ some ob) × (ob.mark ≤ 2) × (ob.mark ≢ 1)
  root-left q i =
      let (a, at) = k.kept q (subst (λ is. mem q is ≡ true) s.roots i) in
      let (b, there, d) = Cells-cell q s.frame at in
      (
        b,
        there,
        omega (arith, small_mark q, ap mark_in there),
        λ one. no_ones q (ap mark_in there ∙ one),
      )

  pub whole-Recolored : Cells Recolored h.cells h2.cells
  whole-Recolored =
      Cells-trans Recolored-trans (Cells-map (λ a b d. d.same) x)
        (Cells-map (λ a b d. d.same) s.frame)

-- Both stages return.
pub stages-run :
    {S W D : ℕ → ℕ} (fuel : ℕ) (h : Heap)
    → Counted S W D h
    → Unmarked h
    → 2 * length h.cells + length h.unreferred < fuel
    → (h1 h2 : Heap) × (mark_roots fuel fuel (start h) ≡ some h1)
      × (scan_roots fuel h1.isolated h1 ≡ some h2)
      × Rooted h.unreferred (base_of h) h1
      × Cells Darker h.cells h1.cells
      × Scanning (base_of h) (λ q. listed q h1.isolated) 0 h1 h2
      × (h1.unreferred ≡ [])
stages-run fuel h c u enough =
    let (h1, run1, k, x, empty) =
      mark_roots-Rooted (base_of h) fuel fuel (start h) (start-Rooted h c u)
        (omega (
          arith,
          total_le_double (λ ob. if ob.mark == 1 then 0 else 1) (λ a. ground arith) h.cells,
        ))
        (omega arith) in
    let (h2, run2, s) =
      scan_roots-Scanning (base_of h) fuel h1.isolated h1
        (λ q pos. k.kept q (listed-mem q h1.isolated pos)) (marked-Ready h c u h1 k x)
        (omega (arith, low_heat h c u h1 k x)) in
    (h1, h2, run1, run2, k, x, s, empty)

-- On a heap whose counts are right, with no object marked or counted by a scan, and with more fuel
-- than twice the cells and the list of unreferred objects: the stages that look for garbage end, and
-- no assertion in them fails. They change nothing of an object but its mark and scan count. No
-- reference from outside leads to an object that they mark with 2, and each object whose members
-- hold such an object is marked with 2 itself. The roots left for stage 3 are marked with 2.
pub stages-Isolated :
    {S W D : ℕ → ℕ} (fuel : ℕ) (h : Heap)
    → Counted S W D h
    → Unmarked h
    → 2 * length h.cells + length h.unreferred < fuel
    → (h1 h2 h3 : Heap) × (mark_roots fuel fuel (start h) ≡ some h1)
      × (scan_roots fuel h1.isolated h1 ≡ some h2)
      × (drop_revived h2.isolated h2 ≡ some h3)
      × Isolated S h h3
stages-Isolated {S} fuel h c u enough =
    let (h1, h2, run1, run2, k, x, s, empty) = stages-run fuel h c u enough in
    let (h3, run3, same, left) = drop-roots h2.isolated h2 (root-left h c u h1 h2 k x s) in
    (
      h1,
      h2,
      h3,
      run1,
      run2,
      run3,
      isolated h2 h3 same (whole-Recolored h c u h1 h2 k x s) (stage-Garbage h c u h1 h2 k x s)
          (λ r i. let (linked, two) = left r i in two linked),
    )
  where
    isolated :
        (h2 h3 : Heap)
        → h3.cells ≡ h2.cells
        → Cells Recolored h.cells h2.cells
        → ((o : ℕ) → mark_of o h2 ≡ 2 → Garbage S h2 o)
        → ((r : ℕ) → mem r h3.isolated ≡ true → mark_of r h2 ≡ 2)
        → Isolated S h h3
    isolated h2 h3 e x g r = record {
      same = subst (λ cs. Cells Recolored h.cells cs) (sym e) x;
      garbage =
          subst (λ cs. (o : ℕ) → mark_in (cell cs o) ≡ 2 → Garbage S (record h2 { cells = cs }) o)
            (sym e) g;
      roots = λ q i. subst (λ cs. mark_in (cell cs q) ≡ 2) (sym e) (r q i);
    }
