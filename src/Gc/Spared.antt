-- ===== src/Gc/Spared.antt =====
-- What the collector of object.c leaves alive: stages 1 and 2 together, over the ledger.
use deai.Common.{
  ℕ, ◌+◌, ◌*◌, ◌<◌, true, List, [], ◌∷◌, some, ◌≡◌, inl, inr, arith, length, ◌≢◌, refl,
}
use deai.Heap.{Heap, mem}
use deai.Refs.Counts.{Counted, strong_in}
use deai.Gc.{mark_roots, scan_roots}
use deai.Gc.Recolor.{Cells}
use deai.Gc.Mark.{Darker, marked_refs, Lit}
use deai.Gc.Roots.{Rooted}
use deai.Gc.Scan.{Reach, Scanning, mark_of}
use deai.Gc.Visit.{listed}
use deai.Gc.Start.{Unmarked, start, base_of, count-le, marked_refs-le}
use deai.Gc.Garbage.{stages-run, small_mark, no_ones}

-- Nothing reaches `q` from an object that has references outside the members of marked objects.
abbrev pub Unheld : (ℕ → ℕ) → Heap → Heap → ℕ → Type 0
Unheld S h h1 q = (p : ℕ) → marked_refs p h1 < S p + strong_in p h1 → Reach (base_of h) p q → ⊥

Unheld-two :
    {S W D : ℕ → ℕ} (h : Heap) (c : Counted S W D h) (u : Unmarked h) (h1 h2 : Heap)
    → (k : Rooted h.unreferred (base_of h) h1) → (x : Cells Darker h.cells h1.cells)
    → (s : Scanning (base_of h) (λ q. listed q h1.isolated) 0 h1 h2) → (q : ℕ) → Lit h1 q
    → Unheld S h h1 q
    → mark_of q h2 ≡ 2
Unheld-two {S} h c u h1 h2 k x s q lit un =
    let small = small_mark h c u h1 h2 k x s q in
    let ne = no_ones h c u h1 h2 k x s q in
    let gone : mark_of q h2 ≢ 0 = λ z. elim (s.cause q z (λ z1. absurd (omega (arith, z1, lit)))) [
      | inr (ne0, p, pos, w) ↦ absurd (ne0 refl)
      | inl (p, (ob, e, short, dark), w) ↦
          let (r, n) = count-le h c u h1 k x p ob e in
          un p (ground (arith, r, n, short, marked_refs-le h c u h1 k x p)) w
    ] in
    ground (arith, small, ne, gone)

none-linked : (q : ℕ) (is : List ℕ) → is ≡ [] → mem q is ≡ true → ⊥
unfolding mem
none-linked q [] e i = cc
none-linked q (p ∷ ps) e i = cc

-- On a heap whose counts are right, with no object marked or counted by a scan, and with more fuel
-- than twice the cells and the list of unreferred objects: stage 1 ends and marks every object of
-- the list, and stage 2 ends and marks with 2 each object that stage 1 marked and that no object
-- reaches, by references in members, which has references besides those in marked objects.
pub stages-collect :
    {S W D : ℕ → ℕ} (fuel : ℕ) (h : Heap)
    → Counted S W D h
    → Unmarked h
    → 2 * length h.cells + length h.unreferred < fuel
    → (h1 h2 : Heap) × (mark_roots fuel fuel (start h) ≡ some h1)
      × (scan_roots fuel h1.isolated h1 ≡ some h2)
      × ((q : ℕ) → mem q h.unreferred ≡ true → mark_of q h1 ≡ 1)
      × ((q : ℕ) → mark_of q h1 ≡ 1 → Unheld S h h1 q → mark_of q h2 ≡ 2)
stages-collect {S} fuel h c u enough =
    let (h1, h2, run1, run2, k, x, s, empty) = stages-run fuel h c u enough in
    (
      h1,
      h2,
      run1,
      run2,
      λ q i. elim (k.visited q i) [
        | inr l ↦ l
        | inl j ↦ absurd (none-linked q h1.unreferred empty j)
      ],
      λ q l un. Unheld-two h c u h1 h2 k x s q l un,
    )
