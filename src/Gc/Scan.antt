-- ===== src/Gc/Scan.antt =====
-- Stage 2 of the collector, object.c: a scan with `di_collect_garbage_scan` ends, never fails its
-- assertion, and leaves no reference from a revived object to one that is not.
use deai.Common.{
  ℕ, ◌+◌, ◌≤◌, ◌<◌, List, [], ◌∷◌, Option, none, some, ◌≡◌, ◌⊎◌, inl, inr, refl, sym, ap, subst,
  ◌∙◌, arith, ◌==◌, if◌then◌else◌, ℕ_discrete, ◌≢◌, Option-cases, dec_lt,
}
use deai.Value.{Value, Values, end, item, object, array, tuple, variant, one_at}
use deai.Heap.{Member, Object, Heap, deref}
use deai.Heap.Sums.{total}
use deai.Gc.{di_scan_type, scan_items, scan_members}
use deai.Gc.Recolor.{
  scanned, scanned_items, scanned_members, Cells, Cells-refl, Cells-trans, Cells-cell, Cells-back,
  Cells-none, scan_in, Followed, Based, scan_in-Cells, Followed-Cells, Based-Cells,
}
use deai.Gc.Mark.{mark_in, Walk}

-- What stage 2 does to an object: mark 2 if every reference was counted, or its revival.
pub record Fade (a b : Object) : Type 0 where
  pub same : b ≡ record a { ref_count_scan = b.ref_count_scan; mark = b.mark }
  pub change :
      ((b.mark ≡ a.mark) × (b.ref_count_scan ≡ a.ref_count_scan))
      ⊎ (((a.mark ≡ 1)
            × (b.mark ≡ 2)
            × (b.ref_count_scan ≡ a.ref_count_scan)
            × (a.ref_count_scan ≡ a.ref_count))
          ⊎ ((b.mark ≡ 0) × (a.mark ≢ 0) × (b.ref_count_scan ≡ 0)))

pub Fade-refl : (a : Object) → Fade a a
Fade-refl a = record { same = refl; change = inl (refl, refl) }

pub Fade-trans : (a b c : Object) → Fade a b → Fade b c → Fade a c
Fade-trans a b c x y = record {
  same =
      y.same
      ∙ ap {A = Object} (λ z. record z { ref_count_scan = c.ref_count_scan; mark = c.mark }) x.same;
  change =
      let refs : b.ref_count ≡ a.ref_count = ap (λ (z : Object). z.ref_count) x.same in
      ground (arith, x.change, y.change, refs);
}

abbrev pub heat_of : Object → ℕ
heat_of ob = if ob.mark == 0 then 0 else if ob.mark == 1 then 2 else 1

abbrev pub heat : Heap → ℕ
heat h = total heat_of h.cells

abbrev pub mark_of : ℕ → Heap → ℕ
mark_of q h = mark_in (deref q h)

-- Before and during stage 2.
abbrev pub Fine : Heap → Type 0
Fine h =
    (q : ℕ) (ob : Object) → deref q h ≡ some ob → (ob.ref_count_scan ≤ ob.ref_count) × (ob.mark ≤ 2)

-- An object and those that its members lead to: garbage holds no object that was not looked at, and
-- a revived object holds revived ones only.
pub record Good (base : ℕ → List Member) (h : Heap) (p : ℕ) : Type 0 where
  pub garbage : mark_of p h ≡ 2 → (q : ℕ) → 0 < scanned_members q (base p) → mark_of q h ≢ 1
  pub alive : mark_of p h ≡ 0 → (q : ℕ) → 0 < scanned_members q (base p) → mark_of q h ≡ 0

-- A walk along references that a scan follows.
abbrev pub Reach : (ℕ → List Member) → ℕ → ℕ → Type 0
Reach base p q = Walk base (λ x. Unit {0}) p q

-- Not every reference to the object was counted.
abbrev pub Short : Heap → ℕ → Type 0
Short h p =
    (ob : Object) × (deref p h ≡ some ob) × (ob.ref_count_scan ≢ ob.ref_count) × (ob.mark ≢ 0)

-- Why an object is revived: it is reached from one with a reference that was not counted, or the
-- scan revives all that it reaches.
abbrev pub Cause : (ℕ → List Member) → (ℕ → ℕ) → ℕ → Heap → ℕ → Type 0
Cause base T state h q =
    ((p : ℕ) × Short h p × Reach base p q) ⊎ ((state ≢ 0) × (p : ℕ) × (0 < T p) × Reach base p q)

-- From `h` to `h'` the references `T` were followed, with this state.
pub record Scanning (base : ℕ → List Member) (T : ℕ → ℕ) (state : ℕ) (h h' : Heap) : Type 0 where
  pub frame : Cells Fade h.cells h'.cells
  pub roots : h'.isolated ≡ h.isolated
  pub cooler : heat h' ≤ heat h
  pub seen : (q : ℕ) → 0 < T q → mark_of q h' ≢ 1
  pub revived : (q : ℕ) → 0 < T q → state ≢ 0 → mark_of q h' ≡ 0
  pub closed : (p : ℕ) → mark_of p h' ≢ mark_of p h → Good base h' p
  pub cause : (q : ℕ) → mark_of q h' ≡ 0 → mark_of q h ≢ 0 → Cause base T state h q

pub Short-Fade : (h h' : Heap) (p : ℕ) → Cells Fade h.cells h'.cells → Short h' p → Short h p
Short-Fade h h' p x (b, e, ne, lit) =
    let (a, at, d) = Cells-back p x e in
    let refs : b.ref_count ≡ a.ref_count = ap (λ (z : Object). z.ref_count) d.same in
    (a, at, ground (arith, d.change, refs, ne, lit), ground (arith, d.change, lit))

Cause-more :
    {base : ℕ → List Member} {T U : ℕ → ℕ} {state : ℕ} (h h' : Heap) (q : ℕ)
    → Cells Fade h.cells h'.cells
    → ((p : ℕ) → 0 < T p → 0 < U p)
    → Cause base T state h' q
    → Cause base U state h q
Cause-more h h' q x more (inl (p, short, w)) = inl (p, Short-Fade h h' p x short, w)
Cause-more h h' q x more (inr (s, p, pos, w)) = inr (s, p, more p pos, w)

-- Mark 0 stays, and mark 1 does not come back.
pub Fade-mark :
    (h h' : Heap) (q : ℕ)
    → Cells Fade h.cells h'.cells
    → (mark_of q h ≡ 0 → mark_of q h' ≡ 0) × (mark_of q h ≢ 1 → mark_of q h' ≢ 1)
Fade-mark h h' q x = elim (Option-cases (deref q h)) [
  | inl e ↦ let e' = Cells-none q x e in rw (e, e') ((λ z. z), λ z. z)
  | inr (a, e) ↦
      let (b, at, d) = Cells-cell q x e in
      rw (e, at) ((λ z. ground (arith, d.change, z)), λ z. ground (arith, d.change, z))
]

pub Good-mono :
    (base : ℕ → List Member) (h h' : Heap) (p : ℕ)
    → Cells Fade h.cells h'.cells
    → mark_of p h' ≡ mark_of p h
    → Good base h p
    → Good base h' p
Good-mono base h h' p x same g = record {
  garbage = λ two q pos. (Fade-mark h h' q x).1 (g.garbage (sym same ∙ two) q pos);
  alive = λ none_ q pos. (Fade-mark h h' q x).0 (g.alive (sym same ∙ none_) q pos);
}

pub Scanning-trans :
    {base : ℕ → List Member} {T U V : ℕ → ℕ} {state : ℕ} (a b c : Heap)
    → ((q : ℕ) → V q ≡ T q + U q)
    → Scanning base T state a b
    → Scanning base U state b c
    → Scanning base V state a c
Scanning-trans {base} {T} {U} {V} {state} a b c sum x y = record {
  frame = Cells-trans Fade-trans x.frame y.frame;
  roots = y.roots ∙ x.roots;
  cooler = omega (arith, x.cooler, y.cooler);
  seen = λ q pos. elim (dec_lt 0 (T q)) [
    | yes t ↦ (Fade-mark b c q y.frame).1 (x.seen q t)
    | no t ↦ y.seen q (omega (arith, sum q))
  ];
  revived = λ q pos s. elim (dec_lt 0 (T q)) [
    | yes t ↦ (Fade-mark b c q y.frame).0 (x.revived q t s)
    | no t ↦ y.revived q (omega (arith, sum q)) s
  ];
  closed = λ p ne. elim (ℕ_discrete (mark_of p c) (mark_of p b)) [
    | yes same ↦ Good-mono base b c p y.frame same (x.closed p (λ e. ne (same ∙ e)))
    | no other ↦ y.closed p other
  ];
  cause = λ q z lit. elim (ℕ_discrete (mark_of q b) 0) [
    | yes gone ↦
        Cause-more a a q (Cells-refl Fade-refl a.cells) (λ p pos. omega (arith, pos, sum p))
          (x.cause q gone lit)
    | no left ↦ Cause-more a b q x.frame (λ p pos. omega (arith, pos, sum p)) (y.cause q z left)
  ];
}

pub Scanning-none :
    {base : ℕ → List Member} {T : ℕ → ℕ} {state : ℕ} (h : Heap)
    → ((q : ℕ) → T q ≡ 0)
    → Scanning base T state h h
Scanning-none h z = record {
  frame = Cells-refl Fade-refl h.cells;
  roots = refl;
  cooler = omega arith;
  seen = λ q pos. absurd (omega (arith, z q));
  revived = λ q pos s. absurd (omega (arith, z q));
  closed = λ p ne. absurd (ne refl);
  cause = λ q z lit. absurd (lit z);
}

pub Fade-members : (a b : Object) → Fade a b → b.members ≡ a.members
Fade-members a b d = ap (λ (z : Object). z.members) d.same

one-some : {o : Option Object} {a b : Object} → o ≡ some a → o ≡ some b → a ≡ b
one-some e f = ground (arith, e, f)

-- What a scan needs of a heap, besides fuel.
pub record Ready (base : ℕ → List Member) (h : Heap) : Type 0 where
  pub followed : Followed (λ q. scan_in q h) h
  pub based : Based base h
  pub fine : Fine h

none-ne : {o : Option Object} {a : Object} → o ≡ none → o ≡ some a → ⊥
none-ne e f = cc

pub Ready-Fade :
    (base : ℕ → List Member) (h h' : Heap)
    → Cells Fade h.cells h'.cells
    → Ready base h
    → Ready base h'
Ready-Fade base h h' x r = record {
  followed = λ q p.
      Followed-Cells h h' x r.followed q (omega (arith, p, scan_in-Cells Fade-members h h' q x));
  based = Based-Cells Fade-members base h h' x r.based;
  fine = λ q ob e. elim (Option-cases (deref q h)) [
    | inl lost ↦ absurd (none-ne (Cells-none q x lost) e)
    | inr (a, at) ↦
        let (b, there, d) = Cells-cell q x at in
        let refs : b.ref_count ≡ a.ref_count = ap (λ (z : Object). z.ref_count) d.same in
        subst (λ (z : Object). (z.ref_count_scan ≤ z.ref_count) × (z.mark ≤ 2)) (one-some there e)
          (ground (arith, d.change, refs, r.fine q a at))
  ];
}

-- A `visit` that scans from an object on, on heaps with less heat than `n`.
abbrev pub Scans : (ℕ → List Member) → (ℕ → ℕ → Heap → Option Heap) → ℕ → Type 0
Scans base visit n =
    (o state : ℕ) (h : Heap)
    → Followed (one_at o) h
    → Ready base h
    → heat h < n
    → (h' : Heap) × (visit o state h ≡ some h') × Scanning base (one_at o) state h h'

module _ (base : ℕ → List Member) (visit : ℕ → ℕ → Heap → Option Heap) (n : ℕ)
    (scans : Scans base visit n) where
  mutual
    unfolding di_scan_type scanned

    scan-value :
        (v : Value) (state : ℕ) (h : Heap)
        → Followed (λ q. scanned q v) h
        → Ready base h
        → heat h < n
        → (h' : Heap) × (di_scan_type visit v state h ≡ some h')
          × Scanning base (λ q. scanned q v) state h h'
    scan-value (object o) state h f r l = scans o state h f r l
    scan-value (array t vs) state h f r l = scan-items vs state h f r l
    scan-value (tuple vs) state h f r l = scan-items vs state h f r l
    scan-value (variant v) state h f r l = scan-value v state h f r l
    scan-value v state h f r l = (h, refl, Scanning-none h (λ q. refl))

    scan-items :
        (vs : Values) (state : ℕ) (h : Heap)
        → Followed (λ q. scanned_items q vs) h
        → Ready base h
        → heat h < n
        → (h' : Heap) × (scan_items visit vs state h ≡ some h')
          × Scanning base (λ q. scanned_items q vs) state h h'
    scan-items end state h f r l = (h, refl, Scanning-none h (λ q. refl))
    scan-items (item v vs) state h f r l =
        let (h1, run, x) = scan-value v state h (λ q p. f q (omega arith)) r l in
        let (h2, go, y) =
          scan-items vs state h1 (Followed-Cells h h1 x.frame (λ q p. f q (omega arith)))
            (Ready-Fade base h h1 x.frame r) (omega (arith, x.cooler)) in
        (h2, rw run go, Scanning-trans h h1 h2 (λ q. refl) x y)

  pub scan-members :
      (ms : List Member) (state : ℕ) (h : Heap)
      → Followed (λ q. scanned_members q ms) h
      → Ready base h
      → heat h < n
      → (h' : Heap) × (scan_members visit ms state h ≡ some h')
        × Scanning base (λ q. scanned_members q ms) state h h'
  unfolding scan_members scanned_members
  scan-members [] state h f r l = (h, refl, Scanning-none h (λ q. refl))
  scan-members (m ∷ ms) state h f r l =
      let (h1, run, x) = scan-value m.value state h (λ q p. f q (omega arith)) r l in
      let (h2, go, y) =
        scan-members ms state h1 (Followed-Cells h h1 x.frame (λ q p. f q (omega arith)))
          (Ready-Fade base h h1 x.frame r) (omega (arith, x.cooler)) in
      (h2, rw run go, Scanning-trans h h1 h2 (λ q. refl) x y)
