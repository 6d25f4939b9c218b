-- ===== src/Gc/Mark.antt =====
-- Stage 1 of the collector, object.c: a scan with `di_collect_garbage_mark` ends, and counts.
use deai.Common.{
  ℕ, ◌+◌, ◌≤◌, ◌<◌, true, List, [], ◌∷◌, Option, none, some, ◌≡◌, ◌⊎◌, inl, inr, refl, sym, ap, ◌∙◌,
  arith, ◌==◌, if◌then◌else◌, length, Option-cases,
}
use deai.Value.{Value, Values, end, item, object, array, tuple, variant, one_at}
use deai.Heap.{Member, Object, Heap, deref, mem}
use deai.Heap.Sums.{total}
use deai.Gc.{di_scan_type, scan_items, scan_members}
use deai.Gc.Recolor.{
  scanned, scanned_items, scanned_members, Cells, Cells-refl, Cells-trans, Cells-cell, scan_in,
  Followed, Based, scan_in-Cells, Followed-Cells, Based-Cells,
}

-- All that stage 1 does to an object: its scan count, and mark 1.
pub record Darker (a b : Object) : Type 0 where
  pub same : b ≡ record a { ref_count_scan = b.ref_count_scan; mark = b.mark }
  pub dark : (b.mark ≡ a.mark) ⊎ (b.mark ≡ 1)

pub Darker-refl : (a : Object) → Darker a a
Darker-refl a = record { same = refl; dark = inl refl }

pub Darker-trans : (a b c : Object) → Darker a b → Darker b c → Darker a c
Darker-trans a b c x y = record {
  same =
      y.same
      ∙ ap {A = Object} (λ z. record z { ref_count_scan = c.ref_count_scan; mark = c.mark }) x.same;
  dark = elim y.dark [
    | inr one ↦ inr one
    | inl kept ↦ elim x.dark [ inl e ↦ inl (kept ∙ e) | inr one ↦ inr (kept ∙ one) ]
  ];
}

-- The references in the members of marked objects.
abbrev pub from_marked : ℕ → Object → ℕ
from_marked q ob = if ob.mark == 1 then scanned_members q ob.members else 0

abbrev pub marked_refs : ℕ → Heap → ℕ
marked_refs q h = total (from_marked q) h.cells

abbrev pub unmarked : Heap → ℕ
unmarked h = total (λ ob. if ob.mark == 1 then 0 else 1) h.cells

abbrev pub count_in : Option Object → ℕ
count_in none = 0
count_in (some ob) = ob.ref_count_scan

abbrev pub scan_count : ℕ → Heap → ℕ
scan_count q h = count_in (deref q h)

abbrev pub mark_in : Option Object → ℕ
mark_in none = 0
mark_in (some ob) = ob.mark

-- The object is marked.
abbrev pub Lit : Heap → ℕ → Type 0
Lit h q = mark_in (deref q h) ≡ 1

-- A walk along references that a scan follows, through objects that `L` tells.
pub data Walk (base : ℕ → List Member) (L : ℕ → Type 0) : ℕ → ℕ → Type 0 where
  here : {p : ℕ} → L p → Walk base L p p
  step : {p q r : ℕ} → L p → 0 < scanned_members q (base p) → Walk base L q r → Walk base L p r

abbrev pub Found : (ℕ → List Member) → (ℕ → ℕ) → Heap → ℕ → Type 0
Found base T h q = (p : ℕ) × (0 < T p) × Walk base (Lit h) p q

-- From `h` to `h'` the references `T` were followed, and what they lead to.
pub record Marking (base : ℕ → List Member) (T : ℕ → ℕ) (h h' : Heap) : Type 0 where
  pub frame : Cells Darker h.cells h'.cells
  pub reach : (q : ℕ) → Lit h' q → Lit h q ⊎ Found base T h' q
  pub stays : (q : ℕ) → mem q h.isolated ≡ true → (mem q h'.isolated ≡ true) ⊎ Found base T h' q
  pub drops : (q : ℕ) → mem q h.unreferred ≡ true → (mem q h'.unreferred ≡ true) ⊎ Lit h' q
  pub within : (q : ℕ) → mem q h'.isolated ≡ true → mem q h.isolated ≡ true
  pub out :
      (q : ℕ) → mem q h'.unreferred ≡ true → (mem q h.unreferred ≡ true) × (Lit h' q → Lit h q)
  pub counts : (q : ℕ) → scan_count q h' + marked_refs q h ≡ scan_count q h + marked_refs q h' + T q
  pub fewer : unmarked h' ≤ unmarked h
  pub shorter : length h'.unreferred ≤ length h.unreferred

pub Walk-mono :
    {base : ℕ → List Member} {L M : ℕ → Type 0} {p q : ℕ}
    → ((x : ℕ) → L x → M x)
    → Walk base L p q
    → Walk base M p q
Walk-mono up (here l) = Walk.here (up _ l)
Walk-mono up (step l e w) = Walk.step (up _ l) e (Walk-mono up w)

pub Walk-trans :
    {base : ℕ → List Member} {L : ℕ → Type 0} {p q r : ℕ}
    → Walk base L p q
    → Walk base L q r
    → Walk base L p r
Walk-trans (here l) v = v
Walk-trans (step l e w) v = Walk.step l e (Walk-trans w v)

pub Lit-frame : (h h' : Heap) → Cells Darker h.cells h'.cells → (q : ℕ) → Lit h q → Lit h' q
Lit-frame h h' x q l = elim (Option-cases (deref q h)) [
  | inl e ↦ absurd (omega (arith, ap mark_in e, l))
  | inr (ob, e) ↦
      let (b, at, d) = Cells-cell q x e in
      ap mark_in at ∙ elim d.dark [ inl k ↦ k ∙ (ap mark_in (sym e) ∙ l) | inr one ↦ one ]
]

pub Darker-members : (a b : Object) → Darker a b → b.members ≡ a.members
Darker-members a b d = ap (λ (z : Object). z.members) d.same

pub Based-frame :
    (base : ℕ → List Member) (h h' : Heap)
    → Cells Darker h.cells h'.cells
    → Based base h
    → Based base h'
Based-frame = Based-Cells Darker-members

Found-up :
    {base : ℕ → List Member} {T U : ℕ → ℕ} (h h' : Heap) (q : ℕ)
    → Cells Darker h.cells h'.cells
    → ((p : ℕ) → 0 < T p → 0 < U p)
    → Found base T h q
    → Found base U h' q
Found-up h h' q x more (p, pos, w) = (p, more p pos, Walk-mono (Lit-frame h h' x) w)

pub Marking-trans :
    {base : ℕ → List Member} {T U V : ℕ → ℕ} {a b c : Heap}
    → ((q : ℕ) → V q ≡ T q + U q)
    → Marking base T a b
    → Marking base U b c
    → Marking base V a c
Marking-trans {T} {U} {V} {a} {b} {c} sum x y = record {
  frame = Cells-trans Darker-trans x.frame y.frame;
  reach = λ q l. elim (y.reach q l) [
    | inr f ↦
        inr (Found-up c c q (Cells-refl Darker-refl c.cells) (λ p pos. omega (arith, sum p)) f)
    | inl m ↦ elim (x.reach q m) [
      | inl o ↦ inl o
      | inr f ↦ inr (Found-up b c q y.frame (λ p pos. omega (arith, sum p)) f)
    ]
  ];
  stays = λ q i. elim (x.stays q i) [
    | inr f ↦ inr (Found-up b c q y.frame (λ p pos. omega (arith, sum p)) f)
    | inl j ↦ elim (y.stays q j) [
      | inl k ↦ inl k
      | inr f ↦
          inr (Found-up c c q (Cells-refl Darker-refl c.cells) (λ p pos. omega (arith, sum p)) f)
    ]
  ];
  drops =
      λ q i. elim (x.drops q i) [ inl j ↦ y.drops q j | inr l ↦ inr (Lit-frame b c y.frame q l) ];
  within = λ q i. x.within q (y.within q i);
  out = λ q i. let (j, f) = y.out q i in let (k, g) = x.out q j in (k, λ l. g (f l));
  counts = λ q. omega (arith, sum q, x.counts q, y.counts q);
  fewer = omega (arith, x.fewer, y.fewer);
  shorter = omega (arith, x.shorter, y.shorter);
}

pub Marking-none :
    {base : ℕ → List Member} {T : ℕ → ℕ} (h : Heap) → ((q : ℕ) → T q ≡ 0) → Marking base T h h
Marking-none h z = record {
  frame = Cells-refl Darker-refl h.cells;
  reach = λ q l. inl l;
  stays = λ q i. inl i;
  drops = λ q i. inl i;
  within = λ q i. i;
  out = λ q i. (i, λ l. l);
  counts = λ q. omega (arith, z q);
  fewer = omega arith;
  shorter = omega arith;
}

pub scan_in-frame :
    (h h' : Heap) (q : ℕ) → Cells Darker h.cells h'.cells → scan_in q h ≡ scan_in q h'
scan_in-frame = scan_in-Cells Darker-members

pub Followed-frame :
    {T : ℕ → ℕ} (h h' : Heap) → Cells Darker h.cells h'.cells → Followed T h → Followed T h'
Followed-frame = Followed-Cells

-- A `visit` that marks from an object on, on heaps with fewer than `n` unmarked objects.
abbrev pub Marks : (ℕ → List Member) → (ℕ → ℕ → Heap → Option Heap) → ℕ → Type 0
Marks base visit n =
    (o state : ℕ) (h : Heap)
    → Followed (one_at o) h
    → Followed (λ q. scan_in q h) h
    → Based base h
    → unmarked h < n
    → (h' : Heap) × (visit o state h ≡ some h') × Marking base (one_at o) h h'

module _ (base : ℕ → List Member) (visit : ℕ → ℕ → Heap → Option Heap) (n : ℕ)
    (marks : Marks base visit n) where
  mutual
    unfolding di_scan_type scanned

    mark-value :
        (v : Value) (state : ℕ) (h : Heap)
        → Followed (λ q. scanned q v) h
        → Followed (λ q. scan_in q h) h
        → Based base h
        → unmarked h < n
        → (h' : Heap) × (di_scan_type visit v state h ≡ some h')
          × Marking base (λ q. scanned q v) h h'
    mark-value (object o) state h f g b l = marks o state h f g b l
    mark-value (array t vs) state h f g b l = mark-items vs state h f g b l
    mark-value (tuple vs) state h f g b l = mark-items vs state h f g b l
    mark-value (variant v) state h f g b l = mark-value v state h f g b l
    mark-value v state h f g b l = (h, refl, Marking-none h (λ q. refl))

    mark-items :
        (vs : Values) (state : ℕ) (h : Heap)
        → Followed (λ q. scanned_items q vs) h
        → Followed (λ q. scan_in q h) h
        → Based base h
        → unmarked h < n
        → (h' : Heap) × (scan_items visit vs state h ≡ some h')
          × Marking base (λ q. scanned_items q vs) h h'
    mark-items end state h f g b l = (h, refl, Marking-none h (λ q. refl))
    mark-items (item v vs) state h f g b l =
        let (h1, run, m) = mark-value v state h (λ q p. f q (omega arith)) g b l in
        let (h2, go, m2) =
          mark-items vs state h1 (Followed-frame h h1 m.frame (λ q p. f q (omega arith)))
            (λ q p. Followed-frame h h1 m.frame g q (omega (arith, scan_in-frame h h1 q m.frame)))
            (Based-frame base h h1 m.frame b) (omega (arith, m.fewer)) in
        (h2, rw run go, Marking-trans (λ q. refl) m m2)

  pub mark-members :
      (ms : List Member) (state : ℕ) (h : Heap)
      → Followed (λ q. scanned_members q ms) h
      → Followed (λ q. scan_in q h) h
      → Based base h
      → unmarked h < n
      → (h' : Heap) × (scan_members visit ms state h ≡ some h')
        × Marking base (λ q. scanned_members q ms) h h'
  unfolding scan_members scanned_members
  mark-members [] state h f g b l = (h, refl, Marking-none h (λ q. refl))
  mark-members (m ∷ ms) state h f g b l =
      let (h1, run, x) = mark-value m.value state h (λ q p. f q (omega arith)) g b l in
      let (h2, go, y) =
        mark-members ms state h1 (Followed-frame h h1 x.frame (λ q p. f q (omega arith)))
          (λ q p. Followed-frame h h1 x.frame g q (omega (arith, scan_in-frame h h1 q x.frame)))
          (Based-frame base h h1 x.frame b) (omega (arith, x.fewer)) in
      (h2, rw run go, Marking-trans (λ q. refl) x y)
