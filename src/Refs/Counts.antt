-- ===== src/Refs/Counts.antt =====
-- The ledger of a heap: each count is the number of the references there are, and what a change of
-- one cell does to it.
use deai.Common.{
  ℕ, ◌+◌, ◌<◌, true, false, not, List, [], Option, none, some, ◌≡◌, ◌≢◌, sym, ap, subst, set, ltb,
  arith, ℕ_discrete, if◌then◌else◌,
}
use deai.Heap.{Object, Heap, deref, free, mem, cell-set_self, cell-set_ne}
use deai.Heap.Sums.{all_sound, strong_members, weak_members, total, total-set, total-free}
use deai.Refs.{callable_mark}

-- The weak reference that an object holds on itself until it is destroyed.
abbrev pub implicit : Object → ℕ
implicit ob = if ob.destroyed then 0 else 1

-- `n` strong and `m` weak references lead to the object, and it is being destroyed `d` times.
pub record ObOk (n m d : ℕ) (ob : Object) : Type 0 where
  pub counted : ob.ref_count ≡ n
  pub weakly : ob.weak_ref_count ≡ m + d + implicit ob
  pub alive : ltb 0 ob.ref_count ≡ not ob.destroyed
  pub held : 0 < ob.weak_ref_count
  pub marked : callable_mark ob.mark ≡ true
  pub emptied : ob.destroyed ≡ true → d ≡ 0 → ob.members ≡ []
  pub dying : 0 < d → ob.destroyed ≡ true
  pub whole : all_sound ob.members ≡ true

-- Nothing leads to memory that was freed.
abbrev pub CellOk : ℕ → ℕ → ℕ → Option Object → Type 0
CellOk n m d none = (n ≡ 0) × (m ≡ 0) × (d ≡ 0)
CellOk n m d (some ob) = ObOk n m d ob

abbrev pub Linked : Option Object → Type 0
Linked none = ⊥
Linked (some ob) = ob.destroyed ≡ false

-- The references that the members of all objects own.
abbrev pub strong_in : ℕ → Heap → ℕ
strong_in q h = total (λ ob. strong_members q ob.members) h.cells

abbrev pub weak_in : ℕ → Heap → ℕ
weak_in q h = total (λ ob. weak_members q ob.members) h.cells

-- The number of objects that were not destroyed.
abbrev pub live : Heap → ℕ
live h = total implicit h.cells

-- `S q` and `W q` are the strong and weak references to `q` that are held outside the heap, by the
-- code that runs, and `D q` is 1 while `q` is being destroyed. All that is in the list of
-- unreferred objects is alive.
pub record Counted (S W D : ℕ → ℕ) (h : Heap) : Type 0 where
  pub at : (q : ℕ) → CellOk (S q + strong_in q h) (W q + weak_in q h) (D q) (deref q h)
  pub linked : (q : ℕ) → mem q h.unreferred ≡ true → Linked (deref q h)

pub CellOk-cong :
    {n n' m m' d d' : ℕ} (c : Option Object)
    → n ≡ n'
    → m ≡ m'
    → d ≡ d'
    → CellOk n m d c
    → CellOk n' m' d' c
CellOk-cong none a b e h = omega arith
CellOk-cong (some ob) a b e h = rw (← a, ← b, ← e) h

-- The same ledger under other names of its columns.
pub Counted-cong :
    {S W D S' W' D' : ℕ → ℕ} {h : Heap}
    → ((q : ℕ) → S q ≡ S' q)
    → ((q : ℕ) → W q ≡ W' q)
    → ((q : ℕ) → D q ≡ D' q)
    → Counted S W D h
    → Counted S' W' D' h
Counted-cong {h} s w d c = record {
  at = λ q.
      CellOk-cong (deref q h) (ap (λ n. n + strong_in q h) (s q)) (ap (λ n. n + weak_in q h) (w q))
        (d q) (c.at q);
  linked = c.linked;
}

pub ObOk-at :
    {S W D : ℕ → ℕ} {h : Heap} (o : ℕ) {ob : Object}
    → Counted S W D h
    → deref o h ≡ some ob
    → ObOk (S o + strong_in o h) (W o + weak_in o h) (D o) ob
ObOk-at {S} {W} {D} {h} o c e =
    subst (CellOk (S o + strong_in o h) (W o + weak_in o h) (D o)) e (c.at o)

-- The sums over the members, when one object is written back.
strong_in-put :
    (q o : ℕ) (h : Heap) (ob ob' : Object) (u i : List ℕ)
    → deref o h ≡ some ob
    → strong_in q (record { cells = set h.cells o (some ob'); unreferred = u; isolated = i })
        + strong_members q ob.members
      ≡ strong_in q h + strong_members q ob'.members
strong_in-put q o h ob ob' u i e = total-set (λ x. strong_members q x.members) h.cells o ob ob' e

weak_in-put :
    (q o : ℕ) (h : Heap) (ob ob' : Object) (u i : List ℕ)
    → deref o h ≡ some ob
    → weak_in q (record { cells = set h.cells o (some ob'); unreferred = u; isolated = i })
        + weak_members q ob.members
      ≡ weak_in q h + weak_members q ob'.members
weak_in-put q o h ob ob' u i e = total-set (λ x. weak_members q x.members) h.cells o ob ob' e

-- One object is written back, and references move between its members and the outside.
module _ {S W D : ℕ → ℕ} (S' W' D' : ℕ → ℕ) (h : Heap) (o : ℕ) (ob ob' : Object) (u i : List ℕ)
    (c : Counted S W D h) (e : deref o h ≡ some ob)
    (hs : (q : ℕ) → q ≢ o → S' q + strong_members q ob'.members ≡ S q + strong_members q ob.members)
    (hw : (q : ℕ) → q ≢ o → W' q + weak_members q ob'.members ≡ W q + weak_members q ob.members)
    (hd : (q : ℕ) → q ≢ o → D q ≡ D' q)
    (ok : (r r' w w' : ℕ)
      → r' + strong_members o ob.members ≡ r + strong_members o ob'.members
      → w' + weak_members o ob.members ≡ w + weak_members o ob'.members
      → ObOk (S o + r) (W o + w) (D o) ob
      → ObOk (S' o + r') (W' o + w') (D' o) ob')
    (hu : (q : ℕ) → q ≢ o → mem q u ≡ true → mem q h.unreferred ≡ true)
    (ho : mem o u ≡ true → ob'.destroyed ≡ false) where
  abbrev after : Heap
  after = record { cells = set h.cells o (some ob'); unreferred = u; isolated = i }

  put-other :
      (q : ℕ)
      → q ≢ o
      → CellOk (S' q + strong_in q after) (W' q + weak_in q after) (D' q) (deref q after)
  put-other q ne = rw (cell-set_ne h.cells o q (some ob') ne) (
      CellOk-cong (deref q h) (omega (arith, hs q ne, strong_in-put q o h ob ob' u i e))
        (omega (arith, hw q ne, weak_in-put q o h ob ob' u i e)) (hd q ne) (c.at q))

  put_self : CellOk (S' o + strong_in o after) (W' o + weak_in o after) (D' o) (deref o after)
  put_self = rw (cell-set_self h.cells o (some ob') e) (
      ok (strong_in o h) (strong_in o after) (weak_in o h) (weak_in o after)
        (strong_in-put o o h ob ob' u i e) (weak_in-put o o h ob ob' u i e) (ObOk-at o c e))

  put-at :
      (q : ℕ) → CellOk (S' q + strong_in q after) (W' q + weak_in q after) (D' q) (deref q after)
  put-at q = elim (ℕ_discrete q o) [
    | yes p ↦
        subst
          (λ x. CellOk (S' x + strong_in x after) (W' x + weak_in x after) (D' x) (deref x after))
          (sym p) put_self
    | no ne ↦ put-other q ne
  ]

  put-Linked : (q : ℕ) → mem q u ≡ true → Linked (deref q after)
  put-Linked q l = elim (ℕ_discrete q o) [
    | yes p ↦
        subst (λ x. mem x u ≡ true → Linked (deref x after)) (sym p)
          (λ j. rw (cell-set_self h.cells o (some ob') e) (ho j)) l
    | no ne ↦ rw (cell-set_ne h.cells o q (some ob') ne) (c.linked q (hu q ne l))
  ]

  pub Counted-put :
      Counted S' W' D' (record { cells = set h.cells o (some ob'); unreferred = u; isolated = i })
  Counted-put = record { at = put-at; linked = put-Linked }

-- An object that nothing leads to is freed.
module _ {S W D : ℕ → ℕ} (W' D' : ℕ → ℕ) (h : Heap) (o : ℕ) (ob : Object) (c : Counted S W D h)
    (e : deref o h ≡ some ob) (bare : ob.members ≡ []) (dead : ob.destroyed ≡ true)
    (hw : (q : ℕ) → q ≢ o → W q ≡ W' q) (hd : (q : ℕ) → q ≢ o → D q ≡ D' q)
    (strongs : S o + strong_in o h ≡ 0) (weaks : W' o + weak_in o h ≡ 0) (dying : D' o ≡ 0) where
  free-sums :
      (q : ℕ) → (strong_in q (free o h) ≡ strong_in q h) × (weak_in q (free o h) ≡ weak_in q h)
  unfolding strong_members weak_members
  free-sums q = (
    omega (
      arith,
      total-free (λ x. strong_members q x.members) h.cells o ob e,
      ap (strong_members q) bare,
    ),
    omega (
      arith,
      total-free (λ x. weak_members q x.members) h.cells o ob e,
      ap (weak_members q) bare,
    ),
  )

  free-at :
      (q : ℕ)
      → CellOk
          (S q + strong_in q (free o h))
          (W' q + weak_in q (free o h))
          (D' q)
          (deref q (free o h))
  free-at q = elim (ℕ_discrete q o) [
    | yes p ↦
        subst
          (λ x.
            CellOk (S x + strong_in x (free o h)) (W' x + weak_in x (free o h)) (D' x)
              (deref x (free o h)))
          (sym p) (rw (cell-set_self h.cells o none e) (omega (arith, free-sums o)))
    | no ne ↦ rw (cell-set_ne h.cells o q none ne) (
        CellOk-cong (deref q h) (omega (arith, free-sums q)) (omega (arith, free-sums q, hw q ne))
          (hd q ne) (c.at q))
  ]

  free-Linked : (q : ℕ) → mem q h.unreferred ≡ true → Linked (deref q (free o h))
  free-Linked q i = elim (ℕ_discrete q o) [
    | yes p ↦ absurd (stale (subst (λ x. mem x h.unreferred ≡ true) p i))
    | no ne ↦ rw (cell-set_ne h.cells o q none ne) (c.linked q i)
  ]
    where
      stale : mem o h.unreferred ≡ true → ⊥
      stale j = cc (subst Linked e (c.linked o j))

  pub Counted-free : Counted S W' D' (free o h)
  Counted-free = record { at = free-at; linked = free-Linked }
