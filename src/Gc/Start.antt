-- ===== src/Gc/Start.antt =====
-- The collector of object.c, from a heap with a right ledger: what stage 1 finds there, and that
-- stage 2 can run on it.
use deai.Common.{
  ℕ, ◌+◌, ◌*◌, ◌≤◌, List, [], Option, none, some, ◌≡◌, inl, inr, refl, sym, ap, subst, ◌∙◌, arith,
  length, Option-cases,
}
use deai.Heap.{Member, Object, Heap, deref, mem}
use deai.Heap.Sums.{strong_members}
use deai.Refs.Counts.{Linked, Counted, ObOk-at, strong_in}
use deai.Refs.Steps.{alive_of}
use deai.Refs.Frame.{members_in, members_of}
use deai.Gc.Recolor.{
  scanned_members, scanned_members-le, Cells, Cells-refl, Cells-back, Cells-total, Cells-total_le,
  Cells-length, total_le_double, total-zero, scan_in, Followed,
}
use deai.Gc.Mark.{Darker, Darker-members, from_marked, marked_refs, count_in, scan_count, mark_in}
use deai.Gc.Roots.{Rooted}
use deai.Gc.Scan.{Ready, heat_of, heat, mark_of}

-- No collector runs.
abbrev pub Unmarked : Heap → Type 0
Unmarked h = (q : ℕ) (ob : Object) → deref q h ≡ some ob → (ob.mark ≡ 0) × (ob.ref_count_scan ≡ 0)

-- A round starts with no isolated roots.
abbrev pub start : Heap → Heap
start h = record h { isolated = [] }

abbrev pub base_of : Heap → ℕ → List Member
base_of h q = members_of q h

pub scan_in-le : (q : ℕ) (h : Heap) → scan_in q h ≤ strong_in q h
scan_in-le q h =
    Cells-total_le {P = λ a b. a ≡ b} (λ ob. scanned_members q ob.members)
      (λ ob. strong_members q ob.members)
      (λ a b d.
        subst (λ (z : Object). scanned_members q a.members ≤ strong_members q z.members) d
          (scanned_members-le q a.members))
      (Cells-refl (λ a. refl) h.cells)

pub strong_in-Cells :
    {P : Object → Object → Type 0}
    → ((a b : Object) → P a b → b.members ≡ a.members)
    → (h h' : Heap) (q : ℕ) → Cells P h.cells h'.cells
    → strong_in q h ≡ strong_in q h'
strong_in-Cells keeps h h' q x =
    Cells-total (λ ob. strong_members q ob.members) (λ ob. strong_members q ob.members)
      (λ a b d. ap (strong_members q) (sym (keeps a b d))) x

Linked-some : (c : Option Object) → Linked c → (ob : Object) × (c ≡ some ob)
Linked-some none l = absurd l
Linked-some (some ob) l = (ob, refl)

module _ {S W D : ℕ → ℕ} (h : Heap) (c : Counted S W D h) (u : Unmarked h) where
  zero_marked : (q : ℕ) → marked_refs q h ≡ 0
  zero_marked q =
      total-zero (from_marked q) h.cells (λ o a e. let k = (u o a e).0 in ground (arith, k))

  zero_count : (q : ℕ) → scan_count q h ≡ 0
  zero_count q = elim (Option-cases (deref q h)) [
    | inl e ↦ ap count_in e
    | inr (ob, e) ↦ ap count_in e ∙ (u q ob e).1
  ]

  zero_mark : (q : ℕ) → mark_of q h ≡ 0
  zero_mark q = elim (Option-cases (deref q h)) [
    | inl e ↦ ap mark_in e
    | inr (ob, e) ↦ ap mark_in e ∙ (u q ob e).0
  ]

  scan-Followed : Followed (λ q. scan_in q h) h
  scan-Followed q pos =
      let (ob, e, live) = alive_of q c (omega (arith, pos, scan_in-le q h)) in (ob, e)

  pub start-Rooted : Rooted h.unreferred (base_of h) (start h)
  unfolding mem
  start-Rooted = record {
    balanced = λ q. zero_count q ∙ sym (zero_marked q);
    reached = λ q l. absurd (omega (arith, zero_mark q, l));
    kept = λ q i. cc;
    left = λ q i. let (ob, e) = Linked-some (deref q h) (c.linked q i) in (ob, e, (u q ob e).0);
    visited = λ q i. inl i;
    based = λ q ob e. sym (ap members_in e);
    followed = scan-Followed;
  }

  module _ (h1 : Heap) (k : Rooted h.unreferred (base_of h) h1)
      (x : Cells Darker h.cells h1.cells) where
    -- No object is marked with more than 1.
    pub low_mark : (q : ℕ) → mark_of q h1 ≤ 1
    low_mark q = elim (Option-cases (deref q h1)) [
      | inl e ↦ rw e (omega arith)
      | inr (b, e) ↦
          let (a, at, d) = Cells-back q x e in
          let old = (u q a at).0 in rw e (ground (arith, d.dark, old))
    ]

    -- The counted references are references that the ledger has.
    pub count-le :
        (q : ℕ) (b : Object)
        → deref q h1 ≡ some b
        → (b.ref_count ≡ S q + strong_in q h1) × (b.ref_count_scan ≡ marked_refs q h1)
    count-le q b e =
        let (a, at, d) = Cells-back q x e in
        let same : b.ref_count ≡ a.ref_count = ap (λ (z : Object). z.ref_count) d.same in
        (
          same
              ∙ ((ObOk-at q c at).counted
                  ∙ ap (λ n. S q + n) (strong_in-Cells Darker-members h h1 q x)),
          sym (ap count_in e) ∙ k.balanced q,
        )

    pub marked_refs-le : (q : ℕ) → marked_refs q h1 ≤ strong_in q h1
    marked_refs-le q =
        let part : marked_refs q h1 ≤ scan_in q h1 =
          Cells-total_le {P = λ a b. a ≡ b} (from_marked q) (λ ob. scanned_members q ob.members)
            (λ a b d.
              subst (λ (z : Object). from_marked q a ≤ scanned_members q z.members) d (less a))
            (Cells-refl (λ a. refl) h1.cells) in
        omega (arith, part, scan_in-le q h1)
      where
        less : (a : Object) → from_marked q a ≤ scanned_members q a.members
        less a = ground arith

    pub marked-Ready : Ready (base_of h) h1
    marked-Ready = record {
      followed = k.followed;
      based = k.based;
      fine = λ q ob e.
          let (r, s) = count-le q ob e in
          (omega (arith, r, s, marked_refs-le q), omega (arith, low_mark q, ap mark_in e));
    }

    pub low_heat : heat h1 ≤ 2 * length h.cells
    low_heat = omega (arith, total_le_double heat_of (λ a. warm a) h1.cells, Cells-length x)
      where
        warm : (a : Object) → heat_of a ≤ 2
        warm a = ground arith
