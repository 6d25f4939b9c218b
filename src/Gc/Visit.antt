-- ===== src/Gc/Visit.antt =====
-- Stage 2 of the collector, object.c: the visit of one object, and the loop over the roots.
use deai.Common.{
  ℕ, zero, suc, ◌+◌, ◌≤◌, ◌<◌, Bool, true, false, not, ◌||◌, List, [], ◌∷◌, Option, some, ◌≡◌, ◌⊎◌,
  inl, inr, refl, sym, ap, subst, ◌∙◌, arith, ◌==◌, Bool-cases, ◌>>=◌, ==_iff, ℕ_discrete, ◌≢◌,
}
use deai.Value.{one_at}
use deai.Heap.{Member, Object, Heap, deref, put, cell-set_self, cell-set_ne}
use deai.Heap.Sums.{total-set}
use deai.Refs.Steps.{one_at_self}
use deai.Gc.{scan_members, scan_object, nothing, di_collect_garbage_scan, scan_roots}
use deai.Gc.Recolor.{
  scanned_members, Cells, Cells-refl, Cells-trans, Cells-set, part-le-total, scan_in, Followed,
  Followed-Cells,
}
use deai.Gc.Mark.{mark_in, Walk}
use deai.Gc.Scan.{
  Fade, Fade-refl, Fade-trans, heat_of, heat, mark_of, Good, Scanning, Fade-mark, Scanning-trans,
  Scanning-none, Reach, Cause, Short-Fade, Ready, Ready-Fade, Scans, scan-members,
}

one_at_pos : (i p : ℕ) → 0 < one_at i p → p ≡ i
one_at_pos i p h = ground arith

-- An object that is not entered.
stay-Scanning :
    (base : ℕ → List Member) (o state : ℕ) (h : Heap) (ob : Object)
    → deref o h ≡ some ob
    → ob.mark ≢ 1
    → (state ≢ 0 → ob.mark ≡ 0)
    → Scanning base (one_at o) state h h
stay-Scanning base o state h ob e ne gone = record {
  frame = Cells-refl Fade-refl h.cells;
  roots = refl;
  cooler = omega arith;
  seen = λ q pos. subst (λ x. mark_of x h ≢ 1) (sym (one_at_pos o q pos)) (rw e ne);
  revived = λ q pos s. subst (λ x. mark_of x h ≡ 0) (sym (one_at_pos o q pos)) (rw e (gone s));
  closed = λ p other. absurd (other refl);
  cause = λ q z lit. absurd (lit z);
}

-- An object that is entered: it becomes `ob'`, and then its members are scanned with state `inner`.
module _ (base : ℕ → List Member) (o state inner : ℕ) (h h' : Heap) (ob ob' : Object)
    (e : deref o h ≡ some ob) (fade : Fade ob ob') (cold : heat_of ob' < heat_of ob)
    (b : ob.members ≡ base o)
    (how : ((ob'.mark ≡ 0) × (inner ≢ 0)) ⊎ ((ob'.mark ≡ 2) × (state ≡ 0)))
    (reason : inner ≢ 0 → (state ≢ 0) ⊎ (ob.ref_count_scan ≢ ob.ref_count))
    (y : Scanning base (λ q. scanned_members q ob.members) inner (put o ob' h) h') where
  own-Cause : (q : ℕ) → inner ≢ 0 → Reach base o q → Cause base (one_at o) state h q
  own-Cause q i w = elim (reason i) [
    | inl s ↦ inr (s, o, omega (arith, one_at_self o), w)
    | inr ne ↦ inl (o, (ob, e, ne, ground (arith, cold)), w)
  ]

  frame : Cells Fade h.cells (put o ob' h).cells
  frame = Cells-set h.cells o ob' Fade-refl e fade

  entered-Cause : (q : ℕ) → mark_of q h' ≡ 0 → mark_of q h ≢ 0 → Cause base (one_at o) state h q
  entered-Cause q z lit = elim (ℕ_discrete (mark_of q (put o ob' h)) 0) [
    | no left ↦ elim (y.cause q z left) [
      | inl (p, short, w) ↦ inl (p, Short-Fade h (put o ob' h) p frame short, w)
      | inr (i, p, pos, w) ↦
          own-Cause q i (Walk.step tt (subst (λ ms. 0 < scanned_members p ms) b pos) w)
    ]
    | yes gone ↦ elim (ℕ_discrete q o) [
      | yes it ↦
          subst (Cause base (one_at o) state h) (sym it) (
            own-Cause o (revives (subst (λ x. mark_of x (put o ob' h) ≡ 0) it gone)) (Walk.here tt))
      | no away ↦ absurd (lit (ap mark_in (sym (cell-set_ne h.cells o q (some ob') away)) ∙ gone))
    ]
  ]
    where
      revives : mark_of o (put o ob' h) ≡ 0 → inner ≢ 0
      revives z0 =
          let new : ob'.mark ≡ 0 = sym (ap mark_in (cell-set_self h.cells o (some ob') e)) ∙ z0 in
          ground (arith, how, new)

  now : mark_of o (put o ob' h) ≡ ob'.mark
  now = ap mark_in (cell-set_self h.cells o (some ob') e)

  entered_seen : mark_of o h' ≢ 1
  entered_seen = (Fade-mark (put o ob' h) h' o y.frame).1 (rw now (ground (arith, how)))

  entered_gone : state ≢ 0 → mark_of o h' ≡ 0
  entered_gone s = (Fade-mark (put o ob' h) h' o y.frame).0 (rw now (ground (arith, how, s)))

  entered_Good : mark_of o h' ≡ mark_of o (put o ob' h) → Good base h' o
  entered_Good same = record {
    garbage = λ two q pos. y.seen q (subst (λ ms. 0 < scanned_members q ms) (sym b) pos);
    alive = λ none_ q pos.
        y.revived q (subst (λ ms. 0 < scanned_members q ms) (sym b) pos)
          (ground (arith, how, same, now, none_));
  }

  pub enter-Scanning : Scanning base (one_at o) state h h'
  enter-Scanning = record {
    frame = Cells-trans Fade-trans (Cells-set h.cells o ob' Fade-refl e fade) y.frame;
    roots = y.roots;
    cooler = omega (arith, y.cooler, total-set heat_of h.cells o ob ob' e);
    seen = λ q pos. subst (λ x. mark_of x h' ≢ 1) (sym (one_at_pos o q pos)) entered_seen;
    revived = λ q pos s. subst (λ x. mark_of x h' ≡ 0) (sym (one_at_pos o q pos)) (entered_gone s);
    closed = λ p ne. elim (ℕ_discrete (mark_of p h') (mark_of p (put o ob' h))) [
      | no other ↦ y.closed p other
      | yes same ↦ elim (ℕ_discrete p o) [
        | yes it ↦
            subst (λ x. Good base h' x) (sym it)
              (entered_Good (subst (λ x. mark_of x h' ≡ mark_of x (put o ob' h)) it same))
        | no away ↦ absurd (ne (same ∙ ap mark_in (cell-set_ne h.cells o p (some ob') away)))
      ]
    ];
    cause = entered-Cause;
  }

abbrev external : ℕ → Object → Bool
external state ob = not (state == 0) || not (ob.ref_count_scan == ob.ref_count)

-- What a visit does, in its four cases.
module _ (n o state : ℕ) (h : Heap) (ob : Object) (e : deref o h ≡ some ob)
    (fine : ob.ref_count_scan ≤ ob.ref_count) where
  stay_run :
      (ob.mark == 0) ≡ true → scan_object di_collect_garbage_scan nothing (suc n) o state h ≡ some h
  unfolding scan_object di_collect_garbage_scan
  stay_run z = ground (arith, e, fine, z)

  keep_run :
      external state ob ≡ false
      → (ob.mark == 2) ≡ true
      → scan_object di_collect_garbage_scan nothing (suc n) o state h ≡ some h
  unfolding scan_object di_collect_garbage_scan
  keep_run x z = ground (arith, e, fine, x, z)

  revive_run :
      external state ob ≡ true
      → (ob.mark == 0) ≡ false
      → scan_object di_collect_garbage_scan nothing (suc n) o state h ≡ (
          scan_members
            (scan_object di_collect_garbage_scan nothing n)
            ob.members
            1
            (put o (record ob { ref_count_scan = 0; mark = 0 }) h)
          >>= λ h2. some h2)
  unfolding scan_object di_collect_garbage_scan
  revive_run x z = ground (
    arith,
    e,
    fine,
    x,
    z,
    cell-set_self h.cells o (some (record ob { ref_count_scan = 0; mark = 0 })) e,
  )

  collect_run :
      external state ob ≡ false
      → (ob.mark == 0) ≡ false
      → (ob.mark == 2) ≡ false
      → scan_object di_collect_garbage_scan nothing (suc n) o state h ≡ (
          scan_members
            (scan_object di_collect_garbage_scan nothing n)
            ob.members
            0
            (put o (record ob { mark = 2 }) h)
          >>= λ h2. some h2)
  unfolding scan_object di_collect_garbage_scan
  collect_run x z t =
      ground (arith, e, fine, x, z, t, cell-set_self h.cells o (some (record ob { mark = 2 })) e)

scan_in-part :
    (o q : ℕ) (h : Heap) (ob : Object)
    → deref o h ≡ some ob
    → scanned_members q ob.members ≤ scan_in q h
scan_in-part o q h ob e = part-le-total (λ x. scanned_members q x.members) h.cells o ob e

abbrev scan : ℕ → ℕ → ℕ → Heap → Option Heap
scan = scan_object di_collect_garbage_scan nothing

-- The members of an object that became `ob'`.
enter_members :
    (base : ℕ → List Member) (n o inner : ℕ) (h : Heap) (ob ob' : Object)
    → Scans base (scan n) n
    → (e : deref o h ≡ some ob) → Fade ob ob'
    → heat_of ob' < heat_of ob
    → Ready base h
    → heat h < suc n
    → (h' : Heap) × (scan_members (scan n) ob.members inner (put o ob' h) ≡ some h')
      × Scanning base (λ q. scanned_members q ob.members) inner (put o ob' h) h'
enter_members base n o inner h ob ob' scans e fade cold r l =
    let frame = Cells-set h.cells o ob' Fade-refl e fade in
    scan-members base (scan n) n scans ob.members inner (put o ob' h)
      (Followed-Cells h (put o ob' h) frame
        (λ q p. r.followed q (omega (arith, p, scan_in-part o q h ob e))))
      (Ready-Fade base h (put o ob' h) frame r)
      (omega (arith, total-set heat_of h.cells o ob ob' e))

-- The scan of stage 2 returns, with fuel for the heat of the heap.
pub scan-Scans : (base : ℕ → List Member) (n : ℕ) → Scans base (scan n) n
scan-Scans base zero o state h f r l = absurd (omega arith)
scan-Scans base (suc n) o state h f r l =
    let (ob, e) = f o (omega (arith, one_at_self o)) in
    let (low, small) = r.fine o ob e in
    elim (Bool-cases (ob.mark == 0)) [
      | inl z ↦
          let dark : ob.mark ≡ 0 = (==_iff ob.mark 0).0 z in
          (
            h,
            stay_run n o state h ob e low z,
            stay-Scanning base o state h ob e (omega (arith, dark)) (λ s. dark),
          )
      | inr z ↦ elim (Bool-cases (external state ob)) [
        | inl x ↦
            let ob' : Object = record ob { ref_count_scan = 0; mark = 0 } in
            let fade : Fade ob ob' = record {
              same = refl;
              change = inr (inr (refl, ground (arith, z), refl));
            } in
            let cold : heat_of ob' < heat_of ob = ground (arith, z) in
            let (h2, run, y) =
              enter_members base n o 1 h ob ob' (scan-Scans base n) e fade cold r l in
            (
              h2,
              revive_run n o state h ob e low x z ∙ rw run refl,
              enter-Scanning base o state 1 h h2 ob ob' e fade cold (r.based o ob e)
                  (inl (refl, omega arith)) (λ i. ground (arith, x)) y,
            )
        | inr x ↦ elim (Bool-cases (ob.mark == 2)) [
          | inl t ↦ (
            h,
            keep_run n o state h ob e low x t,
            stay-Scanning base o state h ob e (ground (arith, t))
                (λ s. absurd (ground (arith, x, s))),
          )
          | inr t ↦
              let ob' : Object = record ob { mark = 2 } in
              let fade : Fade ob ob' = record {
                same = refl;
                change = inr (inl (ground (arith, z, t, small), refl, refl, ground (arith, x)));
              } in
              let cold : heat_of ob' < heat_of ob = ground (arith, z, t, small) in
              let (h2, run, y) =
                enter_members base n o 0 h ob ob' (scan-Scans base n) e fade cold r l in
              (
                h2,
                collect_run n o state h ob e low x z t ∙ rw run refl,
                enter-Scanning base o state 0 h h2 ob ob' e fade cold (r.based o ob e)
                    (inr (refl, ground (arith, x))) (λ i. absurd (i refl)) y,
              )
        ]
      ]
    ]

-- How often `q` is in a list.
unfoldable pub listed : ℕ → List ℕ → ℕ
listed q [] = 0
listed q (p ∷ ps) = one_at p q + listed q ps

-- The loop over the roots.
pub scan_roots-Scanning :
    (base : ℕ → List Member) (fuel : ℕ) (is : List ℕ) (h : Heap)
    → Followed (λ q. listed q is) h
    → Ready base h
    → heat h < fuel
    → (h' : Heap) × (scan_roots fuel is h ≡ some h') × Scanning base (λ q. listed q is) 0 h h'
unfolding scan_roots listed
scan_roots-Scanning base fuel [] h f r l = (h, refl, Scanning-none h (λ q. refl))
scan_roots-Scanning base fuel (i ∷ is) h f r l =
    let (h1, run, x) = scan-Scans base fuel i 0 h (λ q p. f q (omega arith)) r l in
    let (h2, go, y) =
      scan_roots-Scanning base fuel is h1 (Followed-Cells h h1 x.frame (λ q p. f q (omega arith)))
        (Ready-Fade base h h1 x.frame r) (omega (arith, x.cooler)) in
    (h2, rw run go, Scanning-trans h h1 h2 (λ q. refl) x y)
