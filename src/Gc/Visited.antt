-- ===== src/Gc/Visited.antt =====
-- Stage 1 of the collector, object.c: the visit of one object.
use deai.Common.{
  ℕ, zero, suc, ◌+◌, ◌≤◌, ◌<◌, true, false, List, [], ◌∷◌, some, set, ◌≡◌, ◌⊎◌, inl, inr, refl, sym,
  ap, subst, ◌∙◌, arith, ◌==◌, if◌then◌else◌, length, Bool-cases, ◌>>=◌, ==_iff, ℕ_discrete, ◌≢◌,
}
use deai.Value.{one_at}
use deai.Heap.{Member, Object, Heap, deref, mem, unlink, list_del_init, cell-set_self, cell-set_ne}
use deai.Heap.Sums.{total-set}
use deai.Refs.Steps.{one_at_self, one_at-ne}
use deai.Gc.{scan_members, scan_object, nothing, di_collect_garbage_mark}
use deai.Gc.Recolor.{
  scanned_members, Cells, Cells-trans, Cells-set, part-le-total, scan_in, Followed, Based,
}
use deai.Gc.Mark.{
  mark-members, Based-frame, Darker, Darker-refl, Darker-trans, Followed-frame, Found, Lit,
  Lit-frame, Marking, Marks, Walk, from_marked, mark_in, marked_refs, scan_count, scan_in-frame,
  unmarked,
}

pub length-unlink : (o : ℕ) (ps : List ℕ) → length (unlink o ps) ≤ length ps
unfolding unlink
length-unlink o [] = omega arith
length-unlink o (p ∷ ps) = ground (arith, length-unlink o ps)

-- An object that a scan reaches, with its count raised: what that changes.
module _ (o : ℕ) (h : Heap) (ob : Object) (m : ℕ) (e : deref o h ≡ some ob) where
  abbrev pub reached : Object
  reached = record ob { ref_count_scan = ob.ref_count_scan + 1; mark = m }

  abbrev pub after : Heap
  after = record {
    cells = set h.cells o (some reached);
    unreferred = unlink o h.unreferred;
    isolated = unlink o h.isolated;
  }

  scan_count-reached : (q : ℕ) → scan_count q after ≡ scan_count q h + one_at o q
  scan_count-reached q = elim (ℕ_discrete q o) [
    | yes p ↦
        subst (λ x. scan_count x after ≡ scan_count x h + one_at o x) (sym p)
          (rw (cell-set_self h.cells o (some reached) e, e, one_at_self o) refl)
    | no ne ↦ rw (cell-set_ne h.cells o q (some reached) ne, one_at-ne o q ne) (omega arith)
  ]

  marked-reached :
      (q : ℕ) → marked_refs q after + from_marked q ob ≡ marked_refs q h + from_marked q reached
  marked-reached q = total-set (from_marked q) h.cells o ob reached e

  unmarked-reached :
      unmarked after + (if ob.mark == 1 then 0 else 1) ≡ unmarked h + (if m == 1 then 0 else 1)
  unmarked-reached = total-set (λ x. if x.mark == 1 then 0 else 1) h.cells o ob reached e

  frame-reached : (m ≡ ob.mark) ⊎ (m ≡ 1) → Cells Darker h.cells after.cells
  frame-reached d = Cells-set h.cells o reached Darker-refl e (record { same = refl; dark = d })

pub mem-unlink : (q o : ℕ) (ps : List ℕ) → mem q (unlink o ps) ≡ true → (mem q ps ≡ true) × (q ≢ o)
unfolding mem unlink
mem-unlink q o [] h = cc
mem-unlink q o (p ∷ ps) h = ground (arith, mem-unlink q o ps)

mem-unlink_ne : (q o : ℕ) (ps : List ℕ) → q ≢ o → mem q ps ≡ true → mem q (unlink o ps) ≡ true
unfolding mem unlink
mem-unlink_ne q o [] n h = h
mem-unlink_ne q o (p ∷ ps) n h = ground (arith, mem-unlink_ne q o ps)

-- Which objects are marked, and linked, when one was reached.
module _ (o : ℕ) (h : Heap) (ob : Object) (m : ℕ) (e : deref o h ≡ some ob) where
  lit_other : (q : ℕ) → q ≢ o → Lit (after o h ob m e) q → Lit h q
  lit_other q ne l = rw (← cell-set_ne h.cells o q (some (reached o h ob m e)) ne) l

  lit_here : m ≡ 1 → Lit (after o h ob m e) o
  lit_here one = ap mark_in (cell-set_self h.cells o (some (reached o h ob m e)) e) ∙ one

  stays_reached : (q : ℕ) → mem q h.isolated ≡ true → (mem q (unlink o h.isolated) ≡ true) ⊎ (q ≡ o)
  stays_reached q i = elim (ℕ_discrete q o) [
    | yes p ↦ inr p
    | no ne ↦ inl (mem-unlink_ne q o h.isolated ne i)
  ]

-- A marked object is counted, and not entered.
hit-Marking :
    (base : ℕ → List Member) (o : ℕ) (h : Heap) (ob : Object) (e : deref o h ≡ some ob)
    → (ob.mark == 1) ≡ true
    → Marking base (one_at o) h (after o h ob ob.mark e)
hit-Marking base o h ob e one =
    let lit : ob.mark ≡ 1 = (==_iff ob.mark 1).0 one in
    let end = lit_here o h ob ob.mark e lit in
    record {
      frame = frame-reached o h ob ob.mark e (inl refl);
      reach = λ q l. elim (ℕ_discrete q o) [
        | yes p ↦ inl (subst (λ x. Lit h x) (sym p) (ap mark_in e ∙ lit))
        | no ne ↦ inl (lit_other o h ob ob.mark e q ne l)
      ];
      stays = λ q i. elim (stays_reached o h ob ob.mark e q i) [
        | inl j ↦ inl j
        | inr p ↦ inr (
          o,
          omega (arith, one_at_self o),
          subst (λ x. Walk base (Lit (after o h ob ob.mark e)) o x) (sym p) (Walk.here end),
        )
      ];
      drops = λ q i. elim (ℕ_discrete q o) [
        | yes p ↦ inr (subst (λ x. Lit (after o h ob ob.mark e) x) (sym p) end)
        | no ne ↦ inl (mem-unlink_ne q o h.unreferred ne i)
      ];
      within = λ q i. (mem-unlink q o h.isolated i).0;
      out = λ q i.
          let (j, ne) = mem-unlink q o h.unreferred i in (j, lit_other o h ob ob.mark e q ne);
      counts = λ q.
          ground
            (arith, scan_count-reached o h ob ob.mark e q, marked-reached o h ob ob.mark e q, one);
      fewer = omega (arith, unmarked-reached o h ob ob.mark e);
      shorter = length-unlink o h.unreferred;
    }

mark_hit :
    (n o state : ℕ) (h : Heap) (ob : Object) (e : deref o h ≡ some ob)
    → (ob.mark == 1) ≡ true
    → scan_object di_collect_garbage_mark nothing (suc n) o state h ≡ some (after o h ob ob.mark e)
unfolding scan_object di_collect_garbage_mark list_del_init
mark_hit n o state h ob e one = rw (e, one) refl

mark_enter :
    (n o state : ℕ) (h : Heap) (ob : Object) (e : deref o h ≡ some ob)
    → (ob.mark == 1) ≡ false
    → scan_object di_collect_garbage_mark nothing (suc n) o state h ≡ (
        scan_members (scan_object di_collect_garbage_mark nothing n) ob.members 0 (after o h ob 1 e)
        >>= λ h2. some h2)
unfolding scan_object di_collect_garbage_mark list_del_init
mark_enter n o state h ob e fresh =
    ground (arith, e, fresh, cell-set_self h.cells o (some (reached o h ob 1 e)) e)

scan_in-part :
    (o q : ℕ) (h : Heap) (ob : Object)
    → deref o h ≡ some ob
    → scanned_members q ob.members ≤ scan_in q h
scan_in-part o q h ob e = part-le-total (λ x. scanned_members q x.members) h.cells o ob e

-- Marking an object that was not marked: its visit, and then its members.
module _ (base : ℕ → List Member) (o : ℕ) (h h' : Heap) (ob : Object) (e : deref o h ≡ some ob)
    (fresh : (ob.mark == 1) ≡ false) (b : Based base h)
    (m : Marking base (λ q. scanned_members q ob.members) (after o h ob 1 e) h') where
  pub lit_after : Lit h' o
  lit_after = Lit-frame (after o h ob 1 e) h' m.frame o (lit_here o h ob 1 e refl)

  -- What is found from the members is found from the object.
  Found-from :
      (q : ℕ) → Found base (λ p. scanned_members p ob.members) h' q → Found base (one_at o) h' q
  Found-from q (p, pos, w) = (
    o,
    omega (arith, one_at_self o),
    Walk.step lit_after (subst (λ ms. 0 < scanned_members p ms) (b o ob e) pos) w,
  )

  Found-here : (q : ℕ) → q ≡ o → Found base (one_at o) h' q
  Found-here q p = (
    o,
    omega (arith, one_at_self o),
    subst (λ x. Walk base (Lit h') o x) (sym p) (Walk.here lit_after),
  )

  pub enter-Marking : Marking base (one_at o) h h'
  enter-Marking = record {
    frame = Cells-trans Darker-trans (frame-reached o h ob 1 e (inr refl)) m.frame;
    reach = λ q l. elim (ℕ_discrete q o) [
      | yes p ↦ inr (Found-here q p)
      | no ne ↦ elim (m.reach q l) [
        | inl k ↦ inl (lit_other o h ob 1 e q ne k)
        | inr f ↦ inr (Found-from q f)
      ]
    ];
    stays = λ q i. elim (stays_reached o h ob 1 e q i) [
      | inr p ↦ inr (Found-here q p)
      | inl j ↦ elim (m.stays q j) [ inl k ↦ inl k | inr f ↦ inr (Found-from q f) ]
    ];
    drops = λ q i. elim (ℕ_discrete q o) [
      | yes p ↦ inr (subst (λ x. Lit h' x) (sym p) lit_after)
      | no ne ↦ m.drops q (mem-unlink_ne q o h.unreferred ne i)
    ];
    within = λ q i. (mem-unlink q o h.isolated (m.within q i)).0;
    out = λ q i.
        let (j, f) = m.out q i in
        let (k, ne) = mem-unlink q o h.unreferred j in (k, λ l. lit_other o h ob 1 e q ne (f l));
    counts = λ q.
        ground
          (arith, scan_count-reached o h ob 1 e q, marked-reached o h ob 1 e q, m.counts q, fresh);
    fewer = ground (arith, unmarked-reached o h ob 1 e, m.fewer, fresh);
    shorter = omega (arith, length-unlink o h.unreferred, m.shorter);
  }

-- The members of an object that was not marked.
pub mark-object :
    (base : ℕ → List Member) (n o state : ℕ) (h : Heap) (ob : Object) (e : deref o h ≡ some ob)
    → Marks base (scan_object di_collect_garbage_mark nothing n) n
    → (ob.mark == 1) ≡ false
    → Followed (λ q. scan_in q h) h
    → Based base h
    → unmarked h < suc n
    → (h' : Heap) × (scan_object di_collect_garbage_mark nothing (suc n) o state h ≡ some h')
      × Marking base (λ q. scanned_members q ob.members) (after o h ob 1 e) h'
mark-object base n o state h ob e marks fresh g b l =
    let h1 = after o h ob 1 e in
    let frame = frame-reached o h ob 1 e (inr refl) in
    let (h2, run, m) =
      mark-members base (scan_object di_collect_garbage_mark nothing n) n marks ob.members 0 h1
        (λ q p. Followed-frame h h1 frame g q (omega (arith, p, scan_in-part o q h ob e)))
        (λ q p. Followed-frame h h1 frame g q (omega (arith, scan_in-frame h h1 q frame)))
        (Based-frame base h h1 frame b) (ground (arith, unmarked-reached o h ob 1 e, fresh)) in
    (h2, mark_enter n o state h ob e fresh ∙ rw run refl, m)

-- The scan of stage 1 returns with fuel for the unmarked objects, and counts each reference that it
-- follows once.
pub mark-Marks :
    (base : ℕ → List Member) (n : ℕ) → Marks base (scan_object di_collect_garbage_mark nothing n) n
mark-Marks base zero o state h f g b l = absurd (omega arith)
mark-Marks base (suc n) o state h f g b l =
    let (ob, e) = f o (omega (arith, one_at_self o)) in
    elim (Bool-cases (ob.mark == 1)) [
      | inl one ↦
          (after o h ob ob.mark e, mark_hit n o state h ob e one, hit-Marking base o h ob e one)
      | inr fresh ↦
          let (h2, run, m) = mark-object base n o state h ob e (mark-Marks base n) fresh g b l in
          (h2, run, enter-Marking base o h h2 ob e fresh b m)
    ]
