-- ===== src/Roots/Ledger.antt =====
-- The unnamed roots over the ledger: main.c, `di_add_anonymous_root`, `di_remove_anonymous_root` and
-- `di_roots_dtor`.
use deai.Common.{
  ℕ, ◌+◌, ◌≤◌, ◌<◌, true, false, List, [], ◌∷◌, ◌++◌, Option, some, ◌≡◌, refl, sym, ap, subst, ◌∙◌,
  arith, Bool-cases, inl, inr, ◌⊎◌, ◌==◌, ℕ_discrete,
}
use deai.Value.{one_at}
use deai.Heap.{Object, Heap, deref, put, mem, without, cell-set_self, cell-set_ne}
use deai.Refs.{di_ref_object, di_unref_object}
use deai.Refs.Counts.{Counted, Counted-cong, Counted-put, Linked, live}
use deai.Refs.Steps.{◌⊕◌, times, alive_of, ref-Counted}
use deai.Refs.Frame.{live-put}
use deai.Refs.Free.{Releases}
use deai.Refs.Release.{Tame}
use deai.Refs.Unref.{unref-Releases}
use deai.Roots.{di_add_anonymous_root, di_remove_anonymous_root, unref_all, di_roots_dtor}

-- The table of the roots object
abbrev pub Registered : ℕ → List ℕ → Heap → Type 0
Registered roots rs h = (ob : Object) × (deref roots h ≡ some ob) × (ob.anonymous_roots ≡ rs)

times-append : (rs : List ℕ) (p q : ℕ) → times (rs ++ p ∷ []) q ≡ times rs q + one_at p q
unfolding times
times-append [] p q = omega arith
times-append (a ∷ rs) p q = omega (arith, times-append rs p q)

times-without :
    (p : ℕ) (rs : List ℕ) (q : ℕ)
    → mem p rs ≡ true
    → times rs q ≡ times (without p rs) q + one_at p q
unfolding times mem without
times-without p [] q i = cc
times-without p (a ∷ rs) q i = elim (Bool-cases (a == p)) [
  | inl same ↦ ground (arith, same)
  | inr differs ↦ ground (arith, differs, times-without p rs q)
]

-- The table of an object is written.
table-Counted :
    {S W D : ℕ → ℕ} {h : Heap} (o : ℕ) (ob : Object) (rs : List ℕ)
    → Counted S W D h
    → deref o h ≡ some ob
    → Counted S W D (put o (record ob { anonymous_roots = rs }) h)
table-Counted {S} {W} {D} {h} o ob rs c e =
    Counted-put S W D h o ob (record ob { anonymous_roots = rs }) h.unreferred h.isolated c e
      (λ q ne. refl) (λ q ne. refl) (λ q ne. refl) (λ r r' w w' er ew k. ground (arith, er, ew, k))
      (λ q ne i. i) (λ i. subst Linked e (c.linked o i))

table-put :
    (q : ℕ) (qb qb' : Object) (o : ℕ) (ob : Object) (h : Heap)
    → deref q h ≡ some qb
    → qb'.anonymous_roots ≡ qb.anonymous_roots
    → deref o h ≡ some ob
    → (ob' : Object) × (deref o (put q qb' h) ≡ some ob')
      × (ob'.anonymous_roots ≡ ob.anonymous_roots)
table-put q qb qb' o ob h e m at = elim (ℕ_discrete o q) [
  | yes same ↦
      let it : qb ≡ ob = cc (at, e, ap (λ x. deref x h) same) in
      (
        qb',
        subst (λ x. deref x (put q qb' h) ≡ some qb') (sym same)
            (cell-set_self h.cells q (some qb') e),
        m ∙ ap Object.anonymous_roots it,
      )
  | no differs ↦ (ob, cell-set_ne h.cells q o (some qb') differs ∙ at, refl)
]

add-run :
    (roots root : ℕ) (h : Heap) (ob rb ob1 : Object)
    → deref roots h ≡ some ob
    → mem root ob.anonymous_roots ≡ false
    → deref root h ≡ some rb
    → deref roots (put root (record rb { ref_count = rb.ref_count + 1 }) h) ≡ some ob1
    → di_add_anonymous_root roots root h
      ≡ some (
        true,
        put roots
            (record ob1 { anonymous_roots = ob1.anonymous_roots ++ root ∷ [] })
            (put root (record rb { ref_count = rb.ref_count + 1 }) h),
      )
unfolding di_add_anonymous_root di_ref_object
add-run roots root h ob rb ob1 e new er e1 = rw e (rw (new, er) (rw e1 refl))

-- `di_add_anonymous_root` of an object that is held, on a heap whose counts are right with the
-- references of the table: one that is in the table already is refused, and nothing changes; else it
-- is the last in the table, which holds one more reference to it, and the counts are right with that.
pub add_anonymous-Counted :
    (S W D : ℕ → ℕ) (roots root : ℕ) (rs : List ℕ) (h : Heap)
    → Counted (S ⊕ times rs) W D h
    → Registered roots rs h
    → 0 < S root
    → ((mem root rs ≡ true) × (di_add_anonymous_root roots root h ≡ some (false, h)))
      ⊎ ((mem root rs ≡ false)
          × ((h' : Heap) × (di_add_anonymous_root roots root h ≡ some (true, h'))
              × Counted (S ⊕ times (rs ++ root ∷ [])) W D h'
              × Registered roots (rs ++ root ∷ []) h'))
unfolding di_add_anonymous_root di_ref_object
add_anonymous-Counted S W D roots root rs h c (ob, e, t) held = elim (Bool-cases (mem root rs)) [
  | inl there ↦ inl (there, rw (e, t, there) refl)
  | inr new ↦
      let (rb, er, a) = alive_of root c (omega (arith, held)) in
      let rb' : Object = record rb { ref_count = rb.ref_count + 1 } in
      let h1 = put root rb' h in
      let c1 = ref-Counted root c er a in
      let (ob1, e1, same) = table-put root rb rb' roots ob h er refl e in
      let all = ob1.anonymous_roots ++ root ∷ [] in
      let ob2 : Object = record ob1 { anonymous_roots = all } in
      let filled : all ≡ rs ++ root ∷ [] = ap (λ x. x ++ root ∷ []) (same ∙ t) in
      inr (
        new,
        (
          put roots ob2 h1,
          add-run roots root h ob rb ob1 e (ap (mem root) t ∙ new) er e1,
          Counted-cong (λ q. omega (arith, times-append rs root q)) (λ q. refl) (λ q. refl)
              (table-Counted roots ob1 all c1 e1),
          (ob2, cell-set_self h1.cells roots (some ob2) e1, filled),
        ),
      )
]

-- `di_remove_anonymous_root`, on a heap whose counts are right with the references of the table: an
-- object that is not in the table is refused, and nothing changes; else it is first taken out of the
-- table, once, the others staying in order, and then its reference is dropped; with destructors that
-- drop just what they take it returns, and the counts are right with the references of the others.
-- Fuel for as many nested calls as there are live objects is enough.
pub remove_anonymous-Counted :
    (run_dtor : ℕ → ℕ → Heap → Option Heap) (fuel : ℕ) (S W D : ℕ → ℕ) (roots root : ℕ)
    (rs : List ℕ) (h : Heap)
    → Tame run_dtor
    → Counted (S ⊕ times rs) W D h
    → Registered roots rs h
    → live h ≤ fuel
    → ((mem root rs ≡ false)
        × (di_remove_anonymous_root (di_unref_object run_dtor fuel) roots root h ≡ some (false, h)))
      ⊎ ((mem root rs ≡ true)
          × ((h1 : Heap) × (h' : Heap) × Registered roots (without root rs) h1
              × Counted (S ⊕ times rs) W D h1
              × (di_unref_object run_dtor fuel root h1 ≡ some h')
              × (di_remove_anonymous_root (di_unref_object run_dtor fuel) roots root h
                  ≡ some (true, h'))
              × Counted (S ⊕ times (without root rs)) W D h'
              × (live h' ≤ live h)))
unfolding di_remove_anonymous_root
remove_anonymous-Counted run_dtor fuel S W D roots root rs h tame c (ob, e, t) l =
    elim (Bool-cases (mem root rs)) [
      | inr gone ↦ inl (gone, rw (e, t, gone) refl)
      | inl there ↦
          let rest = without root ob.anonymous_roots in
          let ob' : Object = record ob { anonymous_roots = rest } in
          let h1 = put roots ob' h in
          let c1 = table-Counted roots ob rest c e in
          let calm = live-put roots h ob ob' e in
          let (h2, run, tidy) =
            unref-Releases run_dtor tame fuel (S ⊕ times (without root rs)) W D root h1
              (Counted-cong (λ q. omega (arith, times-without root rs q there)) (λ q. refl)
                (λ q. refl) c1)
              (omega (arith, calm)) in
          inr (
            there,
            (
              h1,
              h2,
              (ob', cell-set_self h.cells roots (some ob') e, ap (without root) t),
              c1,
              run,
              rw e (rw (t, there) (rw (← t, run) refl)),
              tidy.counted,
              omega (arith, calm, tidy.calm),
            ),
          )
    ]

-- One reference to each object of the list is dropped, in order.
pub data Drops (u : ℕ → Heap → Option Heap) : List ℕ → Heap → Heap → Type 0 where
  stops : {h : Heap} → Drops u [] h h
  drops :
      {p : ℕ} {ps : List ℕ} {h h1 h2 : Heap}
      → u p h ≡ some h1
      → Drops u ps h1 h2
      → Drops u (p ∷ ps) h h2

unref_all-Counted :
    (u : ℕ → Heap → Option Heap) (n : ℕ) (rel : Releases u n) (ps : List ℕ) (S W D : ℕ → ℕ)
    (h : Heap)
    → Counted (S ⊕ times ps) W D h
    → live h ≤ n
    → (h' : Heap) × (unref_all u ps h ≡ some h')
      × Counted S W D h'
      × (live h' ≤ live h)
      × Drops u ps h h'
unfolding unref_all times
unref_all-Counted u n rel [] S W D h c l =
    (h, refl, Counted-cong (λ q. omega arith) (λ q. refl) (λ q. refl) c, omega arith, Drops.stops)
unref_all-Counted u n rel (p ∷ ps) S W D h c l =
    let (h1, run, t) =
      rel (S ⊕ times ps) W D p h (Counted-cong (λ q. omega arith) (λ q. refl) (λ q. refl) c) l in
    let (h2, runs, c2, l2, d) =
      unref_all-Counted u n rel ps S W D h1 t.counted (omega (arith, t.calm)) in
    (h2, rw (run, runs) refl, c2, omega (arith, l2, t.calm), Drops.drops run d)

-- `di_roots_dtor`, on a heap whose counts are right with the references of the table: it first empties
-- the table, and in the heap that this leaves a removal of any unnamed root finds nothing and drops
-- nothing; from there it drops every reference that was in the table once, in order; with destructors
-- that drop just what they take, and so remove no root themselves, it returns, and the counts are right
-- without these references. Fuel for as many nested calls as there are live objects is enough.
pub roots_dtor-Counted :
    (run_dtor : ℕ → ℕ → Heap → Option Heap) (fuel : ℕ) (S W D : ℕ → ℕ) (roots : ℕ) (rs : List ℕ)
    (h : Heap)
    → Tame run_dtor
    → Counted (S ⊕ times rs) W D h
    → Registered roots rs h
    → live h ≤ fuel
    → (h1 : Heap) × (h' : Heap) × Registered roots [] h1
      × Counted (S ⊕ times rs) W D h1
      × ((unref : ℕ → Heap → Option Heap) (root : ℕ)
          → di_remove_anonymous_root unref roots root h1 ≡ some (false, h1))
      × Drops (di_unref_object run_dtor fuel) rs h1 h'
      × (di_roots_dtor (di_unref_object run_dtor fuel) roots h ≡ some h')
      × Counted S W D h'
      × (live h' ≤ live h)
unfolding di_roots_dtor di_remove_anonymous_root mem
roots_dtor-Counted run_dtor fuel S W D roots rs h tame c (ob, e, t) l =
    let u = di_unref_object run_dtor fuel in
    let ob' : Object = record ob { anonymous_roots = [] } in
    let h1 = put roots ob' h in
    let e1 : deref roots h1 ≡ some ob' = cell-set_self h.cells roots (some ob') e in
    let calm = live-put roots h ob ob' e in
    let c1 = table-Counted roots ob [] c e in
    let (h2, run, c2, l2, each) =
      unref_all-Counted u fuel (unref-Releases run_dtor tame fuel) rs S W D h1 c1
        (omega (arith, calm)) in
    (
      h1,
      h2,
      (ob', e1, refl),
      c1,
      λ unref root. rw e1 refl,
      each,
      rw (e, t, run) refl,
      c2,
      omega (arith, l2, calm),
    )
