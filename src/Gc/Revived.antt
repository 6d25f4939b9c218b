-- ===== src/Gc/Revived.antt =====
-- The loop of the collector, object.c, that takes the revived roots out of the list.
use deai.Common.{
  ℕ, ◌≤◌, true, List, [], ◌∷◌, some, ◌≡◌, ◌≢◌, inl, inr, refl, sym, ap, subst, ◌∙◌, arith, ◌==◌,
  Bool-cases, ℕ_discrete,
}
use deai.Heap.{Object, Heap, deref, mem, list_del_init}
use deai.Gc.{drop_revived}
use deai.Gc.Mark.{mark_in}
use deai.Gc.Visited.{mem-unlink}
use deai.Gc.Scan.{mark_of}

drop-stay :
    (i : ℕ) (is : List ℕ) (h : Heap) (ob : Object)
    → deref i h ≡ some ob
    → (ob.mark == 2) ≡ true
    → drop_revived (i ∷ is) h ≡ drop_revived is h
unfolding drop_revived
drop-stay i is h ob e two = ground (arith, e, two)

drop-out :
    (i : ℕ) (is : List ℕ) (h : Heap) (ob : Object)
    → deref i h ≡ some ob
    → ob.mark ≡ 0
    → drop_revived (i ∷ is) h ≡ drop_revived is (list_del_init i h)
unfolding drop_revived
drop-out i is h ob e z = rw (e, z) refl

mem-there : (q i : ℕ) (is : List ℕ) → mem q is ≡ true → mem q (i ∷ is) ≡ true
unfolding mem
mem-there q i is j = ground (arith, j)

mem-head : (i : ℕ) (is : List ℕ) → mem i (i ∷ is) ≡ true
unfolding mem
mem-head i is = ground arith

mem-tail : (q i : ℕ) (is : List ℕ) → q ≢ i → mem q (i ∷ is) ≡ true → mem q is ≡ true
unfolding mem
mem-tail q i is ne j = ground (arith, ne, j)

-- The roots that are revived leave the list, and no other object does.
pub drop-roots :
    (is : List ℕ) (h : Heap)
    → ((q : ℕ)
        → mem q is ≡ true
        → (ob : Object) × (deref q h ≡ some ob) × (ob.mark ≤ 2) × (ob.mark ≢ 1))
    → (h' : Heap) × (drop_revived is h ≡ some h')
      × (h'.cells ≡ h.cells)
      × ((q : ℕ)
          → mem q h'.isolated ≡ true
          → (mem q h.isolated ≡ true) × (mem q is ≡ true → mark_of q h ≡ 2))
unfolding drop_revived mem
drop-roots [] h ok = (h, refl, refl, λ q i. (i, λ j. cc))
drop-roots (i ∷ is) h ok =
    let (ob, at, small, ne) = ok i (mem-head i is) in
    elim (Bool-cases (ob.mark == 2)) [
      | inl two ↦
          let (h', run, same, stay) = drop-roots is h (λ q j. ok q (mem-there q i is j)) in
          (
            h',
            drop-stay i is h ob at two ∙ run,
            same,
            λ q j. (
              (stay q j).0,
              λ l. elim (ℕ_discrete q i) [
                | yes p ↦ subst (λ z. mark_of z h ≡ 2) (sym p) (ap mark_in at ∙ ground (arith, two))
                | no other ↦ (stay q j).1 (mem-tail q i is other l)
              ],
            ),
          )
      | inr two ↦
          let (h', run, same, stay) =
            drop-roots is (list_del_init i h) (λ q j. ok q (mem-there q i is j)) in
          (
            h',
            drop-out i is h ob at (ground (arith, two, small, ne)) ∙ run,
            same,
            λ q j.
                let (linked, other) = mem-unlink q i h.isolated (stay q j).0 in
                (linked, λ l. (stay q j).1 (mem-tail q i is other l)),
          )
    ]
