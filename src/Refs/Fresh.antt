-- ===== src/Refs/Fresh.antt =====
-- New objects over the ledger: object.c, `di_new_object`.
use deai.Common.{
  ℕ, zero, suc, ◌+◌, ◌≡◌, ◌≢◌, ◌⊎◌, true, List, [], ◌∷◌, ◌++◌, Option, none, some, refl, sym, ap,
  subst, ◌∙◌, length, arith, inl, inr, ℕ_discrete,
}
use deai.Value.{one_at}
use deai.Heap.{Object, Heap, cell, deref, mem}
use deai.Heap.Sums.{total, strong_members, weak_members, all_sound}
use deai.Refs.{fresh}
use deai.Refs.Counts.{Counted, CellOk, CellOk-cong, Linked, implicit, live, strong_in, weak_in}
use deai.Refs.Steps.{◌⊕◌, one_at-ne, one_at_self}

total-append :
    (f : Object → ℕ) (cs : List (Option Object)) (x : Object)
    → total f (cs ++ some x ∷ []) ≡ total f cs + f x
unfolding total
total-append f [] x = omega arith
total-append f (none ∷ cs) x = total-append f cs x
total-append f (some ob ∷ cs) x = omega (arith, total-append f cs x)

cell-length : (cs : List (Option Object)) → cell cs (length cs) ≡ none
cell-length [] = refl
cell-length (c ∷ cs) = cell-length cs

cell-append_last :
    (cs : List (Option Object)) (c : Option Object) → cell (cs ++ c ∷ []) (length cs) ≡ c
cell-append_last [] c = refl
cell-append_last (d ∷ cs) c = cell-append_last cs c

cell-append_ne :
    (cs : List (Option Object)) (c : Option Object) (q : ℕ)
    → q ≢ length cs
    → cell (cs ++ c ∷ []) q ≡ cell cs q
cell-append_ne [] c zero ne = absurd (ne refl)
cell-append_ne [] c (suc q) ne = refl
cell-append_ne (d ∷ cs) c zero ne = refl
cell-append_ne (d ∷ cs) c (suc q) ne = cell-append_ne cs c q (λ e. ne (ap suc e))

abbrev pub with_new : Heap → Heap
with_new h = record h { cells = h.cells ++ some fresh ∷ [] }

pub live-new : (h : Heap) → live (with_new h) ≡ live h + 1
live-new h = total-append implicit h.cells fresh

-- The members of the objects are what they were.
pub members-new :
    (h : Heap) (o : ℕ) (ob : Object)
    → deref o (with_new h) ≡ some ob
    → (deref o h ≡ some ob) ⊎ (ob.members ≡ [])
members-new h o ob e = elim (ℕ_discrete o (length h.cells)) [
  | yes last ↦
      let it : fresh ≡ ob = cc (cell-append_last h.cells (some fresh), e, last) in
      inr (ap Object.members (sym it))
  | no old ↦ inl (sym (cell-append_ne h.cells (some fresh) o old) ∙ e)
]

pub deref-new :
    (h : Heap) (o : ℕ) {ob : Object} → deref o h ≡ some ob → deref o (with_new h) ≡ some ob
deref-new h o e = elim (ℕ_discrete o (length h.cells)) [
  | yes last ↦ absurd (cc (cell-length h.cells, e, ap (cell h.cells) last))
  | no old ↦ cell-append_ne h.cells (some fresh) o old ∙ e
]

module _ (S W D : ℕ → ℕ) (h : Heap) (c : Counted S W D h) where
  last-Ok :
      CellOk
        ((S ⊕ one_at (length h.cells)) (length h.cells) + strong_in (length h.cells) (with_new h))
        (W (length h.cells) + weak_in (length h.cells) (with_new h))
        (D (length h.cells))
        (some fresh)
  unfolding strong_members weak_members all_sound
  last-Ok =
      let o = length h.cells in
      let nothing : CellOk (S o + strong_in o h) (W o + weak_in o h) (D o) none =
        subst (CellOk (S o + strong_in o h) (W o + weak_in o h) (D o)) (cell-length h.cells)
          (c.at o) in
      ground (
        arith,
        nothing.0,
        nothing.1,
        one_at_self o,
        total-append (λ x. strong_members o x.members) h.cells fresh,
        total-append (λ x. weak_members o x.members) h.cells fresh,
      )

  new-at :
      (q : ℕ)
      → CellOk
          ((S ⊕ one_at (length h.cells)) q + strong_in q (with_new h))
          (W q + weak_in q (with_new h))
          (D q)
          (deref q (with_new h))
  unfolding strong_members weak_members
  new-at q = elim (ℕ_discrete q (length h.cells)) [
    | yes last ↦
        subst
          (λ x.
            CellOk ((S ⊕ one_at (length h.cells)) x + strong_in x (with_new h))
              (W x + weak_in x (with_new h)) (D x) (deref x (with_new h)))
          (sym last) (rw (cell-append_last h.cells (some fresh)) last-Ok)
    | no old ↦ rw (cell-append_ne h.cells (some fresh) q old) (
        CellOk-cong (deref q h)
          (omega (
            arith,
            one_at-ne (length h.cells) q old,
            total-append (λ x. strong_members q x.members) h.cells fresh,
          ))
          (omega (arith, total-append (λ x. weak_members q x.members) h.cells fresh)) refl (c.at q))
  ]

  new-Linked : (q : ℕ) → mem q h.unreferred ≡ true → Linked (deref q (with_new h))
  new-Linked q i = elim (ℕ_discrete q (length h.cells)) [
    | yes last ↦
        subst (λ x. Linked (deref x (with_new h))) (sym last)
          (rw (cell-append_last h.cells (some fresh)) refl)
    | no old ↦ rw (cell-append_ne h.cells (some fresh) q old) (c.linked q i)
  ]

  pub with_new-Counted : Counted (S ⊕ one_at (length h.cells)) W D (with_new h)
  with_new-Counted = record { at = new-at; linked = new-Linked }
