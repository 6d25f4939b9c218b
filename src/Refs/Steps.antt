-- ===== src/Refs/Steps.antt =====
-- What taking a reference, and dropping a weak one, do to the ledger.
use deai.Common.{
  ℕ, ◌+◌, ◌<◌, List, [], ◌∷◌, false, none, some, ◌≡◌, ◌≢◌, refl, subst, arith, Option-cases, inl,
  inr,
}
use deai.Value.{one_at}
use deai.Heap.{Object, Heap, deref, put}
use deai.Refs.Counts.{CellOk, Linked, Counted, ObOk-at, Counted-put, strong_in, weak_in}

infixl 60 ◌⊕◌
abbrev pub ◌⊕◌ : (ℕ → ℕ) → (ℕ → ℕ) → ℕ → ℕ
(f ⊕ g) q = f q + g q

-- How often an object is in a list
unfoldable pub times : List ℕ → ℕ → ℕ
times [] q = 0
times (p ∷ ps) q = one_at p q + times ps q

pub one_at-ne : (o q : ℕ) → q ≢ o → one_at o q ≡ 0
one_at-ne o q ne = ground arith

pub one_at_self : (o : ℕ) → one_at o o ≡ 1
one_at_self o = ground arith

module _ {S W D : ℕ → ℕ} {h : Heap} (o : ℕ) (c : Counted S W D h) where
  -- What a strong reference leads to is alive.
  pub alive_of :
      0 < S o + strong_in o h → (ob : Object) × (deref o h ≡ some ob) × (ob.destroyed ≡ false)
  alive_of pos = elim (Option-cases (deref o h)) [
    | inl e ↦ absurd (nothing e)
    | inr (ob, e) ↦ (ob, e, live_ob ob e)
  ]
    where
      nothing : deref o h ≡ none → ⊥
      nothing e =
          omega (arith, subst (CellOk (S o + strong_in o h) (W o + weak_in o h) (D o)) e (c.at o))

      live_ob : (ob : Object) → deref o h ≡ some ob → ob.destroyed ≡ false
      live_ob ob e = let k = ObOk-at o c e in ground (arith, k)

  -- What a reference of either kind leads to is memory that was not freed.
  pub allocated_of : 0 < W o + weak_in o h → (ob : Object) × (deref o h ≡ some ob)
  allocated_of pos = elim (Option-cases (deref o h)) [
    | inl e ↦ absurd (nothing e)
    | inr (ob, e) ↦ (ob, e)
  ]
    where
      nothing : deref o h ≡ none → ⊥
      nothing e =
          omega (arith, subst (CellOk (S o + strong_in o h) (W o + weak_in o h) (D o)) e (c.at o))

  module _ {ob : Object} (e : deref o h ≡ some ob) where
    pub ref-Counted :
        ob.destroyed ≡ false
        → Counted (S ⊕ one_at o) W D (put o (record ob { ref_count = ob.ref_count + 1 }) h)
    ref-Counted a =
        Counted-put (S ⊕ one_at o) W D h o ob (record ob { ref_count = ob.ref_count + 1 })
          h.unreferred h.isolated c e (λ q ne. omega (arith, one_at-ne o q ne)) (λ q ne. refl)
          (λ q ne. refl) (λ r r' w w' er ew k. ground (arith, one_at_self o, er, ew, k))
          (λ q ne i. i) (λ i. a)

    pub weak_ref-Counted :
        Counted S (W ⊕ one_at o) D (put o (record ob { weak_ref_count = ob.weak_ref_count + 1 }) h)
    weak_ref-Counted =
        Counted-put S (W ⊕ one_at o) D h o ob (record ob { weak_ref_count = ob.weak_ref_count + 1 })
          h.unreferred h.isolated c e (λ q ne. refl) (λ q ne. omega (arith, one_at-ne o q ne))
          (λ q ne. refl) (λ r r' w w' er ew k. ground (arith, one_at_self o, er, ew, k))
          (λ q ne i. i) (λ i. subst Linked e (c.linked o i))
