-- ===== src/Refs/Frame.antt =====
-- What a call leaves: a ledger that is right, no more live objects than before, and the members of
-- the objects that are being destroyed further out.
use deai.Common.{
  ℕ, ◌+◌, ◌≤◌, ◌<◌, true, false, List, [], Option, none, some, ◌≡◌, ◌≢◌, refl, sym, ap, subst,
  arith, ℕ_discrete, ◌∙◌, inl, inr, ◌==◌, Bool-cases,
}
use deai.Heap.{Member, Object, Heap, deref, put, free, cell-set_self, cell-set_ne}
use deai.Heap.Sums.{total-set, total-free}
use deai.Refs.{di_decrement_weak_ref_count, decrement}
use deai.Refs.Counts.{
  Linked, Counted, ObOk-at, Counted-put, Counted-free, strong_in, weak_in, implicit, live,
}

abbrev pub members_in : Option Object → List Member
members_in none = []
members_in (some ob) = ob.members

abbrev pub members_of : ℕ → Heap → List Member
members_of q h = members_in (deref q h)

-- `P` tells the objects whose members must stay.
pub record Tidy (P : ℕ → Type 0) (S W D : ℕ → ℕ) (h h' : Heap) : Type 0 where
  pub counted : Counted S W D h'
  pub calm : live h' ≤ live h
  pub kept : (q : ℕ) → 0 < D q → P q → members_of q h' ≡ members_of q h

abbrev pub Everything : ℕ → Type 0
Everything q = Unit {0}

pub Tidy-trans :
    {P : ℕ → Type 0} {S W D S' W' D' : ℕ → ℕ} {a b d : Heap}
    → ((q : ℕ) → 0 < D' q → 0 < D q)
    → Tidy P S W D a b
    → Tidy P S' W' D' b d
    → Tidy P S' W' D' a d
Tidy-trans up s t = record {
  counted = t.counted;
  calm = omega (arith, s.calm, t.calm);
  kept = λ q pos p. t.kept q pos p ∙ s.kept q (up q pos) p;
}

pub Tidy-refl : {P : ℕ → Type 0} {S W D : ℕ → ℕ} {h : Heap} → Counted S W D h → Tidy P S W D h h
Tidy-refl c = record { counted = c; calm = omega arith; kept = λ q pos p. refl }

pub members_of-put :
    (q o : ℕ) (h : Heap) (ob ob' : Object)
    → deref o h ≡ some ob
    → ob'.members ≡ ob.members
    → members_of q (put o ob' h) ≡ members_of q h
members_of-put q o h ob ob' e m = elim (ℕ_discrete q o) [
  | yes p ↦
      subst (λ x. members_of x (put o ob' h) ≡ members_of x h) (sym p)
        (rw (cell-set_self h.cells o (some ob') e, e) m)
  | no ne ↦ rw (cell-set_ne h.cells o q (some ob') ne)
]

pub live-put :
    (o : ℕ) (h : Heap) (ob ob' : Object)
    → deref o h ≡ some ob
    → live (put o ob' h) + implicit ob ≡ live h + implicit ob'
live-put o h ob ob' e = total-set implicit h.cells o ob ob' e

-- One weak reference, or the end of a destruction: the object is freed with the last of them.
module _ {S V C : ℕ → ℕ} (W D : ℕ → ℕ) {h : Heap} (o : ℕ) {ob : Object} (c : Counted S V C h)
    (e : deref o h ≡ some ob) (hw : (q : ℕ) → q ≢ o → V q ≡ W q) (hd : (q : ℕ) → q ≢ o → C q ≡ D q)
    (one : V o + C o ≡ W o + D o + 1) (fewer : D o ≤ C o)
    (bare : ob.destroyed ≡ true → D o ≡ 0 → ob.members ≡ []) where
  left : Object
  left = record ob { weak_ref_count = decrement ob.weak_ref_count }

  drop_keep : (left.weak_ref_count == 0) ≡ false → Tidy Everything S W D h (put o left h)
  unfolding left
  drop_keep more = record {
    counted =
        Counted-put S W D h o ob left h.unreferred h.isolated c e (λ q ne. refl)
          (λ q ne. omega (arith, hw q ne)) hd
          (λ r r' w w' er ew k. ground (arith, one, fewer, er, ew, k, bare)) (λ q ne i. i)
          (λ i. subst Linked e (c.linked o i));
    calm = omega (arith, live-put o h ob left e);
    kept = λ q pos p. members_of-put q o h ob left e refl;
  }

  last_drop :
      (left.weak_ref_count == 0) ≡ true
      → (ob.ref_count ≡ 0)
        × (ob.destroyed ≡ true)
        × (S o + strong_in o h ≡ 0)
        × (W o + weak_in o h ≡ 0)
        × (D o ≡ 0)
  unfolding left
  last_drop z = let k = ObOk-at o c e in ground (arith, k, one)

  drop_free : (left.weak_ref_count == 0) ≡ true → Tidy Everything S W D h (free o h)
  drop_free z =
      let (r, dead, s, w, d) = last_drop z in
      record {
        counted = Counted-free W D h o ob c e (bare dead d) dead hw hd s w d;
        calm = omega (arith, total-free implicit h.cells o ob e);
        kept = λ q pos p.
            rw (cell-set_ne h.cells o q none (λ (x : q ≡ o). omega (arith, ap D x))) refl;
      }

  pub decrement-Tidy :
      (h' : Heap) × (di_decrement_weak_ref_count o h ≡ some h') × Tidy Everything S W D h h'
  unfolding di_decrement_weak_ref_count left
  decrement-Tidy = elim (Bool-cases (left.weak_ref_count == 0)) [
    | inl z ↦ (free o h, rw (e, z, (last_drop z).0), drop_free z)
    | inr more ↦ (put o left h, rw (e, more), drop_keep more)
  ]
