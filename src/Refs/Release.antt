-- ===== src/Refs/Release.antt =====
-- `di_unref_object`: dropping a reference never faults and keeps the ledger right, however far the
-- destruction spreads.
use deai.Common.{
  ℕ, zero, suc, ◌+◌, ◌-◌, ◌≤◌, ◌<◌, true, false, List, [], ◌∷◌, Option, none, some, ◌≡◌, ◌≢◌, refl,
  sym, ap, subst, set, arith, ◌∙◌, ◌>>=◌, ◌==◌,
}
use deai.Value.{one_at}
use deai.Heap.{Heap, Object, deref, put, mem, unlink, list_del_init, cell-set_self}
use deai.Heap.Sums.{total-free}
use deai.Refs.{di_finalize_object_inner, di_destroy_object, di_decrement_weak_ref_count, call_dtor}
use deai.Refs.Counts.{Counted, Counted-put, Linked, ObOk-at, live, implicit}
use deai.Refs.Steps.{◌⊕◌, alive_of, one_at-ne, one_at_self}
use deai.Refs.Frame.{
  Tidy, Tidy-trans, Tidy-refl, Everything, members_of, members_of-put, live-put, decrement-Tidy,
}
use deai.Refs.Free.{Releases}
use deai.Refs.Finalize.{Others, Tidy-Others, dying_of, members-gone}

-- What the code assumes of a destructor: it runs to its end, drops the references that it takes,
-- and leaves the members of other objects that are being destroyed alone.
abbrev pub Tame : (ℕ → ℕ → Heap → Option Heap) → Type 0
Tame run_dtor =
    (d o : ℕ) (S W D : ℕ → ℕ) (h : Heap)
    → Counted S W D h
    → 0 < D o
    → (h' : Heap) × (run_dtor d o h ≡ some h') × Tidy (Others o) S W D h h'

set-set :
    (cs : List (Option Object)) (o : ℕ) (a b : Option Object) → set (set cs o a) o b ≡ set cs o b
set-set [] o a b = refl
set-set (x ∷ cs) zero a b = refl
set-set (x ∷ cs) (suc o) a b = ap (λ r. x ∷ r) (set-set cs o a b)

mem-unlink_self : (o : ℕ) (ps : List ℕ) → mem o (unlink o ps) ≡ false
unfolding mem unlink
mem-unlink_self o [] = refl
mem-unlink_self o (p ∷ ps) = ground (arith, mem-unlink_self o ps)

mem-unlink : (q o : ℕ) (ps : List ℕ) → mem q (unlink o ps) ≡ true → mem q ps ≡ true
unfolding mem unlink
mem-unlink q o [] h = h
mem-unlink q o (p ∷ ps) h = ground (arith, mem-unlink q o ps)

pub live_pos :
    (o : ℕ) (h : Heap) (ob : Object) → deref o h ≡ some ob → ob.destroyed ≡ false → 0 < live h
live_pos o h ob e a = ground (arith, total-free implicit h.cells o ob e)

abbrev pub less : Object → Object
less ob = record ob { ref_count = ob.ref_count - 1 }

abbrev dead : Object → Object
dead ob = record ob { ref_count = ob.ref_count - 1; destroyed = true }

abbrev marked : ℕ → Object → Heap → Heap
marked o ob h = record {
  cells = set h.cells o (some (dead ob));
  unreferred = unlink o h.unreferred;
  isolated = unlink o h.isolated;
}

-- One strong reference is dropped, and it was not the last.
module _ {S W D : ℕ → ℕ} (o : ℕ) (h : Heap) (ob : Object) (u i : List ℕ)
    (c : Counted (S ⊕ one_at o) W D h) (e : deref o h ≡ some ob)
    (more : (ob.ref_count - 1 == 0) ≡ false)
    (hu : (q : ℕ) → q ≢ o → mem q u ≡ true → mem q h.unreferred ≡ true) where
  pub drop-Tidy :
      Tidy Everything S W D h
        (record { cells = set h.cells o (some (less ob)); unreferred = u; isolated = i })
  drop-Tidy = record {
    counted =
        Counted-put S W D h o ob (less ob) u i c e (λ q ne. omega (arith, one_at-ne o q ne))
          (λ q ne. refl) (λ q ne. refl)
          (λ r r' w w' er ew k. ground (arith, one_at_self o, er, ew, k, more)) hu
          (λ l. let k = ObOk-at o c e in ground (arith, k, more));
    calm = omega (arith, live-put o h ob (less ob) e);
    kept = λ q pos p. members_of-put q o h ob (less ob) e refl;
  }

-- The last strong reference is dropped: the object is marked destroyed, and holds its implicit weak
-- reference as one of the destruction.
module _ (S W D : ℕ → ℕ) (o : ℕ) (h : Heap) (ob : Object) (c : Counted (S ⊕ one_at o) W D h)
    (e : deref o h ≡ some ob) (one : ob.ref_count - 1 ≡ 0) where
  alive_before : (ob.destroyed ≡ false) × (D o ≡ 0)
  alive_before =
      let (ob2, e2, a) = alive_of o c (omega (arith, one_at_self o)) in
      let k = ObOk-at o c e in
      let same : some ob2 ≡ some ob = sym e2 ∙ e in ground (arith, k, same, one_at_self o, a)

  mark-Counted : Counted S W (D ⊕ one_at o) (marked o ob h)
  mark-Counted =
      Counted-put S W (D ⊕ one_at o) h o ob (dead ob) (unlink o h.unreferred) (unlink o h.isolated)
        c e (λ q ne. omega (arith, one_at-ne o q ne)) (λ q ne. refl)
        (λ q ne. omega (arith, one_at-ne o q ne))
        (λ r r' w w' er ew k. ground (arith, one_at_self o, er, ew, k, one, alive_before))
        (λ q ne i. mem-unlink q o h.unreferred i) (λ i. cc (mem-unlink_self o h.unreferred))

  mark-Tidy : Tidy Everything S W (D ⊕ one_at o) h (marked o ob h)
  mark-Tidy = record {
    counted = mark-Counted;
    calm = omega (arith, live-put o h ob (dead ob) e);
    kept = λ q pos p. members_of-put q o h ob (dead ob) e refl;
  }

  mark-calm : live (marked o ob h) + 1 ≡ live h
  mark-calm = ground (arith, live-put o h ob (dead ob) e, alive_before)

-- With no reference left, the assertion of `di_destroy_object` holds, and it runs on the marked heap.
destroy-run :
    (u : ℕ → Heap → Option Heap) (run_dtor : ℕ → ℕ → Heap → Option Heap) (o : ℕ) (h : Heap)
    (ob : Object)
    → deref o h ≡ some ob
    → ob.ref_count - 1 ≡ 0
    → di_destroy_object u run_dtor o (list_del_init o (put o (less ob) h)) ≡ (
        di_finalize_object_inner u run_dtor o (marked o ob h) >>= λ gone.
        di_decrement_weak_ref_count o gone)
unfolding di_destroy_object list_del_init
destroy-run u run_dtor o h ob e one = rw (
  cell-set_self h.cells o (some (less ob)) e,
  set-set h.cells o (some (less ob)) (some (dead ob)),
  one,
)

module _ (run_dtor : ℕ → ℕ → Heap → Option Heap) (tame : Tame run_dtor) (u : ℕ → Heap → Option Heap)
    (n : ℕ) (rel : Releases u n) where
  same_counts :
      {S W D : ℕ → ℕ} (o : ℕ) (h : Heap) (ob : Object) (d : Option ℕ)
      → Counted S W D h
      → deref o h ≡ some ob
      → Tidy Everything S W D h (put o (record ob { dtor = d }) h)
  same_counts {S} {W} {D} o h ob d c e = record {
    counted =
        Counted-put S W D h o ob (record ob { dtor = d }) h.unreferred h.isolated c e (λ q ne. refl)
          (λ q ne. refl) (λ q ne. refl) (λ r r' w w' er ew k. ground (arith, er, ew, k))
          (λ q ne i. i) (λ i. subst Linked e (c.linked o i));
    calm = omega (arith, live-put o h ob (record ob { dtor = d }) e);
    kept = λ q pos p. members_of-put q o h ob (record ob { dtor = d }) e refl;
  }

  -- The destructor, if there is one, runs on the object with its `dtor` field cleared.
  dtor-Tidy :
      {S W D : ℕ → ℕ} (o : ℕ) (h : Heap) (ob : Object) (d : Option ℕ)
      → Counted S W D h
      → 0 < D o
      → deref o h ≡ some ob
      → (h' : Heap) × (call_dtor u run_dtor d o ob h ≡ some h') × Tidy (Others o) S W D h h'
  unfolding call_dtor
  dtor-Tidy o h ob none c pos e = (h, refl, Tidy-refl c)
  dtor-Tidy {S} {W} {D} o h ob (some d) c pos e =
      let t0 = same_counts o h ob none c e in
      let (h1, run, t1) = tame d o S W D (put o (record ob { dtor = none }) h) t0.counted pos in
      (h1, run, Tidy-trans (λ q p. p) (Tidy-Others o t0) t1)

  finalize-Tidy :
      {S W D : ℕ → ℕ} (o : ℕ) (h : Heap)
      → Counted S W D h
      → 0 < D o
      → live h ≤ n
      → (h' : Heap) × (di_finalize_object_inner u run_dtor o h ≡ some h')
        × Tidy (Others o) S W D h h'
        × (members_of o h' ≡ [])
  unfolding di_finalize_object_inner
  finalize-Tidy {S} {W} {D} o h c pos l =
      let (ob, e, m) = dying_of o c pos in
      let (h1, run, t1) = dtor-Tidy o h ob ob.dtor c pos e in
      let (ob1, e1, m1) = dying_of o t1.counted pos in
      let (h2, go, t2, bare) =
        members-gone u n rel o ob1.members S W D h1 t1.counted pos (sym m1)
          (omega (arith, t1.calm)) in
      (h2, rw (e, run, e1) go, Tidy-trans (λ q p. p) t1 t2, bare)

  -- The destruction of an object whose last reference is gone, from the heap where it is marked.
  pub destroy-Tidy :
      (S W D : ℕ → ℕ) (o : ℕ) (h : Heap) (ob : Object)
      → Counted (S ⊕ one_at o) W D h
      → deref o h ≡ some ob
      → ob.ref_count - 1 ≡ 0
      → live h ≤ suc n
      → (h' : Heap) × (di_destroy_object u run_dtor o (list_del_init o (put o (less ob) h))
          ≡ some h')
        × Tidy Everything S W D h h'
  destroy-Tidy S W D o h ob c e one l =
      let t0 = mark-Tidy S W D o h ob c e one in
      let (was, flat) = alive_before S W D o h ob c e one in
      let (h1, run, t1, bare) =
        finalize-Tidy o (marked o ob h) t0.counted (omega (arith, one_at_self o))
          (omega (arith, mark-calm S W D o h ob c e one)) in
      let (ob1, e1, m1) = dying_of o t1.counted (omega (arith, one_at_self o)) in
      let (h2, go, t2) =
        decrement-Tidy {V = W} {C = D ⊕ one_at o} W D o t1.counted e1 (λ q ne. refl)
          (λ q ne. omega (arith, one_at-ne o q ne)) (omega (arith, one_at_self o)) (omega arith)
          (λ x y. m1 ∙ bare) in
      (
        h2,
        rw (destroy-run u run_dtor o h ob e one, run) go,
        record {
          counted = t2.counted;
          calm = omega (arith, t0.calm, t1.calm, t2.calm);
          kept = λ q pos p.
              t2.kept q pos tt
              ∙ (t1.kept q (omega arith) (λ x. omega (arith, ap D x, flat))
                  ∙ t0.kept q (omega arith) tt);
        },
      )
