-- ===== src/Refs/Unref.antt =====
-- The reference counting of object.c, whole: what `di_unref_object`, `di_free_value` and
-- `di_finalize_object` do on a heap whose counts are right.
use deai.Common.{
  ℕ, zero, suc, ◌-◌, ◌≤◌, ◌<◌, true, false, not, ◌&&◌, Option, some, ◌≡◌, refl, ◌≢◌, ap, arith, ◌∙◌,
  Bool-cases, inl, inr, ◌==◌, ltb, List, ◌∷◌,
}
use deai.Value.{Value, one_at, strong, weak, sound}
use deai.Heap.{Heap, Object, deref, put, mem, is_linked, list_add}
use deai.Refs.{di_unref_object, di_destroy_object, di_free_value, settle, callable_mark}
use deai.Refs.Counts.{Counted, ObOk-at, live}
use deai.Refs.Steps.{◌⊕◌, alive_of, one_at_self}
use deai.Refs.Frame.{Tidy, Everything}
use deai.Refs.Free.{Releases, free-value}
use deai.Refs.Release.{Tame, less, destroy-Tidy, drop-Tidy, live_pos}

-- The assertions at the head of the function hold.
pub unref-run :
    (run_dtor : ℕ → ℕ → Heap → Option Heap) (fuel o : ℕ) (h : Heap) (ob : Object)
    → deref o h ≡ some ob
    → ltb 0 ob.ref_count ≡ true
    → ob.destroyed ≡ false
    → callable_mark ob.mark ≡ true
    → di_unref_object run_dtor (suc fuel) o h
      ≡ settle (di_destroy_object (di_unref_object run_dtor fuel) run_dtor) o (less ob) h
unfolding di_unref_object
unref-run run_dtor fuel o h ob e pos a m = rw (e, pos, a, m)

mem-cons_ne : (q o : ℕ) (ps : List ℕ) → q ≢ o → mem q (o ∷ ps) ≡ true → mem q ps ≡ true
unfolding mem
mem-cons_ne q o ps ne i = ground arith

-- With a reference left, the object stays as it is, but for the count.
pub settle-more :
    (destroy : ℕ → Heap → Option Heap) (S W D : ℕ → ℕ) (o : ℕ) (h : Heap) (ob : Object)
    → Counted (S ⊕ one_at o) W D h
    → deref o h ≡ some ob
    → (ob.ref_count - 1 == 0) ≡ false
    → (h' : Heap) × (settle destroy o (less ob) h ≡ some h')
      × (h'.cells ≡ (put o (less ob) h).cells)
      × Tidy Everything S W D h h'
unfolding settle list_add
settle-more destroy S W D o h ob c e more =
    elim (Bool-cases (not (is_linked o h) && ob.mark == 0)) [
      | inl new ↦ (
        list_add o (put o (less ob) h),
        rw (more, new),
        refl,
        drop-Tidy o h ob (o ∷ h.unreferred) h.isolated c e more
            (λ q ne i. mem-cons_ne q o h.unreferred ne i),
      )
      | inr old ↦ (
        put o (less ob) h,
        rw (more, old),
        refl,
        drop-Tidy o h ob h.unreferred h.isolated c e more (λ q ne i. i),
      )
    ]

-- With another reference to the object, dropping one only lowers the count.
pub held-unref :
    (run_dtor : ℕ → ℕ → Heap → Option Heap) (fuel : ℕ) (S W D : ℕ → ℕ) (p : ℕ) (h : Heap)
    → Counted (S ⊕ one_at p) W D h
    → 0 < S p
    → (pb : Object) × (h' : Heap) × (deref p h ≡ some pb)
      × (di_unref_object run_dtor (suc fuel) p h ≡ some h')
      × (h'.cells ≡ (put p (less pb) h).cells)
      × Counted S W D h'
held-unref run_dtor fuel S W D p h c held =
    let (pb, e, a) = alive_of p c (omega (arith, one_at_self p)) in
    let k = ObOk-at p c e in
    let more : (pb.ref_count - 1 == 0) ≡ false = ground (arith, k.counted, one_at_self p) in
    let (h', run, cells, t) =
      settle-more (di_destroy_object (di_unref_object run_dtor fuel) run_dtor) S W D p h pb c e
        more in
    (
      pb,
      h',
      e,
      unref-run run_dtor fuel p h pb e (k.alive ∙ ap not a) a k.marked ∙ run,
      cells,
      t.counted,
    )

module _ (run_dtor : ℕ → ℕ → Heap → Option Heap) (tame : Tame run_dtor) where
  settle-Tidy :
      (n : ℕ) (rel : Releases (di_unref_object run_dtor n) n) (S W D : ℕ → ℕ) (o : ℕ) (h : Heap)
      (ob : Object)
      → Counted (S ⊕ one_at o) W D h
      → deref o h ≡ some ob
      → live h ≤ suc n
      → (h' : Heap) × (settle
            (di_destroy_object (di_unref_object run_dtor n) run_dtor)
            o
            (less ob)
            h
          ≡ some h')
        × Tidy Everything S W D h h'
  unfolding settle list_add
  settle-Tidy n rel S W D o h ob c e l = elim (Bool-cases (ob.ref_count - 1 == 0)) [
    | inl last ↦
        let (h', run, t) =
          destroy-Tidy run_dtor tame (di_unref_object run_dtor n) n rel S W D o h ob c e
            (ground arith) l in
        (h', rw last run, t)
    | inr more ↦
        let (h', run, same, t) = settle-more destroy_it S W D o h ob c e more in (h', run, t)
  ]
    where
      destroy_it : ℕ → Heap → Option Heap
      destroy_it = di_destroy_object (di_unref_object run_dtor n) run_dtor

  pub unref-Releases : (n : ℕ) → Releases (di_unref_object run_dtor n) n
  unref-Releases zero S W D o h c l =
      let (ob, e, a) = alive_of o c (omega (arith, one_at_self o)) in
      absurd (omega (arith, live_pos o h ob e a))
  unref-Releases (suc n) S W D o h c l =
      let (ob, e, a) = alive_of o c (omega (arith, one_at_self o)) in
      let k = ObOk-at o c e in
      let (h', run, t) = settle-Tidy n (unref-Releases n) S W D o h ob c e l in
      (h', unref-run run_dtor n o h ob e (k.alive ∙ ap not a) a k.marked ∙ run, t)

-- `di_unref_object`, called by the holder of a strong reference on a heap whose counts are right,
-- with destructors that drop what they take, returns whatever it destroys on its way: no assertion
-- fails, no freed or destroyed object is touched, and nothing is freed twice. Afterwards the counts
-- are right with that one reference less. Fuel for as many nested calls as there are live objects
-- is enough.
pub unref-Counted :
    (run_dtor : ℕ → ℕ → Heap → Option Heap) (fuel : ℕ) (S W D : ℕ → ℕ) (o : ℕ) (h : Heap)
    → Tame run_dtor
    → Counted (S ⊕ one_at o) W D h
    → live h ≤ fuel
    → (h' : Heap) × (di_unref_object run_dtor fuel o h ≡ some h')
      × Counted S W D h'
      × (live h' ≤ live h)
unref-Counted run_dtor fuel S W D o h tame c l =
    let (h', run, t) = unref-Releases run_dtor tame fuel S W D o h c l in
    (h', run, t.counted, t.calm)

-- `di_free_value`, of a sound value whose references the caller owns, on a heap whose counts are
-- right and with destructors that drop what they take, returns without a fault: every reference
-- that the value owns is dropped, and the counts are right without them. Fuel for as many nested
-- calls as there are live objects is enough.
pub free_value-Counted :
    (run_dtor : ℕ → ℕ → Heap → Option Heap) (fuel : ℕ) (S W D : ℕ → ℕ) (v : Value) (h : Heap)
    → Tame run_dtor
    → Counted (S ⊕ (λ q. strong q v)) (W ⊕ (λ q. weak q v)) D h
    → sound v ≡ true
    → live h ≤ fuel
    → (h' : Heap) × (di_free_value (di_unref_object run_dtor fuel) v h ≡ some h')
      × Counted S W D h'
      × (live h' ≤ live h)
free_value-Counted run_dtor fuel S W D v h tame c s l =
    let (h', run, t) =
      free-value (di_unref_object run_dtor fuel) fuel (unref-Releases run_dtor tame fuel) v S W D h
        c s l in
    (h', run, t.counted, t.calm)
