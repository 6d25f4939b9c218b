-- ===== src/Refs/Upgrade.antt =====
-- Weak references: `di_upgrade_weak_ref` and `di_drop_weak_ref`.
use deai.Common.{
  ℕ, ◌+◌, ◌<◌, true, false, not, ◌&&◌, none, some, ◌≡◌, ◌≢◌, arith, Bool-cases, inl, inr, ◌⊎◌, ◌==◌,
}
use deai.Value.{one_at}
use deai.Heap.{Object, Heap, deref, put}
use deai.Refs.{di_ref_object, di_upgrade_weak_ref, di_drop_weak_ref}
use deai.Refs.Counts.{Counted, ObOk-at, weak_in, live}
use deai.Refs.Steps.{◌⊕◌, ref-Counted, allocated_of}
use deai.Refs.Frame.{live-put}
use deai.Refs.Free.{drop_weak-Tidy}

-- Upgrading a weak reference that someone holds never faults. It gives a strong reference, and
-- counts it, exactly when the object was not destroyed and the collector has not marked it;
-- otherwise it gives none and changes nothing. No object is created or destroyed.
pub upgrade-Counted :
    (S W D : ℕ → ℕ) (w : ℕ) (h : Heap)
    → Counted S W D h
    → 0 < W w + weak_in w h
    → (ob : Object) × (deref w h ≡ some ob)
      × (((ob.destroyed ≡ false)
            × (ob.mark ≡ 0)
            × ((h' : Heap) × (di_upgrade_weak_ref w h ≡ some (some w, h'))
                × Counted (S ⊕ one_at w) W D h'
                × (live h' ≡ live h)))
          ⊎ (((ob.destroyed ≡ true) ⊎ (ob.mark ≢ 0)) × (di_upgrade_weak_ref w h ≡ some (none, h))))
unfolding di_upgrade_weak_ref di_ref_object
upgrade-Counted S W D w h c pos =
    let (ob, e) = allocated_of w c pos in
    let k = ObOk-at w c e in
    (
      ob,
      e,
      elim (Bool-cases (not ob.destroyed && ob.mark == 0)) [
        | inl live_one ↦
            let a : ob.destroyed ≡ false = ground arith in
            let m : ob.mark ≡ 0 = ground arith in
            inl (
              a,
              m,
              (
                put w (record ob { ref_count = ob.ref_count + 1 }) h,
                rw e (ground (arith, k.alive, a, m, e)),
                ref-Counted w c e a,
                omega (arith, live-put w h ob (record ob { ref_count = ob.ref_count + 1 }) e),
              ),
            )
        | inr dead ↦ inr (ground arith, rw e (ground (arith, k.alive, k.marked, dead)))
      ],
    )

-- Dropping a weak reference that someone holds never faults, and leaves the counts right with that
-- one less; an object that was destroyed is freed with its last weak reference.
pub drop_weak-Counted :
    (S W D : ℕ → ℕ) (w : ℕ) (h : Heap)
    → Counted S (W ⊕ one_at w) D h
    → (h' : Heap) × (di_drop_weak_ref w h ≡ some h') × Counted S W D h'
drop_weak-Counted S W D w h c =
    let (h', run, t) = drop_weak-Tidy S W D w h c in (h', run, t.counted)
