-- ===== src/Refs/Free.antt =====
-- `di_free_value` drops just the references that the value owns, given that `di_unref_object`
-- drops one.
use deai.Common.{ℕ, ◌≤◌, true, Option, some, ◌≡◌, refl, arith, and_left, and_right}
use deai.Value.{
  Value, Values, end, item, any, last_type, array, tuple, variant, object, empty_object,
  weak_object, one_at, strong, strong_items, weak, weak_items, sound, sound_items,
}
use deai.Heap.{Heap}
use deai.Refs.{di_free_value, di_free_items, di_drop_weak_ref}
use deai.Refs.Counts.{Counted, Counted-cong, ObOk-at, live}
use deai.Refs.Steps.{◌⊕◌, allocated_of}
use deai.Refs.Frame.{Tidy, Tidy-trans, Tidy-refl, Everything, decrement-Tidy}

-- `u` drops one reference, on heaps with at most `n` live objects.
abbrev pub Releases : (ℕ → Heap → Option Heap) → ℕ → Type 0
Releases u n =
    (S W D : ℕ → ℕ) (o : ℕ) (h : Heap)
    → Counted (S ⊕ one_at o) W D h
    → live h ≤ n
    → (h' : Heap) × (u o h ≡ some h') × Tidy Everything S W D h h'

pub drop_weak-Tidy :
    (S W D : ℕ → ℕ) (o : ℕ) (h : Heap)
    → Counted S (W ⊕ one_at o) D h
    → (h' : Heap) × (di_drop_weak_ref o h ≡ some h') × Tidy Everything S W D h h'
unfolding di_drop_weak_ref
drop_weak-Tidy S W D o h c =
    let (ob, e) = allocated_of o c (ground arith) in
    decrement-Tidy W D o c e (λ q ne. ground arith) (λ q ne. refl) (ground arith) (omega arith)
      (ObOk-at o c e).emptied

module _ (u : ℕ → Heap → Option Heap) (n : ℕ) (rel : Releases u n) where
  mutual
    unfolding di_free_value strong weak sound

    pub free-value :
        (v : Value) (S W D : ℕ → ℕ) (h : Heap)
        → Counted (S ⊕ (λ q. strong q v)) (W ⊕ (λ q. weak q v)) D h
        → sound v ≡ true
        → live h ≤ n
        → (h' : Heap) × (di_free_value u v h ≡ some h') × Tidy Everything S W D h h'
    free-value any S W D h c s l = cc
    free-value last_type S W D h c s l = cc
    free-value (array t end) S W D h c s l = free-items end S W D h c refl l
    free-value (array t (item v vs)) S W D h c s l =
        free-items (item v vs) S W D h c (and_right _ (sound_items (item v vs)) s) l
    free-value (tuple vs) S W D h c s l = free-items vs S W D h c s l
    free-value (variant v) S W D h c s l = free-value v S W D h c s l
    free-value (object o) S W D h c s l =
        rel S W D o h (Counted-cong (λ q. refl) (λ q. omega arith) (λ q. refl) c) l
    free-value (empty_object o) S W D h c s l =
        rel S W D o h (Counted-cong (λ q. refl) (λ q. omega arith) (λ q. refl) c) l
    free-value (weak_object o) S W D h c s l =
        drop_weak-Tidy S W D o h (Counted-cong (λ q. omega arith) (λ q. refl) (λ q. refl) c)
    free-value v S W D h c s l =
        (h, refl, Tidy-refl (Counted-cong (λ q. omega arith) (λ q. omega arith) (λ q. refl) c))

    pub free-items :
        (vs : Values) (S W D : ℕ → ℕ) (h : Heap)
        → Counted (S ⊕ (λ q. strong_items q vs)) (W ⊕ (λ q. weak_items q vs)) D h
        → sound_items vs ≡ true
        → live h ≤ n
        → (h' : Heap) × (di_free_items u vs h ≡ some h') × Tidy Everything S W D h h'
    free-items end S W D h c s l =
        (h, refl, Tidy-refl (Counted-cong (λ q. omega arith) (λ q. omega arith) (λ q. refl) c))
    free-items (item v vs) S W D h c s l =
        let (h1, e1, t1) =
          free-value v (S ⊕ (λ q. strong_items q vs)) (W ⊕ (λ q. weak_items q vs)) D h
            (Counted-cong (λ q. omega arith) (λ q. omega arith) (λ q. refl) c)
            (and_left (sound v) (sound_items vs) s) l in
        let (h2, e2, t2) =
          free-items vs S W D h1 t1.counted (and_right (sound v) (sound_items vs) s)
            (omega (arith, t1.calm)) in
        (h2, rw e1 e2, Tidy-trans (λ q p. p) t1 t2)
