-- ===== src/Heap/Sums.antt =====
-- Sums over the cells of a heap, and what writing or freeing a cell does to them.
use deai.Common.{
  Bool, true, ◌&&◌, ℕ, zero, suc, ◌+◌, List, [], ◌∷◌, Option, none, some, set, ◌≡◌, arith,
}
use deai.Value.{strong, weak, sound}
use deai.Heap.{Member, Object, cell}

-- The references that a list of members owns.
unfoldable pub strong_members : ℕ → List Member → ℕ
strong_members q [] = 0
strong_members q (m ∷ ms) = strong q m.value + strong_members q ms

unfoldable pub weak_members : ℕ → List Member → ℕ
weak_members q [] = 0
weak_members q (m ∷ ms) = weak q m.value + weak_members q ms

-- Every member holds a value that can be freed and copied.
unfoldable pub all_sound : List Member → Bool
all_sound [] = true
all_sound (m ∷ ms) = sound m.value && all_sound ms

unfoldable pub total : (Object → ℕ) → List (Option Object) → ℕ
total f [] = 0
total f (none ∷ cs) = total f cs
total f (some ob ∷ cs) = f ob + total f cs

pub total-set :
    (f : Object → ℕ) (cs : List (Option Object)) (o : ℕ) (ob ob' : Object)
    → cell cs o ≡ some ob
    → total f (set cs o (some ob')) + f ob ≡ total f cs + f ob'
unfolding total
total-set f [] o ob ob' e = cc
total-set f (none ∷ cs) zero ob ob' e = cc
total-set f (some x ∷ cs) zero ob ob' e = ground arith
total-set f (none ∷ cs) (suc o) ob ob' e = total-set f cs o ob ob' e
total-set f (some x ∷ cs) (suc o) ob ob' e = omega (arith, total-set f cs o ob ob' e)

pub total-free :
    (f : Object → ℕ) (cs : List (Option Object)) (o : ℕ) (ob : Object)
    → cell cs o ≡ some ob
    → total f (set cs o none) + f ob ≡ total f cs
unfolding total
total-free f [] o ob e = cc
total-free f (none ∷ cs) zero ob e = cc
total-free f (some x ∷ cs) zero ob e = ground arith
total-free f (none ∷ cs) (suc o) ob e = total-free f cs o ob e
total-free f (some x ∷ cs) (suc o) ob e = omega (arith, total-free f cs o ob e)
