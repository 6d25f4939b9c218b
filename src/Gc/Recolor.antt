-- ===== src/Gc/Recolor.antt =====
-- The collector of object.c changes marks and scan counts only, while it looks for garbage: pairs of
-- heaps whose cells are related one by one.
use deai.Common.{
  ℕ, zero, suc, ◌+◌, ◌*◌, length, ◌≤◌, ◌<◌, List, [], ◌∷◌, Option, none, some, set, ◌≡◌, refl, sym,
  ap, subst, ◌∙◌, arith, Option-cases, inl, inr,
}
use deai.Value.{
  Value, Values, end, item, object, array, tuple, variant, one_at, strong, strong_items,
}
use deai.Heap.{Member, Object, Heap, cell, deref}
use deai.Heap.Sums.{strong_members, total, total-free}

-- The strong references that a scan follows: an `empty_object` is not entered.
unfoldable mutual
  pub scanned : ℕ → Value → ℕ
  scanned q (object p) = one_at p q
  scanned q (array t vs) = scanned_items q vs
  scanned q (tuple vs) = scanned_items q vs
  scanned q (variant v) = scanned q v
  scanned q _ = 0

  pub scanned_items : ℕ → Values → ℕ
  scanned_items q end = 0
  scanned_items q (item v vs) = scanned q v + scanned_items q vs

unfoldable pub scanned_members : ℕ → List Member → ℕ
unfolding scanned
scanned_members q [] = 0
scanned_members q (m ∷ ms) = scanned q m.value + scanned_members q ms

mutual
  unfolding scanned strong

  pub scanned-le-strong : (q : ℕ) (v : Value) → scanned q v ≤ strong q v
  scanned-le-strong q (object p) = omega arith
  scanned-le-strong q (array t vs) = scanned_items-le q vs
  scanned-le-strong q (tuple vs) = scanned_items-le q vs
  scanned-le-strong q (variant v) = scanned-le-strong q v
  scanned-le-strong q v = omega arith

  pub scanned_items-le : (q : ℕ) (vs : Values) → scanned_items q vs ≤ strong_items q vs
  scanned_items-le q end = omega arith
  scanned_items-le q (item v vs) = omega (arith, scanned-le-strong q v, scanned_items-le q vs)

pub scanned_members-le : (q : ℕ) (ms : List Member) → scanned_members q ms ≤ strong_members q ms
unfolding scanned_members strong_members
scanned_members-le q [] = omega arith
scanned_members-le q (m ∷ ms) = omega (arith, scanned-le-strong q m.value, scanned_members-le q ms)

-- The same cells are free, and `P` relates the objects in the others.
pub data Cells (P : Object → Object → Type 0)
    : List (Option Object) → List (Option Object) → Type 0 where
  nil : Cells P [] []
  gone : {cs ds : List (Option Object)} → Cells P cs ds → Cells P (none ∷ cs) (none ∷ ds)
  kept :
      {a b : Object} {cs ds : List (Option Object)}
      → P a b
      → Cells P cs ds
      → Cells P (some a ∷ cs) (some b ∷ ds)

none-ne : {o : Option Object} {a : Object} → o ≡ none → o ≡ some a → ⊥
none-ne e f = cc

one-some : {o : Option Object} {a b : Object} → o ≡ some a → o ≡ some b → a ≡ b
one-some e f = ground (arith, e, f)

module _ {P : Object → Object → Type 0} where
  pub Cells-refl : ((a : Object) → P a a) → (cs : List (Option Object)) → Cells P cs cs
  Cells-refl r [] = Cells.nil
  Cells-refl r (none ∷ cs) = Cells.gone (Cells-refl r cs)
  Cells-refl r (some a ∷ cs) = Cells.kept (r a) (Cells-refl r cs)

  pub Cells-trans :
      {cs ds es : List (Option Object)}
      → ((a b c : Object) → P a b → P b c → P a c)
      → Cells P cs ds
      → Cells P ds es
      → Cells P cs es
  Cells-trans t nil nil = Cells.nil
  Cells-trans t (gone x) (gone y) = Cells.gone (Cells-trans t x y)
  Cells-trans t (kept p x) (kept q y) = Cells.kept (t _ _ _ p q) (Cells-trans t x y)

  -- The object that a cell holds afterwards.
  pub Cells-cell :
      {cs ds : List (Option Object)} {a : Object} (o : ℕ)
      → Cells P cs ds
      → cell cs o ≡ some a
      → (b : Object) × (cell ds o ≡ some b) × P a b
  Cells-cell o nil e = cc
  Cells-cell zero (gone x) e = cc
  Cells-cell zero (kept {a} {b} p x) e = (b, refl, subst (λ z. P (from_some z) b) e p)
    where
      from_some : Option Object → Object
      from_some none = a
      from_some (some z) = z
  Cells-cell (suc o) (gone x) e = Cells-cell o x e
  Cells-cell (suc o) (kept p x) e = Cells-cell o x e

  pub Cells-none :
      {cs ds : List (Option Object)} (o : ℕ) → Cells P cs ds → cell cs o ≡ none → cell ds o ≡ none
  Cells-none o nil e = refl
  Cells-none zero (gone x) e = refl
  Cells-none zero (kept p x) e = cc
  Cells-none (suc o) (gone x) e = Cells-none o x e
  Cells-none (suc o) (kept p x) e = Cells-none o x e

  -- The object that a cell held before.
  pub Cells-back :
      {cs ds : List (Option Object)} {b : Object} (o : ℕ)
      → Cells P cs ds
      → cell ds o ≡ some b
      → (a : Object) × (cell cs o ≡ some a) × P a b
  Cells-back {cs} {b} o x e = elim (Option-cases (cell cs o)) [
    | inl lost ↦ absurd (none-ne (Cells-none o x lost) e)
    | inr (a, at) ↦
        let (c, there, d) = Cells-cell o x at in (a, at, subst (P a) (one-some there e) d)
  ]

  pub Cells-set :
      (cs : List (Option Object)) (o : ℕ) {a : Object} (b : Object)
      → ((z : Object) → P z z)
      → cell cs o ≡ some a
      → P a b
      → Cells P cs (set cs o (some b))
  Cells-set [] o b r e p = cc
  Cells-set (none ∷ cs) zero b r e p = cc
  Cells-set (some x ∷ cs) zero b r e p =
      Cells.kept (subst (λ z. P (elim z [ none ↦ x | some y ↦ y ]) b) (sym e) p) (Cells-refl r cs)
  Cells-set (none ∷ cs) (suc o) b r e p = Cells.gone (Cells-set cs o b r e p)
  Cells-set (some x ∷ cs) (suc o) b r e p = Cells.kept (r x) (Cells-set cs o b r e p)

  -- A sum to which no related objects contribute differently.
  pub Cells-total :
      (f g : Object → ℕ) {cs ds : List (Option Object)}
      → ((a b : Object) → P a b → f a ≡ g b)
      → Cells P cs ds
      → total f cs ≡ total g ds
  unfolding total
  Cells-total f g same nil = refl
  Cells-total f g same (gone x) = Cells-total f g same x
  Cells-total f g same (kept {a} {b} p x) = omega (arith, same a b p, Cells-total f g same x)

  pub Cells-length : {cs ds : List (Option Object)} → Cells P cs ds → length ds ≡ length cs
  Cells-length nil = refl
  Cells-length (gone x) = omega (arith, Cells-length x)
  Cells-length (kept p x) = omega (arith, Cells-length x)

  pub Cells-total_le :
      (f g : Object → ℕ) {cs ds : List (Option Object)}
      → ((a b : Object) → P a b → f a ≤ g b)
      → Cells P cs ds
      → total f cs ≤ total g ds
  unfolding total
  Cells-total_le f g less nil = omega arith
  Cells-total_le f g less (gone x) = Cells-total_le f g less x
  Cells-total_le f g less (kept {a} {b} p x) = omega (arith, less a b p, Cells-total_le f g less x)

pub Cells-map :
    {P Q : Object → Object → Type 0} {cs ds : List (Option Object)}
    → ((a b : Object) → P a b → Q a b)
    → Cells P cs ds
    → Cells Q cs ds
Cells-map f nil = Cells.nil
Cells-map f (gone x) = Cells.gone (Cells-map f x)
Cells-map f (kept p x) = Cells.kept (f _ _ p) (Cells-map f x)

-- A sum of parts that are at most 2.
pub total_le_double :
    (f : Object → ℕ)
    → ((a : Object) → f a ≤ 2)
    → (cs : List (Option Object)) → total f cs ≤ 2 * length cs
unfolding total
total_le_double f less [] = omega arith
total_le_double f less (none ∷ cs) = omega (arith, total_le_double f less cs)
total_le_double f less (some a ∷ cs) = omega (arith, less a, total_le_double f less cs)

pub total-zero :
    (f : Object → ℕ) (cs : List (Option Object))
    → ((o : ℕ) (a : Object) → cell cs o ≡ some a → f a ≡ 0)
    → total f cs ≡ 0
unfolding total
total-zero f [] z = refl
total-zero f (none ∷ cs) z = total-zero f cs (λ o a e. z (suc o) a e)
total-zero f (some a ∷ cs) z = omega (arith, z 0 a refl, total-zero f cs (λ o a e. z (suc o) a e))

-- Two sums are the same, and so are their parts, when no part of the first is larger.
pub total-tight :
    (f g : Object → ℕ) (cs : List (Option Object)) (o : ℕ) (ob : Object)
    → ((a : Object) → f a ≤ g a)
    → total g cs ≤ total f cs
    → cell cs o ≡ some ob
    → f ob ≡ g ob
total-tight f g cs o ob less big e =
    let rest : total f (set cs o none) ≤ total g (set cs o none) =
      Cells-total_le {P = λ a b. f a ≤ g b} f g (λ a b d. d) (Cells-refl less (set cs o none)) in
    omega (arith, less ob, rest, total-free f cs o ob e, total-free g cs o ob e)

-- One object's part of a sum.
pub part-le-total :
    (f : Object → ℕ) (cs : List (Option Object)) (o : ℕ) (ob : Object)
    → cell cs o ≡ some ob
    → f ob ≤ total f cs
part-le-total f cs o ob e = omega (arith, total-free f cs o ob e)

-- Every reference that a scan can follow.
abbrev pub scan_in : ℕ → Heap → ℕ
scan_in q h = total (λ ob. scanned_members q ob.members) h.cells

-- The references `T` lead to objects.
abbrev pub Followed : (ℕ → ℕ) → Heap → Type 0
Followed T h = (q : ℕ) → 0 < T q → (ob : Object) × (deref q h ≡ some ob)

-- `base` tells the members of the objects.
abbrev pub Based : (ℕ → List Member) → Heap → Type 0
Based base h = (q : ℕ) (ob : Object) → deref q h ≡ some ob → ob.members ≡ base q

same_members : {a b : Object} → some a ≡ some b → b.members ≡ a.members
same_members e = cc

pub Followed-Cells :
    {P : Object → Object → Type 0} {T : ℕ → ℕ} (h h' : Heap)
    → Cells P h.cells h'.cells
    → Followed T h
    → Followed T h'
Followed-Cells h h' x f q pos =
    let (ob, e) = f q pos in let (b, at, d) = Cells-cell q x e in (b, at)

-- Related objects have the same members.
module _ {P : Object → Object → Type 0}
    (keeps : (a b : Object) → P a b → b.members ≡ a.members) where
  pub scan_in-Cells : (h h' : Heap) (q : ℕ) → Cells P h.cells h'.cells → scan_in q h ≡ scan_in q h'
  scan_in-Cells h h' q x =
      Cells-total (λ ob. scanned_members q ob.members) (λ ob. scanned_members q ob.members)
        (λ a b d. ap (scanned_members q) (sym (keeps a b d))) x

  pub Based-Cells :
      (base : ℕ → List Member) (h h' : Heap)
      → Cells P h.cells h'.cells
      → Based base h
      → Based base h'
  Based-Cells base h h' x b q ob e = elim (Option-cases (deref q h)) [
    | inl lost ↦ absurd (none-ne (Cells-none q x lost) e)
    | inr (a, at) ↦
        let (c, there, d) = Cells-cell q x at in
        let same : some c ≡ some ob = sym there ∙ e in same_members same ∙ (keeps a c d ∙ b q a at)
  ]
