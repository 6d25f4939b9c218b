-- ===== src/Members/Table.antt =====
-- The member table as a dictionary: names are distinct, and the operations have the laws of a map.
use deai.Common.{
  true, false, List, [], ◌∷◌, ◌++◌, none, some, ◌≡◌, refl, sym, arith, ◌∙◌, Bool-cases, inl, inr,
}
use deai.Text.{Text, bytes, di_string_eq}
use deai.Text.Slice.{string_eq_iff}
use deai.Heap.{Member, find_member, remove_member}

abbrev pub Distinct : List Member → Type 0
Distinct [] = Unit {0}
Distinct (m ∷ ms) = (find_member m.name ms ≡ none) × Distinct ms

-- Only the bytes of a name matter.
find-cong :
    (a b : Text) (ms : List Member) → bytes a ≡ bytes b → find_member a ms ≡ find_member b ms
unfolding find_member di_string_eq
find-cong a b [] e = refl
find-cong a b (m ∷ ms) e = rw (e, find-cong a b ms e)

find-same :
    (name : Text) (m : Member) (ms : List Member)
    → di_string_eq m.name name ≡ true
    → find_member m.name ms ≡ find_member name ms
find-same name m ms e = find-cong m.name name ms ((string_eq_iff m.name name).0 e)

find_self : (m : Member) (ms : List Member) → find_member m.name (m ∷ ms) ≡ some m
unfolding find_member
find_self m ms = rw ((string_eq_iff m.name m.name).1 refl)

pub find-append_new :
    (ms : List Member) (m : Member)
    → find_member m.name ms ≡ none
    → find_member m.name (ms ++ m ∷ []) ≡ some m
unfolding find_member
find-append_new [] m e = find_self m []
find-append_new (x ∷ ms) m e = ground (arith, find-append_new ms m)

pub find-append_other :
    (name : Text) (ms : List Member) (m : Member)
    → di_string_eq m.name name ≡ false
    → find_member name (ms ++ m ∷ []) ≡ find_member name ms
unfolding find_member
find-append_other name [] m e = ground arith
find-append_other name (x ∷ ms) m e = rw (find-append_other name ms m e)

pub eq_false_sym : (a b : Text) → di_string_eq a b ≡ false → di_string_eq b a ≡ false
eq_false_sym a b h = ground (
  arith,
  (string_eq_iff a b).0,
  (string_eq_iff a b).1,
  (string_eq_iff b a).0,
  (string_eq_iff b a).1,
)

pub Distinct-append :
    (ms : List Member) (m : Member)
    → Distinct ms
    → find_member m.name ms ≡ none
    → Distinct (ms ++ m ∷ [])
unfolding find_member
Distinct-append [] m d e = (refl, tt)
Distinct-append (x ∷ ms) m d e = elim (Bool-cases (di_string_eq x.name m.name)) [
  | inl same ↦ cc (same, e)
  | inr other ↦ (
    find-append_other x.name ms m (eq_false_sym x.name m.name other) ∙ d.0,
    Distinct-append ms m d.1 (ground arith),
  )
]

pub find-remove_self :
    (name : Text) (ms : List Member) → Distinct ms → find_member name (remove_member name ms) ≡ none
unfolding find_member remove_member
find-remove_self name [] d = refl
find-remove_self name (m ∷ ms) d = elim (Bool-cases (di_string_eq m.name name)) [
  | inl same ↦ rw same (sym (find-same name m ms same) ∙ d.0)
  | inr other ↦ rw (other, other) (find-remove_self name ms d.1)
]

pub find-remove_other :
    (name other : Text) (ms : List Member)
    → di_string_eq name other ≡ false
    → find_member other (remove_member name ms) ≡ find_member other ms
unfolding find_member remove_member
find-remove_other name other [] e = refl
find-remove_other name other (m ∷ ms) e = elim (Bool-cases (di_string_eq m.name name)) [
  | inl same ↦ rw same (miss same)
  | inr differs ↦ rw differs (rw (find-remove_other name other ms e))
]
  where
    miss : di_string_eq m.name name ≡ true → find_member other ms ≡ find_member other (m ∷ ms)
    miss same = ground (
      arith,
      (string_eq_iff m.name name).0 same,
      (string_eq_iff m.name other).0,
      (string_eq_iff name other).1,
      e,
    )

remove-absent :
    (n name : Text) (ms : List Member)
    → find_member n ms ≡ none
    → find_member n (remove_member name ms) ≡ none
unfolding find_member remove_member
remove-absent n name [] e = refl
remove-absent n name (m ∷ ms) e = ground (arith, remove-absent n name ms)

pub Distinct-remove :
    (name : Text) (ms : List Member) → Distinct ms → Distinct (remove_member name ms)
unfolding remove_member
Distinct-remove name [] d = tt
Distinct-remove name (m ∷ ms) d = elim (Bool-cases (di_string_eq m.name name)) [
  | inl same ↦ rw same d.1
  | inr other ↦ rw other (remove-absent m.name name ms d.0, Distinct-remove name ms d.1)
]
