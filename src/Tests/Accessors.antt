-- ===== src/Tests/Accessors.antt =====
-- Members with handlers: runs of the accessors, the theorems at a small heap, and two inputs at which
-- `di_setx` leaves what the raw accessors cannot read or destroys an object twice.
use deai.Common.{
  length, ℕ, zero, suc, ◌+◌, ◌++◌, ◌∙◌, true, false, List, [], ◌∷◌, Option, none, some, ◌≡◌, refl,
  sym, ap, subst, arith, ◌>>=◌, inl, inr, Bool-cases,
}
use deai.Common.Int.{pos}
use deai.Errors.{ok}
use deai.Types.{di_sizeof_type}
use deai.Text.{null, di_string_starts_with, Text, chars, di_string_eq, di_clone_string}
use deai.Value.{Value, type_of, one_at, strong, weak, sound}
use deai.Heap.{Member, Object, Heap, deref, mem, find_member, remove_member}
use deai.Heap.Sums.{strong_members, weak_members, total, all_sound}
use deai.Refs.Fresh.{with_new, live-new, members-new, deref-new, with_new-Counted}
use deai.Refs.{di_unref_object, di_free_value, di_copy_value, fresh}
use deai.Refs.Counts.{Counted, Counted-cong, CellOk, strong_in, weak_in}
use deai.Members.{di_rawgetx, di_rawsetx, di_delete_member_raw}
use deai.Members.Handlers.{
  gives, raises, throws, CallFn, get_prefix, delete_prefix, di_getx, di_setx, di_delete_member,
}
use deai.Members.Handlers.Obliging.{Handled, Obliging}
use deai.Members.Handlers.Get.{Leaves, getx-Counted}
use deai.Members.Handlers.Delete.{delete_member-Counted}
use deai.Members.Handlers.Next.{pair, walk, visible, walk_all, di_object_next_member, skip_internal}
use deai.Tests.Objects.{nobody, idle_dtor, idle-Tame}

abbrev seven : Value
seven = Value.nint (pos 7)

-- A function that gives 7.
abbrev give_seven : CallFn
give_seven f p args h = some (gives seven, h)

-- A function that throws the object 1.
abbrev throw_one : CallFn
throw_one f p args h = some (throws 1, h)

abbrev x_name : Text
x_name = chars (b'x' ∷ [])

abbrev keeper : Text → Value → Object
keeper name v = record fresh { members = record { name = name; value = v } ∷ [] }

abbrev callee : Object
callee = record fresh { call = some 0 }

-- Object 0 is held from outside, and holds a function under this name.
abbrev house : Text → Heap
house name = record {
  cells = some (keeper name (Value.object 1)) ∷ some callee ∷ [];
  unreferred = [];
  isolated = [];
}

house_at :
    (name : Text) (q : ℕ)
    → CellOk
        (one_at 0 q + strong_in q (house name))
        (nobody q + weak_in q (house name))
        0
        (deref q (house name))
unfolding total strong_members weak_members strong weak all_sound sound
house_at name zero = ground arith
house_at name (suc zero) = ground arith
house_at name (suc (suc q)) = ground arith

house-Counted : (name : Text) → Counted (one_at 0) nobody nobody (house name)
unfolding mem
house-Counted name = record { at = house_at name; linked = λ q i. cc }

only_member :
    (name key : Text) (v : Value) (m : Member)
    → find_member key (record { name = name; value = v } ∷ []) ≡ some m
    → m.value ≡ v
unfolding find_member
only_member name key v m e = elim (Bool-cases (di_string_eq name key)) [
  | inl t ↦ ground (arith, e, t)
  | inr f ↦ ground (arith, e, f)
]

same_members : {a b : Object} → some a ≡ some b → b.members ≡ a.members
same_members e = cc

house_member :
    (name : Text) (o : ℕ) (ob : Object) (key : Text) (m : Member)
    → deref o (house name) ≡ some ob
    → find_member key ob.members ≡ some m
    → m.value ≡ Value.object 1
unfolding find_member
house_member name zero ob key m e f =
    only_member name key (Value.object 1) m
      (subst (λ ms. find_member key ms ≡ some m) (same_members e) f)
house_member name (suc zero) ob key m e f =
    absurd (nothing (subst (λ ms. find_member key ms ≡ some m) (same_members e) f))
  where
    nothing : none ≡ some m → ⊥
    nothing x = cc
house_member name (suc (suc o)) ob key m e f = cc

house-Handled : (prefix : List ℕ) (name : Text) → Handled prefix (house name)
unfolding di_sizeof_type type_of
house-Handled prefix name = record {
  sized = λ o ob key m e f.
      (8, ap (λ v. di_sizeof_type (type_of v)) (house_member name o ob key m e f), refl);
  callable = λ o ob rest m p e f it. (
    callee,
    0,
    subst (λ z. deref z (house name) ≡ some callee)
        (object_of (sym (house_member name o ob (chars (prefix ++ rest)) m e f) ∙ it)) refl,
    refl,
  );
}
  where
    object_of : {a b : ℕ} → Value.object a ≡ Value.object b → a ≡ b
    object_of e = cc

-- A function that makes an error object and throws it.
abbrev throw_new : CallFn
throw_new f p args h = some (throws (length h.cells), with_new h)

with_new-Handled : (prefix : List ℕ) (h : Heap) → Handled prefix h → Handled prefix (with_new h)
unfolding find_member
with_new-Handled prefix h k = record {
  sized = λ o ob name m e f. elim (members-new h o ob e) [
    | inl old ↦ k.sized o ob name m old f
    | inr bare ↦ absurd (gone (subst (λ ms. find_member name ms ≡ some m) bare f))
  ];
  callable = λ o ob rest m p e f it. elim (members-new h o ob e) [
    | inl old ↦
        let (pb, g, at, is) = k.callable o ob rest m p old f it in (pb, g, deref-new h p at, is)
    | inr bare ↦
        absurd (gone (subst (λ ms. find_member (chars (prefix ++ rest)) ms ≡ some m) bare f))
  ];
}
  where
    gone : {m : Member} → none ≡ some m → ⊥
    gone x = cc

throw_new-Obliging :
    (Q : Value → Type 0) (prefix : List ℕ) (n : ℕ) → Obliging Q prefix 1 n throw_new
throw_new-Obliging Q prefix n f p args S W D h c k l held = (
  throws (length h.cells),
  with_new h,
  refl,
  Counted-cong (λ q. refl) (λ q. omega arith) (λ q. refl) (with_new-Counted S W D h c),
  with_new-Handled prefix h k,
  omega (arith, live-new h),
  tt,
)

abbrev unref : ℕ → Heap → Option Heap
unref = di_unref_object idle_dtor 2

getx-Counted_example :
    Leaves
      (one_at 0)
      nobody
      nobody
      (di_getx throw_new unref true 0 x_name (house (chars get_prefix)))
unfolding total
getx-Counted_example =
    getx-Counted throw_new unref 1 4 true (one_at 0) nobody nobody 0 x_name
      (house (chars get_prefix)) (throw_new-Obliging (λ v. Unit) get_prefix 4)
      (house-Counted (chars get_prefix)) (house-Handled get_prefix (chars get_prefix)) (omega arith)
      (omega arith)

delete_member-Counted_example : Leaves (one_at 0) nobody nobody (
    di_delete_member throw_new
      (di_unref_object idle_dtor 4)
      true
      0
      x_name
      (house (chars delete_prefix)))
unfolding total
delete_member-Counted_example =
    delete_member-Counted idle_dtor throw_new 1 4 true (one_at 0) nobody nobody 0 x_name
      (house (chars delete_prefix)) idle-Tame
      (throw_new-Obliging (λ v. sound v ≡ true) delete_prefix 4)
      (house-Counted (chars delete_prefix)) (house-Handled delete_prefix (chars delete_prefix))
      (omega arith) (omega arith)

-- What these runs give: the error that the handler made
getx_raises :
    di_getx throw_new unref true 0 x_name (house (chars get_prefix))
    ≡ some (raises 2, with_new (house (chars get_prefix)))
unfolding di_getx find_member di_string_eq di_sizeof_type type_of
getx_raises = refl

delete_raises :
    di_delete_member throw_new unref true 0 x_name (house (chars delete_prefix))
    ≡ some (raises 2, with_new (house (chars delete_prefix)))
unfolding di_delete_member find_member di_string_eq di_sizeof_type type_of
delete_raises = refl

-- Without a deleter the entry is removed.
delete_removes :
    di_delete_member throw_new unref true 0 x_name (house x_name)
    ≡ some
        (gives Value.nil, record { cells = some fresh ∷ none ∷ []; unreferred = []; isolated = [] })
unfolding di_delete_member find_member di_string_eq di_sizeof_type type_of di_delete_member_raw
    remove_member di_free_value di_unref_object
delete_removes = refl

-- The getter answers for a name that is not bound.
getx_runs :
    di_getx give_seven unref true 0 x_name (house (chars get_prefix))
    ≡ some (gives seven, house (chars get_prefix))
unfolding di_getx find_member di_string_eq di_sizeof_type type_of
getx_runs = refl

abbrev emptied : Heap
emptied = record {
  cells = some (keeper x_name Value.nil) ∷ none ∷ [];
  unreferred = [];
  isolated = [];
}

-- Nil over a member is stored, and then reading it fails an assertion.
set_nil_runs :
    di_setx give_seven unref true 0 x_name Value.nil (house x_name)
    ≡ some (gives Value.nil, emptied)
unfolding di_setx find_member di_string_eq di_sizeof_type type_of di_free_value di_unref_object
    remove_member di_copy_value
set_nil_runs = refl

get_nil_faults : di_rawgetx 0 x_name emptied ≡ none
unfolding di_rawgetx find_member di_string_eq di_sizeof_type type_of
get_nil_faults = refl

-- The destructor of the object in `x` deletes `x` of object 0.
abbrev deleting_dtor : ℕ → ℕ → Heap → Option Heap
unfolding di_delete_member_raw
deleting_dtor d o h = di_delete_member_raw unref 0 x_name h >>= λ r. some r.1

abbrev shed : Heap
shed = record {
  cells = some (keeper x_name (Value.object 1)) ∷ some (record fresh { dtor = some 0 }) ∷ [];
  unreferred = [];
  isolated = [];
}

-- `di_setx` frees the old value before it takes it out: it is freed again by the destructor.
set_over_faults :
    di_setx give_seven (di_unref_object deleting_dtor 2) true 0 x_name seven shed ≡ none
unfolding di_setx find_member di_string_eq di_sizeof_type type_of di_free_value di_unref_object
    remove_member di_delete_member_raw
set_over_faults = refl

-- `di_rawsetx` takes the old value out first.
rawset_over_runs :
    di_rawsetx (di_unref_object deleting_dtor 2) 0 x_name seven shed
    ≡ some (
      ok tt,
      record { cells = some (keeper x_name seven) ∷ none ∷ []; unreferred = []; isolated = [] },
    )
unfolding di_rawsetx find_member di_string_eq di_sizeof_type type_of di_free_value di_unref_object
    remove_member di_delete_member_raw di_copy_value di_clone_string
rawset_over_runs = refl

-- A deleter that throws stops the setting only when the caller gives no place for the error.
set_behind_raise :
    di_setx throw_one unref true 0 x_name seven (house (chars delete_prefix))
    ≡ some (
      raises 1,
      record {
        cells =
            some (record fresh {
              members =
                  record { name = chars delete_prefix; value = Value.object 1 }
                  ∷ record { name = x_name; value = seven }
                  ∷ [];
            })
            ∷ some callee
            ∷ [];
        unreferred = [];
        isolated = [];
      },
    )
unfolding di_setx find_member di_string_eq di_sizeof_type type_of di_free_value di_copy_value
    di_clone_string
set_behind_raise = refl

set_behind_throw :
    di_setx throw_one unref false 0 x_name seven (house (chars delete_prefix))
    ≡ some (throws 1, house (chars delete_prefix))
unfolding di_setx find_member di_string_eq di_sizeof_type type_of
set_behind_throw = refl

abbrev table : List Member
table =
    record { name = x_name; value = seven }
    ∷ record { name = chars get_prefix; value = Value.object 1 }
    ∷ record { name = chars (b'y' ∷ []); value = seven }
    ∷ []

walk_all_example : walk 4 null table ≡ some (visible table)
unfolding find_member di_string_eq
walk_all_example =
    walk_all table 4 (refl, (refl, (refl, tt)))
      ((b'x' ∷ [], refl), ((get_prefix, refl), ((b'y' ∷ [], refl), tt))) (omega arith)

-- Behind `x` the getter is skipped.
next_runs :
    di_object_next_member give_seven unref 0 x_name (record {
      cells = some (record fresh { members = table }) ∷ [];
      unreferred = [];
      isolated = [];
    })
    ≡ some (
      pair (chars (b'y' ∷ [])) seven,
      record {
        cells = some (record fresh { members = table }) ∷ [];
        unreferred = [];
        isolated = [];
      },
    )
unfolding di_object_next_member find_member di_string_eq di_clone_string di_copy_value skip_internal
    di_string_starts_with
next_runs = refl
