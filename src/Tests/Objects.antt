-- ===== src/Tests/Objects.antt =====
-- Objects: a heap of two objects, the first holding the second, and the theorems there.
use deai.Common.{
  ℕ, zero, suc, ◌+◌, ◌≤◌, [], ◌∷◌, true, false, Option, none, some, ◌≡◌, ◌≢◌, ◌⊎◌, refl, arith,
}
use deai.Errors.{einval, ok, err, eexist, enoent}
use deai.Text.{null, Text, chars, di_string_eq}
use deai.Types.{di_sizeof_type}
use deai.Value.{type_of, Value, one_at, strong, weak, sound}
use deai.Heap.{Member, Object, Heap, deref, mem, find_member}
use deai.Heap.Sums.{strong_members, weak_members, total, all_sound}
use deai.Refs.{
  di_unref_object, di_free_value, di_copy_value, di_upgrade_weak_ref, di_drop_weak_ref, fresh,
}
use deai.Refs.Counts.{Counted, Counted-cong, CellOk, live, strong_in, weak_in}
use deai.Refs.Steps.{◌⊕◌}
use deai.Refs.Frame.{Tidy-refl}
use deai.Refs.Release.{Tame}
use deai.Refs.Unref.{unref-Counted, free_value-Counted}
use deai.Refs.Copy.{copy_value-Counted, Alike}
use deai.Refs.Upgrade.{upgrade-Counted, drop_weak-Counted}
use deai.Members.{di_rawsetx, di_lookup, di_insert_member, di_remove_member_raw}
use deai.Members.Map.{Updates, insert_member-Updates, remove_member-Updates}
use deai.Members.Ledger.{Keeps, rawsetx-Counted}

abbrev child : Text
child = chars (b'c' ∷ [])

-- Object 0 is held from outside, and its member holds object 1, to which a weak reference leads.
abbrev parent : Object
parent = record fresh { members = record { name = child; value = Value.object 1 } ∷ [] }

abbrev kid : Object
kid = record fresh { weak_ref_count = 2 }

abbrev pub family : Heap
family = record { cells = some parent ∷ some kid ∷ []; unreferred = []; isolated = [] }

abbrev pub nobody : ℕ → ℕ
nobody q = 0

-- A destructor that does nothing.
abbrev pub idle_dtor : ℕ → ℕ → Heap → Option Heap
idle_dtor d o h = some h

pub idle-Tame : Tame idle_dtor
idle-Tame d o S W D h c p = (h, refl, Tidy-refl c)

family_at :
    (q : ℕ)
    → CellOk
        ((nobody ⊕ one_at 0) q + strong_in q family)
        ((nobody ⊕ one_at 1) q + weak_in q family)
        0
        (deref q family)
unfolding total strong_members weak_members strong weak all_sound sound
family_at zero = ground arith
family_at (suc zero) = ground arith
family_at (suc (suc q)) = ground arith

pub family-Counted : Counted (nobody ⊕ one_at 0) (nobody ⊕ one_at 1) nobody family
unfolding mem
family-Counted = record { at = family_at; linked = λ q i. cc }

unref-Counted_example :
    (h' : Heap) × (di_unref_object idle_dtor 2 0 family ≡ some h')
    × Counted nobody (nobody ⊕ one_at 1) nobody h'
    × (live h' ≤ live family)
unfolding total
unref-Counted_example =
    unref-Counted idle_dtor 2 nobody (nobody ⊕ one_at 1) nobody 0 family idle-Tame family-Counted
      (omega arith)

-- Both objects are destroyed; the second stays as memory, for the weak reference.
unref_runs :
    di_unref_object idle_dtor 2 0 family
    ≡ some (record {
      cells = none ∷ some (record kid { ref_count = 0; weak_ref_count = 1; destroyed = true }) ∷ [];
      unreferred = [];
      isolated = [];
    })
unfolding di_unref_object find_member di_string_eq di_free_value
unref_runs = refl

owned :
    Counted
      (nobody ⊕ (λ q. strong q (Value.object 0)))
      (nobody ⊕ one_at 1 ⊕ (λ q. weak q (Value.object 0)))
      nobody
      family
unfolding strong weak
owned = Counted-cong (λ q. refl) (λ q. omega arith) (λ q. refl) family-Counted

free_value-Counted_example :
    (h' : Heap) × (di_free_value (di_unref_object idle_dtor 2) (Value.object 0) family ≡ some h')
    × Counted nobody (nobody ⊕ one_at 1) nobody h'
    × (live h' ≤ live family)
unfolding total sound
free_value-Counted_example =
    free_value-Counted idle_dtor 2 nobody (nobody ⊕ one_at 1) nobody (Value.object 0) family
      idle-Tame owned refl (omega arith)

copy_value-Counted_example :
    (w : Value) × (h' : Heap) × (di_copy_value (Value.variant (Value.object 0)) family
      ≡ some (w, h'))
    × Counted
        (nobody ⊕ one_at 0 ⊕ (λ q. strong q w))
        (nobody ⊕ one_at 1 ⊕ (λ q. weak q w))
        nobody
        h'
    × Alike (Value.variant (Value.object 0)) w
    × (live h' ≡ live family)
unfolding sound strong weak
copy_value-Counted_example =
    copy_value-Counted (nobody ⊕ one_at 0) (nobody ⊕ one_at 1) nobody
      (Value.variant (Value.object 0)) family family-Counted refl (λ q. omega arith)
      (λ q. omega arith)

upgrade-Counted_example :
    (ob : Object) × (deref 1 family ≡ some ob)
    × (((ob.destroyed ≡ false)
          × (ob.mark ≡ 0)
          × ((h' : Heap) × (di_upgrade_weak_ref 1 family ≡ some (some 1, h'))
              × Counted (nobody ⊕ one_at 0 ⊕ one_at 1) (nobody ⊕ one_at 1) nobody h'
              × (live h' ≡ live family)))
        ⊎ (((ob.destroyed ≡ true) ⊎ (ob.mark ≢ 0))
            × (di_upgrade_weak_ref 1 family ≡ some (none, family))))
unfolding total
upgrade-Counted_example =
    upgrade-Counted (nobody ⊕ one_at 0) (nobody ⊕ one_at 1) nobody 1 family family-Counted
      (omega arith)

drop_weak-Counted_example :
    (h' : Heap) × (di_drop_weak_ref 1 family ≡ some h')
    × Counted (nobody ⊕ one_at 0) nobody nobody h'
drop_weak-Counted_example =
    drop_weak-Counted (nobody ⊕ one_at 0) nobody nobody 1 family family-Counted

rawsetx-Counted_example :
    Keeps
      (nobody ⊕ one_at 0)
      (nobody ⊕ one_at 1)
      nobody
      (di_rawsetx (di_unref_object idle_dtor 2) 0 child (Value.object 0) family)
      family
unfolding total sound strong weak
rawsetx-Counted_example =
    rawsetx-Counted idle_dtor 2 (nobody ⊕ one_at 0) (nobody ⊕ one_at 1) nobody 0 (b'c' ∷ [])
      (Value.object 0) family idle-Tame family-Counted (omega arith) refl (λ q. omega arith)
      (λ q. omega arith) (omega arith)

insert_member-Updates_example :
    ((old : Member) × (di_lookup 0 child family ≡ some (some old))
      × (di_insert_member 0 (record { name = child; value = Value.nil }) family
          ≡ some (err eexist, family)))
    ⊎ ((h' : Heap) × (di_insert_member 0 (record { name = child; value = Value.nil }) family
          ≡ some (ok tt, h'))
        × Updates 0 child (some (record { name = child; value = Value.nil })) family h')
unfolding find_member
insert_member-Updates_example =
    insert_member-Updates 0 (b'c' ∷ []) Value.nil family parent refl (refl, tt)

remove_member-Updates_example :
    ((di_lookup 0 child family ≡ some none)
      × (di_remove_member_raw 0 child family ≡ some (err enoent, family)))
    ⊎ ((m : Member) × (h' : Heap) × (di_lookup 0 child family ≡ some (some m))
        × (di_remove_member_raw 0 child family ≡ some (ok m.value, h'))
        × Updates 0 child none family h')
unfolding find_member
remove_member-Updates_example = remove_member-Updates 0 (b'c' ∷ []) family parent refl (refl, tt)

-- Under a null name nothing is stored, and the copy that was made of the value is not freed: object 1 has
-- one holder and a count of 2.
null_name_leaks :
    di_rawsetx (di_unref_object idle_dtor 2) 0 null (Value.object 1) family
    ≡ some (
      err einval,
      record {
        cells = some parent ∷ some (record kid { ref_count = 2 }) ∷ [];
        unreferred = [];
        isolated = [];
      },
    )
unfolding di_rawsetx di_sizeof_type type_of di_copy_value
null_name_leaks = refl
