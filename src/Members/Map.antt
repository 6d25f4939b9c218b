-- ===== src/Members/Map.antt =====
-- Inserting, finding and removing members of an object in the heap.
use deai.Common.{
  ℕ, false, List, [], ◌∷◌, ◌++◌, Option, none, some, ◌≡◌, refl, ap, arith, ◌∙◌, Option-cases, inl,
  inr, ◌⊎◌,
}
use deai.Errors.{enoent, eexist, ok, err}
use deai.Text.{Text, null, chars, di_string_eq}
use deai.Value.{Value}
use deai.Heap.{Member, Object, Heap, deref, put, find_member, remove_member, cell-set_self}
use deai.Refs.{di_remove_member_raw_impl}
use deai.Refs.Frame.{members_of}
use deai.Members.{lookup_in, di_lookup, check_new_member, di_insert_member, di_remove_member_raw}
use deai.Members.Table.{
  Distinct, Distinct-append, Distinct-remove, find-append_new, find-append_other, find-remove_self,
  find-remove_other,
}

-- In the heap `h'`, the table of `o` is that in `h` but for `name`, whose entry is `entry`.
pub record Updates (o : ℕ) (name : Text) (entry : Option Member) (h h' : Heap) : Type 0 where
  pub here : di_lookup o name h' ≡ some entry
  pub elsewhere :
      (other : Text) → di_string_eq name other ≡ false → di_lookup o other h' ≡ di_lookup o other h
  pub distinct : Distinct (members_of o h')

lookup_in-other :
    (name other : Text) (ms ns : List Member)
    → (di_string_eq name other ≡ false → find_member other ns ≡ find_member other ms)
    → di_string_eq name other ≡ false
    → lookup_in other ns ≡ lookup_in other ms
unfolding lookup_in
lookup_in-other name null ms ns f d = refl
lookup_in-other name (chars cs) ms ns f d = f d

insert-put :
    (o : ℕ) (cs : List ℕ) (v : Value) (h : Heap) (ob : Object)
    → deref o h ≡ some ob
    → Distinct ob.members
    → find_member (chars cs) ob.members ≡ none
    → Updates o
        (chars cs)
        (some (record { name = chars cs; value = v }))
        h
        (put o (record ob { members = ob.members ++ record { name = chars cs; value = v } ∷ [] }) h)
unfolding di_lookup lookup_in
insert-put o cs v h ob e d f =
    let m : Member = record { name = chars cs; value = v } in
    let after : Object = record ob { members = ob.members ++ m ∷ [] } in
    record {
      here = rw (cell-set_self h.cells o (some after) e) (ap some (find-append_new ob.members m f));
      elsewhere = λ other ne.
          rw (cell-set_self h.cells o (some after) e, e)
            (ap some (
              lookup_in-other (chars cs) other ob.members (ob.members ++ m ∷ [])
                (find-append_other other ob.members m) ne));
      distinct = rw (cell-set_self h.cells o (some after) e) (Distinct-append ob.members m d f);
    }

insert-run :
    (o : ℕ) (cs : List ℕ) (v : Value) (h : Heap) (ob : Object)
    → deref o h ≡ some ob
    → di_insert_member o (record { name = chars cs; value = v }) h
      ≡ elim (check_new_member (chars cs) ob.members) [
        | err e ↦ some (err e, h)
        | ok _ ↦ some (
          ok tt,
          put o
              (record ob { members = ob.members ++ record { name = chars cs; value = v } ∷ [] })
              h,
        )
      ]
unfolding di_insert_member
insert-run o cs v h ob e = rw e

-- Adding a member under a name that is not null: where the name is taken, EEXIST and no change;
-- otherwise the name is bound to the new member, every other name to what it was bound to, and no
-- name is bound twice.
pub insert_member-Updates :
    (o : ℕ) (cs : List ℕ) (v : Value) (h : Heap) (ob : Object)
    → deref o h ≡ some ob
    → Distinct ob.members
    → ((old : Member) × (di_lookup o (chars cs) h ≡ some (some old))
        × (di_insert_member o (record { name = chars cs; value = v }) h ≡ some (err eexist, h)))
      ⊎ ((h' : Heap) × (di_insert_member o (record { name = chars cs; value = v }) h
            ≡ some (ok tt, h'))
          × Updates o (chars cs) (some (record { name = chars cs; value = v })) h h')
unfolding di_insert_member check_new_member di_lookup lookup_in
insert_member-Updates o cs v h ob e d = elim (Option-cases (find_member (chars cs) ob.members)) [
  | inr (old, f) ↦ inl (old, rw (e, f), insert-run o cs v h ob e ∙ ground (arith, f))
  | inl f ↦ inr (_, insert-run o cs v h ob e ∙ ground (arith, f), insert-put o cs v h ob e d f)
]

-- Removing a member: with no such name, ENOENT and no change; otherwise the caller gets the value
-- that was bound to the name, the name is bound to nothing, every other name to what it was bound
-- to, and still no name is bound twice.
pub remove_member-Updates :
    (o : ℕ) (cs : List ℕ) (h : Heap) (ob : Object)
    → deref o h ≡ some ob
    → Distinct ob.members
    → ((di_lookup o (chars cs) h ≡ some none)
        × (di_remove_member_raw o (chars cs) h ≡ some (err enoent, h)))
      ⊎ ((m : Member) × (h' : Heap) × (di_lookup o (chars cs) h ≡ some (some m))
          × (di_remove_member_raw o (chars cs) h ≡ some (ok m.value, h'))
          × Updates o (chars cs) none h h')
unfolding di_remove_member_raw di_remove_member_raw_impl di_lookup lookup_in
remove_member-Updates o cs h ob e d = elim (Option-cases (find_member (chars cs) ob.members)) [
  | inl f ↦ inl (rw (e, f), rw (e, f))
  | inr (m, f) ↦
      let after : Object = record ob { members = remove_member (chars cs) ob.members } in
      inr (
        m,
        put o after h,
        rw (e, f),
        rw (e, f, e, f),
        record {
          here =
              rw (cell-set_self h.cells o (some after) e)
                (ap some (find-remove_self (chars cs) ob.members d));
          elsewhere = λ other ne.
              rw (cell-set_self h.cells o (some after) e, e)
                (ap some (
                  lookup_in-other (chars cs) other ob.members (remove_member (chars cs) ob.members)
                    (find-remove_other (chars cs) other ob.members) ne));
          distinct =
              rw (cell-set_self h.cells o (some after) e) (Distinct-remove (chars cs) ob.members d);
        },
      )
]
