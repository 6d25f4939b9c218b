-- ===== src/Members/Ledger.antt =====
-- Adding, replacing and deleting members keeps the reference counts right, on every branch.
use deai.Common.{
  ℕ, ◌+◌, ◌≤◌, ◌<◌, true, false, List, [], ◌∷◌, ◌++◌, Option, none, some, ◌≡◌, refl, ap, arith,
  Bool-cases, Option-cases, inl, inr, subst, ◌==◌,
}
use deai.Errors.{enoent, einval, eexist, Result, ok, err}
use deai.Types.{di_sizeof_type}
use deai.Text.{Text, chars, di_string_eq, di_clone_string}
use deai.Text.Slice.{take_all}
use deai.Value.{Value, type_of, strong, weak, sound}
use deai.Heap.{Member, Object, Heap, deref, put, find_member, remove_member}
use deai.Heap.Sums.{strong_members, weak_members, all_sound}
use deai.Refs.{di_free_value, di_remove_member_raw_impl, di_unref_object}
use deai.Refs.Counts.{Counted, Counted-cong, Counted-put, Linked, ObOk-at, live}
use deai.Refs.Steps.{◌⊕◌, alive_of}
use deai.Refs.Frame.{live-put}
use deai.Refs.Release.{Tame}
use deai.Refs.Unref.{unref-Releases}
use deai.Refs.Free.{Releases, free-value}
use deai.Refs.Copy.{copy-value}
use deai.Members.{
  lookup_in, di_lookup, check_new_member, di_insert_member, di_remove_member_raw, di_add_member,
  di_add_member_clone, di_delete_member_raw, di_rawsetx,
}

sums-append :
    (q : ℕ) (ms : List Member) (m : Member)
    → (strong_members q (ms ++ m ∷ []) ≡ strong_members q ms + strong q m.value)
      × (weak_members q (ms ++ m ∷ []) ≡ weak_members q ms + weak q m.value)
unfolding strong_members weak_members
sums-append q [] m = (omega arith, omega arith)
sums-append q (x ∷ ms) m = (omega (arith, sums-append q ms m), omega (arith, sums-append q ms m))

sound-append :
    (ms : List Member) (m : Member)
    → all_sound ms ≡ true
    → sound m.value ≡ true
    → all_sound (ms ++ m ∷ []) ≡ true
unfolding all_sound
sound-append [] m a s = rw s
sound-append (x ∷ ms) m a s = ground (arith, sound-append ms m)

-- The value that a found member holds, and what the others hold.
pub sums-remove :
    (q : ℕ) (name : Text) (ms : List Member) (m : Member)
    → find_member name ms ≡ some m
    → (strong_members q ms ≡ strong_members q (remove_member name ms) + strong q m.value)
      × (weak_members q ms ≡ weak_members q (remove_member name ms) + weak q m.value)
unfolding strong_members weak_members find_member remove_member
sums-remove q name [] m e = cc
sums-remove q name (x ∷ ms) m e = elim (Bool-cases (di_string_eq x.name name)) [
  | inl same ↦ ground (arith, same, e)
  | inr other ↦ ground (arith, other, e, sums-remove q name ms m)
]

pub sound-remove :
    (name : Text) (ms : List Member) (m : Member)
    → find_member name ms ≡ some m
    → all_sound ms ≡ true
    → (sound m.value ≡ true) × (all_sound (remove_member name ms) ≡ true)
unfolding all_sound find_member remove_member
sound-remove name [] m e a = cc
sound-remove name (x ∷ ms) m e a = ground (arith, sound-remove name ms m)

remove-nil : (name : Text) (ms : List Member) → ms ≡ [] → remove_member name ms ≡ []
unfolding remove_member
remove-nil name [] e = refl
remove-nil name (m ∷ ms) e = cc

-- The copy of a name is the name.
clone_chars : (cs : List ℕ) → di_clone_string (chars cs) ≡ chars cs
unfolding di_clone_string
clone_chars cs = ap chars (take_all cs)

module _ {S W D : ℕ → ℕ} (o : ℕ) (h : Heap) (ob : Object) (e : deref o h ≡ some ob) where
  pub append-Counted :
      (m : Member)
      → Counted (S ⊕ (λ q. strong q m.value)) (W ⊕ (λ q. weak q m.value)) D h
      → ob.destroyed ≡ false
      → sound m.value ≡ true
      → Counted S W D (put o (record ob { members = ob.members ++ m ∷ [] }) h)
  append-Counted m c a s =
      Counted-put S W D h o ob (record ob { members = ob.members ++ m ∷ [] }) h.unreferred
        h.isolated c e (λ q ne. omega (arith, sums-append q ob.members m))
        (λ q ne. omega (arith, sums-append q ob.members m)) (λ q ne. refl)
        (λ r r' w w' er ew k.
          ground
            (arith, er, ew, k, sums-append o ob.members m, sound-append ob.members m k.whole s, a))
        (λ q ne i. i) (λ i. a)

  pub remove-Counted :
      (name : Text) (m : Member)
      → Counted S W D h
      → find_member name ob.members ≡ some m
      → Counted
          (S ⊕ (λ q. strong q m.value))
          (W ⊕ (λ q. weak q m.value))
          D
          (put o (record ob { members = remove_member name ob.members }) h)
  remove-Counted name m c f =
      Counted-put (S ⊕ (λ q. strong q m.value)) (W ⊕ (λ q. weak q m.value)) D h o ob
        (record ob { members = remove_member name ob.members }) h.unreferred h.isolated c e
        (λ q ne. omega (arith, sums-remove q name ob.members m f))
        (λ q ne. omega (arith, sums-remove q name ob.members m f)) (λ q ne. refl)
        (λ r r' w w' er ew k. ground (
          arith,
          er,
          ew,
          k,
          sums-remove o name ob.members m f,
          sound-remove name ob.members m f k.whole,
          remove-nil name ob.members,
        ))
        (λ q ne i. i) (λ i. subst Linked e (c.linked o i))

-- What an operation on the heap `h` gives that never faults and leaves the ledger with these columns.
abbrev pub Keeps : (S W D : ℕ → ℕ) → Option (Result (Unit {0}) × Heap) → Heap → Type 0
Keeps S W D run h =
    (rc : Result (Unit {0})) × (h' : Heap) × (run ≡ some (rc, h'))
    × Counted S W D h'
    × (live h' ≤ live h)

pub sizeof-sound :
    (v : Value) → sound v ≡ true → (size : ℕ) × (di_sizeof_type (type_of v) ≡ some size)
unfolding sound type_of di_sizeof_type
sizeof-sound Value.any s = cc
sizeof-sound Value.last_type s = cc
sizeof-sound _ s = (_, refl)

-- A name that is not taken
pub add_member-new :
    (u : ℕ → Heap → Option Heap) (o : ℕ) (cs : List ℕ) (v : Value) (h : Heap) (ob : Object)
    → deref o h ≡ some ob
    → find_member (chars cs) ob.members ≡ none
    → di_add_member u o (chars cs) v h
      ≡ some (
        ok tt,
        put o (record ob { members = ob.members ++ record { name = chars cs; value = v } ∷ [] }) h,
      )
unfolding di_add_member di_insert_member check_new_member
add_member-new u o cs v h ob e f = rw (clone_chars cs, e) (ground (arith, f, clone_chars cs))

pub delete-run :
    (unref : ℕ → Heap → Option Heap) (o : ℕ) (cs : List ℕ) (p : ℕ) (h h' : Heap) (ob : Object)
    (m : Member)
    → deref o h ≡ some ob
    → find_member (chars cs) ob.members ≡ some m
    → m.value ≡ Value.object p
    → unref p (put o (record ob { members = remove_member (chars cs) ob.members }) h) ≡ some h'
    → di_delete_member_raw unref o (chars cs) h ≡ some (ok tt, h')
unfolding di_delete_member_raw di_remove_member_raw di_remove_member_raw_impl di_lookup lookup_in
    di_free_value
delete-run unref o cs p h h' ob m e f v run = rw (e, f, e, f, v, run) refl

module _ (u : ℕ → Heap → Option Heap) (n : ℕ) (rel : Releases u n) where
  add-Counted :
      (S W D : ℕ → ℕ) (o : ℕ) (cs : List ℕ) (v : Value) (h : Heap) (ob : Object)
      → deref o h ≡ some ob
      → ob.destroyed ≡ false
      → Counted (S ⊕ (λ q. strong q v)) (W ⊕ (λ q. weak q v)) D h
      → sound v ≡ true
      → live h ≤ n
      → Keeps S W D (di_add_member u o (chars cs) v h) h
  unfolding di_add_member di_insert_member check_new_member
  add-Counted S W D o cs v h ob e a c s l =
      let m : Member = record { name = chars cs; value = v } in
      elim (Option-cases (find_member (chars cs) ob.members)) [
        | inl f ↦ (
          ok tt,
          put o (record ob { members = ob.members ++ m ∷ [] }) h,
          add_member-new u o cs v h ob e f,
          append-Counted o h ob e m c a s,
          omega (arith, live-put o h ob (record ob { members = ob.members ++ m ∷ [] }) e),
        )
        | inr (old, f) ↦
            let (h', run, t) = free-value u n rel v S W D h c s l in
            (
              err eexist,
              h',
              rw (clone_chars cs, e) (ground (arith, f, run, clone_chars cs)),
              t.counted,
              t.calm,
            )
      ]

  pub delete-Counted :
      (S W D : ℕ → ℕ) (o : ℕ) (cs : List ℕ) (h : Heap) (ob : Object)
      → deref o h ≡ some ob
      → Counted S W D h
      → live h ≤ n
      → Keeps S W D (di_delete_member_raw u o (chars cs) h) h
  unfolding di_delete_member_raw di_remove_member_raw di_remove_member_raw_impl di_lookup lookup_in
  delete-Counted S W D o cs h ob e c l = elim (Option-cases (find_member (chars cs) ob.members)) [
    | inl f ↦ (err enoent, h, rw e (ground (arith, f)), c, omega arith)
    | inr (m, f) ↦
        let rest : Object = record ob { members = remove_member (chars cs) ob.members } in
        let (s, _) = sound-remove (chars cs) ob.members m f (ObOk-at o c e).whole in
        let (h', run, t) =
          free-value u n rel m.value S W D (put o rest h) (remove-Counted o h ob e (chars cs) m c f)
            s (omega (arith, live-put o h ob rest e)) in
        (ok tt, h', rw (e, f, e, f, run), t.counted, omega (arith, t.calm, live-put o h ob rest e))
  ]

  clone-Counted :
      (S W D : ℕ → ℕ) (o : ℕ) (cs : List ℕ) (v : Value) (h : Heap)
      → 0 < S o
      → Counted S W D h
      → sound v ≡ true
      → ((q : ℕ) → strong q v ≤ S q)
      → ((q : ℕ) → weak q v ≤ W q)
      → live h ≤ n
      → Keeps S W D (di_add_member_clone u o (chars cs) v h) h
  unfolding di_add_member_clone
  clone-Counted S W D o cs v h pos c s hs hw l =
      let (size, known) = sizeof-sound v s in
      elim (Bool-cases (size == 0)) [
        | inl none_of ↦ (err einval, h, rw (known, none_of), c, omega arith)
        | inr some_of ↦
            let (w, h1, run, c1, like, same) =
              copy-value v S W D h c s (λ q. omega (arith, hs q)) (λ q. omega (arith, hw q)) in
            let (ob, e, a) = alive_of o c1 (omega arith) in
            let (rc, h2, go, c2, calm) =
              add-Counted S W D o cs w h1 ob e a
                (Counted-cong (λ q. omega (arith, like.strongs q))
                  (λ q. omega (arith, like.weaks q)) (λ q. refl) c1)
                like.whole (omega (arith, same.lives)) in
            (rc, h2, rw (known, some_of, run) go, c2, omega (arith, calm, same.lives))
      ]

  rawset-after :
      (S W D : ℕ → ℕ) (o : ℕ) (cs : List ℕ) (v : Value) (h : Heap) (rc : Result (Unit {0}))
      → Keeps S W D (di_add_member_clone u o (chars cs) v h) h
      → Counted S W D h
      → Keeps S W D
          (elim rc [
            | ok _ ↦ di_add_member_clone u o (chars cs) v h
            | err enoent ↦ di_add_member_clone u o (chars cs) v h
            | err e ↦ some (err e, h)
          ])
          h
  rawset-after S W D o cs v h (ok x) k c = k
  rawset-after S W D o cs v h (err enoent) k c = k
  rawset-after S W D o cs v h (err e) k c = (err e, h, refl, c, omega arith)

  rawset-Counted :
      (S W D : ℕ → ℕ) (o : ℕ) (cs : List ℕ) (v : Value) (h : Heap)
      → 0 < S o
      → Counted S W D h
      → sound v ≡ true
      → ((q : ℕ) → strong q v ≤ S q)
      → ((q : ℕ) → weak q v ≤ W q)
      → live h ≤ n
      → Keeps S W D (di_rawsetx u o (chars cs) v h) h
  unfolding di_rawsetx
  rawset-Counted S W D o cs v h pos c s hs hw l =
      let (ob, e, a) = alive_of o c (omega arith) in
      let (rc, h1, run, c1, calm) = delete-Counted S W D o cs h ob e c l in
      let (rc2, h2, go, c2, calm2) =
        rawset-after S W D o cs v h1 rc (clone-Counted S W D o cs v h1 pos c1 s hs hw (omega arith))
          c1 in
      (rc2, h2, rw run go, c2, omega arith)

-- `di_rawsetx`, on an object that the caller holds, with a name that is not null and a value that the
-- caller borrows, never faults, whether the name was free, bound, or the value has no size, and whatever is destroyed with the
-- old value: afterwards every reference count is right for the same references outside the heap.
pub rawsetx-Counted :
    (run_dtor : ℕ → ℕ → Heap → Option Heap) (fuel : ℕ) (S W D : ℕ → ℕ) (o : ℕ) (cs : List ℕ)
    (v : Value) (h : Heap)
    → Tame run_dtor
    → Counted S W D h
    → 0 < S o
    → sound v ≡ true
    → ((q : ℕ) → strong q v ≤ S q)
    → ((q : ℕ) → weak q v ≤ W q)
    → live h ≤ fuel
    → Keeps S W D (di_rawsetx (di_unref_object run_dtor fuel) o (chars cs) v h) h
rawsetx-Counted run_dtor fuel S W D o cs v h tame c pos s hs hw l =
    rawset-Counted (di_unref_object run_dtor fuel) fuel (unref-Releases run_dtor tame fuel) S W D o
      cs v h pos c s hs hw l
