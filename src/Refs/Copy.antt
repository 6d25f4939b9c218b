-- ===== src/Refs/Copy.antt =====
-- `di_copy_value`: the copy owns just as many references as the original, and the ledger says so.
use deai.Common.{
  ℕ, ◌+◌, ◌≤◌, ◌<◌, true, false, some, ◌≡◌, refl, ap, arith, ◌∙◌, ◌==◌, and_left, and_right,
}
use deai.Types.{DiType, di_sizeof_type}
use deai.Value.{
  Value, Values, end, item, any, last_type, array, tuple, variant, object, empty_object,
  weak_object, one_at, strong, strong_items, weak, weak_items, sound, sound_items, has_elements,
  all_of, type_of,
}
use deai.Heap.{Heap, Object, deref, put}
use deai.Heap.Sums.{strong_members, weak_members, total-set}
use deai.Refs.{di_copy_value, copy_items, di_ref_object, di_weakly_ref_object}
use deai.Refs.Counts.{Counted, Counted-cong, strong_in, weak_in, live, implicit}
use deai.Refs.Steps.{◌⊕◌, alive_of, allocated_of, ref-Counted, weak_ref-Counted}

-- The references in the heap are where they were.
pub record SameRefs (h h' : Heap) : Type 0 where
  pub strongs : (q : ℕ) → strong_in q h' ≡ strong_in q h
  pub weaks : (q : ℕ) → weak_in q h' ≡ weak_in q h
  pub lives : live h' ≡ live h

-- `w` owns what `v` owns.
pub record Alike (v w : Value) : Type 0 where
  pub strongs : (q : ℕ) → strong q w ≡ strong q v
  pub weaks : (q : ℕ) → weak q w ≡ weak q v
  pub whole : sound w ≡ true
  pub kind : type_of w ≡ type_of v

pub record AlikeItems (v w : Values) : Type 0 where
  pub strongs : (q : ℕ) → strong_items q w ≡ strong_items q v
  pub weaks : (q : ℕ) → weak_items q w ≡ weak_items q v
  pub wholes : sound_items w ≡ true
  pub kinds : (t : DiType) → all_of t w ≡ all_of t v

SameRefs-refl : (h : Heap) → SameRefs h h
SameRefs-refl h = record { strongs = λ q. refl; weaks = λ q. refl; lives = refl }

SameRefs-put :
    (o : ℕ) (h : Heap) (ob ob' : Object)
    → deref o h ≡ some ob
    → ob'.members ≡ ob.members
    → ob'.destroyed ≡ ob.destroyed
    → SameRefs h (put o ob' h)
SameRefs-put o h ob ob' e m d = record {
  strongs = λ q. omega (
    arith,
    total-set (λ x. strong_members q x.members) h.cells o ob ob' e,
    ap (strong_members q) m,
  );
  weaks = λ q.
      omega (
        arith,
        total-set (λ x. weak_members q x.members) h.cells o ob ob' e,
        ap (weak_members q) m,
      );
  lives = ground (arith, total-set implicit h.cells o ob ob' e, d);
}

sizeof_elements :
    (t : DiType)
    → has_elements t ≡ true
    → (n : ℕ) × (di_sizeof_type t ≡ some n) × ((n == 0) ≡ false)
unfolding di_sizeof_type
sizeof_elements DiType.nil h = cc
sizeof_elements DiType.any h = cc
sizeof_elements DiType.last_type h = cc
sizeof_elements DiType.empty_object h = (8, refl, refl)
sizeof_elements DiType.bool h = (1, refl, refl)
sizeof_elements DiType.nint h = (4, refl, refl)
sizeof_elements DiType.nuint h = (4, refl, refl)
sizeof_elements DiType.array h = (24, refl, refl)
sizeof_elements DiType.string h = (16, refl, refl)
sizeof_elements DiType.tuple h = (16, refl, refl)
sizeof_elements DiType.variant h = (16, refl, refl)
sizeof_elements _ h = (8, refl, refl)

module _ {S W D : ℕ → ℕ} {h : Heap} (o : ℕ) (c : Counted S W D h) where
  ref-Copied :
      0 < S o + strong_in o h
      → (h' : Heap) × (di_ref_object o h ≡ some h') × Counted (S ⊕ one_at o) W D h' × SameRefs h h'
  unfolding di_ref_object
  ref-Copied pos =
      let (ob, e, a) = alive_of o c pos in
      (
        put o (record ob { ref_count = ob.ref_count + 1 }) h,
        rw e,
        ref-Counted o c e a,
        SameRefs-put o h ob _ e refl refl,
      )

  weak_ref-Copied :
      0 < W o + weak_in o h
      → (h' : Heap) × (di_weakly_ref_object o h ≡ some h')
        × Counted S (W ⊕ one_at o) D h'
        × SameRefs h h'
  unfolding di_weakly_ref_object
  weak_ref-Copied pos =
      let (ob, e) = allocated_of o c pos in
      (
        put o (record ob { weak_ref_count = ob.weak_ref_count + 1 }) h,
        rw e,
        weak_ref-Counted o c e,
        SameRefs-put o h ob _ e refl refl,
      )

abbrev pub Copies : (S W D : ℕ → ℕ) → Value → Heap → Type 0
Copies S W D v h =
    (w : Value) × (h' : Heap) × (di_copy_value v h ≡ some (w, h'))
    × Counted (S ⊕ (λ q. strong q v)) (W ⊕ (λ q. weak q v)) D h'
    × Alike v w
    × SameRefs h h'

array-sound :
    (t : DiType) (v : Value) (vs ws : Values)
    → sound (array t (item v vs)) ≡ true
    → AlikeItems (item v vs) ws
    → sound (array t ws) ≡ true
unfolding sound
array-sound t v vs end s l = refl
array-sound t v vs (item w ws) s l = rw (
  and_left (has_elements t) _ (and_left _ (sound_items (item v vs)) s),
  l.kinds t,
  and_right (has_elements t) _ (and_left _ (sound_items (item v vs)) s),
  l.wholes,
)

mutual
  unfolding di_copy_value strong weak sound type_of

  pub copy-value :
      (v : Value) (S W D : ℕ → ℕ) (h : Heap)
      → Counted S W D h
      → sound v ≡ true
      → ((q : ℕ) → strong q v ≤ S q + strong_in q h)
      → ((q : ℕ) → weak q v ≤ W q + weak_in q h)
      → Copies S W D v h
  copy-value any S W D h c s hs hw = cc
  copy-value last_type S W D h c s hs hw = cc
  copy-value (array t end) S W D h c s hs hw = (
    array t end,
    h,
    refl,
    Counted-cong (λ q. omega arith) (λ q. omega arith) (λ q. refl) c,
    record { strongs = λ q. refl; weaks = λ q. refl; whole = s; kind = refl },
    SameRefs-refl h,
  )
  copy-value (array t (item v vs)) S W D h c s hs hw =
      let (n, size, big) =
        sizeof_elements t (and_left _ _ (and_left _ (sound_items (item v vs)) s)) in
      let (ws, h', run, c', like, same) =
        copy-items (item v vs) S W D h c (and_right _ (sound_items (item v vs)) s) hs hw in
      (
        array t ws,
        h',
        rw (size, big, run),
        c',
        record {
          strongs = like.strongs;
          weaks = like.weaks;
          whole = array-sound t v vs ws s like;
          kind = refl;
        },
        same,
      )
  copy-value (tuple vs) S W D h c s hs hw =
      let (ws, h', run, c', like, same) = copy-items vs S W D h c s hs hw in
      (
        tuple ws,
        h',
        rw run,
        c',
        record { strongs = like.strongs; weaks = like.weaks; whole = like.wholes; kind = refl },
        same,
      )
  copy-value (variant v) S W D h c s hs hw =
      let (w, h', run, c', like, same) = copy-value v S W D h c s hs hw in
      (
        variant w,
        h',
        rw run,
        c',
        record { strongs = like.strongs; weaks = like.weaks; whole = like.whole; kind = refl },
        same,
      )
  copy-value (object o) S W D h c s hs hw =
      let (h', run, c', same) = ref-Copied o c (ground (arith, hs o)) in
      (
        object o,
        h',
        rw run,
        Counted-cong (λ q. refl) (λ q. omega arith) (λ q. refl) c',
        record { strongs = λ q. refl; weaks = λ q. refl; whole = s; kind = refl },
        same,
      )
  copy-value (empty_object o) S W D h c s hs hw =
      let (h', run, c', same) = ref-Copied o c (ground (arith, hs o)) in
      (
        empty_object o,
        h',
        rw run,
        Counted-cong (λ q. refl) (λ q. omega arith) (λ q. refl) c',
        record { strongs = λ q. refl; weaks = λ q. refl; whole = s; kind = refl },
        same,
      )
  copy-value (weak_object o) S W D h c s hs hw =
      let (h', run, c', same) = weak_ref-Copied o c (ground (arith, hw o)) in
      (
        weak_object o,
        h',
        rw run,
        Counted-cong (λ q. omega arith) (λ q. refl) (λ q. refl) c',
        record { strongs = λ q. refl; weaks = λ q. refl; whole = s; kind = refl },
        same,
      )
  copy-value v S W D h c s hs hw = (
    _,
    h,
    refl,
    Counted-cong (λ q. omega arith) (λ q. omega arith) (λ q. refl) c,
    record { strongs = λ q. refl; weaks = λ q. refl; whole = s; kind = refl },
    SameRefs-refl h,
  )

  pub copy-items :
      (vs : Values) (S W D : ℕ → ℕ) (h : Heap)
      → Counted S W D h
      → sound_items vs ≡ true
      → ((q : ℕ) → strong_items q vs ≤ S q + strong_in q h)
      → ((q : ℕ) → weak_items q vs ≤ W q + weak_in q h)
      → (ws : Values) × (h' : Heap) × (copy_items vs h ≡ some (ws, h'))
        × Counted (S ⊕ (λ q. strong_items q vs)) (W ⊕ (λ q. weak_items q vs)) D h'
        × AlikeItems vs ws
        × SameRefs h h'
  copy-items end S W D h c s hs hw = (
    end,
    h,
    refl,
    Counted-cong (λ q. omega arith) (λ q. omega arith) (λ q. refl) c,
    record { strongs = λ q. refl; weaks = λ q. refl; wholes = refl; kinds = λ t. refl },
    SameRefs-refl h,
  )
  copy-items (item v vs) S W D h c s hs hw =
      let (w, h1, run, c1, like, same) =
        copy-value v S W D h c (and_left (sound v) (sound_items vs) s) (λ q. omega (arith, hs q))
          (λ q. omega (arith, hw q)) in
      let (ws, h2, go, c2, likes, same2) =
        copy-items vs (S ⊕ (λ q. strong q v)) (W ⊕ (λ q. weak q v)) D h1 c1
          (and_right (sound v) (sound_items vs) s) (λ q. omega (arith, hs q, same.strongs q))
          (λ q. omega (arith, hw q, same.weaks q)) in
      (
        item w ws,
        h2,
        rw (run, go),
        Counted-cong (λ q. omega arith) (λ q. omega arith) (λ q. refl) c2,
        record {
          strongs = λ q. omega (arith, like.strongs q, likes.strongs q);
          weaks = λ q. omega (arith, like.weaks q, likes.weaks q);
          wholes = rw (like.whole, likes.wholes);
          kinds = λ t. rw (like.kind, likes.kinds t);
        },
        record {
          strongs = λ q. same2.strongs q ∙ same.strongs q;
          weaks = λ q. same2.weaks q ∙ same.weaks q;
          lives = same2.lives ∙ same.lives;
        },
      )

-- `di_copy_value` of a value whose references someone holds never panics: it returns a copy of the
-- same type that owns the same number of references to each object as the original, and the
-- counts are right with these added. No object is created or destroyed.
pub copy_value-Counted :
    (S W D : ℕ → ℕ) (v : Value) (h : Heap)
    → Counted S W D h
    → sound v ≡ true
    → ((q : ℕ) → strong q v ≤ S q + strong_in q h)
    → ((q : ℕ) → weak q v ≤ W q + weak_in q h)
    → (w : Value) × (h' : Heap) × (di_copy_value v h ≡ some (w, h'))
      × Counted (S ⊕ (λ q. strong q w)) (W ⊕ (λ q. weak q w)) D h'
      × Alike v w
      × (live h' ≡ live h)
copy_value-Counted S W D v h c s hs hw =
    let (w, h', run, c', like, same) = copy-value v S W D h c s hs hw in
    (
      w,
      h',
      run,
      Counted-cong (λ q. omega (arith, like.strongs q)) (λ q. omega (arith, like.weaks q))
          (λ q. refl) c',
      like,
      same.lives,
    )
