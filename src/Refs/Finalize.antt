-- ===== src/Refs/Finalize.antt =====
-- `di_finalize_object_inner` on an object that is being destroyed: the destructor, then each member.
use deai.Common.{
  ℕ, ◌+◌, ◌≤◌, ◌<◌, true, List, [], ◌∷◌, Option, some, ◌≡◌, ◌≢◌, refl, sym, ap, subst, arith, ◌∙◌,
  and_left, and_right, Option-cases, inl, inr,
}
use deai.Text.Slice.{string_eq_iff}
use deai.Value.{strong, weak, sound}
use deai.Heap.{
  Heap, Object, Member, deref, put, find_member, remove_member, cell-set_self, cell-set_ne,
}
use deai.Heap.Sums.{strong_members, weak_members, all_sound}
use deai.Refs.{di_remove_member_raw_impl, finalize_members}
use deai.Refs.Counts.{Counted, Counted-put, CellOk, Linked, ObOk-at, live, strong_in, weak_in}
use deai.Refs.Steps.{◌⊕◌}
use deai.Refs.Frame.{Tidy, Tidy-trans, Tidy-refl, Everything, members_of, live-put}
use deai.Refs.Free.{Releases, free-value}

abbrev pub Others : ℕ → ℕ → Type 0
Others o q = q ≢ o

pub dying_of :
    {S W D : ℕ → ℕ} {h : Heap} (o : ℕ)
    → Counted S W D h
    → 0 < D o
    → (ob : Object) × (deref o h ≡ some ob) × (ob.members ≡ members_of o h)
dying_of {S} {W} {D} {h} o c pos = elim (Option-cases (deref o h)) [
  | inl e ↦
      absurd
        (omega (arith, subst (CellOk (S o + strong_in o h) (W o + weak_in o h) (D o)) e (c.at o)))
  | inr (ob, e) ↦ (ob, e, rw e)
]

-- The first member is found under its name, and taken out.
find_first : (m : Member) (ms : List Member) → find_member m.name (m ∷ ms) ≡ some m
unfolding find_member
find_first m ms = rw ((string_eq_iff m.name m.name).1 refl)

remove_first : (m : Member) (ms : List Member) → remove_member m.name (m ∷ ms) ≡ ms
unfolding remove_member
remove_first m ms = rw ((string_eq_iff m.name m.name).1 refl)

-- The object with its first member taken out: the member's references are now outside.
module _ {S W D : ℕ → ℕ} {h : Heap} (o : ℕ) {ob : Object} (m : Member) (ms : List Member)
    (c : Counted S W D h) (e : deref o h ≡ some ob) (pos : 0 < D o)
    (first : ob.members ≡ m ∷ ms) where
  abbrev rest : Object
  rest = record ob { members = ms }

  take-run : di_remove_member_raw_impl o m.name h ≡ some (m.value, put o rest h)
  unfolding di_remove_member_raw_impl
  take-run = rw (e, first, find_first m ms, remove_first m ms)

  take-sound : sound m.value ≡ true
  unfolding all_sound
  take-sound =
      let k = ObOk-at o c e in
      and_left (sound m.value) (all_sound ms) (ap all_sound (sym first) ∙ k.whole)

  take-rest_sound : all_sound ms ≡ true
  unfolding all_sound
  take-rest_sound =
      let k = ObOk-at o c e in
      and_right (sound m.value) (all_sound ms) (ap all_sound (sym first) ∙ k.whole)

  take-sums :
      (q : ℕ)
      → (strong_members q ob.members ≡ strong q m.value + strong_members q ms)
        × (weak_members q ob.members ≡ weak q m.value + weak_members q ms)
  unfolding strong_members weak_members
  take-sums q = (ap (strong_members q) first, ap (weak_members q) first)

  take-Counted : Counted (S ⊕ (λ q. strong q m.value)) (W ⊕ (λ q. weak q m.value)) D (put o rest h)
  take-Counted =
      Counted-put (S ⊕ (λ q. strong q m.value)) (W ⊕ (λ q. weak q m.value)) D h o ob rest
        h.unreferred h.isolated c e (λ q ne. omega (arith, take-sums q))
        (λ q ne. omega (arith, take-sums q)) (λ q ne. refl)
        (λ r r' w w' er ew k. ground (arith, er, ew, k, take-sums o, pos, take-rest_sound))
        (λ q ne i. i) (λ i. subst Linked e (c.linked o i))

  take-Tidy :
      Tidy (Others o) (S ⊕ (λ q. strong q m.value)) (W ⊕ (λ q. weak q m.value)) D h (put o rest h)
  take-Tidy = record {
    counted = take-Counted;
    calm = omega (arith, live-put o h ob rest e);
    kept = λ q p ne. rw (cell-set_ne h.cells o q (some rest) ne);
  }

  take-members : members_of o (put o rest h) ≡ ms
  take-members = rw (cell-set_self h.cells o (some rest) e)

pub Tidy-Others :
    {S W D : ℕ → ℕ} {h h' : Heap} (o : ℕ) → Tidy Everything S W D h h' → Tidy (Others o) S W D h h'
Tidy-Others o t = record { counted = t.counted; calm = t.calm; kept = λ q p ne. t.kept q p tt }

module _ (u : ℕ → Heap → Option Heap) (n : ℕ) (rel : Releases u n) where
  pub members-gone :
      (o : ℕ) (ms : List Member) (S W D : ℕ → ℕ) (h : Heap)
      → Counted S W D h
      → 0 < D o
      → members_of o h ≡ ms
      → live h ≤ n
      → (h' : Heap) × (finalize_members u o ms h ≡ some h')
        × Tidy (Others o) S W D h h'
        × (members_of o h' ≡ [])
  unfolding finalize_members
  members-gone o [] S W D h c pos e l = (h, refl, Tidy-refl c, e)
  members-gone o (m ∷ ms) S W D h c pos e l =
      let (ob, at, mem) = dying_of o c pos in
      let t0 = take-Tidy o m ms c at pos (mem ∙ e) in
      let (h1, run, t1) =
        free-value u n rel m.value S W D (put o (rest o m ms c at pos (mem ∙ e)) h) t0.counted
          (take-sound o m ms c at pos (mem ∙ e)) (omega (arith, t0.calm)) in
      let (h2, go, t2, none_left) =
        members-gone o ms S W D h1 t1.counted pos
          (t1.kept o pos tt ∙ take-members o m ms c at pos (mem ∙ e))
          (omega (arith, t0.calm, t1.calm)) in
      (
        h2,
        rw (take-run o m ms c at pos (mem ∙ e), run) go,
        Tidy-trans (λ q p. p) t0 (Tidy-trans (λ q p. p) (Tidy-Others o t1) t2),
        none_left,
      )
