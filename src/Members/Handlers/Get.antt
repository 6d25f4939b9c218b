-- ===== src/Members/Handlers/Get.antt =====
-- Reading a member, object.c: `di_getx` keeps the reference counts right, whichever way the value is
-- found.
use deai.Common.{
  ℕ, ◌+◌, ◌*◌, ◌≤◌, ◌<◌, Bool, true, List, Option, none, some, ◌≡◌, ◌⊎◌, inl, inr, refl, ap, arith,
  Option-cases, Bool-cases,
}
use deai.Errors.{enoent, ok, err}
use deai.Text.{Text, null, chars}
use deai.Value.{Value, strong, weak, last_type, variant}
use deai.Heap.{Heap, find_member}
use deai.Heap.Sums.{strong_members, weak_members}
use deai.Refs.Counts.{Counted, Counted-cong, ObOk-at, live}
use deai.Refs.Steps.{◌⊕◌, alive_of}
use deai.Refs.Copy.{copy_value-Counted}
use deai.Gc.Recolor.{part-le-total}
use deai.Members.{di_lookup, di_refrawgetx, di_rawgetx, lookup_in}
use deai.Members.Ledger.{sums-remove, sound-remove}
use deai.Members.Handlers.{
  Called, gives, fails, raises, throws, CallFn, get_prefix, di_free_last_type, di_getx, answer,
}
use deai.Members.Handlers.Obliging.{strong_of, weak_of, Handled, Obliging, held_by, keep-Searches}

-- A call that ends, with right counts and what it hands over.
abbrev pub Leaves : (S W D : ℕ → ℕ) → Option (Called × Heap) → Type 0
Leaves S W D run =
    (r : Called) × (h' : Heap) × (run ≡ some (r, h'))
    × Counted (S ⊕ strong_of r) (W ⊕ weak_of r) D h'

-- What holds no value owns nothing.
last_type-owns :
    (v : Value) (q : ℕ) → di_free_last_type v ≡ true → (strong q v ≡ 0) × (weak q v ≡ 0)
unfolding di_free_last_type strong weak
last_type-owns last_type q e = (refl, refl)
last_type-owns (variant v) q e = last_type-owns v q e
last_type-owns _ q e = cc

answer-owns :
    (r : Called) (q : ℕ)
    → (strong_of r q ≡ strong_of (answer r) q) × (weak_of r q ≡ weak_of (answer r) q)
answer-owns (fails e) q = (refl, refl)
answer-owns (raises e) q = (refl, refl)
answer-owns (throws e) q = (refl, refl)
answer-owns (gives v) q = elim (Bool-cases (di_free_last_type v)) [
  | inl t ↦ rw t (last_type-owns v q t)
  | inr f ↦ rw f (refl, refl)
]

-- A raw member, copied, or none and the heap as it was.
raw-cases :
    (prefix : List ℕ) (S W D : ℕ → ℕ) (o : ℕ) (prop : Text) (h : Heap)
    → Counted S W D h
    → Handled prefix h
    → 0 < S o
    → (di_rawgetx o prop h ≡ some (err enoent, h))
      ⊎ ((w : Value) × (h' : Heap) × (di_rawgetx o prop h ≡ some (ok w, h'))
          × Counted (S ⊕ strong_of (gives w)) (W ⊕ weak_of (gives w)) D h')
unfolding di_rawgetx di_refrawgetx di_lookup lookup_in
raw-cases prefix S W D o null h c k pos =
    let (ob, e, a) = alive_of o c (omega arith) in inl (rw e refl)
raw-cases prefix S W D o (chars cs) h c k pos =
    let (ob, e, a) = alive_of o c (omega arith) in
    elim (Option-cases (find_member (chars cs) ob.members)) [
      | inl f ↦ inl (rw (e, f) refl)
      | inr (m, f) ↦
          let (size, known, some_of) = k.sized o ob (chars cs) m e f in
          let (w, h', run, c', like, same) =
            copy_value-Counted S W D m.value h c
              (sound-remove (chars cs) ob.members m f (ObOk-at o c e).whole).0
              (λ q. omega (
                arith,
                sums-remove q (chars cs) ob.members m f,
                part-le-total (λ x. strong_members q x.members) h.cells o ob e,
              ))
              (λ q. omega (
                arith,
                sums-remove q (chars cs) ob.members m f,
                part-le-total (λ x. weak_members q x.members) h.cells o ob e,
              )) in
          inr (w, h', rw (e, f, known, some_of, run) refl, c')
    ]

-- `di_getx`, with or without a place for errors, on an object that the caller holds, in a heap whose
-- counts are right, whose members all have a size and whose handlers can be called: if each call
-- of a function, with at most `n` live objects after it, ends, keeps that so and adds at most `g` live
-- objects, and there is room for two calls, as for errors that they make, `di_getx` ends without a
-- fault, by the raw member, either getter, or none, and the counts are right with the references
-- of the value or of the error object that it returns.
pub getx-Counted :
    (call : CallFn) (unref : ℕ → Heap → Option Heap) (g n : ℕ) (catching : Bool) (S W D : ℕ → ℕ)
    (o : ℕ) (prop : Text) (h : Heap)
    → Obliging (λ v. Unit) get_prefix g n call
    → Counted S W D h
    → Handled get_prefix h
    → 0 < S o
    → live h + 2 * g ≤ n
    → Leaves S W D (di_getx call unref catching o prop h)
unfolding di_getx held_by
getx-Counted call unref g n catching S W D o prop h obliging c k pos l =
    elim (raw-cases get_prefix S W D o prop h c k pos) [
      | inr (w, h', run, c') ↦ (gives w, h', rw run refl, c')
      | inl run ↦
          let (found, r, h', go, c', k', l', a', b') =
            keep-Searches (λ v. Unit) get_prefix g n call obliging catching S W D o prop none pos
              (λ q any_of. absurd (omega arith)) unref h c k l in
          (
            answer r,
            h',
            rw (run, go) refl,
            Counted-cong (λ q. ap (λ x. S q + x) (answer-owns r q).0)
                (λ q. ap (λ x. W q + x) (answer-owns r q).1) (λ q. refl) c',
          )
    ]
