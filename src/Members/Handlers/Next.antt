-- ===== src/Members/Handlers/Next.antt =====
-- Walking over the members of an object: object.c, `di_object_next_member`. From no name on, with each
-- name that it gives, it visits the members that are not internal, once each.
use deai.Common.{
  ℕ, zero, suc, ◌<◌, Bool, true, false, List, [], ◌∷◌, ◌++◌, append_assoc, Option, none, some, ◌≡◌,
  refl, sym, ap, subst, ◌∙◌, arith, if◌then◌else◌, ◌>>=◌, length, Bool-cases, inl, inr,
}
use deai.Errors.{ok, err}
use deai.Text.{Text, null, chars, same_bytes, di_string_eq, di_string_starts_with, di_clone_string}
use deai.Value.{Value, end, item, object, string, tuple}
use deai.Heap.{Member, Heap, deref, find_member}
use deai.Refs.{di_copy_value, di_free_value}
use deai.Text.Slice.{string_eq_iff}
use deai.Members.Table.{Distinct}
use deai.Members.Handlers.{gives, fails, raises, throws, CallFn, borrow_object, di_call_object}

-- A member and its value, none, or an exception.
pub data Next : Type 0 where
  pair : Text → Value → Next
  nothing : Next
  thrown : ℕ → Next

abbrev pub is_internal : Member → Bool
is_internal m = di_string_starts_with m.name (b'_' ∷ b'_' ∷ [])

-- The first entry that is no internal one.
unfoldable pub skip_internal : List Member → Option Member
skip_internal [] = none
skip_internal (m ∷ ms) = if is_internal m then skip_internal ms else some m

-- The entries behind the one with this name.
unfoldable pub entries_after : Text → List Member → List Member
entries_after name [] = []
entries_after name (m ∷ ms) = if di_string_eq m.name name then ms else entries_after name ms

unfoldable pub next_entry : Text → List Member → Option Member
unfolding skip_internal entries_after
next_entry null ms = skip_internal ms
next_entry (chars cs) ms = skip_internal (entries_after (chars cs) ms)

-- What a `__next` function gave: a name and a value, or it is freed.
unfoldable pub as_pair : (ℕ → Heap → Option Heap) → Value → Heap → Option (Next × Heap)
as_pair unref (tuple (item (string s) (item v end))) h = some (pair s v, h)
as_pair unref v h = do h' ← di_free_value unref v h; some (nothing, h')

unfoldable pub di_object_next_member :
    CallFn → (ℕ → Heap → Option Heap) → ℕ → Text → Heap → Option (Next × Heap)
unfolding borrow_object di_call_object as_pair next_entry
di_object_next_member call unref o name h = do
  next ← borrow_object o (chars (b'_' ∷ b'_' ∷ b'n' ∷ b'e' ∷ b'x' ∷ b't' ∷ [])) h
  elim next [
    | ok p ↦ do
      (r, h1) ← di_call_object call p (object o ∷ string name ∷ []) h
      elim r [
        | gives v ↦ as_pair unref v h1
        | fails e ↦ some (nothing, h1)
        | raises x ↦ some (nothing, h1)
        | throws x ↦ some (thrown x, h1)
      ]
    | err e ↦ do
      ob ← deref o h
      elim (next_entry name ob.members) [
        | none ↦ some (nothing, h)
        | some m ↦ do (v, h1) ← di_copy_value m.value h; some (pair (di_clone_string m.name) v, h1)
      ]
  ]

-- A client's loop: from no name on, each name that was given last.
unfoldable pub walk : ℕ → Text → List Member → Option (List Member)
walk zero name ms = none
walk (suc n) name ms = elim (next_entry name ms) [
  | none ↦ some []
  | some m ↦ walk n m.name ms >>= λ rest. some (m ∷ rest)
]

unfoldable pub visible : List Member → List Member
visible [] = []
visible (m ∷ ms) = let rest = visible ms in if is_internal m then rest else m ∷ rest

-- No name is null.
abbrev pub Named : List Member → Type 0
Named [] = Unit {0}
Named (m ∷ ms) = ((cs : List ℕ) × (m.name ≡ chars cs)) × Named ms

Named-at :
    (pre post : List Member) (m : Member)
    → Named (pre ++ m ∷ post)
    → (cs : List ℕ) × (m.name ≡ chars cs)
Named-at [] post m k = k.0
Named-at (p ∷ pre) post m k = Named-at pre post m k.1

eq_comm : (a b : Text) → di_string_eq a b ≡ false → di_string_eq b a ≡ false
eq_comm a b n = elim (Bool-cases (di_string_eq b a)) [
  | inl t ↦ absurd (clash ((string_eq_iff a b).1 (sym ((string_eq_iff b a).0 t))) n)
  | inr f ↦ f
]
  where
    clash : {x : Bool} → x ≡ true → x ≡ false → ⊥
    clash t f = cc

missed :
    (name : Text) (pre post : List Member) (m : Member)
    → find_member name (pre ++ m ∷ post) ≡ none
    → di_string_eq m.name name ≡ false
unfolding find_member
missed name [] post m e = elim (Bool-cases (di_string_eq m.name name)) [
  | inl t ↦ absurd (ground (arith, e, t))
  | inr f ↦ f
]
missed name (p ∷ pre) post m e = elim (Bool-cases (di_string_eq p.name name)) [
  | inl t ↦ absurd (ground (arith, e, t))
  | inr f ↦ missed name pre post m (ground (arith, e, f))
]

-- No entry has the name of an earlier one.
first-at :
    (pre post : List Member) (m : Member)
    → Distinct (pre ++ m ∷ post)
    → find_member m.name pre ≡ none
unfolding find_member
first-at [] post m k = refl
first-at (p ∷ pre) post m k =
    rw (eq_comm m.name p.name (missed p.name pre post m k.0)) (first-at pre post m k.1)

same_self : (cs : List ℕ) → same_bytes cs cs ≡ true
unfolding same_bytes
same_self [] = refl
same_self (c ∷ cs) = ground (arith, same_self cs)

eq_self : (cs : List ℕ) → di_string_eq (chars cs) (chars cs) ≡ true
unfolding di_string_eq
eq_self cs = ground (arith, same_self cs)

after-found :
    (cs : List ℕ) (pre post : List Member) (m : Member)
    → m.name ≡ chars cs
    → find_member (chars cs) pre ≡ none
    → entries_after (chars cs) (pre ++ m ∷ post) ≡ post
unfolding entries_after find_member
after-found cs [] post m e f = rw (e, eq_self cs) refl
after-found cs (p ∷ pre) post m e f = elim (Bool-cases (di_string_eq p.name (chars cs))) [
  | inl t ↦ absurd (ground (arith, f, t))
  | inr n ↦ rw n (after-found cs pre post m e (ground (arith, f, n)))
]

-- Behind an entry come the entries after it.
next-after :
    (ms pre post : List Member) (m : Member)
    → Distinct ms
    → Named ms
    → ms ≡ pre ++ m ∷ post
    → next_entry m.name ms ≡ skip_internal post
unfolding next_entry
next-after ms pre post m d k e =
    let (cs, named) = Named-at pre post m (subst Named e k) in
    rw named (
      ap skip_internal (
        ap (entries_after (chars cs)) e
        ∙ after-found cs pre post m named (
            subst (λ t. find_member t pre ≡ none) named
              (first-at pre post m (subst Distinct e d)))))

walk-nothing :
    (n : ℕ) (name : Text) (ms : List Member)
    → next_entry name ms ≡ none
    → walk (suc n) name ms ≡ some []
unfolding walk
walk-nothing n name ms e = ground (arith, e)

walk-some :
    (n : ℕ) (name : Text) (ms rest : List Member) (m : Member)
    → next_entry name ms ≡ some m
    → walk n m.name ms ≡ some rest
    → walk (suc n) name ms ≡ some (m ∷ rest)
unfolding walk
walk-some n name ms rest m e go = ground (arith, e, go)

walk-visible :
    (ms pre post : List Member) (n : ℕ) (name : Text)
    → Distinct ms
    → Named ms
    → ms ≡ pre ++ post
    → next_entry name ms ≡ skip_internal post
    → length post < n
    → walk n name ms ≡ some (visible post)
unfolding visible skip_internal
walk-visible ms pre post zero name d k e at l = absurd (omega arith)
walk-visible ms pre [] (suc n) name d k e at l = walk-nothing n name ms at
walk-visible ms pre (m ∷ post) (suc n) name d k e at l =
    let moved : ms ≡ (pre ++ m ∷ []) ++ post = e ∙ sym (append_assoc pre (m ∷ []) post) in
    elim (Bool-cases (is_internal m)) [
      | inl t ↦ rw t (
          walk-visible ms (pre ++ m ∷ []) post (suc n) name d k moved (at ∙ rw t refl)
            (omega arith))
      | inr f ↦
          let rest =
            walk-visible ms (pre ++ m ∷ []) post n m.name d k moved (next-after ms pre post m d k e)
              (omega arith) in
          walk-some n name ms (visible post) m (at ∙ rw f refl) rest ∙ rw f refl
    ]

-- In a table whose names are not null and all different, in the order of insertion, a loop that
-- starts without a name and goes on with the name of the entry that it got last ends, with fuel
-- for one more round than there are entries: it gets each entry that is not internal once, in
-- order, and no other.
pub walk_all :
    (ms : List Member) (n : ℕ)
    → Distinct ms
    → Named ms
    → length ms < n
    → walk n null ms ≡ some (visible ms)
unfolding next_entry
walk_all ms n d k l = walk-visible ms [] ms n null d k refl refl l
