-- ===== src/Members/Handlers/Obliging.antt =====
-- Calls of handlers over the ledger: object.c, what `call_handler_with_fallback` does when the call
-- functions keep the counts right.
use deai.Common.{
  ℕ, ◌+◌, ◌*◌, ◌≤◌, ◌<◌, Bool, true, false, List, [], ◌∷◌, ◌++◌, Option, some, ◌≡◌, ◌⊎◌, inl, inr,
  refl, sym, ap, subst, arith, ◌==◌, if◌then◌else◌, Option-cases, append-nil, ℕ_discrete,
}
use deai.Errors.{Errno, enoent, erange, ok, err}
use deai.Types.{di_sizeof_type}
use deai.Text.{Text, chars}
use deai.Value.{Value, type_of, strong, weak, one_at, object, string, nil, sound}
use deai.Heap.{Member, Object, Heap, deref, find_member}
use deai.Refs.Counts.{Counted, Counted-cong, strong_in, live}
use deai.Refs.Steps.{◌⊕◌, alive_of, one_at-ne}
use deai.Refs.Free.{Releases, free-value}
use deai.Members.{di_lookup, di_refrawgetx, lookup_in}
use deai.Members.Handlers.{
  as_object, caught, Called, gives, fails, raises, throws, CallFn, borrow_object, di_call_object,
  di_call_object_catch, call_either, call_first, call_second, argument, printed, failed,
  keep_or_free, call_handler_with_fallback,
}

-- The strong and weak references that the end of a call hands over.
abbrev pub strong_of : Called → ℕ → ℕ
strong_of (gives v) q = strong q v
strong_of (fails e) q = 0
strong_of (raises x) q = one_at x q
strong_of (throws x) q = one_at x q

abbrev pub weak_of : Called → ℕ → ℕ
weak_of (gives v) q = weak q v
weak_of r q = 0

unfoldable pub held_by : ℕ → List Value → ℕ
held_by q [] = 0
held_by q (v ∷ vs) = strong q v + held_by q vs

-- Every member has a size, and what is held under a name with this prefix can be called.
pub record Handled (prefix : List ℕ) (h : Heap) : Type 0 where
  pub sized :
      (o : ℕ) (ob : Object) (name : Text) (m : Member)
      → deref o h ≡ some ob
      → find_member name ob.members ≡ some m
      → (size : ℕ) × (di_sizeof_type (type_of m.value) ≡ some size) × ((size == 0) ≡ false)
  pub callable :
      (o : ℕ) (ob : Object) (rest : List ℕ) (m : Member) (p : ℕ)
      → deref o h ≡ some ob
      → find_member (chars (prefix ++ rest)) ob.members ≡ some m
      → m.value ≡ object p
      → (pb : Object) × (f : ℕ) × (deref p h ≡ some pb) × (pb.call ≡ some f)

-- What values a call gives.
abbrev pub Answers : (Value → Type 0) → Called → Type 0
Answers Q (gives v) = Q v
Answers Q r = Unit {0}

-- A call ends with at most `n` live objects, and the counts are right with what it hands over.
abbrev pub Ends :
    (Q : Value → Type 0) (prefix : List ℕ) (n : ℕ) (S W D : ℕ → ℕ) → Option (Called × Heap) → Type 0
Ends Q prefix n S W D run =
    (r : Called) × (h' : Heap) × (run ≡ some (r, h'))
    × Counted (S ⊕ strong_of r) (W ⊕ weak_of r) D h'
    × Handled prefix h'
    × (live h' ≤ n)
    × Answers Q r

-- A call with arguments that are held, from a heap that has room for `g` more live objects below `n`,
-- ends so and adds at most `g` of them.
abbrev pub Obliging : (Value → Type 0) → List ℕ → ℕ → ℕ → CallFn → Type 0
Obliging Q prefix g n call =
    (f p : ℕ) (args : List Value) (S W D : ℕ → ℕ) (h : Heap)
    → Counted S W D h
    → Handled prefix h
    → live h + g ≤ n
    → ((q : ℕ) → 0 < held_by q args → 0 < S q + strong_in q h)
    → Ends Q prefix (live h + g) S W D (call f p args h)

as_object-cases :
    (v : Value)
    → ((e : Errno) × (as_object v ≡ err e)) ⊎ ((p : ℕ) × (v ≡ object p) × (as_object v ≡ ok p))
as_object-cases (object p) = inr (p, refl, refl)
as_object-cases _ = inl (erange, refl)

-- A member that may be a handler.
borrow-cases :
    {prefix : List ℕ} (o : ℕ) (cs : List ℕ) (h : Heap) (ob : Object)
    → deref o h ≡ some ob
    → Handled prefix h
    → ((e : Errno) × (borrow_object o (chars cs) h ≡ some (err e)))
      ⊎ ((p : ℕ) × (m : Member) × (find_member (chars cs) ob.members ≡ some m)
          × (m.value ≡ object p)
          × (borrow_object o (chars cs) h ≡ some (ok p)))
unfolding borrow_object di_refrawgetx di_lookup lookup_in
borrow-cases o cs h ob e k = elim (Option-cases (find_member (chars cs) ob.members)) [
  | inl f ↦ inl (enoent, rw (e, f) refl)
  | inr (m, f) ↦
      let (size, known, some_of) = k.sized o ob (chars cs) m e f in
      elim (as_object-cases m.value) [
        | inl (c, bad) ↦ inl (c, rw (e, f, known, some_of) (ap some bad))
        | inr (p, it, good) ↦ inr (p, m, f, it, rw (e, f, known, some_of) (ap some good))
      ]
]

caught-strong : (r : Called) (q : ℕ) → strong_of r q ≡ strong_of (caught r) q
caught-strong (throws e) q = refl
caught-strong (gives v) q = refl
caught-strong (fails e) q = refl
caught-strong (raises e) q = refl

caught-weak : (r : Called) (q : ℕ) → weak_of r q ≡ weak_of (caught r) q
caught-weak (throws e) q = refl
caught-weak (gives v) q = refl
caught-weak (fails e) q = refl
caught-weak (raises e) q = refl

caught-Answers : (Q : Value → Type 0) (r : Called) → Answers Q r → Answers Q (caught r)
caught-Answers Q (throws e) a = tt
caught-Answers Q (gives v) a = a
caught-Answers Q (fails e) a = tt
caught-Answers Q (raises e) a = tt

held_with_self :
    (S : ℕ → ℕ) (o q n x : ℕ) → 0 < S o → (0 < n → 0 < S q) → 0 < one_at o q + n → 0 < S q + x
held_with_self S o q n x pos more any_of = elim (ℕ_discrete q o) [
  | yes it ↦ subst (λ z. 0 < S z + x) (sym it) (omega arith)
  | no ne ↦ omega (arith, more (omega (arith, one_at-ne o q ne)))
]

-- Without a handler nothing is handed over.
abbrev pub Bare : Bool → Called → Type 0
Bare found r = found ≡ false → (q : ℕ) → (strong_of r q ≡ 0) × (weak_of r q ≡ 0)

module _ (Q : Value → Type 0) (prefix : List ℕ) (g n : ℕ) (call : CallFn)
    (obliging : Obliging Q prefix g n call) where
  either-Ends :
      (catching : Bool) (S W D : ℕ → ℕ) (p f : ℕ) (pb : Object) (args : List Value) (h : Heap)
      → deref p h ≡ some pb
      → pb.call ≡ some f
      → Counted S W D h
      → Handled prefix h
      → live h + g ≤ n
      → ((q : ℕ) → 0 < held_by q args → 0 < S q + strong_in q h)
      → Ends Q prefix (live h + g) S W D (call_either call catching p args h)
  unfolding call_either di_call_object di_call_object_catch
  either-Ends false S W D p f pb args h e is c k l held =
      rw (e, is) (obliging f p args S W D h c k l held)
  either-Ends true S W D p f pb args h e is c k l held =
      let (r, h', run, c', k', l', a') = obliging f p args S W D h c k l held in
      (
        caught r,
        h',
        rw (e, is, run) refl,
        Counted-cong (λ q. ap (λ x. S q + x) (caught-strong r q))
            (λ q. ap (λ x. W q + x) (caught-weak r q)) (λ q. refl) c',
        k',
        l',
        caught-Answers Q r a',
      )

  -- A handler by its name, if the object has one.
  named-Ends :
      (catching : Bool) (S W D : ℕ → ℕ) (o p : ℕ) (rest : List ℕ) (m : Member) (ob : Object)
      (args : List Value) (h : Heap)
      → deref o h ≡ some ob
      → find_member (chars (prefix ++ rest)) ob.members ≡ some m
      → m.value ≡ object p
      → Counted S W D h
      → Handled prefix h
      → live h + g ≤ n
      → ((q : ℕ) → 0 < held_by q args → 0 < S q + strong_in q h)
      → Ends Q prefix (live h + g) S W D (call_either call catching p args h)
  named-Ends catching S W D o p rest m ob args h e found it c k l held =
      let (pb, f, at, is) = k.callable o ob rest m p e found it in
      either-Ends catching S W D p f pb args h at is c k l held

  -- What the search for a handler leaves: with a handler, what its call leaves.
  abbrev pub Searches : (b : ℕ) (S W D : ℕ → ℕ) → Option (Bool × Called × Heap) → Type 0
  Searches b S W D run =
      (found : Bool) × (r : Called) × (h' : Heap) × (run ≡ some (found, r, h'))
      × Counted (S ⊕ strong_of r) (W ⊕ weak_of r) D h'
      × Handled prefix h'
      × (live h' ≤ b)
      × Answers Q r
      × Bare found r

  module _ (catching : Bool) (S W D : ℕ → ℕ) (o : ℕ) (name : Text) (arg : Option Value)
      (pos : 0 < S o) (held : (q : ℕ) → 0 < held_by q (argument arg) → 0 < S q) where
    pub first-Searches :
        (h : Heap)
        → Counted S W D h
        → Handled prefix h
        → live h + g ≤ n
        → Searches (live h + g) S W D (call_first call catching o prefix name arg h)
    unfolding call_first held_by strong
    first-Searches h c k l =
        let (ob, e, a) = alive_of o c (omega arith) in
        elim (borrow-cases o (prefix ++ b'_' ∷ printed name) h ob e k) [
          | inl (x, run) ↦ (
            false,
            fails enoent,
            h,
            rw run refl,
            Counted-cong (λ q. omega arith) (λ q. omega arith) (λ q. refl) c,
            k,
            omega arith,
            tt,
            λ z q. (refl, refl),
          )
          | inr (p, m, found, it, run) ↦
              let (r, h', go, c', k', l', a') =
                named-Ends catching S W D o p (b'_' ∷ printed name) m ob (object o ∷ argument arg) h
                  e found it c k l
                  (λ q any_of.
                    held_with_self S o q (held_by q (argument arg)) (strong_in q h) pos (held q)
                      any_of) in
              (true, r, h', rw (run, go) refl, c', k', l', a', λ z. cc)
        ]

    pub second-Searches :
        (found : Bool) (h : Heap) (x : Errno)
        → Counted S W D h
        → Handled prefix h
        → live h + g ≤ n
        → Searches
            (live h + g)
            S
            W
            D
            (call_second call catching o prefix name arg (found, fails x, h))
    unfolding call_second held_by strong
    second-Searches found h x c k l =
        let (ob, e, a) = alive_of o c (omega arith) in
        elim (borrow-cases o prefix h ob e k) [
          | inl (y, run) ↦ (
            found,
            fails x,
            h,
            rw run refl,
            Counted-cong (λ q. omega arith) (λ q. omega arith) (λ q. refl) c,
            k,
            omega arith,
            tt,
            λ z q. (refl, refl),
          )
          | inr (p, m, there, it, run) ↦
              let (r, h', go, c', k', l', a') =
                named-Ends catching S W D o p [] m ob (object o ∷ string name ∷ argument arg) h e
                  (subst (λ cs. find_member (chars cs) ob.members ≡ some m)
                    (sym (append-nil prefix)) there)
                  it c k l
                  (λ q any_of.
                    held_with_self S o q (held_by q (argument arg)) (strong_in q h) pos (held q)
                      (omega (arith, any_of))) in
              (true, r, h', rw (run, go) refl, c', k', l', a', λ z. cc)
        ]

    -- The general handler comes after a specific one that failed.
    either-Searches :
        (found : Bool) (r : Called) (h : Heap)
        → Counted (S ⊕ strong_of r) (W ⊕ weak_of r) D h
        → Handled prefix h
        → live h + g ≤ n
        → Answers Q r
        → Bare found r
        → Searches n S W D (
            if failed r
            then call_second call catching o prefix name arg (found, r, h)
            else some (found, r, h))
    either-Searches found (fails x) h c k l a b =
        let (f, r, h', run, c', k', l', a', b') =
          second-Searches found h x
            (Counted-cong (λ q. omega arith) (λ q. omega arith) (λ q. refl) c) k l in
        (f, r, h', run, c', k', omega arith, a', b')
    either-Searches found (gives v) h c k l a b = (found, gives v, h, refl, c, k, omega arith, a, b)
    either-Searches found (raises x) h c k l a b =
        (found, raises x, h, refl, c, k, omega arith, a, b)
    either-Searches found (throws x) h c k l a b =
        (found, throws x, h, refl, c, k, omega arith, a, b)

    pub keep-Searches :
        (unref : ℕ → Heap → Option Heap) (h : Heap)
        → Counted S W D h
        → Handled prefix h
        → live h + 2 * g ≤ n
        → Searches n S W D (call_handler_with_fallback call unref catching true o prefix name arg h)
    unfolding call_handler_with_fallback keep_or_free
    keep-Searches unref h c k l =
        let (found, r, h1, run, c1, k1, l1, a1, b1) = first-Searches h c k (omega arith) in
        let (found2, r2, h2, go, c2, k2, l2, a2, b2) =
          either-Searches found r h1 c1 k1 (omega arith) a1 b1 in
        (found2, r2, h2, rw (run, go, kept r2 h2) refl, c2, k2, l2, a2, b2)
      where
        kept : (r : Called) (h : Heap) → keep_or_free call unref true r h ≡ some (r, h)
        kept (gives v) h = refl
        kept (fails x) h = refl
        kept (raises x) h = refl
        kept (throws x) h = refl

    -- A search that frees what a handler gave: whether a handler was there, and the counts.
    abbrev pub Frees : (unref : ℕ → Heap → Option Heap) → Heap → Type 0
    Frees unref h =
        (found : Bool) × (r : Called) × (h' : Heap) × (call_handler_with_fallback call unref
            catching false o prefix name arg h
          ≡ some (found, r, h'))
        × Counted (S ⊕ strong_of r) (W ⊕ weak_of r) D h'
        × (live h' ≤ n)
        × Bare found r

    module _ (unref : ℕ → Heap → Option Heap) (rel : Releases unref n)
        (whole : (v : Value) → Q v → sound v ≡ true) where
      freed :
          (found : Bool) (r : Called) (h : Heap)
          → Counted (S ⊕ strong_of r) (W ⊕ weak_of r) D h
          → live h ≤ n
          → Answers Q r
          → Bare found r
          → (r' : Called) × (h' : Heap) × (keep_or_free call unref false r h ≡ some (r', h'))
            × Counted (S ⊕ strong_of r') (W ⊕ weak_of r') D h'
            × (live h' ≤ n)
            × Bare found r'
      unfolding keep_or_free strong weak
      freed found (gives v) h c l a b =
          let (h', run, t) = free-value unref n rel v S W D h c (whole v a) l in
          (
            gives nil,
            h',
            rw run refl,
            Counted-cong (λ q. omega arith) (λ q. omega arith) (λ q. refl) t.counted,
            omega (arith, t.calm, l),
            λ z q. (refl, refl),
          )
      freed found (fails x) h c l a b = (fails x, h, refl, c, l, b)
      freed found (raises x) h c l a b = (raises x, h, refl, c, l, b)
      freed found (throws x) h c l a b = (throws x, h, refl, c, l, b)

      pub handler-Frees :
          (h : Heap) → Counted S W D h → Handled prefix h → live h + 2 * g ≤ n → Frees unref h
      unfolding call_handler_with_fallback
      handler-Frees h c k l =
          let (found, r, h1, run, c1, k1, l1, a1, b1) = first-Searches h c k (omega arith) in
          let (found2, r2, h2, go, c2, k2, l2, a2, b2) =
            either-Searches found r h1 c1 k1 (omega arith) a1 b1 in
          let (r3, h3, free, c3, l3, z) = freed found2 r2 h2 c2 l2 a2 b2 in
          (found2, r3, h3, rw (run, go, free) refl, c3, l3, z)
