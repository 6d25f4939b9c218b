-- ===== src/Conv/Ledger.antt =====
-- Conversions of values that are owned, bindings/c++/conv.cc: what becomes of the references that
-- the value owns.
use deai.Common.{
  ℕ, ◌+◌, ◌≤◌, Bool, true, false, ◌&&◌, ◌||◌, not, Option, none, some, ◌≡◌, refl, arith, ◌==◌,
  Bool-cases, inl, inr, and_left, and_right, ◌>>=◌, ap, if◌then◌else◌,
}
use deai.Common.Int.{ℤ, pos, pos_part}
use deai.Errors.{Result, ok, err}
use deai.Types.{DiType, type_id}
use deai.Value.{Value, end, item, type_of, one_at, strong, weak, sound, all_of, has_elements}
use deai.Heap.{Heap}
use deai.Refs.{di_unref_object}
use deai.Refs.Counts.{Counted, Counted-cong, live}
use deai.Refs.Steps.{◌⊕◌, one_at_self}
use deai.Refs.Free.{Releases, free-value}
use deai.Refs.Release.{Tame}
use deai.Refs.Unref.{unref-Releases}
use deai.Refs.Upgrade.{upgrade-Counted}
use deai.Members.Ledger.{sizeof-sound}
use deai.Conv.{
  Step, yields, refuses, descends, is_integer, within, numbered, number_step, to_number, to_string,
  to_tuple, array_to_tuple, to_object, to_pointer, to_bool, to_literal, converter, Converted,
  stepped, emptied, convert, given, di_type_conversion,
}

-- Targets other than variants, arrays and weak references.
abbrev pub plain : DiType → Bool
plain DiType.bool = true
plain DiType.nint = true
plain DiType.nuint = true
plain DiType.int = true
plain DiType.uint = true
plain DiType.float = true
plain DiType.pointer = true
plain DiType.object = true
plain DiType.string = true
plain DiType.string_literal = true
plain DiType.tuple = true
plain t = false

-- What is given and what is left own just what the value owned.
abbrev Balanced : Value → Step → Type 0
Balanced v (yields w left) =
    ((q : ℕ) → (strong q w + strong q left ≡ strong q v) × (weak q w + weak q left ≡ weak q v))
    × (sound left ≡ true)
Balanced v s = Unit {0}

-- The number of the value, or of the value alone inside it, is cast to no integer type that has not its
-- double.
abbrev pub fits : (ℤ → ℕ) → (ℕ → ℤ) → DiType → Value → Bool
fits to_double truncate t (Value.int z) = not (is_integer t) || within t (truncate (to_double z))
fits to_double truncate t (Value.uint n) =
    not (is_integer t) || within t (truncate (to_double (pos n)))
fits to_double truncate t (Value.nint z) = not (is_integer t) || within t (truncate (to_double z))
fits to_double truncate t (Value.nuint n) =
    not (is_integer t) || within t (truncate (to_double (pos n)))
fits to_double truncate t (Value.variant v) = fits to_double truncate t v
fits to_double truncate t (Value.tuple (item v end)) = fits to_double truncate t v
fits to_double truncate t (Value.array e (item v end)) = fits to_double truncate t v
fits to_double truncate t v = true

module _ (to_double : ℤ → ℕ) (truncate : ℕ → ℤ) where
  -- A conversion to a number that is defined, and balanced
  Numbers : DiType → Value → Type 0
  Numbers t v = (s : Step) × (to_number to_double truncate t v ≡ some s) × Balanced v s

  abbrev is_number : DiType → Bool
  is_number DiType.float = true
  is_number t = is_integer t

  number-Balanced :
      (t : DiType) (z : ℤ) (v : Value)
      → is_number t ≡ true
      → not (is_integer t) || within t (truncate (to_double z)) ≡ true
      → sound v ≡ true
      → (s : Step) × (number_step to_double truncate t z v ≡ some s) × Balanced v s
  unfolding number_step strong weak
  number-Balanced DiType.float z v n f s = (_, refl, (λ q. (omega arith, omega arith), s))
  number-Balanced DiType.int z v n f s =
      let x = truncate (to_double z) in
      (
        yields (Value.int x) v,
        ap (λ b. if b then some (yields (Value.int x) v) else none) f,
        (λ q. (omega arith, omega arith), s),
      )
  number-Balanced DiType.uint z v n f s =
      let x = truncate (to_double z) in
      (
        yields (Value.uint (pos_part x)) v,
        ap (λ b. if b then some (yields (Value.uint (pos_part x)) v) else none) f,
        (λ q. (omega arith, omega arith), s),
      )
  number-Balanced DiType.nint z v n f s =
      let x = truncate (to_double z) in
      (
        yields (Value.nint x) v,
        ap (λ b. if b then some (yields (Value.nint x) v) else none) f,
        (λ q. (omega arith, omega arith), s),
      )
  number-Balanced DiType.nuint z v n f s =
      let x = truncate (to_double z) in
      (
        yields (Value.nuint (pos_part x)) v,
        ap (λ b. if b then some (yields (Value.nuint (pos_part x)) v) else none) f,
        (λ q. (omega arith, omega arith), s),
      )
  number-Balanced _ z v n f s = cc

  to_number-Balanced :
      (t : DiType) (v : Value)
      → is_number t ≡ true
      → fits to_double truncate t v ≡ true
      → sound v ≡ true
      → Numbers t v
  unfolding Numbers to_number strong weak sound
  to_number-Balanced t (Value.int i) n f s = number-Balanced t i (Value.int i) n f s
  to_number-Balanced t (Value.uint u) n f s = number-Balanced t (pos u) (Value.uint u) n f s
  to_number-Balanced t (Value.nint i) n f s = number-Balanced t i (Value.nint i) n f s
  to_number-Balanced t (Value.nuint u) n f s = number-Balanced t (pos u) (Value.nuint u) n f s
  to_number-Balanced DiType.float (Value.float f) n k s = (_, refl, (λ q. (refl, refl), refl))
  to_number-Balanced _ (Value.float f) n k s = (refuses, refl, tt)
  to_number-Balanced t _ n f s = (descends, refl, tt)

to_string-Balanced : (v : Value) → Balanced v (to_string false v)
unfolding to_string strong weak sound
to_string-Balanced (Value.string x) = (λ q. (refl, refl), refl)
to_string-Balanced (Value.string_literal cs) = (λ q. (refl, refl), refl)
to_string-Balanced _ = tt

to_tuple-Balanced : (v : Value) → sound v ≡ true → Balanced v (to_tuple false v)
unfolding to_tuple array_to_tuple strong weak sound
to_tuple-Balanced (Value.tuple vs) s = (λ q. (omega arith, omega arith), refl)
to_tuple-Balanced Value.nil s = (λ q. (refl, refl), refl)
to_tuple-Balanced (Value.empty_object o) s = (λ q. (omega arith, refl), refl)
to_tuple-Balanced (Value.array t end) s = (λ q. (refl, refl), refl)
to_tuple-Balanced (Value.array t (item v vs)) s = (λ q. (omega arith, omega arith), refl)
to_tuple-Balanced _ s = tt

to_pointer-Balanced : (v : Value) → Balanced v (to_pointer v)
unfolding to_pointer strong weak sound
to_pointer-Balanced Value.nil = (λ q. (refl, refl), refl)
to_pointer-Balanced (Value.pointer p) = (λ q. (refl, refl), refl)
to_pointer-Balanced _ = tt

to_bool-Balanced : (v : Value) → Balanced v (to_bool v)
unfolding to_bool strong weak sound
to_bool-Balanced (Value.bool b) = (λ q. (refl, refl), refl)
to_bool-Balanced _ = tt

to_literal-Balanced : (v : Value) → Balanced v (to_literal v)
unfolding to_literal strong weak sound
to_literal-Balanced (Value.string_literal cs) = (λ q. (refl, refl), refl)
to_literal-Balanced _ = tt

-- A step, and the counts after it.
abbrev After : (S W D : ℕ → ℕ) → Value → Step → Heap → Type 0
After S W D v (yields w left) h =
    Counted (λ q. S q + strong q w + strong q left) (λ q. W q + weak q w + weak q left) D h
    × (sound left ≡ true)
After S W D v s h = Counted (S ⊕ (λ q. strong q v)) (W ⊕ (λ q. weak q v)) D h

Balanced-After :
    (S W D : ℕ → ℕ) (v : Value) (s : Step) (h : Heap)
    → Balanced v s
    → Counted (S ⊕ (λ q. strong q v)) (W ⊕ (λ q. weak q v)) D h
    → After S W D v s h
Balanced-After S W D v (yields w left) h b c = (
  Counted-cong (λ q. omega (arith, (b.0 q).0)) (λ q. omega (arith, (b.0 q).1)) (λ q. refl) c,
  b.1,
)
Balanced-After S W D v refuses h b c = c
Balanced-After S W D v descends h b c = c

-- A run of an operator
abbrev Steps : (S W D : ℕ → ℕ) → Value → Heap → Option (Step × Heap) → Type 0
Steps S W D v h run =
    (s : Step) × (h' : Heap) × (run ≡ some (s, h')) × After S W D v s h' × (live h' ≡ live h)

to_object-Steps :
    (S W D : ℕ → ℕ) (v : Value) (h : Heap)
    → sound v ≡ true
    → Counted (S ⊕ (λ q. strong q v)) (W ⊕ (λ q. weak q v)) D h
    → Steps S W D v h (to_object false v h)
unfolding to_object strong weak sound
to_object-Steps S W D (Value.object o) h s c = (
  yields (Value.object o) Value.nil,
  h,
  refl,
  (Counted-cong (λ q. omega arith) (λ q. omega arith) (λ q. refl) c, refl),
  refl,
)
to_object-Steps S W D (Value.empty_object o) h s c = (
  yields (Value.object o) Value.nil,
  h,
  refl,
  (Counted-cong (λ q. omega arith) (λ q. omega arith) (λ q. refl) c, refl),
  refl,
)
to_object-Steps S W D (Value.weak_object w) h s c =
    let (ob, e, cases) =
      upgrade-Counted (S ⊕ (λ q. 0)) (W ⊕ one_at w) D w h c (omega (arith, one_at_self w)) in
    elim cases [
      | inl (a, m, (h', run, c', same)) ↦ (
        yields (Value.object w) (Value.weak_object w),
        h',
        rw run refl,
        (Counted-cong (λ q. omega arith) (λ q. omega arith) (λ q. refl) c', refl),
        same,
      )
      | inr (why, run) ↦ (refuses, h, rw run refl, c, refl)
    ]
to_object-Steps S W D _ h s c = (descends, h, refl, c, refl)

module _ (to_double : ℤ → ℕ) (truncate : ℕ → ℤ) (dead : ℕ) where
  numbered-Steps :
      (t : DiType) (S W D : ℕ → ℕ) (v : Value) (h : Heap)
      → is_number to_double truncate t ≡ true
      → fits to_double truncate t v ≡ true
      → sound v ≡ true
      → Counted (S ⊕ (λ q. strong q v)) (W ⊕ (λ q. weak q v)) D h
      → Steps S W D v h (numbered to_double truncate t v h)
  unfolding Numbers
  numbered-Steps t S W D v h n f s c =
      let (x, run, b) = to_number-Balanced to_double truncate t v n f s in
      (x, h, rw run refl, Balanced-After S W D v x h b c, refl)

  converter-Steps :
      (t : DiType) (S W D : ℕ → ℕ) (v : Value) (h : Heap)
      → plain t ≡ true
      → fits to_double truncate t v ≡ true
      → sound v ≡ true
      → Counted (S ⊕ (λ q. strong q v)) (W ⊕ (λ q. weak q v)) D h
      → Steps S W D v h (converter to_double truncate dead false t v h)
  unfolding converter
  converter-Steps DiType.int S W D v h p f s c = numbered-Steps DiType.int S W D v h refl f s c
  converter-Steps DiType.uint S W D v h p f s c = numbered-Steps DiType.uint S W D v h refl f s c
  converter-Steps DiType.nint S W D v h p f s c = numbered-Steps DiType.nint S W D v h refl f s c
  converter-Steps DiType.nuint S W D v h p f s c = numbered-Steps DiType.nuint S W D v h refl f s c
  converter-Steps DiType.float S W D v h p f s c = numbered-Steps DiType.float S W D v h refl f s c
  converter-Steps DiType.bool S W D v h p f s c =
      (_, h, refl, Balanced-After S W D v _ h (to_bool-Balanced v) c, refl)
  converter-Steps DiType.string S W D v h p f s c =
      (_, h, refl, Balanced-After S W D v _ h (to_string-Balanced v) c, refl)
  converter-Steps DiType.string_literal S W D v h p f s c =
      (_, h, refl, Balanced-After S W D v _ h (to_literal-Balanced v) c, refl)
  converter-Steps DiType.pointer S W D v h p f s c =
      (_, h, refl, Balanced-After S W D v _ h (to_pointer-Balanced v) c, refl)
  converter-Steps DiType.tuple S W D v h p f s c =
      (_, h, refl, Balanced-After S W D v _ h (to_tuple-Balanced v s) c, refl)
  converter-Steps DiType.object S W D v h p f s c = to_object-Steps S W D v h s c
  converter-Steps _ S W D v h p f s c = cc

abbrev strong_given : Option Value → ℕ → ℕ
strong_given none q = 0
strong_given (some v) q = strong q v

abbrev weak_given : Option Value → ℕ → ℕ
weak_given none q = 0
weak_given (some v) q = weak q v

-- The counts after a conversion, with what it gave and what it is left with.
abbrev Gives : (S W D : ℕ → ℕ) (n : ℕ) → Converted → Type 0
Gives S W D n run =
    (r : Option Value) × (left : Value) × (h' : Heap) × (run ≡ some (r, left, h'))
    × Counted (λ q. S q + strong_given r q + strong q left)
        (λ q. W q + weak_given r q + weak q left) D h'
    × (sound left ≡ true)
    × (live h' ≤ n)

stepped-Gives :
    (S W D : ℕ → ℕ) (n : ℕ) (v : Value) (s : Step) (h : Heap) (inner : Heap → Converted)
    → sound v ≡ true
    → After S W D v s h
    → live h ≤ n
    → ((h1 : Heap)
        → Counted (S ⊕ (λ q. strong q v)) (W ⊕ (λ q. weak q v)) D h1
        → live h1 ≤ n
        → Gives S W D n (inner h1))
    → Gives S W D n (stepped v s h inner)
stepped-Gives S W D n v (yields w left) h inner s a l k = (some w, left, h, refl, a.0, a.1, l)
stepped-Gives S W D n v refuses h inner s a l k =
    (none, v, h, refl, Counted-cong (λ q. omega arith) (λ q. omega arith) (λ q. refl) a, s, l)
stepped-Gives S W D n v descends h inner s a l k = k h a l

module _ (u : ℕ → Heap → Option Heap) (n : ℕ) (rel : Releases u n) where
  emptied-Gives :
      (S W D : ℕ → ℕ) (v : Value) (run : Converted)
      → sound v ≡ true
      → Gives S W D n run
      → Gives S W D n (emptied u v run)
  unfolding emptied strong weak sound
  emptied-Gives S W D v run s (r, left, h1, e, c, whole, l) =
      let (size, known) = sizeof-sound v s in
      let (h2, free, t) =
        free-value u n rel left (S ⊕ strong_given r) (W ⊕ weak_given r) D h1 c whole l in
      (
        r,
        Value.nil,
        h2,
        rw (known, e, free) refl,
        Counted-cong (λ q. omega arith) (λ q. omega arith) (λ q. refl) t.counted,
        refl,
        omega (arith, t.calm),
      )

  module _ (to_double : ℤ → ℕ) (truncate : ℕ → ℤ) (dead : ℕ) where
    -- A value with no value inside
    closed-Gives :
        (t : DiType) (v : Value) (S W D : ℕ → ℕ) (h : Heap)
        → plain t ≡ true
        → fits to_double truncate t v ≡ true
        → sound v ≡ true
        → Counted (S ⊕ (λ q. strong q v)) (W ⊕ (λ q. weak q v)) D h
        → live h ≤ n
        → Gives S W D n (
            converter to_double truncate dead false t v h >>= λ x.
            stepped v x.0 x.1 (λ h2. some (none, v, h2)))
    closed-Gives t v S W D h p f s c l =
        let (x, h1, run, a, same) = converter-Steps to_double truncate dead t S W D v h p f s c in
        rw run (
          stepped-Gives S W D n v x h1 _ s a (omega (arith, same)) (λ h2 c2 l2. (
            none,
            v,
            h2,
            refl,
            Counted-cong (λ q. omega arith) (λ q. omega arith) (λ q. refl) c2,
            s,
            l2,
          )))

    convert-Gives :
        (t : DiType) (v : Value) (S W D : ℕ → ℕ) (h : Heap)
        → plain t ≡ true
        → fits to_double truncate t v ≡ true
        → sound v ≡ true
        → Counted (S ⊕ (λ q. strong q v)) (W ⊕ (λ q. weak q v)) D h
        → live h ≤ n
        → Gives S W D n (convert to_double truncate dead u false t v h)
    unfolding convert strong weak sound
    convert-Gives t (Value.variant v) S W D h p f s c l =
        let (x, h1, run, a, same) =
          converter-Steps to_double truncate dead t S W D (Value.variant v) h p f s c in
        rw run (
          stepped-Gives S W D n (Value.variant v) x h1 _ s a (omega (arith, same))
            (λ h2 c2 l2. emptied-Gives S W D v _ s (convert-Gives t v S W D h2 p f s c2 l2)))
    convert-Gives t (Value.tuple (item v end)) S W D h p f s c l =
        let whole : sound v ≡ true = and_left (sound v) true s in
        let (x, h1, run, a, same) =
          converter-Steps to_double truncate dead t S W D (Value.tuple (item v end)) h p f s c in
        rw run (
          stepped-Gives S W D n (Value.tuple (item v end)) x h1 _ s a (omega (arith, same))
            (λ h2 c2 l2. emptied-Gives S W D v _ whole (
              convert-Gives t v S W D h2 p f whole
                (Counted-cong (λ q. omega arith) (λ q. omega arith) (λ q. refl) c2) l2)))
    convert-Gives t (Value.array e (item v end)) S W D h p f s c l =
        let whole : sound v ≡ true =
          and_left (sound v) true
            (and_right (has_elements e && all_of e (item v end)) (sound v && true) s) in
        let (x, h1, run, a, same) =
          converter-Steps to_double truncate dead t S W D (Value.array e (item v end)) h p f s c in
        rw run (
          stepped-Gives S W D n (Value.array e (item v end)) x h1 _ s a (omega (arith, same))
            (λ h2 c2 l2. emptied-Gives S W D v _ whole (
              convert-Gives t v S W D h2 p f whole
                (Counted-cong (λ q. omega arith) (λ q. omega arith) (λ q. refl) c2) l2)))
    convert-Gives t v S W D h p f s c l = closed-Gives t v S W D h p f s c l

-- The references that a result hands over.
abbrev pub strong_result : Result Value → ℕ → ℕ
strong_result (err e) q = 0
strong_result (ok v) q = strong q v

abbrev pub weak_result : Result Value → ℕ → ℕ
weak_result (err e) q = 0
weak_result (ok v) q = weak q v

given-owns :
    (r : Option Value) (q : ℕ)
    → (strong_given r q ≡ strong_result (given r) q) × (weak_given r q ≡ weak_result (given r) q)
given-owns none q = (refl, refl)
given-owns (some v) q = (refl, refl)

-- `di_type_conversion` of a sound value whose references the caller owns, to a type that is no variant,
-- no array and no weak reference, on a heap whose counts are right and with destructors that drop
-- what they take, where an integer target has the double of the number that is cast to it, never faults: whether it succeeds or not, the value is used up, and the counts
-- are right with the references of the result. Fuel for as many nested calls as there are live
-- objects is enough.
pub conversion-Counted :
    (to_double : ℤ → ℕ) (truncate : ℕ → ℤ) (dead : ℕ) (run_dtor : ℕ → ℕ → Heap → Option Heap)
    (fuel : ℕ) (t : DiType) (v : Value) (S W D : ℕ → ℕ) (h : Heap)
    → Tame run_dtor
    → plain t ≡ true
    → fits to_double truncate t v ≡ true
    → sound v ≡ true
    → Counted (S ⊕ (λ q. strong q v)) (W ⊕ (λ q. weak q v)) D h
    → live h ≤ fuel
    → (r : Result Value) × (h' : Heap) × (di_type_conversion to_double truncate dead
          (di_unref_object run_dtor fuel)
          false
          t
          v
          h
        ≡ some (r, h'))
      × Counted (S ⊕ strong_result r) (W ⊕ weak_result r) D h'
      × (live h' ≤ fuel)
unfolding di_type_conversion
conversion-Counted to_double truncate dead run_dtor fuel t v S W D h tame p f s c l =
    let u = di_unref_object run_dtor fuel in
    let rel = unref-Releases run_dtor tame fuel in
    let (size, known) = sizeof-sound v s in
    elim (Bool-cases (type_id (type_of v) == type_id t)) [
      | inl same ↦ (ok v, h, rw (same, known) refl, c, l)
      | inr other ↦
          let (r, left, h1, run, c1, whole, l1) =
            convert-Gives u fuel rel to_double truncate dead t v S W D h p f s c l in
          let (h2, free, t2) =
            free-value u fuel rel left (S ⊕ strong_given r) (W ⊕ weak_given r) D h1 c1 whole l1 in
          (
            given r,
            h2,
            rw (other, known, run, free) refl,
            Counted-cong (λ q. omega (arith, (given-owns r q).0))
                (λ q. omega (arith, (given-owns r q).1)) (λ q. refl) t2.counted,
            omega (arith, t2.calm),
          )
    ]
