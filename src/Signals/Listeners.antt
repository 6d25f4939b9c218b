-- ===== src/Signals/Listeners.antt =====
-- The members of a signal's object as a list of handlers: object.c, the member names that
-- `di_signal_add_handler` and `di_signal_remove_handler` make and `di_signal_dispatch` looks for.
use deai.Common.{
  ℕ, ◌+◌, true, false, List, [], ◌∷◌, ◌++◌, Option, none, some, ◌≡◌, refl, ap, arith, ◌==◌, length,
  if◌then◌else◌, Bool-cases, Option-cases, inl, inr, ==_iff, ◌>>=◌,
}
use deai.Text.{Text, bytes, c_str, di_string_eq, di_string_starts_with}
use deai.Text.Slice.{string_eq_iff, starts_with_iff}
use deai.Value.{Value}
use deai.Heap.{Member, Heap, mem, without, find_member, remove_member}
use deai.Refs.{di_ref_object}
use deai.Signals.{handler_prefix, handler_name, copy_handlers}

-- A reference to each of them
unfoldable pub ref_all : List ℕ → Heap → Option Heap
unfolding di_ref_object
ref_all [] h = some h
ref_all (p ∷ ps) h = di_ref_object p h >>= λ h'. ref_all ps h'

pub length-without : (p : ℕ) (hs : List ℕ) → mem p hs ≡ true → length hs ≡ length (without p hs) + 1
unfolding without mem
length-without p [] e = cc
length-without p (q ∷ qs) e = ground (arith, length-without p qs)

abbrev pub beside : List ℕ → Heap → Option (List ℕ × Heap)
beside hs h = some (hs, h)

abbrev in_front : List ℕ → List ℕ × Heap → Option (List ℕ × Heap)
in_front front (hs, h) = some (front ++ hs, h)

front-run :
    (front hs : List ℕ) (run : Option Heap)
    → ((run >>= beside hs) >>= in_front front) ≡ (run >>= beside (front ++ hs))
front-run front hs none = refl
front-run front hs (some h) = refl

module _ (print_pointer : ℕ → List ℕ) where
  abbrev pub listener : ℕ → Member
  listener p = record { name = handler_name print_pointer p; value = Value.object p }

  -- Among the members, those with the prefix are the handlers `hs`, in this order.
  pub data Lists : List Member → List ℕ → Type 0 where
    empty : Lists [] []
    another :
        {m : Member} {ms : List Member} {hs : List ℕ}
        → di_string_starts_with m.name handler_prefix ≡ false
        → Lists ms hs
        → Lists (m ∷ ms) hs
    handler :
        {p : ℕ} {ms : List Member} {hs : List ℕ} → Lists ms hs → Lists (listener p ∷ ms) (p ∷ hs)

  starts-handler_name :
      (p : ℕ) → di_string_starts_with (handler_name print_pointer p) handler_prefix ≡ true
  unfolding c_str
  starts-handler_name p =
      (starts_with_iff (handler_name print_pointer p) handler_prefix).1 (print_pointer p, refl)

  -- Only the bytes of a name matter.
  starts-cong :
      (a b : Text)
      → bytes a ≡ bytes b
      → di_string_starts_with a handler_prefix ≡ di_string_starts_with b handler_prefix
  unfolding di_string_starts_with
  starts-cong a b e = rw (e)

  other-name :
      (m : Member) (p : ℕ)
      → di_string_starts_with m.name handler_prefix ≡ false
      → di_string_eq m.name (handler_name print_pointer p) ≡ false
  other-name m p ne = elim (Bool-cases (di_string_eq m.name (handler_name print_pointer p))) [
    | inr differs ↦ differs
    | inl same ↦
        let e =
          starts-cong m.name (handler_name print_pointer p)
            ((string_eq_iff m.name (handler_name print_pointer p)).0 same) in
        absurd (cc (ne, e, starts-handler_name p))
  ]

  pub Lists-append :
      {ms : List Member} {hs : List ℕ} (p : ℕ)
      → Lists ms hs
      → Lists (ms ++ listener p ∷ []) (hs ++ p ∷ [])
  Lists-append p empty = handler empty
  Lists-append p (another ne l) = another ne (Lists-append p l)
  Lists-append p (handler l) = handler (Lists-append p l)

  pub copy-Lists :
      {ms : List Member} {hs : List ℕ} (h : Heap)
      → Lists ms hs
      → copy_handlers ms h ≡ (ref_all hs h >>= beside hs)
  unfolding copy_handlers ref_all
  copy-Lists h empty = refl
  copy-Lists h (another {m} {ms} {hs} ne l) =
      rw (ne, copy-Lists h l) (front-run [] hs (ref_all hs h))
  copy-Lists h (handler {p} {ms} {hs} l) =
      rw (starts-handler_name p) (elim (Option-cases (di_ref_object p h)) [
        | inl e ↦ rw (e) refl
        | inr (h1, e) ↦ rw (e, copy-Lists h1 l) (front-run (p ∷ []) hs (ref_all hs h1))
      ])

  module _ (injective : (p q : ℕ) → print_pointer p ≡ print_pointer q → p ≡ q) where
    same-name :
        (q p : ℕ)
        → di_string_eq (handler_name print_pointer q) (handler_name print_pointer p) ≡ (q == p)
    same-name q p = elim (Bool-cases (q == p)) [
      | inl e ↦ rw e (
          (string_eq_iff (handler_name print_pointer q) (handler_name print_pointer p)).1
            (ap (λ x. handler_prefix ++ print_pointer x) ((==_iff q p).0 e)))
      | inr ne ↦
          elim (Bool-cases
            (di_string_eq (handler_name print_pointer q) (handler_name print_pointer p))) [
              | inr differs ↦ rw (ne, differs) refl
              | inl same ↦
                  let e =
                    (string_eq_iff (handler_name print_pointer q) (handler_name print_pointer p)).0
                      same in
                  absurd (cc (ne, (==_iff q p).1 (injective q p (cc (e)))))
            ]
    ]

    pub find-Lists :
        {ms : List Member} {hs : List ℕ} (p : ℕ)
        → Lists ms hs
        → find_member (handler_name print_pointer p) ms
          ≡ (if mem p hs then some (listener p) else none)
    unfolding find_member mem
    find-Lists p empty = refl
    find-Lists p (another {m} ne l) = rw (other-name m p ne) (find-Lists p l)
    find-Lists p (handler {p = q} l) = rw (same-name q p) (ground (arith, find-Lists p l))

    pub remove-Lists :
        {ms : List Member} {hs : List ℕ} (p : ℕ)
        → Lists ms hs
        → Lists (remove_member (handler_name print_pointer p) ms) (without p hs)
    unfolding remove_member without
    remove-Lists p empty = empty
    remove-Lists p (another {m} ne l) = rw (other-name m p ne) (another ne (remove-Lists p l))
    remove-Lists p (handler {p = q} l) = elim (Bool-cases (q == p)) [
      | inl same ↦ rw (same-name q p, same) l
      | inr differs ↦ rw (same-name q p, differs) (handler (remove-Lists p l))
    ]
