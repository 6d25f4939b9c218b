-- ===== src/Signals/Refines.antt =====
-- A signal as the list of its handlers, in the order of their registration: the operations of
-- object.c on signals implement those of the list.
pub mod Remove
pub mod Dispatch
use deai.Common.{
  ℕ, zero, suc, ◌+◌, ◌-◌, ◌≤◌, ◌<◌, Bool, true, false, not, List, [], ◌∷◌, ◌++◌, Option, none, some,
  ◌≡◌, ◌≢◌, refl, sym, ap, subst, ◌∙◌, arith, ◌==◌, ltb, lt→ltb, length, length-append,
  if◌then◌else◌, Bool-cases, inl, inr, ◌⊎◌, ◌>>=◌, ◌||◌, ℕ_discrete,
}
use deai.Common.Int.{ℤ, pos}
use deai.Types.{di_sizeof_type}
use deai.Value.{Value, one_at, strong, weak, sound, type_of}
use deai.Heap.{
  Member, Object, Heap, deref, put, mem, without, find_member, remove_member, cell-set_self,
  cell-set_ne,
}
use deai.Heap.Sums.{strong_members}
use deai.Refs.{
  di_ref_object, di_copy_value, di_unref_object, di_destroy_object, di_remove_member_raw_impl,
  di_free_value,
}
use deai.Refs.Counts.{Counted, Counted-cong, Counted-put, Linked, ObOk-at, strong_in, live}
use deai.Refs.Steps.{◌⊕◌, one_at_self, alive_of, ref-Counted}
use deai.Refs.Release.{less}
use deai.Refs.Unref.{settle-more, unref-run}
use deai.Gc.Recolor.{part-le-total}
use deai.Members.{
  di_add_member_clone, di_add_member, di_insert_member, check_new_member, di_delete_member_raw,
  di_remove_member_raw, di_lookup, lookup_in,
}
use deai.Members.Handlers.{Called, gives, CallFn}
use deai.Errors.{enoent, ok, err}
use deai.Text.{chars}
use deai.Members.Ledger.{append-Counted, remove-Counted, add_member-new}
use deai.Signals.{
  handler_prefix, handler_name, one_more, one_less, equals, count_one_more, count_by, missing,
  copy_handlers, di_signal_add_handler, di_signal_remove_handler, no_handler_remains, call_handlers,
  di_signal_dispatch,
}
use deai.Signals.Listeners.{
  ref_all, beside, listener, Lists, length-without, Lists-append, copy-Lists, find-Lists,
  remove-Lists,
}

module _ (print_pointer : ℕ → List ℕ) where
  -- The object `sig` is a signal with the handlers `hs`, and the count is right.
  abbrev pub Represents : ℕ → List ℕ → Heap → Type 0
  Represents sig hs h =
      (ob : Object) × (deref sig h ≡ some ob)
      × Lists print_pointer ob.members hs
      × (ob.nhandlers ≡ some (pos (length hs)))

-- One object is written with the members and the count of handlers that it had.
pub signal-put :
    (q : ℕ) (qb qb' : Object) (sig : ℕ) (ob : Object) (h : Heap)
    → deref q h ≡ some qb
    → qb'.members ≡ qb.members
    → qb'.nhandlers ≡ qb.nhandlers
    → deref sig h ≡ some ob
    → (ob' : Object) × (deref sig (put q qb' h) ≡ some ob')
      × (ob'.members ≡ ob.members)
      × (ob'.nhandlers ≡ ob.nhandlers)
signal-put q qb qb' sig ob h e m n at = elim (ℕ_discrete sig q) [
  | yes same ↦
      let it : qb ≡ ob = cc (at, e, ap (λ x. deref x h) same) in
      (
        qb',
        subst (λ x. deref x (put q qb' h) ≡ some qb') (sym same)
            (cell-set_self h.cells q (some qb') e),
        m ∙ ap Object.members it,
        n ∙ ap Object.nhandlers it,
      )
  | no differs ↦ (ob, cell-set_ne h.cells q sig (some qb') differs ∙ at, refl, refl)
]

-- The count of a signal is written.
pub count-Counted :
    {S W D : ℕ → ℕ} {h : Heap} (sig : ℕ) (ob : Object) (n : Option ℤ)
    → Counted S W D h
    → deref sig h ≡ some ob
    → Counted S W D (put sig (record ob { nhandlers = n }) h)
count-Counted {S} {W} {D} {h} sig ob n c e =
    Counted-put S W D h sig ob (record ob { nhandlers = n }) h.unreferred h.isolated c e
      (λ q ne. refl) (λ q ne. refl) (λ q ne. refl) (λ r r' w w' er ew k. ground (arith, er, ew, k))
      (λ q ne i. i) (λ i. subst Linked e (c.linked sig i))

clone-run :
    (print_pointer : ℕ → List ℕ) (unref : ℕ → Heap → Option Heap) (sig p : ℕ) (h : Heap)
    (pb ob : Object)
    → deref p h ≡ some pb
    → deref sig (put p (record pb { ref_count = pb.ref_count + 1 }) h) ≡ some ob
    → find_member (handler_name print_pointer p) ob.members ≡ none
    → di_add_member_clone unref sig (handler_name print_pointer p) (Value.object p) h
      ≡ some (
        ok tt,
        put sig
            (record ob { members = ob.members ++ listener print_pointer p ∷ [] })
            (put p (record pb { ref_count = pb.ref_count + 1 }) h),
      )
unfolding di_add_member_clone di_copy_value di_ref_object type_of di_sizeof_type
clone-run print_pointer unref sig p h pb ob ep e1 new = rw ep (
    add_member-new unref sig (handler_prefix ++ print_pointer p) (Value.object p)
      (put p (record pb { ref_count = pb.ref_count + 1 }) h) ob e1 new)

add-run :
    (print_pointer : ℕ → List ℕ) (unref : ℕ → Heap → Option Heap) (sig p n : ℕ) (h : Heap)
    (pb ob : Object)
    → deref p h ≡ some pb
    → deref sig (put p (record pb { ref_count = pb.ref_count + 1 }) h) ≡ some ob
    → find_member (handler_name print_pointer p) ob.members ≡ none
    → ob.nhandlers ≡ some (pos n)
    → ltb n 2147483647 ≡ true
    → di_signal_add_handler print_pointer unref sig p h
      ≡ some (
          put sig
            (record ob {
              members = ob.members ++ listener print_pointer p ∷ [];
              nhandlers = some (pos (n + 1));
            })
            (put sig
              (record ob { members = ob.members ++ listener print_pointer p ∷ [] })
              (put p (record pb { ref_count = pb.ref_count + 1 }) h)))
unfolding di_signal_add_handler
add-run print_pointer unref sig p n h pb ob ep e1 new k few =
    let h1 = put p (record pb { ref_count = pb.ref_count + 1 }) h in
    let ob2 : Object = record ob { members = ob.members ++ listener print_pointer p ∷ [] } in
    let e2 : deref sig (put sig ob2 h1) ≡ some ob2 = cell-set_self h1.cells sig (some ob2) e1 in
    ap (λ x. x >>= count_one_more sig) (clone-run print_pointer unref sig p h pb ob ep e1 new)
    ∙ rw (e2, k) (rw few refl)

-- `di_signal_add_handler`, by a caller that holds the signal and a handler that is not registered:
-- on a heap whose counts are right, with less than INT_MAX handlers, it does not fault; the
-- handler is then the last in the list, the others stay in order, the count of handlers is right, and
-- so are those of the references. What `%p` prints must differ for different addresses.
pub add-Represents :
    (print_pointer : ℕ → List ℕ) (unref : ℕ → Heap → Option Heap) (S W D : ℕ → ℕ) (sig p : ℕ)
    (hs : List ℕ) (h : Heap)
    → ((a b : ℕ) → print_pointer a ≡ print_pointer b → a ≡ b)
    → Counted S W D h
    → 0 < S sig
    → 0 < S p
    → Represents print_pointer sig hs h
    → mem p hs ≡ false
    → length hs < 2147483647
    → (h' : Heap) × (di_signal_add_handler print_pointer unref sig p h ≡ some h')
      × Represents print_pointer sig (hs ++ p ∷ []) h'
      × Counted S W D h'
unfolding strong weak sound
add-Represents print_pointer unref S W D sig p hs h injective c held_sig held_p rep new room =
    let (pb, ep, alive_p) = alive_of p c (omega (arith, held_p)) in
    let pb' : Object = record pb { ref_count = pb.ref_count + 1 } in
    let h1 = put p pb' h in
    let c1 = ref-Counted p c ep alive_p in
    let (ob0, e0, l0, k0) = rep in
    let (ob, e1, same, kept) = signal-put p pb pb' sig ob0 h ep refl refl e0 in
    let l = subst (λ ms. Lists print_pointer ms hs) (sym same) l0 in
    let k = kept ∙ k0 in
    let (other, e', alive) = alive_of sig c1 (omega (arith, held_sig)) in
    let ob2 : Object = record ob { members = ob.members ++ listener print_pointer p ∷ [] } in
    let h2 = put sig ob2 h1 in
    let c2 =
      append-Counted sig h1 ob e1 (listener print_pointer p)
        (Counted-cong (λ q. refl) (λ q. omega arith) (λ q. refl) c1) (ground (arith, e1, e', alive))
        refl in
    let few : ltb (length hs) 2147483647 ≡ true = lt→ltb (length hs) 2147483647 room in
    let e2 = cell-set_self h1.cells sig (some ob2) e1 in
    let ob3 : Object = record ob2 { nhandlers = some (pos (length hs + 1)) } in
    (
      put sig ob3 h2,
      add-run print_pointer unref sig p (length hs) h pb ob ep e1
          (find-Lists print_pointer injective p l ∙ rw new refl) k few,
      (
        ob3,
        cell-set_self h2.cells sig (some ob3) e2,
        Lists-append print_pointer p l,
        ap (λ n. some (pos n)) (omega (arith, length-append hs (p ∷ []))),
      ),
      count-Counted sig ob2 (some (pos (length hs + 1))) c2 e2,
    )
