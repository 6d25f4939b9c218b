-- ===== src/Signals/Refines/Remove.antt =====
-- Removing a handler: `di_signal_remove_handler` of object.c implements the removal from the list.
use deai.Common.{
  ℕ, suc, ◌<◌, true, false, List, [], ◌∷◌, ◌++◌, Option, none, some, ◌≡◌, refl, sym, ap, subst, ◌∙◌,
  arith, ◌==◌, length, Bool-cases, inl, inr, ◌⊎◌, ◌>>=◌,
}
use deai.Common.Int.{ℤ, pos}
use deai.Value.{Value, one_at, strong, weak}
use deai.Heap.{Object, Heap, deref, put, mem, without, find_member, remove_member, cell-set_self}
use deai.Refs.{di_unref_object}
use deai.Refs.Counts.{Counted, Counted-cong}
use deai.Refs.Steps.{◌⊕◌}
use deai.Refs.Release.{less}
use deai.Refs.Unref.{held-unref}
use deai.Members.{di_delete_member_raw, di_remove_member_raw, di_lookup, lookup_in}
use deai.Members.Handlers.{Called, gives, CallFn}
use deai.Errors.{enoent, ok, err}
use deai.Text.{chars}
use deai.Members.Ledger.{delete-run, remove-Counted}
use deai.Signals.{handler_prefix, di_signal_remove_handler, no_handler_remains}
use deai.Signals.Listeners.{listener, Lists, length-without, find-Lists, remove-Lists}
use deai.Heap.{cell}
use deai.Signals.{after_delete}
use deai.Signals.Refines.{Represents, signal-put, count-Counted}

delete-absent :
    (unref : ℕ → Heap → Option Heap) (o : ℕ) (cs : List ℕ) (h : Heap) (ob : Object)
    → deref o h ≡ some ob
    → find_member (chars cs) ob.members ≡ none
    → di_delete_member_raw unref o (chars cs) h ≡ some (err enoent, h)
unfolding di_delete_member_raw di_remove_member_raw di_lookup lookup_in
delete-absent unref o cs h ob e f = rw e (ground (arith, f))

module _ (print_pointer : ℕ → List ℕ) (to_double : ℤ → ℕ) (truncate : ℕ → ℤ) (dead : ℕ)
    (unref : ℕ → Heap → Option Heap) (call : CallFn) where
  -- With no handler left, the signal goes on to leave its source.
  abbrev pub after_removal : List ℕ → ℕ → Heap → Option (Called × Heap)
  after_removal [] sig h = no_handler_remains print_pointer unref to_double truncate dead call sig h
  after_removal (p ∷ ps) sig h = some (gives Value.nil, h)

  removed-run :
      (hs : List ℕ) (sig : ℕ) (h : Heap) (ob : Object)
      → deref sig h ≡ some ob
      → ob.nhandlers ≡ some (pos (suc (length hs)))
      → after_delete print_pointer unref to_double truncate dead call sig (ok tt, h)
        ≡ after_removal hs sig (put sig (record ob { nhandlers = some (pos (length hs)) }) h)
  unfolding after_delete
  removed-run [] sig h ob e k = rw (e, k) refl
  removed-run (p ∷ ps) sig h ob e k =
      let positive : (suc (length ps) == 0) ≡ false = ground arith in rw (e, k) (rw positive refl)

-- `di_signal_remove_handler`, by a caller that holds the signal and the handler, on a heap whose
-- counts are right: a handler that is not in the list is left alone, and so is the heap; else it is
-- taken out of the list, once, the others stay in order, the count of handlers and those of the
-- references are right, and the function returns at this point exactly if the list is not empty, and
-- else goes on to take the signal out of its source. What `%p` prints must differ for different
-- addresses.
pub remove-Represents :
    (print_pointer : ℕ → List ℕ) (to_double : ℤ → ℕ) (truncate : ℕ → ℤ) (dead : ℕ)
    (run_dtor : ℕ → ℕ → Heap → Option Heap) (fuel : ℕ) (call : CallFn) (S W D : ℕ → ℕ) (sig p : ℕ)
    (hs : List ℕ) (h : Heap)
    → ((a b : ℕ) → print_pointer a ≡ print_pointer b → a ≡ b)
    → Counted S W D h
    → 0 < S sig
    → 0 < S p
    → Represents print_pointer sig hs h
    → ((mem p hs ≡ false)
        × (di_signal_remove_handler print_pointer
              (di_unref_object run_dtor (suc fuel))
              to_double
              truncate
              dead
              call
              sig
              p
              h
            ≡ some (gives Value.nil, h)))
      ⊎ ((mem p hs ≡ true)
          × ((h' : Heap) × (di_signal_remove_handler print_pointer
                  (di_unref_object run_dtor (suc fuel))
                  to_double
                  truncate
                  dead
                  call
                  sig
                  p
                  h
                ≡ after_removal print_pointer to_double truncate dead
                    (di_unref_object run_dtor (suc fuel))
                    call
                    (without p hs)
                    sig
                    h')
              × Represents print_pointer sig (without p hs) h'
              × Counted S W D h'))
unfolding di_signal_remove_handler after_delete strong weak
remove-Represents print_pointer to_double truncate dead run_dtor fuel call S W D sig p hs h
      injective c held_sig held_p (ob, e, l, k) =
    let u = di_unref_object run_dtor (suc fuel) in
    let name = handler_prefix ++ print_pointer p in
    let next = after_delete print_pointer u to_double truncate dead call sig in
    elim (Bool-cases (mem p hs)) [
      | inl there ↦
          let f = find-Lists print_pointer injective p l ∙ rw there refl in
          let rest : Object = record ob { members = remove_member (chars name) ob.members } in
          let h1 = put sig rest h in
          let c1 : Counted (S ⊕ one_at p) W D h1 =
            Counted-cong (λ q. refl) (λ q. omega arith) (λ q. refl)
              (remove-Counted sig h ob e (chars name) (listener print_pointer p) c f) in
          let e1 : deref sig h1 ≡ some rest = cell-set_self h.cells sig (some rest) e in
          let (pb, h2, ep, run, cells, c2) = held-unref run_dtor fuel S W D p h1 c1 held_p in
          let (ob2, e2, same, kept) = signal-put p pb (less pb) sig rest h1 ep refl refl e1 in
          let e3 : deref sig h2 ≡ some ob2 = ap (λ cs. cell cs sig) cells ∙ e2 in
          let k2 : ob2.nhandlers ≡ some (pos (suc (length (without p hs)))) =
            kept ∙ k ∙ ap (λ n. some (pos n)) (omega (arith, length-without p hs there)) in
          let ob3 : Object = record ob2 { nhandlers = some (pos (length (without p hs))) } in
          inr (
            there,
            (
              put sig ob3 h2,
              ap (λ x. x >>= next)
                    (delete-run u sig name p h h2 ob (listener print_pointer p) e f refl run)
                  ∙ removed-run print_pointer to_double truncate dead u call (without p hs) sig h2
                      ob2 e3 k2,
              (
                ob3,
                cell-set_self h2.cells sig (some ob3) e3,
                subst (λ ms. Lists print_pointer ms (without p hs)) (sym same)
                    (remove-Lists print_pointer injective p l),
                refl,
              ),
              count-Counted sig ob2 (some (pos (length (without p hs)))) c2 e3,
            ),
          )
      | inr gone ↦ inl (
        gone,
        ap (λ x. x >>= next)
            (delete-absent u sig name h ob e
              (find-Lists print_pointer injective p l ∙ rw gone refl)),
      )
    ]
