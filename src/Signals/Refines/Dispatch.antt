-- ===== src/Signals/Refines/Dispatch.antt =====
-- Dispatching a signal: the handlers that `di_signal_dispatch` of object.c calls are those of the list.
use deai.Common.{◌⊎◌, ◌≢◌, none, ℕ, false, List, [], ◌∷◌, Option, some, ◌≡◌}
use deai.Common.Int.{ℤ}
use deai.Value.{Value}
use deai.Heap.{Object, Heap, deref}
use deai.Members.Handlers.{Called, gives, throws, CallFn, di_call_object_catch}
use deai.Signals.{handler_ended, call_handlers}

abbrev pub Alive : ℕ → Heap → Type 0
Alive p h = (ob : Object) × (deref p h ≡ some ob) × (ob.destroyed ≡ false)

-- What happens when these handlers are called one after the other: each is called with the arguments,
-- an exception caught, the reference to it is dropped, and what it returned or raised is disposed of;
-- an exception from there ends it, and else the next is called, on the heap that this one left.
pub data Emission (print_pointer : ℕ → List ℕ) (unref : ℕ → Heap → Option Heap) (to_double : ℤ → ℕ)
    (truncate : ℕ → ℤ) (dead : ℕ) (call : CallFn) (new_error : Heap → Option (ℕ × Heap))
    (args : List Value) : List ℕ → Heap → Called → Heap → Type 0 where
  all_called :
      {h : Heap}
      → Emission print_pointer unref to_double truncate dead call new_error args [] h
          (gives Value.nil)
          h
  called :
      {p : ℕ} {ps : List ℕ} {h h1 h2 h3 h4 : Heap} {r s end : Called}
      → di_call_object_catch call p args h ≡ some (r, h1)
      → unref p h1 ≡ some h2
      → handler_ended print_pointer unref to_double truncate dead call new_error r h2 ≡ some (s, h3)
      → ((x : ℕ) → s ≢ throws x)
      → Emission print_pointer unref to_double truncate dead call new_error args ps h3 end h4
      → Emission print_pointer unref to_double truncate dead call new_error args (p ∷ ps) h end h4
  thrown :
      {p : ℕ} {ps : List ℕ} {h h1 h2 h3 : Heap} {r : Called} {x : ℕ}
      → di_call_object_catch call p args h ≡ some (r, h1)
      → unref p h1 ≡ some h2
      → handler_ended print_pointer unref to_double truncate dead call new_error r h2
        ≡ some (throws x, h3)
      → Emission print_pointer unref to_double truncate dead call new_error args
          (p ∷ ps)
          h
          (throws x)
          h3

module _ (print_pointer : ℕ → List ℕ) (unref : ℕ → Heap → Option Heap) (to_double : ℤ → ℕ)
    (truncate : ℕ → ℤ) (dead : ℕ) (call : CallFn) (new_error : Heap → Option (ℕ × Heap))
    (args : List Value) where
  abbrev go_on : List ℕ → Called × Heap → Option (Called × Heap)
  go_on ps (s, h) = elim s [
    | throws x ↦ some (throws x, h)
    | _ ↦ call_handlers print_pointer unref to_double truncate dead call new_error args ps h
  ]

  abbrev Outcome : List ℕ → Heap → Type 0
  Outcome hs h =
      (call_handlers print_pointer unref to_double truncate dead call new_error args hs h ≡ none)
      ⊎ ((end : Called) × (h' : Heap) × Emission print_pointer unref to_double truncate dead call
            new_error args hs h end h')
