-- ===== src/Tests/Signals.antt =====
-- Signals: a signal (object 0) with one handler (object 1), and another object.
use deai.Common.{
  ℕ, zero, suc, ◌+◌, List, [], ◌∷◌, true, false, Option, none, some, ◌≡◌, ◌⊎◌, refl, arith, ◌>>=◌,
}
use deai.Common.Int.{ℤ, pos}
use deai.Text.{Text, chars, di_clone_string, di_string_eq}
use deai.Value.{Value, type_of, one_at, strong, weak, sound}
use deai.Heap.{Object, Heap, deref, put, mem, without, find_member}
use deai.Heap.Sums.{strong_members, weak_members, total, all_sound}
use deai.Errors.{einval}
use deai.Members.Typed.{di_callx}
use deai.Types.{type_id, di_sizeof_type}
use deai.Refs.{di_copy_value, di_free_value, di_unref_object, fresh}
use deai.Refs.Counts.{Counted, CellOk, strong_in, weak_in}
use deai.Refs.Steps.{◌⊕◌}
use deai.Members.Handlers.{Called, gives}
use deai.Signals.{di_signal_add_handler, di_signal_remove_handler, di_signal_dispatch}
use deai.Signals.Listeners.{Lists, listener}
use deai.Signals.Refines.{Represents, add-Represents}
use deai.Signals.Refines.Remove.{after_removal, remove-Represents}
use deai.Tests.Objects.{nobody, idle_dtor}

-- Addresses, printed
abbrev print : ℕ → List ℕ
print p = p ∷ []

print-injective : (a b : ℕ) → print a ≡ print b → a ≡ b
print-injective a b e = cc

abbrev doubled : ℤ → ℕ
doubled i = 0

abbrev whole : ℕ → ℤ
whole d = pos d

abbrev call : ℕ → ℕ → List Value → Heap → Option (Called × Heap)
call f p args h = some (gives Value.nil, h)

abbrev new_error : Heap → Option (ℕ × Heap)
new_error h = none

abbrev unref : ℕ → Heap → Option Heap
unref = di_unref_object idle_dtor 4

abbrev signal : Object
signal = record fresh { members = listener print 1 ∷ []; nhandlers = some (pos 1) }

abbrev callee : Object
callee = record fresh { call = some 0 }

abbrev board : Heap
board = record {
  cells = some signal ∷ some (record callee { ref_count = 2 }) ∷ some callee ∷ [];
  unreferred = [];
  isolated = [];
}

abbrev held : ℕ → ℕ
held = nobody ⊕ one_at 0 ⊕ one_at 1 ⊕ one_at 2

board_at :
    (q : ℕ) → CellOk (held q + strong_in q board) (nobody q + weak_in q board) 0 (deref q board)
unfolding total strong_members weak_members strong weak all_sound sound
board_at zero = ground arith
board_at (suc zero) = ground arith
board_at (suc (suc zero)) = ground arith
board_at (suc (suc (suc q))) = ground arith

board-Counted : Counted held nobody nobody board
unfolding mem
board-Counted = record { at = board_at; linked = λ q i. cc }

board-Represents : Represents print 0 (1 ∷ []) board
board-Represents = (signal, refl, Lists.handler Lists.empty, refl)

add-Represents_example :
    (h' : Heap) × (di_signal_add_handler print unref 0 2 board ≡ some h')
    × Represents print 0 (1 ∷ 2 ∷ []) h'
    × Counted held nobody nobody h'
unfolding mem
add-Represents_example =
    add-Represents print unref held nobody nobody 0 2 (1 ∷ []) board print-injective board-Counted
      (omega arith) (omega arith) board-Represents (ground arith) (omega arith)

remove-Represents_example :
    ((mem 1 (1 ∷ []) ≡ false)
      × (di_signal_remove_handler print unref doubled whole 7 call 0 1 board
          ≡ some (gives Value.nil, board)))
    ⊎ ((mem 1 (1 ∷ []) ≡ true)
        × ((h' : Heap) × (di_signal_remove_handler print unref doubled whole 7 call 0 1 board
              ≡ after_removal print doubled whole 7 unref call (without 1 (1 ∷ [])) 0 h')
            × Represents print 0 (without 1 (1 ∷ [])) h'
            × Counted held nobody nobody h'))
remove-Represents_example =
    remove-Represents print doubled whole 7 idle_dtor 3 call held nobody nobody 0 1 (1 ∷ []) board
      print-injective board-Counted (omega arith) (omega arith) board-Represents

-- One dispatch calls the handler and returns.
dispatch_runs :
    di_signal_dispatch print unref doubled whole 7 call new_error 0 [] board
    ≡ some (
      gives Value.nil,
      put 1 (record callee { ref_count = 2 }) (record board { unreferred = 1 ∷ [] }),
    )
unfolding di_signal_dispatch di_unref_object
dispatch_runs = refl

-- A handler that is added again is counted twice, and the next dispatch fails its assertion.
twice :
    (di_signal_add_handler print unref 0 1 board >>= λ h.
    di_signal_dispatch print unref doubled whole 7 call new_error 0 [] h)
    ≡ none
unfolding di_signal_add_handler di_sizeof_type type_of di_copy_value di_clone_string find_member
    di_string_eq di_free_value di_unref_object di_signal_dispatch
twice = refl

-- An object (object 0) whose member is an object that cannot be called
abbrev method_name : Text
method_name = chars (b'm' ∷ [])

abbrev caller : Object
caller = record fresh { members = record { name = method_name; value = Value.object 1 } ∷ [] }

abbrev mute : Heap
mute = record { cells = some caller ∷ some fresh ∷ []; unreferred = []; isolated = [] }

-- Calling the member fails, and the reference that the lookup took stays.
callx_leaks :
    di_callx doubled whole 7 unref call 0 method_name [] mute
    ≡ some (false, Called.fails einval, put 1 (record fresh { ref_count = 2 }) mute)
unfolding di_callx di_sizeof_type type_of di_copy_value find_member di_string_eq type_id
callx_leaks = refl
