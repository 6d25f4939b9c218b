-- ===== src/Signals.antt =====
-- Signals: object.c, `di_signal_add_handler`, `di_signal_remove_handler`, `di_signal_dispatch`,
-- `di_emitn` and the listen handles. A signal's handlers are members named by the address of the
-- handler: what `%p` prints is a parameter, as are call functions, `di_new_error`, the conversion to
-- double and the address of `dead_weak_ref`. `none` is a fault; what is logged is left out.
pub mod Listeners
pub mod Refines
use deai.Common.{
  ℕ, zero, suc, ◌+◌, Bool, true, false, not, List, [], ◌∷◌, ◌++◌, Option, none, some, ltb, ◌==◌,
  length, if◌then◌else◌, ◌>>=◌, ◌>>◌, check,
}
use mathlib.Core.Option
use deai.Common.Int.{ℤ, pos, negsuc}
use deai.Errors.{enoent, e2big, Result, ok, err}
use deai.Types.{DiType}
use deai.Text.{Text, chars, di_string_starts_with}
use deai.Value.{Value, Values, end, item}
use deai.Heap.{Member, Object, Heap, deref, put}
use deai.Refs.{di_ref_object, di_free_value, di_upgrade_weak_ref, di_drop_weak_ref}
use deai.Members.{di_add_member_clone, di_delete_member_raw}
use deai.Members.Handlers.{
  Called, gives, fails, raises, throws, CallFn, di_call_object_catch, di_delete_member, di_setx,
  printed,
}
use deai.Members.Typed.{di_getxt, di_object_to_string, max_nargs}

-- HANDLER_PREFIX
abbrev pub handler_prefix : List ℕ
handler_prefix =
    b'h' ∷ b'a' ∷ b'n' ∷ b'd' ∷ b'l' ∷ b'e' ∷ b'r' ∷ b'_' ∷ b'o' ∷ b'b' ∷ b'j' ∷ b'e' ∷ b'c' ∷ b't'
    ∷ b'_' ∷ []

abbrev pub weak_source : List ℕ
weak_source = b'w' ∷ b'e' ∷ b'a' ∷ b'k' ∷ b'_' ∷ b's' ∷ b'o' ∷ b'u' ∷ b'r' ∷ b'c' ∷ b'e' ∷ []

abbrev pub signal_name : List ℕ
signal_name = b's' ∷ b'i' ∷ b'g' ∷ b'n' ∷ b'a' ∷ b'l' ∷ b'_' ∷ b'n' ∷ b'a' ∷ b'm' ∷ b'e' ∷ []

abbrev pub signal_prefix : List ℕ
signal_prefix = b'_' ∷ b'_' ∷ b's' ∷ b'i' ∷ b'g' ∷ b'n' ∷ b'a' ∷ b'l' ∷ b'_' ∷ []

abbrev pub weak_signal : List ℕ
weak_signal = b'w' ∷ b'e' ∷ b'a' ∷ b'k' ∷ b'_' ∷ b's' ∷ b'i' ∷ b'g' ∷ b'n' ∷ b'a' ∷ b'l' ∷ []

abbrev pub weak_handler : List ℕ
weak_handler =
    b'w' ∷ b'e' ∷ b'a' ∷ b'k' ∷ b'_' ∷ b'h' ∷ b'a' ∷ b'n' ∷ b'd' ∷ b'l' ∷ b'e' ∷ b'r' ∷ []

abbrev pub stop_on_drop : List ℕ
stop_on_drop =
    b's' ∷ b't' ∷ b'o' ∷ b'p' ∷ b'_' ∷ b'o' ∷ b'n' ∷ b'_' ∷ b'd' ∷ b'r' ∷ b'o' ∷ b'p' ∷ []

-- The int `nhandlers`, plus and minus one; overflow is a fault.
abbrev pub one_more : ℤ → Option ℤ
one_more (pos n) = if ltb n 2147483647 then some (pos (n + 1)) else none
one_more (negsuc zero) = some (pos 0)
one_more (negsuc (suc n)) = some (negsuc n)

abbrev pub one_less : ℤ → Option ℤ
one_less (pos zero) = some (negsuc 0)
one_less (pos (suc n)) = some (pos n)
one_less (negsuc n) = if ltb n 2147483647 then some (negsuc (n + 1)) else none

abbrev pub equals : ℤ → ℕ → Bool
equals (pos n) m = n == m
equals (negsuc n) m = false

-- Writes the count, of a signal.
abbrev pub count_by : (ℤ → Option ℤ) → ℕ → Heap → Option (ℤ × Heap)
count_by step sig h = do
  ob ← deref sig h
  n ← ob.nhandlers
  m ← step n
  some (m, put sig (record ob { nhandlers = some m }) h)

abbrev pub count_one_more : ℕ → Result (Unit {0}) × Heap → Option Heap
count_one_more sig (rc, h) = count_by one_more sig h >>= λ r. some r.1

-- The data of a member, read as a pointer to an object whatever its type is: a fault if it is none.
abbrev pub pointed : Value → Option ℕ
pointed (Value.object p) = some p
pointed (Value.empty_object p) = some p
pointed v = none

abbrev pub missing : Result (Unit {0}) → Bool
missing (err enoent) = true
missing r = false

-- The end of a function that returns nothing, whose code is not looked at.
abbrev pub finished : Called → Called
finished (throws e) = throws e
finished r = gives Value.nil

-- HASH_ITER with a reference to each handler
unfoldable pub copy_handlers : List Member → Heap → Option (List ℕ × Heap)
unfolding di_string_starts_with di_ref_object
copy_handlers [] h = some ([], h)
copy_handlers (m ∷ ms) h = do
  (here, h1) ←
      (if di_string_starts_with m.name handler_prefix
        then (do p ← pointed m.value; h' ← di_ref_object p h; some (p ∷ [], h'))
        else some ([], h))
  (rest, h2) ← copy_handlers ms h1
  some (here ++ rest, h2)

abbrev pub handler_name : (ℕ → List ℕ) → ℕ → Text
handler_name print_pointer handler = chars (handler_prefix ++ print_pointer handler)

module _ (print_pointer : ℕ → List ℕ) (unref : ℕ → Heap → Option Heap) where
  -- The count goes up whether the member could be added or not.
  unfoldable pub di_signal_add_handler : ℕ → ℕ → Heap → Option Heap
  unfolding di_add_member_clone
  di_signal_add_handler sig handler h =
      di_add_member_clone unref sig (handler_name print_pointer handler) (Value.object handler) h
      >>= count_one_more sig

  module _ (to_double : ℤ → ℕ) (truncate : ℕ → ℤ) (dead_weak_ref : ℕ) (call : CallFn) where
    -- DI_CHECK_OK (di_get (...)) into a variable that is cleaned up: any failure is a fault, an
    -- exception too, since it leaves the variable as it was, without a value.
    unfoldable pub get_checked : ℕ → List ℕ → DiType → Heap → Option (Value × Heap)
    unfolding di_getxt
    get_checked o prop t h = do
      (r, h1) ← di_getxt to_double truncate dead_weak_ref unref call o (chars prop) t h
      elim r [ gives v ↦ some (v, h1) | _ ↦ none ]

    -- The signal is taken out of the source, if that is still there.
    unfoldable pub leave_source : ℕ → Text → Heap → Option (Called × Heap)
    unfolding di_upgrade_weak_ref di_delete_member
    leave_source w name h = do
      (strong, h1) ← di_upgrade_weak_ref w h
      elim strong [
        | none ↦ some (gives Value.nil, h1)
        | some source ↦ do
          (r, h2) ← di_delete_member call unref false source name h1
          h3 ← unref source h2
          some (finished r, h3)
      ]

    unfoldable pub with_name : ℕ → Value → Heap → Option (Called × Heap)
    unfolding leave_source di_drop_weak_ref
    with_name w (Value.string name) h = do
      (r, h1) ← leave_source w name h
      h2 ← di_drop_weak_ref w h1
      some (r, h2)
    with_name w v h = none

    unfoldable pub with_source : ℕ → Value → Heap → Option (Called × Heap)
    unfolding get_checked with_name
    with_source sig (Value.weak_object w) h = do
      (name, h1) ← get_checked sig signal_name DiType.string h
      with_name w name h1
    with_source sig v h = none

    -- What follows when no handler remains.
    unfoldable pub no_handler_remains : ℕ → Heap → Option (Called × Heap)
    unfolding get_checked with_source
    no_handler_remains sig h = do
      (source, h1) ← get_checked sig weak_source DiType.weak_object h
      with_source sig source h1

    -- What follows the deletion of the member.
    unfoldable pub after_delete : ℕ → Result (Unit {0}) × Heap → Option (Called × Heap)
    unfolding no_handler_remains
    after_delete sig (rc, h1) = if missing rc then some (gives Value.nil, h1) else (do
      (n, h2) ← count_by one_less sig h1
      if equals n 0 then no_handler_remains sig h2 else some (gives Value.nil, h2))

    unfoldable pub di_signal_remove_handler : ℕ → ℕ → Heap → Option (Called × Heap)
    unfolding di_delete_member_raw after_delete
    di_signal_remove_handler sig handler h =
        di_delete_member_raw unref sig (handler_name print_pointer handler) h >>= after_delete sig

    -- Once both weak references are there
    unfoldable pub stop_handler : ℕ → Value → Heap → Option (Called × Heap)
    unfolding di_upgrade_weak_ref di_signal_remove_handler di_drop_weak_ref
    stop_handler weak_sig (Value.weak_object handler) h = do
      (strong, h1) ← di_upgrade_weak_ref weak_sig h
      (r, h2) ← elim strong [
        | none ↦ some (gives Value.nil, h1)
        | some sig ↦ do
          (r, h') ← di_signal_remove_handler sig handler h1
          h'' ← unref sig h'
          some (r, h'')
      ]
      h3 ← di_drop_weak_ref handler h2
      h4 ← di_drop_weak_ref weak_sig h3
      some (r, h4)
    stop_handler weak_sig v h = none

    unfoldable pub stop_signal : ℕ → Value → Heap → Option (Called × Heap)
    unfolding get_checked stop_handler
    stop_signal o (Value.weak_object weak_sig) h = do
      (handler, h1) ← get_checked o weak_handler DiType.weak_object h
      stop_handler weak_sig handler h1
    stop_signal o v h = none

    unfoldable pub di_listen_handle_stop : ℕ → Heap → Option (Called × Heap)
    unfolding get_checked stop_signal
    di_listen_handle_stop o h = do
      (sig, h1) ← get_checked o weak_signal DiType.weak_object h
      stop_signal o sig h1

    unfoldable pub di_listen_handle_dtor : ℕ → Heap → Option (Called × Heap)
    unfolding di_getxt di_listen_handle_stop
    di_listen_handle_dtor o h = do
      (r, h1) ←
          di_getxt to_double truncate dead_weak_ref unref call o (chars stop_on_drop) DiType.bool h
      elim r [
        | gives (Value.bool true) ↦ di_listen_handle_stop o h1
        | throws e ↦ some (throws e, h1)
        | _ ↦ some (gives Value.nil, h1)
      ]

    unfoldable pub di_listen_handle_auto_stop : ℕ → ℤ → Heap → Option (Called × Heap)
    unfolding di_setx
    di_listen_handle_auto_stop o stop h = do
      (r, h1) ← di_setx call unref false o (chars stop_on_drop) (Value.bool (not (equals stop 0))) h
      some (finished r, h1)

    module _ (new_error : Heap → Option (ℕ × Heap)) where
      -- After a call: a code is only logged, an error that was caught is described and dropped.
      unfoldable pub handler_ended : Called → Heap → Option (Called × Heap)
      unfolding di_free_value di_object_to_string
      handler_ended (gives v) h = do h1 ← di_free_value unref v h; some (gives Value.nil, h1)
      handler_ended (fails e) h = some (gives Value.nil, h)
      handler_ended (raises x) h = do
        (r, h1) ←
            di_object_to_string to_double truncate dead_weak_ref unref call print_pointer new_error
              x h
        h2 ← unref x h1
        some (finished r, h2)
      handler_ended (throws x) h = some (throws x, h)

      -- An exception, of the description, ends the loop.
      unfoldable pub call_handlers : List Value → List ℕ → Heap → Option (Called × Heap)
      unfolding di_call_object_catch handler_ended
      call_handlers args [] h = some (gives Value.nil, h)
      call_handlers args (p ∷ ps) h = do
        (r, h1) ← di_call_object_catch call p args h
        h2 ← unref p h1
        (s, h3) ← handler_ended r h2
        elim s [ throws x ↦ some (throws x, h3) | _ ↦ call_handlers args ps h3 ]

      unfoldable pub di_signal_dispatch : ℕ → List Value → Heap → Option (Called × Heap)
      unfolding copy_handlers call_handlers
      di_signal_dispatch sig args h = do
        ob ← deref sig h
        n ← ob.nhandlers
        (handlers, h1) ← copy_handlers ob.members h
        check (equals n (length handlers))
        call_handlers args handlers h1

      -- The signal's object is found by its name; what it gives beside 0 or a code is an exception.
      unfoldable pub di_emitn : ℕ → Text → List Value → Heap → Option (Called × Heap)
      unfolding di_getxt di_signal_dispatch printed
      di_emitn o name args h = if ltb max_nargs (length args) then some (fails e2big, h) else (do
        (r, h1) ←
            di_getxt to_double truncate dead_weak_ref unref call o
              (chars (signal_prefix ++ printed name)) DiType.object h
        elim r [
          | gives (Value.object sig) ↦ do
            (s, h2) ← di_signal_dispatch sig args h1
            h3 ← unref sig h2
            some (finished s, h3)
          | throws e ↦ some (throws e, h1)
          | _ ↦ some (gives Value.nil, h1)
        ])
