-- ===== src/Event.antt =====
-- Promises: event.c from `di_handlers_dispatch` to `di_idle_cb`. The members of a promise object
-- and of the event module are the fields of records; a promise is the number of its record. The
-- members `pending_promise_0`, ... of the module are a stack, the highest number first, and
-- `pending_count` is its height. References and the release of objects are left to Refs.antt: a
-- number that stands for no promise is no pointer that the code has, and nothing is done with it.
-- The handlers are objects of the users, a parameter: what one does is its reply and its changes.
pub mod Measure
pub mod Work
pub mod Idle
pub mod Keeping
pub mod Once
pub mod Join
use deai.Common.{
  ℕ, zero, suc, ◌+◌, Bool, true, false, ◌||◌, List, [], ◌∷◌, ◌++◌, Option, none, some, length,
  get_elem?, set, if◌then◌else◌, ◌>>=◌,
}
use deai.Value.{Value}

-- A value, or an object of the type of promises.
pub data Payload : Type 0 where
  plain : Value → Payload
  promise : ℕ → Payload

-- PromiseThenClosure. It is held by one array of handlers, or by the dispatch that calls it.
pub record Closure : Type 0 where
  pub promise : ℕ
  pub resolve : Option ℕ
  pub reject : Option ℕ

-- No member `___handlers` is an empty list.
pub record Promise : Type 0 where
  pub resolved : Option Payload
  pub rejected : Option ℕ
  pub handlers : List Closure
  pub is_pending : Bool

-- `alive`: the module is alive, and deai is not shutting down. `unhandled` are the rejections that
-- were logged.
pub record EventModule : Type 0 where
  pub promises : List Promise
  pub pending : List ℕ
  pub idle : Bool
  pub rooted : Bool
  pub alive : Bool
  pub unhandled : List ℕ

-- What a handler is called with: 0 and the value, or 1 and the error.
pub data Outcome : Type 0 where
  with_value : Payload → Outcome
  with_error : ℕ → Outcome

-- What `di_call_object_catch` gives: an error code, a caught error, or the value that was returned.
pub data Reply : Type 0 where
  failed : Reply
  threw : ℕ → Reply
  returned : Payload → Reply

abbrev pub get : ℕ → EventModule → Option Promise
get p s = get_elem? s.promises p

abbrev pub put : ℕ → Promise → EventModule → EventModule
put p pr s = record s { promises = set s.promises p pr }

unfoldable pub has_some {ℓ} : {A : Type ℓ} → Option A → Bool
has_some none = false
has_some (some a) = true

-- di_has_member (promise, "___resolved") || di_has_member (promise, "___rejected")
unfoldable pub is_settled : Promise → Bool
unfolding has_some
is_settled pr = has_some pr.resolved || has_some pr.rejected

abbrev pub new : Promise
new = record { resolved = none; rejected = none; handlers = []; is_pending = false }

unfoldable pub di_new_promise : EventModule → ℕ × EventModule
di_new_promise s = (length s.promises, record s { promises = s.promises ++ new ∷ [] })

-- pending_count == 0 puts the module among the roots.
abbrev pub push_pending : ℕ → EventModule → EventModule
push_pending p s = record s {
  pending = p ∷ s.pending;
  idle = true;
  rooted = elim s.pending [ [] ↦ true | q ∷ qs ↦ s.rooted ];
}

unfoldable pub di_promise_start_dispatch : ℕ → EventModule → EventModule
di_promise_start_dispatch p s = elim (get p s) [
  | none ↦ s
  | some pr ↦
      if pr.is_pending
      then s
      else if s.alive
      then put p (record pr { is_pending = true }) (push_pending p s)
      else s
]

unfoldable pub di_promise_add_handler : ℕ → Closure → EventModule → EventModule
unfolding di_promise_start_dispatch is_settled
di_promise_add_handler p c s = elim (get p s) [
  | none ↦ s
  | some pr ↦
      let added = put p (record pr { handlers = pr.handlers ++ c ∷ [] }) s in
      if is_settled pr then di_promise_start_dispatch p added else added
]

unfoldable pub di_promise_resolve : ℕ → Payload → EventModule → EventModule
unfolding di_promise_start_dispatch is_settled
di_promise_resolve p v s = elim (get p s) [
  | none ↦ s
  | some pr ↦
      if is_settled pr
      then s
      else di_promise_start_dispatch p (put p (record pr { resolved = some v }) s)
]

unfoldable pub di_promise_reject : ℕ → ℕ → EventModule → EventModule
unfolding di_promise_start_dispatch is_settled
di_promise_reject p e s = elim (get p s) [
  | none ↦ s
  | some pr ↦
      if is_settled pr
      then s
      else di_promise_start_dispatch p (put p (record pr { rejected = some e }) s)
]

-- `none` is an error that is thrown: the event module is gone.
unfoldable pub di_promise_then_inner :
    ℕ → Option ℕ → Option ℕ → EventModule → Option (ℕ × EventModule)
unfolding di_new_promise di_promise_add_handler
di_promise_then_inner p res rej s =
    if s.alive
    then some (
      (di_new_promise s).0,
      di_promise_add_handler p
          (record { promise = (di_new_promise s).0; resolve = res; reject = rej })
          (di_new_promise s).1,
    )
    else none

unfoldable pub di_promise_then : ℕ → ℕ → EventModule → Option (ℕ × EventModule)
unfolding di_promise_then_inner
di_promise_then p handler s = di_promise_then_inner p (some handler) none s

unfoldable pub di_promise_catch : ℕ → ℕ → EventModule → Option (ℕ × EventModule)
unfolding di_promise_then_inner
di_promise_catch p handler s = di_promise_then_inner p none (some handler) s

unfoldable pub di_promise_finally : ℕ → ℕ → EventModule → Option (ℕ × EventModule)
unfolding di_promise_then_inner
di_promise_finally p handler s = di_promise_then_inner p (some handler) (some handler) s

unfoldable pub di_ready_promise : Payload → EventModule → ℕ × EventModule
unfolding di_new_promise di_promise_resolve
di_ready_promise v s =
    ((di_new_promise s).0, di_promise_resolve (di_new_promise s).0 v (di_new_promise s).1)

-- The handler of a closure for an outcome.
abbrev pub handler_for : Outcome → Closure → Option ℕ
handler_for (with_value v) c = c.resolve
handler_for (with_error e) c = c.reject

-- A closure without a handler passes the outcome on.
unfoldable pub pass_on : ℕ → Outcome → EventModule → EventModule
unfolding di_promise_resolve di_promise_reject
pass_on p (with_value v) s = di_promise_resolve p v s
pass_on p (with_error e) s = di_promise_reject p e s

-- What becomes of the promise of a closure when its handler replied. A handler that could not be
-- called leaves it as it is. A promise that the handler returned gets the closure, whose handlers
-- were taken, as a handler.
unfoldable pub follow : ℕ → Reply → EventModule → EventModule
unfolding di_promise_resolve di_promise_reject di_promise_add_handler
follow p failed s = s
follow p (threw e) s = di_promise_reject p e s
follow p (returned (plain v)) s = di_promise_resolve p (plain v) s
follow p (returned (promise q)) s =
    di_promise_add_handler q (record { promise = p; resolve = none; reject = none }) s

-- di_delete_member_raw (promise, "is_pending")
unfoldable pub clear_pending : ℕ → EventModule → EventModule
clear_pending p s = elim (get p s) [
  | none ↦ s
  | some pr ↦ put p (record pr { is_pending = false }) s
]

module _ (call : ℕ → Outcome → EventModule → Reply × EventModule) where
  unfoldable pub di_promise_handler_closure : Closure → Outcome → EventModule → EventModule
  unfolding pass_on follow
  di_promise_handler_closure c o s = elim (handler_for o c) [
    | none ↦ pass_on c.promise o s
    | some h ↦ follow c.promise (call h o s).0 (call h o s).1
  ]

  unfoldable pub di_handlers_dispatch : List Closure → Outcome → EventModule → EventModule
  unfolding di_promise_handler_closure
  di_handlers_dispatch [] o s = s
  di_handlers_dispatch (c ∷ cs) o s = di_handlers_dispatch cs o (di_promise_handler_closure c o s)

  -- The outcome goes to the handlers; a rejection that has none is logged.
  unfoldable pub dispatch_outcome : Promise → EventModule → EventModule
  unfolding di_handlers_dispatch
  dispatch_outcome pr s = elim pr.resolved [
    | some v ↦ di_handlers_dispatch pr.handlers (with_value v) s
    | none ↦ elim pr.rejected [
      | none ↦ s
      | some e ↦ elim pr.handlers [
        | [] ↦ record s { unhandled = e ∷ s.unhandled }
        | c ∷ cs ↦ di_handlers_dispatch (c ∷ cs) (with_error e) s
      ]
    ]
  ]

  unfoldable pub di_promise_dispatch : ℕ → EventModule → EventModule
  unfolding dispatch_outcome clear_pending
  di_promise_dispatch p s = elim (get p s) [
    | none ↦ s
    | some pr ↦ clear_pending p (dispatch_outcome pr (put p (record pr { handlers = [] }) s))
  ]

  -- The loop of `di_idle_cb`, on fuel for its rounds.
  unfoldable pub idle_loop : ℕ → EventModule → Option EventModule
  unfolding di_promise_dispatch
  idle_loop zero s = none
  idle_loop (suc n) s = elim s.pending [
    | [] ↦ some s
    | p ∷ ps ↦ idle_loop n (di_promise_dispatch p (record s { pending = ps }))
  ]

  unfoldable pub di_idle_cb : ℕ → EventModule → Option EventModule
  unfolding idle_loop
  di_idle_cb n s = do
    done ← idle_loop n (record s { idle = false })
    some (record done { rooted = false })
