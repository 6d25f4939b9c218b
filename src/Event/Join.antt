-- ===== src/Event/Join.antt =====
-- Waiting for several promises: event.c, `di_promise_join_handler`, `di_join_promises` and
-- `di_any_promise`. The members of the storage object are fields: the results by their index, which
-- `%d` prints. Closures are numbers, and the tuple of the results is a parameter. `none` is a fault, or
-- an error that is thrown.
pub mod Placed
pub mod Order
use deai.Common.{
  ℕ, zero, suc, ◌+◌, Bool, true, false, List, [], ◌∷◌, ◌++◌, Option, none, some, ◌==◌,
  if◌then◌else◌, ◌>>=◌, ◌>>◌, check, get_elem?,
}
use mathlib.Core.Option
use deai.Common.Int.{ℤ, pos, negsuc, ◌-ℤ◌}
use deai.Types.{DiType, type_id}
use deai.Event.{Payload, EventModule, di_new_promise, di_promise_resolve, di_promise_then}

pub record Storage : Type 0 where
  pub results : List (ℕ × Payload)
  pub left : Option ℤ
  pub total : Option ℤ

unfoldable pub find_result : ℕ → List (ℕ × Payload) → Option Payload
find_result i [] = none
find_result i (r ∷ rs) = let rest = find_result i rs in if i == r.0 then some r.1 else rest

abbrev pub is_zero : ℤ → Bool
is_zero (pos n) = n == 0
is_zero (negsuc n) = false

-- The size of an allocation
abbrev pub count_of : ℤ → Option ℕ
count_of (pos n) = some n
count_of (negsuc n) = none

-- The results from the index `i` on, so many; each must be there.
unfoldable pub gather : ℕ → ℕ → List (ℕ × Payload) → Option (List Payload)
unfolding find_result
gather i zero rs = some []
gather i (suc n) rs = do v ← find_result i rs; vs ← gather (i + 1) n rs; some (v ∷ vs)

module _ (tuple_of : List Payload → Payload) where
  -- The last of the handlers resolves the promise.
  unfoldable pub resolve_last : ℕ → ℤ → Storage → EventModule → Option (Storage × EventModule)
  unfolding gather di_promise_resolve
  resolve_last then_promise left st s =
      if is_zero left
      then (do
        total ← st.total
        n ← count_of total
        results ← gather 0 n st.results
        some (st, di_promise_resolve then_promise (tuple_of results) s))
      else some (st, s)

  unfoldable pub di_promise_join_handler :
      ℕ → ℕ → Payload → Storage → EventModule → Option (Storage × EventModule)
  unfolding find_result ◌-ℤ◌ resolve_last
  di_promise_join_handler index then_promise var st s = do
    check (elim (find_result index st.results) [ none ↦ true | some v ↦ false ])
    left ← st.left
    resolve_last then_promise (left -ℤ pos 1)
        (record st { results = st.results ++ (index, var) ∷ []; left = some (left -ℤ pos 1) }) s

-- The loop over the promises: each gets a handler, with the number of those before it.
unfoldable pub then_all : (ℕ → ℕ) → ℕ → List ℕ → EventModule → Option (ℕ × EventModule)
unfolding di_promise_then
then_all handler cnt [] s = some (cnt, s)
then_all handler cnt (p ∷ ps) s = do
  (q, s') ← di_promise_then p (handler cnt) s
  then_all handler (cnt + 1) ps s'

-- di_check_type of every element
abbrev pub all_promises : List ℕ → EventModule → Bool
all_promises [] s = true
all_promises (p ∷ ps) s = elim (get_elem? s.promises p) [
  | none ↦ false
  | some pr ↦ all_promises ps s
]

unfoldable pub di_join_promises :
    (ℕ → ℕ) → Payload → DiType → List ℕ → EventModule → Option (ℕ × Storage × EventModule)
unfolding type_id then_all di_new_promise di_promise_resolve
di_join_promises handler empty_array elem_type [] s =
    let ret = (di_new_promise s).0 in
    some (
      ret,
      record { results = []; left = none; total = none },
      di_promise_resolve ret empty_array (di_new_promise s).1,
    )
di_join_promises handler empty_array elem_type (p ∷ ps) s = do
  check (type_id elem_type == type_id DiType.object)
  check (all_promises (p ∷ ps) s)
  (cnt, s') ← then_all handler 0 (p ∷ ps) (di_new_promise s).1
  some (
    (di_new_promise s).0,
    record { results = []; left = some (pos cnt); total = some (pos cnt) },
    s',
  )

unfoldable pub di_any_promise_handler : ℕ → Payload → EventModule → EventModule
unfolding di_promise_resolve
di_any_promise_handler then_promise var s = di_promise_resolve then_promise var s

-- Every promise gets a handler for the new one.
unfoldable pub di_any_promise : ℕ → DiType → List ℕ → EventModule → Option (ℕ × EventModule)
unfolding type_id then_all di_new_promise
di_any_promise handler elem_type ps s = do
  check (type_id elem_type == type_id DiType.object)
  check (all_promises ps s)
  (cnt, s') ← then_all (λ i. handler) 0 ps (di_new_promise s).1
  some ((di_new_promise s).0, s')
