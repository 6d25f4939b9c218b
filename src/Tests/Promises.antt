-- ===== src/Tests/Promises.antt =====
-- Promises: the theorems at concrete runs.
use deai.Common.{
  ◌==◌, if◌then◌else◌, Bool-cases, inl, inr, ◌++◌, ℕ, ◌*◌, ◌+◌, ◌<◌, ◌≤◌, ◌≡◌, refl, true, false,
  List, [], ◌∷◌, Option, none, some, arith, length,
}
use deai.Common.Int.{pos}
use deai.Types.{DiType}
use deai.Value.{Value, Values, end, item}
use deai.Heap.{mem}
use deai.Event.Join.{Storage, di_join_promises}
use deai.Event.Join.Placed.{Handlers, placed}
use deai.Event.Join.Order.{joins, before_last, join-Order}
use deai.Event.{
  Payload, EventModule, Outcome, Reply, returned, plain, get, di_promise_resolve, di_promise_reject,
  di_promise_then, di_promise_then_inner, di_idle_cb,
}
use deai.Event.Measure.{work, weight, resolve-work}
use deai.Event.Work.{Calm, then-work}
use deai.Event.Keeping.{Keeps}
use deai.Event.Idle.{idle_cb-drains}
use deai.Event.Once.{Honest, Run, settled_once}

-- Every handler returns nil, and does nothing else.
abbrev quiet : ℕ → Outcome → EventModule → Reply × EventModule
quiet h o s = (returned (plain Value.nil), s)

quiet-Honest : Honest quiet
quiet-Honest h o s p pr e i = (pr, e, refl, refl, i)

-- Promise 0 is resolved, with a handler; promise 1 stands for what the handler returns.
abbrev waiting : EventModule
waiting = record {
  promises =
      record {
        resolved = some (plain (Value.int (pos 3)));
        rejected = none;
        handlers = record { promise = 1; resolve = some 7; reject = none } ∷ [];
        is_pending = true;
      }
      ∷ record { resolved = none; rejected = none; handlers = []; is_pending = false }
      ∷ [];
  pending = 0 ∷ [];
  idle = true;
  rooted = true;
  alive = true;
  unhandled = [];
}

-- The handler 7 chains the handler 8 to promise 1, which it resolves, and returns nil.
abbrev chaining : ℕ → Outcome → EventModule → Reply × EventModule
chaining h o s = (
  returned (plain Value.nil),
  if h == 7
      then elim (di_promise_then 1 8 s) [
        | none ↦ s
        | some r ↦ di_promise_resolve 1 (plain Value.nil) r.1
      ]
      else s,
)

abbrev prices : ℕ → ℕ
prices h = if h == 7 then 3 else 0

chaining-Calm : Calm prices chaining
unfolding di_promise_then di_promise_then_inner work
chaining-Calm h o s = elim (Bool-cases (h == 7)) [
  | inr other ↦ rw other (omega arith)
  | inl seven ↦ elim (Bool-cases s.alive) [
    | inr down ↦ rw (seven, down) (omega arith)
    | inl up ↦
        let (q, s', run, less) = then-work prices 1 8 s up in
        rw (seven, run) (omega (arith, less, resolve-work prices 1 (plain Value.nil) s'))
  ]
]

chaining-work : work prices waiting ≡ 6
unfolding work weight
chaining-work = refl

idle_cb-drains_example :
    (done : EventModule) × (di_idle_cb chaining 7 waiting ≡ some done)
    × (done.pending ≡ [])
    × (done.rooted ≡ false)
    × (work prices done ≤ work prices waiting)
idle_cb-drains_example =
    idle_cb-drains prices chaining 7 waiting chaining-Calm (omega (arith, chaining-work))

-- The run makes a promise, and calls the handler that was chained.
abbrev outcomes : Option EventModule → Option (ℕ × List ℕ)
outcomes none = none
outcomes (some s) = some (length s.promises, s.pending)

chaining_runs : outcomes (di_idle_cb chaining 7 waiting) ≡ some (3, [])
unfolding di_idle_cb di_promise_then
chaining_runs = refl

-- Promise 1 is rejected, and then something tries to resolve it.
abbrev twice : EventModule
twice = di_promise_resolve 1 (plain Value.nil) (di_promise_reject 1 9 waiting)

settled_once_example : Keeps waiting twice
settled_once_example =
    settled_once quiet quiet-Honest (Run.reject 1 9 (Run.resolve 1 (plain Value.nil) Run.stop))

-- A handler chains to the promise that calls it.
abbrev chains : ℕ → Outcome → EventModule → Reply × EventModule
chains h o s =
    (returned (plain Value.nil), elim (di_promise_then 0 8 s) [ none ↦ s | some r ↦ r.1 ])

-- What the new handler waits for never comes: it is kept, and no dispatch is pending.
abbrev lost : Option EventModule → Option (ℕ × List ℕ)
lost none = none
lost (some s) = elim (get 0 s) [ none ↦ none | some pr ↦ some (length pr.handlers, s.pending) ]

chained_handler_lost : lost (di_idle_cb chains 9 waiting) ≡ some (1, [])
unfolding di_idle_cb di_promise_then
chained_handler_lost = refl

-- A tuple of values; promises among them are left out.
abbrev items : List Payload → Values
items [] = end
items (plain v ∷ vs) = item v (items vs)
items (Payload.promise p ∷ vs) = items vs

abbrev tuple_of : List Payload → Payload
tuple_of vs = plain (Value.tuple (items vs))

abbrev squares : ℕ → Payload
squares i = plain (Value.uint (i * i))

abbrev go_on : EventModule → EventModule
go_on s = record s { idle = true }

abbrev handler_number : ℕ → ℕ
handler_number i = 10 + i

covered : (j : ℕ) → j < 2 → mem j (1 ∷ 0 ∷ []) ≡ true
unfolding mem
covered j b = ground arith

-- Of two promises, the second resolves first.
join-Order_example :
    (ret : ℕ) × (st : Storage) × (st' : Storage) × (s' : EventModule) × (di_join_promises
        handler_number
        (plain Value.nil)
        DiType.object
        (0 ∷ 1 ∷ [])
        waiting
      ≡ some (ret, st, s'))
    × (ret ≡ 2)
    × ((q : ℕ) (hs : List (Option ℕ))
        → Handlers q hs waiting
        → Handlers q (hs ++ placed handler_number q 0 (0 ∷ 1 ∷ [])) s')
    × (joins tuple_of go_on ret squares (1 ∷ 0 ∷ []) st waiting
        ≡ some (
          st',
          go_on (
              di_promise_resolve ret
                (tuple_of (squares 0 ∷ squares 1 ∷ []))
                (before_last tuple_of go_on ret squares 1 waiting)),
        ))
unfolding mem
join-Order_example =
    join-Order tuple_of go_on squares handler_number (plain Value.nil) 0 (1 ∷ []) waiting 1 (0 ∷ [])
      waiting refl refl refl (ground arith, (ground arith, tt)) covered
