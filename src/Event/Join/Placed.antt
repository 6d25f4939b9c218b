-- ===== src/Event/Join/Placed.antt =====
-- Which handlers `di_join_promises`, event.c, leaves with each promise.
use deai.Common.{
  ℕ, ◌+◌, ◌≡◌, ◌≢◌, true, false, List, [], ◌∷◌, ◌++◌, map, append_assoc, Option, none, some, refl,
  sym, ap, subst, ◌∙◌, get_elem?-set_ne, Option-cases, Bool-cases, inl, inr, arith, ◌==◌,
  if◌then◌else◌, ℕ_discrete,
}
use deai.Event.{
  Closure, Promise, EventModule, get, put, is_settled, push_pending, new, di_promise_start_dispatch,
  di_promise_add_handler, di_new_promise,
}
use deai.Event.Measure.{get-put}
use deai.Event.Keeping.{get-append}

-- What the closures of a promise do on a value, in the order in which they were added
abbrev pub on_value : List Closure → List (Option ℕ)
on_value = map Closure.resolve

-- There is a promise of this number, with these handlers.
abbrev pub Handlers : ℕ → List (Option ℕ) → EventModule → Type 0
Handlers q hs s = (pr : Promise) × (get q s ≡ some pr) × (on_value pr.handlers ≡ hs)

-- The handlers for the places of a promise in the list, the first of which has this index
abbrev pub placed : (ℕ → ℕ) → ℕ → ℕ → List ℕ → List (Option ℕ)
placed handler q k [] = []
placed handler q k (p ∷ ps) =
    let rest = placed handler q (k + 1) ps in if p == q then some (handler k) ∷ rest else rest

on_value-append :
    (cs : List Closure) (c : Closure) → on_value (cs ++ c ∷ []) ≡ on_value cs ++ c.resolve ∷ []
on_value-append [] c = refl
on_value-append (d ∷ cs) c = ap (λ r. d.resolve ∷ r) (on_value-append cs c)

put-Handlers :
    (p q : ℕ) (pr old : Promise) (hs : List (Option ℕ)) (s : EventModule)
    → get p s ≡ some old
    → on_value pr.handlers ≡ on_value old.handlers
    → Handlers q hs s
    → Handlers q hs (put p pr s)
put-Handlers p q pr old hs s e keeps (was, eq, hw) = elim (ℕ_discrete p q) [
  | yes here ↦
      let one : old ≡ was = cc (e, eq, ap (λ x. get x s) here) in
      (
        pr,
        subst (λ x. get x (put p pr s) ≡ some pr) here (get-put p s.promises pr e),
        keeps ∙ ap (λ x. on_value x.handlers) one ∙ hw,
      )
  | no away ↦ (was, get_elem?-set_ne s.promises pr away ∙ eq, hw)
]

start-Handlers :
    (p q : ℕ) (hs : List (Option ℕ)) (s : EventModule)
    → Handlers q hs s
    → Handlers q hs (di_promise_start_dispatch p s)
unfolding di_promise_start_dispatch
start-Handlers p q hs s k = elim (Option-cases (get p s)) [
  | inl gone ↦ rw (di_promise_start_dispatch, gone) k
  | inr (pr, e) ↦ elim (Bool-cases pr.is_pending) [
    | inl twice ↦ rw (di_promise_start_dispatch, e, twice) k
    | inr once ↦ elim (Bool-cases s.alive) [
      | inl up ↦
          rw (di_promise_start_dispatch, e, once, up)
            (put-Handlers p q (record pr { is_pending = true }) pr hs (push_pending p s) e refl k)
      | inr down ↦ rw (di_promise_start_dispatch, e, once, down) k
    ]
  ]
]

-- `di_promise_add_handler`, once the array of handlers is written
added-Handlers :
    (p q : ℕ) (c : Closure) (pr : Promise) (hs : List (Option ℕ)) (s : EventModule)
    → get p s ≡ some pr
    → Handlers q hs (put p (record pr { handlers = pr.handlers ++ c ∷ [] }) s)
    → Handlers q hs (di_promise_add_handler p c s)
unfolding di_promise_add_handler
added-Handlers p q c pr hs s e k =
    let added = put p (record pr { handlers = pr.handlers ++ c ∷ [] }) s in
    elim (Bool-cases (is_settled pr)) [
      | inl old ↦ rw (di_promise_add_handler, e, old) (start-Handlers p q hs added k)
      | inr fresh ↦ rw (di_promise_add_handler, e, fresh) k
    ]

-- The promise gets the handler,
pub add-Handlers_here :
    (p : ℕ) (c : Closure) (hs : List (Option ℕ)) (s : EventModule)
    → Handlers p hs s
    → Handlers p (hs ++ c.resolve ∷ []) (di_promise_add_handler p c s)
add-Handlers_here p c hs s (pr, e, hw) =
    let all : Promise = record pr { handlers = pr.handlers ++ c ∷ [] } in
    added-Handlers p p c pr (hs ++ c.resolve ∷ []) s e (
      all,
      get-put p s.promises all e,
      on_value-append pr.handlers c ∙ ap (λ r. r ++ c.resolve ∷ []) hw,
    )

-- and no other does.
pub add-Handlers_away :
    (p q : ℕ) (c : Closure) (hs : List (Option ℕ)) (s : EventModule)
    → p ≢ q
    → Handlers q hs s
    → Handlers q hs (di_promise_add_handler p c s)
unfolding di_promise_add_handler
add-Handlers_away p q c hs s ne (was, eq, hw) = elim (Option-cases (get p s)) [
  | inl gone ↦ rw (di_promise_add_handler, gone) (was, eq, hw)
  | inr (pr, e) ↦ added-Handlers p q c pr hs s e (
    was,
    get_elem?-set_ne s.promises (record pr { handlers = pr.handlers ++ c ∷ [] }) ne ∙ eq,
    hw,
  )
]

pub new-Handlers :
    (q : ℕ) (hs : List (Option ℕ)) (s : EventModule)
    → Handlers q hs s
    → Handlers q hs (di_new_promise s).1
unfolding di_new_promise
new-Handlers q hs s (pr, e, hw) = (pr, get-append s.promises q pr new e, hw)

-- One promise of the list: it gets its handler, and the others follow.
pub placed-Handlers :
    (handler : ℕ → ℕ) (k p q r : ℕ) (ps : List ℕ) (hs : List (Option ℕ)) (s t : EventModule)
    → ((gs : List (Option ℕ))
        → Handlers q gs (
            di_promise_add_handler p
              (record { promise = r; resolve = some (handler k); reject = none })
              (di_new_promise s).1)
        → Handlers q (gs ++ placed handler q (k + 1) ps) t)
    → Handlers q hs s
    → Handlers q (hs ++ placed handler q k (p ∷ ps)) t
placed-Handlers handler k p q r ps hs s t follow now =
    let c : Closure = record { promise = r; resolve = some (handler k); reject = none } in
    let s1 = (di_new_promise s).1 in
    let now1 = new-Handlers q hs s now in
    elim (ℕ_discrete p q) [
      | yes here ↦
          let equal : (p == q) ≡ true = ground (arith, here) in
          let mine : Handlers q (hs ++ some (handler k) ∷ []) (di_promise_add_handler p c s1) =
            subst (λ x. Handlers q (hs ++ some (handler k) ∷ []) (di_promise_add_handler x c s1))
              (sym here) (add-Handlers_here q c hs s1 now1) in
          rw equal (
            rw (← append_assoc hs (some (handler k) ∷ []) (placed handler q (k + 1) ps))
              (follow (hs ++ some (handler k) ∷ []) mine))
      | no away ↦
          let differs : (p == q) ≡ false = ground (arith, away) in
          rw differs (follow hs (add-Handlers_away p q c hs s1 away now1))
    ]
