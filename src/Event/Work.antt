-- ===== src/Event/Work.antt =====
-- A dispatch of promises, event.c, adds no work.
use deai.Common.{
  true, none, some, ◌++◌, ℕ, ◌+◌, ◌≤◌, false, List, [], ◌∷◌, ◌≡◌, refl, arith, Option-cases, inl,
  inr,
}
use deai.Event.{
  Closure, Promise, EventModule, Outcome, with_value, with_error, Reply, get, put, handler_for,
  di_promise_handler_closure, di_handlers_dispatch, dispatch_outcome, clear_pending,
  di_promise_dispatch, di_new_promise, new, is_settled, has_some, di_promise_then,
  di_promise_then_inner, di_promise_add_handler,
}
use deai.Event.Measure.{
  armed, all_armed, work, no_arms, weight-pending, work-put, handlers-weight, pass_on-work,
  follow-work, armed_by, add-work, weight, weights,
}

module _ (cost : ℕ → ℕ) where
  weights-append :
      (prs : List Promise) (pr : Promise)
      → weights cost (prs ++ pr ∷ []) ≡ weights cost prs + weight cost pr
  unfolding weights
  weights-append [] pr = omega arith
  weights-append (x ∷ prs) pr = omega (arith, weights-append prs pr)

  new-work : (s : EventModule) → work cost (di_new_promise s).1 ≡ work cost s + 1
  unfolding di_new_promise work weight is_settled has_some all_armed
  new-work s = omega (arith, weights-append s.promises new)

  -- What `di_promise_then` adds: a promise, a handler with its cost, and a dispatch at most.
  pub then-work :
      (p h : ℕ) (s : EventModule)
      → (s.alive ≡ true)
      → (q : ℕ) × (s' : EventModule) × (di_promise_then p h s ≡ some (q, s'))
        × (work cost s' ≤ work cost s + cost h + 3)
  unfolding di_promise_then di_promise_then_inner armed
  then-work p h s up =
      let c : Closure = record {
        promise = (di_new_promise s).0;
        resolve = some h;
        reject = none;
      } in
      let s1 = (di_new_promise s).1 in
      (
        (di_new_promise s).0,
        di_promise_add_handler p c s1,
        rw up refl,
        omega (arith, add-work cost p c s1, new-work s),
      )

module _ (cost : ℕ → ℕ) (call : ℕ → Outcome → EventModule → Reply × EventModule) where
  -- A handler of the users adds no more work than it costs.
  abbrev pub Calm : Type 0
  Calm = (h : ℕ) (o : Outcome) (s : EventModule) → work cost (call h o s).1 ≤ work cost s + cost h

  closure-work :
      Calm
      → (c : Closure) (o : Outcome) (s : EventModule)
      → work cost (di_promise_handler_closure call c o s) ≤ work cost s + armed cost c
  unfolding di_promise_handler_closure
  closure-work calm c o s = elim (Option-cases (handler_for o c)) [
    | inl bare ↦
        rw (di_promise_handler_closure, bare) (omega (arith, pass_on-work cost c.promise o s))
    | inr (h, e) ↦
        rw (di_promise_handler_closure, e)
          (omega (
            arith,
            calm h o s,
            armed_by cost o c e,
            follow-work cost c.promise (call h o s).0 (call h o s).1,
          ))
  ]

  handlers-work :
      Calm
      → (cs : List Closure) (o : Outcome) (s : EventModule)
      → work cost (di_handlers_dispatch call cs o s) ≤ work cost s + all_armed cost cs
  unfolding di_handlers_dispatch all_armed
  handlers-work calm [] o s = omega arith
  handlers-work calm (c ∷ cs) o s = omega (
    arith,
    handlers-work calm cs o (di_promise_handler_closure call c o s),
    closure-work calm c o s,
  )

  log-work :
      (e : ℕ) (s : EventModule) → work cost (record s { unhandled = e ∷ s.unhandled }) ≡ work cost s
  unfolding work
  log-work e s = refl

  rejection-work :
      Calm
      → (e : ℕ) (cs : List Closure) (s : EventModule)
      → work cost (elim cs [
        | [] ↦ record s { unhandled = e ∷ s.unhandled }
        | c ∷ ds ↦ di_handlers_dispatch call (c ∷ ds) (with_error e) s
      ])
        ≤ work cost s + all_armed cost cs
  rejection-work calm e [] s = omega (arith, log-work e s)
  rejection-work calm e (c ∷ cs) s = handlers-work calm (c ∷ cs) (with_error e) s

  outcome-work :
      Calm
      → (pr : Promise) (s : EventModule)
      → work cost (dispatch_outcome call pr s) ≤ work cost s + all_armed cost pr.handlers
  unfolding dispatch_outcome
  outcome-work calm pr s = elim (Option-cases pr.resolved) [
    | inr (v, e) ↦ rw (dispatch_outcome, e) (handlers-work calm pr.handlers (with_value v) s)
    | inl bare ↦ elim (Option-cases pr.rejected) [
      | inl open_ ↦ rw (dispatch_outcome, bare, open_) (omega arith)
      | inr (x, e) ↦ rw (dispatch_outcome, bare, e) (rejection-work calm x pr.handlers s)
    ]
  ]

  clear-work : (p : ℕ) (s : EventModule) → work cost (clear_pending p s) ≡ work cost s
  unfolding clear_pending
  clear-work p s = elim (Option-cases (get p s)) [
    | inl gone ↦ rw (clear_pending, gone) refl
    | inr (pr, e) ↦
        rw (clear_pending, e)
          (omega (
            arith,
            work-put cost p (record pr { is_pending = false }) s e,
            weight-pending cost pr false,
          ))
  ]

  -- A dispatch leaves no more work than there was.
  pub dispatch-work :
      Calm → (p : ℕ) (s : EventModule) → work cost (di_promise_dispatch call p s) ≤ work cost s
  unfolding di_promise_dispatch
  dispatch-work calm p s = elim (Option-cases (get p s)) [
    | inl gone ↦ rw (di_promise_dispatch, gone) (omega arith)
    | inr (pr, e) ↦
        let bare = put p (record pr { handlers = [] }) s in
        rw (di_promise_dispatch, e)
          (omega (
            arith,
            clear-work p (dispatch_outcome call pr bare),
            outcome-work calm pr bare,
            work-put cost p (record pr { handlers = [] }) s e,
            handlers-weight cost pr [],
            no_arms cost,
          ))
  ]
