-- ===== src/Event/Once.antt =====
-- A promise settles once: event.c.
use deai.Common.{
  ℕ, zero, suc, ◌≡◌, false, List, [], ◌∷◌, Option, none, some, refl, sym, subst, ◌∙◌, Option-cases,
  Bool-cases, inl, inr, >>=-eq-some, arith,
}
use deai.Event.{
  Closure, Payload, Promise, EventModule, Outcome, with_value, with_error, Reply, get, put,
  di_promise_add_handler, di_promise_resolve, di_promise_reject, follow, handler_for,
  di_promise_handler_closure, di_handlers_dispatch, dispatch_outcome, clear_pending,
  di_promise_dispatch, idle_loop, di_idle_cb, di_new_promise, di_promise_then_inner,
}
use deai.Event.Idle.{waiting, idle_loop-empty, idle_loop-round}
use deai.Event.Keeping.{
  Keeps, same, then_, put-Keeps, resolve-Keeps, reject-Keeps, add-Keeps, new-Keeps, pass_on-Keeps,
  follow-Keeps, clear-Keeps, ended, chained,
}

module _ (call : ℕ → Outcome → EventModule → Reply × EventModule) where
  -- A handler of the users goes through these functions.
  abbrev pub Honest : Type 0
  Honest = (h : ℕ) (o : Outcome) (s : EventModule) → Keeps s (call h o s).1

  closure-Keeps :
      Honest
      → (c : Closure) (o : Outcome) (s : EventModule)
      → Keeps s (di_promise_handler_closure call c o s)
  unfolding di_promise_handler_closure
  closure-Keeps honest c o s = elim (Option-cases (handler_for o c)) [
    | inl bare ↦ rw (di_promise_handler_closure, bare) (pass_on-Keeps c.promise o s)
    | inr (h, e) ↦
        rw (di_promise_handler_closure, e)
          (then_ s (call h o s).1 (follow c.promise (call h o s).0 (call h o s).1) (honest h o s)
            (follow-Keeps c.promise (call h o s).0 (call h o s).1))
  ]

  handlers-Keeps :
      Honest
      → (cs : List Closure) (o : Outcome) (s : EventModule)
      → Keeps s (di_handlers_dispatch call cs o s)
  unfolding di_handlers_dispatch
  handlers-Keeps honest [] o s = same s
  handlers-Keeps honest (c ∷ cs) o s =
      let t = di_promise_handler_closure call c o s in
      then_ s t (di_handlers_dispatch call cs o t) (closure-Keeps honest c o s)
        (handlers-Keeps honest cs o t)

  rejection-Keeps :
      Honest
      → (x : ℕ) (cs : List Closure) (s : EventModule)
      → Keeps s (elim cs [
        | [] ↦ record s { unhandled = x ∷ s.unhandled }
        | c ∷ ds ↦ di_handlers_dispatch call (c ∷ ds) (with_error x) s
      ])
  rejection-Keeps honest x [] s = λ p pr e i. (pr, e, refl, refl, i)
  rejection-Keeps honest x (c ∷ cs) s = handlers-Keeps honest (c ∷ cs) (with_error x) s

  outcome-Keeps : Honest → (pr : Promise) (s : EventModule) → Keeps s (dispatch_outcome call pr s)
  unfolding dispatch_outcome
  outcome-Keeps honest pr s = elim (Option-cases pr.resolved) [
    | inr (v, e) ↦ rw (dispatch_outcome, e) (handlers-Keeps honest pr.handlers (with_value v) s)
    | inl bare ↦ elim (Option-cases pr.rejected) [
      | inl open_ ↦ rw (dispatch_outcome, bare, open_) (same s)
      | inr (x, e) ↦ rw (dispatch_outcome, bare, e) (rejection-Keeps honest x pr.handlers s)
    ]
  ]

  dispatch-Keeps : Honest → (p : ℕ) (s : EventModule) → Keeps s (di_promise_dispatch call p s)
  unfolding di_promise_dispatch
  dispatch-Keeps honest p s = elim (Option-cases (get p s)) [
    | inl gone ↦ rw (di_promise_dispatch, gone) (same s)
    | inr (pr, e) ↦
        let bare = put p (record pr { handlers = [] }) s in
        let called = dispatch_outcome call pr bare in
        rw (di_promise_dispatch, e)
          (then_ s bare (clear_pending p called)
            (put-Keeps p (record pr { handlers = [] }) pr s e (λ _. (refl, refl)))
            (then_ bare called (clear_pending p called) (outcome-Keeps honest pr bare)
              (clear-Keeps p called)))
  ]

  loop-Keeps : Honest → (n : ℕ) (s t : EventModule) → idle_loop call n s ≡ some t → Keeps s t
  unfolding idle_loop
  loop-Keeps honest zero s t run = cc
  loop-Keeps honest (suc n) s t run = elim (waiting s.pending) [
    | inl e ↦ ended s t (sym (idle_loop-empty call n s e) ∙ run)
    | inr (p, ps, e) ↦
        let popped : EventModule = record s { pending = ps } in
        let round = di_promise_dispatch call p popped in
        then_ s round t (dispatch-Keeps honest p popped)
          (loop-Keeps honest n round t (sym (idle_loop-round call n p ps s e) ∙ run))
  ]

  idle-Keeps : Honest → (n : ℕ) (s t : EventModule) → di_idle_cb call n s ≡ some t → Keeps s t
  unfolding di_idle_cb
  idle-Keeps honest n s t run =
      let quiet : EventModule = record s { idle = false } in
      let (done, looped, e) =
        >>=-eq-some (idle_loop call n quiet) (λ x. some (record x { rooted = false })) run in
      let kept = loop-Keeps honest n quiet done looped in
      then_ s (record done { rooted = false }) t kept (ended (record done { rooted = false }) t e)

  chain-Keeps :
      (p : ℕ) (res rej : Option ℕ) (s : EventModule) (r : ℕ × EventModule)
      → di_promise_then_inner p res rej s ≡ some r
      → Keeps s r.1
  unfolding di_promise_then_inner
  chain-Keeps p res rej s r run = elim (Bool-cases s.alive) [
    | inr down ↦ absurd (ground (arith, down, run))
    | inl up ↦
        let t = (di_new_promise s).1 in
        let c : Closure = record { promise = (di_new_promise s).0; resolve = res; reject = rej } in
        subst (λ o. Keeps s (elim o [ none ↦ s | some x ↦ x.1 ])) (chained p res rej s up run)
          (then_ s t (di_promise_add_handler p c t) (new-Keeps s) (add-Keeps p c t))
  ]

  -- What the code runs, one call after the other: new promises, settling them, chaining to them,
  -- and the idle callback of the main loop.
  pub data Run : EventModule → EventModule → Type 0 where
    stop : {s : EventModule} → Run s s
    create : {s t : EventModule} → Run (di_new_promise s).1 t → Run s t
    resolve : {s t : EventModule} (p : ℕ) (v : Payload) → Run (di_promise_resolve p v s) t → Run s t
    reject : {s t : EventModule} (p x : ℕ) → Run (di_promise_reject p x s) t → Run s t
    chain :
        {s t : EventModule} (p : ℕ) (res rej : Option ℕ) (r : ℕ × EventModule)
        → di_promise_then_inner p res rej s ≡ some r
        → Run r.1 t
        → Run s t
    iterate : {s t u : EventModule} (n : ℕ) → di_idle_cb call n s ≡ some u → Run u t → Run s t

-- Whatever the code and the handlers do, a promise that is settled stays settled, with the value or
-- the error that it was settled with: later calls of `resolve` and `reject` change nothing. The
-- handlers of the users act through the same functions.
pub settled_once :
    (call : ℕ → Outcome → EventModule → Reply × EventModule) {s t : EventModule}
    → Honest call
    → Run call s t
    → Keeps s t
settled_once call {s} honest stop = same s
settled_once call {s} {t} honest (create run) =
    then_ s (di_new_promise s).1 t (new-Keeps s) (settled_once call honest run)
settled_once call {s} {t} honest (resolve p v run) =
    then_ s (di_promise_resolve p v s) t (resolve-Keeps p v s) (settled_once call honest run)
settled_once call {s} {t} honest (reject p x run) =
    then_ s (di_promise_reject p x s) t (reject-Keeps p x s) (settled_once call honest run)
settled_once call {s} {t} honest (chain p res rej r e run) =
    then_ s r.1 t (chain-Keeps call p res rej s r e) (settled_once call honest run)
settled_once call {s} {t} honest (iterate {u} n e run) =
    then_ s u t (idle-Keeps call honest n s u e) (settled_once call honest run)
