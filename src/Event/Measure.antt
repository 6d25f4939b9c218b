-- ===== src/Event/Measure.antt =====
-- The work that the promises still hold, and each function on them: event.c.
use deai.Common.{
  ℕ, zero, suc, ◌+◌, ◌≤◌, Bool, true, false, List, [], ◌∷◌, ◌++◌, none, some, ◌≡◌, refl, ap, Option,
  length, get_elem?, set, if◌then◌else◌, arith, Option-cases, Bool-cases, inl, inr,
}
use deai.Event.{
  Closure, Promise, EventModule, Outcome, with_value, with_error, Reply, failed, threw, returned,
  plain, promise, get, put, has_some, is_settled, di_promise_start_dispatch, di_promise_add_handler,
  di_promise_resolve, di_promise_reject, pass_on, follow, handler_for,
}

pub get-put :
    (p : ℕ) (prs : List Promise) (pr : Promise) {old : Promise}
    → get_elem? prs p ≡ some old
    → get_elem? (set prs p pr) p ≡ some pr
get-put p [] pr h = cc
get-put zero (x ∷ prs) pr h = refl
get-put (suc p) (x ∷ prs) pr h = get-put p prs pr h

-- `cost` is what a handler may add to the work when it is called.
module _ (cost : ℕ → ℕ) where
  -- A handler that can still be called counts 1 and what it costs.
  abbrev pub cost_of : Option ℕ → ℕ
  cost_of none = 0
  cost_of (some h) = cost h + 1

  unfoldable pub armed : Closure → ℕ
  armed c = cost_of c.resolve + cost_of c.reject

  unfoldable pub all_armed : List Closure → ℕ
  unfolding armed
  all_armed [] = 0
  all_armed (c ∷ cs) = armed c + all_armed cs

  -- A promise that can still be settled counts 1, and each of its handlers what it counts.
  unfoldable pub weight : Promise → ℕ
  unfolding is_settled all_armed
  weight pr = (if is_settled pr then 0 else 1) + all_armed pr.handlers

  unfoldable pub weights : List Promise → ℕ
  weights [] = 0
  weights (pr ∷ prs) = weight pr + weights prs

  -- What can still lead to a dispatch: the promises that wait for one, those that can be settled, and
  -- the handlers.
  unfoldable pub work : EventModule → ℕ
  unfolding weights
  work s = weights s.promises + length s.pending

  weights-set :
      (prs : List Promise) (p : ℕ) (pr : Promise) {old : Promise}
      → get_elem? prs p ≡ some old
      → weights (set prs p pr) + weight old ≡ weights prs + weight pr
  unfolding weights
  weights-set [] p pr h = cc
  weights-set (x ∷ prs) zero pr h = ground (arith, h)
  weights-set (x ∷ prs) (suc p) pr h = omega (arith, weights-set prs p pr h)

  armed_append : (cs ds : List Closure) → all_armed (cs ++ ds) ≡ all_armed cs + all_armed ds
  unfolding all_armed
  armed_append [] ds = omega arith
  armed_append (c ∷ cs) ds = omega (arith, armed_append cs ds)

  one_armed : (c : Closure) → all_armed (c ∷ []) ≡ armed c
  unfolding all_armed
  one_armed c = omega arith

  pub no_arms : all_armed [] ≡ 0
  unfolding all_armed
  no_arms = refl

  unarmed : (p : ℕ) → armed (record { promise = p; resolve = none; reject = none }) ≡ 0
  unfolding armed
  unarmed p = refl

  pub weight-pending : (pr : Promise) (b : Bool) → weight (record pr { is_pending = b }) ≡ weight pr
  unfolding weight is_settled
  weight-pending pr b = refl

  resolved-weight :
      (pr : Promise) (v : _)
      → is_settled pr ≡ false
      → weight (record pr { resolved = some v }) + 1 ≡ weight pr
  unfolding weight is_settled has_some
  resolved-weight pr v h = ground (arith, h)

  rejected-weight :
      (pr : Promise) (e : ℕ)
      → is_settled pr ≡ false
      → weight (record pr { rejected = some e }) + 1 ≡ weight pr
  unfolding weight is_settled has_some
  rejected-weight pr e h = ground (arith, h)

  -- A write changes the work by what it changes the promise's weight.
  pub work-put :
      (p : ℕ) (pr : Promise) (s : EventModule) {old : Promise}
      → get p s ≡ some old
      → work (put p pr s) + weight old ≡ work s + weight pr
  unfolding work
  work-put p pr s e = omega (arith, weights-set s.promises p pr e)

  -- A dispatch that starts is one more that waits.
  start-work : (p : ℕ) (s : EventModule) → work (di_promise_start_dispatch p s) ≤ work s + 1
  unfolding di_promise_start_dispatch work
  start-work p s = elim (Option-cases (get p s)) [
    | inl gone ↦ rw (di_promise_start_dispatch, gone) (omega arith)
    | inr (pr, e) ↦
        rw (di_promise_start_dispatch, e)
          (ground (
            arith,
            weights-set s.promises p (record pr { is_pending = true }) e,
            weight-pending pr true,
          ))
  ]

  -- To settle a promise turns what can be settled into what waits.
  pub resolve-work : (p : ℕ) (v : _) (s : EventModule) → work (di_promise_resolve p v s) ≤ work s
  unfolding di_promise_resolve
  resolve-work p v s = elim (Option-cases (get p s)) [
    | inl gone ↦ rw (di_promise_resolve, gone) (omega arith)
    | inr (pr, e) ↦ elim (Bool-cases (is_settled pr)) [
      | inl old ↦ rw (di_promise_resolve, e, old) (omega arith)
      | inr fresh ↦
          let settled = record pr { resolved = some v } in
          rw (di_promise_resolve, e, fresh)
            (omega (
              arith,
              start-work p (put p settled s),
              work-put p settled s e,
              resolved-weight pr v fresh,
            ))
    ]
  ]

  reject-work : (p e : ℕ) (s : EventModule) → work (di_promise_reject p e s) ≤ work s
  unfolding di_promise_reject
  reject-work p e s = elim (Option-cases (get p s)) [
    | inl gone ↦ rw (di_promise_reject, gone) (omega arith)
    | inr (pr, i) ↦ elim (Bool-cases (is_settled pr)) [
      | inl old ↦ rw (di_promise_reject, i, old) (omega arith)
      | inr fresh ↦
          let settled = record pr { rejected = some e } in
          rw (di_promise_reject, i, fresh)
            (omega (
              arith,
              start-work p (put p settled s),
              work-put p settled s i,
              rejected-weight pr e fresh,
            ))
    ]
  ]

  pub handlers-weight :
      (pr : Promise) (cs : List Closure)
      → weight (record pr { handlers = cs }) + all_armed pr.handlers ≡ weight pr + all_armed cs
  unfolding weight is_settled
  handlers-weight pr cs = ground arith

  -- A new handler may start a dispatch.
  pub add-work :
      (p : ℕ) (c : Closure) (s : EventModule)
      → work (di_promise_add_handler p c s) ≤ work s + armed c + 1
  unfolding di_promise_add_handler
  add-work p c s = elim (Option-cases (get p s)) [
    | inl gone ↦ rw (di_promise_add_handler, gone) (omega arith)
    | inr (pr, e) ↦
        let added : Promise = record pr { handlers = pr.handlers ++ c ∷ [] } in
        elim (Bool-cases (is_settled pr)) [
          | inl old ↦
              rw (di_promise_add_handler, e, old)
                (omega (
                  arith,
                  start-work p (put p added s),
                  work-put p added s e,
                  handlers-weight pr (pr.handlers ++ c ∷ []),
                  armed_append pr.handlers (c ∷ []),
                  one_armed c,
                ))
          | inr fresh ↦
              rw (di_promise_add_handler, e, fresh)
                (omega (
                  arith,
                  work-put p added s e,
                  handlers-weight pr (pr.handlers ++ c ∷ []),
                  armed_append pr.handlers (c ∷ []),
                  one_armed c,
                ))
        ]
  ]

  pub pass_on-work : (p : ℕ) (o : Outcome) (s : EventModule) → work (pass_on p o s) ≤ work s
  unfolding pass_on
  pass_on-work p (with_value v) s = resolve-work p v s
  pass_on-work p (with_error e) s = reject-work p e s

  pub follow-work : (p : ℕ) (r : Reply) (s : EventModule) → work (follow p r s) ≤ work s + 1
  unfolding follow
  follow-work p failed s = omega arith
  follow-work p (threw e) s = omega (arith, reject-work p e s)
  follow-work p (returned (plain v)) s = omega (arith, resolve-work p (plain v) s)
  follow-work p (returned (promise q)) s =
      let verbatim : Closure = record { promise = p; resolve = none; reject = none } in
      omega (arith, add-work q verbatim s, unarmed p)

  pub armed_by :
      (o : Outcome) (c : Closure) {h : ℕ} → handler_for o c ≡ some h → cost h + 1 ≤ armed c
  unfolding armed
  armed_by (with_value v) c e = omega (arith, ap cost_of e)
  armed_by (with_error x) c e = omega (arith, ap cost_of e)
