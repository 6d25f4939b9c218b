-- ===== src/Event/Keeping.antt =====
-- Each function on promises, event.c, keeps the outcomes of settled ones.
use deai.Common.{
  ℕ, zero, suc, ◌≡◌, true, false, List, [], ◌∷◌, ◌++◌, Option, none, some, refl, sym, ap, subst,
  ◌∙◌, get_elem?, get_elem?-set_ne, Option-cases, Bool-cases, inl, inr, arith, ℕ_discrete,
}
use deai.Event.{
  Closure, Payload, Promise, EventModule, Outcome, with_value, with_error, Reply, failed, threw,
  returned, plain, promise, get, put, is_settled, di_promise_start_dispatch, push_pending,
  di_promise_add_handler, di_promise_resolve, di_promise_reject, pass_on, follow, clear_pending,
  di_new_promise, di_promise_then_inner, new,
}
use deai.Event.Measure.{get-put}

-- What a settled promise settled to stays, and the promise with it.
abbrev pub Keeps : EventModule → EventModule → Type 0
Keeps s t =
    (p : ℕ) (pr : Promise)
    → get p s ≡ some pr
    → is_settled pr ≡ true
    → (later : Promise) × (get p t ≡ some later)
      × (later.resolved ≡ pr.resolved)
      × (later.rejected ≡ pr.rejected)
      × (is_settled later ≡ true)

pub same : (s : EventModule) → Keeps s s
same s p pr e i = (pr, e, refl, refl, i)

pub then_ : (s t u : EventModule) → Keeps s t → Keeps t u → Keeps s u
then_ s t u k l p pr e i =
    let (mid, e1, r1, j1, i1) = k p pr e i in
    let (late, e2, r2, j2, i2) = l p mid e1 i1 in (late, e2, r2 ∙ r1, j2 ∙ j1, i2)

settled_as :
    (a b : Promise)
    → a.resolved ≡ b.resolved
    → a.rejected ≡ b.rejected
    → is_settled a ≡ is_settled b
unfolding is_settled
settled_as a b e f = rw (e, f) refl

same_promise :
    (s : EventModule) {p q : ℕ} {a b : Promise}
    → get q s ≡ some b
    → get p s ≡ some a
    → q ≡ p
    → a ≡ b
same_promise s e f h = cc

-- A write keeps outcomes, unless it changes that of a settled promise.
pub put-Keeps :
    (q : ℕ) (pr old : Promise) (s : EventModule)
    → get q s ≡ some old
    → (is_settled old ≡ true → (pr.resolved ≡ old.resolved) × (pr.rejected ≡ old.rejected))
    → Keeps s (put q pr s)
put-Keeps q pr old s e k p was ep i = elim (ℕ_discrete q p) [
  | yes here ↦
      let one : was ≡ old = same_promise s e ep here in
      let (r, j) = k (ap is_settled (sym one) ∙ i) in
      (
        pr,
        subst (λ x. get x (put q pr s) ≡ some pr) here (get-put q s.promises pr e),
        r ∙ ap (λ x. x.resolved) (sym one),
        j ∙ ap (λ x. x.rejected) (sym one),
        settled_as pr old r j ∙ (ap is_settled (sym one) ∙ i),
      )
  | no away ↦ (was, get_elem?-set_ne s.promises pr away ∙ ep, refl, refl, i)
]

start-Keeps : (p : ℕ) (s : EventModule) → Keeps s (di_promise_start_dispatch p s)
unfolding di_promise_start_dispatch
start-Keeps p s = elim (Option-cases (get p s)) [
  | inl gone ↦ rw (di_promise_start_dispatch, gone) (same s)
  | inr (pr, e) ↦ elim (Bool-cases pr.is_pending) [
    | inl twice ↦ rw (di_promise_start_dispatch, e, twice) (same s)
    | inr once ↦ elim (Bool-cases s.alive) [
      | inl up ↦
          rw (di_promise_start_dispatch, e, once, up)
            (put-Keeps p (record pr { is_pending = true }) pr (push_pending p s) e
              (λ _. (refl, refl)))
      | inr down ↦ rw (di_promise_start_dispatch, e, once, down) (same s)
    ]
  ]
]

-- A write of an unsettled promise, and a dispatch.
fresh-Keeps :
    (p : ℕ) (pr old : Promise) (s : EventModule)
    → get p s ≡ some old
    → is_settled old ≡ false
    → Keeps s (di_promise_start_dispatch p (put p pr s))
fresh-Keeps p pr old s e f =
    then_ s (put p pr s) (di_promise_start_dispatch p (put p pr s))
      (put-Keeps p pr old s e (λ i. cc)) (start-Keeps p (put p pr s))

pub resolve-Keeps : (p : ℕ) (v : Payload) (s : EventModule) → Keeps s (di_promise_resolve p v s)
unfolding di_promise_resolve
resolve-Keeps p v s = elim (Option-cases (get p s)) [
  | inl gone ↦ rw (di_promise_resolve, gone) (same s)
  | inr (pr, e) ↦ elim (Bool-cases (is_settled pr)) [
    | inl old ↦ rw (di_promise_resolve, e, old) (same s)
    | inr fresh ↦
        rw (di_promise_resolve, e, fresh)
          (fresh-Keeps p (record pr { resolved = some v }) pr s e fresh)
  ]
]

pub reject-Keeps : (p x : ℕ) (s : EventModule) → Keeps s (di_promise_reject p x s)
unfolding di_promise_reject
reject-Keeps p x s = elim (Option-cases (get p s)) [
  | inl gone ↦ rw (di_promise_reject, gone) (same s)
  | inr (pr, e) ↦ elim (Bool-cases (is_settled pr)) [
    | inl old ↦ rw (di_promise_reject, e, old) (same s)
    | inr fresh ↦
        rw (di_promise_reject, e, fresh)
          (fresh-Keeps p (record pr { rejected = some x }) pr s e fresh)
  ]
]

pub add-Keeps : (p : ℕ) (c : Closure) (s : EventModule) → Keeps s (di_promise_add_handler p c s)
unfolding di_promise_add_handler
add-Keeps p c s = elim (Option-cases (get p s)) [
  | inl gone ↦ rw (di_promise_add_handler, gone) (same s)
  | inr (pr, e) ↦
      let added : Promise = record pr { handlers = pr.handlers ++ c ∷ [] } in
      let write = put-Keeps p added pr s e (λ _. (refl, refl)) in
      elim (Bool-cases (is_settled pr)) [
        | inl old ↦
            rw (di_promise_add_handler, e, old)
              (then_ s (put p added s) (di_promise_start_dispatch p (put p added s)) write
                (start-Keeps p (put p added s)))
        | inr fresh ↦ rw (di_promise_add_handler, e, fresh) write
      ]
]

pub get-append :
    (prs : List Promise) (p : ℕ) (pr x : Promise)
    → get_elem? prs p ≡ some pr
    → get_elem? (prs ++ x ∷ []) p ≡ some pr
get-append [] p pr x e = cc
get-append (y ∷ prs) zero pr x e = e
get-append (y ∷ prs) (suc p) pr x e = get-append prs p pr x e

pub new-Keeps : (s : EventModule) → Keeps s (di_new_promise s).1
unfolding di_new_promise
new-Keeps s p pr e i = (pr, get-append s.promises p pr new e, refl, refl, i)

pub pass_on-Keeps : (p : ℕ) (o : Outcome) (s : EventModule) → Keeps s (pass_on p o s)
unfolding pass_on
pass_on-Keeps p (with_value v) s = resolve-Keeps p v s
pass_on-Keeps p (with_error x) s = reject-Keeps p x s

pub follow-Keeps : (p : ℕ) (r : Reply) (s : EventModule) → Keeps s (follow p r s)
unfolding follow
follow-Keeps p failed s = same s
follow-Keeps p (threw x) s = reject-Keeps p x s
follow-Keeps p (returned (plain v)) s = resolve-Keeps p (plain v) s
follow-Keeps p (returned (promise q)) s = add-Keeps q _ s

pub clear-Keeps : (p : ℕ) (s : EventModule) → Keeps s (clear_pending p s)
unfolding clear_pending
clear-Keeps p s = elim (Option-cases (get p s)) [
  | inl gone ↦ rw (clear_pending, gone) (same s)
  | inr (pr, e) ↦
      rw (clear_pending, e)
        (put-Keeps p (record pr { is_pending = false }) pr s e (λ _. (refl, refl)))
]

pub ended : (s t : EventModule) → some s ≡ some t → Keeps s t
ended s t e = subst (λ o. Keeps s (elim o [ none ↦ s | some x ↦ x ])) e (same s)

pub chained :
    (p : ℕ) (res rej : Option ℕ) (s : EventModule) {r : ℕ × EventModule}
    → s.alive ≡ true
    → di_promise_then_inner p res rej s ≡ some r
    → some (
      (di_new_promise s).0,
      di_promise_add_handler p
          (record { promise = (di_new_promise s).0; resolve = res; reject = rej })
          (di_new_promise s).1,
    )
      ≡ some r
unfolding di_promise_then_inner
chained p res rej s up run = ground (arith, up, run)
