-- ===== src/Event/Idle.antt =====
-- The idle callback of event.c runs out of promises.
use deai.Common.{
  ℕ, zero, suc, ◌+◌, ◌≤◌, ◌<◌, false, List, [], ◌∷◌, some, ◌≡◌, refl, ap, ◌∙◌, length, arith, ◌⊎◌,
  inl, inr,
}
use deai.Event.{EventModule, Outcome, Reply, di_promise_dispatch, idle_loop, di_idle_cb}
use deai.Event.Measure.{work}
use deai.Event.Work.{Calm, dispatch-work}

pub waiting : (ps : List ℕ) → (ps ≡ []) ⊎ ((p : ℕ) × (rest : List ℕ) × (ps ≡ p ∷ rest))
waiting [] = inl refl
waiting (p ∷ ps) = inr (p, ps, refl)

module _ (call : ℕ → Outcome → EventModule → Reply × EventModule) where
  pub idle_loop-empty :
      (n : ℕ) (s : EventModule) → s.pending ≡ [] → idle_loop call (suc n) s ≡ some s
  unfolding idle_loop
  idle_loop-empty n s e = ground (arith, e)

  pub idle_loop-round :
      (n p : ℕ) (ps : List ℕ) (s : EventModule)
      → s.pending ≡ p ∷ ps
      → idle_loop call (suc n) s
        ≡ idle_loop call n (di_promise_dispatch call p (record s { pending = ps }))
  unfolding idle_loop
  idle_loop-round n p ps s e = ground (arith, e)

module _ (cost : ℕ → ℕ) (call : ℕ → Outcome → EventModule → Reply × EventModule) where
  pop-work :
      (p : ℕ) (ps : List ℕ) (s : EventModule)
      → s.pending ≡ p ∷ ps
      → work cost (record s { pending = ps }) + 1 ≡ work cost s
  unfolding work
  pop-work p ps s e = omega (arith, ap length e)

  Drained : ℕ → EventModule → Type 0
  Drained n s =
      (done : EventModule) × (idle_loop call n s ≡ some done)
      × (done.pending ≡ [])
      × (work cost done ≤ work cost s)

  idle_loop-drains : Calm cost call → (n : ℕ) (s : EventModule) → work cost s < n → Drained n s
  unfolding Drained
  idle_loop-drains calm zero s l = absurd (omega arith)
  idle_loop-drains calm (suc n) s l = elim (waiting s.pending) [
    | inl e ↦ (s, idle_loop-empty call n s e, e, omega arith)
    | inr (p, ps, e) ↦
        let round = di_promise_dispatch call p (record s { pending = ps }) in
        let shorter = dispatch-work cost call calm p (record s { pending = ps }) in
        let (done, run, empty, less) =
          idle_loop-drains calm n round (omega (arith, pop-work p ps s e)) in
        (done, idle_loop-round call n p ps s e ∙ run, empty, omega (arith, pop-work p ps s e))
  ]

  idle-work : (s : EventModule) → work cost (record s { idle = false }) ≡ work cost s
  unfolding work
  idle-work s = refl

  root-work : (s : EventModule) → work cost (record s { rooted = false }) ≡ work cost s
  unfolding work
  root-work s = refl

-- The idle callback ends. `cost h` is what one call of the handler h may add to the work: the promises
-- that wait for a dispatch, the promises that can still be settled, and for each handler of a promise
-- 1 and its cost. Then fuel for one round more than the work is enough: the callback returns, no promise
-- waits any more, the event module is no root, and there is no more work. The handlers of the users may
-- settle promises, return them, and make new ones with handlers of a smaller cost.
pub idle_cb-drains :
    (cost : ℕ → ℕ) (call : ℕ → Outcome → EventModule → Reply × EventModule) (n : ℕ)
    (s : EventModule)
    → Calm cost call
    → work cost s < n
    → (done : EventModule) × (di_idle_cb call n s ≡ some done)
      × (done.pending ≡ [])
      × (done.rooted ≡ false)
      × (work cost done ≤ work cost s)
unfolding di_idle_cb Drained
idle_cb-drains cost call n s calm l =
    let quiet : EventModule = record s { idle = false } in
    let (done, run, empty, less) =
      idle_loop-drains cost call calm n quiet (omega (arith, idle-work cost call s)) in
    (
      record done { rooted = false },
      rw run refl,
      empty,
      refl,
      omega (arith, root-work cost call done, idle-work cost call s),
    )
