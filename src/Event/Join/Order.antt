-- ===== src/Event/Join/Order.antt =====
-- The order in which joined promises resolve: event.c, `di_promise_join_handler`.
use deai.Common.{
  ℕ, zero, suc, ◌+◌, ◌≤◌, ◌<◌, true, false, List, [], ◌∷◌, ◌++◌, map, append_assoc, append-nil,
  subst, Option, none, some, ◌≡◌, refl, sym, ap, ◌∙◌, arith, ◌==◌, length, if◌then◌else◌, ◌>>=◌,
  Option-cases, inl, inr,
}
use deai.Common.Int.{ℤ, pos, ◌-ℤ◌}
use deai.Heap.{mem}
use deai.Types.{DiType, type_id}
use deai.Event.{
  Payload, Closure, EventModule, get, put, di_new_promise, di_promise_start_dispatch,
  di_promise_add_handler, di_promise_resolve, di_promise_then, di_promise_then_inner,
}
use deai.Event.Join.Placed.{Handlers, placed, new-Handlers, placed-Handlers}
use deai.Event.Join.{
  Storage, then_all, all_promises, di_join_promises, find_result, gather, resolve_last,
  di_promise_join_handler,
}

-- The numbers from `i` on, so many
abbrev pub upto : ℕ → ℕ → List ℕ
upto i zero = []
upto i (suc n) = i ∷ upto (i + 1) n

-- The indices are new, one after the other, to those that were seen.
abbrev pub AllNew : List ℕ → List ℕ → Type 0
AllNew seen [] = Unit {0}
AllNew seen (i ∷ is) = (mem i seen ≡ false) × AllNew (seen ++ i ∷ []) is

module _ (values : ℕ → Payload) where
  abbrev pub stored : List ℕ → List (ℕ × Payload)
  stored is = map (λ i. (i, values i)) is

  stored-append : (xs : List ℕ) (i : ℕ) → stored (xs ++ i ∷ []) ≡ stored xs ++ (i, values i) ∷ []
  stored-append [] i = refl
  stored-append (x ∷ xs) i = ap (λ r. (x, values x) ∷ r) (stored-append xs i)

  find-stored :
      (i : ℕ) (xs : List ℕ)
      → find_result i (stored xs) ≡ (if mem i xs then some (values i) else none)
  unfolding find_result mem
  find-stored i [] = refl
  find-stored i (x ∷ xs) = ground (arith, find-stored i xs)

  gather-stored :
      (i n : ℕ) (xs : List ℕ)
      → ((j : ℕ) → i ≤ j → j < i + n → mem j xs ≡ true)
      → gather i n (stored xs) ≡ some (map values (upto i n))
  unfolding gather
  gather-stored i zero xs all = refl
  gather-stored i (suc n) xs all =
      let here : mem i xs ≡ true = all i (omega arith) (omega arith) in
      let there = gather-stored (i + 1) n xs (λ j a b. all j (omega arith) (omega arith)) in
      rw (find-stored i xs, here, there) refl

one_less_ℤ : (n : ℕ) → pos (suc n) -ℤ pos 1 ≡ pos n
unfolding ◌-ℤ◌
one_less_ℤ n = ground arith

module _ (tuple_of : List Payload → Payload) (other : EventModule → EventModule) (then_promise : ℕ)
    (values : ℕ → Payload) where
  -- The handlers with these indices are called, and after each the module goes on otherwise.
  unfoldable pub joins : List ℕ → Storage → EventModule → Option (Storage × EventModule)
  unfolding di_promise_join_handler
  joins [] st s = some (st, s)
  joins (i ∷ is) st s = do
    (st', s') ← di_promise_join_handler tuple_of i then_promise (values i) st s
    joins is st' (other s')

  -- The module before the last of so many handlers
  abbrev pub before_last : ℕ → EventModule → EventModule
  before_last zero s = s
  before_last (suc n) s = before_last n (other s)

  handler-first :
      (seen : List ℕ) (i n : ℕ) (total : Option ℤ) (s : EventModule)
      → mem i seen ≡ false
      → di_promise_join_handler tuple_of i then_promise
          (values i)
          (record { results = stored values seen; left = some (pos (suc (suc n))); total = total })
          s
        ≡ some (
          record {
            results = stored values (seen ++ i ∷ []);
            left = some (pos (suc n));
            total = total;
          },
          s,
        )
  unfolding di_promise_join_handler resolve_last
  handler-first seen i n total s new =
      let more : (suc n == 0) ≡ false = ground arith in
      rw (find-stored values i seen, new)
        (rw (one_less_ℤ (suc n)) (rw (more, stored-append values seen i) refl))

  handler-last :
      (seen : List ℕ) (i n : ℕ) (s : EventModule)
      → mem i seen ≡ false
      → ((j : ℕ) → j < n → mem j (seen ++ i ∷ []) ≡ true)
      → di_promise_join_handler tuple_of i then_promise
          (values i)
          (record { results = stored values seen; left = some (pos 1); total = some (pos n) })
          s
        ≡ some (
          record {
            results = stored values (seen ++ i ∷ []);
            left = some (pos 0);
            total = some (pos n);
          },
          di_promise_resolve then_promise (tuple_of (map values (upto 0 n))) s,
        )
  unfolding di_promise_join_handler resolve_last
  handler-last seen i n s new all =
      let full = gather-stored values 0 n (seen ++ i ∷ []) (λ j a b. all j (omega arith)) in
      rw (find-stored values i seen, new)
        (rw (one_less_ℤ 0) (rw (← stored-append values seen i, full) refl))

  joins-run :
      (seen : List ℕ) (i : ℕ) (is : List ℕ) (n : ℕ) (s : EventModule)
      → AllNew seen (i ∷ is)
      → ((j : ℕ) → j < n → mem j (seen ++ i ∷ is) ≡ true)
      → joins
          (i ∷ is)
          (record {
            results = stored values seen;
            left = some (pos (length (i ∷ is)));
            total = some (pos n);
          })
          s
        ≡ some (
          record {
            results = stored values (seen ++ i ∷ is);
            left = some (pos 0);
            total = some (pos n);
          },
          other (
              di_promise_resolve then_promise
                (tuple_of (map values (upto 0 n)))
                (before_last (length is) s)),
        )
  unfolding joins
  joins-run seen i [] n s new all = rw (handler-last seen i n s new.0 all) refl
  joins-run seen i (j ∷ is) n s new all =
      let e : (seen ++ i ∷ []) ++ j ∷ is ≡ seen ++ i ∷ j ∷ is =
        append_assoc seen (i ∷ []) (j ∷ is) in
      rw (handler-first seen i (length is) (some (pos n)) s new.0) (
        joins-run (seen ++ i ∷ []) j is n (other s) new.1 (λ k b. ap (mem k) e ∙ all k b)
        ∙ rw e refl)

start-alive : (p : ℕ) (s : EventModule) → (di_promise_start_dispatch p s).alive ≡ s.alive
unfolding di_promise_start_dispatch
start-alive p s = elim (Option-cases (get p s)) [
  | inl e ↦ rw (di_promise_start_dispatch, e) refl
  | inr (pr, e) ↦ rw (di_promise_start_dispatch, e) (ground arith)
]

add-alive : (p : ℕ) (c : Closure) (s : EventModule) → (di_promise_add_handler p c s).alive ≡ s.alive
unfolding di_promise_add_handler
add-alive p c s = elim (Option-cases (get p s)) [
  | inl e ↦ rw (di_promise_add_handler, e) refl
  | inr (pr, e) ↦
      let added = put p (record pr { handlers = pr.handlers ++ c ∷ [] }) s in
      rw (di_promise_add_handler, e) (ground (arith, start-alive p added))
]

then_all-returns :
    (handler : ℕ → ℕ) (cnt : ℕ) (ps : List ℕ) (s : EventModule)
    → s.alive ≡ true
    → (s' : EventModule) × (then_all handler cnt ps s ≡ some (cnt + length ps, s'))
      × ((q : ℕ) (hs : List (Option ℕ))
          → Handlers q hs s
          → Handlers q (hs ++ placed handler q cnt ps) s')
unfolding then_all di_promise_then di_promise_then_inner di_new_promise
then_all-returns handler cnt [] s a = (
  s,
  ap (λ n. some (n, s)) (omega arith),
  λ q hs k. subst (λ gs. Handlers q gs s) (sym (append-nil hs)) k,
)
then_all-returns handler cnt (p ∷ ps) s a =
    let c : Closure = record {
      promise = (di_new_promise s).0;
      resolve = some (handler cnt);
      reject = none;
    } in
    let next = di_promise_add_handler p c (di_new_promise s).1 in
    let promised : Option (ℕ × EventModule) = some ((di_new_promise s).0, next) in
    let (s', run, each) =
      then_all-returns handler (cnt + 1) ps next (add-alive p c (di_new_promise s).1 ∙ a) in
    (
      s',
      ap (λ b. (if b then promised else none) >>= λ x. then_all handler (cnt + 1) ps x.1) a
          ∙ run
          ∙ ap (λ n. some (n, s')) (omega arith),
      λ q hs k. placed-Handlers handler cnt p q (di_new_promise s).0 ps hs s s' (each q) k,
    )

-- `di_join_promises` of an array of n promises, n > 0, with the module alive, returns a new promise, and
-- adds to each promise, after the handlers that it had, the join handler of every index at which the
-- array has it, in order, and no other; and in whichever order the join handlers are called later, each
-- once and with the module going on in between as it likes, none fails, none but the last resolves
-- the new promise, and the last does, with the value that the handler of index i got at place i.
pub join-Order :
    (tuple_of : List Payload → Payload) (other : EventModule → EventModule) (values : ℕ → Payload)
    (handler : ℕ → ℕ) (empty_array : Payload) (p : ℕ) (ps : List ℕ) (s : EventModule) (i : ℕ)
    (is : List ℕ) (later : EventModule)
    → s.alive ≡ true
    → all_promises (p ∷ ps) s ≡ true
    → length (i ∷ is) ≡ length (p ∷ ps)
    → AllNew [] (i ∷ is)
    → ((j : ℕ) → j < length (p ∷ ps) → mem j (i ∷ is) ≡ true)
    → (ret : ℕ) × (st : Storage) × (st' : Storage) × (s' : EventModule) × (di_join_promises handler
          empty_array DiType.object
          (p ∷ ps)
          s
        ≡ some (ret, st, s'))
      × (ret ≡ length s.promises)
      × ((q : ℕ) (hs : List (Option ℕ))
          → Handlers q hs s
          → Handlers q (hs ++ placed handler q 0 (p ∷ ps)) s')
      × (joins tuple_of other ret values (i ∷ is) st later
          ≡ some (
            st',
            other (
                di_promise_resolve ret
                  (tuple_of (map values (upto 0 (length (p ∷ ps)))))
                  (before_last tuple_of other ret values (length is) later)),
          ))
unfolding di_join_promises type_id di_new_promise
join-Order tuple_of other values handler empty_array p ps s i is later a objects same new all =
    let n = length (p ∷ ps) in
    let ret = length s.promises in
    let (s', run, each) = then_all-returns handler 0 (p ∷ ps) (di_new_promise s).1 a in
    let counted = run ∙ ap (λ k. some (k, s')) (omega arith) in
    let done = joins-run tuple_of other ret values [] i is n later new all in
    (
      ret,
      record { results = []; left = some (pos n); total = some (pos n) },
      record { results = stored values (i ∷ is); left = some (pos 0); total = some (pos n) },
      s',
      rw (objects, counted) refl,
      refl,
      λ q hs k. each q hs (new-Handlers q hs s k),
      ap
            (λ k.
              joins tuple_of other ret values (i ∷ is)
                (record { results = []; left = some (pos k); total = some (pos n) }) later)
            (sym same)
          ∙ done,
    )
