-- ===== src/Members/Handlers/Delete.antt =====
-- Deleting a member, object.c: `di_delete_member` keeps the reference counts right, with a deleter or
-- without.
use deai.Common.{ℕ, ◌+◌, ◌*◌, ◌≤◌, ◌<◌, Bool, true, false, Option, none, some, ◌≡◌, refl, arith}
use deai.Errors.{enoent, Result, ok, err}
use deai.Text.{Text, null, chars}
use deai.Value.{strong, weak, sound}
use deai.Heap.{Heap}
use deai.Refs.{di_unref_object}
use deai.Refs.Counts.{Counted, Counted-cong, live}
use deai.Refs.Steps.{◌⊕◌, alive_of}
use deai.Refs.Release.{Tame}
use deai.Refs.Unref.{unref-Releases}
use deai.Members.{di_delete_member_raw, di_remove_member_raw, di_lookup, lookup_in}
use deai.Members.Ledger.{Keeps, delete-Counted}
use deai.Members.Handlers.{
  Called, CallFn, delete_prefix, coded, di_delete_member, call_handler_with_fallback,
}
use deai.Members.Handlers.Obliging.{
  strong_of, weak_of, Handled, Obliging, held_by, Bare, handler-Frees,
}
use deai.Members.Handlers.Get.{Leaves}

coded-owns :
    (rc : Result (Unit {0})) (q : ℕ) → (strong_of (coded rc) q ≡ 0) × (weak_of (coded rc) q ≡ 0)
unfolding strong weak
coded-owns (ok u) q = (refl, refl)
coded-owns (err e) q = (refl, refl)

module _ (run_dtor : ℕ → ℕ → Heap → Option Heap) (n : ℕ) (tame : Tame run_dtor) where
  raw-Keeps :
      (S W D : ℕ → ℕ) (o : ℕ) (name : Text) (h : Heap)
      → 0 < S o
      → Counted S W D h
      → live h ≤ n
      → Keeps S W D (di_delete_member_raw (di_unref_object run_dtor n) o name h) h
  unfolding di_delete_member_raw di_remove_member_raw di_lookup lookup_in
  raw-Keeps S W D o null h pos c l =
      let (ob, e, a) = alive_of o c (omega arith) in (err enoent, h, rw e refl, c, omega arith)
  raw-Keeps S W D o (chars cs) h pos c l =
      let (ob, e, a) = alive_of o c (omega arith) in
      delete-Counted (di_unref_object run_dtor n) n (unref-Releases run_dtor tame n) S W D o cs h ob
        e c l

-- `di_delete_member`, with or without a place for errors, on an object that the caller holds, in a
-- heap whose counts are right, whose members all have a size and whose deleters can be called: if
-- each call of a function, with at most `n` live objects after it, ends, keeps that so, adds at most
-- `g` live objects and gives a sound value, there is room for two calls, as for errors that they make,
-- and destructors drop what they take, `di_delete_member` ends without a fault, by either
-- deleter or by removing the entry, and the counts are right with the reference to the error
-- object, if there is one.
pub delete_member-Counted :
    (run_dtor : ℕ → ℕ → Heap → Option Heap) (call : CallFn) (g n : ℕ) (catching : Bool)
    (S W D : ℕ → ℕ) (o : ℕ) (name : Text) (h : Heap)
    → Tame run_dtor
    → Obliging (λ v. sound v ≡ true) delete_prefix g n call
    → Counted S W D h
    → Handled delete_prefix h
    → 0 < S o
    → live h + 2 * g ≤ n
    → Leaves S W D (di_delete_member call (di_unref_object run_dtor n) catching o name h)
unfolding di_delete_member held_by
delete_member-Counted run_dtor call g n catching S W D o name h tame obliging c k pos l =
    let (found, r, h1, run, c1, l1, z) =
      handler-Frees (λ v. sound v ≡ true) delete_prefix g n call obliging catching S W D o name none
        pos (λ q any_of. absurd (omega arith)) (di_unref_object run_dtor n)
        (unref-Releases run_dtor tame n) (λ v s. s) h c k l in
    finish found r h1 run c1 l1 z
  where
    finish :
        (found : Bool) (r : Called) (h1 : Heap)
        → call_handler_with_fallback call
            (di_unref_object run_dtor n)
            catching
            false
            o
            delete_prefix
            name
            none
            h
          ≡ some (found, r, h1)
        → Counted (S ⊕ strong_of r) (W ⊕ weak_of r) D h1
        → live h1 ≤ n
        → Bare found r
        → Leaves S W D (di_delete_member call (di_unref_object run_dtor n) catching o name h)
    finish true r h1 run c1 l1 z = (r, h1, rw run refl, c1)
    finish false r h1 run c1 l1 z =
        let (rc, h2, go, c2, calm) =
          raw-Keeps run_dtor n tame S W D o name h1 pos
            (Counted-cong (λ q. omega (arith, (z refl q).0)) (λ q. omega (arith, (z refl q).1))
              (λ q. refl) c1)
            l1 in
        (
          coded rc,
          h2,
          rw (run, go) refl,
          Counted-cong (λ q. omega (arith, (coded-owns rc q).0))
              (λ q. omega (arith, (coded-owns rc q).1)) (λ q. refl) c2,
        )
