-- ===== src/Tests/Collector.antt =====
-- The collector: a cycle that nothing holds, beside an object that is held from outside.
use deai.Common.{ℕ, zero, suc, ◌+◌, [], ◌∷◌, true, none, some, ◌≡◌, refl, arith}
use deai.Text.{Text, chars, di_string_eq}
use deai.Value.{Value, one_at, strong, weak, sound}
use deai.Heap.{Object, Heap, deref, mem, find_member, remove_member}
use deai.Heap.Sums.{strong_members, weak_members, total, all_sound}
use deai.Refs.{di_free_value, di_unref_object, fresh}
use deai.Refs.Counts.{Counted, Linked, CellOk, strong_in, weak_in}
use deai.Gc.{mark_roots, scan_roots, drop_revived, di_collect_garbage}
use deai.Gc.Start.{Unmarked, start}
use deai.Gc.Garbage.{Isolated, stages-Isolated}
use deai.Gc.Scan.{mark_of}
use deai.Gc.Spared.{Unheld, stages-collect}
use deai.Tests.Objects.{nobody, idle_dtor}

abbrev link : Text
link = chars (b'l' ∷ [])

abbrev holding : ℕ → Object
holding o = record fresh { members = record { name = link; value = Value.object o } ∷ [] }

-- 0 and 1 hold each other; 2 is held from outside, and holds 3.
abbrev yard : Heap
yard = record {
  cells = some (holding 1) ∷ some (holding 0) ∷ some (holding 3) ∷ some fresh ∷ [];
  unreferred = 0 ∷ 3 ∷ [];
  isolated = [];
}

yard_at :
    (q : ℕ) → CellOk (one_at 2 q + strong_in q yard) (nobody q + weak_in q yard) 0 (deref q yard)
unfolding total strong_members weak_members strong weak all_sound sound
yard_at zero = ground arith
yard_at (suc zero) = ground arith
yard_at (suc (suc zero)) = ground arith
yard_at (suc (suc (suc zero))) = ground arith
yard_at (suc (suc (suc (suc q)))) = ground arith

yard-Linked : (q : ℕ) → mem q yard.unreferred ≡ true → Linked (deref q yard)
unfolding mem
yard-Linked zero i = refl
yard-Linked (suc zero) i = refl
yard-Linked (suc (suc zero)) i = refl
yard-Linked (suc (suc (suc zero))) i = refl
yard-Linked (suc (suc (suc (suc q)))) i = ground (arith, i)

yard-Counted : Counted (one_at 2) nobody nobody yard
yard-Counted = record { at = yard_at; linked = yard-Linked }

yard-Unmarked : Unmarked yard
yard-Unmarked zero ob e = ground (arith, e)
yard-Unmarked (suc zero) ob e = ground (arith, e)
yard-Unmarked (suc (suc zero)) ob e = ground (arith, e)
yard-Unmarked (suc (suc (suc zero))) ob e = ground (arith, e)
yard-Unmarked (suc (suc (suc (suc q)))) ob e = cc

stages-Isolated_example :
    (h1 h2 h3 : Heap) × (mark_roots 11 11 (start yard) ≡ some h1)
    × (scan_roots 11 h1.isolated h1 ≡ some h2)
    × (drop_revived h2.isolated h2 ≡ some h3)
    × Isolated (one_at 2) yard h3
stages-Isolated_example = stages-Isolated 11 yard yard-Counted yard-Unmarked (omega arith)

stages-collect_example :
    (h1 h2 : Heap) × (mark_roots 11 11 (start yard) ≡ some h1)
    × (scan_roots 11 h1.isolated h1 ≡ some h2)
    × ((q : ℕ) → mem q yard.unreferred ≡ true → mark_of q h1 ≡ 1)
    × ((q : ℕ) → mark_of q h1 ≡ 1 → Unheld (one_at 2) yard h1 q → mark_of q h2 ≡ 2)
stages-collect_example = stages-collect 11 yard yard-Counted yard-Unmarked (omega arith)

-- The cycle is freed; the others stay.
collect_runs :
    di_collect_garbage idle_dtor 11 11 yard
    ≡ some (record {
      cells = none ∷ none ∷ some (holding 3) ∷ some fresh ∷ [];
      unreferred = [];
      isolated = [];
    })
unfolding di_collect_garbage find_member remove_member di_string_eq di_free_value di_unref_object
collect_runs = refl
