-- ===== src/Tests/Roots.antt =====
-- Roots: the roots object (object 0) with one unnamed root (object 1), and another object.
use deai.Common.{
  ℕ, zero, suc, ◌+◌, ◌≤◌, ◌<◌, [], ◌∷◌, ◌++◌, true, false, Option, none, some, ◌≡◌, ◌⊎◌, refl,
  arith, ◌>>=◌,
}
use deai.Text.{Text, chars, di_string_eq, di_string_starts_with}
use deai.Value.{Value, one_at, strong, weak, sound}
use deai.Heap.{Object, Heap, deref, mem, without, find_member, remove_member}
use deai.Heap.Sums.{strong_members, weak_members, total, all_sound}
use deai.Refs.{di_unref_object, di_free_value, fresh}
use deai.Refs.Counts.{Counted, CellOk, strong_in, weak_in, live}
use deai.Refs.Steps.{◌⊕◌, times}
use deai.Members.Handlers.{printed}
use deai.Members.Table.{Distinct}
use deai.Roots.Clear.{others, Clears, clear_roots-Clears}
use deai.Roots.{
  root_prefix, root_key, di_remove_root, clear_root, di_clear_roots, di_add_anonymous_root,
  di_remove_anonymous_root, di_roots_dtor,
}
use deai.Roots.Ledger.{
  Registered, Drops, add_anonymous-Counted, remove_anonymous-Counted, roots_dtor-Counted,
}
use deai.Tests.Objects.{nobody, idle_dtor, idle-Tame}

abbrev registry : Object
registry = record fresh { anonymous_roots = 1 ∷ [] }

abbrev grounds : Heap
grounds = record {
  cells = some registry ∷ some fresh ∷ some fresh ∷ [];
  unreferred = [];
  isolated = [];
}

abbrev held : ℕ → ℕ
held = nobody ⊕ one_at 0 ⊕ one_at 2

grounds_at :
    (q : ℕ)
    → CellOk
        ((held ⊕ times (1 ∷ [])) q + strong_in q grounds)
        (nobody q + weak_in q grounds)
        0
        (deref q grounds)
unfolding total strong_members weak_members strong weak all_sound sound times
grounds_at zero = ground arith
grounds_at (suc zero) = ground arith
grounds_at (suc (suc zero)) = ground arith
grounds_at (suc (suc (suc q))) = ground arith

grounds-Counted : Counted (held ⊕ times (1 ∷ [])) nobody nobody grounds
unfolding mem
grounds-Counted = record { at = grounds_at; linked = λ q i. cc }

add_anonymous-Counted_example :
    ((mem 2 (1 ∷ []) ≡ true) × (di_add_anonymous_root 0 2 grounds ≡ some (false, grounds)))
    ⊎ ((mem 2 (1 ∷ []) ≡ false)
        × ((h' : Heap) × (di_add_anonymous_root 0 2 grounds ≡ some (true, h'))
            × Counted (held ⊕ times (1 ∷ 2 ∷ [])) nobody nobody h'
            × Registered 0 (1 ∷ 2 ∷ []) h'))
add_anonymous-Counted_example =
    add_anonymous-Counted held nobody nobody 0 2 (1 ∷ []) grounds grounds-Counted
      (registry, refl, refl) (omega arith)

remove_anonymous-Counted_example :
    ((mem 1 (1 ∷ []) ≡ false)
      × (di_remove_anonymous_root (di_unref_object idle_dtor 3) 0 1 grounds
          ≡ some (false, grounds)))
    ⊎ ((mem 1 (1 ∷ []) ≡ true)
        × ((h1 : Heap) × (h' : Heap) × Registered 0 (without 1 (1 ∷ [])) h1
            × Counted (held ⊕ times (1 ∷ [])) nobody nobody h1
            × (di_unref_object idle_dtor 3 1 h1 ≡ some h')
            × (di_remove_anonymous_root (di_unref_object idle_dtor 3) 0 1 grounds ≡ some (true, h'))
            × Counted (held ⊕ times (without 1 (1 ∷ []))) nobody nobody h'
            × (live h' ≤ live grounds)))
unfolding total
remove_anonymous-Counted_example =
    remove_anonymous-Counted idle_dtor 3 held nobody nobody 0 1 (1 ∷ []) grounds idle-Tame
      grounds-Counted (registry, refl, refl) (omega arith)

roots_dtor-Counted_example :
    (h1 : Heap) × (h' : Heap) × Registered 0 [] h1
    × Counted (held ⊕ times (1 ∷ [])) nobody nobody h1
    × ((unref : ℕ → Heap → Option Heap) (root : ℕ)
        → di_remove_anonymous_root unref 0 root h1 ≡ some (false, h1))
    × Drops (di_unref_object idle_dtor 3) (1 ∷ []) h1 h'
    × (di_roots_dtor (di_unref_object idle_dtor 3) 0 grounds ≡ some h')
    × Counted held nobody nobody h'
    × (live h' ≤ live grounds)
unfolding total
roots_dtor-Counted_example =
    roots_dtor-Counted idle_dtor 3 held nobody nobody 0 (1 ∷ []) grounds idle-Tame grounds-Counted
      (registry, refl, refl) (omega arith)

abbrev second : Text
second = chars (b'b' ∷ [])

-- Two named roots, the first of which removes the second when it is destroyed
abbrev named : Object
named = record fresh {
  members =
      record { name = root_key (chars (b'a' ∷ [])); value = Value.object 1 }
      ∷ record { name = root_key second; value = Value.object 2 }
      ∷ [];
}

abbrev estate : Heap
estate = record {
  cells = some named ∷ some (record fresh { dtor = some 0 }) ∷ some fresh ∷ [];
  unreferred = [];
  isolated = [];
}

abbrev removing_dtor : ℕ → ℕ → Heap → Option Heap
removing_dtor d o h = di_remove_root (di_unref_object idle_dtor 3) 0 second h >>= λ r. some r.1

-- The entry to go on with was freed by the removal of the first.
clear_faults : di_clear_roots (di_unref_object removing_dtor 4) 4 0 estate ≡ none
unfolding di_clear_roots clear_root di_unref_object printed di_string_eq find_member di_free_value
    di_remove_root remove_member
clear_faults = refl

-- Without such a destructor both are gone.
clear_runs :
    di_clear_roots (di_unref_object idle_dtor 4) 4 0 estate
    ≡ some (record { cells = some fresh ∷ none ∷ none ∷ []; unreferred = []; isolated = [] })
unfolding di_clear_roots clear_root di_unref_object printed di_string_eq find_member di_free_value
    remove_member
clear_runs = refl

-- One named root, which is held besides, and a member that is no root
abbrev mixed : Object
mixed = record fresh {
  members =
      record { name = chars (root_prefix ++ b'a' ∷ []); value = Value.object 1 }
      ∷ record { name = second; value = Value.nil }
      ∷ [];
}

abbrev meadow : Heap
meadow = record {
  cells = some mixed ∷ some (record fresh { ref_count = 2 }) ∷ [];
  unreferred = [];
  isolated = [];
}

abbrev holders : ℕ → ℕ
holders = nobody ⊕ one_at 0 ⊕ one_at 1

meadow_at :
    (q : ℕ)
    → CellOk (holders q + strong_in q meadow) (nobody q + weak_in q meadow) 0 (deref q meadow)
unfolding total strong_members weak_members strong weak all_sound sound
meadow_at zero = ground arith
meadow_at (suc zero) = ground arith
meadow_at (suc (suc q)) = ground arith

meadow-Counted : Counted holders nobody nobody meadow
unfolding mem
meadow-Counted = record { at = meadow_at; linked = λ q i. cc }

mixed-Distinct : Distinct mixed.members
unfolding find_member di_string_eq
mixed-Distinct = (refl, (refl, tt))

second_plain :
    di_string_starts_with second root_prefix ≡ true
    → (p : ℕ) × (Value.nil ≡ Value.object p) × (0 < holders p)
unfolding di_string_starts_with
second_plain e = cc

clear_roots-Clears_example :
    Clears holders nobody nobody 0
      (others mixed.members)
      (di_clear_roots (di_unref_object idle_dtor 2) 2 0 meadow)
clear_roots-Clears_example =
    clear_roots-Clears idle_dtor 1 holders nobody nobody 0 meadow mixed meadow-Counted refl
      mixed-Distinct
      (
        (root_prefix ++ b'a' ∷ [], refl),
        (λ e. (1, refl, omega arith)),
        ((b'b' ∷ [], refl), second_plain, tt),
      )
