-- ===== src/Quicksort/Tests.antt =====
-- `Quicksort` at concrete arrays.
use mathlib.Core.List.{Perm}
use memory_leak.Prelude.{ℕ, zero, suc, ◌≤◌, ◌<◌, ◌≡◌, refl, List, [], ◌∷◌, length, arith}
use memory_leak.Prelude.Int.{ℤ, pos, negsuc}
use memory_leak.Prelude.Run.{ok, Returns}
use memory_leak.Quicksort.{
  partition, quicksort, quick_sort_non_recursive, unit_test, cross, settle, settle_met, settle_left,
  swap, scan_down, scan_up,
}
use memory_leak.Quicksort.Order.{Le, at, AllInt}
use memory_leak.Quicksort.Partition.{Partitioned, partition-Partitioned}
use memory_leak.Quicksort.Sorted.{IsSorted, quicksort-IsSorted}
use memory_leak.Quicksort.Segments.{IsLeast, quick_sort_non_recursive-IsLeast}

abbrev mixed : List ℤ
mixed = pos 3 ∷ negsuc 4 ∷ pos 7 ∷ pos 3 ∷ []

quicksort-mixed : quicksort 5 mixed 0 4 ≡ ok (negsuc 4 ∷ pos 3 ∷ pos 3 ∷ pos 7 ∷ [])
unfolding quicksort partition cross settle settle_met settle_left swap scan_down scan_up
quicksort-mixed = refl

unit_test-mixed : unit_test mixed ≡ 0
unfolding unit_test
unit_test-mixed = refl

mixed-AllInt : AllInt mixed
mixed-AllInt zero = omega arith
mixed-AllInt (suc zero) = omega arith
mixed-AllInt (suc (suc zero)) = omega arith
mixed-AllInt (suc (suc (suc zero))) = omega arith
mixed-AllInt (suc (suc (suc (suc k)))) = omega arith

partition-Partitioned_example : Returns (partition mixed 0 3) (Partitioned 0 3 mixed)
partition-Partitioned_example =
    partition-Partitioned 0 3 mixed (omega arith) (omega arith) mixed-AllInt

quicksort-IsSorted_example :
    Returns
      (quicksort 5 mixed 0 4)
      λ a'. IsSorted a' 0 (length a') × Perm a' mixed × (unit_test a' ≡ 1)
quicksort-IsSorted_example = quicksort-IsSorted 5 mixed mixed-AllInt (omega arith)

-- Behind the first element the order is wrong.
abbrev rest_unsorted : List ℤ
rest_unsorted = pos 1 ∷ pos 5 ∷ pos 2 ∷ []

rest_unsorted_least : (k : ℕ) → 0 < k → k ≤ 2 → Le (at rest_unsorted 0) (at rest_unsorted k)
rest_unsorted_least zero h h' = refl
rest_unsorted_least (suc zero) h h' = refl
rest_unsorted_least (suc (suc zero)) h h' = refl
rest_unsorted_least (suc (suc (suc k))) h h' = absurd (omega arith)

rest_unsorted-IsLeast : IsLeast rest_unsorted 0 2
rest_unsorted-IsLeast = record {
  more = omega arith;
  room = omega arith;
  least = rest_unsorted_least;
  strict = refl;
}

quick_sort_non_recursive-IsLeast_example :
    quick_sort_non_recursive 9 rest_unsorted 0 2 ≡ ok rest_unsorted
quick_sort_non_recursive-IsLeast_example =
    quick_sort_non_recursive-IsLeast rest_unsorted 0 2 rest_unsorted-IsLeast 9 (omega arith)
