-- ===== src/Cluster/Ints.antt =====
-- cluster/quicksort/main.c: the sorts of an array of `long int`s. `data[j] >= pivot` and the other
-- tests are those of a compare function; a swap goes through an `int`.
use Prim.Native.Nat.{Ordering, compare}
use memory_leak.Prelude.{ℕ, ◌≡◌, refl, ap, true, List, arith}
use memory_leak.Prelude.Int.{ℤ, pos, negsuc}
use memory_leak.Prelude.Run.{Run}
use memory_leak.Quicksort.{narrow}
use memory_leak.Cluster.Sort as Sort
use memory_leak.Cluster.Slots as Slots
use memory_leak.Cluster.Sort.{at_most}
use memory_leak.Cluster.Sort.Order.{IsOrder, opposite}
use memory_leak.Cluster.Sort.Agreement.{IsStrict}

abbrev pub int_compare : ℤ → ℤ → Ordering
int_compare (pos m) (pos n) = compare m n
int_compare (pos m) (negsuc n) = Ordering.gt
int_compare (negsuc m) (pos n) = Ordering.lt
int_compare (negsuc m) (negsuc n) = compare n m

-- The program's functions; `end` is hi + 1.
abbrev pub partition : List ℤ → (low end : ℕ) → Run (List ℤ × ℕ)
partition = Sort.partition int_compare narrow

abbrev pub quick_sort : (fuel : ℕ) → List ℤ → (low end : ℕ) → Run (List ℤ)
quick_sort = Sort.quick_sort int_compare narrow

abbrev pub quick_sort_non_recursive : (fuel : ℕ) → List ℤ → (low end : ℕ) → Run (List ℤ)
quick_sort_non_recursive = Sort.quick_sort_non_recursive int_compare narrow

abbrev pub quick_sort_non_recursive_improve : (fuel : ℕ) → List ℤ → (low end : ℕ) → Run (List ℤ)
quick_sort_non_recursive_improve = Slots.quick_sort_non_recursive_improve int_compare narrow

int_compare_flip : (a b : ℤ) → int_compare b a ≡ opposite (int_compare a b)
int_compare_flip (pos m) (pos n) = ground arith
int_compare_flip (pos m) (negsuc n) = refl
int_compare_flip (negsuc m) (pos n) = refl
int_compare_flip (negsuc m) (negsuc n) = ground arith

int_compare_trans :
    (a b c : ℤ)
    → at_most (int_compare a b) ≡ true
    → at_most (int_compare b c) ≡ true
    → at_most (int_compare a c) ≡ true
int_compare_trans (pos a) (pos b) (pos c) h k = ground arith
int_compare_trans (pos a) (pos b) (negsuc c) h k = k
int_compare_trans (pos a) (negsuc b) c h k = cc
int_compare_trans (negsuc a) (pos b) (pos c) h k = refl
int_compare_trans (negsuc a) (pos b) (negsuc c) h k = cc
int_compare_trans (negsuc a) (negsuc b) (pos c) h k = refl
int_compare_trans (negsuc a) (negsuc b) (negsuc c) h k = ground arith

pub int_compare-IsOrder : IsOrder int_compare
int_compare-IsOrder = record { flip = int_compare_flip; trans = int_compare_trans }

compare_le : (m n : ℕ) → at_most (compare m n) ≡ true → at_most (compare n m) ≡ true → m ≡ n
compare_le m n h k = ground arith

pub int_compare-IsStrict : IsStrict int_compare int_compare-IsOrder
int_compare-IsStrict (pos m) (pos n) h k = ap pos (compare_le m n h k)
int_compare-IsStrict (pos m) (negsuc n) h k = cc
int_compare-IsStrict (negsuc m) (pos n) h k = cc
int_compare-IsStrict (negsuc m) (negsuc n) h k = ap negsuc (compare_le m n k h)
