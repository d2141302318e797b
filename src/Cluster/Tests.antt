-- ===== src/Cluster/Tests.antt =====
-- `Cluster` at concrete rows, arrays and directories.
use mathlib.Core.List.{Perm}
use memory_leak.Prelude.{
  ℕ, zero, suc, ◌+◌, ◌≤◌, ◌<◌, ◌^◌, ◌≡◌, ◌⊎◌, refl, inl, inr, Bool, true, false, if◌then◌else◌,
  List, [], ◌∷◌, length, arith, some, set, replicate,
}
use memory_leak.Prelude.Int.{ℤ, pos, negsuc}
use memory_leak.Prelude.Segment.{load}
use memory_leak.Prelude.Run.{ok, fault, Returns}
use memory_leak.Cluster.Sort.{
  partition, cross, settle, swap, scan_down, scan_up, quick_sort, quick_sort_non_recursive,
  drain_segments, left_segment, right_segment,
}
use memory_leak.Cluster.Sort.Order.{AllKept}
use memory_leak.Cluster.Slots.{
  quick_sort_non_recursive_improve, drain_slots, push_left, push_right, push, store,
}
use memory_leak.Cluster.Slots.Same.{quick_sort_non_recursive_improve-Sorts}
use memory_leak.Cluster.Sort.Sorted.{IsSorted, Sorts, quick_sort-IsSorted}
use memory_leak.Cluster.Sort.Agreement.{quick_sort-quick_sort_non_recursive}
use memory_leak.Cluster.Strings.{strcmp, strcmp-IsOrder}
use memory_leak.Quicksort.{narrow}
use memory_leak.Cluster.Ints.{int_compare, int_compare-IsOrder, int_compare-IsStrict}
use memory_leak.Cluster.Merge.{
  MergeCounting, merge005_list, merge_rows, run_end, add_rows, add_row, add_int,
}
use memory_leak.Cluster.Merge.Totals.{counter, amount, matches, IsCount, Fits, SameTotals}
use memory_leak.Cluster.Merge.Steps.{AllCount}
use memory_leak.Cluster.Merge.Groups.{Ascending}
use memory_leak.Cluster.Merge.Report.{merge005_list-SameTotals}
use memory_leak.Cluster.Directory.{Stat, Entry, comm_subdir}
use memory_leak.Cluster.Directory.Entries.{AllFit}
use memory_leak.Cluster.Directory.Names.{comm_subdir-names, comm_subdir-fault}
use memory_leak.Cluster.Collect.{is_delimiter, read_rows, free_rows, print_rows, hcollect005_sum}
use memory_leak.Cluster.Collect.Decimal.{IsWord}
use memory_leak.Cluster.Collect.Lines.{IsPrintable, AllPrintable, read_rows-print_rows}
use memory_leak.Cluster.Collect.Freed.{hcollect005_sum-freed}

abbrev mixed : List ℤ
mixed = pos 3 ∷ negsuc 4 ∷ pos 7 ∷ pos 3 ∷ []

mixed-AllKept : AllKept narrow (pos 0) mixed
mixed-AllKept zero = refl
mixed-AllKept (suc zero) = refl
mixed-AllKept (suc (suc zero)) = refl
mixed-AllKept (suc (suc (suc zero))) = refl
mixed-AllKept (suc (suc (suc (suc k)))) = refl

quick_sort-mixed :
    quick_sort int_compare narrow 4 mixed 0 4 ≡ ok (negsuc 4 ∷ pos 3 ∷ pos 3 ∷ pos 7 ∷ [])
unfolding quick_sort partition cross settle swap scan_down scan_up
quick_sort-mixed = refl

quick_sort_non_recursive-mixed :
    quick_sort_non_recursive int_compare narrow 4 mixed 0 4
    ≡ ok (negsuc 4 ∷ pos 3 ∷ pos 3 ∷ pos 7 ∷ [])
unfolding quick_sort_non_recursive drain_segments left_segment right_segment partition cross settle
    swap scan_down scan_up
quick_sort_non_recursive-mixed = refl

quick_sort-quick_sort_non_recursive_example :
    Returns
      (quick_sort int_compare narrow 4 mixed 0 4)
      λ a'. quick_sort_non_recursive int_compare narrow 4 mixed 0 4 ≡ ok a'
quick_sort-quick_sort_non_recursive_example =
    quick_sort-quick_sort_non_recursive int_compare int_compare-IsOrder narrow (pos 0) 4 mixed
      int_compare-IsStrict mixed-AllKept (omega arith) (omega arith)

quick_sort_non_recursive_improve-mixed :
    quick_sort_non_recursive_improve int_compare narrow 4 mixed 0 4
    ≡ ok (negsuc 4 ∷ pos 3 ∷ pos 3 ∷ pos 7 ∷ [])
unfolding quick_sort_non_recursive_improve drain_slots push_left push_right push store partition
    cross settle swap scan_down scan_up
quick_sort_non_recursive_improve-mixed = refl

quick_sort_non_recursive_improve-Sorts_example :
    Returns (quick_sort_non_recursive_improve int_compare narrow 4 mixed 0 4) λ a'.
      (quick_sort_non_recursive int_compare narrow 4 mixed 0 4 ≡ ok a')
      × Sorts int_compare (pos 0) 0 4 mixed a'
quick_sort_non_recursive_improve-Sorts_example =
    quick_sort_non_recursive_improve-Sorts int_compare (pos 0) int_compare-IsOrder narrow 4 mixed 0
      4 (omega arith) (omega arith) mixed-AllKept

abbrev names : List (List ℕ)
names = (98 ∷ []) ∷ (97 ∷ 99 ∷ []) ∷ (97 ∷ []) ∷ []

quick_sort-IsSorted_example :
    Returns
      (quick_sort strcmp (λ x. x) 3 names 0 3)
      λ a'. IsSorted strcmp [] a' 0 3 × Perm a' names × (length a' ≡ 3)
quick_sort-IsSorted_example =
    quick_sort-IsSorted strcmp [] strcmp-IsOrder (λ x. x) 3 names (λ k. refl) (omega arith)
      (omega arith)

-- A row of the hour `h` of one day, with all counters n.
abbrev row : (h n : ℕ) → MergeCounting
row h n = record {
  date = 49 ∷ [];
  hour = h ∷ [];
  totalcall = pos n;
  totalfullchannel = pos n;
  viettelauto = pos n;
  viettelfull = pos n;
  mobileauto = pos n;
  mobilefull = pos n;
  vinaauto = pos n;
  vinafull = pos n;
}

abbrev rows : List MergeCounting
rows = row 50 3 ∷ row 49 4 ∷ row 50 5 ∷ []

merge005_list-rows : merge005_list true true rows 3 ≡ ok (row 49 4 ∷ row 50 8 ∷ [])
unfolding merge005_list merge_rows run_end add_rows add_row add_int quick_sort partition cross
    settle swap scan_down scan_up
merge005_list-rows = refl

row-counter : (k h n : ℕ) → (counter k (row h n) ≡ pos n) ⊎ (counter k (row h n) ≡ pos 0)
row-counter zero h n = inl refl
row-counter (suc zero) h n = inl refl
row-counter (suc (suc zero)) h n = inl refl
row-counter (suc (suc (suc zero))) h n = inl refl
row-counter (suc (suc (suc (suc zero)))) h n = inl refl
row-counter (suc (suc (suc (suc (suc zero))))) h n = inl refl
row-counter (suc (suc (suc (suc (suc (suc zero)))))) h n = inl refl
row-counter (suc (suc (suc (suc (suc (suc (suc zero))))))) h n = inl refl
row-counter (suc (suc (suc (suc (suc (suc (suc (suc k)))))))) h n = inr refl

row-IsCount : (h n : ℕ) → IsCount (row h n)
row-IsCount h n k = elim (row-counter k h n) [ inl e ↦ rw e refl | inr e ↦ rw e refl ]

row-amount : (k h n : ℕ) (b : Bool) → (if b then amount (counter k (row h n)) else 0) ≤ n
row-amount k h n false = omega arith
row-amount k h n true = elim (row-counter k h n) [
  | inl e ↦ rw e (omega arith)
  | inr e ↦ rw e (omega arith)
]

rows-AllCount : AllCount rows
rows-AllCount =
    AllCount.more (row-IsCount 50 3)
      (AllCount.more (row-IsCount 49 4) (AllCount.more (row-IsCount 50 5) AllCount.none))

rows-Fits : Fits rows
rows-Fits k x = omega (
  arith,
  row-amount k 50 3 (matches x (row 50 3)),
  row-amount k 49 4 (matches x (row 49 4)),
  row-amount k 50 5 (matches x (row 50 5)),
)

merge005_list-SameTotals_example :
    Returns (merge005_list true true rows 3) λ out. Ascending out × SameTotals rows out
merge005_list-SameTotals_example =
    merge005_list-SameTotals rows (omega arith) rows-AllCount rows-Fits

row-IsPrintable : (h n : ℕ) → is_delimiter h ≡ false → n < 2 ^ 31 → IsPrintable (row h n)
row-IsPrintable h n e l = record {
  date_word = IsWord.one refl;
  date_fits = omega arith;
  hour_word = IsWord.one e;
  hour_fits = omega arith;
  totalcall = l;
  totalfullchannel = l;
  viettelauto = l;
  viettelfull = l;
  mobileauto = l;
  mobilefull = l;
  vinaauto = l;
  vinafull = l;
}

rows-AllPrintable : AllPrintable rows
rows-AllPrintable = AllPrintable.more (row-IsPrintable 50 3 refl (omega arith)) (
    AllPrintable.more (row-IsPrintable 49 4 refl (omega arith))
      (AllPrintable.more (row-IsPrintable 50 5 refl (omega arith)) AllPrintable.none))

read_rows-print_rows_example : read_rows 4 (print_rows rows) (pos 0) ≡ ok rows
read_rows-print_rows_example = read_rows-print_rows 4 rows (pos 0) rows-AllPrintable (omega arith)

hcollect005_sum-freed_example :
    (out : List MergeCounting) × (read_rows (length (print_rows rows) + 1) (print_rows rows) (pos 0)
      ≡ ok rows)
    × (merge005_list true true rows (length rows) ≡ ok out)
    × (load (set (replicate (length rows) true) 0 false) 0 ≡ ok false)
    × (free_rows (length rows) (replicate (length rows) true) 0 ≡ fault)
    × (hcollect005_sum true true (print_rows rows) ≡ fault)
hcollect005_sum-freed_example =
    hcollect005_sum-freed rows (omega arith) rows-AllPrintable rows-AllCount rows-Fits

-- A directory `b`, a file `c`, the directory itself and a directory `a`.
abbrev entries : List Entry
entries =
    record { d_name = 98 ∷ []; stat = Stat.folder }
    ∷ record { d_name = 99 ∷ []; stat = Stat.regular }
    ∷ record { d_name = 46 ∷ []; stat = Stat.folder }
    ∷ record { d_name = 97 ∷ []; stat = Stat.folder }
    ∷ []

entries-AllFit : AllFit (120 ∷ []) entries
entries-AllFit =
    AllFit.more (omega arith) (
      AllFit.more (omega arith) (AllFit.more (omega arith) (AllFit.more (omega arith) AllFit.none)))

comm_subdir-names_example : Returns (comm_subdir true true (120 ∷ []) entries 0) λ r.
    (found : List (List ℕ)) × (r ≡ (some found, 0))
    × IsSorted strcmp [] found 0 (length found)
    × Perm found ((98 ∷ []) ∷ (97 ∷ []) ∷ [])
comm_subdir-names_example =
    comm_subdir-names (120 ∷ []) entries 0 entries-AllFit (omega arith) (omega arith)

-- A file alone.
abbrev file : List Entry
file = record { d_name = 99 ∷ []; stat = Stat.regular } ∷ []

comm_subdir-fault_example : comm_subdir true true (120 ∷ []) file 0 ≡ fault
comm_subdir-fault_example =
    comm_subdir-fault (120 ∷ []) file 0 (AllFit.more (omega arith) AllFit.none) (inl refl)
