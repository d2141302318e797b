-- ===== src/Cluster/Collect/Freed.antt =====
-- How `lcs_hcollect005_sum` ends.
use memory_leak.Prelude.{
  ℕ, zero, suc, ◌+◌, ◌≤◌, ◌<◌, ◌≡◌, refl, Bool, true, false, set, List, [], ◌∷◌, length,
  length-append, replicate, arith, ne→==,
}
use memory_leak.Prelude.Int.{pos}
use memory_leak.Prelude.Run.{ok, fault, ◌>>=◌}
use memory_leak.Prelude.Segment.{load}
use memory_leak.Cluster.Merge.{MergeCounting, merge005_list}
use memory_leak.Cluster.Merge.Totals.{Fits}
use memory_leak.Cluster.Merge.Steps.{AllCount}
use memory_leak.Cluster.Merge.Report.{merge005_list-SameTotals}
use memory_leak.Cluster.Collect.{
  separator, print_fields, read_rows, free_rows, hcollect005_sum, print_row, print_rows,
}
use memory_leak.Cluster.Collect.Lines.{AllPrintable, behind_date, read_rows-print_rows}

-- A line has at least one byte.
print_fields-length : (x : List ℕ) (fields : List (List ℕ)) → 0 < length (print_fields (x ∷ fields))
print_fields-length x fields =
    omega (arith, length-append x (separator fields ∷ print_fields fields))

print_row-length : (r : MergeCounting) → 0 < length (print_row r)
unfolding print_row behind_date
print_row-length r = print_fields-length r.date (behind_date r)

print_rows-length : (rows : List MergeCounting) → length rows ≤ length (print_rows rows)
unfolding print_rows
print_rows-length [] = omega arith
print_rows-length (r ∷ rows) = omega (
  arith,
  length-append (print_row r) (print_rows rows),
  print_row-length r,
  print_rows-length rows,
)

-- The first node is read behind its `free`.
free_rows-fault : (n : ℕ) → 0 < n → free_rows n (replicate n true) 0 ≡ fault
unfolding free_rows
free_rows-fault zero h = absurd (omega arith)
free_rows-fault (suc n) h = refl

first_freed : (n : ℕ) → 0 < n → load {A = Bool} (set (replicate n true) 0 false) 0 ≡ ok false
first_freed zero h = absurd (omega arith)
first_freed (suc n) h = refl

-- For a text that `lcs_merge005_list` writes for at least one row, where date and hour of each
-- row are words that fit their arrays, the counters are `int`s that are not negative, and no total
-- of a counter over the rows of one date and hour exceeds an `int`: if memory and the file can be
-- had, the loop of `lcs_hcollect005_sum` returns the rows, `lcs_merge005_list` returns the rows of
-- the sums, and the call ends in undefined behaviour in the loop behind them: its first node, which
-- is there, is no longer allocated when it is read.
pub hcollect005_sum-freed :
    (rows : List MergeCounting)
    → 0 < length rows
    → AllPrintable rows
    → AllCount rows
    → Fits rows
    → (out : List MergeCounting) × (read_rows
          (length (print_rows rows) + 1)
          (print_rows rows)
          (pos 0)
        ≡ ok rows)
      × (merge005_list true true rows (length rows) ≡ ok out)
      × (load (set (replicate (length rows) true) 0 false) 0 ≡ ok false)
      × (free_rows (length rows) (replicate (length rows) true) 0 ≡ fault)
      × (hcollect005_sum true true (print_rows rows) ≡ fault)
unfolding hcollect005_sum
hcollect005_sum-freed rows h p c f =
    let (out, run, _) = merge005_list-SameTotals rows h c f in
    let read =
      read_rows-print_rows (length (print_rows rows) + 1) rows (pos 0) p
        (omega (arith, print_rows-length rows)) in
    let freed = free_rows-fault (length rows) h in
    (
      out,
      read,
      run,
      first_freed (length rows) h,
      freed,
      rw (read, ◌>>=◌, ne→== (length rows) 0 (omega arith), run, freed) refl,
    )
