-- ===== src/Cluster/Directory/Names.antt =====
-- Which names `lcs_comm_subdir` and `lcs_comm_list_files` return.
use mathlib.Core.List.{Perm}
use memory_leak.Prelude.{
  ℕ, ◌+◌, ◌≤◌, ◌<◌, ◌≡◌, ◌⊎◌, inl, inr, refl, true, List, [], ◌∷◌, some, length, arith,
}
use memory_leak.Prelude.Run.{ok, fault, ◌>>=◌, Returns}
use memory_leak.Cluster.Sort as Sort
use memory_leak.Cluster.Sort.Sorted.{IsSorted, quick_sort-IsSorted}
use memory_leak.Cluster.Strings.{strcmp, strcmp-IsOrder}
use memory_leak.Cluster.Directory.{
  quick_sort, Entry, is_folder, is_regular, result_places, comm_subdir, comm_list_files,
}
use memory_leak.Cluster.Directory.Entries.{
  errors, kept, AllFit, listed, read_entries-listed, read_entries-fault,
}

-- With a place for the result and a directory that can be opened, all of whose paths fit, and which
-- has between 1 and 62 directories in it, but for the two that are skipped, `lcs_comm_subdir`
-- returns without fault. It returns their names in the order of `strcmp`, and sets the error if
-- `stat` has failed for some entry.
pub comm_subdir-names :
    (path : List ℕ) (entries : List Entry) (err : ℕ)
    → AllFit path entries
    → 0 < length (kept is_folder entries)
    → length (kept is_folder entries) ≤ result_places
    → Returns (comm_subdir true true path entries err) λ r.
      (names : List (List ℕ)) × (r ≡ (some names, errors entries err))
      × IsSorted strcmp [] names 0 (length names)
      × Perm names (kept is_folder entries)
unfolding comm_subdir listed
comm_subdir-names path entries err f h k =
    let all =
      read_entries-listed is_folder refl path entries record { names = []; err = err } f
        (omega arith) in
    let (names, run, (sorted, perm, len)) =
      quick_sort-IsSorted strcmp [] strcmp-IsOrder (λ x. x) (length (kept is_folder entries) + 1)
        (kept is_folder entries) (λ k. refl) h (omega arith) in
    (
      (some names, errors entries err),
      rw (all, ◌>>=◌, run) refl,
      (names, refl, rw len sorted, perm),
    )

nothing_kept : (names : List (List ℕ)) → length names ≡ 0 → names ≡ []
nothing_kept [] e = refl
nothing_kept (x ∷ names) e = absurd (omega arith)

quick_sort_empty : quick_sort 1 [] 0 0 ≡ fault
unfolding Sort.quick_sort Sort.partition
quick_sort_empty = refl

-- With a place for the result and a directory that can be opened, all of whose paths fit, but which
-- has no directory in it, or more than 62, the two that are skipped not counted,
-- `lcs_comm_subdir` accesses memory out of bounds.
pub comm_subdir-fault :
    (path : List ℕ) (entries : List Entry) (err : ℕ)
    → AllFit path entries
    → (length (kept is_folder entries) ≡ 0) ⊎ (result_places < length (kept is_folder entries))
    → comm_subdir true true path entries err ≡ fault
unfolding comm_subdir listed
comm_subdir-fault path entries err f (inl e) =
    let all =
      read_entries-listed is_folder refl path entries record { names = []; err = err } f
        (omega arith) in
    rw (all, ◌>>=◌, nothing_kept (kept is_folder entries) e, quick_sort_empty) refl
comm_subdir-fault path entries err f (inr k) =
    rw
      (
        read_entries-fault is_folder refl path entries record { names = []; err = err } f
            (omega arith) (omega (arith, k)),
        ◌>>=◌,
      )
      refl

-- With a place for the result and a directory that can be opened, all of whose paths fit, and which
-- has no more than 62 regular files in it, `lcs_comm_list_files` returns their names in the order of the directory.
pub comm_list_files-names :
    (path : List ℕ) (entries : List Entry) (err : ℕ)
    → AllFit path entries
    → length (kept is_regular entries) ≤ result_places
    → comm_list_files true true path entries err
      ≡ ok (some (kept is_regular entries), errors entries err)
unfolding comm_list_files listed
comm_list_files-names path entries err f k =
    rw
      (
        read_entries-listed is_regular refl path entries record { names = []; err = err } f
            (omega arith),
        ◌>>=◌,
      )
      refl
