-- ===== src/Cluster/Merge.antt =====
-- cluster/common/lcs_common.c: `lcs_merge_counting_cb` and `lcs_merge005_list`. The list of rows
-- is the array of pointers that the code makes of it: each node is there once. What `fprintf`
-- writes to the file is the list of the rows written, in order. The counters are `int`s: a sum
-- that does not fit is undefined behaviour.
pub mod Totals
pub mod Steps
pub mod Runs
pub mod Groups
pub mod Report
use Prim.Native.Nat.{Ordering}
use memory_leak.Prelude.{
  ℕ, zero, suc, ◌+◌, ◌-◌, ◌^◌, Bool, true, false, List, [], ◌∷◌, ◌++◌, ltb, ◌==◌, if◌then◌else◌,
  length, set,
}
use memory_leak.Prelude.Int.{ℤ, pos, negsuc}
use memory_leak.Prelude.Run.{Run, ok, fault, diverged, ◌>>=◌}
use memory_leak.Prelude.Segment.{load}
use memory_leak.Cluster.Sort.{quick_sort}
use memory_leak.Cluster.Strings.{strcmp, first_difference}

pub record MergeCounting : Type 0 where
  pub date : List ℕ
  pub hour : List ℕ
  pub totalcall : ℤ
  pub totalfullchannel : ℤ
  pub viettelauto : ℤ
  pub viettelfull : ℤ
  pub mobileauto : ℤ
  pub mobilefull : ℤ
  pub vinaauto : ℤ
  pub vinafull : ℤ

-- `if (r) return r;` behind the dates, then the hours
abbrev pub merge_counting_cb : MergeCounting → MergeCounting → Ordering
merge_counting_cb a b = first_difference (strcmp a.date b.date) (strcmp a.hour b.hour)

-- `x += y` on `int`s
unfoldable pub add_int : ℤ → ℤ → Run ℤ
add_int (pos m) (pos n) = if ltb (m + n) (2 ^ 31) then ok (pos (m + n)) else fault
add_int (pos m) (negsuc n) = if ltb n m then ok (pos (m - n - 1)) else ok (negsuc (n - m))
add_int (negsuc m) (pos n) = if ltb m n then ok (pos (n - m - 1)) else ok (negsuc (m - n))
add_int (negsuc m) (negsuc n) = if ltb (m + n + 1) (2 ^ 31) then ok (negsuc (m + n + 1)) else fault

-- The body of `for (l = m + 1; l <= i; ++l)`: `a` is `*arr[m]`, `b` is `*arr[l]`.
unfoldable pub add_row : (a b : MergeCounting) → Run MergeCounting
add_row a b = do
  totalcall ← add_int a.totalcall b.totalcall
  totalfullchannel ← add_int a.totalfullchannel b.totalfullchannel
  viettelauto ← add_int a.viettelauto b.viettelauto
  viettelfull ← add_int a.viettelfull b.viettelfull
  mobileauto ← add_int a.mobileauto b.mobileauto
  mobilefull ← add_int a.mobilefull b.mobilefull
  vinaauto ← add_int a.vinaauto b.vinaauto
  vinafull ← add_int a.vinafull b.vinafull
  ok record {
    date = a.date;
    hour = a.hour;
    totalcall = totalcall;
    totalfullchannel = totalfullchannel;
    viettelauto = viettelauto;
    viettelfull = viettelfull;
    mobileauto = mobileauto;
    mobilefull = mobilefull;
    vinaauto = vinaauto;
    vinafull = vinafull;
  }

-- That loop, with `rounds` = i - m.
unfoldable pub add_rows : (rounds : ℕ) → List MergeCounting → (m l : ℕ) → Run (List MergeCounting)
add_rows zero arr m l = ok arr
add_rows (suc rounds) arr m l = do
  a ← load arr m
  b ← load arr l
  s ← add_row a b
  add_rows rounds (set arr m s) m (l + 1)

-- `if (strcmp(a, b))`
abbrev pub differs : Ordering → Bool
differs Ordering.lt = true
differs Ordering.eq = false
differs Ordering.gt = true

-- `do { ... ++i; } while (1)`, with fuel: the last index whose row has the date and the hour of
-- the row at `i`.
unfoldable pub run_end : (fuel : ℕ) → List MergeCounting → (n i : ℕ) → Run ℕ
run_end zero arr n i = diverged
run_end (suc fuel) arr n i =
    let next = run_end fuel arr n (i + 1) in
    let compared = load arr i >>= λ a. load arr (i + 1) >>= λ b.
    if differs (strcmp a.date b.date)
    then ok i
    else if differs (strcmp a.hour b.hour)
    then ok i
    else next in
    if i == n - 1 then ok i else compared

-- `for (i = 0; i < n; )`, with fuel: the rows written to the file.
unfoldable pub merge_rows : (fuel : ℕ) → List MergeCounting → (n i : ℕ) → Run (List MergeCounting)
merge_rows zero arr n i = diverged
merge_rows (suc fuel) arr n m =
    let round = run_end n arr n m >>= λ i. add_rows (i - m) arr m (m + 1) >>= λ arr'.
    load arr' m >>= λ row. merge_rows fuel arr' n (i + 1) >>= λ rest. ok (row ∷ rest) in
    if ltb m n then round else ok []

-- `lcs_merge005_list(root, n, filepath, err)`: `n` is the number that the caller has counted,
-- `allocated` and `opened` are whether `calloc` and `fopen` succeed. The array has n + 1 places.
unfoldable pub merge005_list :
    (allocated opened : Bool) → (root : List MergeCounting) → (n : ℕ) → Run (List MergeCounting)
merge005_list allocated opened root n =
    let merge =
      quick_sort merge_counting_cb (λ x. x) (length root + 1) root 0 (length root) >>= λ arr.
      if opened then merge_rows (n + 1) arr n 0 else ok [] in
    if allocated then (if ltb (n + 1) (length root) then fault else merge) else ok []
