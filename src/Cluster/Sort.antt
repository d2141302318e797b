-- ===== src/Cluster/Sort.antt =====
-- cluster/common/lcs_common.c: `lcs_partition_ext` and `lcs_quick_sort_ext`, and the same steps in
-- cluster/quicksort/main.c with its two sorts that do not recurse. `f` is the callback that
-- compares; of the int it returns only the sign is used. A swap goes through the variable `tmp`:
-- `keep` is what is read back from it, the element itself where it is a pointer. A segment is
-- given by its first index and the one behind its last, since `hi` may be -1.
pub mod Order
pub mod Scan
pub mod Cross
pub mod Partition
pub mod Sorted
pub mod Segments
pub mod Worklist
pub mod Drain
pub mod Agreement
use Prim.Native.Nat.{Ordering}
use memory_leak.Prelude.{
  ℕ, zero, suc, ◌+◌, ◌-◌, Bool, true, false, List, [], ◌∷◌, ◌++◌, ltb, if◌then◌else◌, length, set,
}
use memory_leak.Prelude.Run.{Run, ok, fault, diverged, ◌>>=◌}
use memory_leak.Prelude.Segment.{load}

-- `r <= 0`, `r >= 0` and `r < 0`
abbrev pub at_most : Ordering → Bool
at_most Ordering.lt = true
at_most Ordering.eq = true
at_most Ordering.gt = false

abbrev pub at_least : Ordering → Bool
at_least Ordering.lt = false
at_least Ordering.eq = true
at_least Ordering.gt = true

abbrev pub is_below : Ordering → Bool
is_below Ordering.lt = true
is_below Ordering.eq = false
is_below Ordering.gt = false

-- The segments to do behind the one from `low` up to `end`, for the index `j` that `partition`
-- has returned: `if (low < j - 1)`, `if (j < hi)`.
unfoldable pub left_segment : (low j : ℕ) → List (ℕ × ℕ)
left_segment low j = if ltb low (j - 1) then (low, j) ∷ [] else []

unfoldable pub right_segment : (j end : ℕ) → List (ℕ × ℕ)
right_segment j end = if ltb (j + 1) end then (j, end) ∷ [] else []

module _ {ℓ} {A : Type ℓ} (f : A → A → Ordering) (keep : A → A) where
  -- `tmp = data[i]; data[i] = data[j]; data[j] = tmp;`
  unfoldable pub swap : List A → (i j : ℕ) → Run (List A)
  swap a i j = do x ← load a i; y ← load a j; ok (set (set a i y) j (keep x))

  -- `while (f(pivot, data[j]) <= 0) { if (i < j) j--; else break; }`
  unfoldable pub scan_down : (pivot : A) → List A → (i j : ℕ) → Run ℕ
  scan_down pivot a i zero = load a 0 >>= λ v. ok 0
  scan_down pivot a i (suc j) =
      let rest = scan_down pivot a i j in
      load a (suc j) >>= λ v.
      if at_most (f pivot v) then (if ltb i (suc j) then rest else ok (suc j)) else ok (suc j)

  -- `while (f(pivot, data[i]) >= 0) { if (i < j) i++; else break; }` with `rounds` = j - i
  unfoldable pub scan_up : (pivot : A) → List A → (rounds i : ℕ) → Run ℕ
  scan_up pivot a zero i = load a i >>= λ v. ok i
  scan_up pivot a (suc rounds) i =
      let rest = scan_up pivot a rounds (i + 1) in
      load a i >>= λ v. if at_least (f pivot v) then rest else ok i

  -- `while (i < j)`, with fuel: the array, and `i` and `j` behind the loop.
  unfoldable pub cross : (fuel : ℕ) → (pivot : A) → List A → (i j : ℕ) → Run (List A × ℕ × ℕ)
  cross zero pivot a i j = diverged
  cross (suc fuel) pivot a i j =
      let round = scan_down pivot a i j >>= λ j'. scan_up pivot a (j' - i) i >>= λ i'.
      let exchange = swap a i' j' >>= λ a'. cross fuel pivot a' (i' + 1) (j' - 1) in
      let again = cross fuel pivot a i' j' in if ltb i' j' then exchange else again in
      if ltb i j then round else ok (a, i, j)

  -- `if (f(data[j], pivot) < 0) { swap } return j;`
  unfoldable pub settle : (pivot : A) → List A → (low j : ℕ) → Run (List A × ℕ)
  settle pivot a low j = do
    y ← load a j
    if is_below (f y pivot) then (swap a low j >>= λ a'. ok (a', j)) else ok (a, j)

  -- `lcs_partition_ext(data, low, hi, f)` with `end` = hi + 1. If `hi` is -1, `data[j]` behind
  -- the loop is before the array.
  unfoldable pub partition : List A → (low end : ℕ) → Run (List A × ℕ)
  partition a low zero = fault
  partition a low (suc hi) = do
    pivot ← load a low
    (a', i, j) ← cross (hi + 1) pivot a (low + 1) hi
    settle pivot a' low j

  -- `lcs_quick_sort_ext(arr, low, hi, f)` with `end` = hi + 1, with fuel for the depth of calls.
  unfoldable pub quick_sort : (fuel : ℕ) → List A → (low end : ℕ) → Run (List A)
  quick_sort zero a low end = diverged
  quick_sort (suc fuel) a low end = partition a low end >>= λ r.
      let left = quick_sort fuel r.0 low r.1 in
      (if ltb low (r.1 - 1) then left else ok r.0) >>= λ a'.
      let right = quick_sort fuel a' r.1 end in if ltb (r.1 + 1) end then right else ok a'

  -- `while (root)` of `quick_sort_non_recursive`, with fuel: the segments that wait, in order.
  unfoldable pub drain_segments : (fuel : ℕ) → List (ℕ × ℕ) → List A → Run (List A)
  drain_segments zero segments a = diverged
  drain_segments (suc fuel) [] a = ok a
  drain_segments (suc fuel) ((low, end) ∷ rest) a = partition a low end >>= λ r.
      drain_segments fuel (rest ++ (left_segment low r.1 ++ right_segment r.1 end)) r.0

  unfoldable pub quick_sort_non_recursive : (fuel : ℕ) → List A → (low end : ℕ) → Run (List A)
  quick_sort_non_recursive fuel a low end =
      let loop = drain_segments fuel ((low, end) ∷ []) a in if ltb (low + 1) end then loop else ok a
