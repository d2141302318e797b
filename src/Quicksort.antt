-- ===== src/Quicksort.antt =====
-- quicksort/quicksort.c: `partition`, the recursive `quicksort`, and `quick_sort_non_recursive`,
-- which keeps the segments to do in a list. The array is one block of `long int`s; a swap goes
-- through an `int`. Indices are far below 2^31; a segment is given by its first index and the one
-- behind its last, since `h` may be -1.
pub mod Order
pub mod Shuffle
pub mod Scan
pub mod Cross
pub mod Partition
pub mod Sorted
pub mod Segments
mod Tests
use memory_leak.Prelude.{
  ℕ, zero, suc, ◌+◌, ◌-◌, ◌%◌, ◌^◌, Bool, true, false, List, [], ◌∷◌, ◌++◌, ltb, ◌==◌,
  if◌then◌else◌, get_elem?, set,
}
use memory_leak.Prelude.Int.{ℤ, pos, negsuc, to_int}
use memory_leak.Prelude.Run.{Run, ok, diverged, ◌>>=◌, or_fault}

-- a > b
abbrev pub gtb : ℤ → ℤ → Bool
gtb (pos m) (pos n) = ltb n m
gtb (pos m) (negsuc n) = true
gtb (negsuc m) (pos n) = false
gtb (negsuc m) (negsuc n) = ltb m n

-- A `long int` converted to `int`.
abbrev pub narrow : ℤ → ℤ
narrow (pos n) = to_int n
narrow (negsuc n) = to_int (2 ^ 32 - 1 - n % 2 ^ 32)

-- `data[k]`
abbrev pub load : List ℤ → ℕ → Run ℤ
load a k = or_fault (get_elem? a k)

-- `tmp = data[i]; data[i] = data[j]; data[j] = tmp;` with `int tmp`
unfoldable pub swap : List ℤ → (i j : ℕ) → Run (List ℤ)
swap a i j = do x ← load a i; y ← load a j; ok (set (set a i y) j (narrow x))

-- `while (i < j) { if (pivot > data[j]) break; j--; }`
unfoldable pub scan_down : (pivot : ℤ) → List ℤ → (i j : ℕ) → Run ℕ
scan_down pivot a i zero = ok zero
scan_down pivot a i (suc j) =
    let rest = scan_down pivot a i j in
    if ltb i (suc j)
    then (load a (suc j) >>= λ v. if gtb pivot v then ok (suc j) else rest)
    else ok (suc j)

-- `while (i < j) { if (data[i] > pivot) break; i++; }` with `rounds` = j - i
unfoldable pub scan_up : (pivot : ℤ) → List ℤ → (rounds i : ℕ) → Run ℕ
scan_up pivot a zero i = ok i
scan_up pivot a (suc rounds) i =
    let rest = scan_up pivot a rounds (i + 1) in
    load a i >>= λ v. if gtb v pivot then ok i else rest

-- The outer loop of `partition`, with fuel: the array, `i` and `j` behind it.
unfoldable pub cross : (fuel : ℕ) → (pivot : ℤ) → List ℤ → (i j : ℕ) → Run (List ℤ × ℕ × ℕ)
cross zero pivot a i j = diverged
cross (suc fuel) pivot a i j =
    let round = scan_down pivot a i j >>= λ j'. scan_up pivot a (j' - i) i >>= λ i'.
    let exchange = swap a i' j' >>= λ a'. cross fuel pivot a' (i' + 1) (j' - 1) in
    let again = cross fuel pivot a i' j' in if ltb i' j' then exchange else again in
    if ltb i j then round else ok (a, i, j)

-- `if (data[low] > data[j]) { swap } return j;`
unfoldable pub settle_left : List ℤ → (low j : ℕ) → Run (List ℤ × ℕ)
settle_left a low j = do
  x ← load a low
  y ← load a j
  if gtb x y then (swap a low j >>= λ a'. ok (a', j)) else ok (a, j)

-- What stands under `if (i == j)`.
unfoldable pub settle_met : List ℤ → (low j : ℕ) → Run (List ℤ × ℕ)
settle_met a low j = do
  x ← load a low
  y ← load a j
  if gtb x y
      then (swap a low j >>= λ a'. ok (a', j))
      else if gtb y x
      then settle_left a low (j - 1)
      else ok (a, j)

-- The part behind the loop: the array, and the index that is returned.
unfoldable pub settle : List ℤ → (low i j : ℕ) → Run (List ℤ × ℕ)
settle a low i j =
    if i == j
    then settle_met a low j
    else if ltb j i
    then (swap a low j >>= λ a'. ok (a', j))
    else ok (a, j)

unfoldable pub partition : List ℤ → (low hi : ℕ) → Run (List ℤ × ℕ)
partition a low hi = do
  pivot ← load a low
  (a, i, j) ← cross (hi + 1) pivot a (low + 1) hi
  settle a low i j

-- `quicksort(arr, l, h)` with `end` = h + 1.
unfoldable pub quicksort : (fuel : ℕ) → List ℤ → (l end : ℕ) → Run (List ℤ)
quicksort zero a l end = diverged
quicksort (suc fuel) a l end =
    let both = partition a l (end - 1) >>= λ r.
    quicksort fuel r.0 l r.1 >>= λ a'. quicksort fuel a' (r.1 + 1) end in
    if ltb (l + 1) end then both else ok a

-- The segments that `quick_sort_non_recursive` appends behind those that wait, for the index `j`
-- that `partition` has returned; both bounds of a segment belong to it.
unfoldable pub append_segments : List (ℕ × ℕ) → (low hi j : ℕ) → List (ℕ × ℕ)
append_segments rest low hi j = if ltb low j then rest ++ (low, j - 1) ∷ (j, hi) ∷ [] else rest

-- `while (root)`, with fuel.
unfoldable pub drain_segments : (fuel : ℕ) → List (ℕ × ℕ) → List ℤ → Run (List ℤ)
drain_segments zero segments a = diverged
drain_segments (suc fuel) [] a = ok a
drain_segments (suc fuel) ((low, hi) ∷ rest) a =
    partition a low hi >>= λ r. drain_segments fuel (append_segments rest low hi r.1) r.0

unfoldable pub quick_sort_non_recursive : (fuel : ℕ) → List ℤ → (low hi : ℕ) → Run (List ℤ)
quick_sort_non_recursive fuel a low hi =
    let loop = drain_segments fuel ((low, hi) ∷ []) a in if ltb low hi then loop else ok a

-- `unit_test`: 1 if no element is above the next.
unfoldable pub unit_test : List ℤ → ℕ
unit_test [] = 1
unit_test (x ∷ []) = 1
unit_test (x ∷ y ∷ rest) = let tail = unit_test (y ∷ rest) in if gtb x y then 0 else tail
