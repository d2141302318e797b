-- ===== src/Cluster/Slots.antt =====
-- cluster/quicksort/main.c: `quick_sort_non_recursive_improve`, which keeps the segments to do in
-- two arrays, one of their first and one of their last indices. An array has as many places as the
-- segment to sort has elements; a write behind them is a fault.
pub mod Places
pub mod Same
use Prim.Native.Nat.{Ordering}
use memory_leak.Prelude.{
  ℕ, zero, suc, ◌+◌, ◌-◌, Bool, true, false, List, [], ◌∷◌, ltb, if◌then◌else◌, length, set,
  replicate,
}
use memory_leak.Prelude.Run.{Run, ok, fault, diverged, ◌>>=◌}
use memory_leak.Prelude.Segment.{load}
use memory_leak.Cluster.Sort.{partition}

pub record Slots : Type 0 where
  pub arr_low : List ℕ
  pub arr_hi : List ℕ
  pub total : ℕ

-- `a[k] = v`
unfoldable pub store : List ℕ → (k v : ℕ) → Run (List ℕ)
store a k v = if ltb k (length a) then ok (set a k v) else fault

-- `total++; arr_low[total] = low; arr_hi[total] = hi;`
unfoldable pub push : Slots → (low hi : ℕ) → Run Slots
push s low hi = do
  lows ← store s.arr_low (s.total + 1) low
  his ← store s.arr_hi (s.total + 1) hi
  ok record { arr_low = lows; arr_hi = his; total = s.total + 1 }

-- `if (tmp_low < j - 1)` and `if (j < tmp_hi)`
unfoldable pub push_left : Slots → (low j : ℕ) → Run Slots
push_left s low j = let pushed = push s low (j - 1) in if ltb low (j - 1) then pushed else ok s

unfoldable pub push_right : Slots → (j hi : ℕ) → Run Slots
push_right s j hi = let pushed = push s j hi in if ltb j hi then pushed else ok s

module _ {ℓ} {A : Type ℓ} (f : A → A → Ordering) (keep : A → A) where
  -- `while (arr_hi[jump] > 0)`, with fuel.
  unfoldable pub drain_slots : (fuel jump : ℕ) → Slots → List A → Run (List A)
  drain_slots zero jump s a = diverged
  drain_slots (suc fuel) jump s a = load s.arr_hi jump >>= λ hi.
      let round = load s.arr_low jump >>= λ low. partition f keep a low (suc hi) >>= λ r.
      push_left s low r.1 >>= λ s'.
      push_right s' r.1 hi >>= λ s''. drain_slots fuel (jump + 1) s'' r.0 in
      if ltb 0 hi then round else ok a

  -- `quick_sort_non_recursive_improve(arr, low, hi)` with `end` = hi + 1.
  unfoldable pub quick_sort_non_recursive_improve :
      (fuel : ℕ) → List A → (low end : ℕ) → Run (List A)
  quick_sort_non_recursive_improve fuel a low end =
      let loop = store (replicate (end - low) 0) 0 low >>= λ lows.
      store (replicate (end - low) 0) 0 (end - 1) >>= λ his.
      drain_slots fuel 0 record { arr_low = lows; arr_hi = his; total = 0 } a in
      if ltb (low + 1) end then loop else ok a
