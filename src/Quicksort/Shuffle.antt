-- ===== src/Quicksort/Shuffle.antt =====
-- Exchanges and rearrangements in an array whose elements fit an `int`.
use memory_leak.Prelude.{ℕ, ◌<◌, ◌≡◌, refl, List, length}
use memory_leak.Prelude.Int.{ℤ, pos}
use memory_leak.Prelude.Run.{ok, ◌>>=◌}
use memory_leak.Prelude.Segment.{load-at, swapped, Shuffle, Shuffle-every}
use memory_leak.Quicksort.{swap}
use memory_leak.Quicksort.Order.{AllInt, IsInt, narrow-IsInt, at}

pub swap-swapped :
    (a : List ℤ) (i j : ℕ)
    → i < length a
    → j < length a
    → AllInt a
    → swap a i j ≡ ok (swapped (pos 0) a i j)
unfolding swap
swap-swapped a i j hi hj ints =
    rw (load-at (pos 0) a i hi, ◌>>=◌, load-at (pos 0) a j hj, narrow-IsInt (at a i) (ints i)) refl

pub Shuffle-AllInt : (l end : ℕ) (a a' : List ℤ) → Shuffle (pos 0) l end a a' → AllInt a → AllInt a'
Shuffle-AllInt l end a a' s = Shuffle-every (pos 0) IsInt s
