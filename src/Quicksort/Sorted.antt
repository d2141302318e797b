-- ===== src/Quicksort/Sorted.antt =====
-- `quicksort` ends and sorts.
use mathlib.Core.List.{Perm}
use native.Mathlib.Decide.{ℕ_discrete, dec_lt}
use memory_leak.Prelude.{
  ℕ, zero, suc, ◌+◌, ◌-◌, ◌≤◌, ◌<◌, ◌≡◌, inl, inr, refl, ◌∙◌, false, List, [], ◌∷◌, ltb, length,
  arith, Bool-cases, ltb→lt, ltb→le,
}
use memory_leak.Prelude.Int.{ℤ, pos}
use memory_leak.Prelude.Run.{◌>>=◌, Returns}
use memory_leak.Quicksort.{gtb, quicksort, unit_test}
use memory_leak.Quicksort.Order.{Le, Le_refl, Le_trans, at, AllInt}
use memory_leak.Prelude.Segment.{Shuffle-all, Shuffle, Shuffle-refl, Shuffle-trans, Shuffle-widen}
use memory_leak.Quicksort.Shuffle.{Shuffle-AllInt}
use memory_leak.Quicksort.Partition.{Partitioned, partition-Partitioned}

-- The segment from `l` up to `end` ascends.
abbrev pub IsSorted : List ℤ → (l end : ℕ) → Type 0
IsSorted a l end = (i j : ℕ) → l ≤ i → i ≤ j → j < end → Le (at a i) (at a j)

IsSorted-short : (a : List ℤ) (l end : ℕ) → end ≤ l + 1 → IsSorted a l end
IsSorted-short a l end h i j p q r = let e : j ≡ i = omega arith in rw e (Le_refl (at a i))

-- Sorted parts on the right sides of an element make a sorted segment.
IsSorted-join :
    (a : List ℤ) (l m end : ℕ)
    → IsSorted a l m
    → IsSorted a (m + 1) end
    → ((k : ℕ) → l ≤ k → k < m → Le (at a k) (at a m))
    → ((k : ℕ) → m + 1 ≤ k → k < end → Le (at a m) (at a k))
    → IsSorted a l end
IsSorted-join a l m end s t below above i j p q r = elim (dec_lt j m) [
  | yes h ↦ s i j p q h
  | no h ↦ elim (dec_lt m i) [
    | yes h' ↦ t i j (omega arith) q r
    | no h' ↦
        Le_trans (at a i) (at a m) (at a j)
          (elim (ℕ_discrete i m) [
            | yes e ↦ rw e (Le_refl (at a m))
            | no e ↦ below i p (omega arith)
          ])
          (elim (ℕ_discrete j m) [
            | yes e ↦ rw e (Le_refl (at a m))
            | no e ↦ above j (omega arith) r
          ])
  ]
]

-- What `quicksort` promises of a segment.
pub record Sorts (l end : ℕ) (a a' : List ℤ) : Type 0 where
  pub sorted : IsSorted a' l end
  pub shuffle : Shuffle (pos 0) l end a a'

-- The part before the index is sorted, then the part behind it.
Sorts-join :
    (l end m : ℕ) (a b c d : List ℤ)
    → l ≤ m
    → m < end
    → Partitioned l (end - 1) a (b, m)
    → Sorts l m b c
    → Sorts (m + 1) end c d
    → Sorts l end a d
Sorts-join l end m a b c d h h' p s t = record {
  sorted = IsSorted-join d l m end first t.sorted below above;
  shuffle =
      Shuffle-trans (pos 0) l end a c d
        (Shuffle-trans (pos 0) l end a b c (rw whole at p.shuffle)
          (Shuffle-widen (pos 0) l end l m b c (omega arith) (omega arith) s.shuffle))
        (Shuffle-widen (pos 0) l end (m + 1) end c d (omega arith) (omega arith) t.shuffle);
}
  where
    whole : end - 1 + 1 ≡ end
    whole = omega arith

    same_d : (k : ℕ) → k ≤ m → at d k ≡ at c k
    same_d k q = t.shuffle.outside k (inl (omega arith))

    same_c : (k : ℕ) → m ≤ k → at c k ≡ at b k
    same_c k q = s.shuffle.outside k (inr q)

    pivot : at d m ≡ at b m
    pivot = same_d m (omega arith) ∙ same_c m (omega arith)

    first : IsSorted d l m
    first i j q q' q'' = rw (same_d i (omega arith), same_d j (omega arith)) (s.sorted i j q q' q'')

    below : (k : ℕ) → l ≤ k → k < m → Le (at d k) (at d m)
    below k q q' =
        rw (same_d k (omega arith), pivot)
          (Shuffle-all (pos 0) (λ x. Le x (at b m)) s.shuffle p.below k q q')

    above : (k : ℕ) → m + 1 ≤ k → k < end → Le (at d m) (at d k)
    above k q q' = rw pivot (
        Shuffle-all (pos 0) (λ x. Le (at b m) x) t.shuffle
          (λ i o o'. rw (same_c i (omega arith)) (p.above i (omega arith) (omega arith))) k q q')

quicksort-Sorts :
    (fuel : ℕ) (a : List ℤ) (l end : ℕ)
    → end ≤ length a
    → end - l < fuel
    → AllInt a
    → Returns (quicksort fuel a l end) (Sorts l end a)
unfolding quicksort
quicksort-Sorts zero a l end h f ints = absurd (omega arith)
quicksort-Sorts (suc fuel) a l end h f ints = elim (Bool-cases (ltb (l + 1) end)) [
  | inr e ↦ (
    a,
    rw e refl,
    record {
      sorted = IsSorted-short a l end (ltb→le (l + 1) end e);
      shuffle = Shuffle-refl (pos 0) l end a;
    },
  )
  | inl e ↦
      let more = ltb→lt (l + 1) end e in
      let (r, run, p) = partition-Partitioned l (end - 1) a (omega arith) (omega arith) ints in
      let ints' = Shuffle-AllInt l (end - 1 + 1) a r.0 p.shuffle ints in
      let len = p.shuffle.len in
      let (c, run', s) =
        quicksort-Sorts fuel r.0 l r.1 (omega (arith, p.upto, len)) (omega (arith, p.upto)) ints' in
      let (d, run'', t) =
        quicksort-Sorts fuel c (r.1 + 1) end (omega (arith, s.shuffle.len, len))
          (omega (arith, p.from)) (Shuffle-AllInt l r.1 r.0 c s.shuffle ints') in
      (
        d,
        rw (e, run, ◌>>=◌, run') run'',
        Sorts-join l end r.1 a r.0 c d p.from (omega (arith, p.upto)) p s t,
      )
]

-- The program's own test, and ascending neighbours.
unit_test-sorted :
    (a : List ℤ) → ((k : ℕ) → suc k < length a → Le (at a k) (at a (suc k))) → unit_test a ≡ 1
unfolding unit_test
unit_test-sorted [] h = refl
unit_test-sorted (x ∷ []) h = refl
unit_test-sorted (x ∷ y ∷ a) h =
    let first : gtb x y ≡ false = h 0 (omega arith) in
    rw first (unit_test-sorted (y ∷ a) (λ k q. h (suc k) (omega arith)))

-- With elements that fit an `int`, and more rounds than elements, `quicksort` of the whole array
-- ends without fault, its result is the array in ascending order, and passes `unit_test`.
pub quicksort-IsSorted :
    (fuel : ℕ) (a : List ℤ)
    → AllInt a
    → length a < fuel
    → Returns
        (quicksort fuel a 0 (length a))
        λ a'. IsSorted a' 0 (length a') × Perm a' a × (unit_test a' ≡ 1)
quicksort-IsSorted fuel a ints f =
    let (d, run, s) = quicksort-Sorts fuel a 0 (length a) (omega arith) (omega arith) ints in
    let sorted : IsSorted d 0 (length d) = rw s.shuffle.len s.sorted in
    (
      d,
      run,
      (
        sorted,
        s.shuffle.perm,
        unit_test-sorted d (λ k q. sorted k (suc k) (omega arith) (omega arith) q),
      ),
    )
