-- ===== src/Cluster/Sort/Sorted.antt =====
-- `lcs_quick_sort_ext` ends and sorts.
use Prim.Native.Nat.{Ordering}
use mathlib.Core.List.{Perm}
use native.Mathlib.Decide.{ℕ_discrete, dec_lt}
use memory_leak.Prelude.{
  ℕ, zero, suc, ◌+◌, ◌-◌, ◌≤◌, ◌<◌, ◌≡◌, inl, inr, refl, sym, List, ltb, length, arith, ltb→le,
  le→ltb,
}
use memory_leak.Prelude.Run.{ok, ◌>>=◌, Returns, guarded-Returns}
use memory_leak.Prelude.Segment.{
  at, Shuffle, Shuffle-refl, Shuffle-trans, Shuffle-widen, Shuffle-all,
}
use memory_leak.Cluster.Sort.{quick_sort}
use memory_leak.Cluster.Sort.Order.{IsOrder, AllKept, Le, Le_refl}
use memory_leak.Cluster.Sort.Cross.{AllKept-Shuffle}
use memory_leak.Cluster.Sort.Partition.{Partitioned, partition-Partitioned, partition_single}

module _ {ℓ} {A : Type ℓ} (f : A → A → Ordering) (d : A) where
  -- The segment from `low` up to `end` ascends.
  abbrev pub IsSorted : List A → (low end : ℕ) → Type 0
  IsSorted a low end = (i j : ℕ) → low ≤ i → i ≤ j → j < end → Le f (at d a i) (at d a j)

  -- What a sort promises of a segment.
  pub record Sorts (low end : ℕ) (a a' : List A) : Type ℓ where
    pub sorted : IsSorted a' low end
    pub shuffle : Shuffle d low end a a'

  module _ (o : IsOrder f) where
    pub IsSorted-short : (a : List A) (low end : ℕ) → end ≤ low + 1 → IsSorted a low end
    IsSorted-short a low end h i j p q r =
        let e : j ≡ i = omega arith in rw e (Le_refl f o (at d a i))

    pub Sorts-short : (low end : ℕ) (a : List A) → end ≤ low + 1 → Sorts low end a a
    Sorts-short low end a h = record {
      sorted = IsSorted-short a low end h;
      shuffle = Shuffle-refl d low end a;
    }

    -- Sorted parts on the right sides of a middle element make a sorted segment.
    IsSorted-join :
        (a : List A) (low m end : ℕ) (x : A)
        → IsSorted a low m
        → IsSorted a m end
        → ((k : ℕ) → low ≤ k → k < m → Le f (at d a k) x)
        → ((k : ℕ) → m ≤ k → k < end → Le f x (at d a k))
        → IsSorted a low end
    IsSorted-join a low m end x s t below above i j p q r = elim (dec_lt j m) [
      | yes h ↦ s i j p q h
      | no h ↦ elim (dec_lt i m) [
        | yes h' ↦ o.trans (at d a i) x (at d a j) (below i p h') (above j (omega arith) r)
        | no h' ↦ t i j (omega arith) q r
      ]
    ]

    -- The parts on both sides of the index are sorted, one after the other.
    pub Sorts-join :
        (keep : A → A) (low hi m : ℕ) (a b c e : List A)
        → Partitioned f keep d o low hi a (b, m)
        → Sorts low m b c
        → Sorts m (suc hi) c e
        → Sorts low (suc hi) a e
    Sorts-join keep low hi m a b c e p s t = record {
      sorted = IsSorted-join e low m (suc hi) p.middle first t.sorted below above;
      shuffle =
          Shuffle-trans d low (suc hi) a c e
            (Shuffle-trans d low (suc hi) a b c (rw whole at p.shuffle) (
              Shuffle-widen d low (suc hi) low m b c (omega arith) (omega (arith, p.upto))
                s.shuffle))
            (Shuffle-widen d low (suc hi) m (suc hi) c e (omega (arith, p.from)) (omega arith)
              t.shuffle);
    }
      where
        whole : hi + 1 ≡ suc hi
        whole = omega arith

        same_e : (k : ℕ) → k < m → at d e k ≡ at d c k
        same_e k q = t.shuffle.outside k (inl q)

        same_c : (k : ℕ) → m ≤ k → at d c k ≡ at d b k
        same_c k q = s.shuffle.outside k (inr q)

        first : IsSorted e low m
        first i j q q' q'' =
            rw (same_e i (omega arith), same_e j (omega arith)) (s.sorted i j q q' q'')

        below : (k : ℕ) → low ≤ k → k < m → Le f (at d e k) p.middle
        below k q q' =
            rw (same_e k q') (Shuffle-all d (λ x. Le f x p.middle) s.shuffle p.below k q q')

        above : (k : ℕ) → m ≤ k → k < suc hi → Le f p.middle (at d e k)
        above =
            Shuffle-all d (λ x. Le f p.middle x) t.shuffle
              (λ i q q'. rw (same_c i q) (p.above i q (omega arith)))

    module _ (keep : A → A) where
      quick_sort_single :
          (fuel : ℕ) (a : List A) (low : ℕ)
          → low < length a
          → quick_sort f keep (suc fuel) a low (suc low) ≡ ok a
      unfolding quick_sort
      quick_sort_single fuel a low h =
          rw
            (
              partition_single f keep d o a low h,
              ◌>>=◌,
              le→ltb low (low - 1) (omega arith),
              le→ltb (low + 1) (suc low) (omega arith),
            )
            refl

      pub quick_sort-Sorts :
          (fuel : ℕ) (a : List A) (low end : ℕ)
          → low < end
          → end ≤ length a
          → end - low ≤ fuel
          → AllKept keep d a
          → Returns (quick_sort f keep fuel a low end) (Sorts low end a)
      unfolding quick_sort
      quick_sort-Sorts zero a low end l h u kept = absurd (omega arith)
      quick_sort-Sorts (suc fuel) a low zero l h u kept = absurd (omega arith)
      quick_sort-Sorts (suc fuel) a low (suc hi) l h u kept = elim (ℕ_discrete low hi) [
        | yes e ↦ (
          a,
          rw (sym e) (quick_sort_single fuel a low (omega arith)),
          Sorts-short low (suc hi) a (omega arith),
        )
        | no e ↦
            let (r, run, p) =
              partition-Partitioned f keep d o low hi a (omega arith) (omega arith) kept in
            let kept' = AllKept-Shuffle f keep d o low (hi + 1) a r.0 p.shuffle kept in
            let (c, run', s) =
              guarded-Returns (ltb low (r.1 - 1))
                (λ t.
                  quick_sort-Sorts fuel r.0 low r.1 p.from (omega (arith, p.upto, p.shuffle.len))
                    (omega (arith, p.upto)) kept')
                (λ t. Sorts-short low r.1 r.0 (omega (arith, ltb→le low (r.1 - 1) t))) in
            let (b, run'', t) =
              guarded-Returns (ltb (r.1 + 1) (suc hi))
                (λ t.
                  quick_sort-Sorts fuel c r.1 (suc hi) (omega (arith, p.upto))
                    (omega (arith, s.shuffle.len, p.shuffle.len)) (omega (arith, p.from))
                    (AllKept-Shuffle f keep d o low r.1 r.0 c s.shuffle kept'))
                (λ t. Sorts-short r.1 (suc hi) c (ltb→le (r.1 + 1) (suc hi) t)) in
            (b, rw (run, ◌>>=◌, run') run'', Sorts-join keep low hi r.1 a r.0 c b p s t)
      ]

      -- For a compare function that orders, and an array of at least one element whose elements
      -- all survive the variable `tmp`, with as much fuel as there are elements: the sort of the
      -- whole array ends without fault, and its result is the array in ascending order.
      pub quick_sort-IsSorted :
          (fuel : ℕ) (a : List A)
          → AllKept keep d a
          → 0 < length a
          → length a ≤ fuel
          → Returns
              (quick_sort f keep fuel a 0 (length a))
              λ a'. IsSorted a' 0 (length a) × Perm a' a × (length a' ≡ length a)
      quick_sort-IsSorted fuel a kept h u =
          let (a', run, s) =
            quick_sort-Sorts fuel a 0 (length a) h (omega arith) (omega arith) kept in
          (a', run, (s.sorted, s.shuffle.perm, s.shuffle.len))
