-- ===== src/Cluster/Sort/Drain.antt =====
-- `quick_sort_non_recursive` of cluster/quicksort/main.c ends and sorts.
use Prim.Native.Nat.{Ordering}
use native.Mathlib.Decide.{ℕ_discrete}
use memory_leak.Prelude.{
  ℕ, zero, suc, ◌+◌, ◌-◌, ◌≤◌, ◌<◌, inl, inr, refl, List, [], ◌∷◌, ◌++◌, ltb, length, arith, ltb→lt,
  ltb→le,
}
use memory_leak.Prelude.Run.{◌>>=◌, Returns, guarded-Returns}
use memory_leak.Prelude.Segment.{at, Shuffle-refl, Shuffle-trans, Shuffle-widen}
use memory_leak.Cluster.Sort.{drain_segments, quick_sort_non_recursive}
use memory_leak.Cluster.Sort.Order.{IsOrder, AllKept, Le_refl}
use memory_leak.Cluster.Sort.Cross.{AllKept-Shuffle}
use memory_leak.Cluster.Sort.Partition.{partition-Partitioned}
use memory_leak.Cluster.Sort.Sorted.{IsSorted, Sorts, Sorts-short}
use memory_leak.Cluster.Sort.Segments.{In, Disjoint, parts, work, work-append, work-parts}
use memory_leak.Cluster.Sort.Worklist.{Pending, next-Pending}

module _ {ℓ} {A : Type ℓ} (f : A → A → Ordering) (d : A) (o : IsOrder f) (keep : A → A) where
  module _ (low end : ℕ) where
    done-IsSorted : (a : List A) → Pending f d low end a [] → IsSorted f d a low end
    done-IsSorted a p i j u v w = elim (ℕ_discrete j i) [
      | yes e ↦ rw e (Le_refl f o (at d a i))
      | no e ↦ elim (p.order i j u (omega arith) w) [ inl h ↦ h | inr (s, k, _, _) ↦ elim k [ ] ]
    ]

    drain_segments-Sorts :
        (fuel : ℕ) (segments : List (ℕ × ℕ)) (a : List A)
        → end ≤ length a
        → work segments < fuel
        → AllKept keep d a
        → Pending f d low end a segments
        → Returns (drain_segments f keep fuel segments a) (Sorts f d low end a)
    unfolding drain_segments
    drain_segments-Sorts zero segments a l h kept p = absurd (omega arith)
    drain_segments-Sorts (suc fuel) [] a l h kept p =
        (a, refl, record { sorted = done-IsSorted a p; shuffle = Shuffle-refl d low end a })
    drain_segments-Sorts (suc fuel) ((x, zero) ∷ rest) a l h kept p =
        absurd (omega (arith, p.long (x, 0) In.here))
    drain_segments-Sorts (suc fuel) ((x, suc hi) ∷ rest) a l h kept p =
        let long = p.long (x, suc hi) In.here in
        let upto = p.upto (x, suc hi) In.here in
        let from = p.from (x, suc hi) In.here in
        let (r, run, q) =
          partition-Partitioned f keep d o x hi a (omega arith) (omega arith) kept in
        let (b, run', s) =
          drain_segments-Sorts fuel (rest ++ parts x r.1 (suc hi)) r.0
            (omega (arith, q.shuffle.len))
            (omega (
              arith,
              work-append rest (parts x r.1 (suc hi)),
              work-parts x r.1 (suc hi) q.from (omega (arith, q.upto)),
            ))
            (AllKept-Shuffle f keep d o x (hi + 1) a r.0 q.shuffle kept)
            (next-Pending f d low end o keep a r.0 x hi r.1 rest p q) in
        (
          b,
          rw (run, ◌>>=◌) run',
          record {
            sorted = s.sorted;
            shuffle =
                Shuffle-trans d low end a r.0 b
                  (Shuffle-widen d low end x (hi + 1) a r.0 from (omega arith) q.shuffle) s.shuffle;
          },
        )

    pub start-Pending : (a : List A) → low + 1 < end → Pending f d low end a ((low, end) ∷ [])
    start-Pending a h = record {
      from = all (λ s. low ≤ s.0) (omega arith);
      long = all (λ s. s.0 + 1 < s.1) h;
      upto = all (λ s. s.1 ≤ end) (omega arith);
      disjoint = Disjoint.more (λ t i. elim i [ ]) Disjoint.none;
      order = λ i j u v w. inr ((low, end), In.here, u, w);
    }
      where
        all : (P : ℕ × ℕ → Type 0) → P (low, end) → (s : ℕ × ℕ) → In s ((low, end) ∷ []) → P s
        all P h s In.here = h
        all P h s (In.there i) = elim i [ ]

    pub quick_sort_non_recursive-Sorts :
        (fuel : ℕ) (a : List A)
        → end ≤ length a
        → end - low ≤ fuel
        → AllKept keep d a
        → Returns (quick_sort_non_recursive f keep fuel a low end) (Sorts f d low end a)
    unfolding quick_sort_non_recursive
    quick_sort_non_recursive-Sorts fuel a l h kept =
        guarded-Returns (ltb (low + 1) end)
          (λ t.
            let more = ltb→lt (low + 1) end t in
            drain_segments-Sorts fuel ((low, end) ∷ []) a l (omega arith) kept
              (start-Pending a more))
          (λ t. Sorts-short f d o low end a (ltb→le (low + 1) end t))
