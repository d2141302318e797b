-- ===== src/Cluster/Sort/Partition.antt =====
-- `lcs_partition_ext` splits its segment at the index it returns.
use Prim.Native.Nat.{Ordering}
use native.Mathlib.Decide.{ℕ_discrete}
use memory_leak.Prelude.{
  ℕ, zero, suc, ◌+◌, ◌≤◌, ◌<◌, ◌≡◌, inl, inr, refl, sym, List, ◌==◌, if◌then◌else◌, length, arith,
  Bool-cases, le→ltb, eq→==, ne→==,
}
use memory_leak.Prelude.Run.{ok, ◌>>=◌, Returns}
use memory_leak.Prelude.Segment.{
  at, load-at, swapped, at-swapped, Shuffle, Shuffle-refl, Shuffle-trans, swapped-Shuffle,
}
use memory_leak.Cluster.Sort.{is_below, cross, settle, partition}
use memory_leak.Cluster.Sort.Order.{
  IsOrder, AllKept, Le, Le_refl, Le_of_below, Le_of_not_below, same_not_below,
}
use memory_leak.Cluster.Sort.Cross.{swap-swapped, AllKept-Shuffle, Split, cross-Crossed}

module _ {ℓ} {A : Type ℓ} (f : A → A → Ordering) (keep : A → A) (d : A) (o : IsOrder f) where
  module _ (low hi : ℕ) where
    -- The segment is rearranged, and split at an index behind its first: what stands before the
    -- index is not above a middle element, what stands from there on is not below it.
    pub record Partitioned (a : List A) (r : List A × ℕ) : Type ℓ where
      pub from : low < r.1
      pub upto : r.1 ≤ hi
      pub shuffle : Shuffle d low (hi + 1) a r.0
      pub middle : A
      pub below : (k : ℕ) → low ≤ k → k < r.1 → Le f (at d r.0 k) middle
      pub above : (k : ℕ) → r.1 ≤ k → k ≤ hi → Le f middle (at d r.0 k)

    module _ (pivot : A) (a : List A) (i j : ℕ) (s : Split f keep d o pivot low hi a i j)
        (ended : j ≤ i) where
      -- An element below the pivot is exchanged with it.
      swapped-Partitioned : Le f (at d a j) pivot → Partitioned a (swapped d a low j, j)
      swapped-Partitioned e = record {
        from = s.inner;
        upto = s.last;
        shuffle =
            swapped-Shuffle d low (hi + 1) a low j (omega arith) (omega (arith, s.inner, s.last))
              (omega (arith, s.inner)) (omega (arith, s.last)) (omega (arith, s.room));
        middle = pivot;
        below = λ k p q. rw (there k, ne→== j k (omega arith)) (before k p q (ℕ_discrete low k));
        above = λ k p q. behind k p q (ℕ_discrete j k);
      }
        where
          there :
              (k : ℕ)
              → at d (swapped d a low j) k
                ≡ (if j == k then at d a low else if low == k then at d a j else at d a k)
          there k =
              at-swapped d a low j (omega (arith, s.inner, s.last, s.room))
                (omega (arith, s.last, s.room)) k

          before :
              (k : ℕ)
              → low ≤ k
              → k < j
              → Dec (low ≡ k)
              → Le f (if low == k then at d a j else at d a k) pivot
          before k p q (yes z) = rw (eq→== low k z) e
          before k p q (no z) = rw (ne→== low k z) (s.left k (omega arith) (omega arith))

          behind : (k : ℕ) → j ≤ k → k ≤ hi → Dec (j ≡ k) → Le f pivot (at d (swapped d a low j) k)
          behind k p q (yes z) = rw (there k, eq→== j k z, s.pivot_first) (Le_refl f o pivot)
          behind k p q (no z) =
              rw (there k, ne→== j k z, ne→== low k (omega (arith, s.inner)))
                (s.right k (omega arith) q)

      kept-Partitioned : Le f pivot (at d a j) → Partitioned a (a, j)
      kept-Partitioned e = record {
        from = s.inner;
        upto = s.last;
        shuffle = Shuffle-refl d low (hi + 1) a;
        middle = pivot;
        below = λ k p q. elim (ℕ_discrete low k) [
          | yes z ↦ rw (sym z, s.pivot_first) (Le_refl f o pivot)
          | no z ↦ s.left k (omega arith) (omega arith)
        ];
        above = λ k p q. elim (ℕ_discrete j k) [
          | yes z ↦ rw (sym z) e
          | no z ↦ s.right k (omega arith) q
        ];
      }

      settle-Partitioned : AllKept keep d a → Returns (settle f keep pivot a low j) (Partitioned a)
      unfolding settle
      settle-Partitioned kept =
          rw (load-at d a j (omega (arith, s.last, s.room)), ◌>>=◌)
            (elim (Bool-cases (is_below (f (at d a j) pivot))) [
              | inl t ↦ (
                (swapped d a low j, j),
                rw
                    (
                      t,
                      swap-swapped f keep d o a low j (omega (arith, s.inner, s.last, s.room))
                          (omega (arith, s.last, s.room)) kept,
                    )
                    refl,
                swapped-Partitioned (Le_of_below f o (at d a j) pivot t),
              )
              | inr t ↦
                  ((a, j), rw t refl, kept-Partitioned (Le_of_not_below f o (at d a j) pivot t))
            ])

    from_start :
        (a : List A)
        → low < hi
        → hi < length a
        → Split f keep d o (at d a low) low hi a (low + 1) hi
    from_start a h l = record {
      first = omega arith;
      inner = h;
      meet = omega arith;
      last = omega arith;
      room = l;
      pivot_first = refl;
      left = λ k p q. absurd (omega arith);
      right = λ k p q. absurd (omega arith);
    }

    pub partition-Partitioned :
        (a : List A)
        → low < hi
        → hi < length a
        → AllKept keep d a
        → Returns (partition f keep a low (suc hi)) (Partitioned a)
    unfolding partition
    partition-Partitioned a h l kept =
        let (r, run, c) =
          cross-Crossed f keep d o (at d a low) low hi (hi + 1) a (low + 1) hi (from_start a h l)
            kept (omega arith) in
        let (r', run', p) =
          settle-Partitioned (at d a low) r.0 r.1 r.2 c.split c.ended
            (AllKept-Shuffle f keep d o low (hi + 1) a r.0 c.shuffle kept) in
        (
          r',
          rw (load-at d a low (omega arith), ◌>>=◌, run) run',
          record {
            from = p.from;
            upto = p.upto;
            shuffle = Shuffle-trans d low (hi + 1) a r.0 r'.0 c.shuffle p.shuffle;
            middle = p.middle;
            below = p.below;
            above = p.above;
          },
        )

  cross_met :
      (fuel : ℕ) (pivot : A) (a : List A) (i j : ℕ)
      → 0 < fuel
      → j ≤ i
      → cross f keep fuel pivot a i j ≡ ok (a, i, j)
  unfolding cross
  cross_met zero pivot a i j h h' = absurd (omega arith)
  cross_met (suc fuel) pivot a i j h h' = rw (le→ltb i j h') refl

  -- A segment of one element is left alone.
  pub partition_single :
      (a : List A) (low : ℕ) → low < length a → partition f keep a low (suc low) ≡ ok (a, low)
  unfolding partition settle
  partition_single a low l =
      rw
        (
          load-at d a low l,
          ◌>>=◌,
          cross_met (low + 1) (at d a low) a (low + 1) low (omega arith) (omega arith),
          load-at d a low l,
          same_not_below f o (at d a low),
        )
        refl
