-- ===== src/Quicksort/Partition.antt =====
-- `partition` rearranges its segment around the element whose index it returns.
use native.Mathlib.Decide.{ℕ_discrete}
use memory_leak.Prelude.{
  ℕ, ◌+◌, ◌-◌, ◌≤◌, ◌<◌, ◌≡◌, ◌≢◌, inl, inr, refl, List, ◌==◌, if◌then◌else◌, length, arith,
  Bool-cases, lt→ltb, eq→==, ne→==,
}
use memory_leak.Prelude.Int.{ℤ, pos}
use memory_leak.Prelude.Run.{ok, ◌>>=◌, Returns}
use memory_leak.Quicksort.{gtb, swap, settle_left, settle_met, settle, partition}
use memory_leak.Quicksort.Order.{Le, Le_trans, Le_of_gtb, at, AllInt}
use memory_leak.Prelude.Segment.{
  load-at, swapped, at-swapped, Shuffle, Shuffle-refl, Shuffle-trans, swapped-Shuffle,
}
use memory_leak.Quicksort.Shuffle.{swap-swapped, Shuffle-AllInt}
use memory_leak.Quicksort.Cross.{Split, cross-Crossed}

module _ (low hi : ℕ) where
  -- The segment is rearranged; nothing in it before the index is above the element there, and
  -- nothing behind the index is below it.
  pub record Partitioned (a : List ℤ) (r : List ℤ × ℕ) : Type 0 where
    pub from : low ≤ r.1
    pub upto : r.1 ≤ hi
    pub shuffle : Shuffle (pos 0) low (hi + 1) a r.0
    pub below : (k : ℕ) → low ≤ k → k < r.1 → Le (at r.0 k) (at r.0 r.1)
    pub above : (k : ℕ) → r.1 < k → k ≤ hi → Le (at r.0 r.1) (at r.0 k)

  -- `j` is the pivot's place.
  record Place (a : List ℤ) (j : ℕ) : Type 0 where
    from : low ≤ j
    upto : j ≤ hi
    room : hi < length a
    left : (k : ℕ) → low < k → k ≤ j → Le (at a k) (at a low)
    right : (k : ℕ) → j < k → k ≤ hi → Le (at a low) (at a k)

  swapped-Partitioned :
      (a : List ℤ) (j : ℕ) → Place a j → Partitioned a (swapped (pos 0) a low j, j)
  swapped-Partitioned a j p = record {
    from = p.from;
    upto = p.upto;
    shuffle =
        swapped-Shuffle (pos 0) low (hi + 1) a low j (omega arith) (omega (arith, p.from, p.upto))
          p.from (omega (arith, p.upto)) (omega (arith, p.room));
    below =
        λ k o o'. rw (pivot, there k, ne→== j k (omega arith)) (before k o o' (ℕ_discrete low k));
    above = λ k o o'.
        rw (pivot, there k, ne→== j k (omega arith), ne→== low k (omega (arith, p.from)))
          (p.right k o o');
  }
    where
      there :
          (k : ℕ)
          → at (swapped (pos 0) a low j) k
            ≡ (if j == k then at a low else if low == k then at a j else at a k)
      there k =
          at-swapped (pos 0) a low j (omega (arith, p.from, p.upto, p.room))
            (omega (arith, p.upto, p.room)) k

      pivot : at (swapped (pos 0) a low j) j ≡ at a low
      pivot = rw (there j, eq→== j j refl) refl

      before :
          (k : ℕ)
          → low ≤ k
          → k < j
          → Dec (low ≡ k)
          → Le (if low == k then at a j else at a k) (at a low)
      before k o o' (yes e) = rw (eq→== low k e) (p.left j (omega arith) (omega arith))
      before k o o' (no e) = rw (ne→== low k e) (p.left k (omega arith) (omega arith))

  kept-Partitioned :
      (a : List ℤ) (j : ℕ) → Place a j → Le (at a low) (at a j) → Partitioned a (a, j)
  kept-Partitioned a j p e = record {
    from = p.from;
    upto = p.upto;
    shuffle = Shuffle-refl (pos 0) low (hi + 1) a;
    below = λ k o o'. elim (ℕ_discrete k low) [
      | yes same ↦ rw same e
      | no other ↦ Le_trans (at a k) (at a low) (at a j) (p.left k (omega arith) (omega arith)) e
    ];
    above = λ k o o'. elim (ℕ_discrete j low) [
      | yes same ↦ rw same (p.right k o o')
      | no other ↦
          Le_trans (at a j) (at a low) (at a k) (p.left j (omega (arith, p.from)) (omega arith))
            (p.right k o o')
    ];
  }

  -- A swap that brings the pivot to its place, and the return of that place.
  swap-Partitioned :
      (a : List ℤ) (j : ℕ)
      → Place a j
      → AllInt a
      → Returns (swap a low j >>= λ a'. ok (a', j)) (Partitioned a)
  swap-Partitioned a j p ints = (
    (swapped (pos 0) a low j, j),
    rw
        (swap-swapped a low j (omega (arith, p.from, p.upto, p.room))
          (omega (arith, p.upto, p.room)) ints)
        refl,
    swapped-Partitioned a j p,
  )

  settle_left-Partitioned :
      (a : List ℤ) (j : ℕ) → Place a j → AllInt a → Returns (settle_left a low j) (Partitioned a)
  unfolding settle_left
  settle_left-Partitioned a j p ints =
      rw
        (
          load-at (pos 0) a low (omega (arith, p.from, p.upto, p.room)),
          ◌>>=◌,
          load-at (pos 0) a j (omega (arith, p.upto, p.room)),
        )
        (elim (Bool-cases (gtb (at a low) (at a j))) [
          | inl t ↦ rw t (swap-Partitioned a j p ints)
          | inr f ↦ rw f ((a, j), refl, kept-Partitioned a j p f)
        ])

  -- Where the scans meet at one element, it goes on one side of the pivot.
  Place-at : (a : List ℤ) (j : ℕ) → Split low hi a j j → Le (at a j) (at a low) → Place a j
  Place-at a j s e = record {
    from = omega (arith, s.first);
    upto = s.last;
    room = s.room;
    left = λ k p q. elim (ℕ_discrete k j) [
      | yes same ↦ rw same e
      | no other ↦ s.left k p (omega arith)
    ];
    right = s.right;
  }

  Place-before :
      (a : List ℤ) (j : ℕ) → Split low hi a j j → Le (at a low) (at a j) → Place a (j - 1)
  Place-before a j s e = record {
    from = omega (arith, s.first);
    upto = omega (arith, s.last);
    room = s.room;
    left = λ k p q. s.left k p (omega (arith, s.first));
    right = λ k p q. elim (ℕ_discrete k j) [
      | yes same ↦ rw same e
      | no other ↦ s.right k (omega arith) q
    ];
  }

  settle_met-Partitioned :
      (a : List ℤ) (j : ℕ)
      → Split low hi a j j
      → AllInt a
      → Returns (settle_met a low j) (Partitioned a)
  unfolding settle_met
  settle_met-Partitioned a j s ints =
      rw
        (
          load-at (pos 0) a low (omega (arith, s.first, s.last, s.room)),
          ◌>>=◌,
          load-at (pos 0) a j (omega (arith, s.last, s.room)),
        )
        (elim (Bool-cases (gtb (at a low) (at a j))) [
          | inl t ↦
              rw t (swap-Partitioned a j (Place-at a j s (Le_of_gtb (at a low) (at a j) t)) ints)
          | inr f ↦ elim (Bool-cases (gtb (at a j) (at a low))) [
            | inl t' ↦ rw (f, t') (settle_left-Partitioned a (j - 1) (Place-before a j s f) ints)
            | inr f' ↦ rw (f, f') ((a, j), refl, kept-Partitioned a j (Place-at a j s f') f)
          ]
        ])

  settle-Partitioned :
      (a : List ℤ) (i j : ℕ)
      → Split low hi a i j
      → j ≤ i
      → AllInt a
      → Returns (settle a low i j) (Partitioned a)
  unfolding settle
  settle-Partitioned a i j s ended ints = elim (ℕ_discrete i j) [
    | yes e ↦ rw (eq→== i j e) (settle_met-Partitioned a j (rw e at s) ints)
    | no e ↦ rw (ne→== i j e, lt→ltb j i (omega arith)) (swap-Partitioned a j (place e) ints)
  ]
    where
      place : i ≢ j → Place a j
      place ne = record {
        from = omega (arith, s.first, s.meet);
        upto = s.last;
        room = s.room;
        left = λ k p q. s.left k p (omega (arith, s.meet));
        right = s.right;
      }

  from_start : (a : List ℤ) → low ≤ hi → hi < length a → Split low hi a (low + 1) hi
  from_start a h l = record {
    first = omega arith;
    meet = omega arith;
    last = omega arith;
    room = l;
    left = λ k p q. absurd (omega arith);
    right = λ k p q. absurd (omega arith);
  }

  -- On a segment of the array whose elements fit an `int`, `partition` ends without fault. It
  -- rearranges the segment alone, and returns an index in it such that nothing in the segment
  -- before the index is above the element there, and nothing behind it is below.
  pub partition-Partitioned :
      (a : List ℤ)
      → low ≤ hi
      → hi < length a
      → AllInt a
      → Returns (partition a low hi) (Partitioned a)
  unfolding partition
  partition-Partitioned a h l ints =
      let (r, run, c) =
        cross-Crossed low hi (hi + 1) a (low + 1) hi (from_start a h l) ints (omega arith) in
      let (r', run', p) =
        settle-Partitioned r.0 r.1 r.2 c.split c.ended
          (Shuffle-AllInt low (hi + 1) a r.0 c.shuffle ints) in
      (
        r',
        rw (load-at (pos 0) a low (omega arith), ◌>>=◌, run) run',
        record {
          from = p.from;
          upto = p.upto;
          shuffle = Shuffle-trans (pos 0) low (hi + 1) a r.0 r'.0 c.shuffle p.shuffle;
          below = p.below;
          above = p.above;
        },
      )
