-- ===== src/Quicksort/Cross.antt =====
-- The outer loop of `partition`.
use native.Mathlib.Decide.{ℕ_discrete, dec_lt, dec_le}
use memory_leak.Prelude.{
  ℕ, zero, suc, ◌+◌, ◌-◌, ◌≤◌, ◌<◌, ◌≡◌, inl, inr, refl, sym, true, List, ltb, ◌==◌, if◌then◌else◌,
  length, arith, Bool-cases, ltb→lt, ltb→le, eq→==, ne→==,
}
use memory_leak.Prelude.Int.{ℤ, pos}
use memory_leak.Prelude.Run.{◌>>=◌, Returns}
use memory_leak.Quicksort.{gtb, cross}
use memory_leak.Quicksort.Order.{Le, Le_of_gtb, at, AllInt}
use memory_leak.Prelude.Segment.{
  swapped, at-swapped, Shuffle, Shuffle-refl, Shuffle-trans, swapped-Shuffle,
}
use memory_leak.Quicksort.Shuffle.{swap-swapped, Shuffle-AllInt}
use memory_leak.Quicksort.Scan.{Down, scan_down-Down, Up, scan_up-Up}

module _ (low hi : ℕ) where
  -- The loop's invariant: below `i` nothing is above the pivot, behind `j` nothing is below it.
  pub record Split (a : List ℤ) (i j : ℕ) : Type 0 where
    pub first : low < i
    pub meet : i ≤ j + 1
    pub last : j ≤ hi
    pub room : hi < length a
    pub left : (k : ℕ) → low < k → k < i → Le (at a k) (at a low)
    pub right : (k : ℕ) → j < k → k ≤ hi → Le (at a low) (at a k)

  -- The scans keep it.
  scans-Split :
      (a : List ℤ) (i j j' i' : ℕ)
      → Split a i j
      → Down (at a low) a i j j'
      → Up (at a low) a j' i i'
      → Split a i' j'
  scans-Split a i j j' i' s d u = record {
    first = omega (arith, s.first, u.low);
    meet = omega (arith, u.high);
    last = omega (arith, d.high, s.last);
    room = s.room;
    left = λ k p q. elim (dec_lt k i) [ yes h ↦ s.left k p h | no h ↦ u.passed k (omega arith) q ];
    right =
        λ k p q. elim (dec_le k j) [ yes h ↦ d.passed k p h | no h ↦ s.right k (omega arith) q ];
  }

  exchange-Shuffle :
      (a : List ℤ) (i j : ℕ)
      → Split a i j
      → i < j
      → Shuffle (pos 0) low (hi + 1) a (swapped (pos 0) a i j)
  exchange-Shuffle a i j s h =
      swapped-Shuffle (pos 0) low (hi + 1) a i j (omega (arith, s.first)) (omega (arith, s.last))
        (omega (arith, s.first)) (omega (arith, s.last)) (omega (arith, s.room))

  there :
      (a : List ℤ) (i j k : ℕ)
      → Split a i j
      → i < j
      → at (swapped (pos 0) a i j) k
        ≡ (if j == k then at a i else if i == k then at a j else at a k)
  there a i j k s h =
      at-swapped (pos 0) a i j (omega (arith, s.last, s.room)) (omega (arith, s.last, s.room)) k

  exchange-pivot :
      (a : List ℤ) (i j : ℕ) → Split a i j → i < j → at (swapped (pos 0) a i j) low ≡ at a low
  exchange-pivot a i j s h =
      rw
        (
          there a i j low s h,
          ne→== j low (omega (arith, s.first)),
          ne→== i low (omega (arith, s.first)),
        )
        refl

  -- So does the exchange of two elements that stopped them.
  exchange-Split :
      (a : List ℤ) (i j : ℕ)
      → Split a i j
      → i < j
      → gtb (at a low) (at a j) ≡ true
      → gtb (at a i) (at a low) ≡ true
      → Split (swapped (pos 0) a i j) (i + 1) (j - 1)
  exchange-Split a i j s h below above = record {
    first = omega (arith, s.first);
    meet = omega arith;
    last = omega (arith, s.last);
    room = omega (arith, s.room, (exchange-Shuffle a i j s h).len);
    left = λ k p q. elim (ℕ_discrete k i) [
      | yes e ↦
          rw
            (
              exchange-pivot a i j s h,
              e,
              there a i j i s h,
              ne→== j i (omega arith),
              eq→== i i refl,
            )
            (Le_of_gtb (at a low) (at a j) below)
      | no e ↦
          rw
            (
              exchange-pivot a i j s h,
              there a i j k s h,
              ne→== j k (omega arith),
              ne→== i k (λ z. e (sym z)),
            )
            (s.left k p (omega arith))
    ];
    right = λ k p q. elim (ℕ_discrete k j) [
      | yes e ↦
          rw (exchange-pivot a i j s h, e, there a i j j s h, eq→== j j refl)
            (Le_of_gtb (at a i) (at a low) above)
      | no e ↦
          rw
            (
              exchange-pivot a i j s h,
              there a i j k s h,
              ne→== j k (λ z. e (sym z)),
              ne→== i k (omega arith),
            )
            (s.right k (omega arith) q)
    ];
  }

  -- Scans that stop apart have found two elements to exchange.
  below-stop :
      (a : List ℤ) (i i' j j' : ℕ)
      → Down (at a low) a i j j'
      → Up (at a low) a j' i i'
      → i' < j'
      → gtb (at a low) (at a j') ≡ true
  below-stop a i i' j j' d u h = elim d.stop [ inl e ↦ absurd (omega (arith, u.low)) | inr t ↦ t ]

  above-stop :
      (a : List ℤ) (i i' j' : ℕ)
      → Up (at a low) a j' i i'
      → i' < j'
      → gtb (at a i') (at a low) ≡ true
  above-stop a i i' j' u h = elim u.stop [ inl e ↦ absurd (omega arith) | inr t ↦ t ]

  -- What the loop leaves.
  pub record Crossed (a : List ℤ) (r : List ℤ × ℕ × ℕ) : Type 0 where
    pub split : Split r.0 r.1 r.2
    pub ended : r.2 ≤ r.1
    pub shuffle : Shuffle (pos 0) low (hi + 1) a r.0

  pub cross-Crossed :
      (fuel : ℕ) (a : List ℤ) (i j : ℕ)
      → Split a i j
      → AllInt a
      → j - i < fuel
      → Returns (cross fuel (at a low) a i j) (Crossed a)
  unfolding cross
  cross-Crossed zero a i j s ints f = absurd (omega arith)
  cross-Crossed (suc fuel) a i j s ints f = elim (Bool-cases (ltb i j)) [
    | inr e ↦ (
      (a, i, j),
      rw e refl,
      record { split = s; ended = ltb→le i j e; shuffle = Shuffle-refl (pos 0) low (hi + 1) a },
    )
    | inl e ↦
        let h = ltb→lt i j e in
        let (j', down, d) =
          scan_down-Down (at a low) a i j (omega arith) (omega (arith, s.last, s.room)) in
        let (i', up, u) =
          scan_up-Up (at a low) a j' (j' - i) i (omega (arith, d.low))
            (omega (arith, d.high, s.last, s.room)) in
        let s' = scans-Split a i j j' i' s d u in
        elim (Bool-cases (ltb i' j')) [
          | inr e' ↦
              let (r, run, c) =
                cross-Crossed fuel a i' j' s' ints (omega (arith, ltb→le i' j' e')) in
              (r, rw (e, down, ◌>>=◌, up, e') run, c)
          | inl e' ↦
              let h' = ltb→lt i' j' e' in
              let t =
                exchange-Split a i' j' s' h' (below-stop a i i' j j' d u h')
                  (above-stop a i i' j' u h') in
              let moved = exchange-Shuffle a i' j' s' h' in
              let same_pivot = exchange-pivot a i' j' s' h' in
              let (r, run, c) =
                cross-Crossed fuel (swapped (pos 0) a i' j') (i' + 1) (j' - 1) t
                  (Shuffle-AllInt low (hi + 1) a (swapped (pos 0) a i' j') moved ints)
                  (omega (arith, d.high, u.low)) in
              (
                r,
                rw
                    (
                      e,
                      down,
                      ◌>>=◌,
                      up,
                      e',
                      swap-swapped a i' j' (omega (arith, s'.last, s'.room))
                          (omega (arith, s'.last, s'.room)) ints,
                    )
                    (rw same_pivot at run),
                record {
                  split = c.split;
                  ended = c.ended;
                  shuffle =
                      Shuffle-trans (pos 0) low (hi + 1) a (swapped (pos 0) a i' j') r.0 moved
                        c.shuffle;
                },
              )
        ]
  ]
