-- ===== src/Quicksort/Scan.antt =====
-- The two scans of `partition`.
use memory_leak.Prelude.{
  ℕ, zero, suc, ◌+◌, ◌≤◌, ◌<◌, ◌≡◌, ◌⊎◌, inl, inr, refl, true, List, ltb, length, arith, Bool-cases,
  ltb→lt, ltb→le,
}
use native.Mathlib.Decide.{ℕ_discrete}
use memory_leak.Prelude.Int.{ℤ, pos}
use memory_leak.Prelude.Run.{◌>>=◌, Returns}
use memory_leak.Quicksort.{gtb, scan_down, scan_up}
use memory_leak.Quicksort.Order.{Le, at}
use memory_leak.Prelude.Segment.{load-at}

module _ (pivot : ℤ) (a : List ℤ) (i : ℕ) where
  -- The scan from `j` down stops at `i`, or at an element below the pivot.
  pub record Down (j j' : ℕ) : Type 0 where
    pub low : i ≤ j'
    pub high : j' ≤ j
    pub passed : (k : ℕ) → j' < k → k ≤ j → Le pivot (at a k)
    pub stop : (j' ≡ i) ⊎ (gtb pivot (at a j') ≡ true)

  stay : (j : ℕ) → i ≤ j → (j ≡ i) ⊎ (gtb pivot (at a j) ≡ true) → Down j j
  stay j h s = record {
    low = h;
    high = omega arith;
    passed = λ k p q. absurd (omega arith);
    stop = s;
  }

  longer : (j j' : ℕ) → Le pivot (at a (suc j)) → Down j j' → Down (suc j) j'
  longer j j' e d = record {
    low = d.low;
    high = omega (arith, d.high);
    passed = λ k p q. elim (ℕ_discrete k (suc j)) [
      | yes same ↦ rw same e
      | no other ↦ d.passed k p (omega arith)
    ];
    stop = d.stop;
  }

  pub scan_down-Down : (j : ℕ) → i ≤ j → j < length a → Returns (scan_down pivot a i j) (Down j)
  unfolding scan_down
  scan_down-Down zero h l = (zero, refl, stay zero h (inl (omega arith)))
  scan_down-Down (suc j) h l = elim (Bool-cases (ltb i (suc j))) [
    | inr e ↦ (suc j, rw e refl, stay (suc j) h (inl (omega (arith, ltb→le i (suc j) e))))
    | inl e ↦ elim (Bool-cases (gtb pivot (at a (suc j)))) [
      | inl t ↦ (suc j, rw (e, load-at (pos 0) a (suc j) l, ◌>>=◌, t) refl, stay (suc j) h (inr t))
      | inr f ↦
          let (j', run, d) = scan_down-Down j (omega (arith, ltb→lt i (suc j) e)) (omega arith) in
          (j', rw (e, load-at (pos 0) a (suc j) l, ◌>>=◌, f) run, longer j j' f d)
    ]
  ]

module _ (pivot : ℤ) (a : List ℤ) (j : ℕ) where
  -- The scan from `i` up stops at `j`, or at an element above the pivot.
  pub record Up (i i' : ℕ) : Type 0 where
    pub low : i ≤ i'
    pub high : i' ≤ j
    pub passed : (k : ℕ) → i ≤ k → k < i' → Le (at a k) pivot
    pub stop : (i' ≡ j) ⊎ (gtb (at a i') pivot ≡ true)

  further : (i i' : ℕ) → Le (at a i) pivot → Up (i + 1) i' → Up i i'
  further i i' e u = record {
    low = omega (arith, u.low);
    high = u.high;
    passed = λ k p q. elim (ℕ_discrete k i) [
      | yes same ↦ rw same e
      | no other ↦ u.passed k (omega arith) q
    ];
    stop = u.stop;
  }

  pub scan_up-Up :
      (rounds i : ℕ) → i + rounds ≡ j → j < length a → Returns (scan_up pivot a rounds i) (Up i)
  unfolding scan_up
  scan_up-Up zero i h l = (
    i,
    refl,
    record {
      low = omega arith;
      high = omega arith;
      passed = λ k p q. absurd (omega arith);
      stop = inl (omega arith);
    },
  )
  scan_up-Up (suc rounds) i h l = elim (Bool-cases (gtb (at a i) pivot)) [
    | inl t ↦ (
      i,
      rw (load-at (pos 0) a i (omega arith), ◌>>=◌, t) refl,
      record {
        low = omega arith;
        high = omega arith;
        passed = λ k p q. absurd (omega arith);
        stop = inr t;
      },
    )
    | inr f ↦
        let (i', run, u) = scan_up-Up rounds (i + 1) (omega arith) l in
        (i', rw (load-at (pos 0) a i (omega arith), ◌>>=◌, f) run, further i i' f u)
  ]
