-- ===== src/Cluster/Sort/Scan.antt =====
-- The two scans of `lcs_partition_ext`.
use Prim.Native.Nat.{Ordering}
use native.Mathlib.Decide.{ℕ_discrete}
use memory_leak.Prelude.{
  ℕ, zero, suc, ◌+◌, ◌≤◌, ◌<◌, ◌≡◌, ◌⊎◌, inl, inr, refl, false, List, ltb, length, arith,
  Bool-cases, ltb→lt, ltb→le,
}
use memory_leak.Prelude.Run.{◌>>=◌, Returns}
use memory_leak.Prelude.Segment.{at, load-at}
use memory_leak.Cluster.Sort.{at_most, at_least, scan_down, scan_up}
use memory_leak.Cluster.Sort.Order.{IsOrder, Le, Le_of_at_least}

module _ {ℓ} {A : Type ℓ} (f : A → A → Ordering) (keep : A → A) (d : A) (pivot : A)
    (a : List A) where
  module _ (i : ℕ) where
    -- The scan from `j` down stops at `i`, or at an element below the pivot.
    pub record Down (j j' : ℕ) : Type 0 where
      pub low : i ≤ j'
      pub high : j' ≤ j
      pub passed : (k : ℕ) → j' < k → k ≤ j → Le f pivot (at d a k)
      pub stop : (j' ≡ i) ⊎ (at_most (f pivot (at d a j')) ≡ false)

    stay : (j : ℕ) → i ≤ j → (j ≡ i) ⊎ (at_most (f pivot (at d a j)) ≡ false) → Down j j
    stay j h s = record {
      low = h;
      high = omega arith;
      passed = λ k p q. absurd (omega arith);
      stop = s;
    }

    longer : (j j' : ℕ) → Le f pivot (at d a (suc j)) → Down j j' → Down (suc j) j'
    longer j j' e s = record {
      low = s.low;
      high = omega (arith, s.high);
      passed = λ k p q. elim (ℕ_discrete k (suc j)) [
        | yes same ↦ rw same e
        | no other ↦ s.passed k p (omega arith)
      ];
      stop = s.stop;
    }

    pub scan_down-Down :
        (j : ℕ) → i ≤ j → j < length a → Returns (scan_down f keep pivot a i j) (Down j)
    unfolding scan_down
    scan_down-Down zero h l =
        (zero, rw (load-at d a 0 l, ◌>>=◌) refl, stay zero h (inl (omega arith)))
    scan_down-Down (suc j) h l = elim (Bool-cases (at_most (f pivot (at d a (suc j))))) [
      | inr e ↦ (suc j, rw (load-at d a (suc j) l, ◌>>=◌, e) refl, stay (suc j) h (inr e))
      | inl e ↦ elim (Bool-cases (ltb i (suc j))) [
        | inr t ↦ (
          suc j,
          rw (load-at d a (suc j) l, ◌>>=◌, e, t) refl,
          stay (suc j) h (inl (omega (arith, ltb→le i (suc j) t))),
        )
        | inl t ↦
            let (j', run, s) = scan_down-Down j (omega (arith, ltb→lt i (suc j) t)) (omega arith) in
            (j', rw (load-at d a (suc j) l, ◌>>=◌, e, t) run, longer j j' e s)
      ]
    ]

  module _ (o : IsOrder f) (j : ℕ) where
    -- The scan from `i` up stops at `j`, or at an element above the pivot.
    pub record Up (i i' : ℕ) : Type 0 where
      pub low : i ≤ i'
      pub high : i' ≤ j
      pub passed : (k : ℕ) → i ≤ k → k < i' → Le f (at d a k) pivot
      pub stop : (i' ≡ j) ⊎ (at_least (f pivot (at d a i')) ≡ false)

    halt : (i : ℕ) → i ≤ j → (i ≡ j) ⊎ (at_least (f pivot (at d a i)) ≡ false) → Up i i
    halt i h s = record {
      low = omega arith;
      high = h;
      passed = λ k p q. absurd (omega arith);
      stop = s;
    }

    further : (i i' : ℕ) → Le f (at d a i) pivot → Up (i + 1) i' → Up i i'
    further i i' e u = record {
      low = omega (arith, u.low);
      high = u.high;
      passed = λ k p q. elim (ℕ_discrete k i) [
        | yes same ↦ rw same e
        | no other ↦ u.passed k (omega arith) q
      ];
      stop = u.stop;
    }

    pub scan_up-Up :
        (rounds i : ℕ)
        → i + rounds ≡ j
        → j < length a
        → Returns (scan_up f keep pivot a rounds i) (Up i)
    unfolding scan_up
    scan_up-Up zero i h l =
        (i, rw (load-at d a i (omega arith), ◌>>=◌) refl, halt i (omega arith) (inl (omega arith)))
    scan_up-Up (suc rounds) i h l = elim (Bool-cases (at_least (f pivot (at d a i)))) [
      | inr e ↦ (i, rw (load-at d a i (omega arith), ◌>>=◌, e) refl, halt i (omega arith) (inr e))
      | inl e ↦
          let (i', run, u) = scan_up-Up rounds (i + 1) (omega arith) l in
          (
            i',
            rw (load-at d a i (omega arith), ◌>>=◌, e) run,
            further i i' (Le_of_at_least f o pivot (at d a i) e) u,
          )
    ]
