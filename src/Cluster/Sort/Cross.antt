-- ===== src/Cluster/Sort/Cross.antt =====
-- The outer loop of `lcs_partition_ext`.
use Prim.Native.Nat.{Ordering}
use native.Mathlib.Decide.{ℕ_discrete, dec_lt, dec_le}
use memory_leak.Prelude.{
  ℕ, zero, suc, ◌+◌, ◌-◌, ◌≤◌, ◌<◌, ◌≡◌, inl, inr, refl, sym, List, ltb, ◌==◌, if◌then◌else◌,
  length, arith, Bool-cases, ltb→lt, ltb→le, eq→==, ne→==,
}
use memory_leak.Prelude.Run.{ok, ◌>>=◌, Returns}
use memory_leak.Prelude.Segment.{
  at, load-at, swapped, at-swapped, Shuffle, Shuffle-refl, Shuffle-trans, swapped-Shuffle,
  Shuffle-every,
}
use memory_leak.Cluster.Sort.{swap, cross}
use memory_leak.Cluster.Sort.Order.{IsOrder, AllKept, Le, Le_of_above, at_least_of_at_most}
use memory_leak.Cluster.Sort.Scan.{Down, scan_down-Down, Up, scan_up-Up}

module _ {ℓ} {A : Type ℓ} (f : A → A → Ordering) (keep : A → A) (d : A) (o : IsOrder f) where
  pub swap-swapped :
      (a : List A) (i j : ℕ)
      → i < length a
      → j < length a
      → AllKept keep d a
      → swap f keep a i j ≡ ok (swapped d a i j)
  unfolding swap
  swap-swapped a i j p q kept = rw (load-at d a i p, ◌>>=◌, load-at d a j q, kept i) refl

  pub AllKept-Shuffle :
      (l end : ℕ) (a a' : List A) → Shuffle d l end a a' → AllKept keep d a → AllKept keep d a'
  AllKept-Shuffle l end a a' s = Shuffle-every d (λ x. keep x ≡ x) s

  module _ (pivot : A) (low hi : ℕ) where
    -- The loop's invariant: before `i` nothing is above the pivot, which stands first, and behind
    -- `j` nothing is below it.
    pub record Split (a : List A) (i j : ℕ) : Type ℓ where
      pub first : low < i
      pub inner : low < j
      pub meet : i ≤ j + 1
      pub last : j ≤ hi
      pub room : hi < length a
      pub pivot_first : at d a low ≡ pivot
      pub left : (k : ℕ) → low < k → k < i → Le f (at d a k) pivot
      pub right : (k : ℕ) → j < k → k ≤ hi → Le f pivot (at d a k)

    -- The scans keep it.
    scans-Split :
        (a : List A) (i j j' i' : ℕ)
        → Split a i j
        → Down f keep d pivot a i j j'
        → Up f keep d pivot a o j' i i'
        → Split a i' j'
    scans-Split a i j j' i' s down up = record {
      first = omega (arith, s.first, up.low);
      inner = omega (arith, s.first, down.low);
      meet = omega (arith, up.high);
      last = omega (arith, down.high, s.last);
      room = s.room;
      pivot_first = s.pivot_first;
      left =
          λ k p q. elim (dec_lt k i) [ yes h ↦ s.left k p h | no h ↦ up.passed k (omega arith) q ];
      right = λ k p q. elim (dec_le k j) [
        | yes h ↦ down.passed k p h
        | no h ↦ s.right k (omega arith) q
      ];
    }

    exchange-Shuffle :
        (a : List A) (i j : ℕ) → Split a i j → i < j → Shuffle d low (hi + 1) a (swapped d a i j)
    exchange-Shuffle a i j s h =
        swapped-Shuffle d low (hi + 1) a i j (omega (arith, s.first)) (omega (arith, s.last))
          (omega (arith, s.first)) (omega (arith, s.last)) (omega (arith, s.room))

    there :
        (a : List A) (i j k : ℕ)
        → Split a i j
        → i < j
        → at d (swapped d a i j) k
          ≡ (if j == k then at d a i else if i == k then at d a j else at d a k)
    there a i j k s h =
        at-swapped d a i j (omega (arith, s.last, s.room)) (omega (arith, s.last, s.room)) k

    -- So does the exchange of two elements that stopped them.
    exchange-Split :
        (a : List A) (i j : ℕ)
        → Split a i j
        → i < j
        → Le f (at d a j) pivot
        → Le f pivot (at d a i)
        → Split (swapped d a i j) (i + 1) (j - 1)
    exchange-Split a i j s h below above = record {
      first = omega (arith, s.first);
      inner = omega (arith, s.first);
      meet = omega arith;
      last = omega (arith, s.last);
      room = omega (arith, s.room, (exchange-Shuffle a i j s h).len);
      pivot_first =
          rw
            (
              there a i j low s h,
              ne→== j low (omega (arith, s.first)),
              ne→== i low (omega (arith, s.first)),
            )
            s.pivot_first;
      left = λ k p q. elim (ℕ_discrete k i) [
        | yes e ↦ rw (e, there a i j i s h, ne→== j i (omega arith), eq→== i i refl) below
        | no e ↦
            rw (there a i j k s h, ne→== j k (omega arith), ne→== i k (λ z. e (sym z)))
              (s.left k p (omega arith))
      ];
      right = λ k p q. elim (ℕ_discrete k j) [
        | yes e ↦ rw (e, there a i j j s h, eq→== j j refl) above
        | no e ↦
            rw (there a i j k s h, ne→== j k (λ z. e (sym z)), ne→== i k (omega arith))
              (s.right k (omega arith) q)
      ];
    }

    -- Scans that stop apart have found two elements to exchange.
    below-stop :
        (a : List A) (i i' j j' : ℕ)
        → Down f keep d pivot a i j j'
        → Up f keep d pivot a o j' i i'
        → i' < j'
        → Le f (at d a j') pivot
    below-stop a i i' j j' down up h = elim down.stop [
      | inl e ↦ absurd (omega (arith, up.low))
      | inr t ↦ Le_of_above f o pivot (at d a j') t
    ]

    above-stop :
        (a : List A) (i i' j' : ℕ)
        → Up f keep d pivot a o j' i i'
        → i' < j'
        → Le f pivot (at d a i')
    above-stop a i i' j' up h = elim up.stop [
      | inl e ↦ absurd (omega arith)
      | inr t ↦ at_least_of_at_most (f pivot (at d a i')) t
    ]

    -- What the loop leaves.
    pub record Crossed (a : List A) (r : List A × ℕ × ℕ) : Type ℓ where
      pub split : Split r.0 r.1 r.2
      pub ended : r.2 ≤ r.1
      pub shuffle : Shuffle d low (hi + 1) a r.0

    pub cross-Crossed :
        (fuel : ℕ) (a : List A) (i j : ℕ)
        → Split a i j
        → AllKept keep d a
        → j - i < fuel
        → Returns (cross f keep fuel pivot a i j) (Crossed a)
    unfolding cross
    cross-Crossed zero a i j s kept h = absurd (omega arith)
    cross-Crossed (suc fuel) a i j s kept h = elim (Bool-cases (ltb i j)) [
      | inr e ↦ (
        (a, i, j),
        rw e refl,
        record { split = s; ended = ltb→le i j e; shuffle = Shuffle-refl d low (hi + 1) a },
      )
      | inl e ↦
          let more = ltb→lt i j e in
          let (j', down, x) =
            scan_down-Down f keep d pivot a i j (omega arith) (omega (arith, s.last, s.room)) in
          let (i', up, y) =
            scan_up-Up f keep d pivot a o j' (j' - i) i (omega (arith, x.low))
              (omega (arith, x.high, s.last, s.room)) in
          let s' = scans-Split a i j j' i' s x y in
          elim (Bool-cases (ltb i' j')) [
            | inr e' ↦
                let (r, run, c) =
                  cross-Crossed fuel a i' j' s' kept (omega (arith, ltb→le i' j' e')) in
                (r, rw (e, down, ◌>>=◌, up, e') run, c)
            | inl e' ↦
                let apart = ltb→lt i' j' e' in
                let t =
                  exchange-Split a i' j' s' apart (below-stop a i i' j j' x y apart)
                    (above-stop a i i' j' y apart) in
                let moved = exchange-Shuffle a i' j' s' apart in
                let swaps =
                  swap-swapped a i' j' (omega (arith, s'.last, s'.room))
                    (omega (arith, s'.last, s'.room)) kept in
                let (r, run, c) =
                  cross-Crossed fuel (swapped d a i' j') (i' + 1) (j' - 1) t
                    (AllKept-Shuffle low (hi + 1) a (swapped d a i' j') moved kept)
                    (omega (arith, x.high, y.low)) in
                (
                  r,
                  rw (e, down, ◌>>=◌, up, e', swaps) run,
                  record {
                    split = c.split;
                    ended = c.ended;
                    shuffle =
                        Shuffle-trans d low (hi + 1) a (swapped d a i' j') r.0 moved c.shuffle;
                  },
                )
          ]
    ]
