-- ===== src/Cluster/Sort/Worklist.antt =====
-- The invariant of `quick_sort_non_recursive` of cluster/quicksort/main.c.
use Prim.Native.Nat.{Ordering}
use native.Mathlib.Decide.{dec_lt}
use memory_leak.Prelude.{ℕ, suc, ◌+◌, ◌≤◌, ◌<◌, ◌≡◌, ◌⊎◌, inl, inr, List, ◌∷◌, ◌++◌, arith}
use memory_leak.Prelude.Segment.{at, segment-cases}
use memory_leak.Cluster.Sort.Order.{IsOrder, Le}
use memory_leak.Cluster.Sort.Partition.{Partitioned}
use memory_leak.Cluster.Sort.Segments.{
  In, In-append, In-left, In-right, Off, Disjoint, Disjoint-append, parts, Part, In-parts, left-In,
  right-In, parts-Disjoint,
}

module _ {ℓ} {A : Type ℓ} (f : A → A → Ordering) (d : A) (low end : ℕ) where
  -- Some segment holds both indices.
  abbrev pub Shared : List (ℕ × ℕ) → (i j : ℕ) → Type 0
  Shared segments i j = (s : ℕ × ℕ) × In s segments × (s.0 ≤ i) × (j < s.1)

  -- Two elements of the array are in order, unless a segment that waits holds both.
  pub record Pending (a : List A) (segments : List (ℕ × ℕ)) : Type ℓ where
    pub from : (s : ℕ × ℕ) → In s segments → low ≤ s.0
    pub long : (s : ℕ × ℕ) → In s segments → s.0 + 1 < s.1
    pub upto : (s : ℕ × ℕ) → In s segments → s.1 ≤ end
    pub disjoint : Disjoint segments
    pub order :
        (i j : ℕ) → low ≤ i → i < j → j < end → Le f (at d a i) (at d a j) ⊎ Shared segments i j

  module _ (o : IsOrder f) (keep : A → A) where
    module _ (a b : List A) (l hi m : ℕ) (rest : List (ℕ × ℕ)) (p : Pending a ((l, suc hi) ∷ rest))
        (q : Partitioned f keep d o l hi a (b, m)) where
      -- A pair that is not inside the segment is shared by another one.
      from_rest :
          (i j : ℕ) → (i < l) ⊎ (suc hi ≤ j) → Shared ((l, suc hi) ∷ rest) i j → Shared rest i j
      from_rest i j (inl h) (s, In.here, u, v) = absurd (omega arith)
      from_rest i j (inr h) (s, In.here, u, v) = absurd (omega arith)
      from_rest i j h (s, In.there k, u, v) = (s, k, u, v)

      -- No other one reaches into the segment.
      in_order :
          (i j : ℕ)
          → i < j
          → ((l ≤ i) × (i < suc hi)) ⊎ ((l ≤ j) × (j < suc hi))
          → (i < l) ⊎ (suc hi ≤ j)
          → Le f (at d a i) (at d a j) ⊎ Shared ((l, suc hi) ∷ rest) i j
          → Le f (at d a i) (at d a j)
      in_order i j h c w (inl e) = e
      in_order i j h c w (inr k) =
          let (s, r, u, v) = from_rest i j w k in absurd (clash s u v c (off p.disjoint s r))
        where
          off : Disjoint ((l, suc hi) ∷ rest) → (s : ℕ × ℕ) → In s rest → Off (l, suc hi) s
          off (Disjoint.more o _) = o

          clash :
              (s : ℕ × ℕ)
              → s.0 ≤ i
              → j < s.1
              → ((l ≤ i) × (i < suc hi)) ⊎ ((l ≤ j) × (j < suc hi))
              → Off (l, suc hi) s
              → ⊥
          clash s u v (inl (c, c')) (inl z) = omega arith
          clash s u v (inl (c, c')) (inr z) = omega arith
          clash s u v (inr (c, c')) (inl z) = omega arith
          clash s u v (inr (c, c')) (inr z) = omega arith

      same : (k : ℕ) → (k < l) ⊎ (hi + 1 ≤ k) → at d b k ≡ at d a k
      same = q.shuffle.outside

      not_inside : (i j : ℕ) → i < j → (i < l) ⊎ (hi + 1 ≤ i) → (i < l) ⊎ (suc hi ≤ j)
      not_inside i j v (inl h) = inl h
      not_inside i j v (inr h) = inr (omega arith)

      outside_order :
          (i j : ℕ)
          → low ≤ i
          → i < j
          → j < end
          → (i < l) ⊎ (hi + 1 ≤ i)
          → (j < l) ⊎ (hi + 1 ≤ j)
          → Le f (at d b i) (at d b j) ⊎ Shared (rest ++ parts l m (suc hi)) i j
      outside_order i j u v w x y = elim (p.order i j u v w) [
        | inl e ↦ inl (rw (same i x, same j y) e)
        | inr k ↦
            let (s, r, c, c') = from_rest i j (not_inside i j v x) k in
            inr (s, In-left s rest (parts l m (suc hi)) r, c, c')
      ]

      first_outside : (i j : ℕ) → low ≤ i → i < l → l ≤ j → j < hi + 1 → Le f (at d b i) (at d b j)
      first_outside i j u v w w' =
          let (k, r, r', e) = q.shuffle.inside j w w' in
          rw (same i (inl v), e)
            (in_order i k (omega arith) (inr (r, omega arith)) (inl v)
              (p.order i k u (omega arith) (omega (arith, p.upto (l, suc hi) In.here))))

      second_outside :
          (i j : ℕ) → l ≤ i → i < hi + 1 → hi + 1 ≤ j → j < end → Le f (at d b i) (at d b j)
      second_outside i j u v w w' =
          let (k, r, r', e) = q.shuffle.inside i u v in
          rw (same j (inr w), e)
            (in_order k j (omega arith) (inl (r, omega arith)) (inr (omega arith))
              (p.order k j (omega (arith, p.from (l, suc hi) In.here)) (omega arith) w'))

      inside_order :
          (i j : ℕ)
          → i < j
          → l ≤ i
          → j < suc hi
          → Le f (at d b i) (at d b j) ⊎ Shared (rest ++ parts l m (suc hi)) i j
      inside_order i j u v w = elim (dec_lt j m) [
        | yes h ↦ inr (
          (l, m),
          In-right (l, m) rest (parts l m (suc hi))
              (left-In l m (suc hi) q.from (omega (arith, q.upto)) (omega arith)),
          v,
          h,
        )
        | no h ↦ elim (dec_lt i m) [
          | yes h' ↦ inl (
              o.trans (at d b i) q.middle (at d b j) (q.below i v h')
                (q.above j (omega arith) (omega arith)))
          | no h' ↦ inr (
            (m, suc hi),
            In-right (m, suc hi) rest (parts l m (suc hi))
                (right-In l m (suc hi) q.from (omega (arith, q.upto)) (omega arith)),
            omega arith,
            w,
          )
        ]
      ]

      next_order :
          (i j : ℕ)
          → low ≤ i
          → i < j
          → j < end
          → Le f (at d b i) (at d b j) ⊎ Shared (rest ++ parts l m (suc hi)) i j
      next_order i j u v w = elim (segment-cases l (hi + 1) i) [
        | inl x ↦ elim (segment-cases l (hi + 1) j) [
          | inl y ↦ outside_order i j u v w x y
          | inr (y, y') ↦ inl (first_outside i j u (omega arith) y y')
        ]
        | inr (x, x') ↦ elim (dec_lt j (hi + 1)) [
          | yes y ↦ inside_order i j v x (omega arith)
          | no y ↦ inl (second_outside i j x x' (omega arith) w)
        ]
      ]

      all_parts :
          (P : ℕ × ℕ → Type 0)
          → ((s : ℕ × ℕ) → In s rest → P s)
          → ((s : ℕ × ℕ) → Part l m (suc hi) s → P s)
          → (s : ℕ × ℕ) → In s (rest ++ parts l m (suc hi))
          → P s
      all_parts P h h' s i = elim (In-append s rest (parts l m (suc hi)) i) [
        | inl r ↦ h s r
        | inr r ↦ h' s (In-parts l m (suc hi) q.from (omega (arith, q.upto)) s r)
      ]

      -- A partition of the first segment leaves its parts behind the others.
      pub next-Pending : Pending b (rest ++ parts l m (suc hi))
      next-Pending = record {
        from =
            all_parts (λ s. low ≤ s.0) (λ s r. p.from s (In.there r))
              (λ s r. omega (arith, p.from (l, suc hi) In.here, r.from));
        long = all_parts (λ s. s.0 + 1 < s.1) (λ s r. p.long s (In.there r)) (λ s r. r.long);
        upto =
            all_parts (λ s. s.1 ≤ end) (λ s r. p.upto s (In.there r))
              (λ s r. omega (arith, p.upto (l, suc hi) In.here, r.upto));
        disjoint = disjoint_parts p.disjoint;
        order = next_order;
      }
        where
          apart : (s t : ℕ × ℕ) → Off (l, suc hi) s → Part l m (suc hi) t → Off s t
          apart s t (inl z) r = inr (omega (arith, r.upto))
          apart s t (inr z) r = inl (omega (arith, r.from))

          disjoint_parts : Disjoint ((l, suc hi) ∷ rest) → Disjoint (rest ++ parts l m (suc hi))
          disjoint_parts (Disjoint.more z c) =
              Disjoint-append rest (parts l m (suc hi)) c
                (parts-Disjoint l m (suc hi) q.from (omega (arith, q.upto)))
                (λ s t i j.
                  apart s t (z s i) (In-parts l m (suc hi) q.from (omega (arith, q.upto)) t j))
