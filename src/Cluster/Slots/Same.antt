-- ===== src/Cluster/Slots/Same.antt =====
-- `quick_sort_non_recursive_improve` does what `quick_sort_non_recursive` does.
use Prim.Native.Nat.{Ordering}
use mathlib.Core.Path.{subst}
use memory_leak.Prelude.{
  ℕ, zero, suc, ◌+◌, ◌-◌, ◌≤◌, ◌<◌, ◌≡◌, inl, inr, refl, ap, ◌∙◌, List, [], ◌∷◌, ◌++◌, append-nil,
  append_assoc, ltb, length, length-append, replicate, arith, Bool-cases, ltb→lt,
}
use memory_leak.Prelude.Run.{ok, ◌>>=◌, Returns}
use memory_leak.Cluster.Sort.{drain_segments, quick_sort_non_recursive}
use memory_leak.Cluster.Sort.Order.{IsOrder, AllKept}
use memory_leak.Cluster.Sort.Cross.{AllKept-Shuffle}
use memory_leak.Cluster.Sort.Partition.{partition-Partitioned}
use memory_leak.Cluster.Sort.Sorted.{Sorts}
use memory_leak.Cluster.Sort.Segments.{In, parts, work, work-append, work-parts}
use memory_leak.Cluster.Sort.Worklist.{Pending, next-Pending}
use memory_leak.Cluster.Sort.Drain.{start-Pending, quick_sort_non_recursive-Sorts}
use memory_leak.Cluster.Slots.{Slots, store, drain_slots, quick_sort_non_recursive_improve}
use memory_leak.Cluster.Slots.Places.{
  Holds, store_next, length-work, load-low, load-hi, load_end, slots_step, pushes,
}

module _ {ℓ} {A : Type ℓ} (f : A → A → Ordering) (d : A) (o : IsOrder f) (keep : A → A) where
  module _ (low end size : ℕ) where
    -- The loops do the same with the same segments.
    drain_slots-drain_segments :
        (fuel jump : ℕ) (done waiting : List (ℕ × ℕ)) (s : Slots) (a : List A)
        → jump ≡ length done
        → Holds size (done ++ waiting) s
        → length done + work waiting < size
        → end ≤ length a
        → AllKept keep d a
        → Pending f d low end a waiting
        → drain_slots f keep fuel jump s a ≡ drain_segments f keep fuel waiting a
    unfolding drain_slots drain_segments
    drain_slots-drain_segments zero jump done waiting s a e p w l kept q = refl
    drain_slots-drain_segments (suc fuel) jump done [] s a e p w l kept q =
        let last = load_end size done s (rw (append-nil done) at p) (omega arith) in
        rw (e, last, ◌>>=◌) refl
    drain_slots-drain_segments (suc fuel) jump done ((x, zero) ∷ rest) s a e p w l kept q =
        absurd (omega (arith, q.long (x, 0) In.here))
    drain_slots-drain_segments (suc fuel) jump done ((x, suc hi) ∷ rest) s a e p w l kept q =
        let long = q.long (x, suc hi) In.here in
        let upto = q.upto (x, suc hi) In.here in
        let back : suc hi - 1 ≡ hi = omega arith in
        let (r, run, t) =
          partition-Partitioned f keep d o x hi a (omega arith) (omega arith) kept in
        let less = work-parts x r.1 (suc hi) t.from (omega (arith, t.upto)) in
        let sum = work-append rest (parts x r.1 (suc hi)) in
        let next = next-Pending f d low end o keep a r.0 x hi r.1 rest q t in
        let few = length-work (rest ++ parts x r.1 (suc hi)) next.long in
        let first = done ++ (x, suc hi) ∷ [] in
        let count = length-append done ((x, suc hi) ∷ []) in
        let all = done ++ (x, suc hi) ∷ rest in
        let moved : all ++ parts x r.1 (suc hi) ≡ first ++ (rest ++ parts x r.1 (suc hi)) =
          regroup done x hi rest (parts x r.1 (suc hi)) in
        let (s', s'', pl, pr, p') =
          pushes f keep size x r.1 hi all s
            (omega (
              arith,
              ap length moved,
              length-append first (rest ++ parts x r.1 (suc hi)),
              few,
              less,
              sum,
              count,
            ))
            p in
        slots_step f keep fuel jump x hi r.1 s s' s'' a r.0 rest
          (rw (e, load-hi size done rest x (suc hi) s p) (ap ok back))
          (rw e (load-low size done rest x (suc hi) s p)) (omega arith) run pl pr
          (drain_slots-drain_segments fuel (jump + 1) first (rest ++ parts x r.1 (suc hi)) s'' r.0
            (omega (arith, count, e)) (subst (λ t. Holds size t s'') moved p')
            (omega (arith, count, less, sum)) (omega (arith, t.shuffle.len))
            (AllKept-Shuffle f keep d o x (hi + 1) a r.0 t.shuffle kept) next)
      where
        regroup :
            (done : List (ℕ × ℕ)) (x hi : ℕ) (rest ps : List (ℕ × ℕ))
            → (done ++ (x, suc hi) ∷ rest) ++ ps ≡ (done ++ (x, suc hi) ∷ []) ++ (rest ++ ps)
        regroup done x hi rest ps =
            rw
              (
                append_assoc done ((x, suc hi) ∷ rest) ps,
                append_assoc done ((x, suc hi) ∷ []) (rest ++ ps),
              )
              refl

    start-Holds :
        low + 1 < end
        → size ≡ end - low
        → (ls : List ℕ) × (hs : List ℕ) × (store (replicate size 0) 0 low ≡ ok ls)
          × (store (replicate size 0) 0 (end - 1) ≡ ok hs)
          × Holds size ((low, end) ∷ []) record { arr_low = ls; arr_hi = hs; total = 0 }
    start-Holds h e = go size refl
      where
        go :
            (n : ℕ)
            → n ≡ size
            → (ls : List ℕ) × (hs : List ℕ) × (store (replicate n 0) 0 low ≡ ok ls)
              × (store (replicate n 0) 0 (end - 1) ≡ ok hs)
              × Holds size ((low, end) ∷ []) record { arr_low = ls; arr_hi = hs; total = 0 }
        go zero r = absurd (omega arith)
        go (suc free) r = (
          low ∷ replicate free 0,
          (end - 1) ∷ replicate free 0,
          store_next [] free 0 low refl,
          store_next [] free 0 (end - 1) refl,
          record { free = free; low = refl; hi = refl; count = refl; room = omega arith },
        )

  -- With the same fuel both sorts do the same, and the arrays are never overrun.
  quick_sort_non_recursive_improve-same :
      (fuel : ℕ) (a : List A) (low end : ℕ)
      → end ≤ length a
      → AllKept keep d a
      → quick_sort_non_recursive_improve f keep fuel a low end
        ≡ quick_sort_non_recursive f keep fuel a low end
  unfolding quick_sort_non_recursive_improve quick_sort_non_recursive
  quick_sort_non_recursive_improve-same fuel a low end l kept =
      elim (Bool-cases (ltb (low + 1) end)) [
        | inr t ↦ rw t refl
        | inl t ↦
            let more = ltb→lt (low + 1) end t in
            let (ls, hs, el, eh, p) = start-Holds low end (end - low) more refl in
            rw (t, el, ◌>>=◌, eh)
              (drain_slots-drain_segments low end (end - low) fuel 0 [] ((low, end) ∷ [])
                record { arr_low = ls; arr_hi = hs; total = 0 } a refl p (omega arith) l kept
                (start-Pending f d o keep low end a more))
      ]

  -- For a compare function that orders, a segment of an array whose elements all survive the
  -- variable `tmp`, and as much fuel as the segment has elements: the sort that keeps the segments
  -- to do in two arrays, with as many places as there are elements, ends without fault. It returns
  -- what the sort with a list returns: the segment in ascending order, the rest as it was.
  pub quick_sort_non_recursive_improve-Sorts :
      (fuel : ℕ) (a : List A) (low end : ℕ)
      → end ≤ length a
      → end - low ≤ fuel
      → AllKept keep d a
      → Returns
          (quick_sort_non_recursive_improve f keep fuel a low end)
          λ a'. (quick_sort_non_recursive f keep fuel a low end ≡ ok a') × Sorts f d low end a a'
  quick_sort_non_recursive_improve-Sorts fuel a low end l h kept =
      let (a', run, s) = quick_sort_non_recursive-Sorts f d o keep low end fuel a l h kept in
      (a', quick_sort_non_recursive_improve-same fuel a low end l kept ∙ run, (run, s))
