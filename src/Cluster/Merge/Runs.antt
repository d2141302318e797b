-- ===== src/Cluster/Merge/Runs.antt =====
-- Where the rows of one key end, in an array that `lcs_merge_counting_cb` has sorted.
use Prim.Native.Nat.{Ordering}
use memory_leak.Prelude.{
  ℕ, zero, suc, ◌+◌, ◌-◌, ◌<◌, ◌≡◌, inl, inr, refl, sym, ap, true, false, List, [], ◌∷◌, ◌++◌,
  append_assoc, length, length-append, arith, Bool-cases, eq→==, ne→==,
}
use memory_leak.Prelude.Run.{ok, ◌>>=◌}
use memory_leak.Prelude.Segment.{load_behind, load_further}
use memory_leak.Cluster.Sort.{at_most, is_below}
use memory_leak.Cluster.Strings.{strcmp, strcmp_eq, first_difference}
use memory_leak.Cluster.Merge.{MergeCounting, merge_counting_cb, differs, run_end}
use memory_leak.Cluster.Merge.Totals.{SameKey}
use memory_leak.Cluster.Merge.Steps.{Prefix, Prefix-SameKey}

-- No row is above the next.
pub data Climbs : List MergeCounting → Type 0 where
  none : Climbs []
  one : {x : MergeCounting} → Climbs (x ∷ [])
  more :
      {x y : MergeCounting} {rows : List MergeCounting}
      → at_most (merge_counting_cb x y) ≡ true
      → Climbs (y ∷ rows)
      → Climbs (x ∷ y ∷ rows)

differs_first :
    (r s : Ordering)
    → at_most (first_difference r s) ≡ true
    → differs r ≡ true
    → is_below (first_difference r s) ≡ true
differs_first Ordering.lt s h k = refl
differs_first Ordering.eq s h k = cc
differs_first Ordering.gt s h k = h

differs_second :
    (r s : Ordering)
    → at_most (first_difference r s) ≡ true
    → differs r ≡ false
    → differs s ≡ true
    → is_below (first_difference r s) ≡ true
differs_second Ordering.lt s h k l = refl
differs_second Ordering.eq Ordering.lt h k l = refl
differs_second Ordering.eq Ordering.eq h k l = cc
differs_second Ordering.eq Ordering.gt h k l = h
differs_second Ordering.gt s h k l = cc

not_differs : (r : Ordering) → differs r ≡ false → r ≡ Ordering.eq
not_differs Ordering.lt e = cc
not_differs Ordering.eq e = refl
not_differs Ordering.gt e = cc

-- The loop stops at the last row of the key that it starts with.
pub run_end-Prefix :
    (fuel : ℕ) (r : MergeCounting) (rows pre : List MergeCounting) (n : ℕ)
    → n ≡ length pre + suc (length rows)
    → length rows < fuel
    → Climbs (r ∷ rows)
    → (k : ℕ) × (run_end fuel (pre ++ r ∷ rows) n (length pre) ≡ ok (length pre + k))
      × Prefix r k rows
unfolding run_end
run_end-Prefix zero r rows pre n e h c = absurd (omega arith)
run_end-Prefix (suc fuel) r [] pre n e h c =
    let stays : length pre ≡ length pre + 0 = omega arith in
    (0, rw (eq→== (length pre) (n - 1) (omega arith)) (ap ok stays), Prefix.ended)
run_end-Prefix (suc fuel) r (y ∷ rows) pre n e h (Climbs.more below rest) =
    let not_last = ne→== (length pre) (n - 1) (omega arith) in
    let next = load_further pre r [] y rows (length pre + 1) (omega arith) in
    let stays : length pre ≡ length pre + 0 = omega arith in
    elim (Bool-cases (differs (strcmp r.date y.date))) [
      | inl t ↦ (
        0,
        rw (not_last, load_behind pre r (y ∷ rows), ◌>>=◌, next, t) (ap ok stays),
        Prefix.other (differs_first (strcmp r.date y.date) (strcmp r.hour y.hour) below t),
      )
      | inr t ↦ elim (Bool-cases (differs (strcmp r.hour y.hour))) [
        | inl u ↦ (
          0,
          rw (not_last, load_behind pre r (y ∷ rows), ◌>>=◌, next, t, u) (ap ok stays),
          Prefix.other (differs_second (strcmp r.date y.date) (strcmp r.hour y.hour) below t u),
        )
        | inr u ↦
            let same : SameKey y r = record {
              date = sym (strcmp_eq r.date y.date (not_differs (strcmp r.date y.date) t));
              hour = sym (strcmp_eq r.hour y.hour (not_differs (strcmp r.hour y.hour) u));
            } in
            let back : SameKey r y = record { date = sym same.date; hour = sym same.hour } in
            let (k, run, p) =
              run_end-Prefix fuel y rows (pre ++ r ∷ []) n
                (omega (arith, length-append pre (r ∷ []), e)) (omega arith) rest in
            let from : length (pre ++ r ∷ []) ≡ length pre + 1 =
              omega (arith, length-append pre (r ∷ [])) in
            let upto : length pre + 1 + k ≡ length pre + suc k = omega arith in
            (
              suc k,
              rw (not_last, load_behind pre r (y ∷ rows), ◌>>=◌, next, t, u)
                  (rw (append_assoc pre (r ∷ []) (y ∷ rows), from, upto) at run),
              Prefix.longer back (Prefix-SameKey y r k rows same p),
            )
      ]
    ]
