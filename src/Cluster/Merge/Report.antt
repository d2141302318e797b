-- ===== src/Cluster/Merge/Report.antt =====
-- `lcs_merge005_list` from the rows as read to the rows as written.
use mathlib.Core.List.Perm
use memory_leak.Prelude.{
  ℕ, zero, suc, ◌+◌, ◌<◌, ◌≡◌, refl, true, List, [], ◌∷◌, length, le→ltb, arith,
}
use memory_leak.Prelude.Run.{◌>>=◌, Returns}
use memory_leak.Prelude.Segment.{at, Shuffle-every}
use memory_leak.Cluster.Sort.{at_most}
use memory_leak.Cluster.Sort.Sorted.{quick_sort-Sorts}
use memory_leak.Cluster.Merge.{MergeCounting, merge_counting_cb, merge005_list}
use memory_leak.Cluster.Merge.Totals.{
  merge_counting_cb-IsOrder, IsCount, Fits, SameTotals, SameTotals-trans, SameTotals-perm,
  SameTotals-Fits,
}
use memory_leak.Cluster.Merge.Steps.{AllCount}
use memory_leak.Cluster.Merge.Runs.{Climbs}
use memory_leak.Cluster.Merge.Groups.{Ascending, merge_rows-Merged}

Climbs-of_neighbours :
    (d : MergeCounting) (a : List MergeCounting)
    → ((i : ℕ) → suc i < length a → at_most (merge_counting_cb (at d a i) (at d a (suc i))) ≡ true)
    → Climbs a
Climbs-of_neighbours d [] h = Climbs.none
Climbs-of_neighbours d (x ∷ []) h = Climbs.one
Climbs-of_neighbours d (x ∷ y ∷ a) h =
    Climbs.more (h 0 (omega arith))
      (Climbs-of_neighbours d (y ∷ a) (λ i l. h (suc i) (omega arith)))

AllCount-at :
    (d : MergeCounting) (a : List MergeCounting)
    → IsCount d
    → AllCount a
    → (k : ℕ) → IsCount (at d a k)
AllCount-at d [] c h k = c
AllCount-at d (x ∷ a) c (AllCount.more h t) zero = h
AllCount-at d (x ∷ a) c (AllCount.more h t) (suc k) = AllCount-at d a c t k

AllCount-of_at :
    (d : MergeCounting) (a : List MergeCounting) → ((k : ℕ) → IsCount (at d a k)) → AllCount a
AllCount-of_at d [] h = AllCount.none
AllCount-of_at d (x ∷ a) h = AllCount.more (h 0) (AllCount-of_at d a (λ k. h (suc k)))

-- Rows of which there is at least one, whose counters are not negative, such that no total of a
-- counter over the rows of one date and hour exceeds an `int`, and which are counted right: if
-- memory and the file can be had, `lcs_merge005_list` ends without fault. The rows that it writes
-- are in strictly ascending order of date and hour, so that none occurs twice; they have the
-- dates and hours of the rows given, and for each of them the totals of all eight counters.
pub merge005_list-SameTotals :
    (root : List MergeCounting)
    → 0 < length root
    → AllCount root
    → Fits root
    → Returns
        (merge005_list true true root (length root))
        λ out. Ascending out × SameTotals root out
unfolding merge005_list
merge005_list-SameTotals [] h c f = absurd (omega arith)
merge005_list-SameTotals (r ∷ rest) h (AllCount.more c t) f =
    let root : List MergeCounting = r ∷ rest in
    let (arr, run, s) =
      quick_sort-Sorts merge_counting_cb r merge_counting_cb-IsOrder (λ x. x) (length root + 1) root
        0 (length root) h (omega arith) (omega arith) (λ k. refl) in
    let same = SameTotals-perm (Perm.symm s.shuffle.perm) in
    let len : length arr ≡ length root = s.shuffle.len in
    let counts =
      AllCount-of_at r arr
        (Shuffle-every r IsCount s.shuffle (AllCount-at r root c (AllCount.more c t))) in
    let climbs =
      Climbs-of_neighbours r arr
        (λ i l. s.sorted i (suc i) (omega arith) (omega arith) (omega arith)) in
    let (out, run', w) =
      merge_rows-Merged (length root + 1) arr [] arr (length root) 0 refl refl (omega (arith, len))
        (omega (arith, len)) climbs counts (SameTotals-Fits root arr same f) in
    (
      out,
      rw (le→ltb (length root + 1) (length root) (omega arith), run, ◌>>=◌) run',
      (w.ascending, SameTotals-trans root arr out same w.same),
    )
