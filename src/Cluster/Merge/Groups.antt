-- ===== src/Cluster/Merge/Groups.antt =====
-- `lcs_merge005_list` writes one row for each date and hour, in order, with the totals.
use memory_leak.Prelude.{
  ℕ, zero, suc, ◌+◌, ◌-◌, ◌<◌, ◌≡◌, refl, sym, ◌∙◌, true, List, [], ◌∷◌, ◌++◌, append_assoc, length,
  length-append, length-drop, take, drop, take-append-drop, length-take_of_le, arith, lt→ltb,
  le→ltb,
}
use memory_leak.Prelude.Run.{ok, ◌>>=◌, Returns}
use memory_leak.Prelude.Segment.{load_behind}
use memory_leak.Cluster.Sort.{is_below}
use memory_leak.Cluster.Merge.{MergeCounting, merge_counting_cb, add_rows, run_end, merge_rows}
use memory_leak.Cluster.Merge.Totals.{
  SameKey, Fits, SameTotals, SameTotals-trans, SameTotals-cons, SameTotals-Fits,
}
use memory_leak.Cluster.Merge.Steps.{AllCount, Prefix, Prefix-length, add_rows-Folded}
use memory_leak.Cluster.Merge.Runs.{Climbs, run_end-Prefix}

-- Each row is below the next in date and hour.
pub data Ascending : List MergeCounting → Type 0 where
  none : Ascending []
  one : {x : MergeCounting} → Ascending (x ∷ [])
  more :
      {x y : MergeCounting} {rows : List MergeCounting}
      → is_below (merge_counting_cb x y) ≡ true
      → Ascending (y ∷ rows)
      → Ascending (x ∷ y ∷ rows)

-- The first rows have the same key.
pub data Starts : List MergeCounting → List MergeCounting → Type 0 where
  nothing : Starts [] []
  first :
      {x y : MergeCounting} {rows rows' : List MergeCounting}
      → SameKey x y
      → Starts (x ∷ rows) (y ∷ rows')

-- The first row, if there is one, is above `r`.
data Above (r : MergeCounting) : List MergeCounting → Type 0 where
  last : Above r []
  next :
      {y : MergeCounting} {rows : List MergeCounting}
      → is_below (merge_counting_cb r y) ≡ true
      → Above r (y ∷ rows)

Prefix-Above :
    (r : MergeCounting) (k : ℕ) (rows : List MergeCounting)
    → Prefix r k rows
    → Above r (drop k rows)
Prefix-Above r k rows Prefix.ended = Above.last
Prefix-Above r k rows (Prefix.other e) = Above.next e
Prefix-Above r (suc k) (y ∷ rows) (Prefix.longer s p) = Prefix-Above r k rows p

Climbs-drop :
    (k : ℕ) (r : MergeCounting) (rows : List MergeCounting)
    → Climbs (r ∷ rows)
    → Climbs (drop k rows)
Climbs-drop zero r [] c = Climbs.none
Climbs-drop (suc k) r [] c = Climbs.none
Climbs-drop zero r (y ∷ rows) (Climbs.more e c) = c
Climbs-drop (suc k) r (y ∷ rows) (Climbs.more e c) = Climbs-drop k y rows c

AllCount-drop : (k : ℕ) (rows : List MergeCounting) → AllCount rows → AllCount (drop k rows)
AllCount-drop zero rows c = c
AllCount-drop (suc k) [] c = c
AllCount-drop (suc k) (y ∷ rows) (AllCount.more h c) = AllCount-drop k rows c

Ascending-cons :
    (r r' : MergeCounting) (rows out : List MergeCounting)
    → SameKey r r'
    → Above r rows
    → Starts rows out
    → Ascending out
    → Ascending (r' ∷ out)
Ascending-cons r r' [] [] s a t c = Ascending.one
Ascending-cons r r' (x ∷ rows) (y ∷ out) s (Above.next e) (Starts.first k) c =
    Ascending.more (rw (sym s.date, sym s.hour, sym k.date, sym k.hour) e) c
Ascending-cons r r' [] (y ∷ out) s a t c = elim t [ ]
Ascending-cons r r' (x ∷ rows) [] s a t c = elim t [ ]

-- The rows written for rows that climb.
pub record Merged (rows out : List MergeCounting) : Type 0 where
  pub ascending : Ascending out
  pub starts : Starts rows out
  pub same : SameTotals rows out

-- A round of the loop, from what its parts return.
merge_rows_round :
    (fuel : ℕ) (r r' : MergeCounting) (rows pre out arr : List MergeCounting) (n m k : ℕ)
    → arr ≡ pre ++ r ∷ rows
    → m ≡ length pre
    → m < n
    → run_end n (pre ++ r ∷ rows) n (length pre) ≡ ok (length pre + k)
    → add_rows k (pre ++ r ∷ rows) (length pre) (length pre + 1) ≡ ok (pre ++ r' ∷ rows)
    → merge_rows fuel (pre ++ r' ∷ rows) n (length pre + k + 1) ≡ ok out
    → merge_rows (suc fuel) arr n m ≡ ok (r' ∷ out)
unfolding merge_rows
merge_rows_round fuel r r' rows pre out arr n m k ea em h ends adds rest =
    let rounds : length pre + k - length pre ≡ k = omega arith in
    rw
      (
        ea,
        em,
        lt→ltb (length pre) n (omega arith),
        ends,
        ◌>>=◌,
        rounds,
        adds,
        load_behind pre r' rows,
        rest,
      )
      refl

pub merge_rows-Merged :
    (fuel : ℕ) (rows pre arr : List MergeCounting) (n m : ℕ)
    → arr ≡ pre ++ rows
    → m ≡ length pre
    → n ≡ length pre + length rows
    → length rows < fuel
    → Climbs rows
    → AllCount rows
    → Fits rows
    → Returns (merge_rows fuel arr n m) (Merged rows)
unfolding merge_rows
merge_rows-Merged zero rows pre arr n m ea em e h c a f = absurd (omega arith)
merge_rows-Merged (suc fuel) [] pre arr n m ea em e h c a f = (
  [],
  rw (le→ltb m n (omega arith)) refl,
  record {
    ascending = Ascending.none;
    starts = Starts.nothing;
    same = record { totals = λ k x. refl; keys = λ x. refl };
  },
)
merge_rows-Merged (suc fuel) (r ∷ rows) pre arr n m ea em e h c a f =
    let (k, ends, p) = run_end-Prefix n r rows pre n e (omega arith) c in
    let (r', adds, t) = add_rows-Folded k r rows pre [] (length pre + 1) (omega arith) p a f in
    let short = Prefix-length r k rows p in
    let done = pre ++ r' ∷ take k rows in
    let whole : pre ++ r' ∷ rows ≡ done ++ drop k rows =
      sym (append_assoc pre (r' ∷ take k rows) (drop k rows) ∙ rw (take-append-drop k rows) refl) in
    let upto : length pre + k + 1 ≡ length done =
      omega (arith, length-append pre (r' ∷ take k rows), length-take_of_le k rows short) in
    let fits = SameTotals-Fits (r ∷ rows) (r' ∷ drop k rows) t.same f in
    let (out, run, w) =
      merge_rows-Merged fuel (drop k rows) done (pre ++ r' ∷ rows) n (length pre + k + 1) whole upto
        (omega (arith, upto, length-drop k rows, short)) (omega (arith, length-drop k rows))
        (Climbs-drop k r rows c) (AllCount-drop (suc k) (r ∷ rows) a)
        (λ k' x. omega (arith, fits k' x)) in
    (
      r' ∷ out,
      merge_rows_round fuel r r' rows pre out arr n m k ea em (omega arith) ends adds run,
      record {
        ascending =
            Ascending-cons r r' (drop k rows) out t.key (Prefix-Above r k rows p) w.starts
              w.ascending;
        starts = Starts.first t.key;
        same =
            SameTotals-trans (r ∷ rows) (r' ∷ drop k rows) (r' ∷ out) t.same
              (SameTotals-cons r' (drop k rows) out w.same);
      },
    )
