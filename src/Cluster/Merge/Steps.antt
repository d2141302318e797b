-- ===== src/Cluster/Merge/Steps.antt =====
-- What `lcs_merge005_list` does with the rows of one key.
use memory_leak.Prelude.{
  ℕ, zero, suc, ◌+◌, ◌≤◌, ◌<◌, ◌^◌, ◌≡◌, refl, sym, ◌∙◌, Bool, true, false, ◌||◌, List, [], ◌∷◌,
  ◌++◌, append_assoc, if◌then◌else◌, length, length-append, drop, arith,
}
use memory_leak.Prelude.Run.{ok, ◌>>=◌}
use memory_leak.Prelude.Segment.{load_behind, load_further, set_behind}
use memory_leak.Cluster.Sort.{is_below}
use memory_leak.Cluster.Merge.{MergeCounting, merge_counting_cb, add_rows}
use memory_leak.Cluster.Merge.Totals.{
  counter, amount, SameKey, matches, matches_same, matches-SameKey, total, occurs, IsCount, Fits,
  SameTotals, SameTotals-trans, SameTotals-Fits, sum_row, add_row-sum_row, counter-sum_row,
  sum_row-IsCount,
}

-- All rows are counts.
pub data AllCount : List MergeCounting → Type 0 where
  none : AllCount []
  more :
      {row : MergeCounting} {rows : List MergeCounting}
      → IsCount row
      → AllCount rows
      → AllCount (row ∷ rows)

-- The first `k` rows have the key of `r`; the row behind them, if there is one, is above it.
pub data Prefix (r : MergeCounting) : ℕ → List MergeCounting → Type 0 where
  ended : Prefix r 0 []
  other :
      {y : MergeCounting} {rows : List MergeCounting}
      → is_below (merge_counting_cb r y) ≡ true
      → Prefix r 0 (y ∷ rows)
  longer :
      {y : MergeCounting} {rows : List MergeCounting} {k : ℕ}
      → SameKey r y
      → Prefix r k rows
      → Prefix r (suc k) (y ∷ rows)

pub Prefix-length :
    (r : MergeCounting) (k : ℕ) (rows : List MergeCounting) → Prefix r k rows → k ≤ length rows
Prefix-length r k rows Prefix.ended = omega arith
Prefix-length r k rows (Prefix.other e) = omega arith
Prefix-length r (suc k) (y ∷ rows) (Prefix.longer s p) = omega (arith, Prefix-length r k rows p)

cases_same :
    (x : Bool) (u v : ℕ) (t : ℕ)
    → (if x then u else 0) + ((if x then v else 0) + t) ≡ (if x then u + v else 0) + t
cases_same true u v t = omega arith
cases_same false u v t = omega arith

or_same : (a c : Bool) → (a || (a || c)) ≡ (a || c)
or_same true c = refl
or_same false c = refl

-- A row is added to the one before it.
sum_row-SameTotals :
    (a b : MergeCounting) (rows : List MergeCounting)
    → SameKey a b
    → SameTotals (a ∷ b ∷ rows) (sum_row a b ∷ rows)
sum_row-SameTotals a b rows s = record {
  totals = λ k x.
      rw (sym (matches-SameKey x a b s), counter-sum_row k a b)
        (cases_same (matches x a) (amount (counter k a)) (amount (counter k b)) (total k x rows));
  keys = λ x. rw (sym (matches-SameKey x a b s)) (or_same (matches x a) (occurs x rows));
}

amounts_fit :
    (a b : MergeCounting) (rows : List MergeCounting) (k : ℕ)
    → SameKey a b
    → Fits (a ∷ b ∷ rows)
    → amount (counter k a) + amount (counter k b) < 2 ^ 31
amounts_fit a b rows k s h =
    let first = matches_same a in
    let second = sym (matches-SameKey a a b s) ∙ first in
    let bound : total k a (a ∷ b ∷ rows) < 2 ^ 31 = h k a in
    let e : total k a (a ∷ b ∷ rows)
        ≡ amount (counter k a) + (amount (counter k b) + total k a rows) =
      rw (first, second) refl in
    omega (arith, e, bound)

pub Prefix-SameKey :
    (r r' : MergeCounting) (k : ℕ) (rows : List MergeCounting)
    → SameKey r r'
    → Prefix r k rows
    → Prefix r' k rows
Prefix-SameKey r r' k rows s Prefix.ended = Prefix.ended
Prefix-SameKey r r' k (y ∷ rows) s (Prefix.other e) = Prefix.other (rw (sym s.date, sym s.hour) e)
Prefix-SameKey r r' (suc k) (y ∷ rows) s (Prefix.longer t p) =
    Prefix.longer record { date = sym s.date ∙ t.date; hour = sym s.hour ∙ t.hour }
      (Prefix-SameKey r r' k rows s p)

-- `r'` holds the key of `r` and the sums of `r` and the first `k` rows.
pub record Folded (r : MergeCounting) (k : ℕ) (rows : List MergeCounting) (r' : MergeCounting)
    : Type 0 where
  pub key : SameKey r r'
  pub count : IsCount r'
  pub same : SameTotals (r ∷ rows) (r' ∷ drop k rows)

-- The loop over `l` adds up the rows of one key.
pub add_rows-Folded :
    (k : ℕ) (r : MergeCounting) (rows pre mid : List MergeCounting) (l : ℕ)
    → l ≡ length pre + suc (length mid)
    → Prefix r k rows
    → AllCount (r ∷ rows)
    → Fits (r ∷ rows)
    → (r' : MergeCounting) × (add_rows k (pre ++ r ∷ (mid ++ rows)) (length pre) l
        ≡ ok (pre ++ r' ∷ (mid ++ rows)))
      × Folded r k rows r'
unfolding add_rows
add_rows-Folded zero r rows pre mid l e p (AllCount.more c _) h = (
  r,
  refl,
  record {
    key = record { date = refl; hour = refl };
    count = c;
    same = record { totals = λ k x. refl; keys = λ x. refl };
  },
)
add_rows-Folded (suc k) r [] pre mid l e p _ h = elim p [ ]
add_rows-Folded (suc k) r (y ∷ rows) pre mid l e (Prefix.longer s p)
      (AllCount.more c (AllCount.more c' rest)) h =
    let sum = sum_row r y in
    let kept : SameKey r sum = record { date = refl; hour = refl } in
    let same = sum_row-SameTotals r y rows s in
    let added = add_row-sum_row r y c c' (λ k. amounts_fit r y rows k s h) in
    let (r', run, t) =
      add_rows-Folded k sum rows pre (mid ++ y ∷ []) (l + 1)
        (omega (arith, length-append mid (y ∷ []), e)) (Prefix-SameKey r sum k rows kept p)
        (AllCount.more (sum_row-IsCount r y) rest)
        (SameTotals-Fits (r ∷ y ∷ rows) (sum ∷ rows) same h) in
    (
      r',
      rw
          (
            load_behind pre r (mid ++ y ∷ rows),
            ◌>>=◌,
            load_further pre r mid y rows l e,
            added,
            set_behind pre r sum (mid ++ y ∷ rows),
          )
          (rw (append_assoc mid (y ∷ []) rows) at run),
      record {
        key = record { date = t.key.date; hour = t.key.hour };
        count = t.count;
        same = SameTotals-trans (r ∷ y ∷ rows) (sum ∷ rows) (r' ∷ drop k rows) same t.same;
      },
    )
