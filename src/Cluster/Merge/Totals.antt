-- ===== src/Cluster/Merge/Totals.antt =====
-- Keys of rows, the date and the hour, and the totals of the counters of the rows with a key.
use mathlib.Core.List.{Perm, Permᴰ}
use mathlib.Core.Logic.{∥∥₁_elim}
use native.Mathlib.Nat.{ℕ_set}
use memory_leak.Prelude.{
  ℕ, zero, suc, ◌+◌, ◌<◌, ◌^◌, ◌≡◌, refl, ◌∙◌, Bool, true, false, not, ◌||◌, List, [], ◌∷◌,
  if◌then◌else◌, get_or, arith,
}
use memory_leak.Prelude.Int.{ℤ, pos, negsuc}
use memory_leak.Prelude.Run.{ok, ◌>>=◌}
use memory_leak.Cluster.Sort.Order.{IsOrder}
use memory_leak.Cluster.Strings.{strcmp-IsOrder, strcmp_same, first_difference-IsOrder}
use memory_leak.Cluster.Merge.{MergeCounting, merge_counting_cb, add_int, add_row, differs}

pub merge_counting_cb-IsOrder : IsOrder merge_counting_cb
merge_counting_cb-IsOrder =
    first_difference-IsOrder (λ row. row.date) (λ row. row.hour) strcmp-IsOrder strcmp-IsOrder

-- The eight counters, by number.
abbrev pub counter : ℕ → MergeCounting → ℤ
counter k row =
    get_or
      (row.totalcall ∷ row.totalfullchannel ∷ row.viettelauto ∷ row.viettelfull ∷ row.mobileauto
        ∷ row.mobilefull ∷ row.vinaauto ∷ row.vinafull ∷ [])
      k (pos 0)

abbrev pub amount : ℤ → ℕ
amount (pos n) = n
amount (negsuc n) = 0

-- Two rows have the same date and hour.
pub record SameKey (a b : MergeCounting) : Type 0 where
  pub date : a.date ≡ b.date
  pub hour : a.hour ≡ b.hour

-- The row has the date and the hour of `x`.
abbrev pub matches : (x row : MergeCounting) → Bool
matches x row = not (differs (merge_counting_cb x row))

-- What counter `k` amounts to in the rows with the date and the hour of `x`.
abbrev pub total : ℕ → (x : MergeCounting) → List MergeCounting → ℕ
total k x [] = 0
total k x (row ∷ rows) = (if matches x row then amount (counter k row) else 0) + total k x rows

-- Some row has the date and the hour of `x`.
abbrev pub occurs : (x : MergeCounting) → List MergeCounting → Bool
occurs x [] = false
occurs x (row ∷ rows) = matches x row || occurs x rows

-- No counter is negative.
abbrev pub IsCount : MergeCounting → Type 0
IsCount row = (k : ℕ) → counter k row ≡ pos (amount (counter k row))

-- No total over the rows of one key exceeds an `int`.
abbrev pub Fits : List MergeCounting → Type 0
Fits rows = (k : ℕ) (x : MergeCounting) → total k x rows < 2 ^ 31

-- Both lists have the same keys, and the same totals for each.
pub record SameTotals (rows rows' : List MergeCounting) : Type 0 where
  pub totals : (k : ℕ) (x : MergeCounting) → total k x rows ≡ total k x rows'
  pub keys : (x : MergeCounting) → occurs x rows ≡ occurs x rows'

pub SameTotals-trans :
    (a b c : List MergeCounting) → SameTotals a b → SameTotals b c → SameTotals a c
SameTotals-trans a b c s t = record {
  totals = λ k x. s.totals k x ∙ t.totals k x;
  keys = λ x. s.keys x ∙ t.keys x;
}

pub SameTotals-cons :
    (row : MergeCounting) (a b : List MergeCounting)
    → SameTotals a b
    → SameTotals (row ∷ a) (row ∷ b)
SameTotals-cons row a b s = record {
  totals = λ k x. omega (arith, s.totals k x);
  keys = λ x. rw (s.keys x) refl;
}

pub SameTotals-Fits :
    (rows rows' : List MergeCounting) → SameTotals rows rows' → Fits rows → Fits rows'
SameTotals-Fits rows rows' s h k x = omega (arith, s.totals k x, h k x)

or_swap : (a b c : Bool) → (a || (b || c)) ≡ (b || (a || c))
or_swap true true c = refl
or_swap true false c = refl
or_swap false b c = refl

-- A rearrangement changes no total.
arranged-SameTotals : {a b : List MergeCounting} → Permᴰ a b → SameTotals a b
arranged-SameTotals Permᴰ.nil = record { totals = λ k x. refl; keys = λ x. refl }
arranged-SameTotals (Permᴰ.cons {a} {b} {l₁ = l} {l₂ = m} e p) =
    rw e (SameTotals-cons b l m (arranged-SameTotals p))
arranged-SameTotals (Permᴰ.swap {a} {b} {a'} {b'} {l} e e') =
    rw (e, e')
      record {
        totals = λ k x. omega arith;
        keys = λ x. or_swap (matches x b') (matches x a') (occurs x l);
      }
arranged-SameTotals (Permᴰ.trans {l₁ = a} {l₂ = b} {l₃ = c} p q) =
    SameTotals-trans a b c (arranged-SameTotals p) (arranged-SameTotals q)

pub SameTotals-perm : {a b : List MergeCounting} → Perm a b → SameTotals a b
SameTotals-perm {a} {b} p = record {
  totals = λ k x.
      ∥∥₁_elim p (ℕ_set (total k x a) (total k x b)) (λ q. (arranged-SameTotals q).totals k x);
  keys = λ x. ∥∥₁_elim p (hlevel) (λ q. (arranged-SameTotals q).keys x);
}

pub matches-SameKey : (x a b : MergeCounting) → SameKey a b → matches x a ≡ matches x b
matches-SameKey x a b s = rw (s.date, s.hour) refl

pub matches_same : (x : MergeCounting) → matches x x ≡ true
matches_same x = rw (strcmp_same x.date, strcmp_same x.hour) refl

add_int_count :
    (x y : ℤ)
    → x ≡ pos (amount x)
    → y ≡ pos (amount y)
    → amount x + amount y < 2 ^ 31
    → add_int x y ≡ ok (pos (amount x + amount y))
unfolding add_int
add_int_count (pos m) (pos n) h k l = ground arith
add_int_count (pos m) (negsuc n) h k l = cc
add_int_count (negsuc m) y h k l = cc

-- The row that `add_row` makes of two rows whose sums fit.
abbrev pub sum_row : (a b : MergeCounting) → MergeCounting
sum_row a b = record {
  date = a.date;
  hour = a.hour;
  totalcall = pos (amount a.totalcall + amount b.totalcall);
  totalfullchannel = pos (amount a.totalfullchannel + amount b.totalfullchannel);
  viettelauto = pos (amount a.viettelauto + amount b.viettelauto);
  viettelfull = pos (amount a.viettelfull + amount b.viettelfull);
  mobileauto = pos (amount a.mobileauto + amount b.mobileauto);
  mobilefull = pos (amount a.mobilefull + amount b.mobilefull);
  vinaauto = pos (amount a.vinaauto + amount b.vinaauto);
  vinafull = pos (amount a.vinafull + amount b.vinafull);
}

pub add_row-sum_row :
    (a b : MergeCounting)
    → IsCount a
    → IsCount b
    → ((k : ℕ) → amount (counter k a) + amount (counter k b) < 2 ^ 31)
    → add_row a b ≡ ok (sum_row a b)
unfolding add_row
add_row-sum_row a b h k l =
    rw
      (
        add_int_count a.totalcall b.totalcall (h 0) (k 0) (l 0),
        ◌>>=◌,
        add_int_count a.totalfullchannel b.totalfullchannel (h 1) (k 1) (l 1),
        add_int_count a.viettelauto b.viettelauto (h 2) (k 2) (l 2),
        add_int_count a.viettelfull b.viettelfull (h 3) (k 3) (l 3),
        add_int_count a.mobileauto b.mobileauto (h 4) (k 4) (l 4),
        add_int_count a.mobilefull b.mobilefull (h 5) (k 5) (l 5),
        add_int_count a.vinaauto b.vinaauto (h 6) (k 6) (l 6),
        add_int_count a.vinafull b.vinafull (h 7) (k 7) (l 7),
      )
      refl

pub counter-sum_row :
    (k : ℕ) (a b : MergeCounting)
    → counter k (sum_row a b) ≡ pos (amount (counter k a) + amount (counter k b))
counter-sum_row zero a b = refl
counter-sum_row (suc zero) a b = refl
counter-sum_row (suc (suc zero)) a b = refl
counter-sum_row (suc (suc (suc zero))) a b = refl
counter-sum_row (suc (suc (suc (suc zero)))) a b = refl
counter-sum_row (suc (suc (suc (suc (suc zero))))) a b = refl
counter-sum_row (suc (suc (suc (suc (suc (suc zero)))))) a b = refl
counter-sum_row (suc (suc (suc (suc (suc (suc (suc zero))))))) a b = refl
counter-sum_row (suc (suc (suc (suc (suc (suc (suc (suc k)))))))) a b = refl

pub sum_row-IsCount : (a b : MergeCounting) → IsCount (sum_row a b)
sum_row-IsCount a b k = rw (counter-sum_row k a b) refl
