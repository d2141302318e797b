-- ===== src/Cluster/Collect/Lines.antt =====
-- What `lcs_merge005_list` writes, `lcs_hcollect005_sum` reads as the same rows.
use memory_leak.Prelude.{
  ℕ, zero, suc, ◌<◌, ◌≡◌, refl, true, List, [], ◌∷◌, ◌++◌, append_assoc, some, length, arith,
  lt→ltb,
}
use memory_leak.Prelude.Int.{ℤ}
use memory_leak.Prelude.Run.{ok, ◌>>=◌}
use memory_leak.Quicksort.Order.{IsInt}
use memory_leak.Cluster.Merge.{MergeCounting}
use memory_leak.Cluster.Collect.{
  is_delimiter, token, strtok, need, read_counter, put_string, read_row, next_row, read_rows,
  decimal, separator, print_fields, print_row, print_rows,
}
use memory_leak.Cluster.Collect.Decimal.{scan_int-decimal, IsWord, decimal-IsWord}

separator_is : (fields : List (List ℕ)) → is_delimiter (separator fields) ≡ true
separator_is [] = refl
separator_is (x ∷ fields) = refl

token-word :
    (x text : List ℕ) (c : ℕ) → IsWord x → is_delimiter c ≡ true → token (x ++ c ∷ text) ≡ (x, text)
unfolding token
token-word [] text c w h = elim w [ ]
token-word (b ∷ []) text c (IsWord.one e) h = rw (e, h) refl
token-word (b ∷ x) text c (IsWord.more e w) h = rw (e, token-word x text c w h) refl

strtok-word :
    (x text : List ℕ) (c : ℕ)
    → IsWord x
    → is_delimiter c ≡ true
    → strtok (x ++ c ∷ text) ≡ some (x, text)
unfolding strtok
strtok-word [] text c w h = elim w [ ]
strtok-word (b ∷ []) text c (IsWord.one e) h =
    rw (e, token-word (b ∷ []) text c (IsWord.one e) h) refl
strtok-word (b ∷ x) text c (IsWord.more e w) h =
    rw (e, token-word (b ∷ x) text c (IsWord.more e w) h) refl

-- The first field of a line.
strtok-field :
    (x : List ℕ) (fields : List (List ℕ)) (text : List ℕ)
    → IsWord x
    → strtok (print_fields (x ∷ fields) ++ text) ≡ some (x, print_fields fields ++ text)
strtok-field x fields text w =
    rw (append_assoc x (separator fields ∷ print_fields fields) text)
      (strtok-word x (print_fields fields ++ text) (separator fields) w (separator_is fields))

read_counter-field :
    (z prior : ℤ) (fields : List (List ℕ)) (text : List ℕ)
    → IsInt z
    → read_counter (print_fields (decimal z ∷ fields) ++ text) prior
      ≡ ok (print_fields fields ++ text, z)
unfolding read_counter need
read_counter-field z prior fields text h =
    rw (strtok-field (decimal z) fields text (decimal-IsWord z), ◌>>=◌, scan_int-decimal z prior h)
      refl

-- A row that the code can write and read: its date and hour are words that fit their arrays, its
-- counters are `int`s.
pub record IsPrintable (r : MergeCounting) : Type 0 where
  pub date_word : IsWord r.date
  pub date_fits : length r.date < 12
  pub hour_word : IsWord r.hour
  pub hour_fits : length r.hour < 4
  pub totalcall : IsInt r.totalcall
  pub totalfullchannel : IsInt r.totalfullchannel
  pub viettelauto : IsInt r.viettelauto
  pub viettelfull : IsInt r.viettelfull
  pub mobileauto : IsInt r.mobileauto
  pub mobilefull : IsInt r.mobilefull
  pub vinaauto : IsInt r.vinaauto
  pub vinafull : IsInt r.vinafull

pub data AllPrintable : List MergeCounting → Type 0 where
  none : AllPrintable []
  more :
      {r : MergeCounting} {rows : List MergeCounting}
      → IsPrintable r
      → AllPrintable rows
      → AllPrintable (r ∷ rows)

-- What stands behind the date on the line of a row.
unfoldable pub behind_date : MergeCounting → List (List ℕ)
behind_date r =
    r.hour
    ∷ decimal r.totalcall
    ∷ decimal r.totalfullchannel
    ∷ decimal r.viettelauto
    ∷ decimal r.viettelfull
    ∷ decimal r.mobileauto
    ∷ decimal r.mobilefull
    ∷ decimal r.vinaauto
    ∷ decimal r.vinafull
    ∷ []

read_row-print :
    (r : MergeCounting) (text : List ℕ) (prior : ℤ)
    → IsPrintable r
    → read_row r.date (print_fields (behind_date r) ++ text) prior ≡ ok (r, text, r.vinafull)
unfolding read_row need put_string behind_date
read_row-print r text prior p =
    rw
      (
        lt→ltb (length r.date) 12 p.date_fits,
        ◌>>=◌,
        strtok-field r.hour
            (decimal r.totalcall
              ∷ decimal r.totalfullchannel
              ∷ decimal r.viettelauto
              ∷ decimal r.viettelfull
              ∷ decimal r.mobileauto
              ∷ decimal r.mobilefull
              ∷ decimal r.vinaauto
              ∷ decimal r.vinafull
              ∷ [])
            text p.hour_word,
        lt→ltb (length r.hour) 4 p.hour_fits,
        read_counter-field r.totalcall prior
            (decimal r.totalfullchannel
              ∷ decimal r.viettelauto
              ∷ decimal r.viettelfull
              ∷ decimal r.mobileauto
              ∷ decimal r.mobilefull
              ∷ decimal r.vinaauto
              ∷ decimal r.vinafull
              ∷ [])
            text p.totalcall,
        read_counter-field r.totalfullchannel r.totalcall
            (decimal r.viettelauto
              ∷ decimal r.viettelfull
              ∷ decimal r.mobileauto
              ∷ decimal r.mobilefull
              ∷ decimal r.vinaauto
              ∷ decimal r.vinafull
              ∷ [])
            text p.totalfullchannel,
        read_counter-field r.viettelauto r.totalfullchannel
            (decimal r.viettelfull
              ∷ decimal r.mobileauto
              ∷ decimal r.mobilefull
              ∷ decimal r.vinaauto
              ∷ decimal r.vinafull
              ∷ [])
            text p.viettelauto,
        read_counter-field r.viettelfull r.viettelauto
            (decimal r.mobileauto
              ∷ decimal r.mobilefull
              ∷ decimal r.vinaauto
              ∷ decimal r.vinafull
              ∷ [])
            text p.viettelfull,
        read_counter-field r.mobileauto r.viettelfull
            (decimal r.mobilefull ∷ decimal r.vinaauto ∷ decimal r.vinafull ∷ []) text p.mobileauto,
        read_counter-field r.mobilefull r.mobileauto (decimal r.vinaauto ∷ decimal r.vinafull ∷ [])
            text p.mobilefull,
        read_counter-field r.vinaauto r.mobilefull (decimal r.vinafull ∷ []) text p.vinaauto,
        read_counter-field r.vinafull r.vinaauto [] text p.vinafull,
      )
      refl

print_row-strtok :
    (r : MergeCounting) (text : List ℕ)
    → IsPrintable r
    → strtok (print_row r ++ text) ≡ some (r.date, print_fields (behind_date r) ++ text)
unfolding print_row behind_date
print_row-strtok r text p = strtok-field r.date (behind_date r) text p.date_word

read_rows_more :
    (fuel : ℕ) (text p rest text' : List ℕ) (prior prior' : ℤ) (r : MergeCounting)
    (rows : List MergeCounting)
    → strtok text ≡ some (p, rest)
    → read_row p rest prior ≡ ok (r, text', prior')
    → read_rows fuel text' prior' ≡ ok rows
    → read_rows (suc fuel) text prior ≡ ok (r ∷ rows)
unfolding read_rows next_row
read_rows_more fuel text p rest text' prior prior' r rows e h k = rw (e, h, ◌>>=◌, k) refl

-- For rows whose date and hour are words without tab and line feed that fit their arrays, and
-- whose counters are `int`s, with more rounds than rows: the loop of `lcs_hcollect005_sum` that
-- reads the text that `lcs_merge005_list` writes for the rows returns them, in order.
pub read_rows-print_rows :
    (fuel : ℕ) (rows : List MergeCounting) (prior : ℤ)
    → AllPrintable rows
    → length rows < fuel
    → read_rows fuel (print_rows rows) prior ≡ ok rows
unfolding read_rows next_row print_rows strtok
read_rows-print_rows zero rows prior a h = absurd (omega arith)
read_rows-print_rows (suc fuel) [] prior a h = refl
read_rows-print_rows (suc fuel) (r ∷ rows) prior (AllPrintable.more p a) h =
    read_rows_more fuel (print_row r ++ print_rows rows) r.date
      (print_fields (behind_date r) ++ print_rows rows) (print_rows rows) prior r.vinafull r rows
      (print_row-strtok r (print_rows rows) p) (read_row-print r (print_rows rows) prior p)
      (read_rows-print_rows fuel rows r.vinafull a (omega arith))
