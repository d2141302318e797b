-- ===== src/Cluster/Collect.antt =====
-- cluster/common/lcs_common.c: `lcs_hcollect005_sum`, and the line that `lcs_merge005_list` writes
-- for a row. Text is a list of bytes without the final 0. An array that a token does not fit is
-- overrun; so is memory if there is no token where the code expects one. What is printed to
-- `stdout` is left out; `calloc` of a row succeeds.
pub mod Decimal
pub mod Lines
pub mod Freed
use memory_leak.Prelude.{
  ℕ, zero, suc, ◌+◌, ◌-◌, ◌*◌, ◌/◌, ◌%◌, ◌^◌, Bool, true, false, ◌&&◌, ◌||◌, List, [], ◌∷◌, ◌++◌,
  Option, none, some, ltb, leb, ◌==◌, if◌then◌else◌, length, set, replicate,
}
use memory_leak.Prelude.Int.{ℤ, pos, negsuc}
use memory_leak.Prelude.Run.{Run, ok, fault, diverged, ◌>>=◌}
use memory_leak.Prelude.Segment.{load}
use memory_leak.Cluster.Merge.{MergeCounting, merge005_list}

-- A tab and a line feed.
abbrev pub is_delimiter : ℕ → Bool
is_delimiter c = (c == 9) || (c == 10)

-- A token from its first byte on, and what is left behind the delimiter that ends it.
unfoldable pub token : List ℕ → List ℕ × List ℕ
token [] = ([], [])
token (c ∷ text) =
    let rest = token text in if is_delimiter c then ([], text) else (c ∷ rest.0, rest.1)

-- `strtok(text, "\t\n")`, and `strtok(0, "\t\n")` on what is left.
unfoldable pub strtok : List ℕ → Option (List ℕ × List ℕ)
strtok [] = none
strtok (c ∷ text) =
    let rest = strtok text in if is_delimiter c then rest else some (token (c ∷ text))

-- A token that the code needs: it does not test `p`.
unfoldable pub need : List ℕ → Run (List ℕ × List ℕ)
need text = elim (strtok text) [ none ↦ fault | some t ↦ ok t ]

abbrev pub is_digit : ℕ → Bool
is_digit c = leb 48 c && leb c 57

-- The value of the digits at the start, behind the value `v` of those before.
abbrev pub digits_value : (v : ℕ) → List ℕ → ℕ
digits_value v [] = v
digits_value v (c ∷ text) =
    let rest = digits_value (v * 10 + (c - 48)) text in if is_digit c then rest else v

abbrev pub starts_digit : List ℕ → Bool
starts_digit [] = false
starts_digit (c ∷ text) = is_digit c

-- A number behind its sign; without a digit `prior`, what the variable has held, stays. A value
-- that is no `int` is undefined behaviour.
unfoldable pub scan_signed : (negative : Bool) → List ℕ → (prior : ℤ) → Run ℤ
scan_signed negative text prior =
    let v = digits_value 0 text in
    let below =
      if v == 0 then ok (pos 0) else if leb v (2 ^ 31) then ok (negsuc (v - 1)) else fault in
    let above = if ltb v (2 ^ 31) then ok (pos v) else fault in
    if starts_digit text then (if negative then below else above) else ok prior

unfoldable pub scan_sign : List ℕ → (prior : ℤ) → Run ℤ
scan_sign [] prior = ok prior
scan_sign (c ∷ text) prior =
    if c == 45
    then scan_signed true text prior
    else if c == 43
    then scan_signed false text prior
    else scan_signed false (c ∷ text) prior

-- `sscanf(p, "%d", &data)`: white space is skipped.
unfoldable pub scan_int : List ℕ → (prior : ℤ) → Run ℤ
scan_int [] prior = ok prior
scan_int (c ∷ text) prior =
    let rest = scan_int text prior in
    if (c == 32) || (leb 9 c && leb c 13) then rest else scan_sign (c ∷ text) prior

-- `p = strtok(0, "\t\n"); sscanf(p, "%d", &data);`: what is left, and `data`.
unfoldable pub read_counter : List ℕ → (prior : ℤ) → Run (List ℕ × ℤ)
read_counter text prior = do (p, text') ← need text; v ← scan_int p prior; ok (text', v)

-- `strcat` to an empty array of `places` bytes.
unfoldable pub put_string : (places : ℕ) → List ℕ → Run (List ℕ)
put_string places p = if ltb (length p) places then ok p else fault

-- A row, of which `p` is the first token: the row, what is left and `data`.
unfoldable pub read_row : (p text : List ℕ) → (prior : ℤ) → Run (MergeCounting × List ℕ × ℤ)
read_row p text prior = do
  date ← put_string 12 p
  (q, text0) ← need text
  hour ← put_string 4 q
  (text1, totalcall) ← read_counter text0 prior
  (text2, totalfullchannel) ← read_counter text1 totalcall
  (text3, viettelauto) ← read_counter text2 totalfullchannel
  (text4, viettelfull) ← read_counter text3 viettelauto
  (text5, mobileauto) ← read_counter text4 viettelfull
  (text6, mobilefull) ← read_counter text5 mobileauto
  (text7, vinaauto) ← read_counter text6 mobilefull
  (text8, vinafull) ← read_counter text7 vinaauto
  ok (
    record {
      date = date;
      hour = hour;
      totalcall = totalcall;
      totalfullchannel = totalfullchannel;
      viettelauto = viettelauto;
      viettelfull = viettelfull;
      mobileauto = mobileauto;
      mobilefull = mobilefull;
      vinaauto = vinaauto;
      vinafull = vinafull;
    },
    text8,
    vinafull,
  )

-- A round of `while(p)`: without a token the loop ends, else a row and those behind it.
unfoldable pub next_row :
    Option (List ℕ × List ℕ)
    → (prior : ℤ) → (behind : List ℕ → ℤ → Run (List MergeCounting)) → Run (List MergeCounting)
next_row none prior behind = ok []
next_row (some (p, text)) prior behind = do
  (row, text', prior') ← read_row p text prior
  rows ← behind text' prior'
  ok (row ∷ rows)

-- `while(p)`, with fuel: the list of rows in the order of the text.
unfoldable pub read_rows : (fuel : ℕ) → (text : List ℕ) → (prior : ℤ) → Run (List MergeCounting)
read_rows zero text prior = diverged
read_rows (suc fuel) text prior =
    next_row (strtok text) prior (λ text' prior'. read_rows fuel text' prior')

-- `while(node) { free(node); node = node->next; }`: whether each node is allocated, the nodes that
-- are left, and the index of `node`.
unfoldable pub free_rows : (left : ℕ) → List Bool → (node : ℕ) → Run (List Bool)
free_rows zero allocated node = ok allocated
free_rows (suc left) allocated node =
    let freed = set allocated node false in
    load freed node >>= λ readable.
    let rest = free_rows left freed (node + 1) in if readable then rest else fault

-- `lcs_hcollect005_sum(path, text, err)`: the rows that `lcs_merge005_list` writes, if the call
-- returns; `allocated` and `opened` are as there.
unfoldable pub hcollect005_sum :
    (allocated opened : Bool) → (text : List ℕ) → Run (List MergeCounting)
hcollect005_sum allocated opened text = do
  root ← read_rows (length text + 1) text (pos 0)
  written ← (if length root == 0 then ok [] else merge005_list allocated opened root (length root))
  nodes ← free_rows (length root) (replicate (length root) true) 0
  ok written

-- `%d`, with fuel for the number of digits.
unfoldable pub digits : (fuel : ℕ) → ℕ → List ℕ
digits zero n = []
digits (suc fuel) n =
    let high = digits fuel (n / 10) in
    if ltb n 10 then (48 + n) ∷ [] else high ++ (48 + n % 10) ∷ []

unfoldable pub decimal : ℤ → List ℕ
decimal (pos n) = digits (n + 1) n
decimal (negsuc n) = 45 ∷ digits (n + 2) (n + 1)

-- What stands behind a field: a tab, or a line feed behind the last.
abbrev pub separator : List (List ℕ) → ℕ
separator [] = 10
separator (x ∷ fields) = 9

abbrev pub print_fields : List (List ℕ) → List ℕ
print_fields [] = []
print_fields (x ∷ fields) = x ++ separator fields ∷ print_fields fields

-- "%s\t%s\t%d\t%d\t%d\t%d\t%d\t%d\t%d\t%d\n"
unfoldable pub print_row : MergeCounting → List ℕ
print_row r = print_fields (
    r.date
    ∷ r.hour
    ∷ decimal r.totalcall
    ∷ decimal r.totalfullchannel
    ∷ decimal r.viettelauto
    ∷ decimal r.viettelfull
    ∷ decimal r.mobileauto
    ∷ decimal r.mobilefull
    ∷ decimal r.vinaauto
    ∷ decimal r.vinafull
    ∷ [])

-- The file.
unfoldable pub print_rows : List MergeCounting → List ℕ
print_rows [] = []
print_rows (r ∷ rows) = print_row r ++ print_rows rows
