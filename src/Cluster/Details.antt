-- ===== src/Cluster/Details.antt =====
-- The table of cluster/shmcreate_audd/main.c in shared memory (`lcs_audd_shmload`,
-- `lcs_audd_shmwrite`), and how cluster/A_000008_05m/a_000008.c looks an id up in it. The members
-- `au` and `h` of its n + 1 places are two lists. A row comes from the database with its numbers
-- read; an index below 0 is none.
pub mod Places
pub mod Lookup
mod Tests
use memory_leak.Prelude.{
  ℕ, zero, suc, ◌+◌, ◌%◌, Bool, true, false, List, [], ◌∷◌, ◌++◌, Option, none, some, ltb, ◌==◌,
  if◌then◌else◌, length, set, replicate,
}
use memory_leak.Prelude.Run.{Run, ok, fault, ◌>>=◌}
use memory_leak.Prelude.Segment.{load}

-- LCS_AUDD_HASH_ARR_N
abbrev pub hash_places : ℕ
hash_places = 2

pub record Detail : Type 0 where
  pub id : ℕ
  pub phone_type : List ℕ
  pub skill : ℕ
  pub customer_id : List ℕ
  pub application_id : List ℕ
  pub note : List ℕ
  pub phone_number : List ℕ

-- What the memory holds after `memset(data, 0, sz)`.
abbrev pub no_detail : Detail
no_detail = record {
  id = 0;
  phone_type = [];
  skill = 0;
  customer_id = [];
  application_id = [];
  note = [];
  phone_number = [];
}

-- The number of rows `n` and of those written `i`, and the places.
pub record Details : Type 0 where
  pub n : ℕ
  pub i : ℕ
  pub au : List Detail
  pub h : List (List (Option ℕ))

-- `lcs_audd_shmload` before the rows: `h` of the first n places is filled with -1.
abbrev pub empty_details : ℕ → Details
empty_details n = record {
  n = n;
  i = 0;
  au = replicate (n + 1) no_detail;
  h = replicate n (replicate hash_places none) ++ replicate hash_places (some 0) ∷ [];
}

-- `while(t < LCS_AUDD_HASH_ARR_N)`: the first free place takes the index; if there is none, it is
-- lost.
unfoldable pub take_place : List (Option ℕ) → (k : ℕ) → List (Option ℕ)
take_place [] k = []
take_place (none ∷ h) k = some k ∷ h
take_place (some x ∷ h) k = some x ∷ take_place h k

-- `strcat` to the arrays of a row that is all 0.
unfoldable pub fits_arrays : Detail → Bool
fits_arrays d =
    if ltb (length d.phone_type) 8
    then (if ltb (length d.customer_id) 16
        then (if ltb (length d.application_id) 32
            then (if ltb (length d.note) 255 then ltb (length d.phone_number) 25 else false)
            else false)
        else false)
    else false

-- `lcs_audd_shmwrite`
unfoldable pub audd_shmwrite : Detail → Details → Run Details
audd_shmwrite d p =
    let written = load p.au p.i >>= λ _. load p.h (d.id % p.n) >>= λ h. ok record {
      n = p.n;
      i = p.i + 1;
      au = set p.au p.i d;
      h = set p.h (d.id % p.n) (take_place h p.i);
    } in
    if p.n == 0 then fault else if fits_arrays d then written else fault

-- `sqlite3_exec` calls it for each row, in order.
unfoldable pub write_details : List Detail → Details → Run Details
write_details [] p = ok p
write_details (d ∷ rows) p = audd_shmwrite d p >>= λ p'. write_details rows p'

-- `while(t < LCS_AUDD_HASH_ARR_N)` of the lookup.
unfoldable pub search_places : (u : ℕ) → List Detail → List (Option ℕ) → Run (Option Detail)
search_places u au [] = ok none
search_places u au (none ∷ h) = ok none
search_places u au (some x ∷ h) =
    let rest = search_places u au h in load au x >>= λ d. if u == d.id then ok (some d) else rest

-- The lookup of `u` in `lcs_exec_cbtrue`: `p0`, if it is set.
unfoldable pub find_detail : (u : ℕ) → Details → Run (Option Detail)
find_detail u p =
    let found = load p.h (u % p.n) >>= λ h. search_places u p.au h in
    if p.n == 0 then fault else found
