-- ===== src/Cluster/Directory/Entries.antt =====
-- What the loops of `lcs_comm_subdir` and `lcs_comm_list_files` over the entries do.
use native.Mathlib.Decide.{dec_lt}
use memory_leak.Prelude.{
  ℕ, suc, ◌+◌, ◌≤◌, ◌<◌, ◌≡◌, inl, inr, refl, Bool, true, false, List, [], ◌∷◌, ◌++◌, append-nil,
  append_assoc, if◌then◌else◌, length, length-append, arith, Bool-cases, lt→ltb, le→ltb,
}
use memory_leak.Prelude.Run.{ok, fault, ◌>>=◌}
use memory_leak.Cluster.Directory.{
  Stat, Entry, Listing, is_dot, result_places, tmp_bytes, keep_name, note_entry, read_entries,
}

-- `*err` behind an entry: 1 if `stat` has failed.
abbrev pub stat_err : Stat → ℕ → ℕ
stat_err Stat.failed err = 1
stat_err Stat.folder err = err
stat_err Stat.regular err = err
stat_err Stat.special err = err

abbrev pub errors : List Entry → ℕ → ℕ
errors [] err = err
errors (e ∷ entries) err =
    if is_dot e.d_name then errors entries err else errors entries (stat_err e.stat err)

-- The names of the entries that are wanted, but for the two that are skipped.
abbrev pub kept : (wanted : Stat → Bool) → List Entry → List (List ℕ)
kept wanted [] = []
kept wanted (e ∷ entries) =
    if is_dot e.d_name
    then kept wanted entries
    else if wanted e.stat
    then e.d_name ∷ kept wanted entries
    else kept wanted entries

-- Each path fits the bytes of `tmp`.
pub data AllFit (path : List ℕ) : List Entry → Type 0 where
  none : AllFit path []
  more :
      {e : Entry} {entries : List Entry}
      → length path + 1 + length e.d_name < tmp_bytes
      → AllFit path entries
      → AllFit path (e ∷ entries)

-- The loop with the names and `*err` so far.
unfoldable pub listed : (wanted : Stat → Bool) → List Entry → Listing → Listing
listed wanted entries l = record {
  names = l.names ++ kept wanted entries;
  err = errors entries l.err;
}

module _ (wanted : Stat → Bool) (h : wanted Stat.failed ≡ false) where
  keeps :
      (name : List ℕ) (s : Stat) (l : Listing)
      → wanted s ≡ true
      → length l.names < result_places
      → note_entry wanted name s l
        ≡ ok record { names = l.names ++ name ∷ []; err = stat_err s l.err }
  unfolding note_entry keep_name
  keeps name Stat.failed l e k = cc
  keeps name Stat.folder l e k = rw (e, lt→ltb (length l.names) result_places k) refl
  keeps name Stat.regular l e k = rw (e, lt→ltb (length l.names) result_places k) refl
  keeps name Stat.special l e k = rw (e, lt→ltb (length l.names) result_places k) refl

  full :
      (name : List ℕ) (s : Stat) (l : Listing)
      → wanted s ≡ true
      → result_places ≤ length l.names
      → note_entry wanted name s l ≡ fault
  unfolding note_entry keep_name
  full name Stat.failed l e k = cc
  full name Stat.folder l e k = rw (e, le→ltb (length l.names) result_places k) refl
  full name Stat.regular l e k = rw (e, le→ltb (length l.names) result_places k) refl
  full name Stat.special l e k = rw (e, le→ltb (length l.names) result_places k) refl

  passes :
      (name : List ℕ) (s : Stat) (l : Listing)
      → wanted s ≡ false
      → note_entry wanted name s l ≡ ok record { names = l.names; err = stat_err s l.err }
  unfolding note_entry
  passes name Stat.failed l e = refl
  passes name Stat.folder l e = rw e refl
  passes name Stat.regular l e = rw e refl
  passes name Stat.special l e = rw e refl

  -- What the loop returns: nothing but a fault if there are more names than places.
  module _ (path : List ℕ) where
    added : Entry → Listing → Listing
    added e l = record { names = l.names ++ e.d_name ∷ []; err = stat_err e.stat l.err }

    pub read_entries-listed :
        (entries : List Entry) (l : Listing)
        → AllFit path entries
        → length l.names + length (kept wanted entries) ≤ result_places
        → read_entries wanted path entries l ≡ ok (listed wanted entries l)
    unfolding read_entries listed added
    read_entries-listed [] l f k = rw (append-nil l.names) refl
    read_entries-listed (e ∷ entries) l (AllFit.more f fs) k = elim (Bool-cases (is_dot e.d_name)) [
      | inl t ↦ rw t (read_entries-listed entries l fs (rw t at k))
      | inr t ↦ elim (Bool-cases (wanted e.stat)) [
        | inl w ↦
            let more : length l.names + suc (length (kept wanted entries)) ≤ result_places =
              rw (t, w) at k in
            let rest =
              read_entries-listed entries (added e l) fs
                (omega (arith, length-append l.names (e.d_name ∷ []), more)) in
            rw
              (
                t,
                lt→ltb (length path + 1 + length e.d_name) tmp_bytes f,
                keeps e.d_name e.stat l w (omega (arith, more)),
                ◌>>=◌,
                w,
              )
              (rw (append_assoc l.names (e.d_name ∷ []) (kept wanted entries)) at rest)
        | inr w ↦
            rw
              (
                t,
                lt→ltb (length path + 1 + length e.d_name) tmp_bytes f,
                passes e.d_name e.stat l w,
                ◌>>=◌,
                w,
              )
              (read_entries-listed entries record { names = l.names; err = stat_err e.stat l.err }
                fs (rw (t, w) at k))
      ]
    ]

    pub read_entries-fault :
        (entries : List Entry) (l : Listing)
        → AllFit path entries
        → length l.names ≤ result_places
        → result_places < length l.names + length (kept wanted entries)
        → read_entries wanted path entries l ≡ fault
    unfolding read_entries added
    read_entries-fault [] l f h' k = absurd (omega (arith, h', k))
    read_entries-fault (e ∷ entries) l (AllFit.more f fs) h' k =
        elim (Bool-cases (is_dot e.d_name)) [
          | inl t ↦ rw t (read_entries-fault entries l fs h' (rw t at k))
          | inr t ↦ elim (Bool-cases (wanted e.stat)) [
            | inl w ↦
                let more : result_places < length l.names + suc (length (kept wanted entries)) =
                  rw (t, w) at k in
                elim (dec_lt (length l.names) result_places) [
                  | yes r ↦
                      rw
                        (
                          t,
                          lt→ltb (length path + 1 + length e.d_name) tmp_bytes f,
                          keeps e.d_name e.stat l w r,
                          ◌>>=◌,
                        )
                        (read_entries-fault entries (added e l) fs
                          (omega (arith, length-append l.names (e.d_name ∷ [])))
                          (omega (arith, length-append l.names (e.d_name ∷ []), more)))
                  | no r ↦
                      rw
                        (
                          t,
                          lt→ltb (length path + 1 + length e.d_name) tmp_bytes f,
                          full e.d_name e.stat l w (omega arith),
                          ◌>>=◌,
                        )
                        refl
                ]
            | inr w ↦
                rw
                  (
                    t,
                    lt→ltb (length path + 1 + length e.d_name) tmp_bytes f,
                    passes e.d_name e.stat l w,
                    ◌>>=◌,
                  )
                  (read_entries-fault entries
                    record { names = l.names; err = stat_err e.stat l.err } fs h' (rw (t, w) at k))
          ]
        ]
