-- ===== src/Cluster/Details/Lookup.antt =====
-- What a lookup finds in the table that the rows of the database have been written to.
use native.Mathlib.Nat.{mod-lt}
use memory_leak.Prelude.{
  ℕ, zero, suc, ◌+◌, ◌%◌, ◌<◌, ◌≡◌, inl, inr, refl, sym, ◌∙◌, List, [], ◌∷◌, ◌++◌, append_assoc,
  take, Option, none, some, ◌==◌, if◌then◌else◌, length, length-append, replicate, arith,
  Bool-cases, ne→==,
}
use memory_leak.Prelude.Run.{ok, ◌>>=◌, Returns}
use memory_leak.Prelude.Segment.{load-at, load_behind}
use memory_leak.Cluster.Details.{
  Detail, no_detail, empty_details, hash_places, write_details, search_places, find_detail,
}
use memory_leak.Cluster.Details.Places.{
  slots, numbers, empty_details-Written, AllStorable, write_details-Written,
}

-- The rows of bucket `b`, in order.
abbrev pub bucket : (n b : ℕ) → List Detail → List Detail
bucket n b [] = []
bucket n b (d ∷ rows) = if d.id % n == b then d ∷ bucket n b rows else bucket n b rows

-- The first row with an id.
abbrev pub first_with : (u : ℕ) → List Detail → Option Detail
first_with u [] = none
first_with u (d ∷ rows) = if u == d.id then some d else first_with u rows

-- A search through the places of a bucket is one through its first rows.
search_places-bucket :
    (c u n b : ℕ) (before rows behind au : List Detail)
    → au ≡ before ++ (rows ++ behind)
    → search_places u au (slots c (numbers n b (length before) rows))
      ≡ ok (first_with u (take c (bucket n b rows)))
unfolding search_places
search_places-bucket zero u n b before rows behind au e = refl
search_places-bucket (suc c) u n b before [] behind au e = refl
search_places-bucket (suc c) u n b before (d ∷ rows) behind au e =
    let next : length (before ++ d ∷ []) ≡ length before + 1 =
      omega (arith, length-append before (d ∷ [])) in
    let same : au ≡ (before ++ d ∷ []) ++ (rows ++ behind) =
      e ∙ sym (append_assoc before (d ∷ []) (rows ++ behind)) in
    elim (Bool-cases (d.id % n == b)) [
      | inl t ↦
          let rest = search_places-bucket c u n b (before ++ d ∷ []) rows behind au same in
          let found = load_behind before d (rows ++ behind) in
          elim (Bool-cases (u == d.id)) [
            | inl v ↦ rw (t, e, found, ◌>>=◌, v) refl
            | inr v ↦ rw (t, rw (sym e) at found, ◌>>=◌, v) (rw next at rest)
          ]
      | inr t ↦
          let rest = search_places-bucket (suc c) u n b (before ++ d ∷ []) rows behind au same in
          rw t (rw next at rest)
    ]

-- For at least one row, all of whose texts fit their arrays, counted right: the rows are written to
-- the empty table without fault. The lookup of an id then finds the first row with that id among
-- the first two rows of its bucket, the rows whose ids leave the same remainder, and no row if
-- there is none among these.
pub find_detail-first_with :
    (rows : List Detail) (u : ℕ)
    → 0 < length rows
    → AllStorable rows
    → Returns (write_details rows (empty_details (length rows))) λ p.
      find_detail u p
      ≡ ok (first_with u (take hash_places (bucket (length rows) (u % length rows) rows)))
unfolding find_detail
find_detail-first_with rows u h a =
    let n = length rows in
    let (p, run, w) =
      write_details-Written n [] rows (empty_details n) h (omega arith) a
        (empty_details-Written n) in
    let inside : u % n < n = mod-lt u h in
    (
      p,
      run,
      rw
          (
            w.size,
            ne→== n 0 (omega arith),
            load-at [] p.h (u % n) (omega (arith, w.buckets, inside)),
            ◌>>=◌,
            w.places (u % n) inside,
          )
          (search_places-bucket hash_places u n (u % n) [] rows (replicate w.free no_detail) p.au
            w.stored),
    )
