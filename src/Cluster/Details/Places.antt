-- ===== src/Cluster/Details/Places.antt =====
-- The places of a bucket of `Details`, and the rows written so far.
use mathlib.Core.Path.{subst}
use native.Mathlib.Nat.{mod-lt}
use memory_leak.Prelude.{
  ℕ, zero, suc, ◌+◌, ◌%◌, ◌≤◌, ◌<◌, ◌≡◌, inl, inr, refl, sym, ap, ◌∙◌, true, List, [], ◌∷◌, ◌++◌,
  append-nil, append_assoc, Option, none, some, ◌==◌, if◌then◌else◌, length, length-append,
  length-set, length-replicate, set, replicate, arith, Bool-cases, ==→eq, ne→==,
}
use memory_leak.Prelude.Run.{◌>>=◌, Returns}
use memory_leak.Prelude.Segment.{at, load-at, at-set, set_behind, load_behind}
use memory_leak.Cluster.Details.{
  Detail, Details, no_detail, empty_details, hash_places, take_place, fits_arrays, audd_shmwrite,
  write_details,
}

-- `c` places, of which the first ones hold the numbers of a list.
abbrev pub slots : (c : ℕ) → List ℕ → List (Option ℕ)
slots zero l = []
slots (suc c) [] = none ∷ slots c []
slots (suc c) (x ∷ l) = some x ∷ slots c l

take_place-slots : (c : ℕ) (l : List ℕ) (k : ℕ) → take_place (slots c l) k ≡ slots c (l ++ k ∷ [])
unfolding take_place
take_place-slots zero l k = refl
take_place-slots (suc c) [] k = refl
take_place-slots (suc c) (x ∷ l) k = ap (λ t. some x ∷ t) (take_place-slots c l k)

-- The numbers of the rows of bucket `b`, the first row having the number `from`.
abbrev pub numbers : (n b from : ℕ) → List Detail → List ℕ
numbers n b from [] = []
numbers n b from (d ∷ rows) =
    if d.id % n == b then from ∷ numbers n b (from + 1) rows else numbers n b (from + 1) rows

numbers-append :
    (n b from : ℕ) (rows : List Detail) (d : Detail)
    → numbers n b from (rows ++ d ∷ [])
      ≡ numbers n b from rows ++ (if d.id % n == b then (from + length rows) ∷ [] else [])
numbers-append n b from [] d =
    let here : from ≡ from + 0 = omega arith in
    elim (Bool-cases (d.id % n == b)) [ inl t ↦ rw t (ap (λ x. x ∷ []) here) | inr t ↦ rw t refl ]
numbers-append n b from (x ∷ rows) d =
    let shift : from + 1 + length rows ≡ from + suc (length rows) = omega arith in
    let rest = numbers-append n b (from + 1) rows d in
    elim (Bool-cases (x.id % n == b)) [
      | inl t ↦ rw t (ap (λ l. from ∷ l) (rw shift at rest))
      | inr t ↦ rw t (rw shift at rest)
    ]

-- The rows written: their texts stand in order, and each bucket has the numbers of its first rows.
pub record Written (n : ℕ) (rows : List Detail) (p : Details) : Type 0 where
  pub size : p.n ≡ n
  pub count : p.i ≡ length rows
  pub free : ℕ
  pub stored : p.au ≡ rows ++ replicate free no_detail
  pub room : length rows + free ≡ n + 1
  pub buckets : length p.h ≡ n + 1
  pub places : (b : ℕ) → b < n → at [] p.h b ≡ slots hash_places (numbers n b 0 rows)

at-start :
    (n b : ℕ)
    → b < n
    → at [] (replicate n (replicate hash_places none) ++ replicate hash_places (some 0) ∷ []) b
      ≡ slots hash_places []
at-start zero b h = absurd (omega arith)
at-start (suc n) zero h = refl
at-start (suc n) (suc b) h = at-start n b (omega arith)

pub empty_details-Written : (n : ℕ) → Written n [] (empty_details n)
empty_details-Written n =
    let blank : List (Option ℕ) = replicate hash_places none in
    record {
      size = refl;
      count = refl;
      free = n + 1;
      stored = refl;
      room = omega arith;
      buckets = omega (
        arith,
        length-append (replicate n blank) (replicate hash_places (some 0) ∷ []),
        length-replicate n blank,
      );
      places = at-start n;
    }

-- The index of a row goes to its bucket, if there is room.
next_places :
    (n : ℕ) (rows : List Detail) (d : Detail) (h : List (List (Option ℕ)))
    → 0 < n
    → length h ≡ n + 1
    → ((b : ℕ) → b < n → at [] h b ≡ slots hash_places (numbers n b 0 rows))
    → (b : ℕ) → b < n
    → at [] (set h (d.id % n) (take_place (at [] h (d.id % n)) (length rows))) b
      ≡ slots hash_places (numbers n b 0 (rows ++ d ∷ []))
next_places n rows d h pos_n len w b l =
    let inside : d.id % n < n = mod-lt d.id pos_n in
    let zero_plus : 0 + length rows ≡ length rows = omega arith in
    let moved =
      at-set [] h (d.id % n) b (take_place (at [] h (d.id % n)) (length rows))
        (omega (arith, len, inside)) in
    elim (Bool-cases (d.id % n == b)) [
      | inl t ↦
          let same : d.id % n ≡ b = ==→eq (d.id % n) b t in
          rw
            (
              moved,
              numbers-append n b 0 rows d,
              t,
              same,
              w b l,
              take_place-slots hash_places (numbers n b 0 rows) (length rows),
              zero_plus,
            )
            refl
      | inr t ↦ rw (moved, numbers-append n b 0 rows d, t, append-nil (numbers n b 0 rows)) (w b l)
    ]

take-Written :
    (n : ℕ) (rows : List Detail) (d : Detail) (p : Details)
    → 0 < n
    → length rows < n
    → fits_arrays d ≡ true
    → Written n rows p
    → Returns (audd_shmwrite d p) (Written n (rows ++ d ∷ []))
unfolding audd_shmwrite
take-Written n rows d p h l f w = with_free w.free w.stored w.room
  where
    with_free :
        (free : ℕ)
        → p.au ≡ rows ++ replicate free no_detail
        → length rows + free ≡ n + 1
        → Returns (audd_shmwrite d p) (Written n (rows ++ d ∷ []))
    with_free zero e r = absurd (omega arith)
    with_free (suc free) e r =
        let inside : d.id % n < n = mod-lt d.id h in
        (
          record {
            n = n;
            i = length rows + 1;
            au = rows ++ d ∷ replicate free no_detail;
            h = set p.h (d.id % n) (take_place (at [] p.h (d.id % n)) (length rows));
          },
          rw
              (
                w.size,
                ne→== n 0 (omega arith),
                f,
                w.count,
                e,
                load_behind rows no_detail (replicate free no_detail),
                ◌>>=◌,
                load-at [] p.h (d.id % n) (omega (arith, w.buckets, inside)),
                set_behind rows no_detail d (replicate free no_detail),
              )
              refl,
          record {
            size = refl;
            count = omega (arith, length-append rows (d ∷ []));
            free = free;
            stored = sym (append_assoc rows (d ∷ []) (replicate free no_detail));
            room = omega (arith, length-append rows (d ∷ []));
            buckets =
                length-set p.h (d.id % n) (take_place (at [] p.h (d.id % n)) (length rows))
                ∙ w.buckets;
            places = next_places n rows d p.h h w.buckets w.places;
          },
        )

-- All rows fit their arrays.
pub data AllStorable : List Detail → Type 0 where
  empty : AllStorable []
  more :
      {d : Detail} {rows : List Detail}
      → fits_arrays d ≡ true
      → AllStorable rows
      → AllStorable (d ∷ rows)

pub write_details-Written :
    (n : ℕ) (rows behind : List Detail) (p : Details)
    → 0 < n
    → length rows + length behind ≤ n
    → AllStorable behind
    → Written n rows p
    → Returns (write_details behind p) (Written n (rows ++ behind))
unfolding write_details
write_details-Written n rows [] p h l a w = (p, refl, rw (append-nil rows) w)
write_details-Written n rows (d ∷ behind) p h l (AllStorable.more f a) w =
    let (p', run, w') = take-Written n rows d p h (omega arith) f w in
    let (q, run', w'') =
      write_details-Written n (rows ++ d ∷ []) behind p' h
        (omega (arith, length-append rows (d ∷ []))) a w' in
    (q, rw (run, ◌>>=◌) run', subst (λ l. Written n l q) (append_assoc rows (d ∷ []) behind) w'')
