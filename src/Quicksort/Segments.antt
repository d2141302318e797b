-- ===== src/Quicksort/Segments.antt =====
-- What the sorts do to arrays that they do not sort.
use memory_leak.Prelude.{
  ℕ, zero, suc, ◌+◌, ◌-◌, ◌≤◌, ◌<◌, ◌≡◌, inl, inr, refl, ◌∙◌, true, List, [], ◌∷◌, ltb, length,
  arith, Bool-cases, ltb→le, lt→ltb, le→ltb, eq→==,
}
use memory_leak.Prelude.Int.{ℤ, pos}
use memory_leak.Prelude.Run.{ok, ◌>>=◌}
use memory_leak.Quicksort.{
  gtb, narrow, swap, scan_down, scan_up, cross, settle, settle_met, settle_left, partition,
  quicksort, append_segments, drain_segments, quick_sort_non_recursive,
}
use memory_leak.Quicksort.Order.{Le, Le_refl, at}
use memory_leak.Prelude.Segment.{load-at}
use memory_leak.Quicksort.Scan.{scan_down-Down}

-- The first element of a segment is below the second and not above any other.
pub record IsLeast (a : List ℤ) (low hi : ℕ) : Type 0 where
  pub more : low < hi
  pub room : hi < length a
  pub least : (k : ℕ) → low < k → k ≤ hi → Le (at a low) (at a k)
  pub strict : gtb (at a (low + 1)) (at a low) ≡ true

module _ (a : List ℤ) (low hi : ℕ) (m : IsLeast a low hi) where
  scan_down-least : scan_down (at a low) a (low + 1) hi ≡ ok (low + 1)
  scan_down-least =
      let (j', run, d) = scan_down-Down (at a low) a (low + 1) hi (omega (arith, m.more)) m.room in
      let e : j' ≡ low + 1 = elim d.stop [
        | inl e ↦ e
        | inr t ↦ cc (t, m.least j' (omega (arith, d.low)) d.high)
      ] in
      run ∙ rw e refl

  cross-least :
      (fuel : ℕ) → 2 ≤ fuel → cross fuel (at a low) a (low + 1) hi ≡ ok (a, low + 1, low + 1)
  unfolding cross scan_up
  cross-least zero h = absurd (omega arith)
  cross-least (suc zero) h = absurd (omega arith)
  cross-least (suc (suc fuel)) h = elim (Bool-cases (ltb (low + 1) hi)) [
    | inr e ↦
        let last : hi ≡ low + 1 = omega (arith, ltb→le (low + 1) hi e, m.more) in rw (e, last) refl
    | inl e ↦
        let none_left : low + 1 - (low + 1) ≡ 0 = omega arith in
        rw (e, scan_down-least, ◌>>=◌, none_left, le→ltb (low + 1) (low + 1) (omega arith)) refl
  ]

  -- Such a segment is left alone, and the index of its first element is returned.
  partition-least : partition a low hi ≡ ok (a, low)
  unfolding partition settle settle_met settle_left
  partition-least =
      let back : low + 1 - 1 ≡ low = omega arith in
      rw
        (
          load-at (pos 0) a low (omega (arith, m.more, m.room)),
          ◌>>=◌,
          cross-least (hi + 1) (omega (arith, m.more)),
          eq→== (low + 1) (low + 1) refl,
          load-at (pos 0) a low (omega (arith, m.more, m.room)),
          load-at (pos 0) a (low + 1) (omega (arith, m.more, m.room)),
          m.least (low + 1) (omega arith) (omega (arith, m.more)),
          m.strict,
          settle_left,
          back,
          load-at (pos 0) a low (omega (arith, m.more, m.room)),
          Le_refl (at a low),
        )
        refl

  -- `quick_sort_non_recursive` stops after the first segment if its first element is below the
  -- second and not above any other: whatever order the rest is in, it stays.
  pub quick_sort_non_recursive-IsLeast :
      (fuel : ℕ) → 2 ≤ fuel → quick_sort_non_recursive fuel a low hi ≡ ok a
  unfolding quick_sort_non_recursive drain_segments append_segments
  quick_sort_non_recursive-IsLeast zero h = absurd (omega arith)
  quick_sort_non_recursive-IsLeast (suc zero) h = absurd (omega arith)
  quick_sort_non_recursive-IsLeast (suc (suc fuel)) h =
      rw (lt→ltb low hi m.more, partition-least, ◌>>=◌, le→ltb low low (omega arith)) refl

-- Of two elements in descending order, the greater one comes out of `quicksort` as an `int`.
pub quicksort-narrow :
    (fuel : ℕ) (x y : ℤ)
    → gtb x y ≡ true
    → 2 ≤ fuel
    → quicksort fuel (x ∷ y ∷ []) 0 2 ≡ ok (y ∷ narrow x ∷ [])
unfolding quicksort partition cross settle settle_met swap scan_down scan_up
quicksort-narrow zero x y g h = absurd (omega arith)
quicksort-narrow (suc zero) x y g h = absurd (omega arith)
quicksort-narrow (suc (suc fuel)) x y g h = rw g refl
