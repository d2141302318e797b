-- ===== src/Cluster/Sort/Segments.antt =====
-- The segments that wait in `quick_sort_non_recursive` of cluster/quicksort/main.c.
use memory_leak.Prelude.{
  ℕ, Bool, true, false, ◌+◌, ◌-◌, ◌≤◌, ◌<◌, ◌≡◌, ◌⊎◌, inl, inr, refl, List, [], ◌∷◌, ◌++◌, ltb,
  if◌then◌else◌, arith, ltb→lt, lt→ltb,
}
use memory_leak.Cluster.Sort.{left_segment, right_segment}

-- A segment of the list.
pub data In (s : ℕ × ℕ) : List (ℕ × ℕ) → Type 0 where
  here : {segments : List (ℕ × ℕ)} → In s (s ∷ segments)
  there : {t : ℕ × ℕ} {segments : List (ℕ × ℕ)} → In s segments → In s (t ∷ segments)

pub In-append : (s : ℕ × ℕ) (xs ys : List (ℕ × ℕ)) → In s (xs ++ ys) → In s xs ⊎ In s ys
In-append s [] ys i = inr i
In-append s (x ∷ xs) ys In.here = inl In.here
In-append s (x ∷ xs) ys (In.there i) = elim (In-append s xs ys i) [
  | inl j ↦ inl (In.there j)
  | inr j ↦ inr j
]

pub In-left : (s : ℕ × ℕ) (xs ys : List (ℕ × ℕ)) → In s xs → In s (xs ++ ys)
In-left s [] ys i = elim i [ ]
In-left s (x ∷ xs) ys In.here = In.here
In-left s (x ∷ xs) ys (In.there i) = In.there (In-left s xs ys i)

pub In-right : (s : ℕ × ℕ) (xs ys : List (ℕ × ℕ)) → In s ys → In s (xs ++ ys)
In-right s [] ys i = i
In-right s (x ∷ xs) ys i = In.there (In-right s xs ys i)

-- Segments without a common index.
abbrev pub Off : (s t : ℕ × ℕ) → Type 0
Off s t = (s.1 ≤ t.0) ⊎ (t.1 ≤ s.0)

pub data Disjoint : List (ℕ × ℕ) → Type 0 where
  none : Disjoint []
  more :
      {s : ℕ × ℕ} {segments : List (ℕ × ℕ)}
      → ((t : ℕ × ℕ) → In t segments → Off s t)
      → Disjoint segments
      → Disjoint (s ∷ segments)

pub Disjoint-append :
    (xs ys : List (ℕ × ℕ))
    → Disjoint xs
    → Disjoint ys
    → ((s t : ℕ × ℕ) → In s xs → In t ys → Off s t)
    → Disjoint (xs ++ ys)
Disjoint-append [] ys d e h = e
Disjoint-append (x ∷ xs) ys (Disjoint.more o d) e h =
    Disjoint.more (λ t i. elim (In-append t xs ys i) [ inl j ↦ o t j | inr j ↦ h x t In.here j ])
      (Disjoint-append xs ys d e (λ s t i j. h s t (In.there i) j))

-- The two segments that a partition at `m` leaves to do.
abbrev pub parts : (low m end : ℕ) → List (ℕ × ℕ)
parts low m end = left_segment low m ++ right_segment m end

-- A part of a segment with at least two elements, on one side of `m`.
pub record Part (low m end : ℕ) (s : ℕ × ℕ) : Type 0 where
  pub from : low ≤ s.0
  pub upto : s.1 ≤ end
  pub long : s.0 + 1 < s.1
  pub side : (s.1 ≤ m) ⊎ (m ≤ s.0)

In-guard : (s t : ℕ × ℕ) (c : Bool) → In s (if c then t ∷ [] else []) → (c ≡ true) × (s ≡ t)
In-guard s t true In.here = (refl, refl)
In-guard s t true (In.there i) = elim i [ ]
In-guard s t false i = elim i [ ]

-- What is still to do with the segments of a list, counted in partitions.
abbrev pub work : List (ℕ × ℕ) → ℕ
work [] = 0
work ((low, end) ∷ segments) = end - low - 1 + work segments

pub work-append : (xs ys : List (ℕ × ℕ)) → work (xs ++ ys) ≡ work xs + work ys
work-append [] ys = omega arith
work-append ((low, end) ∷ xs) ys = omega (arith, work-append xs ys)

work_guard : (low end : ℕ) (c : Bool) → work (if c then (low, end) ∷ [] else []) ≤ end - low - 1
work_guard low end true = omega arith
work_guard low end false = omega arith

Disjoint-guard : (t : ℕ × ℕ) (c : Bool) → Disjoint (if c then t ∷ [] else [])
Disjoint-guard t true = Disjoint.more (λ s i. elim i [ ]) Disjoint.none
Disjoint-guard t false = Disjoint.none

module _ (low m end : ℕ) (h : low < m) (h' : m < end) where
  In-left_segment : (s : ℕ × ℕ) → In s (left_segment low m) → (s ≡ (low, m)) × (low + 1 < m)
  unfolding left_segment
  In-left_segment s i =
      let (t, e) = In-guard s (low, m) (ltb low (m - 1)) i in
      (e, omega (arith, ltb→lt low (m - 1) t))

  In-right_segment : (s : ℕ × ℕ) → In s (right_segment m end) → (s ≡ (m, end)) × (m + 1 < end)
  unfolding right_segment
  In-right_segment s i =
      let (t, e) = In-guard s (m, end) (ltb (m + 1) end) i in
      (e, omega (arith, ltb→lt (m + 1) end t))

  pub In-parts : (s : ℕ × ℕ) → In s (parts low m end) → Part low m end s
  In-parts s i = elim (In-append s (left_segment low m) (right_segment m end) i) [
    | inl j ↦
        let (e, l) = In-left_segment s j in
        rw e record { from = omega arith; upto = omega arith; long = l; side = inl (omega arith) }
    | inr j ↦
        let (e, l) = In-right_segment s j in
        rw e record { from = omega arith; upto = omega arith; long = l; side = inr (omega arith) }
  ]

  pub left-In : low + 1 < m → In (low, m) (parts low m end)
  unfolding left_segment
  left-In l =
      In-left (low, m) (left_segment low m) (right_segment m end)
        (rw (lt→ltb low (m - 1) (omega arith)) In.here)

  pub right-In : m + 1 < end → In (m, end) (parts low m end)
  unfolding right_segment
  right-In l =
      In-right (m, end) (left_segment low m) (right_segment m end)
        (rw (lt→ltb (m + 1) end l) In.here)

  pub parts-Disjoint : Disjoint (parts low m end)
  unfolding left_segment right_segment
  parts-Disjoint =
      Disjoint-append (left_segment low m) (right_segment m end)
        (Disjoint-guard (low, m) (ltb low (m - 1))) (Disjoint-guard (m, end) (ltb (m + 1) end))
        (λ s t i j.
          let (e, _) = In-left_segment s i in
          let (e', _) = In-right_segment t j in rw (e, e') (inl (omega arith)))

  pub work-parts : work (parts low m end) < end - low - 1
  unfolding left_segment right_segment
  work-parts = omega (
    arith,
    work-append (left_segment low m) (right_segment m end),
    work_guard low m (ltb low (m - 1)),
    work_guard m end (ltb (m + 1) end),
  )
