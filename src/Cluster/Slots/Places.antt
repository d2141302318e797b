-- ===== src/Cluster/Slots/Places.antt =====
-- What stands in the two arrays of `quick_sort_non_recursive_improve`.
use Prim.Native.Nat.{Ordering}
use memory_leak.Prelude.{
  ℕ, zero, suc, ◌+◌, ◌-◌, ◌≤◌, ◌<◌, ◌≡◌, refl, sym, ap, ◌∙◌, Bool, true, false, List, [], ◌∷◌, ◌++◌,
  append-nil, append_assoc, ltb, if◌then◌else◌, length, length-append, replicate, arith, lt→ltb,
}
use memory_leak.Prelude.Run.{ok, ◌>>=◌, Returns}
use memory_leak.Prelude.Segment.{load, load_behind, set_behind}
use memory_leak.Cluster.Sort.{partition, left_segment, right_segment, drain_segments}
use memory_leak.Cluster.Sort.Segments.{In, parts, work}
use memory_leak.Cluster.Slots.{Slots, store, push, push_left, push_right, drain_slots}

abbrev pub lows : List (ℕ × ℕ) → List ℕ
lows [] = []
lows ((low, end) ∷ segments) = low ∷ lows segments

abbrev pub his : List (ℕ × ℕ) → List ℕ
his [] = []
his ((low, end) ∷ segments) = (end - 1) ∷ his segments

lows-append : (xs ys : List (ℕ × ℕ)) → lows (xs ++ ys) ≡ lows xs ++ lows ys
lows-append [] ys = refl
lows-append ((low, end) ∷ xs) ys = ap (λ t. low ∷ t) (lows-append xs ys)

his-append : (xs ys : List (ℕ × ℕ)) → his (xs ++ ys) ≡ his xs ++ his ys
his-append [] ys = refl
his-append ((low, end) ∷ xs) ys = ap (λ t. (end - 1) ∷ t) (his-append xs ys)

length-lows : (xs : List (ℕ × ℕ)) → length (lows xs) ≡ length xs
length-lows [] = refl
length-lows ((low, end) ∷ xs) = ap suc (length-lows xs)

length-his : (xs : List (ℕ × ℕ)) → length (his xs) ≡ length xs
length-his [] = refl
length-his ((low, end) ∷ xs) = ap suc (length-his xs)

-- Both arrays hold the segments, and 0 behind them.
pub record Holds (size : ℕ) (all : List (ℕ × ℕ)) (s : Slots) : Type 0 where
  pub free : ℕ
  pub low : s.arr_low ≡ lows all ++ replicate free 0
  pub hi : s.arr_hi ≡ his all ++ replicate free 0
  pub count : s.total + 1 ≡ length all
  pub room : length all + free ≡ size

pub store_next :
    (xs : List ℕ) (free k v : ℕ)
    → k ≡ length xs
    → store (xs ++ replicate (suc free) 0) k v ≡ ok (xs ++ v ∷ replicate free 0)
unfolding store
store_next xs free k v e =
    rw
      (
        e,
        lt→ltb (length xs) (length (xs ++ 0 ∷ replicate free 0))
            (omega (arith, length-append xs (0 ∷ replicate free 0))),
        set_behind xs 0 v (replicate free 0),
      )
      refl

push-Holds :
    (size x end hi' : ℕ) (all : List (ℕ × ℕ)) (s : Slots)
    → hi' ≡ end - 1
    → length all < size
    → Holds size all s
    → Returns (push s x hi') (Holds size (all ++ (x, end) ∷ []))
unfolding push
push-Holds size x end hi' all s e h p = with_free p.free p.room p.low p.hi
  where
    with_free :
        (free : ℕ)
        → length all + free ≡ size
        → s.arr_low ≡ lows all ++ replicate free 0
        → s.arr_hi ≡ his all ++ replicate free 0
        → Returns (push s x hi') (Holds size (all ++ (x, end) ∷ []))
    with_free zero r l k = absurd (omega arith)
    with_free (suc free) r l k = (
      record {
        arr_low = lows all ++ x ∷ replicate free 0;
        arr_hi = his all ++ hi' ∷ replicate free 0;
        total = s.total + 1;
      },
      rw
          (
            l,
            k,
            store_next (lows all) free (s.total + 1) x (p.count ∙ sym (length-lows all)),
            ◌>>=◌,
            store_next (his all) free (s.total + 1) hi' (p.count ∙ sym (length-his all)),
          )
          refl,
      record {
        free = free;
        low =
            rw
              (lows-append all ((x, end) ∷ []), append_assoc (lows all) (x ∷ []) (replicate free 0))
              refl;
        hi =
            rw
              (
                his-append all ((x, end) ∷ []),
                append_assoc (his all) ((end - 1) ∷ []) (replicate free 0),
                e,
              )
              refl;
        count = omega (arith, length-append all ((x, end) ∷ []), p.count);
        room = omega (arith, length-append all ((x, end) ∷ []));
      },
    )

-- A segment that is appended under a test.
guarded-Holds :
    (size x end hi' : ℕ) (all : List (ℕ × ℕ)) (s : Slots) (c : Bool)
    → hi' ≡ end - 1
    → length (all ++ (if c then (x, end) ∷ [] else [])) < size + 1
    → Holds size all s
    → Returns
        (if c then push s x hi' else ok s)
        (Holds size (all ++ (if c then (x, end) ∷ [] else [])))
guarded-Holds size x end hi' all s true e h p =
    push-Holds size x end hi' all s e (omega (arith, h, length-append all ((x, end) ∷ []))) p
guarded-Holds size x end hi' all s false e h p = (s, refl, rw (append-nil all) p)

pub length-work :
    (segments : List (ℕ × ℕ))
    → ((s : ℕ × ℕ) → In s segments → s.0 + 1 < s.1)
    → length segments ≤ work segments
length-work [] h = omega arith
length-work ((low, end) ∷ segments) h =
    omega (arith, h (low, end) In.here, length-work segments (λ s i. h s (In.there i)))

module _ (size : ℕ) (done rest : List (ℕ × ℕ)) (x end : ℕ) (s : Slots)
    (p : Holds size (done ++ (x, end) ∷ rest) s) where
  pub load-low : load s.arr_low (length done) ≡ ok x
  load-low =
      rw
        (
          p.low,
          lows-append done ((x, end) ∷ rest),
          append_assoc (lows done) (x ∷ lows rest) (replicate p.free 0),
          sym (length-lows done),
        )
        (load_behind (lows done) x (lows rest ++ replicate p.free 0))

  pub load-hi : load s.arr_hi (length done) ≡ ok (end - 1)
  load-hi =
      rw
        (
          p.hi,
          his-append done ((x, end) ∷ rest),
          append_assoc (his done) ((end - 1) ∷ his rest) (replicate p.free 0),
          sym (length-his done),
        )
        (load_behind (his done) (end - 1) (his rest ++ replicate p.free 0))

-- Behind the last segment there is a 0.
pub load_end :
    (size : ℕ) (done : List (ℕ × ℕ)) (s : Slots)
    → Holds size done s
    → length done < size
    → load s.arr_hi (length done) ≡ ok 0
load_end size done s p h = with_free p.free p.room p.hi
  where
    with_free :
        (free : ℕ)
        → length done + free ≡ size
        → s.arr_hi ≡ his done ++ replicate free 0
        → load s.arr_hi (length done) ≡ ok 0
    with_free zero r k = absurd (omega arith)
    with_free (suc free) r k =
        rw (k, sym (length-his done)) (load_behind (his done) 0 (replicate free 0))

shifted : (j hi : ℕ) → ltb j hi ≡ ltb (j + 1) (suc hi)
shifted j hi = ground arith

module _ {ℓ} {A : Type ℓ} (f : A → A → Ordering) (keep : A → A) where
  pub slots_step :
      (fuel jump x hi m : ℕ) (s s' s'' : Slots) (a b : List A) (rest : List (ℕ × ℕ))
      → load s.arr_hi jump ≡ ok hi
      → load s.arr_low jump ≡ ok x
      → 0 < hi
      → partition f keep a x (suc hi) ≡ ok (b, m)
      → push_left s x m ≡ ok s'
      → push_right s' m hi ≡ ok s''
      → drain_slots f keep fuel (jump + 1) s'' b
        ≡ drain_segments f keep fuel (rest ++ parts x m (suc hi)) b
      → drain_slots f keep (suc fuel) jump s a
        ≡ drain_segments f keep (suc fuel) ((x, suc hi) ∷ rest) a
  unfolding drain_slots drain_segments
  slots_step fuel jump x hi m s s' s'' a b rest eh el more ep epl epr e =
      rw (eh, ◌>>=◌, lt→ltb 0 hi more, el, ep, epl, epr) e

  pub pushes :
      (size x m hi : ℕ) (all : List (ℕ × ℕ)) (s : Slots)
      → length (all ++ parts x m (suc hi)) < size
      → Holds size all s
      → (s' : Slots) × (s'' : Slots) × (push_left s x m ≡ ok s')
        × (push_right s' m hi ≡ ok s'')
        × Holds size (all ++ parts x m (suc hi)) s''
  unfolding push_left push_right left_segment right_segment
  pushes size x m hi all s h p =
      let first = all ++ left_segment x m in
      let whole = append_assoc all (left_segment x m) (right_segment m (suc hi)) in
      let bound : length (first ++ right_segment m (suc hi)) < size = rw whole h in
      let (s', l, q) =
        guarded-Holds size x m (m - 1) all s (ltb x (m - 1)) refl
          (omega (arith, length-append first (right_segment m (suc hi)), bound)) p in
      let (s'', r, t) =
        guarded-Holds size m (suc hi) hi first s' (ltb (m + 1) (suc hi)) (omega arith)
          (omega (arith, bound)) q in
      (s', s'', l, rw (shifted m hi) r, rw whole at t)
