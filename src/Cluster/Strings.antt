-- ===== src/Cluster/Strings.antt =====
-- C strings without their terminator, in the order of `strcmp`, as cluster/common/lcs_common.c
-- compares them.
use Prim.Native.Nat.{Ordering, compare}
use memory_leak.Prelude.{ℕ, ◌≡◌, refl, sym, List, [], ◌∷◌, true, ap₂, arith}
use memory_leak.Cluster.Sort.{at_most}
use memory_leak.Cluster.Sort.Order.{opposite, IsOrder}

-- The first difference decides.
abbrev pub first_difference : Ordering → Ordering → Ordering
first_difference Ordering.lt rest = Ordering.lt
first_difference Ordering.eq rest = rest
first_difference Ordering.gt rest = Ordering.gt

-- The sign of `strcmp(a, b)`.
abbrev pub strcmp : List ℕ → List ℕ → Ordering
strcmp [] [] = Ordering.eq
strcmp [] (y ∷ ys) = Ordering.lt
strcmp (x ∷ xs) [] = Ordering.gt
strcmp (x ∷ xs) (y ∷ ys) = first_difference (compare x y) (strcmp xs ys)

compare_same : (x : ℕ) → compare x x ≡ Ordering.eq
compare_same x = ground arith

compare_flip : (x y : ℕ) → compare y x ≡ opposite (compare x y)
compare_flip x y = ground arith

compare_eq : (x y : ℕ) → compare x y ≡ Ordering.eq → x ≡ y
compare_eq x y e = ground arith

compare_trans :
    (x y z : ℕ)
    → at_most (compare x y) ≡ true
    → at_most (compare y z) ≡ true
    → at_most (compare x z) ≡ true
compare_trans x y z h k = ground arith

first_difference-opposite :
    (r s : Ordering) → first_difference (opposite r) (opposite s) ≡ opposite (first_difference r s)
first_difference-opposite Ordering.lt s = refl
first_difference-opposite Ordering.eq s = refl
first_difference-opposite Ordering.gt s = refl

-- Signs of three pairs, x and y, y and z, x and z, where "not above" is transitive, and signs of
-- what is compared next: "not above" is transitive for both together.
first_difference_trans :
    (r r' r'' s s' s'' : Ordering)
    → (at_most r ≡ true → at_most r' ≡ true → at_most r'' ≡ true)
    → (at_most (opposite r'') ≡ true → at_most r ≡ true → at_most (opposite r') ≡ true)
    → (at_most r' ≡ true → at_most (opposite r'') ≡ true → at_most (opposite r) ≡ true)
    → (at_most s ≡ true → at_most s' ≡ true → at_most s'' ≡ true)
    → at_most (first_difference r s) ≡ true
    → at_most (first_difference r' s') ≡ true
    → at_most (first_difference r'' s'') ≡ true
first_difference_trans Ordering.lt Ordering.lt Ordering.lt s s' s'' t u v w h k = refl
first_difference_trans Ordering.lt Ordering.lt Ordering.eq s s' s'' t u v w h k = cc (v refl refl)
first_difference_trans Ordering.lt Ordering.lt Ordering.gt s s' s'' t u v w h k = t refl refl
first_difference_trans Ordering.lt Ordering.eq Ordering.lt s s' s'' t u v w h k = refl
first_difference_trans Ordering.lt Ordering.eq Ordering.eq s s' s'' t u v w h k = cc (v refl refl)
first_difference_trans Ordering.lt Ordering.eq Ordering.gt s s' s'' t u v w h k = t refl refl
first_difference_trans Ordering.lt Ordering.gt r'' s s' s'' t u v w h k = cc
first_difference_trans Ordering.eq Ordering.lt Ordering.lt s s' s'' t u v w h k = refl
first_difference_trans Ordering.eq Ordering.lt Ordering.eq s s' s'' t u v w h k = cc (u refl refl)
first_difference_trans Ordering.eq Ordering.lt Ordering.gt s s' s'' t u v w h k = t refl refl
first_difference_trans Ordering.eq Ordering.eq Ordering.lt s s' s'' t u v w h k = refl
first_difference_trans Ordering.eq Ordering.eq Ordering.eq s s' s'' t u v w h k = w h k
first_difference_trans Ordering.eq Ordering.eq Ordering.gt s s' s'' t u v w h k = t refl refl
first_difference_trans Ordering.eq Ordering.gt r'' s s' s'' t u v w h k = cc
first_difference_trans Ordering.gt r' r'' s s' s'' t u v w h k = cc

-- Two comparisons, one after the other, order.
pub first_difference-IsOrder {ℓ κ κ'} :
    {A : Type ℓ} {B : Type κ} {C : Type κ'} {f : A → A → Ordering} {g : B → B → Ordering}
    (left : C → A) (right : C → B)
    → IsOrder f
    → IsOrder g
    → IsOrder (λ x y. first_difference (f (left x) (left y)) (g (right x) (right y)))
first_difference-IsOrder {f} {g} left right o p = record {
  flip = λ x y.
      rw (o.flip (left x) (left y), p.flip (right x) (right y))
        (first_difference-opposite (f (left x) (left y)) (g (right x) (right y)));
  trans = λ x y z.
      first_difference_trans (f (left x) (left y)) (f (left y) (left z)) (f (left x) (left z))
        (g (right x) (right y)) (g (right y) (right z)) (g (right x) (right z))
        (o.trans (left x) (left y) (left z))
        (rw (sym (o.flip (left x) (left z)), sym (o.flip (left y) (left z)))
          (o.trans (left z) (left x) (left y)))
        (rw (sym (o.flip (left x) (left z)), sym (o.flip (left x) (left y)))
          (o.trans (left y) (left z) (left x)))
        (p.trans (right x) (right y) (right z));
}

strcmp_flip : (a b : List ℕ) → strcmp b a ≡ opposite (strcmp a b)
strcmp_flip [] [] = refl
strcmp_flip [] (y ∷ ys) = refl
strcmp_flip (x ∷ xs) [] = refl
strcmp_flip (x ∷ xs) (y ∷ ys) =
    rw (compare_flip x y, strcmp_flip xs ys)
      (first_difference-opposite (compare x y) (strcmp xs ys))

strcmp_trans :
    (a b c : List ℕ)
    → at_most (strcmp a b) ≡ true
    → at_most (strcmp b c) ≡ true
    → at_most (strcmp a c) ≡ true
strcmp_trans [] b [] h k = refl
strcmp_trans [] b (z ∷ zs) h k = refl
strcmp_trans (x ∷ xs) [] c h k = cc
strcmp_trans (x ∷ xs) (y ∷ ys) [] h k = cc
strcmp_trans (x ∷ xs) (y ∷ ys) (z ∷ zs) h k =
    first_difference_trans (compare x y) (compare y z) (compare x z) (strcmp xs ys) (strcmp ys zs)
      (strcmp xs zs) (compare_trans x y z)
      (rw (sym (compare_flip x z), sym (compare_flip y z)) (compare_trans z x y))
      (rw (sym (compare_flip x z), sym (compare_flip x y)) (compare_trans y z x))
      (strcmp_trans xs ys zs) h k

pub strcmp-IsOrder : IsOrder strcmp
strcmp-IsOrder = record { flip = strcmp_flip; trans = strcmp_trans }

pub strcmp_same : (a : List ℕ) → strcmp a a ≡ Ordering.eq
strcmp_same [] = refl
strcmp_same (x ∷ xs) = rw (compare_same x) (strcmp_same xs)

first_difference_eq :
    (r s : Ordering) → first_difference r s ≡ Ordering.eq → (r ≡ Ordering.eq) × (s ≡ Ordering.eq)
first_difference_eq Ordering.lt s e = cc
first_difference_eq Ordering.eq s e = (refl, e)
first_difference_eq Ordering.gt s e = cc

-- `strcmp` returns 0 for equal strings alone.
pub strcmp_eq : (a b : List ℕ) → strcmp a b ≡ Ordering.eq → a ≡ b
strcmp_eq [] [] e = refl
strcmp_eq [] (y ∷ ys) e = cc
strcmp_eq (x ∷ xs) [] e = cc
strcmp_eq (x ∷ xs) (y ∷ ys) e =
    let (h, k) = first_difference_eq (compare x y) (strcmp xs ys) e in
    ap₂ ◌∷◌ (compare_eq x y h) (strcmp_eq xs ys k)
