-- ===== src/Cluster/Sort/Order.antt =====
-- Comparing functions of cluster/common/lcs_common.c that order what they compare.
use Prim.Native.Nat.{Ordering}
use memory_leak.Prelude.{ℕ, ◌≡◌, refl, true, false, List, ap}
use memory_leak.Prelude.Segment.{at}
use memory_leak.Cluster.Sort.{at_most, at_least, is_below}

abbrev pub opposite : Ordering → Ordering
opposite Ordering.lt = Ordering.gt
opposite Ordering.eq = Ordering.eq
opposite Ordering.gt = Ordering.lt

-- `f` orders: exchanged arguments give the opposite sign, and "not above" is transitive.
pub record IsOrder {ℓ} {A : Type ℓ} (f : A → A → Ordering) : Type ℓ where
  pub flip : (a b : A) → f b a ≡ opposite (f a b)
  pub trans : (a b c : A) → at_most (f a b) ≡ true → at_most (f b c) ≡ true → at_most (f a c) ≡ true

-- The element comes back from `tmp` unchanged, wherever it stands.
abbrev pub AllKept {ℓ} : {A : Type ℓ} → (A → A) → A → List A → Type ℓ
AllKept keep d a = (k : ℕ) → keep (at d a k) ≡ at d a k

same-at_most : (r : Ordering) → r ≡ opposite r → at_most r ≡ true
same-at_most Ordering.lt e = refl
same-at_most Ordering.eq e = refl
same-at_most Ordering.gt e = ap at_most e

same-is_below : (r : Ordering) → r ≡ opposite r → is_below r ≡ false
same-is_below Ordering.lt e = ap is_below e
same-is_below Ordering.eq e = refl
same-is_below Ordering.gt e = refl

opposite_of_at_least : (r : Ordering) → at_least r ≡ true → at_most (opposite r) ≡ true
opposite_of_at_least Ordering.lt e = e
opposite_of_at_least Ordering.eq e = refl
opposite_of_at_least Ordering.gt e = refl

opposite_of_at_most : (r : Ordering) → at_most r ≡ false → at_most (opposite r) ≡ true
opposite_of_at_most Ordering.lt e = cc
opposite_of_at_most Ordering.eq e = refl
opposite_of_at_most Ordering.gt e = refl

below-at_most : (r : Ordering) → is_below r ≡ true → at_most r ≡ true
below-at_most Ordering.lt e = refl
below-at_most Ordering.eq e = refl
below-at_most Ordering.gt e = e

opposite_of_below : (r : Ordering) → is_below r ≡ false → at_most (opposite r) ≡ true
opposite_of_below Ordering.lt e = cc
opposite_of_below Ordering.eq e = refl
opposite_of_below Ordering.gt e = refl

pub at_least_of_at_most : (r : Ordering) → at_least r ≡ false → at_most r ≡ true
at_least_of_at_most Ordering.lt e = refl
at_least_of_at_most Ordering.eq e = refl
at_least_of_at_most Ordering.gt e = cc

module _ {ℓ} {A : Type ℓ} (f : A → A → Ordering) where
  -- `a` is not above `b`.
  abbrev pub Le : A → A → Type 0
  Le a b = at_most (f a b) ≡ true

  module _ (o : IsOrder f) where
    pub Le_refl : (a : A) → Le a a
    Le_refl a = same-at_most (f a a) (o.flip a a)

    pub Le_of_at_least : (a b : A) → at_least (f a b) ≡ true → Le b a
    Le_of_at_least a b e = rw (o.flip a b) (opposite_of_at_least (f a b) e)

    pub Le_of_above : (a b : A) → at_most (f a b) ≡ false → Le b a
    Le_of_above a b e = rw (o.flip a b) (opposite_of_at_most (f a b) e)

    pub Le_of_below : (a b : A) → is_below (f a b) ≡ true → Le a b
    Le_of_below a b e = below-at_most (f a b) e

    pub Le_of_not_below : (a b : A) → is_below (f a b) ≡ false → Le b a
    Le_of_not_below a b e = rw (o.flip a b) (opposite_of_below (f a b) e)

    pub same_not_below : (a : A) → is_below (f a a) ≡ false
    same_not_below a = same-is_below (f a a) (o.flip a a)
