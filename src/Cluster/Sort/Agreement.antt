-- ===== src/Cluster/Sort/Agreement.antt =====
-- The sorts agree where the compare function tells all values apart.
use Prim.Native.Nat.{Ordering}
use mathlib.Core.Path.{ap₂}
use mathlib.Core.List.{Mem, Perm, Pairwise, forall_mem-cons, mem-cons_self, not-mem-nil}
use mathlib.Core.List.Pairwise
use mathlib.Core.List.Perm
use memory_leak.Prelude.{ℕ, suc, ◌≤◌, ◌<◌, ◌≡◌, sym, ap, ◌∙◌, List, [], ◌∷◌, length, arith}
use memory_leak.Prelude.Run.{ok, Returns}
use memory_leak.Prelude.Segment.{at}
use memory_leak.Cluster.Sort.{quick_sort, quick_sort_non_recursive}
use memory_leak.Cluster.Sort.Order.{IsOrder, AllKept, Le, Le_refl}
use memory_leak.Cluster.Sort.Sorted.{IsSorted, quick_sort-Sorts}
use memory_leak.Cluster.Sort.Drain.{quick_sort_non_recursive-Sorts}

module _ {ℓ} {A : Type ℓ} (f : A → A → Ordering) (o : IsOrder f) where
  -- Only equal values compare as equal.
  abbrev pub IsStrict : Type ℓ
  IsStrict = (x y : A) → Le f x y → Le f y x → x ≡ y

  abbrev IsLower : A → List A → Type ℓ
  IsLower x l = (y : A) → Mem y l → Le f x y

  Le-prop : (x y : A) → IsProp (Le f x y)
  Le-prop x y = hlevel

  IsLower-of_at :
      (d x : A) (l : List A) → ((k : ℕ) → k < length l → Le f x (at d l k)) → IsLower x l
  IsLower-of_at d x [] h = λ y m. absurd (not-mem-nil m)
  IsLower-of_at d x (z ∷ l) h =
      (forall_mem-cons (Le-prop x)).1
        (h 0 (omega arith), IsLower-of_at d x l (λ k q. h (suc k) (omega arith)))

  Pairwise-of_IsSorted : (d : A) (l : List A) → IsSorted f d l 0 (length l) → Pairwise (Le f) l
  Pairwise-of_IsSorted d [] h = Pairwise.nil
  Pairwise-of_IsSorted d (x ∷ l) h =
      Pairwise.cons
        (IsLower-of_at d x l (λ k q. h 0 (suc k) (omega arith) (omega arith) (omega arith)))
        (Pairwise-of_IsSorted d l
          (λ i j u v w. h (suc i) (suc j) (omega arith) (omega arith) (omega arith)))

  head-IsLower : (x : A) (l : List A) → Pairwise (Le f) (x ∷ l) → IsLower x (x ∷ l)
  head-IsLower x l (Pairwise.cons h _) = (forall_mem-cons (Le-prop x)).1 (Le_refl f o x, h)

  sorted_unique :
      IsStrict → (l r : List A) → Pairwise (Le f) l → Pairwise (Le f) r → Perm l r → l ≡ r
  sorted_unique strict [] r s t p = sym (Perm.eq-nil (Perm.symm p))
  sorted_unique strict (x ∷ l) [] s t p = Perm.eq-nil p
  sorted_unique strict (x ∷ l) (y ∷ r) s t p =
      let heads =
        strict x y (head-IsLower x l s y ((Perm.mem_iff p).1 mem-cons_self))
          (head-IsLower y r t x ((Perm.mem_iff p).0 mem-cons_self)) in
      let tails = Perm.cons_inv (Perm.trans p (Perm.symm (Perm.cons' heads Perm.rfl))) in
      ap₂ ◌∷◌ heads (sorted_unique strict l r (Pairwise.of_cons s) (Pairwise.of_cons t) tails)

  -- For a compare function that orders and has only equal values compare as equal, an array of at
  -- least one element whose elements all survive the variable `tmp`, and as much fuel as there are
  -- elements: the recursive sort and the one that keeps a list of segments end without fault and
  -- return the same array.
  pub quick_sort-quick_sort_non_recursive :
      (keep : A → A) (d : A) (fuel : ℕ) (a : List A)
      → IsStrict
      → AllKept keep d a
      → 0 < length a
      → length a ≤ fuel
      → Returns
          (quick_sort f keep fuel a 0 (length a))
          λ a'. quick_sort_non_recursive f keep fuel a 0 (length a) ≡ ok a'
  quick_sort-quick_sort_non_recursive keep d fuel a strict kept h u =
      let (b, run, s) =
        quick_sort-Sorts f d o keep fuel a 0 (length a) h (omega arith) (omega arith) kept in
      let (c, run', t) =
        quick_sort_non_recursive-Sorts f d o keep 0 (length a) fuel a (omega arith) (omega arith)
          kept in
      let same =
        sorted_unique strict c b (Pairwise-of_IsSorted d c (rw t.shuffle.len t.sorted))
          (Pairwise-of_IsSorted d b (rw s.shuffle.len s.sorted))
          (Perm.trans t.shuffle.perm (Perm.symm s.shuffle.perm)) in
      (b, run, run' ∙ ap ok same)
