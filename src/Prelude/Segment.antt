-- ===== src/Prelude/Segment.antt =====
-- Rearrangements of a segment of an array; `d` is what is read behind the end.
use mathlib.Core.List.{Perm}
use mathlib.Core.List.Perm
use mathlib.Core.Path.{◌≡◌, refl, sym, ap, ◌∙◌}
use mathlib.Core.Logic.{◌⊎◌, inl, inr}
use mathlib.Core.List.{List, [], ◌∷◌, ◌++◌, append_assoc}
use native.Mathlib.Decide.{dec_lt}
use native.Mathlib.Omega.{arith}
use Prim.Native.Nat.{ℕ, zero, suc, ◌+◌, ◌≤◌, ◌<◌}
use memory_leak.Prelude.Tests.{◌==◌, if◌then◌else◌, Bool-cases}
use memory_leak.Prelude.Lists.{length, length-append, length-set, set, get_or, get_elem?}
use memory_leak.Prelude.Run.{Run, ok, or_fault}

-- `data[k]`
abbrev pub load {ℓ} : {A : Type ℓ} → List A → ℕ → Run A
load a k = or_fault (get_elem? a k)

-- An index stands outside a segment or inside it.
pub segment-cases : (l end k : ℕ) → ((k < l) ⊎ (end ≤ k)) ⊎ ((l ≤ k) × (k < end))
segment-cases l end k = elim (dec_lt k l) [
  | yes p ↦ inl (inl p)
  | no p ↦ elim (dec_lt k end) [ yes q ↦ inr (omega arith, q) | no q ↦ inl (inr (omega arith)) ]
]

module _ {ℓ} {A : Type ℓ} (d : A) where
  -- The element at an index.
  abbrev pub at : List A → ℕ → A
  at a k = get_or a k d

  pub load-at : (a : List A) (k : ℕ) → k < length a → load a k ≡ ok (at a k)
  load-at [] k h = absurd (omega arith)
  load-at (x ∷ a) zero h = refl
  load-at (x ∷ a) (suc k) h = load-at a k (omega arith)

  pub at-set :
      (a : List A) (i k : ℕ) (v : A)
      → i < length a
      → at (set a i v) k ≡ (if i == k then v else at a k)
  at-set [] i k v h = absurd (omega arith)
  at-set (x ∷ a) zero zero v h = refl
  at-set (x ∷ a) zero (suc k) v h = ground arith
  at-set (x ∷ a) (suc i) zero v h = ground arith
  at-set (x ∷ a) (suc i) (suc k) v h = ground (arith, at-set a i k v)

  set-perm : (a : List A) (i : ℕ) (v : A) → i < length a → Perm (at a i ∷ set a i v) (v ∷ a)
  set-perm [] i v h = absurd (omega arith)
  set-perm (x ∷ a) zero v h = Perm.swap v x a
  set-perm (x ∷ a) (suc i) v h =
      Perm.trans (Perm.swap x (at a i) (set a i v))
        (Perm.trans (Perm.cons x (set-perm a i v (omega arith))) (Perm.swap v x a))

  abbrev pub swapped : List A → (i j : ℕ) → List A
  swapped a i j = set (set a i (at a j)) j (at a i)

  module _ (a : List A) (i j : ℕ) (hi : i < length a) (hj : j < length a) where
    pub at-swapped :
        (k : ℕ)
        → at (swapped a i j) k ≡ (if j == k then at a i else if i == k then at a j else at a k)
    at-swapped k =
        rw
          (
            at-set (set a i (at a j)) j k (at a i) (omega (arith, length-set a i (at a j))),
            at-set a i k (at a j) hi,
          )
          refl

    pub swapped-perm : Perm (swapped a i j) a
    swapped-perm =
        let b = set a i (at a j) in
        let kept : at b j ≡ at a j = ground (arith, at-set a i j (at a j)) in
        let second = set-perm b j (at a i) (omega (arith, length-set a i (at a j))) in
        Perm.cons_inv (Perm.trans (rw kept at second) (set-perm a i (at a j) hi))

  -- `a'` is `a` with the elements of the segment from `l` up to `end` rearranged.
  pub record Shuffle (l end : ℕ) (a a' : List A) : Type ℓ where
    pub len : length a' ≡ length a
    pub perm : Perm a' a
    pub outside : (k : ℕ) → (k < l) ⊎ (end ≤ k) → at a' k ≡ at a k
    pub inside : (k : ℕ) → l ≤ k → k < end → (k' : ℕ) × (l ≤ k') × (k' < end) × (at a' k ≡ at a k')

  pub Shuffle-refl : (l end : ℕ) (a : List A) → Shuffle l end a a
  Shuffle-refl l end a = record {
    len = refl;
    perm = Perm.refl a;
    outside = λ k h. refl;
    inside = λ k p q. (k, p, q, refl);
  }

  pub Shuffle-trans :
      (l end : ℕ) (a b c : List A) → Shuffle l end a b → Shuffle l end b c → Shuffle l end a c
  Shuffle-trans l end a b c s t = record {
    len = t.len ∙ s.len;
    perm = Perm.trans t.perm s.perm;
    outside = λ k h. t.outside k h ∙ s.outside k h;
    inside = λ k p q.
        let (k', p', q', e) = t.inside k p q in
        let (k'', p'', q'', e') = s.inside k' p' q' in (k'', p'', q'', e ∙ e');
  }

  -- A rearrangement of a part is one of the whole.
  pub Shuffle-widen :
      (l end l' end' : ℕ) (a a' : List A)
      → l ≤ l'
      → end' ≤ end
      → Shuffle l' end' a a'
      → Shuffle l end a a'
  Shuffle-widen l end l' end' a a' p q s = record {
    len = s.len;
    perm = s.perm;
    outside = λ k h. s.outside k (wider k h);
    inside = λ k o o'. moved k o o' (segment-cases l' end' k);
  }
    where
      wider : (k : ℕ) → (k < l) ⊎ (end ≤ k) → (k < l') ⊎ (end' ≤ k)
      wider k (inl h) = inl (omega arith)
      wider k (inr h) = inr (omega arith)

      moved :
          (k : ℕ)
          → l ≤ k
          → k < end
          → ((k < l') ⊎ (end' ≤ k)) ⊎ ((l' ≤ k) × (k < end'))
          → (k' : ℕ) × (l ≤ k') × (k' < end) × (at a' k ≡ at a k')
      moved k o o' (inl h) = (k, o, o', s.outside k h)
      moved k o o' (inr (h, h')) =
          let (k', p', q', e) = s.inside k h h' in (k', omega arith, omega arith, e)

  pub swapped-Shuffle :
      (l end : ℕ) (a : List A) (i j : ℕ)
      → l ≤ i
      → i < end
      → l ≤ j
      → j < end
      → end ≤ length a
      → Shuffle l end a (swapped a i j)
  swapped-Shuffle l end a i j p q p' q' h = record {
    len = length-set (set a i (at a j)) j (at a i) ∙ length-set a i (at a j);
    perm = swapped-perm a i j (omega arith) (omega arith);
    outside = λ k o. ground (arith, at-swapped a i j (omega arith) (omega arith) k);
    inside = λ k o o'. moved k o o' (at-swapped a i j (omega arith) (omega arith) k);
  }
    where
      moved :
          (k : ℕ)
          → l ≤ k
          → k < end
          → at (swapped a i j) k ≡ (if j == k then at a i else if i == k then at a j else at a k)
          → (k' : ℕ) × (l ≤ k') × (k' < end) × (at (swapped a i j) k ≡ at a k')
      moved k o o' e = elim (Bool-cases (j == k)) [
        | inl t ↦ (i, p, q, e ∙ rw t refl)
        | inr f ↦ elim (Bool-cases (i == k)) [
          | inl t ↦ (j, p', q', e ∙ rw (f, t) refl)
          | inr f' ↦ (k, o, o', e ∙ rw (f, f') refl)
        ]
      ]

  -- What holds of the elements of a segment holds of them rearranged.
  pub Shuffle-all {κ} :
      (P : A → Type κ) {l end : ℕ} {a a' : List A}
      → Shuffle l end a a'
      → ((k : ℕ) → l ≤ k → k < end → P (at a k))
      → (k : ℕ) → l ≤ k
      → k < end
      → P (at a' k)
  Shuffle-all P s h k p q = let (k', p', q', e) = s.inside k p q in rw e (h k' p' q')

  -- What holds at every index holds at every index behind a rearrangement.
  pub Shuffle-every {κ} :
      (P : A → Type κ) {l end : ℕ} {a a' : List A}
      → Shuffle l end a a'
      → ((k : ℕ) → P (at a k))
      → (k : ℕ) → P (at a' k)
  Shuffle-every P {l} {end} s h k = elim (segment-cases l end k) [
    | inl o ↦ rw (s.outside k o) (h k)
    | inr (p, q) ↦ let (k', p', q', e) = s.inside k p q in rw e (h k')
  ]

module _ {ℓ} {A : Type ℓ} where
  -- The element behind a first part.
  pub load_behind : (a : List A) (x : A) (b : List A) → load (a ++ x ∷ b) (length a) ≡ ok x
  load_behind [] x b = refl
  load_behind (y ∷ a) x b = load_behind a x b

  pub set_behind : (a : List A) (x y : A) (b : List A) → set (a ++ x ∷ b) (length a) y ≡ a ++ y ∷ b
  set_behind [] x y b = refl
  set_behind (z ∷ a) x y b = ap (λ t. z ∷ t) (set_behind a x y b)

  -- An element further behind.
  pub load_further :
      (a : List A) (x : A) (b : List A) (y : A) (c : List A) (k : ℕ)
      → k ≡ length a + suc (length b)
      → load (a ++ x ∷ (b ++ y ∷ c)) k ≡ ok y
  load_further a x b y c k e =
      let there = load_behind (a ++ x ∷ b) y c in
      rw (e, sym (length-append a (x ∷ b)), sym (append_assoc a (x ∷ b) (y ∷ c))) there
