-- ===== src/Notify/Hash/Poly.antt =====
-- The hash of an ASCII id is a polynomial in 71, modulo HASH_SIZE.
use memory_leak.Prelude.{
  ℕ, zero, suc, ◌+◌, ◌*◌, ◌/◌, ◌%◌, ◌^◌, ◌<◌, ◌≤◌, ◌≡◌, refl, ap, sym, ◌∙◌, List, [], ◌∷◌, length,
  arith, lt→ltb,
}
use native.Mathlib.Nat.{add-mul-mod_self_left, div-add-mod, mod-eq_of_lt}
use memory_leak.Notify.Hash.{hash_size, char_to_ull, factor, hash_loop, hash_func}

-- id[0] + id[1] * 71 + id[2] * 71^2 + …
unfoldable pub poly : List ℕ → ℕ
poly [] = 0
poly (c ∷ cs) = c + 71 * poly cs

abbrev pub IsAscii : List ℕ → Type 0
IsAscii [] = Unit {0}
IsAscii (c ∷ cs) = (c < 128) × IsAscii cs

factor-snoc : (i k : ℕ) → factor (suc i) k ≡ factor i k * 71 % hash_size
unfolding factor
factor-snoc zero k = refl
factor-snoc (suc i) k = factor-snoc i (k * 71 % hash_size)

factor-lt : (i k : ℕ) → k < hash_size → factor i k < hash_size
unfolding factor
factor-lt zero k h = h
factor-lt (suc i) k h = factor-lt i (k * 71 % hash_size) (omega arith)

-- A term reduced before it is added counts the same modulo HASH_SIZE.
reduce :
    (res c k p : ℕ)
    → (res + c * k % hash_size + (k * 71 % hash_size) * p) % hash_size
      ≡ (res + k * (c + 71 * p)) % hash_size
reduce res c k p =
    sym (
      add-mul-mod_self_left (res + c * k % hash_size + (k * 71 % hash_size) * p) hash_size
        (c * k / hash_size + k * 71 / hash_size * p))
    ∙ ap (λ (t : ℕ). t % hash_size)
        (omega (arith, ap (λ (t : ℕ). t * p) (div-add-mod (k * 71) hash_size)))

-- One round, without overflow.
round :
    (res c k : ℕ)
    → c < 128
    → k < hash_size
    → res + hash_size < 2 ^ 32
    → (res + char_to_ull c * k % 2 ^ 64 % hash_size) % 2 ^ 32 ≡ res + c * k % hash_size
round res c k a h w = rw (lt→ltb c 128 a, mod-eq_of_lt product) (omega arith)
  where
    product : c * k < 2 ^ 64
    product = grind arith

hash_loop-poly :
    (cs : List ℕ) (i res : ℕ)
    → IsAscii cs
    → res + length cs * hash_size < 2 ^ 32
    → hash_loop i res cs % hash_size ≡ (res + factor i 1 * poly cs) % hash_size
unfolding hash_loop poly
hash_loop-poly [] i res a w = ap (λ (t : ℕ). t % hash_size) (omega arith)
hash_loop-poly (c ∷ cs) i res a w =
    rw (round res c (factor i 1) a.0 (factor-lt i 1 (omega arith)) (omega arith)) (
      hash_loop-poly cs (i + 1) (res + c * factor i 1 % hash_size) a.1 (omega arith)
      ∙ ap (λ (t : ℕ). (res + c * factor i 1 % hash_size + t * poly cs) % hash_size) next
      ∙ reduce res c (factor i 1) (poly cs))
  where
    next : factor (i + 1) 1 ≡ factor i 1 * 71 % hash_size
    next = ap (λ (j : ℕ). factor j 1) (omega arith) ∙ factor-snoc i 1

-- The hash of an ASCII id of at most 2^18 bytes is the value of its polynomial in 71.
pub hash_func-poly :
    (id : List ℕ) → IsAscii id → length id ≤ 2 ^ 18 → hash_func id ≡ poly id % hash_size
unfolding hash_func factor
hash_func-poly id a w =
    hash_loop-poly id 0 0 a (omega arith) ∙ ap (λ (t : ℕ). t % hash_size) (omega arith)
