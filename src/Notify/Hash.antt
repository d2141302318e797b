-- ===== src/Notify/Hash.antt =====
-- notify.system/msg_notify.c: `hash_func`, the bucket of a device id.
pub mod Poly
use memory_leak.Prelude.{
  ℕ, zero, suc, ◌+◌, ◌-◌, ◌*◌, ◌%◌, ◌^◌, ◌<◌, List, [], ◌∷◌, ltb, if◌then◌else◌, arith,
}

-- HASH_SIZE
abbrev pub hash_size : ℕ
hash_size = 10001

-- A `char` is signed; in the product it is converted to an unsigned 64-bit number.
abbrev pub char_to_ull : ℕ → ℕ
char_to_ull c = if ltb c 128 then c else 2 ^ 64 - 256 + c

-- `for (j = 0; j < i; ++j) { k *= 71; k %= HASH_SIZE; }`
unfoldable pub factor : (i k : ℕ) → ℕ
factor zero k = k
factor (suc i) k = factor i (k * 71 % hash_size)

-- The outer loop; the list is `id[i]` up to the end.
unfoldable pub hash_loop : (i res : ℕ) → List ℕ → ℕ
hash_loop i res [] = res
hash_loop i res (c ∷ cs) =
    hash_loop (i + 1) ((res + char_to_ull c * factor i 1 % 2 ^ 64 % hash_size) % 2 ^ 32) cs

-- The list is the `n` bytes from `id`.
unfoldable pub hash_func : List ℕ → ℕ
unfolding hash_loop factor
hash_func id = hash_loop 0 0 id % hash_size
