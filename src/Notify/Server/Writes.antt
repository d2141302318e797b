-- ===== src/Notify/Server/Writes.antt =====
-- Writes into the header of a message in memory.
use memory_leak.Prelude.{
  ℕ, ◌+◌, ◌≡◌, refl, ap, sym, ◌∙◌, some, List, [], ◌∷◌, ◌++◌, length, take, drop, arith,
  append_assoc, take-append, take-append_of_eq, drop-append_of_eq, length-append,
}
use memory_leak.Prelude.Memory.{copy_in, copy_in-eq_some}
use memory_leak.Prelude.Run.{ok}
use memory_leak.Notify.Codec.{uint16_2_arr, store, store_bytes}
use memory_leak.Notify.Message.{Msg, memory}
use memory_leak.Notify.Message.Memory.{IsHeader, length-memory}

-- A write over bytes of its size.
pub copy_in-replace :
    (a b c src : List ℕ)
    → length src ≡ length b
    → copy_in (a ++ (b ++ c)) (length a) src ≡ some (a ++ (src ++ c))
copy_in-replace a b c src e =
    copy_in-eq_some (a ++ (b ++ c)) (length a) src
      (omega (arith, length-append a (b ++ c), length-append b c))
    ∙ ap some (
        rw
          (
            take-append a (b ++ c),
            ← append_assoc a b c,
            drop-append_of_eq (length a + length src) (a ++ b) c (omega (arith, length-append a b)),
          )
          refl)

-- The 2 bytes of 48.
pub uint16_2_arr-48 :
    (l : List ℕ) → length l ≡ 2 → uint16_2_arr (some l) 48 2 ≡ ok (some (48 ∷ 0 ∷ []))
unfolding uint16_2_arr store store_bytes
uint16_2_arr-48 [] e = absurd (omega arith)
uint16_2_arr-48 (a ∷ []) e = absurd (omega arith)
uint16_2_arr-48 (a ∷ b ∷ []) e = refl
uint16_2_arr-48 (a ∷ b ∷ c ∷ l) e = absurd (omega arith)

-- The memory up to `len`.
abbrev before_len : Msg → List ℕ
before_len m = m.type ∷ m.ifroute ∷ m.dev_id ++ (m.ntf_id ++ (m.second ++ m.nano))

module _ (m : Msg) (id : List ℕ) (h : IsHeader m id) (rest : List ℕ) where
  pub copy_in-ifroute :
      (r : ℕ)
      → copy_in (memory m ++ rest) 1 (r ∷ []) ≡ some (memory (record m { ifroute = r }) ++ rest)
  copy_in-ifroute r =
      copy_in-eq_some (memory m ++ rest) 1 (r ∷ [])
        (omega (arith, length-append (memory m) rest, length-memory m id h))

  memory-len : memory m ++ rest ≡ before_len m ++ (m.len ++ (m.data_bytes ++ rest))
  memory-len = simp append_assoc

  length-before_len : length (before_len m) ≡ 98
  length-before_len = omega (
    arith,
    h.dev_field.size,
    h.ntf_field.size,
    h.second_size,
    h.nano_size,
    length-append m.dev_id (m.ntf_id ++ (m.second ++ m.nano)),
    length-append m.ntf_id (m.second ++ m.nano),
    length-append m.second m.nano,
  )

  pub len_in_memory : take 2 (drop 98 (memory m ++ rest)) ≡ m.len
  len_in_memory =
      ap (λ (l : List ℕ). take 2 (drop 98 l)) memory-len
      ∙ ap (λ (l : List ℕ). take 2 l)
          (drop-append_of_eq 98 (before_len m) (m.len ++ (m.data_bytes ++ rest))
            (sym length-before_len))
      ∙ take-append_of_eq 2 m.len (m.data_bytes ++ rest) (sym h.len_size)

  pub copy_in-len :
      copy_in (memory m ++ rest) 98 (48 ∷ 0 ∷ [])
      ≡ some (memory (record m { len = 48 ∷ 0 ∷ [] }) ++ rest)
  copy_in-len =
      ap (λ (l : List ℕ). copy_in l 98 (48 ∷ 0 ∷ [])) memory-len
      ∙ ap (λ (n : ℕ). copy_in (before_len m ++ (m.len ++ (m.data_bytes ++ rest))) n (48 ∷ 0 ∷ []))
          (sym length-before_len)
      ∙ copy_in-replace (before_len m) m.len (m.data_bytes ++ rest) (48 ∷ 0 ∷ []) (sym h.len_size)
      ∙ simp append_assoc
