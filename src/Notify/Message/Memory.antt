-- ===== src/Notify/Message/Memory.antt =====
-- A message with fields of their sizes, and its memory.
use memory_leak.Prelude.{
  ℕ, ◌+◌, ◌≡◌, ap, sym, ◌∙◌, List, [], ◌++◌, length, arith, append_assoc, append-nil,
  take-append_of_eq, drop-append_of_eq, length-append,
}
use memory_leak.Notify.Message.{Msg, memory, msg_of, from_ntf_id, common_size}
use memory_leak.Notify.Message.Ids.{IsField}

-- A header whose ids end inside their fields.
pub record IsHeader (m : Msg) (id : List ℕ) : Type 0 where
  pub dev_field : IsField m.dev_id id
  pub notifier : List ℕ
  pub ntf_field : IsField m.ntf_id notifier
  pub second_size : length m.second ≡ 8
  pub nano_size : length m.nano ≡ 8
  pub len_size : length m.len ≡ 2

module _ (m : Msg) (id : List ℕ) (h : IsHeader m id) where
  -- What `msg_of` reads back, with anything behind it.
  pub msg_of-memory :
      (rest : List ℕ) → msg_of (memory m ++ rest) ≡ record m { data_bytes = m.data_bytes ++ rest }
  unfolding msg_of
  msg_of-memory rest = simp (
    append_assoc,
    take-append_of_eq 40 m.dev_id
        (m.ntf_id ++ (m.second ++ (m.nano ++ (m.len ++ (m.data_bytes ++ rest)))))
        (sym h.dev_field.size),
    drop-append_of_eq 40 m.dev_id
        (m.ntf_id ++ (m.second ++ (m.nano ++ (m.len ++ (m.data_bytes ++ rest)))))
        (sym h.dev_field.size),
    take-append_of_eq 40 m.ntf_id (m.second ++ (m.nano ++ (m.len ++ (m.data_bytes ++ rest))))
        (sym h.ntf_field.size),
    drop-append_of_eq 40 m.ntf_id (m.second ++ (m.nano ++ (m.len ++ (m.data_bytes ++ rest))))
        (sym h.ntf_field.size),
    take-append_of_eq 8 m.second (m.nano ++ (m.len ++ (m.data_bytes ++ rest))) (sym h.second_size),
    drop-append_of_eq 8 m.second (m.nano ++ (m.len ++ (m.data_bytes ++ rest))) (sym h.second_size),
    take-append_of_eq 8 m.nano (m.len ++ (m.data_bytes ++ rest)) (sym h.nano_size),
    drop-append_of_eq 8 m.nano (m.len ++ (m.data_bytes ++ rest)) (sym h.nano_size),
    take-append_of_eq 2 m.len (m.data_bytes ++ rest) (sym h.len_size),
    drop-append_of_eq 2 m.len (m.data_bytes ++ rest) (sym h.len_size),
  )

  pub msg_of-whole : msg_of (memory m) ≡ m
  msg_of-whole =
      ap msg_of (sym (append-nil (memory m)))
      ∙ msg_of-memory []
      ∙ ap (λ (d : List ℕ). record m { data_bytes = d }) (append-nil m.data_bytes)

  pub length-memory : length (memory m) ≡ common_size + length m.data_bytes
  length-memory = omega (
    arith,
    h.dev_field.size,
    h.ntf_field.size,
    h.second_size,
    h.nano_size,
    h.len_size,
    length-append m.dev_id (from_ntf_id m),
    length-append m.ntf_id (m.second ++ (m.nano ++ (m.len ++ m.data_bytes))),
    length-append m.second (m.nano ++ (m.len ++ m.data_bytes)),
    length-append m.nano (m.len ++ m.data_bytes),
    length-append m.len m.data_bytes,
  )

  pub IsHeader-with :
      (r : ℕ) (l d : List ℕ)
      → length l ≡ 2
      → IsHeader (record m { ifroute = r; len = l; data_bytes = d }) id
  IsHeader-with r l d e = record {
    dev_field = h.dev_field;
    notifier = h.notifier;
    ntf_field = h.ntf_field;
    second_size = h.second_size;
    nano_size = h.nano_size;
    len_size = e;
  }
