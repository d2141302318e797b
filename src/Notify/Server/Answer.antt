-- ===== src/Notify/Server/Answer.antt =====
-- How `main` answers a request of the key: the writes into the block, and their room.
use native.Mathlib.Decide.{dec_lt}
use memory_leak.Prelude.{
  ℕ, ◌+◌, ◌≤◌, ◌<◌, ◌≡◌, refl, ap, sym, ◌∙◌, some, List, [], ◌∷◌, ◌++◌, length, take, arith,
  append_assoc, take-append, take-append_of_eq, length-append,
}
use memory_leak.Prelude.Memory.{
  copy_in, overwrite, copy_in-eq_some, copy_in-eq_none, copy_out-eq_some, length-overwrite,
  take-overwrite,
}
use memory_leak.Prelude.Run.{Run, ok, fault, ◌>>=◌, or_fault}
use memory_leak.Notify.Message.{Msg, memory, msg_of, f_srv_cli}
use memory_leak.Notify.Message.Memory.{IsHeader, IsHeader-with, msg_of-whole, length-memory}
use memory_leak.Notify.Registry.{Item, no_addr, Env, item_size, my_malloc}
use memory_leak.Notify.Registry.Fresh.{Grants}
use memory_leak.Notify.Aes.{key_bytes, aes_iv_bytes}
use memory_leak.Notify.Rsa.{Net, Private}
use memory_leak.Notify.Forward.{add_to_item_list, aes_key, aes_iv}
use memory_leak.Notify.Server.Writes.{uint16_2_arr-48, copy_in-ifroute, len_in_memory, copy_in-len}
use memory_leak.Notify.Server.{queue, answer_with_key}

-- A request of the key becomes its answer: on the way to the client, with the key and the vector
-- behind the data, and their size in `len`.
abbrev pub answer : Msg → Msg
answer m = record m {
  ifroute = f_srv_cli;
  len = 48 ∷ 0 ∷ [];
  data_bytes = m.data_bytes ++ (aes_key ++ aes_iv);
}

abbrev pub waiting : Msg → Item
waiting m = record { ipv4 = no_addr; n_msg = length (memory m); msg = some m }

module _ (m : Msg) (id : List ℕ) (h : IsHeader m id) where
  answer-IsHeader : IsHeader (answer m) id
  answer-IsHeader =
      IsHeader-with m id h f_srv_cli (48 ∷ 0 ∷ []) (m.data_bytes ++ (aes_key ++ aes_iv)) refl

  pub length-answer : length (memory (answer m)) ≡ length (memory m) + 48
  length-answer = omega (
    arith,
    length-memory (answer m) id answer-IsHeader,
    length-memory m id h,
    length-append m.data_bytes (aes_key ++ aes_iv),
  )

module _ (net : Net) (prv : Private) (env : Env) (grants : Grants env) where
  queue-bytes :
      (p : List ℕ) (n : ℕ) (fwd : List Item)
      → n ≤ length p
      → queue net prv env p n fwd
        ≡ ok (record { ipv4 = no_addr; n_msg = n; msg = some (msg_of (take n p)) } ∷ fwd)
  unfolding queue add_to_item_list my_malloc
  queue-bytes p n fwd h =
      rw (grants.granted item_size, ◌>>=◌, grants.granted n, copy_out-eq_some p n h) refl

  module _ (m : Msg) (id : List ℕ) (h : IsHeader m id) where
    pub queue-memory :
        (rest : List ℕ) (fwd : List Item)
        → queue net prv env (memory m ++ rest) (length (memory m)) fwd ≡ ok (waiting m ∷ fwd)
    queue-memory rest fwd =
        queue-bytes (memory m ++ rest) (length (memory m)) fwd
          (omega (arith, length-append (memory m) rest))
        ∙ rw (take-append (memory m) rest, msg_of-whole m id h) refl

  module _ (m : Msg) (id : List ℕ) (h : IsHeader m id) (rest : List ℕ) (fwd : List Item) where
    abbrev sent : Msg
    sent = record m { ifroute = f_srv_cli; len = 48 ∷ 0 ∷ [] }

    -- The memory behind the writes of the key and of the vector.
    abbrev with_key : List ℕ
    with_key = overwrite (memory sent ++ rest) (length (memory m)) aes_key

    abbrev pub with_vector : List ℕ
    with_vector = overwrite with_key (length (memory m) + 32) aes_iv

    routed : IsHeader (record m { ifroute = f_srv_cli }) id
    routed = IsHeader-with m id h f_srv_cli m.len m.data_bytes h.len_size

    -- What is left behind the writes into the header.
    answer_with_key-writes :
        answer_with_key net prv env f_srv_cli (memory m ++ rest) (length (memory m)) fwd ≡ (
          or_fault (copy_in (memory sent ++ rest) (length (memory m)) aes_key) >>= λ p.
          or_fault (copy_in p (length (memory m) + key_bytes) aes_iv) >>= λ p.
          queue net prv env p (length (memory m) + key_bytes + aes_iv_bytes) fwd >>= λ f. ok (p, f))
    unfolding answer_with_key
    answer_with_key-writes =
        rw
          (
            copy_in-ifroute m id h rest f_srv_cli,
            ◌>>=◌,
            len_in_memory (record m { ifroute = f_srv_cli }) id routed rest,
            uint16_2_arr-48 m.len h.len_size,
            copy_in-len (record m { ifroute = f_srv_cli }) id routed rest,
          )
          refl

    length-sent : length (memory sent) ≡ length (memory m)
    length-sent =
        length-memory sent id (IsHeader-with m id h f_srv_cli (48 ∷ 0 ∷ []) m.data_bytes refl)
        ∙ sym (length-memory m id h)

    total : length (memory sent ++ rest) ≡ length (memory m) + length rest
    total = omega (arith, length-append (memory sent) rest, length-sent)

    length-with_key : 32 ≤ length rest → length with_key ≡ length (memory m) + length rest
    length-with_key room =
        length-overwrite (memory sent ++ rest) (length (memory m)) aes_key
          (omega (arith, total, room))
        ∙ total

    module _ (room : 48 ≤ length rest) where
      pub length-with_vector : length with_vector ≡ length (memory m) + length rest
      length-with_vector =
          length-overwrite with_key (length (memory m) + 32) aes_iv
            (omega (arith, length-with_key (omega (arith, room)), room))
          ∙ length-with_key (omega (arith, room))

      with_vector-answer : take (length (memory m) + 48) with_vector ≡ memory (answer m)
      with_vector-answer =
          ap (λ (k : ℕ). take k with_vector) (omega arith)
          ∙ take-overwrite with_key (length (memory m) + 32) aes_iv
              (omega (arith, length-with_key (omega (arith, room)), room))
          ∙ ap (λ (l : List ℕ). l ++ aes_iv)
              (take-overwrite (memory sent ++ rest) (length (memory m)) aes_key
                  (omega (arith, total, room))
                ∙ ap (λ (l : List ℕ). l ++ aes_key)
                    (take-append_of_eq (length (memory m)) (memory sent) rest (sym length-sent)))
          ∙ simp append_assoc

      queue-answer :
          queue net prv env with_vector (length (memory m) + 48) fwd ≡ ok (waiting (answer m) ∷ fwd)
      queue-answer =
          queue-bytes with_vector (length (memory m) + 48) fwd
            (omega (arith, length-with_vector, room))
          ∙ rw
              (
                with_vector-answer,
                msg_of-whole (answer m) id (answer-IsHeader m id h),
                ← length-answer m id h,
              )
              refl

      pub answer_with_key-answer :
          answer_with_key net prv env f_srv_cli (memory m ++ rest) (length (memory m)) fwd
          ≡ ok (with_vector, waiting (answer m) ∷ fwd)
      answer_with_key-answer =
          rw
            (
              answer_with_key-writes,
              ◌>>=◌,
              copy_in-eq_some (memory sent ++ rest) (length (memory m)) aes_key
                  (omega (arith, total, room)),
              copy_in-eq_some with_key (length (memory m) + 32) aes_iv
                  (omega (arith, length-with_key (omega (arith, room)), room)),
            )
            (ap (λ (r : Run (List Item)). r >>= λ f. ok (with_vector, f))
              (ap (λ (k : ℕ). queue net prv env with_vector k fwd) (omega arith) ∙ queue-answer))

    -- With less room the key or the vector is written past the end of the block.
    pub answer_with_key-overrun :
        length rest < 48
        → answer_with_key net prv env f_srv_cli (memory m ++ rest) (length (memory m)) fwd ≡ fault
    answer_with_key-overrun full = elim (dec_lt (length rest) 32) [
      | yes h' ↦
          rw
            (
              answer_with_key-writes,
              ◌>>=◌,
              copy_in-eq_none (memory sent ++ rest) (length (memory m)) aes_key
                  (omega (arith, total, h')),
            )
            refl
      | no h' ↦
          rw
            (
              answer_with_key-writes,
              ◌>>=◌,
              copy_in-eq_some (memory sent ++ rest) (length (memory m)) aes_key
                  (omega (arith, total, h')),
              copy_in-eq_none with_key (length (memory m) + 32) aes_iv
                  (omega (arith, length-with_key (omega (arith, h')), full)),
            )
            refl
    ]
