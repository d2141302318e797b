-- ===== src/Notify/Server/Dump.antt =====
-- `dum_msg` on a message with a well-formed header.
use native.Mathlib.Decide.{dec_lt}
use memory_leak.Prelude.{
  ℕ, zero, suc, ◌+◌, ◌-◌, ◌*◌, ◌/◌, ◌%◌, ◌^◌, ◌≤◌, ◌<◌, ◌≡◌, ◌⊎◌, refl, ap, sym, ◌∙◌, none, some,
  List, [], ◌∷◌, ◌++◌, get_elem?, get_or, length, take, drop, length-drop, arith, append_assoc,
  drop-append_of_eq, length-append, lt→ltb, lt→leb,
}
use Prim.Native.Nat.{bit_or}
use memory_leak.Prelude.Memory.{copy_out-eq_some}
use memory_leak.Prelude.Run.{ok, fault, ◌>>=◌, or_fault, Returns}
use memory_leak.Notify.Codec.{load_bytes, load, arr_2_uint16, arr_2_uint64}
use memory_leak.Notify.Hash.{hash_func}
use memory_leak.Notify.Message.{Msg, memory, strlen, id_len, len_devid, max_msg}
use memory_leak.Notify.Message.Ids.{IsField, strlen-string}
use memory_leak.Notify.Message.Memory.{IsHeader, length-memory}
use memory_leak.Notify.Message.Dump.{
  type_texts, route_texts, digits, short_chars, number, names_chars, hash_chars, times_chars,
  dum_msg,
}

-- A load of bytes that are there ends.
load_bytes-Returns :
    (shift width rounds i : ℕ) (arr : List ℕ) (n : ℕ)
    → i + rounds ≤ length arr
    → (i + rounds) * 8 ≤ shift
    → Returns (load_bytes shift width rounds i arr n) λ v. Unit {0}
unfolding load_bytes
load_bytes-Returns shift width zero i arr n h w = (n, refl, tt)
load_bytes-Returns shift width (suc rounds) i arr n h w =
    let (v, run, t) =
      load_bytes-Returns shift width rounds (i + 1) arr
        (bit_or n (get_or arr i 0 * 2 ^ (i * 8) % 2 ^ shift) % 2 ^ width) (omega arith)
        (omega arith) in
    (v, rw (lt→leb shift (i * 8) (omega arith), lt→ltb i (length arr) (omega arith)) run, tt)

arr_2_uint16-Returns :
    (arr : List ℕ) → 2 ≤ length arr → Returns (arr_2_uint16 (some arr) (some 0) 2) λ v. Unit {0}
unfolding arr_2_uint16 load
arr_2_uint16-Returns arr h =
    let (v, run, t) = load_bytes-Returns 32 16 2 0 arr 0 h (omega arith) in
    (some v, rw (run, ◌>>=◌) refl, tt)

arr_2_uint64-Returns :
    (arr : List ℕ) → 8 ≤ length arr → Returns (arr_2_uint64 (some arr) (some 0) 8) λ v. Unit {0}
unfolding arr_2_uint64 load
arr_2_uint64-Returns arr h =
    let (v, run, t) = load_bytes-Returns 64 64 8 0 arr 0 h (omega arith) in
    (some v, rw (run, ◌>>=◌) refl, tt)

digits_at_most : (places n : ℕ) → digits places n ≤ places
unfolding digits
digits_at_most zero n = omega arith
digits_at_most (suc places) n = ground (arith, digits_at_most places (n / 10))

short_chars_at_most : (v : ℕ) → short_chars v ≤ 6
unfolding short_chars
short_chars_at_most v = ground (arith, digits_at_most 5 v, digits_at_most 5 (2 ^ 16 - v))

type_text : (type : ℕ) → type < 5 → Returns (or_fault (get_elem? type_texts type)) λ n. n ≤ 8
type_text zero h = (8, refl, omega arith)
type_text (suc zero) h = (5, refl, omega arith)
type_text (suc (suc zero)) h = (6, refl, omega arith)
type_text (suc (suc (suc zero))) h = (7, refl, omega arith)
type_text (suc (suc (suc (suc zero)))) h = (0, refl, omega arith)
type_text (suc (suc (suc (suc (suc n))))) h = absurd (omega arith)

route_text : (route : ℕ) → route < 6 → Returns (or_fault (get_elem? route_texts route)) λ n. n ≤ 70
route_text zero h = (25, refl, omega arith)
route_text (suc zero) h = (29, refl, omega arith)
route_text (suc (suc zero)) h = (38, refl, omega arith)
route_text (suc (suc (suc zero))) h = (48, refl, omega arith)
route_text (suc (suc (suc (suc zero)))) h = (70, refl, omega arith)
route_text (suc (suc (suc (suc (suc zero))))) h = (0, refl, omega arith)
route_text (suc (suc (suc (suc (suc (suc n)))))) h = absurd (omega arith)

-- The string in a field, in memory that goes on behind it.
strlen-field :
    (field id rest : List ℕ)
    → IsField field id
    → (strlen (field ++ rest) ≡ some (length id))
      × (id_len (length id) ≡ length id)
      × (length id < len_devid)
strlen-field field id rest f =
    let short : length id < len_devid =
      omega (arith, f.size, ap (λ (l : List ℕ). length l) f.layout, length-append id (0 ∷ f.pad)) in
    (
      rw (f.layout, append_assoc) (strlen-string id (f.pad ++ rest) f.string),
      rw (lt→leb max_msg (length id) (omega (arith, short))),
      short,
    )

-- `dum_msg` with short strings at the ids.
dum_msg-inside :
    (site : ℕ) (item : List ℕ) (type ifro dev ntf : ℕ)
    → get_elem? item 0 ≡ some type
    → get_elem? item 1 ≡ some ifro
    → type < 5
    → ifro < 6
    → strlen (drop 2 item) ≡ some dev
    → strlen (drop 42 item) ≡ some ntf
    → id_len dev ≡ dev
    → dev < len_devid
    → ntf < len_devid
    → 100 ≤ length item
    → site ≤ 1500
    → dum_msg site item ≡ ok tt
unfolding dum_msg
dum_msg-inside site item type ifro dev ntf e0 e1 t r ed en es sd sn size named =
    let (kind, kinds, k) = type_text type t in
    let (way, ways, w) = route_text ifro r in
    let (ldta, a, u) = arr_2_uint16-Returns (drop 98 item) (omega (arith, length-drop 98 item)) in
    let (sec, b, u') = arr_2_uint64-Returns (drop 82 item) (omega (arith, length-drop 82 item)) in
    let (nsec, c, u'') = arr_2_uint64-Returns (drop 90 item) (omega (arith, length-drop 90 item)) in
    let hash1 = take dev (drop 2 item) in
    let hash2 = take dev (drop 42 item) in
    let fits : names_chars site kind dev ntf
          + hash_chars hash1 hash2
          + (20 + way + (21 + short_chars (number ldta)) + times_chars sec nsec)
        < 2048 =
      omega (
        arith,
        digits_at_most 10 (hash_func hash1),
        digits_at_most 10 (hash_func hash2),
        short_chars_at_most (number ldta),
        digits_at_most 20 (number sec),
        digits_at_most 20 (number nsec),
      ) in
    rw
      (
        e0,
        ◌>>=◌,
        e1,
        kinds,
        ed,
        en,
        es,
        copy_out-eq_some (drop 2 item) dev (omega (arith, length-drop 2 item)),
        copy_out-eq_some (drop 42 item) dev (omega (arith, length-drop 42 item)),
        ways,
        a,
        b,
        c,
        lt→ltb
            (names_chars site kind dev ntf
              + hash_chars hash1 hash2
              + (20 + way + (21 + short_chars (number ldta)) + times_chars sec nsec))
            2048 fits,
      )
      refl

get_elem?-behind : (xs : List ℕ) (i : ℕ) → length xs ≤ i → get_elem? xs i ≡ none
get_elem?-behind [] i h = refl
get_elem?-behind (x ∷ xs) zero h = absurd (omega arith)
get_elem?-behind (x ∷ xs) (suc i) h = get_elem?-behind xs i (omega arith)

module _ (m : Msg) (id : List ℕ) (h : IsHeader m id) (rest : List ℕ) where
  abbrev from_second : List ℕ
  from_second = m.second ++ (m.nano ++ (m.len ++ (m.data_bytes ++ rest)))

  -- The memory with its fields apart.
  memory-fields : memory m ++ rest ≡ m.type ∷ m.ifroute ∷ m.dev_id ++ (m.ntf_id ++ from_second)
  memory-fields = simp append_assoc

  dev_string : strlen (drop 2 (memory m ++ rest)) ≡ some (length id)
  dev_string =
      ap (λ (l : List ℕ). strlen (drop 2 l)) memory-fields
      ∙ (strlen-field m.dev_id id (m.ntf_id ++ from_second) h.dev_field).0

  ntf_string : strlen (drop 42 (memory m ++ rest)) ≡ some (length h.notifier)
  ntf_string =
      ap (λ (l : List ℕ). strlen (drop 42 l)) memory-fields
      ∙ ap strlen (drop-append_of_eq 40 m.dev_id (m.ntf_id ++ from_second) (sym h.dev_field.size))
      ∙ (strlen-field m.ntf_id h.notifier from_second h.ntf_field).0

  -- With a header whose ids end inside their fields, a type below 5 and a route below 6, and names
  -- of at most 1500 characters, `dum_msg` stays inside its arrays and its buffer.
  pub dum_msg-header :
      (site : ℕ)
      → m.type < 5
      → m.ifroute < 6
      → site ≤ 1500
      → dum_msg site (memory m ++ rest) ≡ ok tt
  dum_msg-header site t r s =
      let (devs, ids, dl) = strlen-field m.dev_id id (m.ntf_id ++ from_second) h.dev_field in
      let (ntfs, ntf_ids, nl) = strlen-field m.ntf_id h.notifier from_second h.ntf_field in
      dum_msg-inside site (memory m ++ rest) m.type m.ifroute (length id) (length h.notifier) refl
        refl t r dev_string ntf_string ids dl nl
        (omega (arith, length-memory m id h, length-append (memory m) rest)) s

  -- A type or a route without a text.
  pub dum_msg-unknown :
      (site : ℕ) → (5 ≤ m.type) ⊎ (6 ≤ m.ifroute) → dum_msg site (memory m ++ rest) ≡ fault
  unfolding dum_msg
  dum_msg-unknown site u =
      let (devs, ids, dl) = strlen-field m.dev_id id (m.ntf_id ++ from_second) h.dev_field in
      let (ntfs, ntf_ids, nl) = strlen-field m.ntf_id h.notifier from_second h.ntf_field in
      let item = memory m ++ rest in
      let size : 100 ≤ length item =
        omega (arith, length-memory m id h, length-append (memory m) rest) in
      elim (dec_lt m.type 5) [
        | no t ↦ rw (get_elem?-behind type_texts m.type (omega arith), ◌>>=◌) refl
        | yes t ↦
            let (kind, kinds, k) = type_text m.type t in
            rw
              (
                kinds,
                ◌>>=◌,
                dev_string,
                ntf_string,
                ids,
                copy_out-eq_some (drop 2 item) (length id)
                    (omega (arith, length-drop 2 item, size, dl)),
                copy_out-eq_some (drop 42 item) (length id)
                    (omega (arith, length-drop 42 item, size, dl)),
                get_elem?-behind route_texts m.ifroute (ground (arith, t, u)),
              )
              refl
      ]
