-- ===== src/Notify/Message/Dump.antt =====
-- notify.system/msg_notify.c: `dum_msg`, and when it stays inside its arrays.
use memory_leak.Prelude.{
  ℕ, zero, suc, ◌+◌, ◌-◌, ◌/◌, ◌^◌, Option, none, some, List, [], ◌∷◌, ltb, if◌then◌else◌,
  get_elem?, drop,
}
use memory_leak.Prelude.Memory.{copy_out}
use memory_leak.Prelude.Run.{Run, ok, fault, ◌>>=◌, or_fault}
use memory_leak.Notify.Codec.{arr_2_uint16, arr_2_uint64}
use memory_leak.Notify.Hash.{hash_func}
use memory_leak.Notify.Message.{strlen, id_len}

-- The sizes of the texts that `dum_msg` has for the types and for the routes.
abbrev pub type_texts : List ℕ
type_texts = 8 ∷ 5 ∷ 6 ∷ 7 ∷ 0 ∷ []

abbrev pub route_texts : List ℕ
route_texts = 25 ∷ 29 ∷ 38 ∷ 48 ∷ 70 ∷ 0 ∷ []

-- The decimal digits of a number of at most `places` digits.
unfoldable pub digits : (places n : ℕ) → ℕ
digits zero n = 0
digits (suc places) n = let rest = digits places (n / 10) in if ltb n 10 then 1 else suc rest

-- The characters of a `short`, with its sign.
unfoldable pub short_chars : ℕ → ℕ
short_chars v = if ltb v (2 ^ 15) then digits 5 v else suc (digits 5 (2 ^ 16 - v))

abbrev pub number : Option ℕ → ℕ
number none = 0
number (some n) = n

-- The characters of the parts of the description.
abbrev pub names_chars : (site kind dev ntf : ℕ) → ℕ
names_chars site kind dev ntf = 56 + site + kind + (19 + dev) + (21 + ntf)

abbrev pub hash_chars : (dev ntf : List ℕ) → ℕ
hash_chars dev ntf = 34 + digits 10 (hash_func dev) + (36 + digits 10 (hash_func ntf))

abbrev pub times_chars : (sec nsec : Option ℕ) → ℕ
times_chars sec nsec = 27 + digits 20 (number sec) + digits 20 (number nsec)

-- `dum_msg` on the memory at `item`, which is not null. All it does is fill `buf` of 2048 bytes;
-- `site` is the size of the names of file, function and line.
unfoldable pub dum_msg : (site : ℕ) → List ℕ → Run (Unit {0})
dum_msg site item = do
  type ← or_fault (get_elem? item 0)
  ifro ← or_fault (get_elem? item 1)
  kind ← or_fault (get_elem? type_texts type)
  dev ← or_fault (strlen (drop 2 item))
  ntf ← or_fault (strlen (drop 42 item))
  hashed_dev ← or_fault (copy_out (drop 2 item) (id_len dev))
  hashed_ntf ← or_fault (copy_out (drop 42 item) (id_len dev))
  way ← or_fault (get_elem? route_texts ifro)
  ldta ← arr_2_uint16 (some (drop 98 item)) (some 0) 2
  sec ← arr_2_uint64 (some (drop 82 item)) (some 0) 8
  nsec ← arr_2_uint64 (some (drop 90 item)) (some 0) 8
  let text = names_chars site kind dev ntf + hash_chars hashed_dev hashed_ntf in
      let tail = 20 + way + (21 + short_chars (number ldta)) + times_chars sec nsec in
      if ltb (text + tail) 2048 then ok tt else fault
