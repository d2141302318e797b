-- ===== src/Notify/Codec.antt =====
-- notify.system/msg_notify.c: little-endian integers in byte arrays, `uint64_2_arr` and its like.
-- The loops count `i` up to `sz`; an index past the array, or a shift by the width of the shifted
-- type or more, is a fault. `sz` is an `int` that every caller gives as a positive constant.
pub mod Bytes
pub mod RoundTrip
use memory_leak.Prelude.{
  ℕ, zero, suc, ◌+◌, ◌*◌, ◌/◌, ◌%◌, ◌^◌, Option, none, some, List, ltb, leb, if◌then◌else◌, length,
  set, get_or,
}
use Prim.Native.Nat.{bit_or}
use memory_leak.Prelude.Run.{Run, ok, fault, ◌>>=◌}

-- `for (; i < sz; ++i) arr[i] = (n >> (i * 8)) & 0xFF;` with `rounds` = sz - i, and `shift` the
-- width of the type that is shifted.
unfoldable pub store_bytes : (shift rounds i n : ℕ) → List ℕ → Run (List ℕ)
store_bytes shift zero i n arr = ok arr
store_bytes shift (suc rounds) i n arr =
    let rest = store_bytes shift rounds (i + 1) n (set arr i (n / 2 ^ (i * 8) % 256)) in
    if leb shift (i * 8) then fault else if ltb i (length arr) then rest else fault

-- A null array is left alone.
unfoldable pub store : ℕ → Option (List ℕ) → (n sz : ℕ) → Run (Option (List ℕ))
store shift none n sz = ok none
store shift (some arr) n sz = do r ← store_bytes shift sz 0 n arr; ok (some r)

unfoldable pub uint64_2_arr : Option (List ℕ) → (n sz : ℕ) → Run (Option (List ℕ))
unfolding store
uint64_2_arr = store 64

unfoldable pub uint32_2_arr : Option (List ℕ) → (n sz : ℕ) → Run (Option (List ℕ))
unfolding store
uint32_2_arr = store 32

-- A `uint16_t` is shifted as an `int`.
unfoldable pub uint16_2_arr : Option (List ℕ) → (n sz : ℕ) → Run (Option (List ℕ))
unfolding store
uint16_2_arr = store 32

-- `for (; i < sz; ++i) { t = arr[i]; (*n) |= (t << (i * 8)); }`, with `shift` the width of `t` and
-- `width` that of `*n`.
unfoldable pub load_bytes : (shift width rounds i : ℕ) → List ℕ → ℕ → Run ℕ
load_bytes shift width zero i arr n = ok n
load_bytes shift width (suc rounds) i arr n =
    let t = get_or arr i 0 in
    let rest =
      load_bytes shift width rounds (i + 1) arr
        (bit_or n (t * 2 ^ (i * 8) % 2 ^ shift) % 2 ^ width) in
    if leb shift (i * 8) then fault else if ltb i (length arr) then rest else fault

-- `*n` behind the call: a null `arr` or `n` is left alone.
unfoldable pub load : (shift width : ℕ) → Option (List ℕ) → Option ℕ → (sz : ℕ) → Run (Option ℕ)
load shift width none n sz = ok n
load shift width (some arr) none sz = ok none
load shift width (some arr) (some n) sz = do r ← load_bytes shift width sz 0 arr 0; ok (some r)

unfoldable pub arr_2_uint64 : Option (List ℕ) → Option ℕ → (sz : ℕ) → Run (Option ℕ)
unfolding load
arr_2_uint64 = load 64 64

unfoldable pub arr_2_uint32 : Option (List ℕ) → Option ℕ → (sz : ℕ) → Run (Option ℕ)
unfolding load
arr_2_uint32 = load 32 32

-- `t` is a `uint32_t` here too.
unfoldable pub arr_2_uint16 : Option (List ℕ) → Option ℕ → (sz : ℕ) → Run (Option ℕ)
unfolding load
arr_2_uint16 = load 32 16
