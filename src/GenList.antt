-- ===== src/GenList.antt =====
-- notify.system/gen_list.c and gen_list.h: a growing byte buffer, filled under a mutex by
-- `add_item_gen_list` and emptied by `get_data_gen_list`.
-- The memory behind the header is `body`; `memcpy` past its end is a fault.
pub mod Grow
pub mod Bytes
pub mod Queue
pub mod Session
mod Tests
use memory_leak.Prelude.{
  ℕ, zero, suc, ◌+◌, ◌-◌, ◌/◌, ◌%◌, ◌^◌, ◌≡◌, Bool, true, false, Option, none, some, List, [], ◌∷◌,
  ◌++◌, ltb, ◌==◌, if◌then◌else◌, length, take, replicate, length-replicate,
}
use memory_leak.Prelude.Int.{ℤ, pos, negsuc, to_int}
use memory_leak.Prelude.Memory.{copy_in, copy_out}
use memory_leak.Prelude.Run.{Run, ok, exited, fault, diverged, ◌>>=◌, or_fault}

-- `malloc` and `realloc`: which sizes they grant, and the bytes that `realloc` adds.
pub record Allocator : Type 0 where
  pub grants : ℕ → Bool
  pub junk : ℕ → List ℕ
  pub length-junk : (n : ℕ) → length (junk n) ≡ n

pub record GenList : Type 0 where
  pub total : ℕ
  pub used_data : ℕ
  pub sz_item : ℕ
  pub body : List ℕ

-- sizeof(GEN_LIST) with 8-byte alignment, and the offset of `data`.
abbrev pub header_size : ℕ
header_size = 24

abbrev pub data_offset : ℕ
data_offset = 20

-- GEN_LIST_STEP
abbrev pub step : ℕ
step = 2 ^ 15

abbrev pub ull : ℕ
ull = 2 ^ 64

unfoldable pub zeros : ℕ → List ℕ
zeros n = replicate n 0

pub length-zeros : (n : ℕ) → length (zeros n) ≡ n
unfolding zeros
length-zeros n = length-replicate n 0

-- `while (up_size < n + 1) up_size += GEN_LIST_STEP;`
unfoldable pub grow : ℕ → ℕ → ℕ → Run ℕ
grow zero up need = diverged
grow (suc fuel) up need =
    let rest = grow fuel ((up + step) % ull) need in if ltb up need then rest else ok up

-- `*sig = 1`, unless `sig` is null.
abbrev pub raise : Option ℕ → Option ℕ
raise none = none
raise (some s) = some 1

-- The block `if (!(*p))`.
unfoldable pub create : Allocator → Option GenList → Option ℕ → Run (GenList × Option ℕ)
create a (some t) sig = ok (t, sig)
create a none sig =
    if a.grants step
    then ok (
      record { total = step; used_data = 0; sz_item = 0; body = zeros (step - data_offset) },
      raise sig,
    )
    else exited

-- What `realloc` leaves behind the header.
abbrev pub resize : Allocator → List ℕ → ℕ → List ℕ
resize a body size = take size body ++ a.junk (size - length body)

-- `realloc` and the check of its result.
unfoldable pub extend : Allocator → GenList → ℕ → Run GenList
extend a t up_size =
    if a.grants up_size
    then ok (record t { total = up_size; body = resize a t.body (up_size - data_offset) })
    else exited

-- The block `if ((n + 1) > t->total)`.
unfoldable pub reserve : Allocator → GenList → ℕ → Run GenList
reserve a t sz =
    let need = ((t.used_data + header_size + sz) % ull + 1) % ull in
    if ltb t.total need
    then (do up_size ← grow (suc (need / step)) ((t.total + step) % ull) need; extend a t up_size)
    else ok t

-- memcpy(pdata + t->used_data, item, sz); t->used_data += sz;
unfoldable pub append : GenList → List ℕ → ℕ → Run GenList
append t item sz = do
  bytes ← or_fault (copy_out item sz)
  body ← or_fault (copy_in t.body t.used_data bytes)
  ok (record t { used_data = (t.used_data + sz) % ull; body = body })

-- What a call leaves: `p` (null, or what it points to) and `*sig`.
pub record Args : Type 0 where
  pub list : Option (Option GenList)
  pub sig : Option ℕ

abbrev pub args : Option (Option GenList) → Option ℕ → Args
args p sig = record { list = p; sig = sig }

-- The part behind the test of `sz`.
unfoldable pub insert : Allocator → Args → Option (List ℕ) → ℕ → Run (ℤ × Args)
insert a c none sz = ok (negsuc 0, c)
insert a c (some item) sz = elim c.list [
  | none ↦ ok (negsuc 0, c)
  | some l ↦ do
    (t, sig) ← create a l c.sig
    t' ← reserve a t sz
    t'' ← append t' item sz
    ok (pos 0, args (some (some t'')) (if t.used_data == 0 then raise sig else sig))
]

unfoldable pub add_item_traffic : Allocator → Args → Option (List ℕ) → ℤ → Run (ℤ × Args)
add_item_traffic a c item (negsuc n) = ok (negsuc 0, c)
add_item_traffic a c item (pos zero) = ok (negsuc 0, c)
add_item_traffic a c item (pos (suc n)) = insert a c item (suc n)

-- The lock and the unlock return an error number, 0 for success.
unfoldable pub add_item_gen_list :
    Allocator → (lock unlock : ℕ) → Args → Option (List ℕ) → ℤ → Run (ℕ × Args)
add_item_gen_list a lock unlock c item sz =
    if lock == 0
    then (do (err, c') ← add_item_traffic a c item sz; ok (unlock, c'))
    else ok (lock, c)

-- What a call of `get_data_gen_list` leaves: the buffer behind `p` and what is stored in `*data`,
-- `none` if nothing is.
pub record Taken : Type 0 where
  pub size : ℤ
  pub list : Option GenList
  pub stored : Option (List ℕ)

abbrev pub untouched : ℤ → Option GenList → Taken
untouched n p = record { size = n; list = p; stored = none }

-- The critical section. The size is an `int`; a negative one makes `memcpy` run out of bounds,
-- and so does a null pointer from `malloc`, which the code does not test.
unfoldable pub drain : Allocator → GenList → ℤ → Run Taken
drain a t (negsuc n) = fault
drain a t (pos n) =
    if n == 0
    then ok (untouched (pos 0) (some t))
    else if a.grants (n + 1)
    then (do
      bytes ← or_fault (copy_out t.body n)
      ok (record {
        size = pos n;
        list = some (record t { used_data = 0 });
        stored = some (bytes ++ 0 ∷ []);
      }))
    else fault

-- `data` is null if `wanted` is false. The result is `n`, which is 0 if the lock fails.
unfoldable pub get_data_gen_list :
    Allocator → (lock : ℕ) → Option GenList → (wanted : Bool) → Run Taken
get_data_gen_list a lock none wanted = ok (untouched (pos 0) none)
get_data_gen_list a lock (some t) false = ok (untouched (pos 0) (some t))
get_data_gen_list a lock (some t) true =
    if lock == 0 then drain a t (to_int t.used_data) else ok (untouched (pos 0) (some t))
