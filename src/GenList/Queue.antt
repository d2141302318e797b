-- ===== src/GenList/Queue.antt =====
-- The calls of gen_list.c against the sequence of bytes that the buffer stands for.
use memory_leak.Prelude.{
  ℕ, zero, suc, ◌+◌, ◌-◌, ◌^◌, ◌≤◌, ◌<◌, ◌≡◌, refl, true, Option, some, none, ◌⊎◌, ◌==◌,
  if◌then◌else◌, length, take, arith, List, [], ◌∷◌, ◌++◌, ne→==,
}
use memory_leak.Prelude.Int.{ℤ, pos, negsuc, to_int, to_int_of_lt}
use memory_leak.Prelude.Run.{ok, Returns, ◌>>=◌}
use memory_leak.Prelude.Memory.{copy_out-eq_some}
use native.Mathlib.Decide.{ℕ_discrete}
use memory_leak.GenList.{
  GenList, Allocator, Args, args, untouched, header_size, data_offset, step, raise, create, reserve,
  append, insert, zeros, length-zeros, add_item_traffic, add_item_gen_list, drain,
  get_data_gen_list,
}
use memory_leak.GenList.Bytes.{
  contents, IsValid, Grants, length-contents, reserve-Reserved, append-contents,
}

-- The bytes behind a pointer that may still be null.
abbrev pub held : Option GenList → List ℕ
held none = []
held (some t) = contents t

-- The buffer is valid and its size below 2^31.
abbrev pub IsReady : Option GenList → Type 0
IsReady none = Unit {0}
IsReady (some t) = IsValid t × (t.total < 2 ^ 31)

pub length-held : (t : GenList) → IsValid t → length (held (some t)) ≡ t.used_data
length-held t v = length-contents v

-- What a call that adds `sz` bytes of `item` leaves.
pub record Added (l : Option GenList) (sig : Option ℕ) (item : List ℕ) (sz : ℕ) (c : Args)
    : Type 0 where
  pub buffer : GenList
  pub list : c.list ≡ some (some buffer)
  pub valid : IsValid buffer
  pub bytes : contents buffer ≡ held l ++ take sz item
  pub signal : c.sig ≡ (if length (held l) == 0 then raise sig else sig)
  pub small :
      (buffer.total < 2 ^ 31) ⊎ (buffer.total < length (held l) + sz + header_size + 1 + step)

pub raise_idem : (s : Option ℕ) → raise (raise s) ≡ raise s
raise_idem none = refl
raise_idem (some s) = refl

-- How the size of the buffer moves when `sz` bytes are added behind `used`.
abbrev pub Moved : ℕ → ℕ → GenList → GenList → Type 0
Moved used sz t r = (r.total ≡ t.total) ⊎ (r.total < used + sz + header_size + 1 + step)

record Tail (a : Allocator) (item : List ℕ) (sz : ℕ) (t : GenList) : Type 0 where
  mid : GenList
  end : GenList
  reserved : reserve a t sz ≡ ok mid
  appended : append mid item sz ≡ ok end
  valid : IsValid end
  bytes : contents end ≡ contents t ++ take sz item
  moved : Moved t.used_data sz t end

abbrev fresh : GenList
fresh = record { total = step; used_data = 0; sz_item = 0; body = zeros (step - data_offset) }

fresh-IsValid : IsValid fresh
fresh-IsValid = record {
  room = omega arith;
  sized = omega (arith, length-zeros (step - data_offset));
  stepped = refl;
}

module _ (a : Allocator) (g : Grants a) (item : List ℕ) (sz : ℕ) (w : sz < 2 ^ 30)
    (le : sz ≤ length item) where
  -- reserve and append, behind the check for a null buffer
  tail : (t : GenList) → IsValid t → t.total < 2 ^ 31 → Tail a item sz t
  tail t v h =
      let (t', run, r) = reserve-Reserved a v sz g (omega arith) (omega arith) in
      let (t'', run', (valid, bytes, total)) =
        append-contents a r.valid item sz le (omega (arith, v.room, r.grown))
          (omega (arith, r.fits, r.used)) in
      record {
        mid = t';
        end = t'';
        reserved = run;
        appended = run';
        valid = valid;
        bytes = rw (← r.same) bytes;
        moved = omega (arith, total, r.grown);
      }

  insert-Added :
      (l : Option GenList) (sig : Option ℕ)
      → IsReady l
      → Returns
          (insert a (args (some l) sig) (some item) sz)
          λ r. (r.0 ≡ pos 0) × Added l sig item sz r.1
  unfolding insert create
  insert-Added none sig h =
      let t = tail fresh fresh-IsValid (omega arith) in
      (
        (pos 0, args (some (some t.end)) (raise (raise sig))),
        rw (g step, ◌>>=◌, t.reserved, ◌>>=◌, t.appended),
        (
          refl,
          record {
            buffer = t.end;
            list = refl;
            valid = t.valid;
            bytes = t.bytes;
            signal = raise_idem sig;
            small = omega (arith, t.moved);
          },
        ),
      )
  insert-Added (some b) sig h =
      let t = tail b h.0 h.1 in
      (
        (pos 0, args (some (some t.end)) (if b.used_data == 0 then raise sig else sig)),
        rw (t.reserved, ◌>>=◌, t.appended),
        (
          refl,
          record {
            buffer = t.end;
            list = refl;
            valid = t.valid;
            bytes = t.bytes;
            signal = rw (length-held b h.0) refl;
            small = omega (arith, t.moved, length-held b h.0, h.1);
          },
        ),
      )

-- With memory granted, a buffer (or none yet) that is ready, and a non-empty item of `sz` bytes,
-- `add_item_traffic` returns 0, appends exactly those bytes to the bytes held, keeps the
-- invariant, and stores 1 in `*sig` exactly when the buffer held nothing.
pub add_item_traffic-Added :
    (a : Allocator) (l : Option GenList) (sig : Option ℕ) (item : List ℕ) (sz : ℕ)
    → Grants a
    → IsReady l
    → 0 < sz
    → sz < 2 ^ 30
    → sz ≤ length item
    → Returns
        (add_item_traffic a (args (some l) sig) (some item) (pos sz))
        λ r. (r.0 ≡ pos 0) × Added l sig item sz r.1
unfolding add_item_traffic
add_item_traffic-Added a l sig item zero g h p w le = absurd (omega arith)
add_item_traffic-Added a l sig item (suc n) g h p w le = insert-Added a g item (suc n) w le l sig h

-- Whatever is wrong with the arguments (a size below 1, a null item, a null `p`),
-- `add_item_traffic` returns -1 and changes nothing, and `add_item_gen_list` still reports the
-- result of the unlock, 0, to its caller.
pub add_item_rejects :
    (a : Allocator) (c : Args) (item : Option (List ℕ)) (sz : ℤ)
    → (sz ≡ pos 0) ⊎ ((n : ℕ) × (sz ≡ negsuc n)) ⊎ (item ≡ none) ⊎ (c.list ≡ none)
    → (add_item_traffic a c item sz ≡ ok (negsuc 0, c))
      × (add_item_gen_list a 0 0 c item sz ≡ ok (0, c))
unfolding add_item_traffic add_item_gen_list insert
add_item_rejects a c item (negsuc n) h = (refl, refl)
add_item_rejects a c item (pos zero) h = (refl, refl)
add_item_rejects a c none (pos (suc n)) h = (refl, refl)
add_item_rejects a c (some item) (pos (suc n)) h = ground arith

-- With memory granted and the lock taken, `get_data_gen_list` on a ready buffer, or on none, with a
-- place for the data, returns the number of bytes held, stores exactly these bytes with a 0 behind
-- them (nothing if there are none), and leaves the buffer empty and ready.
pub get_data_gen_list-contents :
    (a : Allocator) (l : Option GenList)
    → Grants a
    → IsReady l
    → Returns (get_data_gen_list a 0 l true) λ r.
      (r.size ≡ pos (length (held l)))
      × (r.stored ≡ (if length (held l) == 0 then none else some (held l ++ 0 ∷ [])))
      × (held r.list ≡ [])
      × IsReady r.list
unfolding get_data_gen_list drain
get_data_gen_list-contents a none g h = (untouched (pos 0) none, refl, (refl, refl, refl, tt))
get_data_gen_list-contents a (some t) g h = elim (ℕ_discrete t.used_data 0) [
  | yes e ↦ (untouched (pos 0) (some t), rw (size_eq, e), (rw (len, e), rw (len, e), rw e, h))
  | no ne ↦ (
    record {
      size = pos t.used_data;
      list = some (record t { used_data = 0 });
      stored = some (contents t ++ 0 ∷ []);
    },
    rw (
      size_eq,
      ne→== t.used_data 0 ne,
      g (t.used_data + 1),
      copy_out-eq_some t.body t.used_data (omega (arith, h.0.room, h.0.sized)),
    ),
    (
      rw len,
      rw (len, ne→== t.used_data 0 ne),
      refl,
      (record { room = omega (arith, h.0.room); sized = h.0.sized; stepped = h.0.stepped }, h.1),
    ),
  )
]
  where
    len : length (contents t) ≡ t.used_data
    len = length-contents h.0

    size_eq : to_int t.used_data ≡ pos t.used_data
    size_eq = to_int_of_lt t.used_data (omega (arith, h.0.room, h.1))
