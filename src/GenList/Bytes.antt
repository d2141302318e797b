-- ===== src/GenList/Bytes.antt =====
-- The bytes that a buffer holds, its invariant, and what reserving and appending do to them.
use memory_leak.Prelude.{
  ap, ℕ, suc, ◌+◌, ◌-◌, ◌/◌, ◌%◌, ◌^◌, ◌≤◌, ◌<◌, ◌≡◌, refl, true, inl, inr, ◌⊎◌, length, take,
  arith, length-append, length-take_of_le, take-append_of_le, take_all, lt→ltb, le→ltb, List, ◌++◌,
}
use memory_leak.Prelude.Run.{Returns}
use memory_leak.Prelude.Memory.{
  copy_in-eq_some, copy_out-eq_some, take-overwrite, length-overwrite, overwrite,
}
use native.Mathlib.Decide.{dec_lt}
use memory_leak.GenList.{
  GenList, Allocator, header_size, data_offset, step, ull, grow, reserve, extend, resize, append,
}
use memory_leak.GenList.Grow.{Grown, grow-Grown}

-- What the buffer holds.
abbrev pub contents : GenList → List ℕ
contents t = take t.used_data t.body

-- The bytes fit with one to spare, the memory is as long as `total` says, in whole steps.
pub record IsValid (t : GenList) : Type 0 where
  pub room : t.used_data + header_size < t.total
  pub sized : length t.body + data_offset ≡ t.total
  pub stepped : t.total % step ≡ 0

-- Every request is granted.
abbrev pub Grants : Allocator → Type 0
Grants a = (n : ℕ) → a.grants n ≡ true

pub length-contents : {t : GenList} → IsValid t → length (contents t) ≡ t.used_data
length-contents {t} v = length-take_of_le t.used_data t.body (omega arith)

-- `t` after a reservation of `sz` bytes.
pub record Reserved (t : GenList) (sz : ℕ) (r : GenList) : Type 0 where
  pub valid : IsValid r
  pub used : r.used_data ≡ t.used_data
  pub fits : t.used_data + header_size + sz + 1 ≤ r.total
  pub same : contents r ≡ contents t
  pub grown : (r.total ≡ t.total) ⊎ (r.total < t.used_data + header_size + sz + 1 + step)

module _ (a : Allocator) {t : GenList} (v : IsValid t) where
  resize-eq :
      (size : ℕ)
      → length t.body ≤ size
      → resize a t.body size ≡ t.body ++ a.junk (size - length t.body)
  resize-eq size h =
      ap (λ (b : List ℕ). b ++ a.junk (size - length t.body)) (take_all size t.body h)

  extend-Reserved :
      (sz up : ℕ)
      → Grants a
      → t.total ≤ up
      → up % step ≡ 0
      → t.used_data + header_size + sz + 1 ≤ up
      → up < t.used_data + header_size + sz + 1 + step
      → Returns (extend a t up) (Reserved t sz)
  unfolding extend
  extend-Reserved sz up g le st fits tight =
      let size = up - data_offset in
      let e = resize-eq size (omega (arith, v.sized)) in
      (
        record t { total = up; body = resize a t.body size },
        rw (g up),
        record {
          valid = record {
            room = omega arith;
            sized = rw e (
                omega (
                  arith,
                  v.sized,
                  length-append t.body (a.junk (size - length t.body)),
                  a.length-junk (size - length t.body),
                ));
            stepped = st;
          };
          used = refl;
          fits = fits;
          same =
              rw e (
                take-append_of_le t.used_data t.body (a.junk (size - length t.body)) (omega arith));
          grown = inr tight;
        },
      )

  -- The need is computed without wrap.
  need-eq :
      (sz : ℕ)
      → sz < 2 ^ 31
      → t.total < 2 ^ 62
      → ((t.used_data + header_size + sz) % ull + 1) % ull ≡ t.used_data + header_size + sz + 1
  need-eq sz h w = omega (arith, v.room)

  grow-need :
      (sz : ℕ)
      → sz < 2 ^ 31
      → t.total < 2 ^ 62
      → t.total < t.used_data + header_size + sz + 1
      → let need = t.used_data + header_size + sz + 1 in
        Returns
          (grow (suc (need / step)) ((t.total + step) % ull) need)
          (Grown (t.total + step) need)
  grow-need sz h w short =
      let need = t.used_data + header_size + sz + 1 in
      rw (wrap) (
        grow-Grown (suc (need / step)) (need / step) (t.total + step) need (omega arith)
          (omega arith) (omega (arith, v.room)))
    where
      wrap : (t.total + step) % ull ≡ t.total + step
      wrap = omega arith

  pub reserve-Reserved :
      (sz : ℕ)
      → Grants a
      → sz < 2 ^ 31
      → t.total < 2 ^ 62
      → Returns (reserve a t sz) (Reserved t sz)
  unfolding reserve
  reserve-Reserved sz g h w =
      let need = t.used_data + header_size + sz + 1 in
      elim (dec_lt t.total need) [
        | no fits ↦ (
          t,
          rw (need-eq sz h w, le→ltb t.total need (omega arith)),
          record { valid = v; used = refl; fits = omega arith; same = refl; grown = inl refl },
        )
        | yes short ↦
            let (up, run, grown) = grow-need sz h w short in
            rw (need-eq sz h w, lt→ltb t.total need short, run)
              (extend-Reserved sz up g (omega (arith, grown.above))
                (omega (arith, grown.stepped, v.stepped)) grown.enough (omega (arith, grown.tight)))
      ]

  -- Appending `sz` bytes of an item adds exactly these, behind what the buffer held.
  pub append-contents :
      (item : List ℕ) (sz : ℕ)
      → sz ≤ length item
      → t.total < 2 ^ 63
      → t.used_data + header_size + sz + 1 ≤ t.total
      → Returns
          (append t item sz)
          λ r. IsValid r × (contents r ≡ contents t ++ take sz item) × (r.total ≡ t.total)
  unfolding append
  append-contents item sz h w fits =
      let bytes = take sz item in
      let len = length-take_of_le sz item h in
      let inside : t.used_data + length bytes ≤ length t.body = omega (arith, v.sized, len) in
      let wrap : (t.used_data + sz) % ull ≡ t.used_data + length bytes = omega (arith, len) in
      (
        record t {
          used_data = (t.used_data + sz) % ull;
          body = overwrite t.body t.used_data bytes;
        },
        rw (copy_out-eq_some item sz h, copy_in-eq_some t.body t.used_data bytes inside),
        (
          record {
            room = omega (arith, len);
            sized = rw (length-overwrite t.body t.used_data bytes inside) v.sized;
            stepped = v.stepped;
          },
          rw wrap (take-overwrite t.body t.used_data bytes inside),
          refl,
        ),
      )
