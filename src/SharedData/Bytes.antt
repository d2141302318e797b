-- ===== src/SharedData/Bytes.antt =====
-- The bytes that the region holds, its invariant, and the effect of one write and one read.
use memory_leak.Prelude.{
  ℕ, ◌+◌, ◌%◌, ◌^◌, ◌≤◌, ◌<◌, ◌≡◌, refl, List, [], ◌++◌, ltb, if◌then◌else◌, length, take,
  length-take_of_le, arith, le→leb, lt→leb, lt→ltb, le→ltb,
}
use memory_leak.Prelude.Memory.{
  copy_in-eq_some, copy_in-eq_none, copy_out-eq_some, overwrite, length-overwrite, take-overwrite,
}
use memory_leak.Prelude.Run.{fault, ◌>>=◌, Returns}
use native.Mathlib.Decide.{dec_lt}
use memory_leak.SharedData.{Layout, SharedData, ull, write_at, write_bytes}

abbrev pub contents : SharedData → List ℕ
contents p = take p.used_data p.bytes

pub record IsValid (k : Layout) (p : SharedData) : Type 0 where
  pub room : p.used_data + k.size_of < p.total
  pub sized : length p.bytes + k.data_at ≡ p.total
  pub small : p.total < 2 ^ 31

-- The fields that neither a write nor a read of other data touches.
pub record SameHeader (p r : SharedData) : Type 0 where
  pub total : r.total ≡ p.total
  pub read_pid : r.read_pid ≡ p.read_pid
  pub should_exit : r.should_exit ≡ p.should_exit

-- What is still there behind a write of `n` bytes: everything if they fit, else nothing.
abbrev pub kept : Layout → SharedData → ℕ → List ℕ
kept k p n = if ltb (n + p.used_data + k.size_of) p.total then contents p else []

pub length-contents :
    {k : Layout} {p : SharedData} → IsValid k p → length (contents p) ≡ p.used_data
length-contents {k} {p} v = length-take_of_le p.used_data p.bytes (omega (arith, k.data_at_le))

module _ (k : Layout) {p : SharedData} (v : IsValid k p) where
  write_at-fits : (n : ℕ) → n + p.used_data + k.size_of < p.total → write_at k p n ≡ p.used_data
  unfolding write_at
  write_at-fits n h = rw (wrap, lt→leb p.total (n + p.used_data + k.size_of) h)
    where
      wrap : (n + p.used_data + k.size_of) % ull ≡ n + p.used_data + k.size_of
      wrap = omega (arith, v.small)

  write_at-full : (n : ℕ) → n < 2 ^ 31 → p.total ≤ n + p.used_data + k.size_of → write_at k p n ≡ 0
  unfolding write_at
  write_at-full n w h = rw (wrap, le→leb p.total (n + p.used_data + k.size_of) h)
    where
      wrap : (n + p.used_data + k.size_of) % ull ≡ n + p.used_data + k.size_of
      wrap = omega (arith, v.small, v.room)

  -- `r` holds `old` and behind it the first `n` bytes of `src`.
  abbrev pub Holds : List ℕ → List ℕ → ℕ → SharedData → Type 0
  Holds old src n r =
      IsValid k r × (contents r ≡ old ++ take n src) × SameHeader p r × (r.sleeping ≡ p.sleeping)

  write_bytes-at :
      (src : List ℕ) (n off : ℕ)
      → n ≤ length src
      → write_at k p n ≡ off
      → off + n + k.size_of < p.total
      → Returns (write_bytes k p src n) (Holds (take off p.bytes) src n)
  unfolding write_bytes
  write_bytes-at src n off le e fits =
      let bytes = take n src in
      let len = length-take_of_le n src le in
      let inside : off + length bytes ≤ length p.bytes =
        omega (arith, v.sized, len, k.data_at_le) in
      let wrap : (off + n) % ull ≡ off + length bytes = omega (arith, len, v.small) in
      (
        record p { used_data = (off + n) % ull; bytes = overwrite p.bytes off bytes },
        rw (copy_out-eq_some src n le, ◌>>=◌, e, copy_in-eq_some p.bytes off bytes inside),
        (
          record {
            room = omega (arith, len, wrap);
            sized = rw (length-overwrite p.bytes off bytes inside) v.sized;
            small = v.small;
          },
          rw wrap (take-overwrite p.bytes off bytes inside),
          record { total = refl; read_pid = refl; should_exit = refl },
          refl,
        ),
      )

  pub write_bytes-Holds :
      (src : List ℕ) (n : ℕ)
      → n ≤ length src
      → n + k.size_of < p.total
      → Returns (write_bytes k p src n) (Holds (kept k p n) src n)
  write_bytes-Holds src n le fits = elim (dec_lt (n + p.used_data + k.size_of) p.total) [
    | yes room ↦
        rw (lt→ltb (n + p.used_data + k.size_of) p.total room)
          (write_bytes-at src n p.used_data le (write_at-fits n room) (omega arith))
    | no full ↦ rw (le→ltb (n + p.used_data + k.size_of) p.total (omega arith)) (
        write_bytes-at src n 0 le (write_at-full n (omega (arith, v.small)) (omega arith))
          (omega arith))
  ]

  -- A write that the region cannot hold at all runs past its end.
  pub write_bytes-fault :
      (src : List ℕ) (n : ℕ)
      → n ≤ length src
      → n < 2 ^ 31
      → p.total < n + k.data_at
      → write_bytes k p src n ≡ fault
  unfolding write_bytes
  write_bytes-fault src n le w big = rw (
    copy_out-eq_some src n le,
    ◌>>=◌,
    write_at-full n w (omega (arith, k.data_at_le)),
    copy_in-eq_none p.bytes 0 (take n src) (omega (arith, v.sized, length-take_of_le n src le)),
  )
