-- ===== src/Prelude/Memory.antt =====
-- Byte buffers: `memcpy` into a buffer at an offset and out of one, with the bounds of both.
use Prim.Native.Nat.{ℕ, ◌+◌, ◌≤◌, ◌<◌}
use mathlib.Core.Path.{◌≡◌}
use mathlib.Core.Option.{Option, none, some}
use mathlib.Core.List.{List, ◌++◌, append_assoc}
use native.Mathlib.Omega.{arith}
use memory_leak.Prelude.Tests.{leb, if◌then◌else◌, le→leb, lt→leb}
use memory_leak.Prelude.Lists.{
  length, take, drop, length-append, length-take_of_le, length-drop, take-append_of_eq,
}

-- memcpy(dst + off, src, length src); `none` for a write past the end of `dst`.
unfoldable pub copy_in : List ℕ → ℕ → List ℕ → Option (List ℕ)
copy_in dst off src =
    if leb (off + length src) (length dst)
    then some (take off dst ++ (src ++ drop (off + length src) dst))
    else none

-- memcpy(out, src, n) into a fresh buffer; `none` for a read past the end of `src`.
unfoldable pub copy_out : List ℕ → ℕ → Option (List ℕ)
copy_out src n = if leb n (length src) then some (take n src) else none

module _ (dst : List ℕ) (off : ℕ) (src : List ℕ) where
  abbrev pub overwrite : List ℕ
  overwrite = take off dst ++ (src ++ drop (off + length src) dst)

  pub copy_in-eq_some : off + length src ≤ length dst → copy_in dst off src ≡ some overwrite
  unfolding copy_in
  copy_in-eq_some h = rw (le→leb (off + length src) (length dst) h)

  pub copy_in-eq_none : length dst < off + length src → copy_in dst off src ≡ none
  unfolding copy_in
  copy_in-eq_none h = rw (lt→leb (off + length src) (length dst) h)

  pub length-overwrite : off + length src ≤ length dst → length overwrite ≡ length dst
  length-overwrite h = omega (
    arith,
    length-append (take off dst) (src ++ drop (off + length src) dst),
    length-append src (drop (off + length src) dst),
    length-take_of_le off dst (omega arith),
    length-drop (off + length src) dst,
  )

  -- The bytes up to the end of the write: the old ones below the offset, then the new ones.
  pub take-overwrite :
      off + length src ≤ length dst → take (off + length src) overwrite ≡ take off dst ++ src
  take-overwrite h = rw (← append_assoc (take off dst) src (drop (off + length src) dst)) (
      take-append_of_eq (off + length src) (take off dst ++ src) (drop (off + length src) dst)
        (omega (arith, length-append (take off dst) src, length-take_of_le off dst (omega arith))))

pub copy_out-eq_some : (src : List ℕ) (n : ℕ) → n ≤ length src → copy_out src n ≡ some (take n src)
unfolding copy_out
copy_out-eq_some src n h = rw (le→leb n (length src) h)

pub copy_out-eq_none : (src : List ℕ) (n : ℕ) → length src < n → copy_out src n ≡ none
unfolding copy_out
copy_out-eq_none src n h = rw (lt→leb n (length src) h)
