-- ===== src/Notify/Codec/RoundTrip.antt =====
-- Storing a number and loading it again, for the three widths.
use memory_leak.Prelude.{
  ℕ, zero, suc, ◌+◌, ◌*◌, ◌/◌, ◌^◌, ◌≤◌, ◌<◌, ◌≡◌, ap, Option, some, List, [], ◌∷◌, ◌++◌, length,
  take, drop, arith, take-append_of_eq, length-append,
}
use native.Mathlib.Nat.{pow-zero}
use memory_leak.Prelude.Run.{Run, ok, ◌>>=◌}
use memory_leak.Notify.Codec.{
  store, load, uint64_2_arr, uint32_2_arr, uint16_2_arr, arr_2_uint64, arr_2_uint32, arr_2_uint16,
}
use memory_leak.Notify.Codec.Bytes.{
  le_bytes, IsBytes, store_bytes-le_bytes, load_bytes-le_value, le_value-le_bytes, length-le_bytes,
}

IsBytes-append : (xs ys : List ℕ) → IsBytes xs → IsBytes ys → IsBytes (xs ++ ys)
IsBytes-append [] ys a b = b
IsBytes-append (x ∷ xs) ys a b = (a.0, IsBytes-append xs ys a.1 b)

IsBytes-drop : (k : ℕ) (xs : List ℕ) → IsBytes xs → IsBytes (drop k xs)
IsBytes-drop zero xs a = a
IsBytes-drop (suc k) [] a = a
IsBytes-drop (suc k) (x ∷ xs) a = IsBytes-drop k xs a.1

IsBytes-le_bytes : (k n : ℕ) → IsBytes (le_bytes k n)
unfolding le_bytes
IsBytes-le_bytes zero n = tt
IsBytes-le_bytes (suc k) n = (omega arith, IsBytes-le_bytes k (n / 256))

-- The array behind a store: the low `sz` bytes of `n`, and the old bytes behind them.
abbrev pub stored : List ℕ → (n sz : ℕ) → List ℕ
stored arr n sz = le_bytes sz n ++ drop sz arr

-- The three pairs of functions, and the bytes of their types.
pub data Width : Type 0 where
  of_64 : Width
  of_32 : Width
  of_16 : Width

abbrev pub bytes_of : Width → ℕ
bytes_of of_64 = 8
bytes_of of_32 = 4
bytes_of of_16 = 2

abbrev pub to_arr : Width → Option (List ℕ) → (n sz : ℕ) → Run (Option (List ℕ))
to_arr of_64 = uint64_2_arr
to_arr of_32 = uint32_2_arr
to_arr of_16 = uint16_2_arr

abbrev pub from_arr : Width → Option (List ℕ) → Option ℕ → (sz : ℕ) → Run (Option ℕ)
from_arr of_64 = arr_2_uint64
from_arr of_32 = arr_2_uint32
from_arr of_16 = arr_2_uint16

module _ (arr : List ℕ) (n sz : ℕ) (room : sz ≤ length arr) where
  store-stored :
      (shift : ℕ) → sz * 8 ≤ shift → store shift (some arr) n sz ≡ ok (some (stored arr n sz))
  unfolding store
  store-stored shift h =
      rw (store_bytes-le_bytes shift sz 0 n arr (omega arith) (omega arith), ◌>>=◌, first, next)
    where
      first : n / 2 ^ (0 * 8) ≡ n
      first = omega (arith, pow-zero 2)

      next : 0 + sz ≡ sz
      next = omega arith

  module _ (bytes : IsBytes arr) (small : n < 2 ^ (sz * 8)) where
    load-stored :
        (shift width old : ℕ)
        → sz * 8 ≤ width
        → width ≤ shift
        → load shift width (some (stored arr n sz)) (some old) sz ≡ ok (some n)
    unfolding load
    load-stored shift width old h w =
        rw
          (
            load_bytes-le_value shift width sz 0 0 (stored arr n sz) all (omega arith) w len
                (omega (arith, pow-zero 2)),
            ◌>>=◌,
            cut,
            le_value-le_bytes sz n small,
          )
          (ap {B = Run (Option ℕ)} (λ (k : ℕ). ok (some k)) (omega (arith, pow-zero 2)))
      where
        all : IsBytes (stored arr n sz)
        all =
            IsBytes-append (le_bytes sz n) (drop sz arr) (IsBytes-le_bytes sz n)
              (IsBytes-drop sz arr bytes)

        len : 0 + sz ≤ length (stored arr n sz)
        len = omega (arith, length-append (le_bytes sz n) (drop sz arr), length-le_bytes sz n)

        cut : take sz (le_bytes sz n ++ drop sz arr) ≡ le_bytes sz n
        cut =
            take-append_of_eq sz (le_bytes sz n) (drop sz arr) (omega (arith, length-le_bytes sz n))

    -- For each of the three pairs of functions, a number that fits the `sz` bytes, stored in an
    -- array of bytes with room for them and loaded again into any variable, comes back, if `sz`
    -- bytes are no wider than the type.
    pub codec_round_trip :
        (old : ℕ) (w : Width)
        → sz ≤ bytes_of w
        → (to_arr w (some arr) n sz >>= λ a. from_arr w a (some old) sz) ≡ ok (some n)
    unfolding uint64_2_arr arr_2_uint64 uint32_2_arr arr_2_uint32 uint16_2_arr arr_2_uint16
    codec_round_trip old of_64 h =
        rw (store-stored 64 (omega arith), ◌>>=◌)
          (load-stored 64 64 old (omega arith) (omega arith))
    codec_round_trip old of_32 h =
        rw (store-stored 32 (omega arith), ◌>>=◌)
          (load-stored 32 32 old (omega arith) (omega arith))
    codec_round_trip old of_16 h =
        rw (store-stored 32 (omega arith), ◌>>=◌)
          (load-stored 32 16 old (omega arith) (omega arith))

  -- Each store writes the low `sz` bytes of the number, lowest first, and leaves the rest of the
  -- array alone, if the shifts stay below the width of the shifted type (an `int` for 16 bits).
  pub codec-le_bytes :
      (sz ≤ 8 → uint64_2_arr (some arr) n sz ≡ ok (some (stored arr n sz)))
      × (sz ≤ 4 → uint32_2_arr (some arr) n sz ≡ ok (some (stored arr n sz)))
      × (sz ≤ 4 → uint16_2_arr (some arr) n sz ≡ ok (some (stored arr n sz)))
  unfolding uint64_2_arr uint32_2_arr uint16_2_arr
  codec-le_bytes = (
    λ h. store-stored 64 (omega arith),
    λ h. store-stored 32 (omega arith),
    λ h. store-stored 32 (omega arith),
  )
