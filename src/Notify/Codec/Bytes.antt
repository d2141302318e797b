-- ===== src/Notify/Codec/Bytes.antt =====
-- What the loops compute: the low bytes of a number, lowest first, and the number of such bytes.
use memory_leak.Prelude.{
  ℕ, zero, suc, ◌+◌, ◌*◌, ◌/◌, ◌%◌, ◌^◌, ◌≤◌, ◌<◌, ◌≡◌, refl, ap, ◌∙◌, List, [], ◌∷◌, ◌++◌, length,
  set, get_or, take, drop, arith, length-set, lt→leb, lt→ltb, append_assoc, take-append-drop,
}
use Prim.Native.Nat.{bit_or}
use native.Mathlib.Numerals.{towards_suc, add-one}
use native.Mathlib.Nat.{add-zero, div-div-eq-div-mul, mod-eq_of_lt, pow-le-pow_right, pow-zero}
use memory_leak.Prelude.Bits.{bit_or-eq-add}
use memory_leak.Prelude.Run.{ok}
use memory_leak.Notify.Codec.{store_bytes, load_bytes}

unfoldable pub le_bytes : ℕ → ℕ → List ℕ
le_bytes zero n = []
le_bytes (suc k) n = n % 256 ∷ le_bytes k (n / 256)

unfoldable pub le_value : List ℕ → ℕ
le_value [] = 0
le_value (b ∷ bs) = b + 256 * le_value bs

pow-eight : (i : ℕ) → 2 ^ ((i + 1) * 8) ≡ 2 ^ (i * 8) * 256
pow-eight i = ap (λ (e : ℕ). 2 ^ e) (omega arith) ∙ shifted (i * 8)
  where
    shifted : (s : ℕ) → 2 ^ (s + 8) ≡ 2 ^ s * 256
    shifted s = simp towards_suc (omega arith)

take-set :
    (arr : List ℕ) (i v : ℕ) → i < length arr → take (suc i) (set arr i v) ≡ take i arr ++ v ∷ []
take-set [] i v h = elim h [ ]
take-set (x ∷ xs) zero v h = refl
take-set (x ∷ xs) (suc i) v h = ap (λ (t : List ℕ). x ∷ t) (take-set xs i v (omega arith))

drop-set : (arr : List ℕ) (i j v : ℕ) → i < j → drop j (set arr i v) ≡ drop j arr
drop-set [] i j v h = refl
drop-set (x ∷ xs) i zero v h = absurd (omega arith)
drop-set (x ∷ xs) zero (suc j) v h = refl
drop-set (x ∷ xs) (suc i) (suc j) v h = drop-set xs i j v (omega arith)

pub store_bytes-le_bytes :
    (shift rounds i n : ℕ) (arr : List ℕ)
    → (i + rounds) * 8 ≤ shift
    → i + rounds ≤ length arr
    → store_bytes shift rounds i n arr
      ≡ ok (take i arr ++ (le_bytes rounds (n / 2 ^ (i * 8)) ++ drop (i + rounds) arr))
unfolding store_bytes le_bytes
store_bytes-le_bytes shift zero i n arr h w = rw (add-zero, take-append-drop)
store_bytes-le_bytes shift (suc rounds) i n arr h w = rw (
  lt→leb shift (i * 8) (omega arith),
  lt→ltb i (length arr) (omega arith),
  store_bytes-le_bytes shift rounds (i + 1) n (set arr i byte) (omega arith)
      (rw length-set (omega arith)),
  drop-set arr i (i + 1 + rounds) byte (omega arith),
  pow-eight i,
  ← div-div-eq-div-mul,
  head,
  append_assoc,
  rest,
)
  where
    byte : ℕ
    byte = n / 2 ^ (i * 8) % 256

    head : take (i + 1) (set arr i byte) ≡ take i arr ++ byte ∷ []
    head = ap (λ (k : ℕ). take k (set arr i byte)) (add-one i) ∙ take-set arr i byte (omega arith)

    rest : i + 1 + rounds ≡ i + suc rounds
    rest = omega arith

abbrev pub IsBytes : List ℕ → Type 0
IsBytes [] = Unit {0}
IsBytes (b ∷ bs) = (b < 256) × IsBytes bs

-- The byte at an index below the length.
drop-cons :
    (arr : List ℕ) (i : ℕ)
    → IsBytes arr
    → i < length arr
    → (b : ℕ) × (get_or arr i 0 ≡ b) × (drop i arr ≡ b ∷ drop (suc i) arr) × (b < 256)
drop-cons [] i bs h = elim h [ ]
drop-cons (x ∷ xs) zero bs h = (x, refl, refl, bs.0)
drop-cons (x ∷ xs) (suc i) bs h = drop-cons xs i bs.1 (omega arith)

-- One round: the byte lands above the bits that are there, and nothing is cut off.
or_byte :
    (shift width i acc b : ℕ)
    → (i + 1) * 8 ≤ width
    → width ≤ shift
    → acc < 2 ^ (i * 8)
    → b < 256
    → (bit_or acc (b * 2 ^ (i * 8) % 2 ^ shift) % 2 ^ width ≡ acc + b * 2 ^ (i * 8))
      × (acc + b * 2 ^ (i * 8) < 2 ^ ((i + 1) * 8))
or_byte shift width i acc b h w a lt =
    (rw (mod-eq_of_lt narrow, bit_or-eq-add (i * 8) acc b a, mod-eq_of_lt wide), below)
  where
    below : acc + b * 2 ^ (i * 8) < 2 ^ ((i + 1) * 8)
    below = rw (pow-eight i) (grind arith)

    wide : acc + b * 2 ^ (i * 8) < 2 ^ width
    wide = omega (arith, below, pow-le-pow_right {n = 2} (omega arith) h)

    narrow : b * 2 ^ (i * 8) < 2 ^ shift
    narrow = omega (arith, wide, pow-le-pow_right {n = 2} (omega arith) w)

pub load_bytes-le_value :
    (shift width rounds i acc : ℕ) (arr : List ℕ)
    → IsBytes arr
    → (i + rounds) * 8 ≤ width
    → width ≤ shift
    → i + rounds ≤ length arr
    → acc < 2 ^ (i * 8)
    → load_bytes shift width rounds i arr acc
      ≡ ok (acc + 2 ^ (i * 8) * le_value (take rounds (drop i arr)))
unfolding load_bytes le_value
load_bytes-le_value shift width zero i acc arr bs h w l a = ap (λ (n : ℕ). ok n) (omega arith)
load_bytes-le_value shift width (suc rounds) i acc arr bs h w l a =
    let (b, get, cut, lt) = drop-cons arr i bs (omega arith) in
    let step = or_byte shift width i acc b (omega arith) w a lt in
    rw
      (
        get,
        lt→ltb i (length arr) (omega arith),
        lt→leb shift (i * 8) (omega arith),
        step.0,
        load_bytes-le_value shift width rounds (i + 1) (acc + b * 2 ^ (i * 8)) arr bs (omega arith)
            w (omega arith) step.1,
        cut,
        pow-eight i,
        add-one i,
      )
      (ap (λ (n : ℕ). ok n) (grind arith))

pub le_value-le_bytes : (k n : ℕ) → n < 2 ^ (k * 8) → le_value (le_bytes k n) ≡ n
unfolding le_value le_bytes
le_value-le_bytes zero n h = omega (arith, pow-zero 2)
le_value-le_bytes (suc k) n h =
    omega (arith, le_value-le_bytes k (n / 256) (omega (arith, suc_eight)), suc_eight)
  where
    suc_eight : 2 ^ (suc k * 8) ≡ 2 ^ (k * 8) * 256
    suc_eight = rw (← add-one k) (pow-eight k)

pub length-le_bytes : (k n : ℕ) → length (le_bytes k n) ≡ k
unfolding le_bytes
length-le_bytes zero n = refl
length-le_bytes (suc k) n = ap suc (length-le_bytes k (n / 256))
