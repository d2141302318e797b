-- ===== src/Cluster/Collect/Decimal.antt =====
-- Numbers in decimal, written with `%d` and read with `%d`.
use memory_leak.Prelude.{
  ℕ, zero, suc, ◌+◌, ◌-◌, ◌*◌, ◌/◌, ◌%◌, ◌^◌, ◌<◌, ◌≡◌, refl, inl, inr, true, false, List, [], ◌∷◌,
  ◌++◌, ltb, ◌==◌, ◌&&◌, ◌||◌, leb, arith, Bool-cases, ltb→lt, ltb→le, lt→ltb, le→leb, ne→==,
}
use memory_leak.Prelude.Int.{ℤ, pos, negsuc}
use memory_leak.Prelude.Run.{ok}
use memory_leak.Quicksort.Order.{IsInt}
use memory_leak.Cluster.Collect.{
  is_delimiter, is_digit, digits_value, starts_digit, scan_signed, scan_sign, scan_int, digits,
  decimal,
}

-- Digits alone, and at least one.
pub data AllDigits : List ℕ → Type 0 where
  one : {c : ℕ} → is_digit c ≡ true → AllDigits (c ∷ [])
  more : {c : ℕ} {text : List ℕ} → is_digit c ≡ true → AllDigits text → AllDigits (c ∷ text)

last_digit : (xs : List ℕ) (c : ℕ) → AllDigits xs → is_digit c ≡ true → AllDigits (xs ++ c ∷ [])
last_digit [] c a e = elim a [ ]
last_digit (x ∷ []) c (AllDigits.one h) e = AllDigits.more h (AllDigits.one e)
last_digit (x ∷ xs) c (AllDigits.more h a) e = AllDigits.more h (last_digit xs c a e)

digits_value_last :
    (v : ℕ) (xs : List ℕ) (c : ℕ)
    → AllDigits xs
    → is_digit c ≡ true
    → digits_value v (xs ++ c ∷ []) ≡ digits_value v xs * 10 + (c - 48)
digits_value_last v [] c a e = elim a [ ]
digits_value_last v (x ∷ []) c (AllDigits.one h) e = rw (h, e) refl
digits_value_last v (x ∷ xs) c (AllDigits.more h a) e =
    rw h (digits_value_last (v * 10 + (x - 48)) xs c a e)

pub AllDigits-starts : (xs : List ℕ) → AllDigits xs → starts_digit xs ≡ true
AllDigits-starts [] a = elim a [ ]
AllDigits-starts (x ∷ xs) (AllDigits.one h) = h
AllDigits-starts (x ∷ xs) (AllDigits.more h a) = h

digit-is_digit : (n : ℕ) → n < 10 → is_digit (48 + n) ≡ true
digit-is_digit n h = ground arith

pub digits-AllDigits : (fuel n : ℕ) → n < fuel → AllDigits (digits fuel n)
unfolding digits
digits-AllDigits zero n h = absurd (omega arith)
digits-AllDigits (suc fuel) n h = elim (Bool-cases (ltb n 10)) [
  | inl t ↦ rw t (AllDigits.one (digit-is_digit n (ltb→lt n 10 t)))
  | inr t ↦ rw t (
      last_digit (digits fuel (n / 10)) (48 + n % 10)
        (digits-AllDigits fuel (n / 10) (omega (arith, ltb→le n 10 t)))
        (digit-is_digit (n % 10) (omega arith)))
]

pub digits_value-digits : (fuel n : ℕ) → n < fuel → digits_value 0 (digits fuel n) ≡ n
unfolding digits
digits_value-digits zero n h = absurd (omega arith)
digits_value-digits (suc fuel) n h = elim (Bool-cases (ltb n 10)) [
  | inl t ↦ rw (t, digit-is_digit n (ltb→lt n 10 t)) (omega arith)
  | inr t ↦
      let smaller : n / 10 < fuel = omega (arith, ltb→le n 10 t) in
      rw
        (
          t,
          digits_value_last 0 (digits fuel (n / 10)) (48 + n % 10)
              (digits-AllDigits fuel (n / 10) smaller) (digit-is_digit (n % 10) (omega arith)),
          digits_value-digits fuel (n / 10) smaller,
        )
        (omega arith)
]

-- A digit is neither white space nor a sign nor a delimiter.
digit_not_space : (c : ℕ) → is_digit c ≡ true → ((c == 32) || (leb 9 c && leb c 13)) ≡ false
digit_not_space c h = ground arith

digit_not : (c k : ℕ) → k < 48 → is_digit c ≡ true → (c == k) ≡ false
digit_not c k h e = ground arith

digit_not_delimiter : (c : ℕ) → is_digit c ≡ true → is_delimiter c ≡ false
digit_not_delimiter c h = ground arith

scan_sign_digits :
    (x : ℕ) (xs : List ℕ) (prior : ℤ)
    → is_digit x ≡ true
    → scan_int (x ∷ xs) prior ≡ scan_signed false (x ∷ xs) prior
unfolding scan_int scan_sign
scan_sign_digits x xs prior h =
    rw (digit_not_space x h, digit_not x 45 (omega arith) h, digit_not x 43 (omega arith) h) refl

scan_int_digits :
    (xs : List ℕ) (prior : ℤ) → AllDigits xs → scan_int xs prior ≡ scan_signed false xs prior
scan_int_digits [] prior a = elim a [ ]
scan_int_digits (x ∷ xs) prior (AllDigits.one h) = scan_sign_digits x xs prior h
scan_int_digits (x ∷ xs) prior (AllDigits.more h a) = scan_sign_digits x xs prior h

-- What is written with `%d` is read as the same number.
pub scan_int-decimal : (z prior : ℤ) → IsInt z → scan_int (decimal z) prior ≡ ok z
unfolding decimal scan_signed scan_int scan_sign
scan_int-decimal (pos n) prior h =
    let all = digits-AllDigits (n + 1) n (omega arith) in
    rw
      (
        scan_int_digits (digits (n + 1) n) prior all,
        AllDigits-starts (digits (n + 1) n) all,
        digits_value-digits (n + 1) n (omega arith),
        lt→ltb n (2 ^ 31) h,
      )
      refl
scan_int-decimal (negsuc n) prior h =
    let all = digits-AllDigits (n + 2) (n + 1) (omega arith) in
    let back : n + 1 - 1 ≡ n = omega arith in
    rw
      (
        AllDigits-starts (digits (n + 2) (n + 1)) all,
        digits_value-digits (n + 2) (n + 1) (omega arith),
        ne→== (n + 1) 0 (omega arith),
        le→leb (n + 1) (2 ^ 31) (omega (arith, h)),
        back,
      )
      refl

-- A field: at least one byte, and no delimiter.
pub data IsWord : List ℕ → Type 0 where
  one : {c : ℕ} → is_delimiter c ≡ false → IsWord (c ∷ [])
  more : {c : ℕ} {text : List ℕ} → is_delimiter c ≡ false → IsWord text → IsWord (c ∷ text)

digits-IsWord : (xs : List ℕ) → AllDigits xs → IsWord xs
digits-IsWord [] a = elim a [ ]
digits-IsWord (x ∷ []) (AllDigits.one h) = IsWord.one (digit_not_delimiter x h)
digits-IsWord (x ∷ xs) (AllDigits.more h a) =
    IsWord.more (digit_not_delimiter x h) (digits-IsWord xs a)

pub decimal-IsWord : (z : ℤ) → IsWord (decimal z)
unfolding decimal
decimal-IsWord (pos n) = digits-IsWord (digits (n + 1) n) (digits-AllDigits (n + 1) n (omega arith))
decimal-IsWord (negsuc n) =
    IsWord.more refl
      (digits-IsWord (digits (n + 2) (n + 1)) (digits-AllDigits (n + 2) (n + 1) (omega arith)))
