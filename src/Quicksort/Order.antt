-- ===== src/Quicksort/Order.antt =====
-- The order of `long int`s, and the values that a swap through an `int` keeps.
use memory_leak.Prelude.{ℕ, ◌^◌, ◌<◌, ◌≡◌, refl, true, false, List, get_or, arith}
use memory_leak.Prelude.Int.{ℤ, pos, negsuc}
use memory_leak.Quicksort.{gtb, narrow}

-- a ≤ b
abbrev pub Le : ℤ → ℤ → Type 0
Le a b = gtb a b ≡ false

pub Le_refl : (a : ℤ) → Le a a
Le_refl (pos n) = ground arith
Le_refl (negsuc n) = ground arith

pub Le_trans : (a b c : ℤ) → Le a b → Le b c → Le a c
Le_trans (pos a) (pos b) (pos c) h k = ground arith
Le_trans (pos a) (pos b) (negsuc c) h k = cc
Le_trans (pos a) (negsuc b) c h k = cc
Le_trans (negsuc a) (pos b) (pos c) h k = refl
Le_trans (negsuc a) (pos b) (negsuc c) h k = cc
Le_trans (negsuc a) (negsuc b) (pos c) h k = refl
Le_trans (negsuc a) (negsuc b) (negsuc c) h k = ground arith

pub Le_of_gtb : (a b : ℤ) → gtb a b ≡ true → Le b a
Le_of_gtb (pos a) (pos b) h = ground arith
Le_of_gtb (pos a) (negsuc b) h = refl
Le_of_gtb (negsuc a) (pos b) h = cc
Le_of_gtb (negsuc a) (negsuc b) h = ground arith

-- The values of an `int`.
abbrev pub IsInt : ℤ → Type 0
IsInt (pos n) = n < 2 ^ 31
IsInt (negsuc n) = n < 2 ^ 31

pub narrow-IsInt : (x : ℤ) → IsInt x → narrow x ≡ x
narrow-IsInt (pos n) h = ground arith
narrow-IsInt (negsuc n) h = ground arith

-- The element at an index; behind the end it is 0.
abbrev pub at : List ℤ → ℕ → ℤ
at a k = get_or a k (pos 0)

-- All elements fit an `int`.
abbrev pub AllInt : List ℤ → Type 0
AllInt a = (k : ℕ) → IsInt (at a k)
