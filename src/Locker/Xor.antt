-- ===== src/Locker/Xor.antt =====
-- The exclusive or of numbers can be cancelled on either side.
use Prim.Native.Nat.{bit_xor, differ, digits, bit_xor-bitwise}
use poctamat_back.Common.{ℕ, zero, suc, ◌+◌, ◌*◌, ◌/◌, ◌%◌, ◌≤◌, ◌<◌, ◌≡◌, refl, sym, ◌∙◌, arith}

abbrev xor_digits : ℕ → ℕ → ℕ → ℕ
xor_digits n a b = digits (λ b. b) differ n a b

xor_digits_fuel : (n m a b : ℕ) → a ≤ n → a ≤ m → xor_digits n a b ≡ xor_digits m a b
xor_digits_fuel zero zero a b p q = refl
xor_digits_fuel zero (suc m) zero b p q = refl
xor_digits_fuel zero (suc m) (suc a) b p q = absurd (omega arith)
xor_digits_fuel (suc n) zero zero b p q = refl
xor_digits_fuel (suc n) zero (suc a) b p q = absurd (omega arith)
xor_digits_fuel (suc n) (suc m) zero b p q = refl
xor_digits_fuel (suc n) (suc m) (suc a) b p q =
    omega (arith, xor_digits_fuel n m (suc a / 2) (b / 2) (omega arith) (omega arith))

zero-bit_xor : (b : ℕ) → bit_xor 0 b ≡ b
zero-bit_xor b = bit_xor-bitwise 0 b

differ-zero : (b : ℕ) → differ 0 b ≡ b
differ-zero b = refl

-- The lowest digit, and the rest.
bit_xor_step : (a b : ℕ) → bit_xor a b ≡ bit_xor (a / 2) (b / 2) * 2 + differ (a % 2) (b % 2)
bit_xor_step zero b = omega (arith, zero-bit_xor b, zero-bit_xor (b / 2), differ-zero (b % 2))
bit_xor_step (suc a) b = omega (
  arith,
  bit_xor-bitwise (suc a) b,
  bit_xor-bitwise (suc a / 2) (b / 2),
  xor_digits_fuel a (suc a / 2) (suc a / 2) (b / 2) (omega arith) (omega arith),
)

differ-lt : (x y : ℕ) → x < 2 → y < 2 → differ x y < 2
differ-lt zero y h g = g
differ-lt (suc x) zero h g = h
differ-lt (suc x) (suc y) h g = differ-lt x y (omega arith) (omega arith)

differ_cancel_left : (x y z : ℕ) → x < 2 → y < 2 → z < 2 → differ x y ≡ differ x z → y ≡ z
differ_cancel_left zero y z h g k e = e
differ_cancel_left (suc zero) zero zero h g k e = refl
differ_cancel_left (suc zero) zero (suc zero) h g k e = absurd (omega (arith, e))
differ_cancel_left (suc zero) zero (suc (suc z)) h g k e = absurd (omega arith)
differ_cancel_left (suc zero) (suc zero) zero h g k e = absurd (omega (arith, e))
differ_cancel_left (suc zero) (suc (suc y)) zero h g k e = absurd (omega arith)
differ_cancel_left (suc zero) (suc y) (suc z) h g k e = omega arith
differ_cancel_left (suc (suc x)) y z h g k e = absurd (omega arith)

differ_comm : (x y : ℕ) → x < 2 → y < 2 → differ x y ≡ differ y x
differ_comm zero zero h g = refl
differ_comm zero (suc y) h g = refl
differ_comm (suc x) zero h g = refl
differ_comm (suc x) (suc y) h g = differ_comm x y (omega arith) (omega arith)

differ_cancel_right : (x y z : ℕ) → x < 2 → y < 2 → z < 2 → differ y x ≡ differ z x → y ≡ z
differ_cancel_right x y z h g k e =
    differ_cancel_left x y z h g k (differ_comm x y h g ∙ (e ∙ differ_comm z x k h))

-- From equal sums the halves and the digits are equal.
split_digits : (p q x y : ℕ) → x < 2 → y < 2 → p * 2 + x ≡ q * 2 + y → (p ≡ q) × (x ≡ y)
split_digits p q x y h g e = omega arith

from_halves : (b c : ℕ) → b / 2 ≡ c / 2 → b % 2 ≡ c % 2 → b ≡ c
from_halves b c e f = omega arith

cancel_left_fuel : (n a b c : ℕ) → a ≤ n → bit_xor a b ≡ bit_xor a c → b ≡ c
cancel_left_fuel zero zero b c h e = sym (zero-bit_xor b) ∙ (e ∙ zero-bit_xor c)
cancel_left_fuel zero (suc a) b c h e = absurd (omega arith)
cancel_left_fuel (suc n) a b c h e =
    let (halves, digit) =
      split_digits (bit_xor (a / 2) (b / 2)) (bit_xor (a / 2) (c / 2)) (differ (a % 2) (b % 2))
        (differ (a % 2) (c % 2)) (differ-lt (a % 2) (b % 2) (omega arith) (omega arith))
        (differ-lt (a % 2) (c % 2) (omega arith) (omega arith))
        (sym (bit_xor_step a b) ∙ (e ∙ bit_xor_step a c)) in
    from_halves b c (cancel_left_fuel n (a / 2) (b / 2) (c / 2) (omega arith) halves)
      (differ_cancel_left (a % 2) (b % 2) (c % 2) (omega arith) (omega arith) (omega arith) digit)

pub bit_xor_cancel_left : (a b c : ℕ) → bit_xor a b ≡ bit_xor a c → b ≡ c
bit_xor_cancel_left a b c e = cancel_left_fuel a a b c (omega arith) e

cancel_right_fuel : (n a b c : ℕ) → b ≤ n → c ≤ n → bit_xor b a ≡ bit_xor c a → b ≡ c
cancel_right_fuel zero a b c h g e = omega arith
cancel_right_fuel (suc n) a b c h g e =
    let (halves, digit) =
      split_digits (bit_xor (b / 2) (a / 2)) (bit_xor (c / 2) (a / 2)) (differ (b % 2) (a % 2))
        (differ (c % 2) (a % 2)) (differ-lt (b % 2) (a % 2) (omega arith) (omega arith))
        (differ-lt (c % 2) (a % 2) (omega arith) (omega arith))
        (sym (bit_xor_step b a) ∙ (e ∙ bit_xor_step c a)) in
    from_halves b c (cancel_right_fuel n (a / 2) (b / 2) (c / 2) (omega arith) (omega arith) halves)
      (differ_cancel_right (a % 2) (b % 2) (c % 2) (omega arith) (omega arith) (omega arith) digit)

pub bit_xor_cancel_right : (a b c : ℕ) → bit_xor b a ≡ bit_xor c a → b ≡ c
bit_xor_cancel_right a b c e = cancel_right_fuel (b + c) a b c (omega arith) (omega arith) e
