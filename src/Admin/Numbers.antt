-- ===== src/Admin/Numbers.antt =====
-- Door numbers as texts: `str(cell.number)` and `_door_number` of backend/app/api/admin/cells.py. Of
-- the characters that `str.isdigit` accepts, the ASCII ones are known here.
use Prim.Native.Char.{Char, code}
use Prim.Native.String.{String}
use poctamat_back.Common.{
  ℕ, zero, suc, ◌+◌, ◌-◌, ◌*◌, ◌/◌, ◌%◌, ◌<◌, ◌≡◌, refl, ap, ◌∙◌, inl, inr, Bool, true, false, not,
  ◌&&◌, List, [], ◌∷◌, ltb, leb, ltb→lt, ◌==◌, ==_iff, if◌then◌else◌, Bool-cases, Result, ok,
  raise_if, ◌>>◌, validation_error, arith,
}

abbrev codes : String → List ℕ
codes String.[] = []
codes (String.◌∷◌ c s) = code c ∷ codes s

abbrev digit : ℕ → Char
digit d =
    if d == 0
    then "0"
    else if d == 1
    then "1"
    else if d == 2
    then "2"
    else if d == 3
    then "3"
    else if d == 4
    then "4"
    else if d == 5
    then "5"
    else if d == 6
    then "6"
    else if d == 7
    then "7"
    else if d == 8
    then "8"
    else "9"

-- The digits of `n` in front of `rest`; a number has no more digits than its value and one.
str_before : ℕ → ℕ → String → String
str_before zero n rest = rest
str_before (suc fuel) n rest =
    let longer = str_before fuel (n / 10) (String.◌∷◌ (digit (n % 10)) rest) in
    if ltb n 10 then String.◌∷◌ (digit n) rest else longer

unfoldable pub str : ℕ → String
unfolding str_before
str n = str_before (suc n) n String.[]

abbrev is_digit : ℕ → Bool
is_digit c = leb 48 c && leb c 57

abbrev all_digits : List ℕ → Bool
all_digits [] = true
all_digits (c ∷ cs) = is_digit c && all_digits cs

-- `number.isdigit()`: the empty text is not.
abbrev isdigit : List ℕ → Bool
isdigit [] = false
isdigit (c ∷ cs) = all_digits (c ∷ cs)

-- `int(number)` of digits, after those that make `n`.
abbrev int_after : ℕ → List ℕ → ℕ
int_after n [] = n
int_after n (c ∷ cs) = int_after (n * 10 + (c - 48)) cs

unfoldable pub door_number : String → Result ℕ
door_number number = do
  raise_if (not (isdigit (codes number))) validation_error 422
  ok (int_after 0 (codes number))

left_true : (a b : Bool) → (a && b) ≡ true → a ≡ true
left_true true b h = refl
left_true false b h = cc

right_true : (a b : Bool) → (a && b) ≡ true → b ≡ true
right_true true b h = h
right_true false b h = cc

code-digit_below : ℕ → Bool
code-digit_below zero = true
code-digit_below (suc d) = code (digit d) == 48 + d && code-digit_below d

code-digit_table : code-digit_below 10 ≡ true
unfolding code-digit_below
code-digit_table = refl

code-digit_below-lt : (k d : ℕ) → code-digit_below k ≡ true → d < k → code (digit d) ≡ 48 + d
unfolding code-digit_below
code-digit_below-lt zero d t h = absurd (omega arith)
code-digit_below-lt (suc k) d t h = elim (Bool-cases (d == k)) [
  | inl same ↦ let e : d ≡ k = (==_iff d k).0 same in rw e ((==_iff _ _).0 (left_true _ _ t))
  | inr other ↦ code-digit_below-lt k d (right_true _ _ t) (ground (arith, other))
]

code-digit : (d : ℕ) → d < 10 → code (digit d) ≡ 48 + d
code-digit d h = code-digit_below-lt 10 d code-digit_table h

digit_value : (n d : ℕ) → d < 10 → n * 10 + (code (digit d) - 48) ≡ n * 10 + d
digit_value n d h = omega (arith, code-digit d h)

digit-is_digit : (d : ℕ) → d < 10 → is_digit (code (digit d)) ≡ true
digit-is_digit d h = rw (code-digit d h) (ground arith)

str_before-one :
    (fuel n : ℕ) (rest : String)
    → ltb n 10 ≡ true
    → str_before (suc fuel) n rest ≡ String.◌∷◌ (digit n) rest
unfolding str_before
str_before-one fuel n rest h = rw h refl

str_before-more :
    (fuel n : ℕ) (rest : String)
    → ltb n 10 ≡ false
    → str_before (suc fuel) n rest ≡ str_before fuel (n / 10) (String.◌∷◌ (digit (n % 10)) rest)
unfolding str_before
str_before-more fuel n rest h = rw h refl

-- The digits that were put in front are read first.
int_after-str_before :
    (fuel n : ℕ) (rest : String)
    → n < fuel
    → int_after 0 (codes (str_before fuel n rest)) ≡ int_after n (codes rest)
int_after-str_before zero n rest h = absurd (omega arith)
int_after-str_before (suc fuel) n rest h = elim (Bool-cases (ltb n 10)) [
  | inl one ↦
      rw (str_before-one fuel n rest one)
        (ap (λ m. int_after m (codes rest)) (digit_value 0 n (ltb→lt n 10 one) ∙ omega arith))
  | inr more ↦ rw (str_before-more fuel n rest more) (
      int_after-str_before fuel (n / 10) (String.◌∷◌ (digit (n % 10)) rest) (ground (arith, more))
      ∙ ap (λ m. int_after m (codes rest))
          (digit_value (n / 10) (n % 10) (omega arith) ∙ omega arith))
]

-- With digits behind, it is a text of digits.
isdigit-str_before :
    (fuel n : ℕ) (rest : String)
    → n < fuel
    → all_digits (codes rest) ≡ true
    → isdigit (codes (str_before fuel n rest)) ≡ true
isdigit-str_before zero n rest h r = absurd (omega arith)
isdigit-str_before (suc fuel) n rest h r = elim (Bool-cases (ltb n 10)) [
  | inl one ↦ rw (str_before-one fuel n rest one) (rw (digit-is_digit n (ltb→lt n 10 one), r) refl)
  | inr more ↦ rw (str_before-more fuel n rest more) (
      isdigit-str_before fuel (n / 10) (String.◌∷◌ (digit (n % 10)) rest) (ground (arith, more))
        (rw (digit-is_digit (n % 10) (omega arith), r) refl))
]

-- The text that the API writes for a door number is read back as that number.
pub door_number-str : (n : ℕ) → door_number (str n) ≡ ok n
unfolding door_number str
door_number-str n =
    rw (isdigit-str_before (suc n) n String.[] (omega arith) refl)
      (ap ok (int_after-str_before (suc n) n String.[] (omega arith)))
