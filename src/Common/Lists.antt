-- ===== src/Common/Lists.antt =====
-- Lists measured by native numbers, and a predicate on every element.
use Prim.Native.Nat.{ℕ, suc, ◌+◌, ◌≤◌}
use mathlib.Core.Path.{◌≡◌, sym, subst}
use mathlib.Core.Logic.{◌⊎◌, inl, inr}
use mathlib.Core.Bool.{Bool, true, false}
use mathlib.Core.Option.{Option, none, some}
use mathlib.Core.List.{List, [], ◌∷◌, ◌++◌}
use native.Mathlib.Omega.{arith}
use poctamat_back.Common.Tests.{◌==◌, if◌then◌else◌, Bool-cases}

module _ {ℓ} {A : Type ℓ} where
  abbrev pub length : List A → ℕ
  length [] = 0
  length (x ∷ xs) = suc (length xs)

  pub length-append : (xs ys : List A) → length (xs ++ ys) ≡ length xs + length ys
  length-append [] ys = omega arith
  length-append (x ∷ xs) ys = omega (arith, length-append xs ys)

  -- `[x for x in xs if p(x)]`, with a Boolean test.
  abbrev pub select : (A → Bool) → List A → List A
  select p [] = []
  select p (x ∷ xs) = if p x then x ∷ select p xs else select p xs

  -- The first row for which the test holds.
  abbrev pub first : (A → Bool) → List A → Option A
  first p [] = none
  first p (x ∷ xs) = if p x then some x else first p xs

  abbrev pub count_if : (A → Bool) → List A → ℕ
  count_if p [] = 0
  count_if p (x ∷ xs) = if p x then suc (count_if p xs) else count_if p xs

  pub count_if-append :
      (p : A → Bool) (xs ys : List A) → count_if p (xs ++ ys) ≡ count_if p xs + count_if p ys
  count_if-append p [] ys = omega arith
  count_if-append p (x ∷ xs) ys = ground (arith, count_if-append p xs ys)

  abbrev pub All {κ} : (A → Type κ) → List A → Type κ
  All P [] = Unit
  All P (x ∷ xs) = P x × All P xs

  pub All-append {κ} : (P : A → Type κ) (xs ys : List A) → All P xs → All P ys → All P (xs ++ ys)
  All-append P [] ys hx hy = hy
  All-append P (x ∷ xs) ys hx hy = (hx.0, All-append P xs ys hx.1 hy)

abbrev pub member : ℕ → List ℕ → Bool
member n [] = false
member n (x ∷ xs) = if x == n then true else member n xs

-- `x` stands in the list.
abbrev pub Has : {A : Type 0} → A → List A → Type 0
Has x [] = ⊥
Has x (y ∷ ys) = (x ≡ y) ⊎ Has x ys

pub All-mono {κ λ₁} :
    {A : Type 0} (P : A → Type κ) (Q : A → Type λ₁) (xs : List A)
    → ((x : A) → P x → Q x)
    → All P xs
    → All Q xs
All-mono P Q [] f h = tt
All-mono P Q (x ∷ xs) f h = (f x h.0, All-mono P Q xs f h.1)

pub All-Has {κ} : {A : Type 0} (P : A → Type κ) (x : A) (xs : List A) → All P xs → Has x xs → P x
All-Has P x [] h m = absurd m
All-Has P x (y ∷ ys) h (inl e) = subst P (sym e) h.0
All-Has P x (y ∷ ys) h (inr m) = All-Has P x ys h.1 m

pub Has-count_if :
    {A : Type 0} (p : A → Bool) (x : A) (xs : List A) → Has x xs → p x ≡ true → 1 ≤ count_if p xs
Has-count_if p x [] m e = absurd m
Has-count_if p x (y ∷ ys) (inl same) e =
    let hit : p y ≡ true = subst (λ z. p z ≡ true) same e in rw hit (omega arith)
Has-count_if p x (y ∷ ys) (inr m) e = elim (Bool-cases (p y)) [
  | inl hit ↦ rw hit (omega arith)
  | inr miss ↦ rw miss (Has-count_if p x ys m e)
]

Has-keep :
    {A : Type 0} (x y : A) (ys : List A) (b : Bool) → Has x ys → Has x (if b then y ∷ ys else ys)
Has-keep x y ys true m = inr m
Has-keep x y ys false m = m

-- A selection keeps exactly the elements that pass the test.
pub Has-select :
    {A : Type 0} (p : A → Bool) (x : A) (xs : List A) → Has x xs → p x ≡ true → Has x (select p xs)
Has-select p x [] m e = m
Has-select p x (y ∷ ys) (inl same) e =
    let hit : p y ≡ true = subst (λ z. p z ≡ true) same e in rw hit (inl same)
Has-select p x (y ∷ ys) (inr m) e = Has-keep x y (select p ys) (p y) (Has-select p x ys m e)

select-Has_hit :
    {A : Type 0} (p : A → Bool) (x y : A) (ys : List A)
    → p y ≡ true
    → (Has x (select p ys) → Has x ys × (p x ≡ true))
    → Has x (y ∷ select p ys)
    → Has x (y ∷ ys) × (p x ≡ true)
select-Has_hit p x y ys hit rest (inl e) = (inl e, subst (λ z. p z ≡ true) (sym e) hit)
select-Has_hit p x y ys hit rest (inr m) = let (n, e) = rest m in (inr n, e)

-- Only such elements are kept.
pub select-Has :
    {A : Type 0} (p : A → Bool) (x : A) (xs : List A)
    → Has x (select p xs)
    → Has x xs × (p x ≡ true)
select-Has p x [] m = absurd m
select-Has p x (y ∷ ys) m = elim (Bool-cases (p y)) [
  | inl hit ↦ select-Has_hit p x y ys hit (select-Has p x ys) (rw hit at m)
  | inr miss ↦ let (n, e) = select-Has p x ys (rw miss at m) in (inr n, e)
]

pub All-select : {A : Type 0} (p : A → Bool) (xs : List A) → All (λ x. p x ≡ true) (select p xs)
All-select p [] = tt
All-select p (y ∷ ys) = elim (Bool-cases (p y)) [
  | inl hit ↦ rw hit (hit, All-select p ys)
  | inr miss ↦ rw miss (All-select p ys)
]

pub All-select_sub :
    {A : Type 0} (P : A → Type 0) (p : A → Bool) (xs : List A) → All P xs → All P (select p xs)
All-select_sub P p [] h = tt
All-select_sub P p (y ∷ ys) h = elim (Bool-cases (p y)) [
  | inl hit ↦ rw hit (h.0, All-select_sub P p ys h.1)
  | inr miss ↦ rw miss (All-select_sub P p ys h.1)
]

pub All-both :
    {A : Type 0} (P Q : A → Type 0) (xs : List A) → All P xs → All Q xs → All (λ x. P x × Q x) xs
All-both P Q [] h k = tt
All-both P Q (x ∷ xs) h k = ((h.0, k.0), All-both P Q xs h.1 k.1)
