-- ===== src/Common/Table.antt =====
-- A table as a list of rows with a numeric key: `session.get` reads the row of a key, and writing a
-- row's fields back replaces it.
use Prim.Native.Nat.{ℕ, ◌≤◌}
use mathlib.Core.Path.{◌≡◌, refl, sym, subst}
use mathlib.Core.Logic.{◌≢◌, inl, inr}
use mathlib.Core.Bool.{Bool, true}
use mathlib.Core.Option.{Option, none, some}
use mathlib.Core.List.{List, [], ◌∷◌}
use native.Mathlib.Omega.{arith}
use poctamat_back.Common.Tests.{◌==◌, ==_iff, if◌then◌else◌, Bool-cases, some_injective}
use poctamat_back.Common.Lists.{count_if, All, Has}

module _ {A : Type 0} (key : A → ℕ) where
  abbrev pub get : ℕ → List A → Option A
  get k [] = none
  get k (row ∷ rows) = if key row == k then some row else get k rows

  abbrev pub put : A → List A → List A
  put new [] = []
  put new (row ∷ rows) = if key row == key new then new ∷ rows else row ∷ put new rows

  pub get-put :
      (new old : A) (rows : List A)
      → get (key new) rows ≡ some old
      → get (key new) (put new rows) ≡ some new
  get-put new old [] e = cc
  get-put new old (row ∷ rows) e = elim (Bool-cases (key row == key new)) [
    | inl hit ↦ rw hit (ground arith)
    | inr miss ↦ rw miss (rw miss (get-put new old rows (rw miss at e)))
  ]

  pub get-put_ne :
      (k : ℕ) (new : A) (rows : List A) → k ≢ key new → get k (put new rows) ≡ get k rows
  get-put_ne k new [] ne = refl
  get-put_ne k new (row ∷ rows) ne = ground (arith, get-put_ne k new rows ne)

  pub get-Has :
      (k : ℕ) (row : A) (rows : List A) → get k rows ≡ some row → Has row rows × (key row ≡ k)
  get-Has k row [] e = cc
  get-Has k row (x ∷ rows) e = elim (Bool-cases (key x == k)) [
    | inl hit ↦
        let same = some_injective (rw hit at e) in
        (inl (sym same), subst (λ y. key y ≡ k) same ((==_iff (key x) k).0 hit))
    | inr miss ↦ let (m, q) = get-Has k row rows (rw miss at e) in (inr m, q)
  ]

  pub All-put :
      (P : A → Type 0) (new : A) (rows : List A) → P new → All P rows → All P (put new rows)
  All-put P new [] p h = tt
  All-put P new (row ∷ rows) p h = elim (Bool-cases (key row == key new)) [
    | inl hit ↦ rw hit (p, h.1)
    | inr miss ↦ rw miss (h.0, All-put P new rows p h.1)
  ]

  -- If a test that holds of the new row held of the old one, no more rows pass it than before.
  pub count_if-put :
      (p : A → Bool) (new old : A) (rows : List A)
      → get (key new) rows ≡ some old
      → (p new ≡ true → p old ≡ true)
      → count_if p (put new rows) ≤ count_if p rows
  count_if-put p new old [] e h = omega arith
  count_if-put p new old (row ∷ rows) e h = elim (Bool-cases (key row == key new)) [
    | inl hit ↦ let same = some_injective (rw hit at e) in rw (hit, same) (ground arith)
    | inr miss ↦ rw miss (ground (arith, count_if-put p new old rows (rw miss at e) h))
  ]

  -- If the test says the same of both, just as many do.
  pub count_if-put_eq :
      (p : A → Bool) (new old : A) (rows : List A)
      → get (key new) rows ≡ some old
      → p new ≡ p old
      → count_if p (put new rows) ≡ count_if p rows
  count_if-put_eq p new old [] e h = refl
  count_if-put_eq p new old (row ∷ rows) e h = elim (Bool-cases (key row == key new)) [
    | inl hit ↦ let same = some_injective (rw hit at e) in rw (hit, same, h) refl
    | inr miss ↦ rw miss (ground (arith, count_if-put_eq p new old rows (rw miss at e) h))
  ]
