-- ===== src/Common/Keys.antt =====
-- Tables in which no key is given twice, as a primary key guarantees.
use Prim.Native.Nat.{ℕ}
use mathlib.Core.Path.{◌≡◌, refl, sym, subst, ap, ◌∙◌}
use mathlib.Core.Logic.{◌≢◌, inl, inr}
use mathlib.Core.Bool.{Bool}
use mathlib.Core.Option.{Option, none, some}
use mathlib.Core.List.{List, [], ◌∷◌}
use poctamat_back.Common.Tests.{◌==◌, ==_iff, ==_refl, if◌then◌else◌, Bool-cases}
use poctamat_back.Common.Lists.{select, All, All-mono, All-select_sub, All-both}
use poctamat_back.Common.Table.{get}

abbrev pub keep {ℓ} : {A : Type ℓ} → (A → Bool) → Option A → Option A
keep p none = none
keep p (some a) = if p a then some a else none

module _ {A : Type 0} (key : A → ℕ) where
  abbrev pub IsDistinct : List A → Type 0
  IsDistinct [] = Unit
  IsDistinct (row ∷ rows) = All (λ r. key r ≢ key row) rows × IsDistinct rows

  -- No row has the key.
  pub All-get : (k : ℕ) (rows : List A) → All (λ r. key r ≢ k) rows → get key k rows ≡ none
  All-get k [] h = refl
  All-get k (row ∷ rows) h = elim (Bool-cases (key row == k)) [
    | inl hit ↦ absurd (h.0 ((==_iff (key row) k).0 hit))
    | inr miss ↦ rw miss (All-get k rows h.1)
  ]

  pub get-select :
      (p : A → Bool) (k : ℕ) (rows : List A)
      → IsDistinct rows
      → get key k (select p rows) ≡ keep p (get key k rows)
  get-select p k [] d = refl
  get-select p k (row ∷ rows) d = elim (Bool-cases (key row == k)) [
    | inl hit ↦
        let same = (==_iff (key row) k).0 hit in
        let gone : get key k rows ≡ none =
          All-get k rows (subst (λ j. All (λ r. key r ≢ j) rows) same d.0) in
        elim (Bool-cases (p row)) [
          | inl pass ↦ rw (pass, hit, pass) refl
          | inr fail ↦ rw (fail, hit, fail) (get-select p k rows d.1 ∙ ap (keep p) gone)
        ]
    | inr miss ↦ elim (Bool-cases (p row)) [
      | inl pass ↦ rw (pass, miss) (get-select p k rows d.1)
      | inr fail ↦ rw (fail, miss) (get-select p k rows d.1)
    ]
  ]

  pub select-IsDistinct :
      (p : A → Bool) (rows : List A) → IsDistinct rows → IsDistinct (select p rows)
  select-IsDistinct p [] d = tt
  select-IsDistinct p (row ∷ rows) d = elim (Bool-cases (p row)) [
    | inl pass ↦
        rw pass (All-select_sub (λ r. key r ≢ key row) p rows d.0, select-IsDistinct p rows d.1)
    | inr fail ↦ rw fail (select-IsDistinct p rows d.1)
  ]

  -- Every row is the one that its key reads.
  pub All-stored : (rows : List A) → IsDistinct rows → All (λ r. get key (key r) rows ≡ some r) rows
  All-stored [] d = tt
  All-stored (row ∷ rows) d = (
    rw (==_refl (key row)) refl,
    All-mono (λ r. (key r ≢ key row) × (get key (key r) rows ≡ some r))
        (λ r. get key (key r) (row ∷ rows) ≡ some r) rows
        (λ r h. elim (Bool-cases (key row == key r)) [
          | inl hit ↦ absurd (h.0 (sym ((==_iff (key row) (key r)).0 hit)))
          | inr miss ↦ rw miss h.1
        ])
        (All-both (λ r. key r ≢ key row) (λ r. get key (key r) rows ≡ some r) rows d.0
          (All-stored rows d.1)),
  )
