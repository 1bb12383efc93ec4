-- ===== src/Pages/Walk.antt =====
-- A reader who follows the cursors sees every row once.
use poctamat_back.Common.{
  ℕ, zero, suc, ◌≤◌, ◌<◌, ◌≡◌, refl, sym, ap, subst, ◌∙◌, inl, inr, Bool, true, false, Option, none,
  some, List, [], ◌∷◌, ◌++◌, ltb, length, select, All, All-Has, Has, Bool-cases, arith,
  if◌then◌else◌,
}
use poctamat_back.Pages.{
  take, drop, last, smaller, max_limit, is_older, key_of, after_cursor, cursor_at, paginate_cursor,
}

module _ {A : Type 0} where
  take-drop : (n : ℕ) (xs : List A) → take n xs ++ drop n xs ≡ xs
  unfolding take drop
  take-drop zero xs = refl
  take-drop (suc n) [] = refl
  take-drop (suc n) (x ∷ xs) = ap (◌∷◌ x) (take-drop n xs)

  take-take : (n : ℕ) (xs : List A) → take n (take (suc n) xs) ≡ take n xs
  unfolding take
  take-take zero xs = refl
  take-take (suc n) [] = refl
  take-take (suc n) (x ∷ xs) = ap (◌∷◌ x) (take-take n xs)

  take_all : (n : ℕ) (xs : List A) → length xs ≤ n → take n xs ≡ xs
  unfolding take
  take_all zero [] h = refl
  take_all zero (x ∷ xs) h = absurd (omega (arith, h))
  take_all (suc n) [] h = refl
  take_all (suc n) (x ∷ xs) h = ap (◌∷◌ x) (take_all n xs (omega (arith, h)))

  length-take : (n : ℕ) (xs : List A) → n ≤ length xs → length (take n xs) ≡ n
  unfolding take
  length-take zero xs h = refl
  length-take (suc n) [] h = absurd (omega (arith, h))
  length-take (suc n) (x ∷ xs) h = ap suc (length-take n xs (omega (arith, h)))

  ltb-length-take : (n : ℕ) (xs : List A) → ltb n (length (take (suc n) xs)) ≡ ltb n (length xs)
  ltb-length-take n xs = elim (Bool-cases (ltb n (length xs))) [
    | inl more ↦ ground (arith, more, length-take (suc n) xs)
    | inr all ↦ ap (λ ys. ltb n (length ys)) (take_all (suc n) xs (ground (arith, all)))
  ]

  length-drop-le : (n : ℕ) (xs : List A) → length (drop n xs) ≤ length xs
  unfolding drop
  length-drop-le zero xs = omega arith
  length-drop-le (suc n) [] = omega arith
  length-drop-le (suc n) (x ∷ xs) = omega (arith, length-drop-le n xs)

  length-drop : (n : ℕ) (xs : List A) → 1 ≤ n → n < length xs → length (drop n xs) < length xs
  unfolding drop
  length-drop zero xs h lt = absurd (omega (arith, h))
  length-drop (suc n) [] h lt = absurd (omega (arith, lt))
  length-drop (suc n) (x ∷ xs) h lt = omega (arith, length-drop-le n xs)

  -- A page that is not empty ends with its last row.
  last-split :
      (x : A) (xs : List A)
      → (ys : List A) × (z : A) × (last (x ∷ xs) ≡ some z) × (ys ++ z ∷ [] ≡ x ∷ xs)
  last-split x [] = ([], x, refl, refl)
  last-split x (y ∷ xs) = let (ys, z, e, s) = last-split y xs in (x ∷ ys, z, e, ap (◌∷◌ x) s)

  take-last :
      (n : ℕ) (xs : List A)
      → 1 ≤ n
      → n < length xs
      → (ys : List A) × (z : A) × (last (take n xs) ≡ some z) × (ys ++ z ∷ [] ≡ take n xs)
  unfolding take
  take-last zero xs h lt = absurd (omega (arith, h))
  take-last (suc n) [] h lt = absurd (omega (arith, lt))
  take-last (suc n) (x ∷ xs) h lt = last-split x (take n xs)

  append_assoc : (xs ys zs : List A) → (xs ++ ys) ++ zs ≡ xs ++ (ys ++ zs)
  append_assoc [] ys zs = refl
  append_assoc (x ∷ xs) ys zs = ap (◌∷◌ x) (append_assoc xs ys zs)

abbrev pub follow {ℓ} : {A : Type ℓ} → List A × Option (ℕ × ℕ) → (ℕ × ℕ → List A) → List A
follow (page, none) go = page
follow (page, some next) go = page ++ go next

module _ {A : Type 0} (moment id : A → ℕ) where
  -- Newest first, and no two rows alike.
  abbrev pub IsNewestFirst : List A → Type 0
  IsNewestFirst [] = Unit
  IsNewestFirst (x ∷ xs) =
      All (λ y. is_older moment id (key_of moment id x) y ≡ true) xs × IsNewestFirst xs

  not_itself : (x : A) → is_older moment id (key_of moment id x) x ≡ false
  not_itself x = ground arith

  not_both :
      (x y : A)
      → is_older moment id (key_of moment id x) y ≡ true
      → is_older moment id (key_of moment id y) x ≡ false
  not_both x y e = ground (arith, e)

  select-All : (p : A → Bool) (xs : List A) → All (λ x. p x ≡ true) xs → select p xs ≡ xs
  select-All p [] h = refl
  select-All p (x ∷ xs) h = rw h.0 (ap (◌∷◌ x) (select-All p xs h.1))

  Has-middle : (xs ys : List A) (z : A) → Has z (xs ++ z ∷ ys)
  Has-middle [] ys z = inl refl
  Has-middle (x ∷ xs) ys z = inr (Has-middle xs ys z)

  -- Behind a row come just the rows that are older than it.
  select-older :
      (xs ys : List A) (z : A)
      → IsNewestFirst (xs ++ z ∷ ys)
      → select (is_older moment id (key_of moment id z)) (xs ++ z ∷ ys) ≡ ys
  select-older [] ys z h =
      rw (not_itself z) (select-All (is_older moment id (key_of moment id z)) ys h.0)
  select-older (x ∷ xs) ys z h =
      let newer =
        All-Has (λ y. is_older moment id (key_of moment id x) y ≡ true) z (xs ++ z ∷ ys) h.0
          (Has-middle xs ys z) in
      rw (not_both x z newer) (select-older xs ys z h.1)

  -- The rows that a reader gets by following the cursors, for so many pages at most.
  unfoldable pub walk : ℕ → ℕ → Option (ℕ × ℕ) → List A → List A
  walk zero asked cursor rows = []
  walk (suc pages) asked cursor rows =
      follow (paginate_cursor moment id asked cursor rows)
        (λ next. walk pages asked (some next) rows)

  paginate_cursor-rest :
      (asked : ℕ) (cursor : Option (ℕ × ℕ)) (rows rest : List A)
      → after_cursor moment id cursor rows ≡ rest
      → paginate_cursor moment id asked cursor rows ≡ (
        take (smaller asked max_limit) rest,
        if ltb (smaller asked max_limit) (length rest)
            then cursor_at moment id (last (take (smaller asked max_limit) rest))
            else none,
      )
  unfolding paginate_cursor
  paginate_cursor-rest asked cursor rows rest e =
      rw
        (
          e,
          take-take (smaller asked max_limit) rest,
          ltb-length-take (smaller asked max_limit) rest,
        )
        refl

  -- The cursor of a page's last row leaves just the rows behind the page.
  select-page :
      (n : ℕ) (rows before rest ys : List A) (z : A)
      → before ++ rest ≡ rows
      → ys ++ z ∷ [] ≡ take n rest
      → IsNewestFirst rows
      → select (is_older moment id (key_of moment id z)) rows ≡ drop n rest
  select-page n rows before rest ys z whole page sorted =
      let inner =
        sym (append_assoc ys (z ∷ []) (drop n rest))
        ∙ ap (λ xs. xs ++ drop n rest) page
        ∙ take-drop n rest in
      let split =
        append_assoc before ys (z ∷ drop n rest) ∙ ap (λ xs. before ++ xs) inner ∙ whole in
      subst (λ r. select (is_older moment id (key_of moment id z)) r ≡ drop n rest) split
        (select-older (before ++ ys) (drop n rest) z (subst IsNewestFirst (sym split) sorted))

  walk-rest :
      (pages asked : ℕ) (cursor : Option (ℕ × ℕ)) (rows before rest : List A)
      → 1 ≤ asked
      → before ++ rest ≡ rows
      → after_cursor moment id cursor rows ≡ rest
      → IsNewestFirst rows
      → length rest < pages
      → walk pages asked cursor rows ≡ rest
  unfolding walk
  walk-rest zero asked cursor rows before rest some_row whole at sorted fuel =
      absurd (omega (arith, fuel))
  walk-rest (suc pages) asked cursor rows before rest some_row whole at sorted fuel =
      let limit = smaller asked max_limit in
      let positive : 1 ≤ limit = ground (arith, some_row) in
      let go : ℕ × ℕ → List A = λ next. walk pages asked (some next) rows in
      ap (λ answer. follow answer go) (paginate_cursor-rest asked cursor rows rest at)
      ∙ elim (Bool-cases (ltb limit (length rest))) [
        | inl more ↦
            let long : limit < length rest = ground (arith, more) in
            let (ys, z, ends, page) = take-last limit rest positive long in
            rw (more, ends)
              (ap (λ xs. take limit rest ++ xs)
                  (walk-rest pages asked (some (key_of moment id z)) rows
                    (before ++ take limit rest) (drop limit rest) some_row
                    (append_assoc before (take limit rest) (drop limit rest)
                      ∙ ap (λ xs. before ++ xs) (take-drop limit rest)
                      ∙ whole)
                    (select-page limit rows before rest ys z whole page sorted) sorted
                    (omega (arith, fuel, length-drop limit rest positive long)))
                ∙ take-drop limit rest)
        | inr all ↦ rw all (take_all limit rest (ground (arith, all)))
      ]

  -- On rows that are newest first and pairwise different, with pages of at least one row, a reader
  -- who follows the cursors of `paginate_cursor` gets every row once and in order, with at most one
  -- page more than there are rows.
  pub walk-all :
      (asked : ℕ) (rows : List A)
      → 1 ≤ asked
      → IsNewestFirst rows
      → walk (suc (length rows)) asked none rows ≡ rows
  walk-all asked rows some_row sorted =
      walk-rest (suc (length rows)) asked none rows [] rows some_row refl refl sorted (omega arith)
