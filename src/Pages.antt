-- ===== src/Pages.antt =====
-- backend/app/core/pagination.py: numbered pages and keyset pages. A cursor is the pair that its text
-- encodes; the base64 of `encode_cursor` and `decode_cursor` is left out. The rows are those of the
-- statement in its order, newest first, and each has the ordering instant and an id.
pub mod Walk
use poctamat_back.Common.{
  ℕ, zero, suc, ◌+◌, ◌-◌, ◌*◌, ◌/◌, Bool, true, false, ◌&&◌, ◌||◌, Option, none, some, List, [],
  ◌∷◌, ltb, leb, ◌==◌, length, select, if◌then◌else◌,
}

pub record PageMeta : Type 0 where
  pub page : ℕ
  pub per_page : ℕ
  pub total : ℕ
  pub total_pages : ℕ

abbrev pub at_least_one : ℕ → ℕ
at_least_one zero = 1
at_least_one (suc n) = suc n

-- `-(-total // per_page)`: the quotient, rounded up. `per_page` is at least 1.
unfoldable pub page_meta : ℕ → ℕ → ℕ → PageMeta
page_meta page per_page total = record {
  page = page;
  per_page = per_page;
  total = total;
  total_pages = at_least_one ((total + (per_page - 1)) / per_page);
}

abbrev pub max_page : ℕ
max_page = 10_000

abbrev pub max_limit : ℕ
max_limit = 200

abbrev pub smaller : ℕ → ℕ → ℕ
smaller a b = if leb a b then a else b

module _ {A : Type 0} where
  -- `LIMIT n`
  unfoldable pub take : ℕ → List A → List A
  take zero xs = []
  take (suc n) [] = []
  take (suc n) (x ∷ xs) = x ∷ take n xs

  -- `OFFSET n`
  unfoldable pub drop : ℕ → List A → List A
  drop zero xs = xs
  drop (suc n) [] = []
  drop (suc n) (x ∷ xs) = drop n xs

  abbrev pub last : List A → Option A
  last [] = none
  last (x ∷ []) = some x
  last (x ∷ y ∷ xs) = last (y ∷ xs)

  unfoldable pub paginate_page : ℕ → ℕ → List A → List A × PageMeta
  paginate_page asked per_page rows =
      let page = smaller asked max_page in
      (take per_page (drop ((page - 1) * per_page) rows), page_meta page per_page (length rows))

module _ {A : Type 0} (moment id : A → ℕ) where
  -- `tuple_(order_column, model.id) < (moment, id)`
  abbrev pub is_older : ℕ × ℕ → A → Bool
  is_older cursor row =
      ltb (moment row) cursor.0 || (moment row == cursor.0 && ltb (id row) cursor.1)

  abbrev pub key_of : A → ℕ × ℕ
  key_of row = (moment row, id row)

  abbrev pub after_cursor : Option (ℕ × ℕ) → List A → List A
  after_cursor none rows = rows
  after_cursor (some cursor) rows = select (is_older cursor) rows

  abbrev pub cursor_at : Option A → Option (ℕ × ℕ)
  cursor_at none = none
  cursor_at (some row) = some (key_of row)

  -- The page and the cursor of the next one; `has_more` holds where there is such a cursor.
  unfoldable pub paginate_cursor : ℕ → Option (ℕ × ℕ) → List A → List A × Option (ℕ × ℕ)
  paginate_cursor asked cursor rows =
      let limit = smaller asked max_limit in
      let found = take (suc limit) (after_cursor cursor rows) in
      let page = take limit found in
      (page, if ltb limit (length found) then cursor_at (last page) else none)
