-- ===== src/Locker/Listener.antt =====
-- The passive listener prints every byte that it reads, in order.
use poctamat_back.Common.{
  ℕ, ◌-◌, ◌≡◌, refl, ap, ◌∙◌, inl, inr, true, not, ◌&&◌, List, [], ◌∷◌, ◌++◌, ltb, Bool-cases,
}
use mathlib.Core.List.{append_assoc}
use poctamat_back.Locker.{Reading, is_empty, sniff}

abbrev pub concat : List (List ℕ) → List ℕ
concat [] = []
concat (xs ∷ xss) = xs ++ concat xss

abbrev pub bytes_read : List Reading → List ℕ
bytes_read [] = []
bytes_read (r ∷ readings) = r.chunk ++ bytes_read readings

is_empty-nil : (bytes : List ℕ) → is_empty bytes ≡ true → bytes ≡ []
is_empty-nil [] e = refl
is_empty-nil (b ∷ bytes) e = cc

-- What is printed is what was in the buffer and what is read.
pub sniff-all :
    (readings : List Reading) (buf : List ℕ) (last : ℕ)
    → concat (sniff readings buf last) ≡ buf ++ bytes_read readings
unfolding sniff
sniff-all [] buf last = elim (Bool-cases (is_empty buf)) [
  | inl empty ↦ rw empty (rw (is_empty-nil buf empty) refl)
  | inr full ↦ rw full refl
]
sniff-all (r ∷ readings) buf last = elim (Bool-cases (is_empty r.chunk)) [
  | inr heard ↦ rw heard (sniff-all readings (buf ++ r.chunk) r.now ∙ append_assoc buf r.chunk _)
  | inl silent ↦ elim (Bool-cases (not (is_empty buf) && ltb 50_000 (r.now - last))) [
    | inl printed ↦ rw silent (
        rw printed
          (rw (is_empty-nil r.chunk silent) (ap (λ xs. buf ++ xs) (sniff-all readings [] last))))
    | inr waits ↦
        rw silent (rw waits (rw (is_empty-nil r.chunk silent) (sniff-all readings buf last)))
  ]
]
