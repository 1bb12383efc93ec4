-- ===== src/Locker/Frames.antt =====
-- Frames are read back as they were built, and a frame with one wrong byte is not taken for whole.
use Prim.Native.Nat.{bit_xor}
use poctamat_back.Common.{
  ℕ, zero, suc, ◌+◌, ◌-◌, ◌≤◌, ◌≡◌, ◌≢◌, ◌⊎◌, ◌↔◌, refl, sym, subst, ◌∙◌, inl, inr, Bool, true,
  false, ◌&&◌, Option, none, some, List, [], ◌∷◌, length, leb, ◌==◌, ==_refl, if◌then◌else◌,
  Bool-cases, some_injective, arith,
}
use poctamat_back.Locker.{
  start_byte, board1_max, xor, are_bytes, build_open, cell_to_addr_lock, Heard, heard_if, annotate,
}
use poctamat_back.Locker.Xor.{bit_xor_cancel_left, bit_xor_cancel_right}

-- A frame that `build_open` makes is read back by the listener as the same board, lock and command,
-- with a good checksum.
pub annotate-build_open :
    (addr lock cmd : ℕ) (frame : List ℕ)
    → build_open addr lock cmd ≡ some frame
    → annotate frame ≡ some (record { addr = addr; lock = lock; cmd = cmd; intact = true })
unfolding build_open annotate
annotate-build_open addr lock cmd frame e =
    elim (Bool-cases (are_bytes (start_byte ∷ addr ∷ lock ∷ cmd ∷ []))) [
      | inl fits ↦
          let same = some_injective (rw fits at e) in
          subst
            (λ (f : List ℕ).
              annotate f ≡ some (record { addr = addr; lock = lock; cmd = cmd; intact = true }))
            same (rw (==_refl (xor (start_byte ∷ addr ∷ lock ∷ cmd ∷ []))) refl)
      | inr large ↦ let bad : none ≡ some frame = rw large at e in cc
    ]

-- `frame[i] = value`.
abbrev pub set : List ℕ → ℕ → ℕ → List ℕ
set [] i v = []
set (x ∷ xs) i v = if i == 0 then v ∷ xs else x ∷ set xs (i - 1) v

-- Two frames of the same four bytes but one have different checksums.
abbrev checksum : ℕ → ℕ → ℕ → ℕ → ℕ
checksum a b c d = bit_xor (bit_xor (bit_xor (bit_xor 0 a) b) c) d

checksum_addr : (a b b' c d : ℕ) → checksum a b c d ≡ checksum a b' c d → b ≡ b'
checksum_addr a b b' c d e = bit_xor_cancel_left (bit_xor 0 a) b b' (
    bit_xor_cancel_right c (bit_xor (bit_xor 0 a) b) (bit_xor (bit_xor 0 a) b') (
      bit_xor_cancel_right d (bit_xor (bit_xor (bit_xor 0 a) b) c)
        (bit_xor (bit_xor (bit_xor 0 a) b') c) e))

checksum_lock : (a b c c' d : ℕ) → checksum a b c d ≡ checksum a b c' d → c ≡ c'
checksum_lock a b c c' d e = bit_xor_cancel_left (bit_xor (bit_xor 0 a) b) c c' (
    bit_xor_cancel_right d (bit_xor (bit_xor (bit_xor 0 a) b) c)
      (bit_xor (bit_xor (bit_xor 0 a) b) c') e)

checksum_cmd : (a b c d d' : ℕ) → checksum a b c d ≡ checksum a b c d' → d ≡ d'
checksum_cmd a b c d d' e = bit_xor_cancel_left (bit_xor (bit_xor (bit_xor 0 a) b) c) d d' e

abbrev pub get_elem? : List ℕ → ℕ → Option ℕ
get_elem? [] i = none
get_elem? (x ∷ xs) i = if i == 0 then some x else get_elem? xs (i - 1)

apart : (x y : ℕ) → x ≢ y → (x == y) ≡ false
apart x y ne = ground arith

abbrev whole : ℕ → ℕ → ℕ → List ℕ
whole addr lock cmd = start_byte ∷ addr ∷ lock ∷ cmd ∷ checksum start_byte addr lock cmd ∷ []

past_end : (xs : List ℕ) (i : ℕ) → length xs ≤ i → get_elem? xs i ≡ none
past_end [] i h = refl
past_end (x ∷ xs) i h = ground (arith, past_end xs (i - 1))

build_open-whole :
    (addr lock cmd : ℕ) (frame : List ℕ)
    → build_open addr lock cmd ≡ some frame
    → whole addr lock cmd ≡ frame
unfolding build_open
build_open-whole addr lock cmd frame e =
    elim (Bool-cases (are_bytes (start_byte ∷ addr ∷ lock ∷ cmd ∷ []))) [
      | inl fits ↦ some_injective (rw fits at e)
      | inr large ↦ let bad : none ≡ some frame = rw large at e in cc
    ]

intact-of : (h x : Heard) (b : Bool) → x.intact ≡ b → heard_if true x ≡ some h → h.intact ≡ b
intact-of h x b e f = subst (λ (y : Heard). y.intact ≡ b) (some_injective f) e

whole-damaged :
    (addr lock cmd i v old : ℕ) (h : Heard)
    → get_elem? (whole addr lock cmd) i ≡ some old
    → v ≢ old
    → annotate (set (whole addr lock cmd) i v) ≡ some h
    → h.intact ≡ false
unfolding annotate
whole-damaged addr lock cmd zero v old h e ne f =
    let other = apart v start_byte (λ same. ne (same ∙ some_injective e)) in
    let bad : none ≡ some h = rw other at f in cc
whole-damaged addr lock cmd (suc zero) v old h e ne f =
    intact-of h _ false
      (apart (checksum start_byte addr lock cmd) (checksum start_byte v lock cmd)
        (λ q. ne (sym (checksum_addr start_byte addr v lock cmd q) ∙ some_injective e)))
      f
whole-damaged addr lock cmd (suc (suc zero)) v old h e ne f =
    intact-of h _ false
      (apart (checksum start_byte addr lock cmd) (checksum start_byte addr v cmd)
        (λ q. ne (sym (checksum_lock start_byte addr lock v cmd q) ∙ some_injective e)))
      f
whole-damaged addr lock cmd (suc (suc (suc zero))) v old h e ne f =
    intact-of h _ false
      (apart (checksum start_byte addr lock cmd) (checksum start_byte addr lock v)
        (λ q. ne (sym (checksum_cmd start_byte addr lock cmd v q) ∙ some_injective e)))
      f
whole-damaged addr lock cmd (suc (suc (suc (suc zero)))) v old h e ne f =
    intact-of h _ false
      (apart v (checksum start_byte addr lock cmd) (λ q. ne (q ∙ some_injective e))) f
whole-damaged addr lock cmd (suc (suc (suc (suc (suc i))))) v old h e ne f =
    let bad : none ≡ some old =
      sym (past_end (whole addr lock cmd) (suc (suc (suc (suc (suc i))))) (omega arith)) ∙ e in
    cc

-- If one byte of a frame that opens a lock is changed and the listener still takes it for a frame,
-- its checksum is reported as bad.
pub annotate-damaged :
    (addr lock cmd i v old : ℕ) (frame : List ℕ) (h : Heard)
    → build_open addr lock cmd ≡ some frame
    → get_elem? frame i ≡ some old
    → v ≢ old
    → annotate (set frame i v) ≡ some h
    → h.intact ≡ false
annotate-damaged addr lock cmd i v old frame h built e ne f =
    let same = build_open-whole addr lock cmd frame built in
    whole-damaged addr lock cmd i v old h
      (subst (λ (x : List ℕ). get_elem? x i ≡ some old) (sym same) e) ne
      (subst (λ (x : List ℕ). annotate (set x i v) ≡ some h) (sym same) f)

-- A channel of the two boards, by the cell behind it.
pub cell_to_addr_lock_iff :
    (cell addr lock : ℕ)
    → (cell_to_addr_lock cell ≡ some (addr, lock)) ↔ (
        ((addr ≡ 1) × (1 ≤ lock) × (lock ≤ 21) × (cell ≡ lock))
        ⊎ ((addr ≡ 2) × (1 ≤ lock) × (lock ≤ 22) × (cell ≡ lock + 21)))
unfolding cell_to_addr_lock
cell_to_addr_lock_iff cell addr lock = (
  λ e. elim (Bool-cases (leb 1 cell && leb cell board1_max)) [
    | inl first_board ↦ inl (ground (arith, e, first_board))
    | inr other ↦ inr (ground (arith, e, other))
  ],
  λ h. ground (arith, h),
)
