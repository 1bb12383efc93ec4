-- ===== src/Locker.antt =====
-- The serial line of the lock boards, locker_uart.py: the frame that opens a lock, how a received
-- frame is read, and the passive listener. A byte is a number below 256; the port is not modelled.
pub mod Xor
pub mod Frames
pub mod Listener
use Prim.Native.Nat.{bit_xor}
use poctamat_back.Common.{
  ℕ, ◌-◌, Bool, true, false, not, ◌&&◌, Option, none, some, List, [], ◌∷◌, ◌++◌, leb, ltb, ◌==◌,
  if◌then◌else◌,
}

abbrev pub start_byte : ℕ
start_byte = 0x8A

abbrev pub cmd_open : ℕ
cmd_open = 0x11

abbrev pub board1_max : ℕ
board1_max = 21

abbrev pub board2_max : ℕ
board2_max = 43

abbrev pub xor_from : ℕ → List ℕ → ℕ
xor_from x [] = x
xor_from x (b ∷ bytes) = xor_from (bit_xor x b) bytes

unfoldable pub xor : List ℕ → ℕ
xor bytes = xor_from 0 bytes

abbrev pub are_bytes : List ℕ → Bool
are_bytes [] = true
are_bytes (b ∷ bytes) = ltb b 256 && are_bytes bytes

-- `bytes([START, addr, lock, cmd])` raises ValueError unless each fits a byte.
unfoldable pub build_open : ℕ → ℕ → ℕ → Option (List ℕ)
unfolding xor
build_open addr lock cmd =
    let frame = start_byte ∷ addr ∷ lock ∷ cmd ∷ [] in
    if are_bytes frame then some (frame ++ xor frame ∷ []) else none

-- The board and the channel of a logical cell, or ValueError.
unfoldable pub cell_to_addr_lock : ℕ → Option (ℕ × ℕ)
cell_to_addr_lock cell =
    if leb 1 cell && leb cell board1_max
    then some (1, cell)
    else if ltb board1_max cell && leb cell board2_max
    then some (2, cell - board1_max)
    else none

-- What `_annotate` prints of a frame.
pub record Heard : Type 0 where
  pub addr : ℕ
  pub lock : ℕ
  pub cmd : ℕ
  pub intact : Bool

abbrev pub heard_if : Bool → Heard → Option Heard
heard_if true h = some h
heard_if false h = none

-- `_annotate`: five bytes with the start byte in front, or nothing.
unfoldable pub annotate : List ℕ → Option Heard
unfolding xor
annotate (b₀ ∷ b₁ ∷ b₂ ∷ b₃ ∷ b₄ ∷ []) =
    heard_if (b₀ == start_byte)
      (record { addr = b₁; lock = b₂; cmd = b₃; intact = b₄ == xor (b₀ ∷ b₁ ∷ b₂ ∷ b₃ ∷ []) })
annotate _ = none

-- One `ser.read(64)`, with the clock after it.
pub record Reading : Type 0 where
  pub chunk : List ℕ
  pub now : ℕ

abbrev pub is_empty : List ℕ → Bool
is_empty [] = true
is_empty (b ∷ bytes) = false

-- The loop of `sniff` until Ctrl-C: the buffers that are printed, the last one by the handler.
unfoldable pub sniff : List Reading → List ℕ → ℕ → List (List ℕ)
sniff [] buf last = if is_empty buf then [] else buf ∷ []
sniff (r ∷ readings) buf last =
    let heard = sniff readings (buf ++ r.chunk) r.now in
    let printed = buf ∷ sniff readings [] last in
    let waits = sniff readings buf last in
    if not (is_empty r.chunk)
    then heard
    else if not (is_empty buf) && ltb 50_000 (r.now - last)
    then printed
    else waits
