-- ===== src/Gdb.antt =====
-- uspike/gdblink.c: packets between the simulator and gdb. A character is its code, below 256. The
-- link is the list of characters still to come and of those sent; `none` is waiting for a character
-- that does not come.
pub mod Memory
pub mod Commands
pub mod Frames
pub mod Bytes
use cavatools.Prelude.{
  ℕ, ◌+◌, ◌-◌, ◌*◌, ◌/◌, ◌%◌, Bool, true, false, ◌&&◌, Option, none, some, List, [], ◌∷◌, ◌++◌,
  length, ltb, leb, ◌==◌, if◌then◌else◌, bit_or,
}

-- `INBUFSIZE` and `OUTBUFSIZE`, for 32 registers and the pc.
abbrev pub buf_size : ℕ
buf_size = 33 * 16 + 100

-- Codes of characters.
abbrev pub dollar : ℕ
dollar = 36

abbrev pub hash : ℕ
hash = 35

abbrev pub plus : ℕ
plus = 43

abbrev pub minus : ℕ
minus = 45

unfoldable pub val2hexch : ℕ → ℕ
val2hexch v = let d = v % 16 in if leb d 9 then d + 48 else d - 10 + 97

-- `none`: the error signal, -1.
unfoldable pub hexch2val : ℕ → Option ℕ
hexch2val ch =
    if leb 48 ch && leb ch 57
    then some (ch - 48)
    else if leb 65 ch && leb ch 70
    then some (ch - 65 + 10)
    else if leb 97 ch && leb ch 102
    then some (ch - 97 + 10)
    else none

-- The value as an unsigned char.
unfoldable pub hex_byte : ℕ → ℕ
unfolding hexch2val
hex_byte ch = elim (hexch2val ch) [ none ↦ 255 | some v ↦ v ]

-- Where `ReceivePacket` stands when it reads the next character, with `checksum` and the buffer.
pub data Phase : Type 0 where
  waiting : Phase
  reading : ℕ → List ℕ → Phase
  high : ℕ → List ℕ → Phase
  low : ℕ → List ℕ → ℕ → Phase

-- What a character leads to: more reading, or the packet, and what is answered.
pub data Next : Type 0 where
  reads : Phase → List ℕ → Next
  gets : List ℕ → List ℕ → Next

-- The body of the `while` loop; a full buffer drops the character and goes to `finish`.
unfoldable pub read_char : ℕ → List ℕ → ℕ → Next
read_char sum buf ch =
    if ch == hash
    then reads (high sum buf) []
    else if leb (buf_size - 1) (length buf)
    then gets buf []
    else if ch == dollar
    then reads (reading 0 []) []
    else reads (reading ((sum + ch) % 256) (buf ++ ch ∷ [])) []

unfoldable pub receive_char : Phase → ℕ → Next
unfolding read_char hex_byte
receive_char waiting ch = if ch == dollar then reads (reading 0 []) [] else reads waiting []
receive_char (reading sum buf) ch = read_char sum buf ch
receive_char (high sum buf) ch = reads (low sum buf (hex_byte ch * 16 % 256)) []
receive_char (low sum buf v) ch =
    if sum == bit_or v (hex_byte ch) then gets buf (plus ∷ []) else reads waiting (minus ∷ [])

-- `ReceivePacket` from a phase on: the packet, the characters left, and the characters sent so far.
unfoldable pub receive_from : Phase → List ℕ → List ℕ → Option (List ℕ × List ℕ × List ℕ)
unfolding receive_char
receive_from phase [] sent = none
receive_from phase (ch ∷ input) sent = elim (receive_char phase ch) [
  | reads phase' answer ↦ receive_from phase' input (sent ++ answer)
  | gets buf answer ↦ some (buf, input, sent ++ answer)
]

unfoldable pub receive_packet : List ℕ → List ℕ → Option (List ℕ × List ℕ × List ℕ)
unfolding receive_from
receive_packet = receive_from waiting

unfoldable pub checksum : ℕ → List ℕ → ℕ
checksum sum [] = sum
checksum sum (ch ∷ msg) = checksum ((sum + ch) % 256) msg

-- One round of `SendPacket`.
unfoldable pub frame : List ℕ → List ℕ
unfolding checksum val2hexch
frame msg =
    let sum = checksum 0 msg in dollar ∷ (msg ++ hash ∷ val2hexch (sum / 16) ∷ val2hexch sum ∷ [])

-- `SendPacket`: rounds until a `+` is read.
unfoldable pub send_packet : List ℕ → List ℕ → List ℕ → Option (List ℕ × List ℕ)
unfolding frame
send_packet msg [] sent = none
send_packet msg (ch ∷ input) sent =
    let rest = send_packet msg input (sent ++ frame msg) in
    if ch == plus then some (input, sent ++ frame msg) else rest
