-- ===== src/Gdb/Memory.antt =====
-- uspike/gdblink.c: numbers and bytes of memory in the text of packets. The text that is left to read
-- is a list, with the end for its `\0`; `mem` gives the byte at an address that can be accessed.
use cavatools.Prelude.{
  ℕ, zero, suc, ◌+◌, ◌-◌, ◌*◌, ◌/◌, ◌%◌, ◌^◌, Bool, true, false, Option, none, some, ◌>>=◌, List,
  [], ◌∷◌, ◌++◌, length, ltb, ◌==◌, if◌then◌else◌,
}
use cavatools.Prelude.Words.{long_mod}
use cavatools.Gdb.{buf_size, val2hexch, hexch2val}

-- Text behind what `outBuf` holds, with its `\0`; `none`: it would not fit.
unfoldable pub reply : List ℕ → List ℕ → Option (List ℕ)
reply out msg = if ltb (length out + length msg) buf_size then some (out ++ msg) else none

-- The bytes from an address on; `none`: an access traps.
unfoldable pub read_bytes : (ℕ → Option ℕ) → ℕ → ℕ → Option (List ℕ)
read_bytes mem a zero = some []
read_bytes mem a (suc n) = do b ← mem a; bs ← read_bytes mem (a + 1) n; some (b ∷ bs)

unfoldable pub hex_bytes : List ℕ → List ℕ
unfolding val2hexch
hex_bytes [] = []
hex_bytes (b ∷ bs) = val2hexch (b / 16) ∷ val2hexch b ∷ hex_bytes bs

-- `ReplyInHex`; "E09" where an access traps, `none` where it aborts or overruns `outBuf`.
unfoldable pub reply_in_hex : (ℕ → Option ℕ) → List ℕ → ℕ → ℕ → Option (List ℕ)
unfolding reply read_bytes hex_bytes
reply_in_hex mem out a bytes =
    if ltb (buf_size - 1) (length out + bytes) then none else elim (read_bytes mem a bytes) [
      | none ↦ reply out (69 ∷ 48 ∷ 57 ∷ [])
      | some bs ↦ reply out (hex_bytes bs)
    ]

unfoldable pub hex_digits : ℕ → ℕ → List ℕ
unfolding val2hexch
hex_digits v zero = []
hex_digits v (suc n) = val2hexch (v / 16 ^ n) ∷ hex_digits v n

-- `ReplyInt`
unfoldable pub reply_int : List ℕ → ℕ → ℕ → Option (List ℕ)
unfolding hex_digits
reply_int out v bytes =
    if ltb (buf_size - 1) (length out + 2 * bytes)
    then none
    else some (out ++ hex_digits v (2 * bytes))

-- `RcvHexDigit`: the digit, and the text behind it.
unfoldable pub rcv_hex_digit : List ℕ → Option (ℕ × List ℕ)
unfolding hexch2val
rcv_hex_digit [] = none
rcv_hex_digit (ch ∷ text) = do d ← hexch2val ch; some (d, text)

-- The loop of `RcvHexInt`, on a 32-bit int whose shift drops the high bits.
unfoldable pub rcv_hex_more : ℕ → List ℕ → ℕ × List ℕ
unfolding hexch2val
rcv_hex_more value [] = (value, [])
rcv_hex_more value (ch ∷ text) = elim (hexch2val ch) [
  | none ↦ (value, ch ∷ text)
  | some d ↦ rcv_hex_more (value * 16 % 2 ^ 32 + d) text
]

-- An int as a long.
unfoldable pub sign_extend : ℕ → ℕ
sign_extend v = if ltb v (2 ^ 31) then v else v + (long_mod - 2 ^ 32)

-- `RcvHexInt`
unfoldable pub rcv_hex_int : List ℕ → Option (ℕ × List ℕ)
unfolding rcv_hex_digit rcv_hex_more sign_extend
rcv_hex_int text = do
  (d, text') ← rcv_hex_digit text
  let (value, text'') = rcv_hex_more d text'
  some (sign_extend value, text'')

abbrev pub store : (ℕ → Option ℕ) → ℕ → ℕ → ℕ → Option ℕ
store mem a b x = if x == a then some b else mem x

-- The zeros that are written first; `none`: an access traps, with the memory as it is then.
unfoldable pub write_zeros : (ℕ → Option ℕ) → ℕ → ℕ → (ℕ → Option ℕ) × Bool
write_zeros mem a zero = (mem, true)
write_zeros mem a (suc n) =
    let rest = write_zeros (store mem a 0) (a + 1) n in
    elim (mem a) [ none ↦ (mem, false) | some b ↦ rest ]

-- The loop of `RcvHexToMemory`, and the test of its end.
unfoldable pub rcv_bytes : (ℕ → Option ℕ) → List ℕ → ℕ → ℕ → (ℕ → Option ℕ) × List ℕ × Bool
unfolding rcv_hex_digit
rcv_bytes mem text a zero = (mem, text, length text == 0)
rcv_bytes mem text a (suc n) = elim (rcv_hex_digit text) [
  | none ↦ (mem, text, false)
  | some (d, text') ↦ elim (rcv_hex_digit text') [
    | none ↦ (mem, text', false)
    | some (e, text'') ↦ rcv_bytes (store mem a (d * 16 + e)) text'' (a + 1) n
  ]
]

-- `RcvHexToMemory`: the memory, the text that is left, and what is returned.
unfoldable pub rcv_hex_to_memory : (ℕ → Option ℕ) → List ℕ → ℕ → ℕ → (ℕ → Option ℕ) × List ℕ × Bool
unfolding write_zeros rcv_bytes
rcv_hex_to_memory mem text a bytes =
    let (mem', written) = write_zeros mem a bytes in
    if written then rcv_bytes mem' text a bytes else (mem', text, false)
