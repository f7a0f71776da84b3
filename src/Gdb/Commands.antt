-- ===== src/Gdb/Commands.antt =====
-- uspike/gdblink.c: the commands of gdb. `Gdb` holds the link, the two buffers, and what the commands
-- read and change; the text is what `inPtr` has left. `none` is an abort, an overrun of `outBuf`, or
-- waiting for a character that does not come. A negative length counts as 0.
use cavatools.Prelude.{
  ℕ, zero, suc, ◌+◌, ◌*◌, ◌/◌, ◌%◌, ◌^◌, Bool, ◌||◌, Option, none, some, ◌>>=◌, List, [], ◌∷◌, ◌++◌,
  length, ltb, ◌==◌, if◌then◌else◌,
}
use cavatools.Prelude.Words.{long_mod}
use cavatools.Gdb.{receive_packet, send_packet}
use cavatools.Gdb.Memory.{reply, reply_in_hex, reply_int, rcv_hex_int, rcv_hex_to_memory, store}

pub record Gdb : Type 0 where
  pub input : List ℕ
  pub sent : List ℕ
  pub text : List ℕ
  pub out : List ℕ
  pub mem : ℕ → Option ℕ
  pub reg : ℕ
  pub pc : ℕ
  pub last_signal : ℕ
  pub num_continue : ℕ
  -- the calls of `redecode`
  pub redecoded : List ℕ

-- `break` out of the switch, or `return`.
pub data Outcome : Type 0 where
  replies : Gdb → Outcome
  resumes : Gdb → Outcome

-- The characters before the first `\0`.
unfoldable pub c_string : List ℕ → List ℕ
c_string [] = []
c_string (ch ∷ chs) = let rest = c_string chs in if ch == 0 then [] else ch ∷ rest

-- `*inPtr++ == ch`
unfoldable pub expect : ℕ → List ℕ → Option (List ℕ)
expect ch [] = none
expect ch (x ∷ text) = if x == ch then some text else none

abbrev pub ok_text : List ℕ
ok_text = 79 ∷ 75 ∷ []

abbrev pub syntax_error : List ℕ
syntax_error = 69 ∷ 48 ∷ 49 ∷ []

abbrev pub data_error : List ℕ
data_error = 69 ∷ 48 ∷ 50 ∷ []

unfoldable pub answer : Gdb → List ℕ → Option Outcome
unfolding reply
answer g msg = do out ← reply g.out msg; some (replies (record g { out = out }))

unfoldable pub write_hex : Gdb → ℕ → ℕ → Gdb × Bool
unfolding rcv_hex_to_memory
write_hex g a bytes =
    let (mem, text, good) = rcv_hex_to_memory g.mem g.text a bytes in
    (record g { mem = mem; text = text }, good)

-- A long as the int `bytes` of the callees.
unfoldable pub byte_count : ℕ → ℕ
byte_count n = if ltb n (2 ^ 31) then n else 0

-- `*gdb_pc = addr`: eight bytes, the low one first.
unfoldable pub store_long : (ℕ → Option ℕ) → ℕ → ℕ → ℕ → ℕ → Option ℕ
store_long mem a v zero = mem
store_long mem a v (suc n) = store_long (store mem a (v % 256)) (a + 1) (v / 256) n

-- `case 'g'`
unfoldable pub send_registers : Gdb → Option Outcome
unfolding reply_in_hex
send_registers g = do
  out ← reply_in_hex g.mem g.out g.reg (32 * 8)
  out' ← reply_in_hex g.mem out g.pc 8
  some (replies (record g { out = out' }))

-- `case 'G'`; what is returned by `RcvHexToMemory` is added up.
unfoldable pub set_registers : Gdb → Option Outcome
unfolding write_hex answer
set_registers g =
    let (g1, first) = write_hex g g.reg (32 * 8) in
    let (g2, second) = write_hex g1 g.pc 8 in
    answer g2 (if first || second then ok_text else data_error)

-- `case '?'`
unfoldable pub send_signal : Gdb → Option Outcome
unfolding reply reply_int
send_signal g = do
  out ← reply g.out (83 ∷ [])
  out' ← reply_int out g.last_signal 1
  some (replies (record g { out = out' }))

-- `case 'P'`
unfoldable pub register_number : List ℕ → Option (ℕ × List ℕ)
unfolding rcv_hex_int expect
register_number text = do
  (regno, text1) ← rcv_hex_int text
  text2 ← expect 61 text1
  if ltb regno 32 then some (regno, text2) else none

unfoldable pub set_register : Gdb → Option Outcome
unfolding register_number write_hex answer
set_register g = elim (register_number g.text) [
  | none ↦ answer g syntax_error
  | some (regno, text) ↦
      let (g', good) = write_hex (record g { text = text }) (g.reg + 8 * regno) 8 in
      answer g' (if good then ok_text else data_error)
]

-- `AAAA,LLL`
unfoldable pub address_length : List ℕ → Option (ℕ × ℕ × List ℕ)
unfolding rcv_hex_int expect
address_length text = do
  (addr, text1) ← rcv_hex_int text
  text2 ← expect 44 text1
  (bytes, text3) ← rcv_hex_int text2
  some (addr, bytes, text3)

-- `case 'm'`
unfoldable pub send_memory : Gdb → Option Outcome
unfolding address_length answer reply_in_hex byte_count
send_memory g = elim (address_length g.text) [
  | none ↦ answer g syntax_error
  | some (addr, bytes, text) ↦ do
    out ← reply_in_hex g.mem g.out addr (byte_count bytes)
    some (replies (record g { out = out; text = text }))
]

-- `case 'M'`
unfoldable pub address_length_colon : List ℕ → Option (ℕ × ℕ × List ℕ)
unfolding address_length expect
address_length_colon text = do
  (addr, bytes, text1) ← address_length text
  text2 ← expect 58 text1
  some (addr, bytes, text2)

unfoldable pub set_memory : Gdb → Option Outcome
unfolding address_length_colon answer write_hex byte_count
set_memory g = elim (address_length_colon g.text) [
  | none ↦ answer g syntax_error
  | some (addr, bytes, text) ↦
      let (g', good) = write_hex (record g { text = text }) addr (byte_count bytes) in
      if good
      then answer (record g' { redecoded = g'.redecoded ++ addr ∷ [] }) ok_text
      else answer g' data_error
]

-- `case 's'`, and `case 'c'` behind its count: go on at the pc, or at an address.
unfoldable pub go_on : Gdb → Option Outcome
unfolding rcv_hex_int answer store_long
go_on g = if length g.text == 0 then some (resumes g) else elim (rcv_hex_int g.text) [
  | none ↦ answer g syntax_error
  | some (addr, text) ↦
      some (resumes (record g { text = text; mem = store_long g.mem g.pc addr 8 }))
]

unfoldable pub resume : Gdb → Option Outcome
unfolding go_on
resume g = go_on (record g { num_continue = (g.num_continue + 1) % long_mod })

-- The switch; any other command gets an empty reply.
unfoldable pub command : Gdb → ℕ → Option Outcome
unfolding send_registers set_registers send_signal set_register send_memory set_memory go_on resume
command g ch =
    if ch == 103
    then send_registers g
    else if ch == 71
    then set_registers g
    else if ch == 63
    then send_signal g
    else if ch == 80
    then set_register g
    else if ch == 109
    then send_memory g
    else if ch == 77
    then set_memory g
    else if ch == 115
    then go_on g
    else if ch == 99
    then resume g
    else some (replies g)

-- `switch (*inPtr++)`
unfoldable pub dispatch : Gdb → List ℕ → Option Outcome
unfolding command
dispatch g [] = command (record g { text = [] }) 0
dispatch g (ch ∷ text) = command (record g { text = text }) ch

-- The body of the `for (;;)` of `ProcessGdbCommand`.
unfoldable pub round : Gdb → Option Outcome
unfolding dispatch c_string
round g = do
  (buf, input, sent) ← receive_packet g.input g.sent
  outcome ← dispatch (record g { input = input; sent = sent }) (c_string buf)
  elim outcome [
    | resumes g' ↦ some (resumes g')
    | replies g' ↦ do
      (input', sent') ← send_packet g'.out g'.input g'.sent
      some (replies (record g' { input = input'; sent = sent'; out = [] }))
  ]

-- `ProcessGdbCommand`; the fuel bounds the number of packets.
unfoldable pub process_gdb_command : ℕ → Gdb → Option Gdb
unfolding round
process_gdb_command zero g = none
process_gdb_command (suc fuel) g = do
  outcome ← round g
  elim outcome [ resumes g' ↦ some g' | replies g' ↦ process_gdb_command fuel g' ]

-- `ProcessGdbException`
unfoldable pub process_gdb_exception : Gdb → Option Gdb
unfolding reply reply_int reply_in_hex
process_gdb_exception g = do
  out1 ← reply g.out (84 ∷ [])
  out2 ← reply_int out1 g.last_signal 1
  out3 ← reply out2 (50 ∷ 48 ∷ 58 ∷ [])
  out4 ← reply_in_hex g.mem out3 g.pc 8
  out5 ← reply out4 (59 ∷ [])
  (input, sent) ← send_packet out5 g.input g.sent
  some (record g { input = input; sent = sent; out = [] })
