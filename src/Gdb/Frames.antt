-- ===== src/Gdb/Frames.antt =====
-- The packets of uspike/gdblink.c on the link: `SendPacket` against `ReceivePacket`.
use cavatools.Prelude.{
  every, every_sound, ℕ, suc, ◌+◌, ◌*◌, ◌/◌, ◌%◌, ◌<◌, ◌≡◌, ◌≢◌, refl, ap, sym, ◌∙◌, Bool, true,
  false, some, List, [], ◌∷◌, ◌++◌, length, length-append, append-empty, append_assoc, All, ◌==◌,
  if◌then◌else◌, bit_or, arith,
}
use native.Mathlib.Nat.{mod-lt}
use cavatools.Gdb.{
  reads, gets, buf_size, dollar, hash, plus, minus, val2hexch, hex_byte, Phase, waiting, reading,
  high, low, read_char, receive_char, receive_from, receive_packet, checksum, frame,
}

-- A character that can stand in a packet.
abbrev pub IsPlain : ℕ → Type 0
IsPlain ch = (ch ≢ dollar) × (ch ≢ hash)

-- One character.
receive_reads :
    (phase p : Phase) (ch : ℕ) (input sent answer : List ℕ)
    → receive_char phase ch ≡ reads p answer
    → receive_from phase (ch ∷ input) sent ≡ receive_from p input (sent ++ answer)
unfolding receive_from
receive_reads phase p ch input sent answer e =
    ap
      (λ n. elim n [
        | reads q a ↦ receive_from q input (sent ++ a)
        | gets b a ↦ some (b, input, sent ++ a)
      ])
      e

receive_quiet :
    (phase p : Phase) (ch : ℕ) (input sent : List ℕ)
    → receive_char phase ch ≡ reads p []
    → receive_from phase (ch ∷ input) sent ≡ receive_from p input sent
receive_quiet phase p ch input sent e =
    receive_reads phase p ch input sent [] e ∙ ap (receive_from p input) (append-empty sent)

receive_gets :
    (phase : Phase) (ch : ℕ) (buf input sent answer : List ℕ)
    → receive_char phase ch ≡ gets buf answer
    → receive_from phase (ch ∷ input) sent ≡ some (buf, input, sent ++ answer)
unfolding receive_from
receive_gets phase ch buf input sent answer e =
    ap
      (λ n. elim n [
        | reads q a ↦ receive_from q input (sent ++ a)
        | gets b a ↦ some (b, input, sent ++ a)
      ])
      e

char_plain :
    (sum ch : ℕ) (buf : List ℕ)
    → IsPlain ch
    → suc (length buf) < buf_size
    → receive_char (reading sum buf) ch ≡ reads (reading ((sum + ch) % 256) (buf ++ ch ∷ [])) []
unfolding receive_char read_char
char_plain sum ch buf (not_dollar, not_hash) room = ground (arith, not_dollar, not_hash)

char_end : (sum : ℕ) (buf : List ℕ) → receive_char (reading sum buf) hash ≡ reads (high sum buf) []
unfolding receive_char read_char
char_end sum buf = refl

receive_plain :
    (msg input sent buf : List ℕ) (sum : ℕ)
    → All IsPlain msg
    → length buf + length msg < buf_size
    → receive_from (reading sum buf) (msg ++ hash ∷ input) sent
      ≡ receive_from (high (checksum sum msg) (buf ++ msg)) input sent
unfolding checksum
receive_plain [] input sent buf sum all fits =
    receive_quiet (reading sum buf) (high sum buf) hash input sent (char_end sum buf)
    ∙ ap (λ b. receive_from (high sum b) input sent) (sym (append-empty buf))
receive_plain (ch ∷ msg) input sent buf sum (plain, all) fits =
    receive_quiet (reading sum buf) (reading ((sum + ch) % 256) (buf ++ ch ∷ [])) ch
      (msg ++ hash ∷ input) sent (char_plain sum ch buf plain (omega arith))
    ∙ receive_plain msg input sent (buf ++ ch ∷ []) ((sum + ch) % 256) all
        (omega (arith, length-append buf (ch ∷ [])))
    ∙ ap (λ b. receive_from (high (checksum ((sum + ch) % 256) msg) b) input sent)
        (append_assoc buf (ch ∷ []) msg)

char_junk : (ch : ℕ) → ch ≢ dollar → receive_char waiting ch ≡ reads waiting []
unfolding receive_char
char_junk ch n = ground (arith, n)

char_start : receive_char waiting dollar ≡ reads (reading 0 []) []
unfolding receive_char
char_start = refl

skip_junk :
    (junk input sent : List ℕ)
    → All (λ ch. ch ≢ dollar) junk
    → receive_from waiting (junk ++ input) sent ≡ receive_from waiting input sent
skip_junk [] input sent all = refl
skip_junk (ch ∷ junk) input sent (n, all) =
    receive_quiet waiting waiting ch (junk ++ input) sent (char_junk ch n)
    ∙ skip_junk junk input sent all

receive_start :
    (msg input sent : List ℕ)
    → All IsPlain msg
    → length msg < buf_size
    → receive_from waiting (dollar ∷ (msg ++ hash ∷ input)) sent
      ≡ receive_from (high (checksum 0 msg) msg) input sent
receive_start msg input sent all fits =
    receive_quiet waiting (reading 0 []) dollar (msg ++ hash ∷ input) sent char_start
    ∙ receive_plain msg input sent [] 0 all (omega arith)

-- The sum that the two characters behind the `#` stand for.
abbrev pub sent_sum : ℕ → ℕ → ℕ
sent_sum c d = bit_or (hex_byte c * 16 % 256) (hex_byte d)

char_high :
    (sum c : ℕ) (buf : List ℕ)
    → receive_char (high sum buf) c ≡ reads (low sum buf (hex_byte c * 16 % 256)) []
unfolding receive_char
char_high sum c buf = refl

receive_checked :
    (msg input sent : List ℕ) (sum c d : ℕ) (b : Bool)
    → (sum == sent_sum c d) ≡ b
    → receive_from (high sum msg) (c ∷ d ∷ input) sent ≡ (
        if b
        then some (msg, input, sent ++ plus ∷ [])
        else receive_from waiting input (sent ++ minus ∷ []))
unfolding receive_char
receive_checked msg input sent sum c d true e =
    receive_quiet (high sum msg) (low sum msg (hex_byte c * 16 % 256)) c (d ∷ input) sent
      (char_high sum c msg)
    ∙ receive_gets (low sum msg (hex_byte c * 16 % 256)) d msg input sent (plus ∷ []) (rw e refl)
receive_checked msg input sent sum c d false e =
    receive_quiet (high sum msg) (low sum msg (hex_byte c * 16 % 256)) c (d ∷ input) sent
      (char_high sum c msg)
    ∙ receive_reads (low sum msg (hex_byte c * 16 % 256)) waiting d input sent (minus ∷ [])
        (rw e refl)

-- A packet of plain characters that fits the buffer, after any characters but `$`, is returned and
-- answered by `+` if its checksum is the value of the two characters behind its `#`, in which a
-- character that is no hexadecimal digit counts as 255 (so `#z5` passes for the checksum 245); if not,
-- it is answered by `-` and the next packet is waited for.
pub receive_packet-framed :
    (junk msg input sent : List ℕ) (c d : ℕ)
    → All (λ ch. ch ≢ dollar) junk
    → All IsPlain msg
    → length msg < buf_size
    → receive_packet (junk ++ dollar ∷ (msg ++ hash ∷ c ∷ d ∷ input)) sent ≡ (
        if checksum 0 msg == sent_sum c d
        then some (msg, input, sent ++ plus ∷ [])
        else receive_packet input (sent ++ minus ∷ []))
unfolding receive_packet
receive_packet-framed junk msg input sent c d skipped all fits =
    skip_junk junk (dollar ∷ (msg ++ hash ∷ c ∷ d ∷ input)) sent skipped
    ∙ receive_start msg (c ∷ d ∷ input) sent all fits
    ∙ receive_checked msg input sent (checksum 0 msg) c d _ refl

checksum-lt : (sum : ℕ) (msg : List ℕ) → sum < 256 → checksum sum msg < 256
unfolding checksum
checksum-lt sum [] h = h
checksum-lt sum (ch ∷ msg) h = checksum-lt ((sum + ch) % 256) msg (mod-lt (sum + ch) (omega arith))

sum_test : ℕ → Bool
unfolding hex_byte val2hexch
sum_test s = s == sent_sum (val2hexch (s / 16)) (val2hexch s)

sums_checked : every sum_test 256 ≡ true
unfolding every sum_test hex_byte val2hexch
sums_checked = refl

sum_sent : (s : ℕ) → s < 256 → (s == sent_sum (val2hexch (s / 16)) (val2hexch s)) ≡ true
unfolding sum_test
sum_sent s lt = every_sound sum_test 256 s lt sums_checked

-- What `SendPacket` sends, after any characters but `$`, `ReceivePacket` returns as it was, answers
-- by `+`, and leaves what follows: for a text of plain characters that fits the buffer.
pub receive_packet-frame :
    (junk msg input sent : List ℕ)
    → All (λ ch. ch ≢ dollar) junk
    → All IsPlain msg
    → length msg < buf_size
    → receive_packet (junk ++ (frame msg ++ input)) sent ≡ some (msg, input, sent ++ plus ∷ [])
unfolding frame
receive_packet-frame junk msg input sent skipped all fits =
    let sum = checksum 0 msg in
    let c = val2hexch (sum / 16) in
    let good = sum_sent sum (checksum-lt 0 msg (omega arith)) in
    ap (λ t. receive_packet (junk ++ dollar ∷ t) sent)
      (append_assoc msg (hash ∷ c ∷ val2hexch sum ∷ []) input)
    ∙ receive_packet-framed junk msg input sent c (val2hexch sum) skipped all fits
    ∙ rw good refl
