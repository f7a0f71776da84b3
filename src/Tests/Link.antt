-- ===== src/Tests/Link.antt =====
-- The gdb link at concrete texts.
use cavatools.Prelude.{
  ℕ, ◌+◌, ◌<◌, ◌≤◌, ◌≡◌, ◌≢◌, refl, true, ◌⊎◌, Option, some, List, [], ◌∷◌, ◌++◌, All, ◌==◌,
  if◌then◌else◌, arith,
}
use cavatools.Gdb.{plus, minus, frame, receive_packet, checksum}
use cavatools.Gdb.Frames.{IsPlain, sent_sum, receive_packet-framed, receive_packet-frame}
use cavatools.Gdb.Memory.{hex_bytes, read_bytes, rcv_hex_to_memory}
use cavatools.Gdb.Bytes.{IsMapped, rcv_hex_to_memory-hex_bytes}

-- "OK"
abbrev ok : List ℕ
ok = 79 ∷ 75 ∷ []

ok-IsPlain : All IsPlain ok
ok-IsPlain = ((omega arith, omega arith), ((omega arith, omega arith), tt))

-- An acknowledgement before the packet, as gdb sends it.
ack_only : All (λ ch. ch ≢ 36) (plus ∷ [])
ack_only = (omega arith, tt)

receive_packet-frame_example :
    receive_packet ((plus ∷ []) ++ (frame ok ++ 43 ∷ [])) [] ≡ some (ok, 43 ∷ [], [] ++ plus ∷ [])
receive_packet-frame_example =
    receive_packet-frame (plus ∷ []) ok (43 ∷ []) [] ack_only ok-IsPlain (omega arith)

receive_packet-framed_example :
    receive_packet ((plus ∷ []) ++ 36 ∷ (ok ++ 35 ∷ 48 ∷ 48 ∷ [])) [] ≡ (
      if checksum 0 ok == sent_sum 48 48
      then some (ok, [], [] ++ plus ∷ [])
      else receive_packet [] ([] ++ minus ∷ []))
receive_packet-framed_example =
    receive_packet-framed (plus ∷ []) ok [] [] 48 48 ack_only ok-IsPlain (omega arith)

frame_test : frame ok ≡ 36 ∷ 79 ∷ 75 ∷ 35 ∷ 57 ∷ 97 ∷ []
unfolding frame
frame_test = refl

abbrev zeros : ℕ → Option ℕ
zeros x = some 0

zeros-IsMapped : IsMapped zeros 4096 2
zeros-IsMapped x le lt = λ e. cc

rcv_hex_to_memory-hex_bytes_example :
    (mem' : ℕ → Option ℕ) × (rcv_hex_to_memory zeros (hex_bytes (171 ∷ 7 ∷ [])) 4096 2
      ≡ (mem', [], true))
    × (read_bytes mem' 4096 2 ≡ some (171 ∷ 7 ∷ []))
    × ((x : ℕ) → (x < 4096) ⊎ (4096 + 2 ≤ x) → mem' x ≡ zeros x)
rcv_hex_to_memory-hex_bytes_example =
    rcv_hex_to_memory-hex_bytes (171 ∷ 7 ∷ []) zeros 4096 (omega arith, (omega arith, tt))
      zeros-IsMapped
