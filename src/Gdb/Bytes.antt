-- ===== src/Gdb/Bytes.antt =====
-- The hexadecimal text of uspike/gdblink.c: digits that are written against digits that are read.
use cavatools.Prelude.{
  ℕ, zero, suc, ◌+◌, ◌*◌, ◌/◌, ◌%◌, ◌<◌, ◌≤◌, ◌≡◌, ◌≢◌, refl, ap, sym, ◌∙◌, true, false, Option,
  none, some, List, [], ◌∷◌, ◌++◌, length, All, ◌==◌, arith, inl, inr, ◌⊎◌, append-empty,
}
use native.Mathlib.Nat.{mod-lt}
use cavatools.Gdb.{val2hexch, hexch2val}
use cavatools.Gdb.Memory.{
  read_bytes, hex_bytes, rcv_hex_digit, store, write_zeros, rcv_bytes, rcv_hex_to_memory,
}

-- A digit is read back as the low four bits.
hexch2val-val2hexch : (v : ℕ) → hexch2val (val2hexch v) ≡ some (v % 16)
unfolding hexch2val val2hexch
hexch2val-val2hexch v = let lt : v % 16 < 16 = mod-lt v (omega arith) in ground (arith, lt)

rcv_digit : (v : ℕ) (text : List ℕ) → rcv_hex_digit (val2hexch v ∷ text) ≡ some (v % 16, text)
unfolding rcv_hex_digit
rcv_digit v text = rw (hexch2val-val2hexch v) refl

-- The memory with bytes stored from an address on.
unfoldable pub store_all : (ℕ → Option ℕ) → ℕ → List ℕ → ℕ → Option ℕ
store_all mem a [] = mem
store_all mem a (b ∷ bs) = store_all (store mem a b) (a + 1) bs

-- One byte: two digits are there.
rcv_byte :
    (mem : ℕ → Option ℕ) (text text1 text2 : List ℕ) (a n d e : ℕ)
    → rcv_hex_digit text ≡ some (d, text1)
    → rcv_hex_digit text1 ≡ some (e, text2)
    → rcv_bytes mem text a (suc n) ≡ rcv_bytes (store mem a (d * 16 + e)) text2 (a + 1) n
unfolding rcv_bytes
rcv_byte mem text text1 text2 a n d e first second =
    ap
      (λ r. elim r [
        | none ↦ (mem, text, false)
        | some (d', t) ↦ elim (rcv_hex_digit t) [
          | none ↦ (mem, t, false)
          | some (e', t') ↦ rcv_bytes (store mem a (d' * 16 + e')) t' (a + 1) n
        ]
      ])
      first
    ∙ ap
        (λ r. elim r [
          | none ↦ (mem, text1, false)
          | some (e', t') ↦ rcv_bytes (store mem a (d * 16 + e')) t' (a + 1) n
        ])
        second

rcv_bytes-hex_bytes :
    (bs text : List ℕ) (mem : ℕ → Option ℕ) (a : ℕ)
    → All (λ b. b < 256) bs
    → rcv_bytes mem (hex_bytes bs ++ text) a (length bs)
      ≡ (store_all mem a bs, text, length text == 0)
unfolding rcv_bytes hex_bytes store_all
rcv_bytes-hex_bytes [] text mem a all = refl
rcv_bytes-hex_bytes (b ∷ bs) text mem a (small, all) =
    let value : b / 16 % 16 * 16 + b % 16 ≡ b = omega arith in
    let rest = hex_bytes bs ++ text in
    rcv_byte mem (val2hexch (b / 16) ∷ val2hexch b ∷ rest) (val2hexch b ∷ rest) rest a (length bs)
      (b / 16 % 16) (b % 16) (rcv_digit (b / 16) (val2hexch b ∷ rest)) (rcv_digit b rest)
    ∙ rw value (rcv_bytes-hex_bytes bs text (store mem a b) (a + 1) all)

store_all-below :
    (bs : List ℕ) (mem : ℕ → Option ℕ) (a x : ℕ) → x < a → store_all mem a bs x ≡ mem x
unfolding store_all
store_all-below [] mem a x lt = refl
store_all-below (b ∷ bs) mem a x lt =
    store_all-below bs (store mem a b) (a + 1) x (omega arith) ∙ ground arith

store_all-above :
    (bs : List ℕ) (mem : ℕ → Option ℕ) (a x : ℕ) → a + length bs ≤ x → store_all mem a bs x ≡ mem x
unfolding store_all
store_all-above [] mem a x le = refl
store_all-above (b ∷ bs) mem a x le =
    store_all-above bs (store mem a b) (a + 1) x (omega arith) ∙ ground arith

read_bytes-store_all :
    (bs : List ℕ) (mem : ℕ → Option ℕ) (a : ℕ)
    → read_bytes (store_all mem a bs) a (length bs) ≡ some bs
unfolding read_bytes store_all
read_bytes-store_all [] mem a = refl
read_bytes-store_all (b ∷ bs) mem a =
    let here : store_all (store mem a b) (a + 1) bs a ≡ some b =
      store_all-below bs (store mem a b) (a + 1) a (omega arith) ∙ ground arith in
    rw (here, read_bytes-store_all bs (store mem a b) (a + 1)) refl

-- Where every byte can be accessed, the zeros are written, inside the range.
abbrev pub IsMapped : (ℕ → Option ℕ) → ℕ → ℕ → Type 0
IsMapped mem a n = (x : ℕ) → a ≤ x → x < a + n → mem x ≢ none

write_zeros-mapped :
    (n : ℕ) (mem : ℕ → Option ℕ) (a : ℕ)
    → IsMapped mem a n
    → (mem' : ℕ → Option ℕ) × (write_zeros mem a n ≡ (mem', true))
      × ((x : ℕ) → (x < a) ⊎ (a + n ≤ x) → mem' x ≡ mem x)
unfolding write_zeros
write_zeros-mapped zero mem a mapped = (mem, refl, λ x out. refl)
write_zeros-mapped (suc n) mem a mapped =
    let (mem', e, same) =
      write_zeros-mapped n (store mem a 0) (a + 1)
        (λ x le lt. ground (arith, mapped x (omega arith) (omega arith))) in
    (
      mem',
      ground (arith, e, mapped a (omega arith) (omega arith)),
      λ x out. same x (ground (arith, out)) ∙ ground (arith, out),
    )

-- Bytes that are sent to be written, to addresses that can be accessed, are written: what is then read
-- there is these bytes, and every other byte of memory is as before.
pub rcv_hex_to_memory-hex_bytes :
    (bs : List ℕ) (mem : ℕ → Option ℕ) (a : ℕ)
    → All (λ b. b < 256) bs
    → IsMapped mem a (length bs)
    → (mem' : ℕ → Option ℕ) × (rcv_hex_to_memory mem (hex_bytes bs) a (length bs)
        ≡ (mem', [], true))
      × (read_bytes mem' a (length bs) ≡ some bs)
      × ((x : ℕ) → (x < a) ⊎ (a + length bs ≤ x) → mem' x ≡ mem x)
unfolding rcv_hex_to_memory
rcv_hex_to_memory-hex_bytes bs mem a small mapped =
    let (zeros, e, same) = write_zeros-mapped (length bs) mem a mapped in
    (
      store_all zeros a bs,
      rw e (
          ap (λ t. rcv_bytes zeros t a (length bs)) (sym (append-empty (hex_bytes bs)))
          ∙ rcv_bytes-hex_bytes bs [] zeros a small),
      read_bytes-store_all bs zeros a,
      λ x out.
          elim out [
            | inl lt ↦ store_all-below bs zeros a x lt
            | inr le ↦ store_all-above bs zeros a x le
          ]
          ∙ same x out,
    )
