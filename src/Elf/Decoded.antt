-- ===== src/Elf/Decoded.antt =====
-- uspike/instructions.cc: `loadelf`, which loads a program and decodes its text.
use cavatools.Prelude.{
  ℕ, zero, suc, ◌+◌, ◌-◌, ◌≤◌, ◌<◌, ◌≡◌, true, false, Option, some, ◌>>=◌, if◌then◌else◌, Bool,
  none, ◌&&◌, ltb, leb, ◌^◌,
}
use cavatools.Insn.{Insn}
use cavatools.Insn.Space.{InsnSpace, Opcodes, at, insn_bytes, predecode, substitute_cas}
use cavatools.Insn.Predecoded.{Walk}
use cavatools.Mmu.{word}
use cavatools.Elf.Loading.{
  Memory, Kernel, Phdr, Image, Elf, Process, is_load, pf_r, all_allowed, load_elf_binary,
}
use cavatools.Elf.Mapped.{start}
use cavatools.Elf.Process.{in_bss, in_segments, text_of, content, bias_of}

-- `code.image`
abbrev pub image : Process → ℕ → ℕ
image p pc = word 4 p.image.memory pc

-- A descriptor whose bytes are 0.
abbrev pub zero_insn : Insn
zero_insn = record { op_code = 0; op_rd = 0; op_rs1 = 0; imm = 0; rs2 = 0; rs3 = 0 }

-- Whether the reads of `code.image` in the loop are allowed, by its rounds from `pc` on.
unfoldable pub fetches : Opcodes → (ℕ → ℕ → Insn) → ℕ → ℕ → Process → Bool
unfolding all_allowed insn_bytes
fetches ops decoder zero pc p = true
fetches ops decoder (suc fuel) pc p =
    let rest =
      fetches ops decoder fuel (pc + insn_bytes ops decoder (image p) (decoder (image p pc) pc))
        p in
    if ltb pc p.high_bound then all_allowed pc 4 p.image.readable && rest else true

module _ (kernel : Kernel) (ops : Opcodes) (decoder : ℕ → ℕ → Insn) where
  -- `loadelf` up to the end of its loop, with the process that the loader leaves. Without an executable
  -- section the bounds are -1 and 0, and the loop reads at -1; the number of parcels is an int.
  unfoldable pub decode_text : Elf → Image → Option (Process × InsnSpace)
  unfolding load_elf_binary predecode fetches
  decode_text elf current = do
    p ← load_elf_binary kernel elf current
    let empty : InsnSpace = record {
      base = p.low_bound;
      limit = p.high_bound;
      entry = p.entry;
      predecoded = λ j. zero_insn;
    }
    let rounds = p.high_bound - p.low_bound
    let decodes = ltb rounds (2 ^ 32) && fetches ops decoder rounds p.low_bound p
    s ←
        if leb p.low_bound p.high_bound && decodes
        then predecode ops decoder (image p) rounds p.low_bound empty
        else none
    some (p, s)

  -- `loadelf`, with rounds for each byte of the text and one for its end.
  unfoldable pub loadelf : Elf → Image → Option (Process × InsnSpace)
  unfolding decode_text substitute_cas
  loadelf elf current = do
    (p, s) ← decode_text elf current
    s' ←
        substitute_cas ops decoder (image p) (p.high_bound - p.low_bound + 1) p.high_bound
          p.low_bound 0 0 s
    some (p, s')

-- The descriptors of the instructions of a segment that lie in none of .bss and .sbss: those of the
-- words of the segment.
abbrev pub IsDecoded : Memory → Opcodes → (ℕ → ℕ → Insn) → Elf → Process → InsnSpace → Phdr → Type 0
IsDecoded file ops decoder elf p s ph =
    is_load ph ≡ true
    → (k : ℕ) → k + 4 ≤ ph.p_memsz
    → ((j : ℕ) → j < 4 → in_bss elf.sections (start (bias_of elf) ph + (k + j)) ≡ false)
    → let q = start (bias_of elf) ph + k in
      Walk ops decoder (image p) p.high_bound p.low_bound q
      → q < p.high_bound
      → at s q ≡ some (decoder (word 4 (content (bias_of elf) file ph) k) q)

-- A text of less than 4 GB that may be read where its segments are mapped, with the word at its end.
pub record HasText (elf : Elf) : Type 0 where
  pub some_text : (text_of elf).0 ≤ (text_of elf).1
  pub text_small : (text_of elf).1 - (text_of elf).0 < 2 ^ 32
  pub text_mapped :
      (a : ℕ)
      → (text_of elf).0 ≤ a
      → a < (text_of elf).1 + 3
      → in_segments pf_r (bias_of elf) elf.segments a ≡ true
