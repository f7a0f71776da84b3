-- ===== src/Elf/Process.antt =====
-- uspike/elf_loader.c: the process that `load_elf_binary` prepares.
use cavatools.Prelude.{
  All, zero, suc, ℕ, ◌+◌, ◌*◌, ◌^◌, ◌≤◌, ◌<◌, ◌≡◌, refl, Bool, true, false, ◌&&◌, List, [], ◌∷◌,
  length, map, ltb, leb, ◌==◌, if◌then◌else◌, arith, inl, inr, Bool-cases,
}
use cavatools.Elf.{find_text}
use cavatools.Elf.Loading.{
  Memory, Kernel, Phdr, Named, Elf, Process, is_load, pf_r, pf_w, all_allowed, is_bss,
}
use cavatools.Elf.Pages.{Inside}
use cavatools.Elf.Mapped.{start, filed}
use cavatools.Elf.Segments.{Loadable, Allows}

-- Whether an address is in one of the sections .bss and .sbss.
abbrev pub in_bss : List Named → ℕ → Bool
in_bss [] a = false
in_bss (s ∷ sections) a =
    if is_bss s && (leb s.header.sh_addr a && ltb a (s.header.sh_addr + s.header.sh_size))
    then true
    else in_bss sections a

-- Whether an address is in a loaded segment with some flag.
abbrev pub in_segments : (Phdr → Bool) → ℕ → List Phdr → ℕ → Bool
in_segments flag bias [] a = false
in_segments flag bias (ph ∷ phs) a =
    if (is_load ph && flag ph) && (leb (start bias ph) a && ltb a (start bias ph + ph.p_memsz))
    then true
    else in_segments flag bias phs a

pub in_segments-Allows :
    (flag : Phdr → Bool) (bias : ℕ) (phs : List Phdr) (f : ℕ → Bool) (a : ℕ)
    → All
        (λ ph.
          is_load ph ≡ true
          → flag ph ≡ true
          → (b : ℕ) → Inside (start bias ph) ph.p_memsz b
          → f b ≡ true)
        phs
    → in_segments flag bias phs a ≡ true
    → f a ≡ true
in_segments-Allows flag bias [] f a all e = ground (arith, e)
in_segments-Allows flag bias (ph ∷ phs) f a (this, all) e =
    elim (Bool-cases
      ((is_load ph && flag ph) && (leb (start bias ph) a && ltb a (start bias ph + ph.p_memsz)))) [
        | inl here ↦
            this (ground (arith, here)) (ground (arith, here)) a
              (ground (arith, here), ground (arith, here))
        | inr other ↦ in_segments-Allows flag bias phs f a all (ground (arith, e, other))
      ]

pub all_allowed_lem :
    (place n : ℕ) (f : ℕ → Bool)
    → ((a : ℕ) → Inside place n a → f a ≡ true)
    → all_allowed place n f ≡ true
unfolding all_allowed
all_allowed_lem place zero f all = refl
all_allowed_lem place (suc n) f all =
    let rest =
      all_allowed_lem (place + 1) n f
        (λ a (low, high). all a (omega (arith, low), omega (arith, high))) in
    rw (all place (omega arith, omega arith), rest) refl

-- The bytes of a segment: what the file has in the pages that are taken from it, and zeros.
abbrev pub content : ℕ → Memory → Phdr → ℕ → ℕ
content bias file ph k = if ltb k (filed bias ph) then file (ph.p_offset + k) else 0

abbrev pub stack_base : ℕ
stack_base = 1593835520

abbrev pub stack_size : ℕ
stack_size = 16777216

abbrev pub bias_of : Elf → ℕ
bias_of elf = if elf.e_type == 3 then 4096 else 0

abbrev pub text_of : Elf → ℕ × ℕ
text_of elf = find_text (map (λ n. n.header) elf.sections)

module _ (kernel : Kernel) (file : Memory) (Usable : ℕ → ℕ → Type 0) where
  -- A program whose headers fit and lie in the file, whose segments are loadable below the stack, whose
  -- sections .bss and .sbss lie in writable segments as they are mapped, and whose stack is usable.
  pub record IsElf (elf : Elf) : Type 0 where
    pub magic : elf.e_ident ≡ 127 ∷ 69 ∷ 76 ∷ 70 ∷ []
    pub headers : length elf.segments * 56 ≤ 1024
    pub file_small : elf.file_size < 2 ^ 63
    pub first_read : elf.e_shoff + length elf.segments * 56 ≤ elf.file_size
    pub second_read : elf.e_phoff + length elf.segments * 56 ≤ elf.file_size
    pub tables : elf.tables ≡ true
    pub bss_mapped :
        (a : ℕ)
        → in_bss elf.sections a ≡ true
        → in_segments pf_w (bias_of elf) elf.segments a ≡ true
    pub loadable : Loadable (bias_of elf) kernel file Usable elf.segments
    pub below :
        All
          (λ ph. is_load ph ≡ true → start (bias_of elf) ph + ph.p_memsz ≤ stack_base)
          elf.segments
    pub stack : Usable stack_base stack_size

  -- A loaded segment of the process: each byte is that of the segment, or 0 in a section .bss or .sbss, and
  -- the break is not below its end.
  abbrev pub InProcess : Elf → Process → Phdr → Type 0
  InProcess elf p ph =
      is_load ph ≡ true
      → ((k : ℕ)
          → k < ph.p_memsz
          → p.image.memory (start (bias_of elf) ph + k) ≡ (
              if in_bss elf.sections (start (bias_of elf) ph + k)
              then 0
              else content (bias_of elf) file ph k))
        × (pf_r ph ≡ true → Allows (bias_of elf) kernel file Usable p.image.readable ph)
        × (start (bias_of elf) ph + ph.p_memsz ≤ p.image.brk_min)
