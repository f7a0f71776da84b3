-- ===== src/Elf/Loading.antt =====
-- uspike/elf_loader.c: `load_elf_binary` behind its checks of the file: the segments are mapped, from the
-- last to the first, the sections .bss and .sbss are filled with zeros, and the stack is mapped. The
-- memory is that of the process; mmap is the kernel's.
use cavatools.Prelude.{
  ℕ, zero, suc, ◌||◌, ◌+◌, ◌-◌, ◌*◌, ◌/◌, ◌%◌, Bool, true, not, ◌&&◌, Option, none, some, ◌>>=◌,
  List, [], ◌∷◌, length, map, ltb, leb, ◌==◌, if◌then◌else◌, bit_or,
}
use cavatools.Prelude.Words.{long_mod, long_sign}
use cavatools.Options.{same_text}
use cavatools.Elf.{Section, get_prot, find_text}

abbrev pub Memory : Type 0
Memory = ℕ → ℕ

-- mmap at a fixed place, of the file at an offset, or anonymous, with the place, the length and the
-- protection first; `none` where it does not give that place.
pub record Kernel : Type 0 where
  pub map_file : ℕ → ℕ → ℕ → ℕ → Memory → Option Memory
  pub map_zeros : ℕ → ℕ → ℕ → Memory → Option Memory
  pub map_stack : ℕ → ℕ → Memory → Option Memory

-- A program header.
pub record Phdr : Type 0 where
  pub p_type : ℕ
  pub p_flags : ℕ
  pub p_offset : ℕ
  pub p_vaddr : ℕ
  pub p_filesz : ℕ
  pub p_memsz : ℕ

-- A section header with its name.
pub record Named : Type 0 where
  pub name : List ℕ
  pub header : Section

-- The program break and the memory, with the addresses that may be read and those that may be written.
pub record Image : Type 0 where
  pub brk_min : ℕ
  pub brk_max : ℕ
  pub memory : Memory
  pub readable : ℕ → Bool
  pub writable : ℕ → Bool

-- `ROUNDUP(a, RISCV_PGSIZE)`, which wraps at 0.
unfoldable pub round_up : ℕ → ℕ
round_up a = ((a + long_mod - 1) % long_mod / 4096 + 1) * 4096 % long_mod

-- `memset(place, 0, size)`
unfoldable pub put_zeros : ℕ → ℕ → Memory → Memory
put_zeros place size m a = if leb place a && ltb a (place + size) then 0 else m a

abbrev pub sub_size : ℕ → ℕ → ℕ
sub_size a b = (a + long_mod - b) % long_mod

abbrev pub is_load : Phdr → Bool
is_load ph = (ph.p_type == 1) && not (ph.p_memsz == 0)

-- The segment's three regions: its file, the bytes in front of it, and what is left behind its pages.
unfoldable pub map_segment : Kernel → ℕ → Phdr → Memory → Option Memory
unfolding round_up put_zeros get_prot
map_segment kernel bias ph m = do
  let prepad = ph.p_vaddr % 4096
  let vaddr = (ph.p_vaddr + bias) % long_mod
  let place = sub_size vaddr prepad
  let prot = get_prot ph.p_flags
  let mapped = sub_size (round_up ((ph.p_filesz + prepad) % long_mod)) prepad
  filled ←
      kernel.map_file place ((ph.p_filesz + prepad) % long_mod) (bit_or prot 2)
        (sub_size ph.p_offset prepad) m
  let m' : Memory = put_zeros place prepad filled
  if ltb mapped ph.p_memsz
      then kernel.map_zeros ((vaddr + mapped) % long_mod) (ph.p_memsz - mapped) prot m'
      else some m'

abbrev pub mark : ℕ → ℕ → Bool → (ℕ → Bool) → ℕ → Bool
mark place size allowed f a =
    if leb place a && ltb a (place + (size + 4095) / 4096 * 4096) then allowed else f a

-- An access to the pages that the two calls of mmap map: the pages of the file have PROT_WRITE in any
-- case, the others only `rest`.
unfoldable pub map_pages : ℕ → Phdr → Bool → (ℕ → Bool) → ℕ → Bool
unfolding round_up
map_pages bias ph rest f =
    let prepad = ph.p_vaddr % 4096 in
    let vaddr = (ph.p_vaddr + bias) % long_mod in
    let size = (ph.p_filesz + prepad) % long_mod in
    let mapped = sub_size (round_up size) prepad in
    let filed : ℕ → Bool = mark (sub_size vaddr prepad) size true f in
    if ltb mapped ph.p_memsz
    then mark ((vaddr + mapped) % long_mod) (ph.p_memsz - mapped) rest filed
    else filed

-- PF_R and PF_W.
abbrev pub pf_r : Phdr → Bool
pf_r ph = ph.p_flags / 4 % 2 == 1

abbrev pub pf_w : Phdr → Bool
pf_w ph = ph.p_flags / 2 % 2 == 1

-- One round of the loop; a program with an interpreter is refused.
unfoldable pub load_segment : Kernel → ℕ → Phdr → Image → Option Image
unfolding map_segment map_pages
load_segment kernel bias ph s =
    let end = ((ph.p_vaddr + bias) % long_mod + ph.p_memsz) % long_mod in
    let brk = if is_load ph && ltb s.brk_min end then end else s.brk_min in
    if ph.p_type == 3 then none else do
      m ← if is_load ph then map_segment kernel bias ph s.memory else some s.memory
      some (record {
        brk_min = brk;
        brk_max = (brk + 16777216) % long_mod;
        memory = m;
        readable = if is_load ph then map_pages bias ph (pf_r ph) s.readable else s.readable;
        writable = if is_load ph then map_pages bias ph (pf_w ph) s.writable else s.writable;
      })

unfoldable pub load_segments : Kernel → ℕ → List Phdr → Image → Option Image
unfolding load_segment
load_segments kernel bias [] s = some s
load_segments kernel bias (ph ∷ phs) s = do
  s' ← load_segments kernel bias phs s
  load_segment kernel bias ph s'

-- Whether a section is .bss or .sbss.
abbrev pub is_bss : Named → Bool
is_bss s =
    if same_text (46 ∷ 98 ∷ 115 ∷ 115 ∷ []) s.name
    then true
    else same_text (46 ∷ 115 ∷ 98 ∷ 115 ∷ 115 ∷ []) s.name

-- Whether an access to some bytes is allowed.
unfoldable pub all_allowed : ℕ → ℕ → (ℕ → Bool) → Bool
all_allowed place zero f = true
all_allowed place (suc n) f = f place && all_allowed (place + 1) n f

-- Zeros for .bss and .sbss; a SEGV where they may not be written.
unfoldable pub clear_bss : List Named → (ℕ → Bool) → Memory → Option Memory
unfolding put_zeros same_text all_allowed
clear_bss [] f m = some m
clear_bss (s ∷ sections) f m =
    if is_bss s && not (all_allowed s.header.sh_addr s.header.sh_size f)
    then none
    else clear_bss sections f
        (if is_bss s then put_zeros s.header.sh_addr s.header.sh_size m else m)

-- The file, as far as the loader reads its headers; `tables` is whether `load_elf_section` can read the
-- names of the sections, .strtab and .symtab.
pub record Elf : Type 0 where
  pub file_size : ℕ
  pub e_phoff : ℕ
  pub e_shoff : ℕ
  pub tables : Bool
  pub e_ident : List ℕ
  pub e_type : ℕ
  pub e_entry : ℕ
  pub segments : List Phdr
  pub sections : List Named

-- What the loader leaves in `current` and in the two bounds.
pub record Process : Type 0 where
  pub entry : ℕ
  pub phnum : ℕ
  pub stack_top : ℕ
  pub low_bound : ℕ
  pub high_bound : ℕ
  pub image : Image

-- Whether lseek to an offset or the read of some bytes there fails.
unfoldable pub unread : ℕ → ℕ → ℕ → Bool
unread file_size offset bytes =
    leb long_sign offset || (not (bytes == 0) && ltb file_size (offset + bytes))

-- ET_DYN is 3; a program header has 56 bytes, and there is room for 1024. The first read of the program
-- headers is at the offset of the section headers.
unfoldable pub load_elf_binary : Kernel → Elf → Image → Option Process
unfolding load_segments clear_bss find_text same_text unread
load_elf_binary kernel elf current =
    let bias = if elf.e_type == 3 then 4096 else 0 in
    if not (same_text (127 ∷ 69 ∷ 76 ∷ 70 ∷ []) elf.e_ident)
    then none
    else if ltb 1024 (length elf.segments * 56)
    then none
    else if unread elf.file_size elf.e_shoff (length elf.segments * 56)
    then none
    else if unread elf.file_size elf.e_phoff (length elf.segments * 56)
    then none
    else do
      s ← load_segments kernel bias elf.segments current
      cleared ← if elf.tables then clear_bss elf.sections s.writable s.memory else none
      m ← kernel.map_stack (1610612736 - 16777216) 16777216 cleared
      let bounds = find_text (map (λ n. n.header) elf.sections)
      some (record {
        entry = (elf.e_entry + bias) % long_mod;
        phnum = length elf.segments;
        stack_top = 1610612736;
        low_bound = bounds.0;
        high_bound = bounds.1;
        image = record s {
          memory = m;
          readable = mark (1610612736 - 16777216) 16777216 true s.readable;
          writable = mark (1610612736 - 16777216) 16777216 true s.writable;
        };
      })
