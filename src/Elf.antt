-- ===== src/Elf.antt =====
-- uspike/elf_loader.c: what the loader computes from the headers, symbol lookup, and the initial stack
-- of the program; Elf/Loading has the mapping of the file. Addresses are unsigned 64-bit numbers; the
-- constants of elf.h and mman.h are those of Linux.
pub mod Layout
pub mod Loading
pub mod Pages
pub mod Mapped
pub mod Access
pub mod Segments
pub mod Process
pub mod Decoded
use cavatools.Prelude.{
  is_prefix, ℕ, zero, suc, ◌+◌, ◌-◌, ◌*◌, ◌/◌, ◌%◌, ◌^◌, Bool, true, false, ◌&&◌, Option, none,
  some, List, [], ◌∷◌, ◌++◌, length, take, ltb, leb, ◌==◌, if◌then◌else◌, bit_or,
}
use cavatools.Prelude.Words.{long_mod}

-- `get_prot`: PF_X, PF_W, PF_R are bits 0 to 2, and PROT_EXEC, PROT_WRITE, PROT_READ are 4, 2, 1.
unfoldable pub get_prot : ℕ → ℕ
get_prot p_flags =
    let prot_x = if p_flags % 2 == 1 then 4 else 0 in
    let prot_w = if p_flags / 2 % 2 == 1 then 2 else 0 in
    let prot_r = if p_flags / 4 % 2 == 1 then 1 else 0 in bit_or (bit_or prot_x prot_w) prot_r

-- A section header, with the test of SHF_EXECINSTR.
pub record Section : Type 0 where
  pub sh_addr : ℕ
  pub sh_size : ℕ
  pub executable : Bool

-- The bounds of the instructions, from the bounds so far.
unfoldable pub text_bounds : List Section → ℕ → ℕ → ℕ × ℕ
text_bounds [] low high = (low, high)
text_bounds (s ∷ sections) low high =
    let end = (s.sh_addr + s.sh_size) % long_mod in
    let low' = if s.executable && ltb s.sh_addr low then s.sh_addr else low in
    let high' = if s.executable && ltb high end then end else high in
    text_bounds sections low' high'

unfoldable pub find_text : List Section → ℕ × ℕ
unfolding text_bounds
find_text sections = text_bounds sections (long_mod - 1) 0

-- A symbol, with its name from the string table.
pub record Symbol : Type 0 where
  pub st_name : List ℕ
  pub st_value : ℕ
  pub st_size : ℕ

-- `elf_find_symbol`: the first symbol whose name starts with the name.
unfoldable pub elf_find_symbol : List Symbol → List ℕ → Option (ℕ × ℕ)
unfolding is_prefix
elf_find_symbol [] name = none
elf_find_symbol (s ∷ symtbl) name =
    let rest = elf_find_symbol symtbl name in
    if is_prefix name s.st_name
    then some (s.st_value, (s.st_value + s.st_size) % long_mod)
    else rest

-- `elf_find_pc`: the name of the first symbol that covers the address, and the offset in it.
unfoldable pub elf_find_pc : List Symbol → ℕ → Option (List ℕ × ℕ)
elf_find_pc [] pc = none
elf_find_pc (s ∷ symtbl) pc =
    let rest = elf_find_pc symtbl pc in
    if leb s.st_value pc && ltb pc ((s.st_value + s.st_size) % long_mod)
    then some (s.st_name, pc - s.st_value)
    else rest

-- What `initialize_stack` reads of `current`.
pub record Pinfo : Type 0 where
  pub phdr : List ℕ
  pub phent : ℕ
  pub phnum : ℕ
  pub entry : ℕ
  pub stack_top : ℕ

-- The copies of strings below a top, each with its `\0`: the new top, and the addresses in order.
unfoldable pub copy_strings : ℕ → List (List ℕ) → ℕ × List ℕ
copy_strings top [] = (top, [])
copy_strings top (arg ∷ args) =
    let top' = top - (length arg + 1) in
    let (rest, addrs) = copy_strings top' args in (rest, top' ∷ addrs)

-- The two words that are pushed for an entry of the auxiliary vector, if any.
unfoldable pub aux_words : Pinfo → ℕ → ℕ → ℕ → ℕ → List ℕ
aux_words info phdr top key value =
    if key == 6
    then key ∷ 4096 ∷ []
    else if key == 3
    then key ∷ phdr ∷ []
    else if key == 4
    then key ∷ info.phent ∷ []
    else if key == 5
    then key ∷ info.phnum ∷ []
    else if key == 9
    then key ∷ info.entry ∷ []
    else if key == 23
    then key ∷ 0 ∷ []
    else if key == 25
    then key ∷ top ∷ []
    else []

unfoldable pub push_aux : Pinfo → ℕ → ℕ → List (ℕ × ℕ) → List ℕ
unfolding aux_words
push_aux info phdr top [] = []
push_aux info phdr top ((key, value) ∷ auxv) =
    aux_words info phdr top key value ++ push_aux info phdr top auxv

-- The initial stack: its top, the words from there on, and the lowest of the copies above them.
pub record Stack : Type 0 where
  pub top : ℕ
  pub words : List ℕ
  pub copies : ℕ

-- `initialize_stack`; `auxv` ends with its AT_NULL. The stack is large enough for what is placed.
unfoldable pub initialize_stack : Pinfo → List (List ℕ) → List (List ℕ) → List (ℕ × ℕ) → Stack
unfolding copy_strings push_aux
initialize_stack info argv envp auxv =
    let phdr = info.stack_top - length info.phdr in
    let (top1, args) = copy_strings phdr argv in
    let (top2, envs) = copy_strings top1 envp in
    let auxc = length auxv in
    let top3 = top2 - auxc * 16 in
    let top4 = top3 - top3 % 8 in
    let top5 = top4 - (1 + length argv + 1 + length envp + 1 + 2 * auxc) * 8 in
    let top = top5 - top5 % 16 in
    record {
      top = top;
      words = length argv ∷ (args ++ (0 ∷ (envs ++ (0 ∷ push_aux info phdr top auxv))));
      copies = top2;
    }
