-- ===== src/Tests/Processes.antt =====
-- A program of two segments that is loaded into memory.
use cavatools.Prelude.{
  ℕ, ◌+◌, ◌-◌, ◌%◌, ◌≡◌, refl, true, false, ◌&&◌, some, [], ◌∷◌, map, ltb, leb, if◌then◌else◌,
}
use cavatools.Elf.{find_text}
use cavatools.Elf.Loading.{Memory, Kernel, Phdr, Named, Image, Elf, Process, put_zeros}
use cavatools.Elf.Pages.{pages}
use cavatools.Elf.Process.{content}

abbrev file : Memory
file k = (k + 1) % 251

abbrev put_file : ℕ → ℕ → ℕ → Memory → Memory
put_file place size offset m a =
    if leb place a && ltb a (place + size) then file (offset + (a - place)) else m a

abbrev kernel : Kernel
kernel = record {
  map_file = λ place size prot offset m. some (put_file place (pages size) offset m);
  map_zeros = λ place size prot m. some (put_zeros place (pages size) m);
  map_stack = λ place size m. some (put_zeros place size m);
}

abbrev code : Phdr
code = record {
  p_type = 1;
  p_flags = 5;
  p_offset = 0;
  p_vaddr = 65536;
  p_filesz = 120;
  p_memsz = 120;
}

-- 50 bytes of the file near the end of a page, and zeros for two pages more.
abbrev data_bss : Phdr
data_bss = record {
  p_type = 1;
  p_flags = 6;
  p_offset = 8096;
  p_vaddr = 77728;
  p_filesz = 50;
  p_memsz = 9000;
}

abbrev bss : Named
bss = record {
  name = 46 ∷ 98 ∷ 115 ∷ 115 ∷ [];
  header = record { sh_addr = 77778; sh_size = 8950; executable = false };
}

abbrev text : Named
text = record {
  name = 46 ∷ 116 ∷ 101 ∷ 120 ∷ 116 ∷ [];
  header = record { sh_addr = 65536; sh_size = 100; executable = true };
}

abbrev elf : Elf
elf = record {
  file_size = 20000;
  e_phoff = 64;
  e_shoff = 12000;
  tables = true;
  e_ident = 127 ∷ 69 ∷ 76 ∷ 70 ∷ [];
  e_type = 2;
  e_entry = 65536;
  segments = code ∷ data_bss ∷ [];
  sections = text ∷ bss ∷ [];
}

abbrev nothing : Image
nothing = record {
  brk_min = 0;
  brk_max = 0;
  memory = λ a. 7;
  readable = λ a. false;
  writable = λ a. false;
}

-- Behind the 50 bytes of the file, the page has the bytes of the file that follow.
follows_test : content 0 file data_bss 60 ≡ 125
follows_test = refl

-- The bounds of its text.
text_test : find_text (map (λ n. n.header) elf.sections) ≡ (65536, 65636)
unfolding find_text
text_test = refl
