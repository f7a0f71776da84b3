-- ===== src/Elf/Layout.antt =====
-- The bounds of the text, and the places on the initial stack.
use cavatools.Prelude.{
  ℕ, suc, ◌+◌, ◌-◌, ◌*◌, ◌%◌, ◌<◌, ◌≤◌, ◌≡◌, refl, ap, true, ◌&&◌, List, [], ◌∷◌, ◌++◌, length,
  length-append, All, ltb, if◌then◌else◌, arith,
}
use cavatools.Prelude.Words.{long_mod}
use cavatools.Elf.{
  Section, text_bounds, find_text, Pinfo, copy_strings, aux_words, push_aux, initialize_stack,
}

-- The section's instructions lie between the bounds.
abbrev pub Covers : ℕ → ℕ → Section → Type 0
Covers low high s =
    s.executable ≡ true
    → s.sh_addr + s.sh_size < long_mod
    → (low ≤ s.sh_addr) × (s.sh_addr + s.sh_size ≤ high)

text_bounds-grows :
    (sections : List Section) (low high : ℕ)
    → ((text_bounds sections low high).0 ≤ low) × (high ≤ (text_bounds sections low high).1)
unfolding text_bounds
text_bounds-grows [] low high = (omega arith, omega arith)
text_bounds-grows (s ∷ sections) low high =
    let end = (s.sh_addr + s.sh_size) % long_mod in
    let low' = if s.executable && ltb s.sh_addr low then s.sh_addr else low in
    let high' = if s.executable && ltb high end then end else high in
    let (l, h) = text_bounds-grows sections low' high' in
    let l' : low' ≤ low = ground arith in
    let h' : high ≤ high' = ground arith in (omega (arith, l, l'), omega (arith, h, h'))

text_bounds-Covers :
    (sections : List Section) (low high : ℕ)
    → All (Covers (text_bounds sections low high).0 (text_bounds sections low high).1) sections
unfolding text_bounds
text_bounds-Covers [] low high = tt
text_bounds-Covers (s ∷ sections) low high =
    let end = (s.sh_addr + s.sh_size) % long_mod in
    let low' = if s.executable && ltb s.sh_addr low then s.sh_addr else low in
    let high' = if s.executable && ltb high end then end else high in
    let (l, h) = text_bounds-grows sections low' high' in
    (
      λ executable fits.
          let l' : low' ≤ s.sh_addr = ground (arith, executable) in
          let h' : s.sh_addr + s.sh_size ≤ high' = ground (arith, executable, fits) in
          (omega (arith, l, l'), omega (arith, h, h')),
      text_bounds-Covers sections low' high',
    )

-- Every executable section that ends within the address space lies between the bounds that the
-- loader finds.
pub find_text-Covers :
    (sections : List Section) → All (Covers (find_text sections).0 (find_text sections).1) sections
unfolding find_text
find_text-Covers sections = text_bounds-Covers sections (long_mod - 1) 0

length-copies : (top : ℕ) (args : List (List ℕ)) → length (copy_strings top args).1 ≡ length args
unfolding copy_strings
length-copies top [] = refl
length-copies top (arg ∷ args) = ap suc (length-copies (top - (length arg + 1)) args)

length-aux_words :
    (info : Pinfo) (phdr top key value : ℕ) → length (aux_words info phdr top key value) ≤ 2
unfolding aux_words
length-aux_words info phdr top key value = ground arith

length-push_aux :
    (info : Pinfo) (phdr top : ℕ) (auxv : List (ℕ × ℕ))
    → length (push_aux info phdr top auxv) ≤ 2 * length auxv
unfolding push_aux
length-push_aux info phdr top [] = omega arith
length-push_aux info phdr top ((key, value) ∷ auxv) = omega (
  arith,
  length-append (aux_words info phdr top key value) (push_aux info phdr top auxv),
  length-aux_words info phdr top key value,
  length-push_aux info phdr top auxv,
)

-- If the address space below the copied strings has room for the words and their alignment, the
-- stack pointer is a multiple of 16, and the words from it on lie below the copies.
pub initialize_stack-fits :
    (info : Pinfo) (argv envp : List (List ℕ)) (auxv : List (ℕ × ℕ))
    → let stack = initialize_stack info argv envp auxv in
      8 * (length argv + length envp + 4 * length auxv) + 48 ≤ stack.copies
      → (stack.top % 16 ≡ 0) × (stack.top + 8 * length stack.words ≤ stack.copies)
unfolding initialize_stack
initialize_stack-fits info argv envp auxv room =
    let stack = initialize_stack info argv envp auxv in
    let phdr = info.stack_top - length info.phdr in
    let first = copy_strings phdr argv in
    let second = copy_strings first.0 envp in
    let aux = push_aux info phdr stack.top auxv in
    (
      omega arith,
      omega (
        arith,
        room,
        length-append first.1 (0 ∷ (second.1 ++ (0 ∷ aux))),
        length-append second.1 (0 ∷ aux),
        length-copies phdr argv,
        length-copies first.0 envp,
        length-push_aux info phdr stack.top auxv,
      ),
    )
