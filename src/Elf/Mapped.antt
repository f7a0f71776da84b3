-- ===== src/Elf/Mapped.antt =====
-- uspike/elf_loader.c: what the mapping of one segment leaves in memory.
use cavatools.Prelude.{
  ℕ, ◌+◌, ◌-◌, ◌%◌, ◌^◌, ◌≤◌, ◌<◌, ◌≡◌, refl, ap, ◌∙◌, some, ltb, bit_or, arith, inl, inr,
  Bool-cases, ltb→lt,
}
use cavatools.Prelude.Words.{long_mod}
use cavatools.Elf.{get_prot}
use cavatools.Elf.Loading.{Memory, Kernel, Phdr, round_up, put_zeros, sub_size, map_segment}
use cavatools.Elf.Pages.{
  pages, round_up-pages, Inside, Outside, IsKernel, not_ltb, put_zeros-Inside, put_zeros-Outside,
}

module _ (bias : ℕ) where
  -- The first page of a segment, and the distance of its first byte from there.
  abbrev pub pad : Phdr → ℕ
  pad ph = ph.p_vaddr % 4096

  abbrev pub start : Phdr → ℕ
  start ph = ph.p_vaddr + bias

  abbrev pub page : Phdr → ℕ
  page ph = start ph - pad ph

  -- What the pages with the segment's file hold of it.
  abbrev pub filed : Phdr → ℕ
  filed ph = pages (ph.p_filesz + pad ph) - pad ph

  -- A segment of a file whose offset is congruent to its address, with at least a byte to be mapped, at
  -- pages that the program may use.
  pub record IsSegment (Usable : ℕ → ℕ → Type 0) (ph : Phdr) : Type 0 where
    pub fits : start ph + ph.p_memsz + 8192 < 2 ^ 64
    pub whole : ph.p_filesz ≤ ph.p_memsz
    pub congruent : ph.p_offset % 4096 ≡ pad ph
    pub from_file : ph.p_offset < 2 ^ 64
    pub nonempty : 0 < ph.p_filesz + pad ph
    pub usable : Usable (page ph) (ph.p_filesz + pad ph)
    pub usable_rest : filed ph < ph.p_memsz → Usable (start ph + filed ph) (ph.p_memsz - filed ph)

  -- The memory holds the segment: zeros before it, the file, and zeros behind the pages of the file.
  pub record Holds (file : Memory) (ph : Phdr) (m : Memory) : Type 0 where
    pub before : (a : ℕ) → Inside (page ph) (pad ph) a → m a ≡ 0
    pub content : (k : ℕ) → k < filed ph → m (start ph + k) ≡ file (ph.p_offset + k)
    pub rest : (k : ℕ) → filed ph ≤ k → k < ph.p_memsz → m (start ph + k) ≡ 0

  abbrev pub span : Phdr → ℕ
  span ph = pages (ph.p_memsz + pad ph)

  module _ (kernel : Kernel) (file : Memory) (Usable : ℕ → ℕ → Type 0)
      (law : IsKernel kernel file Usable) (aligned : bias % 4096 ≡ 0) where
    -- The addresses that the code computes.
    pub record Computed (ph : Phdr) : Type 0 where
      pub vaddr : (ph.p_vaddr + bias) % long_mod ≡ start ph
      pub place : sub_size (start ph) (pad ph) ≡ page ph
      pub size : (ph.p_filesz + pad ph) % long_mod ≡ ph.p_filesz + pad ph
      pub mapped : sub_size (round_up (ph.p_filesz + pad ph)) (pad ph) ≡ filed ph
      pub offset : sub_size ph.p_offset (pad ph) ≡ ph.p_offset - pad ph
      pub behind : (start ph + filed ph) % long_mod ≡ start ph + filed ph

    pub computed : (ph : Phdr) → IsSegment Usable ph → Computed ph
    computed ph h =
        let rounded : round_up (ph.p_filesz + pad ph) ≡ pages (ph.p_filesz + pad ph) =
          round_up-pages (ph.p_filesz + pad ph) h.nonempty (omega (arith, h.fits, h.whole)) in
        record {
          vaddr = omega (arith, h.fits);
          place = omega (arith, h.fits);
          size = omega (arith, h.fits, h.whole);
          mapped = rw rounded (omega (arith, h.fits, h.whole, h.nonempty));
          offset = omega (arith, h.congruent, h.from_file);
          behind = omega (arith, h.fits, h.whole);
        }

    -- After the file and the zeros before it have been mapped.
    filled-Holds :
        (ph : Phdr) (m m1 : Memory)
        → IsSegment Usable ph
        → ((a : ℕ)
            → Inside (page ph) (pages (ph.p_filesz + pad ph)) a
            → m1 a ≡ file (ph.p_offset - pad ph + (a - page ph)))
        → (k : ℕ) → k < filed ph
        → put_zeros (page ph) (pad ph) m1 (start ph + k) ≡ file (ph.p_offset + k)
    filled-Holds ph m m1 h there k lt =
        put_zeros-Outside (page ph) (pad ph) (start ph + k) m1 (inr (omega (arith, h.fits)))
        ∙ there (start ph + k) (omega (arith, h.fits), omega (arith, h.fits, lt))
        ∙ ap file (omega (arith, h.fits, h.congruent))

    no_rest : (ph : Phdr) (k : ℕ) → filed ph ≤ k → k < ph.p_memsz → ph.p_memsz ≤ filed ph → ⊥
    no_rest ph k low high all = omega (arith, low, high, all)

    behind_page : (ph : Phdr) → (start ph + filed ph) % 4096 ≡ 0
    behind_page ph = omega (arith, aligned)

    -- What is behind the pages of the file, when a segment has zeros there, and when it ends before.
    zeroed-Holds :
        (ph : Phdr) (m m1 m3 : Memory)
        → IsSegment Usable ph
        → filed ph < ph.p_memsz
        → ((a : ℕ)
            → Inside (page ph) (pages (ph.p_filesz + pad ph)) a
            → m1 a ≡ file (ph.p_offset - pad ph + (a - page ph)))
        → ((a : ℕ) → Inside (start ph + filed ph) (pages (ph.p_memsz - filed ph)) a → m3 a ≡ 0)
        → ((a : ℕ)
            → Outside (start ph + filed ph) (pages (ph.p_memsz - filed ph)) a
            → m3 a ≡ put_zeros (page ph) (pad ph) m1 a)
        → Holds file ph m3
    zeroed-Holds ph m m1 m3 h more there1 there3 kept3 = record {
      before = λ a (low, high).
          kept3 a (inl (omega (arith, h.fits, low, high)))
          ∙ put_zeros-Inside (page ph) (pad ph) a m1 (low, high);
      content = λ k lt.
          kept3 (start ph + k) (inl (omega (arith, lt))) ∙ filled-Holds ph m m1 h there1 k lt;
      rest = λ k low high. there3 (start ph + k) (omega (arith, low), omega (arith, low, high));
    }

    short-Holds :
        (ph : Phdr) (m m1 : Memory)
        → IsSegment Usable ph
        → ph.p_memsz ≤ filed ph
        → ((a : ℕ)
            → Inside (page ph) (pages (ph.p_filesz + pad ph)) a
            → m1 a ≡ file (ph.p_offset - pad ph + (a - page ph)))
        → Holds file ph (put_zeros (page ph) (pad ph) m1)
    short-Holds ph m m1 h all there1 = record {
      before = λ a inside. put_zeros-Inside (page ph) (pad ph) a m1 inside;
      content = filled-Holds ph m m1 h there1;
      rest = λ k low high. elim (no_rest ph k low high all) [ ];
    }

    -- Both calls stay in the pages of the segment.
    pub span_lem :
        (ph : Phdr) (a : ℕ)
        → IsSegment Usable ph
        → Outside (page ph) (span ph) a
        → Outside (page ph) (pages (ph.p_filesz + pad ph)) a
          × Outside (page ph) (pad ph) a
          × (filed ph < ph.p_memsz
              → Outside (start ph + filed ph) (pages (ph.p_memsz - filed ph)) a)
    span_lem ph a h (inl lt) = (inl lt, inl lt, λ more. inl (omega (arith, lt)))
    span_lem ph a h (inr le) = (
      inr (omega (arith, le, h.whole)),
      inr (omega (arith, le, h.whole)),
      λ more. inr (omega (arith, le, h.whole, h.fits, more)),
    )

    pub map_segment-Holds :
        (ph : Phdr) (m : Memory)
        → IsSegment Usable ph
        → (m' : Memory) × (map_segment kernel bias ph m ≡ some m')
          × Holds file ph m'
          × ((a : ℕ) → Outside (page ph) (span ph) a → m' a ≡ m a)
    unfolding map_segment
    map_segment-Holds ph m h =
        let c = computed ph h in
        let prot = bit_or (get_prot ph.p_flags) 2 in
        let (m1, gives1, there1, kept1) =
          law.maps_file (page ph) (ph.p_filesz + pad ph) prot (ph.p_offset - pad ph) m
            (omega (arith, aligned, h.fits)) (omega (arith, h.congruent)) h.nonempty h.usable in
        let m2 : Memory = put_zeros (page ph) (pad ph) m1 in
        let kept2 : (a : ℕ) → Outside (page ph) (span ph) a → m2 a ≡ m a = λ a out.
          let (o1, o2, o3) = span_lem ph a h out in
          put_zeros-Outside (page ph) (pad ph) a m1 o2 ∙ kept1 a o1 in
        rw (c.vaddr, c.place, c.size, c.mapped, c.offset, c.behind, gives1)
          (elim (Bool-cases (ltb (filed ph) ph.p_memsz)) [
            | inl longer ↦
                let more = ltb→lt (filed ph) ph.p_memsz longer in
                let (m3, gives3, there3, kept3) =
                  law.maps_zeros (start ph + filed ph) (ph.p_memsz - filed ph) (get_prot ph.p_flags)
                    m2 (behind_page ph) (omega (arith, more)) (h.usable_rest more) in
                (
                  m3,
                  rw (longer, gives3) refl,
                  zeroed-Holds ph m m1 m3 h more there1 there3 kept3,
                  λ a out.
                      let (o1, o2, o3) = span_lem ph a h out in kept3 a (o3 more) ∙ kept2 a out,
                )
            | inr shorter ↦ (
              m2,
              rw shorter refl,
              short-Holds ph m m1 h (not_ltb (filed ph) ph.p_memsz shorter) there1,
              kept2,
            )
          ])
