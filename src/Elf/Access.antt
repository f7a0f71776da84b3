-- ===== src/Elf/Access.antt =====
-- uspike/elf_loader.c: which accesses the mapping of one segment allows.
use cavatools.Prelude.{
  ℕ, ◌+◌, ◌-◌, ◌%◌, ◌≤◌, ◌<◌, ◌≡◌, refl, ◌∙◌, ltb, arith, inl, inr, Bool-cases, ltb→lt, lt→ltb,
  Bool, true, if◌then◌else◌,
}
use cavatools.Elf.Loading.{Memory, Kernel, Phdr, mark, map_pages}
use cavatools.Elf.Pages.{pages, Inside, Outside, IsKernel, not_ltb}
use cavatools.Elf.Mapped.{pad, start, page, filed, span, IsSegment, computed, span_lem}

mark-Outside :
    (place size a : ℕ) (allowed : Bool) (f : ℕ → Bool)
    → Outside place (pages size) a
    → mark place size allowed f a ≡ f a
mark-Outside place size a allowed f (inl lt) = ground arith
mark-Outside place size a allowed f (inr le) = ground arith

mark-Inside :
    (place size a : ℕ) (allowed : Bool) (f : ℕ → Bool)
    → Inside place (pages size) a
    → mark place size allowed f a ≡ allowed
mark-Inside place size a allowed f (low, high) = ground arith

module _ (bias : ℕ) (kernel : Kernel) (file : Memory) (Usable : ℕ → ℕ → Type 0)
    (law : IsKernel kernel file Usable) (aligned : bias % 4096 ≡ 0) where
  -- The map of accesses, from the addresses that the code computes.
  map_pages_lem :
      (ph : Phdr) (rest : Bool) (f : ℕ → Bool) (a : ℕ)
      → IsSegment bias Usable ph
      → let filed_pages : ℕ → Bool = mark (page bias ph) (ph.p_filesz + pad bias ph) true f in
        map_pages bias ph rest f a ≡ (
          if ltb (filed bias ph) ph.p_memsz
          then mark (start bias ph + filed bias ph) (ph.p_memsz - filed bias ph) rest filed_pages a
          else filed_pages a)
  unfolding map_pages
  map_pages_lem ph rest f a h =
      let c = computed bias kernel file Usable law aligned ph h in
      rw (c.vaddr, c.place, c.size, c.mapped, c.behind)
        (elim (Bool-cases (ltb (filed bias ph) ph.p_memsz)) [
          | inl longer ↦ rw longer refl
          | inr shorter ↦ rw shorter refl
        ])

  -- What the pages of a segment allow, and that others are as before.
  pub map_pages-Inside :
      (ph : Phdr) (rest : Bool) (f : ℕ → Bool) (a : ℕ)
      → IsSegment bias Usable ph
      → rest ≡ true
      → Inside (start bias ph) ph.p_memsz a
      → map_pages bias ph rest f a ≡ true
  map_pages-Inside ph rest f a h allowed (low, high) =
      let filed_pages : ℕ → Bool = mark (page bias ph) (ph.p_filesz + pad bias ph) true f in
      map_pages_lem ph rest f a h ∙ elim (Bool-cases (ltb a (start bias ph + filed bias ph))) [
        | inl near ↦
            let lt : a < start bias ph + filed bias ph =
              ltb→lt a (start bias ph + filed bias ph) near in
            let there : filed_pages a ≡ true =
              mark-Inside (page bias ph) (ph.p_filesz + pad bias ph) a true f
                (omega (arith, low), omega (arith, lt, h.fits)) in
            let other =
              mark-Outside (start bias ph + filed bias ph) (ph.p_memsz - filed bias ph) a rest
                filed_pages (inl lt) in
            elim (Bool-cases (ltb (filed bias ph) ph.p_memsz)) [
              | inl longer ↦ rw longer (other ∙ there)
              | inr shorter ↦ rw shorter there
            ]
        | inr far ↦
            let le : start bias ph + filed bias ph ≤ a =
              not_ltb a (start bias ph + filed bias ph) far in
            let longer : ltb (filed bias ph) ph.p_memsz ≡ true =
              lt→ltb (filed bias ph) ph.p_memsz (omega (arith, le, high)) in
            rw longer (
              mark-Inside (start bias ph + filed bias ph) (ph.p_memsz - filed bias ph) a rest
                filed_pages (le, omega (arith, le, high))
              ∙ allowed)
      ]

  pub map_pages-Outside :
      (ph : Phdr) (rest : Bool) (f : ℕ → Bool) (a : ℕ)
      → IsSegment bias Usable ph
      → Outside (page bias ph) (span bias ph) a
      → map_pages bias ph rest f a ≡ f a
  map_pages-Outside ph rest f a h out =
      let filed_pages : ℕ → Bool = mark (page bias ph) (ph.p_filesz + pad bias ph) true f in
      let (o1, o2, o3) = span_lem bias kernel file Usable law aligned ph a h out in
      let kept : filed_pages a ≡ f a =
        mark-Outside (page bias ph) (ph.p_filesz + pad bias ph) a true f o1 in
      map_pages_lem ph rest f a h ∙ elim (Bool-cases (ltb (filed bias ph) ph.p_memsz)) [
        | inl longer ↦ rw longer (
            mark-Outside (start bias ph + filed bias ph) (ph.p_memsz - filed bias ph) a rest
              filed_pages (o3 (ltb→lt (filed bias ph) ph.p_memsz longer))
            ∙ kept)
        | inr shorter ↦ rw shorter kept
      ]
