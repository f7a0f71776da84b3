-- ===== src/Elf/Segments.antt =====
-- uspike/elf_loader.c: the loop over the segments.
use cavatools.Prelude.{
  All, ℕ, ◌+◌, ◌%◌, ◌^◌, ◌≤◌, ◌<◌, ◌≡◌, ◌⊎◌, refl, ◌∙◌, Bool, true, false, ◌&&◌, some, List, [],
  ◌∷◌, ltb, ◌==◌, if◌then◌else◌, arith, inl, inr, Bool-cases,
}
use cavatools.Prelude.Words.{long_mod}
use cavatools.Elf.Loading.{
  Memory, Kernel, Phdr, Image, is_load, pf_r, pf_w, map_pages, load_segment, load_segments,
}
use cavatools.Elf.Pages.{Inside, Outside, IsKernel}
use cavatools.Elf.Mapped.{start, page, span, IsSegment, Holds, map_segment-Holds}
use cavatools.Elf.Access.{map_pages-Inside, map_pages-Outside}

pub map-All :
    (P Q : Phdr → Type 0) (phs : List Phdr) → ((q : Phdr) → P q → Q q) → All P phs → All Q phs
map-All P Q [] f all = tt
map-All P Q (ph ∷ phs) f (p, all) = (f ph p, map-All P Q phs f all)

pub both-All :
    (P Q : Phdr → Type 0) (phs : List Phdr) → All P phs → All Q phs → All (λ q. P q × Q q) phs
both-All P Q [] ps qs = tt
both-All P Q (ph ∷ phs) (p, ps) (q, qs) = ((p, q), both-All P Q phs ps qs)

module _ (bias : ℕ) (kernel : Kernel) (file : Memory) (Usable : ℕ → ℕ → Type 0) where
  -- Two segments that share no page.
  abbrev pub Apart : Phdr → Phdr → Type 0
  Apart ph q =
      (page bias ph + span bias ph ≤ page bias q) ⊎ (page bias q + span bias q ≤ page bias ph)

  -- No interpreter, and the segments that are loaded are mappable and apart.
  abbrev pub Loadable : List Phdr → Type 0
  Loadable [] = Unit
  Loadable (ph ∷ phs) =
      ((ph.p_type == 3) ≡ false)
      × (is_load ph ≡ true → IsSegment bias Usable ph)
      × All (λ q. is_load ph ≡ true → is_load q ≡ true → Apart ph q) phs
      × Loadable phs

  -- An access that is allowed in all of a segment.
  abbrev pub Allows : (ℕ → Bool) → Phdr → Type 0
  Allows f ph = (a : ℕ) → Inside (start bias ph) ph.p_memsz a → f a ≡ true

  -- A loaded segment is in memory with the accesses of its flags, below the program break.
  abbrev pub Loaded : Image → Phdr → Type 0
  Loaded s ph =
      is_load ph ≡ true
      → IsSegment bias Usable ph
        × Holds bias file ph s.memory
        × (pf_r ph ≡ true → Allows s.readable ph)
        × (pf_w ph ≡ true → Allows s.writable ph)
        × (start bias ph + ph.p_memsz ≤ s.brk_min)

  -- An address is as before.
  abbrev pub Kept : Image → Image → ℕ → Type 0
  Kept s s' a =
      (s'.memory a ≡ s.memory a) × (s'.readable a ≡ s.readable a) × (s'.writable a ≡ s.writable a)

  -- What is in no page of a segment.
  Outside-other :
      (ph q : Phdr) (a : ℕ)
      → Apart ph q
      → page bias q ≤ a
      → a < page bias q + span bias q
      → Outside (page bias ph) (span bias ph) a
  Outside-other ph q a (inl le) low high = inr (omega (arith, le, low))
  Outside-other ph q a (inr le) low high = inl (omega (arith, le, high))

  -- A byte of one segment is in no page of the other.
  off_segment :
      (ph q : Phdr) (a : ℕ)
      → IsSegment bias Usable q
      → (is_load ph ≡ true → Apart ph q)
      → Inside (start bias q) q.p_memsz a
      → is_load ph ≡ true
      → Outside (page bias ph) (span bias ph) a
  off_segment ph q a h apart (low, high) load =
      Outside-other ph q a (apart load) (omega (arith, low)) (omega (arith, high, h.fits))

  still-Holds :
      (ph q : Phdr) (m m' : Memory)
      → IsSegment bias Usable q
      → (is_load ph ≡ true → Apart ph q)
      → ((a : ℕ) → (is_load ph ≡ true → Outside (page bias ph) (span bias ph) a) → m' a ≡ m a)
      → Holds bias file q m
      → Holds bias file q m'
  still-Holds ph q m m' h apart kept holds = record {
    before = λ a (low, high).
        kept a (λ load. Outside-other ph q a (apart load) low (omega (arith, high)))
        ∙ holds.before a (low, high);
    content = λ k lt.
        kept (start bias q + k) (λ load.
          Outside-other ph q (start bias q + k) (apart load) (omega arith)
            (omega (arith, lt, h.whole)))
        ∙ holds.content k lt;
    rest = λ k low high.
        kept (start bias q + k) (λ load.
          Outside-other ph q (start bias q + k) (apart load) (omega arith) (omega (arith, high)))
        ∙ holds.rest k low high;
  }

  module _ (law : IsKernel kernel file Usable) (aligned : bias % 4096 ≡ 0) where
    -- The break is raised to the end of the segment.
    raised :
        (test : Bool) (b start size : ℕ)
        → start + size < 2 ^ 64
        → let end = (start % long_mod + size) % long_mod in
          let b' = if test && ltb b end then end else b in
          (b ≤ b') × (test ≡ true → start + size ≤ b')
    raised test b start size fits = ground arith

    load_segment-Loaded :
        (ph : Phdr) (s : Image)
        → (ph.p_type == 3) ≡ false
        → (is_load ph ≡ true → IsSegment bias Usable ph)
        → (s' : Image) × (load_segment kernel bias ph s ≡ some s')
          × Loaded s' ph
          × (s.brk_min ≤ s'.brk_min)
          × ((a : ℕ) → (is_load ph ≡ true → Outside (page bias ph) (span bias ph) a) → Kept s s' a)
    unfolding load_segment
    load_segment-Loaded ph s type mappable = elim (Bool-cases (is_load ph)) [
      | inl load ↦
          let h = mappable load in
          let (m, gives, holds, kept) =
            map_segment-Holds bias kernel file Usable law aligned ph s.memory h in
          let (le, ends) =
            raised true s.brk_min (start bias ph) ph.p_memsz (omega (arith, h.fits)) in
          let end = (start bias ph % long_mod + ph.p_memsz) % long_mod in
          let brk = if ltb s.brk_min end then end else s.brk_min in
          (
            record {
              brk_min = brk;
              brk_max = (brk + 16777216) % long_mod;
              memory = m;
              readable = map_pages bias ph (pf_r ph) s.readable;
              writable = map_pages bias ph (pf_w ph) s.writable;
            },
            rw (type, load, gives) refl,
            (λ e. (
              h,
              holds,
              (λ yes_reads a inside.
                  map_pages-Inside bias kernel file Usable law aligned ph (pf_r ph) s.readable a h
                    yes_reads inside),
              (λ yes_writes a inside.
                  map_pages-Inside bias kernel file Usable law aligned ph (pf_w ph) s.writable a h
                    yes_writes inside),
              ends refl,
            )),
            le,
            λ a out. (
              kept a (out load),
              map_pages-Outside bias kernel file Usable law aligned ph (pf_r ph) s.readable a h
                  (out load),
              map_pages-Outside bias kernel file Usable law aligned ph (pf_w ph) s.writable a h
                  (out load),
            ),
          )
      | inr skipped ↦ (
        record s { brk_max = (s.brk_min + 16777216) % long_mod },
        rw (type, skipped) refl,
        (λ e. ground (arith, e, skipped)),
        omega arith,
        λ a out. (refl, refl, refl),
      )
    ]

    -- The loop maps every segment, and no segment loses what it holds to one that is mapped behind it.
    pub load_segments-Loaded :
        (phs : List Phdr) (s : Image)
        → Loadable phs
        → (s' : Image) × (load_segments kernel bias phs s ≡ some s')
          × All (Loaded s') phs
          × (s.brk_min ≤ s'.brk_min)
    unfolding load_segments
    load_segments-Loaded [] s h = (s, refl, tt, omega arith)
    load_segments-Loaded (ph ∷ phs) s (type, mappable, apart, others) =
        let (s1, gives1, loaded1, le1) = load_segments-Loaded phs s others in
        let (s2, gives2, loaded2, le2, kept) = load_segment-Loaded ph s1 type mappable in
        (
          s2,
          rw gives1 gives2,
          (
            loaded2,
            map-All _ (Loaded s2) phs
                (λ q (loaded, apart_q) load_q.
                  let (h, holds, readable, writable, le) = loaded load_q in
                  let apart_now : is_load ph ≡ true → Apart ph q = λ load. apart_q load load_q in
                  (
                    h,
                    still-Holds ph q s1.memory s2.memory h apart_now (λ a out. (kept a out).0)
                        holds,
                    (λ yes_reads a inside.
                        (kept a (off_segment ph q a h apart_now inside)).1
                        ∙ readable yes_reads a inside),
                    (λ yes_writes a inside.
                        (kept a (off_segment ph q a h apart_now inside)).2
                        ∙ writable yes_writes a inside),
                    omega (arith, le, le2),
                  ))
                (both-All _ _ phs loaded1 apart),
          ),
          omega (arith, le1, le2),
        )
