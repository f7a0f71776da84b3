-- ===== src/Perf.antt =====
-- caveat/perf.h and caveat/perf.cc: the shared segment of performance counters. Lengths and offsets
-- are in bytes, a long has 8 and a count_t 16; an offset counts from `arrays`, behind the 32 bytes of
-- the header. `none` is the SEGV of `checkif`. A counter that passes 2^63 is undefined in the source,
-- so counters do not wrap here.
pub mod Layout
pub mod Counters
pub mod Sums
use cavatools.Prelude.{
  ℕ, ◌+◌, ◌-◌, ◌*◌, ◌/◌, Option, none, some, ◌>>=◌, ◌&&◌, ltb, leb, ◌==◌, if◌then◌else◌,
}

pub record Segment : Type 0 where
  pub size : ℕ
  pub parcels : ℕ
  pub base : ℕ
  pub cores : ℕ
  pub arrays : ℕ → ℕ

-- The pointers of one core.
pub record Perf : Type 0 where
  pub count : ℕ
  pub imiss : ℕ
  pub dmiss : ℕ

-- `perf_t::perf_t`; `none`: a message is printed and the pointers are left as they are.
unfoldable pub perf_new : Segment → ℕ → Option Perf
perf_new h n =
    if leb h.cores n
    then none
    else (let ptr = n * h.parcels * (16 + 2 * 8) in
        some (record {
          count = ptr;
          imiss = ptr + h.parcels * 16;
          dmiss = ptr + h.parcels * 16 + h.parcels * 8;
        }))

-- `perf_t::create`, after its `memset`.
unfoldable pub create : ℕ → ℕ → ℕ → Segment
create base bound n =
    let p = (bound - base) / 2 in
    record {
      size = 32 + p * n * 16 + 2 * p * n * 8;
      parcels = p;
      base = base;
      cores = n;
      arrays = λ a. 0;
    }

unfoldable pub index : Segment → ℕ → Option ℕ
index h pc =
    if leb h.base pc && ltb ((pc - h.base) / 2) h.parcels then some ((pc - h.base) / 2) else none

-- Where the four counters of an instruction stand.
abbrev pub executed_at : Perf → ℕ → ℕ
executed_at p i = p.count + 16 * i

abbrev pub cycles_at : Perf → ℕ → ℕ
cycles_at p i = p.count + 16 * i + 8

abbrev pub imiss_at : Perf → ℕ → ℕ
imiss_at p i = p.imiss + 8 * i

abbrev pub dmiss_at : Perf → ℕ → ℕ
dmiss_at p i = p.dmiss + 8 * i

abbrev pub add_at : Segment → ℕ → ℕ → Segment
add_at h a k = record h { arrays = λ b. if b == a then h.arrays b + k else h.arrays b }

unfoldable pub count : Segment → Perf → ℕ → Option ℕ
count h p pc = do i ← index h pc; some (h.arrays (executed_at p i))

unfoldable pub cycle : Segment → Perf → ℕ → Option ℕ
cycle h p pc = do i ← index h pc; some (h.arrays (cycles_at p i))

unfoldable pub imiss : Segment → Perf → ℕ → Option ℕ
imiss h p pc = do i ← index h pc; some (h.arrays (imiss_at p i))

unfoldable pub dmiss : Segment → Perf → ℕ → Option ℕ
dmiss h p pc = do i ← index h pc; some (h.arrays (dmiss_at p i))

unfoldable pub inc_count : Segment → Perf → ℕ → ℕ → Option Segment
inc_count h p pc k = do i ← index h pc; some (add_at h (executed_at p i) k)

unfoldable pub inc_cycle : Segment → Perf → ℕ → ℕ → Option Segment
inc_cycle h p pc k = do i ← index h pc; some (add_at h (cycles_at p i) k)

unfoldable pub inc_imiss : Segment → Perf → ℕ → ℕ → Option Segment
inc_imiss h p pc k = do i ← index h pc; some (add_at h (imiss_at p i) k)

unfoldable pub inc_dmiss : Segment → Perf → ℕ → ℕ → Option Segment
inc_dmiss h p pc k = do i ← index h pc; some (add_at h (dmiss_at p i) k)
