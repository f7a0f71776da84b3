-- ===== src/Lib.antt =====
-- A verification library for cavatools, a user-mode RISC-V simulator.
--
-- The program and its parts. uspike decodes the text segment of a RISC-V program once and interprets
-- it; caveat is uspike with a timing model; erised shows the counters that caveat keeps in shared
-- memory. In caveat every core (a `core_t`) is a hart with a timing model (`mem_t`): the interpreter
-- calls `insn_model` for each instruction, `jump_model` for each taken branch and `load_model`,
-- `store_model` or `amo_model` for each data access; these look addresses up in an instruction and a
-- data cache (`cache_t`) and add to counters of each instruction parcel (`perf_t`). The order of ways
-- in a cache row is a state number, whose table the script make_cache writes.
--
-- In uspike the text segment has a descriptor for each parcel, filled by a loop over the text; gdb can
-- be attached by a link that carries packets with checksums. Each thread of the simulated program has a
-- hart; an ecall goes to the host kernel, and a clone makes a host thread that copies the caller's hart.
--
-- The files.
--   Prelude       shared names, Boolean tests, list lemmas, 64-bit words
--   Cache         caveat/cache.h, caveat/cache.cc: `Cache` is cache_t, `init` its constructor, `flush`
--                 and `lookup` the operations. `scan`, `refill` and `touch` are the parts of lookup, in
--                 its order. Cache/Generator is caveat/make_cache.
--   Perf          caveat/perf.h, caveat/perf.cc: `Segment` is the shared segment, `Perf` a core's
--                 pointers into it
--   Simulator     caveat/simulator.cc: `Mem` is mem_t, one function for each model call; `update_time`
--                 and `malloc`
--   Hart          uspike/hart.h, uspike/hart.cc: the static members of hart_t and the loops that change
--                 them, one step for each shared access; Hart/Debug is Debug_t
--   Syscall       uspike/proxy_syscall.cc: `proxy_ecall`, `proxy_syscall`; Syscall/Clone has the caller
--                 and the new thread of a clone
--   Interpreter   uspike/interpreter.cc: `interpreter`, and `resume`, the loop of uspike/main.cc for gdb;
--                 Interpreter/Ecall is the case of ecall in uspike/RV.fast
--   Mmu           uspike/mmu.h: loads, stores and atomic operations; `cas` of uspike/interpreter.cc
--   Insn          uspike/instructions.h: `Insn` is the descriptor Insn_t; Insn/Space is insnSpace_t, with
--                 `predecode` (the loop of loadelf) and `substitute_cas` of uspike/instructions.cc
--   Gdb           uspike/gdblink.c: packets; Gdb/Memory has the functions Reply... and Rcv..., and
--                 Gdb/Commands the command loop ProcessGdbCommand
--   Elf           uspike/elf_loader.c: bounds of the text, symbols, `initialize_stack`; Elf/Loading has
--                 `load_elf_binary`, and Elf/Decoded `loadelf` of uspike/instructions.cc
--   Fast          uspike/RV.fast: `alu` has the cases that write a value computed from registers;
--                 Fast/Step has all cases but ecall, with their lengths
--   Options       uspike/options.h, uspike/options.cc: `Opt` is options_t, `matches`, `parse_options`
--   Erised        erised/erised.cc: the histograms; Erised/Screen has the painting functions and
--                 `interactive`, one `round` for each event
--   Tests         runs at concrete inputs
-- Below each of these: Cache/Installs is about the parts of lookup, Cache/Recency states what the
-- tables are relied on for, Cache/Generated is about the tables of make_cache, Cache/Rows and
-- Cache/Refines view a row as a list, Cache/Correct is about one lookup, Cache/Bounds about its
-- indices, Cache/History and Cache/Init are about runs. Perf/Layout and Perf/Counters are about the
-- places of counters, Perf/Sums adds them up; Simulator/Accounts states what the calls of a core
-- keep in balance, Simulator/Start begins with the constructor, Simulator/Pool is about malloc and
-- the global clock. Hart/Steps has the schedules of any number of threads, Hart/Totals,
-- Hart/Numbered and Hart/Listed an invariant each, Hart/Solo is about a thread that runs alone,
-- Hart/Find about `find`, Hart/Ring about the debug ring. Syscall/Counting is about one ecall,
-- Syscall/Places, Syscall/Handshake and Syscall/Wakes about the lock of a clone. Interpreter/Count
-- and Interpreter/Raises are about one call of the interpreter, Interpreter/Timed about the
-- interpreter with the timing model of caveat, Interpreter/Resume about gdb, Mmu/Words about memory,
-- Mmu/Timed about mem_t as the timing model of loads and stores. Erised/Walks and Erised/Bins are
-- about `histo_compute`, Erised/Windows and Erised/Clicks about the parts of a round, Erised/Rounds
-- about the loop of the viewer. Gdb/Frames is about packets, Gdb/Bytes about memory sent as digits;
-- Insn/Immediates and Insn/Predecoded are about descriptors, Elf/Layout about addresses, Elf/Pages
-- about pages, Elf/Mapped about one segment, Elf/Access about the accesses that its pages allow,
-- Elf/Segments about the loop over the segments, Elf/Process about the process. Fast/Isa and
-- Fast/Manual are references written from the RISC-V manual, Fast/Signed and Fast/Agree are about
-- the values, Fast/Operands, Fast/Ends and Fast/Executes about whole instructions, Fast/Patterns and
-- Fast/States about the range of what the reference gives, Fast/Swaps about compare-and-swap,
-- Fast/Runs about calls of the interpreter, and Fast/Timed about the interpreter of caveat,
-- Options/Matching about one argument.
--
-- Conventions. Addresses and longs are 64-bit patterns on the natural numbers. A fault (SEGV, a
-- failed `checkif`, an exit) is `none`. A constructor finds the memory it asks for unless the number
-- of elements is negative. Which pages are mapped is followed in the loader and the decoder of the
-- text; the memory of the running program is total. A call of malloc is a list of rounds of its
-- loop, in the order of their swaps, each with the values that its two reads of `pooltop` give.
-- Counters do not wrap: their overflow is undefined in the source. The loop of lookup has as many
-- rounds to go as the row has ways, and its fuel is exactly that. The recursion of make_cache has N!
-- as fuel, the number of states. The loops over the text take a number of rounds: the number of
-- parcels is enough for `predecode`, and a round for each byte of the text and one for its end for
-- `substitute_cas`, whose step is at least two bytes; the command loop of the gdb link takes a
-- number of packets. The interpreter has one round more than it is told to run; the loop of `resume`
-- may not end, so it takes any number of rounds. A bin of the viewer has its range in bytes as fuel,
-- since an instruction is longer than a byte.
--
-- Not modelled: output, the shared memory calls, the host kernel behind system calls, and the Spike
-- library with the instructions that it executes itself. Whether the tables of symbols and strings
-- can be read is a field of the file, and what they hold is taken as read. The decoder is a
-- generated file, and so is the switch around the cases of uspike/RV.fast.
pub mod Prelude
pub mod Cache
pub mod Perf
pub mod Simulator
pub mod Hart
pub mod Syscall
pub mod Interpreter
pub mod Mmu
pub mod Fast
pub mod Insn
pub mod Gdb
pub mod Erised
pub mod Tests
pub mod Elf
pub mod Options
