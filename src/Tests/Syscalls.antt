-- ===== src/Tests/Syscalls.antt =====
-- Ecalls: calls of the host, and two threads at a clone.
use cavatools.Prelude.{ℕ, ◌+◌, ◌≡◌, ◌≢◌, refl, true, Option, some, ◌==◌, if◌then◌else◌, arith}
use cavatools.Syscall.{Cpu, HostCall, mapped, unmapped, proxy_ecall}
use cavatools.Syscall.Counting.{EcallEnds, proxy_ecall-EcallEnds}
use cavatools.Syscall.Clone.{asleep, passed, releasing, start_child, Pair, parent_move, child_move}
use cavatools.Syscall.Handshake.{Reach, start, parent_step, child_step, clone-copies}
use cavatools.Syscall.Wakes.{child_steps, caller_steps, clone-wakes}

-- A hart that calls number 64 with 20 in register 10.
abbrev pub caller : Cpu ℕ
caller = record {
  xpr = λ n. if n == 17 then 64 else if n == 10 then 20 else n;
  pc = 4096;
  executed = 3;
  total_insns = 9;
  memory = 5;
}

-- A host that adds one to the first argument, and to its memory.
abbrev pub host : ℕ → (ℕ → ℕ) → ℕ → ℕ × ℕ
host n args memory = (args 0 + 1, memory + 1)

abbrev pub table : ℕ → Option HostCall
table n = if n == 64 then some (mapped 1) else some unmapped

proxy_ecall-EcallEnds_example :
    EcallEnds host table 500 93 94 56 caller 1000 (proxy_ecall host table 500 93 94 56 caller 1000)
proxy_ecall-EcallEnds_example =
    proxy_ecall-EcallEnds host table 500 93 94 56 caller 1000 (omega arith) (omega arith)
      (omega arith)

-- The caller sleeps, and the child has copied it.
abbrev asleep_pair : Pair ℕ
asleep_pair = record {
  clone_lock = 1;
  parent = asleep;
  child = releasing;
  caller = caller;
  started = start_child caller;
}

asleep_pair-Reach : Reach caller asleep_pair
unfolding parent_move child_move
asleep_pair-Reach = child_step (
    parent_step caller
      (parent_step caller (parent_step caller (parent_step caller (start 0 caller)))))

clone-copies_example :
    (true ≡ true → start_child caller ≡ start_child caller)
    × (asleep ≡ passed → true ≡ true)
    × (asleep ≢ passed → caller ≡ caller)
clone-copies_example = clone-copies caller asleep_pair asleep_pair-Reach

clone-wakes_example : (caller_steps 2 (child_steps 3 asleep_pair)).parent ≡ passed
clone-wakes_example = clone-wakes caller asleep_pair asleep_pair-Reach refl
