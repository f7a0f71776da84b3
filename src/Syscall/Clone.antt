-- ===== src/Syscall/Clone.antt =====
-- uspike/proxy_syscall.cc: the caller of `clone` and the thread that it starts, each shared access one
-- step. `futex` waits only while the lock is 1, and a waiting thread may wake for no reason.
use cavatools.Prelude.{ℕ, ◌+◌, ◌==◌, if◌then◌else◌}
use cavatools.Syscall.{Cpu, write_reg}

-- In `proxy_syscall`: before the lock is set, before `clone`, at the test of the loop, before the wait,
-- in it, and behind the loop.
pub data Parent : Type 0 where
  locking cloning testing waiting asleep passed : Parent

-- In `thread_interpreter`: not started, before `newcore`, before the lock is cleared, before the wake,
-- and in its endless loop.
pub data Child : Type 0 where
  unborn copying releasing waking interpreting : Child

-- `newcore` makes a hart that has executed nothing and copies the registers and the pc of the caller;
-- then the registers of the child are set.
unfoldable pub start_child : {Memory : Type 0} → Cpu Memory → Cpu Memory
unfolding write_reg
start_child c =
    let copied = record c { executed = 0 } in
    let stacked = write_reg copied 2 (copied.xpr 11) in
    let local = write_reg stacked 4 (stacked.xpr 13) in
    let zeroed = write_reg local 10 0 in record zeroed { pc = zeroed.pc + 4 }

pub record Pair (Memory : Type 0) : Type 0 where
  pub clone_lock : ℕ
  pub parent : Parent
  pub child : Child
  pub caller : Cpu Memory
  pub started : Cpu Memory

-- Behind the loop the caller changes its registers: the result is written, and it goes on.
unfoldable pub parent_move : {Memory : Type 0} → Parent → Pair Memory → Cpu Memory → Pair Memory
parent_move locking s c = record s { clone_lock = 1; parent = cloning }
parent_move cloning s c = record s { parent = testing; child = copying }
parent_move testing s c = record s { parent = if s.clone_lock == 0 then passed else waiting }
parent_move waiting s c = record s { parent = if s.clone_lock == 1 then asleep else testing }
parent_move asleep s c = s
parent_move passed s c = record s { caller = c }

unfoldable pub wake : Parent → Parent
wake asleep = testing
wake p = p

unfoldable pub child_move : {Memory : Type 0} → Child → Pair Memory → Pair Memory
unfolding start_child wake
child_move unborn s = s
child_move copying s = record s { child = releasing; started = start_child s.caller }
child_move releasing s = record s { clone_lock = 0; child = waking }
child_move waking s = record s { parent = wake s.parent; child = interpreting }
child_move interpreting s = s
