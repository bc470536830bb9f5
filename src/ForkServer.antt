-- ===== src/ForkServer.antt =====
-- The fork server of instrumentation/afl-instrumentation.c, `__afl_start_forkserver` and `at_exit`, from
-- one system call to the next.
pub mod System
pub mod Sound
pub mod Invariant
pub mod Safety
pub mod Nearer
pub mod Progress
pub mod Protocol
pub mod Session
pub mod Turns
pub mod Served
mod Tests
use pe_ar_honours.Prelude.{
  ℕ, ◌%◌, ◌^◌, ◌==◌, Bool, true, false, not, ◌&&◌, ◌||◌, Option, none, some, if◌then◌else◌,
}

-- What the server is started with: its variables `is_persistent` and `__afl_sharedmem_fuzzing`, and
-- whether an answer of afl-fuzz has FS_OPT_ENABLED and FS_OPT_SHDMEM_FUZZ.
pub record Config : Type 0 where
  pub is_persistent : Bool
  pub sharedmem_fuzzing : Bool
  pub accepts_sharedmem : ℕ → Bool

-- The variables of the loop. `child_pid` is 0 before the first fork.
pub record Server : Type 0 where
  pub child_pid : ℕ
  pub child_stopped : Bool
  pub already_read_first : Bool
  pub was_killed : ℕ
  pub status : ℕ

-- The system calls at which it waits: the two of the greeting and the mapping of the shared memory;
-- reading a request; the waitpid for a child that was killed, fork, kill with SIGCONT; writing the pid;
-- the waitpid for the child; writing its status.
pub data SystemCall : Type 0 where
  write_hello read_options map_fuzz : SystemCall
  read_request reap fork_child continue_child write_pid wait_child write_status : SystemCall

pub data Answer : Type 0 where
  failed : Answer
  done : ℕ → Answer

-- It waits at a call, or has ended with a status, or goes on with the program: in the child, or with no
-- afl-fuzz at the other end.
pub data Point : Type 0 where
  waits : SystemCall → Server → Point
  exits : ℕ → Point
  resumes : Point

-- WIFSTOPPED
unfoldable pub is_stopped : ℕ → Bool
is_stopped status = status % 2 ^ 8 == 0x7f

unfoldable pub after_reap : Server → Point
after_reap s = waits (if s.child_stopped then continue_child else fork_child) s

unfoldable pub after_request : Server → Point
unfolding after_reap
after_request s =
    if s.child_stopped && not (s.was_killed == 0)
    then waits reap (record s { child_stopped = false })
    else after_reap s

-- The head of the loop.
unfoldable pub loop_head : Server → Point
unfolding after_request
loop_head s =
    if s.already_read_first
    then after_request (record s { already_read_first = false })
    else waits read_request s

-- After the greeting, with shared memory.
unfoldable pub after_options : Config → Server → Point
unfolding loop_head
after_options c s =
    loop_head (if c.is_persistent then record s { already_read_first = true } else s)

-- In the parent, or in the child, which goes on with the program.
unfoldable pub after_fork : ℕ → Server → Point
after_fork pid s = if pid == 0 then resumes else waits write_pid (record s { child_pid = pid })

-- What the server does when a call has returned, up to its next call.
unfoldable pub answer : Config → SystemCall → Server → Answer → Point
unfolding after_options after_request after_reap loop_head after_fork is_stopped
answer c write_hello s failed = resumes
answer c write_hello s (done n) = if c.sharedmem_fuzzing then waits read_options s else loop_head s
answer c read_options s (done w) =
    let t = record s { was_killed = w } in
    if c.accepts_sharedmem w then waits map_fuzz t else after_options c t
answer c map_fuzz s (done n) = after_options c s
answer c read_request s (done w) = after_request (record s { was_killed = w })
answer c reap s (done st) = after_reap (record s { status = st })
answer c fork_child s (done pid) = after_fork pid s
answer c continue_child s _ = waits write_pid (record s { child_stopped = false })
answer c write_pid s (done n) = waits wait_child s
answer c wait_child s (done st) =
    waits write_status (record s { status = st; child_stopped = s.child_stopped || is_stopped st })
answer c write_status s (done n) = loop_head s
answer c _ s failed = exits 1

-- `__afl_start_forkserver` up to its first call, and its guard.
unfoldable pub start_forkserver : Bool → Point
start_forkserver already_initialized =
    if already_initialized
    then resumes
    else waits write_hello (record {
      child_pid = 0;
      child_stopped = false;
      already_read_first = false;
      was_killed = 0;
      status = 0;
    })

-- `at_exit`: the process that is killed and waited for, if there is one.
unfoldable pub at_exit : Server → Option ℕ
at_exit s = if s.child_pid == 0 then none else some s.child_pid
