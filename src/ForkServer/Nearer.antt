-- ===== src/ForkServer/Nearer.antt =====
-- One call of the fork server that does not fail brings it nearer to the next request.

use pe_ar_honours.Prelude.{
  ℕ, ◌+◌, ◌*◌, ◌<◌, ◌≤◌, ◌==◌, ◌≡◌, refl, arith, Bool, true, false, Option, none, some, ◌⊎◌,
  Bool-cases, inl, inr, if◌then◌else◌,
}
use pe_ar_honours.ForkServer.{
  Config, Server, SystemCall, write_hello, read_options, map_fuzz, read_request, reap, fork_child,
  continue_child, write_pid, wait_child, write_status, Answer, done, Point, waits, answer,
  after_request, after_reap, loop_head, after_options, after_fork,
}
use pe_ar_honours.ForkServer.System.{
  Process, absent, running, stopped, dead, give, reaped, waited, respond,
}
use pe_ar_honours.ForkServer.Sound.{fits, Fits}

-- How far the next request is.
abbrev pub rank : SystemCall → ℕ
rank write_hello = 8
rank read_options = 7
rank map_fuzz = 6
rank reap = 5
rank fork_child = 4
rank continue_child = 4
rank write_pid = 3
rank wait_child = 2
rank write_status = 1
rank read_request = 0

-- How many steps are left to the child.
abbrev pub steps : Process → ℕ
steps absent = 0
steps (dead pid st) = 0
steps (stopped pid st) = 1
steps (running pid) = 2

abbrev pub weight : SystemCall → Process → ℕ
weight call p = 3 * rank call + steps p

pub steps-le : (p : Process) → steps p ≤ 2
steps-le absent = omega arith
steps-le (dead pid st) = omega arith
steps-le (stopped pid st) = omega arith
steps-le (running pid) = omega arith

pub rank-cases : (call : SystemCall) → (call ≡ read_request) ⊎ (0 < rank call)
rank-cases write_hello = inr (omega arith)
rank-cases read_options = inr (omega arith)
rank-cases map_fuzz = inr (omega arith)
rank-cases reap = inr (omega arith)
rank-cases fork_child = inr (omega arith)
rank-cases continue_child = inr (omega arith)
rank-cases write_pid = inr (omega arith)
rank-cases wait_child = inr (omega arith)
rank-cases write_status = inr (omega arith)
rank-cases read_request = inl refl

-- The server waits again, nearer to the request.
abbrev Nearer : ℕ → Point → Type 0
Nearer r point = (call : SystemCall) × (s : Server) × (point ≡ waits call s) × (rank call < r)

abbrev pub Lower : Config → SystemCall → Server → Option (Answer × Process) → Type 0
Lower c call s none = Unit
Lower c call s (some (a, p)) = Nearer (rank call) (answer c call s a)

head-Nearer : (s : Server) (r : ℕ) → s.already_read_first ≡ false → 0 < r → Nearer r (loop_head s)
unfolding loop_head
head-Nearer s r h positive = (read_request, s, rw h refl, positive)

after_reap-Nearer : (s : Server) (r : ℕ) → 4 < r → Nearer r (after_reap s)
unfolding after_reap
after_reap-Nearer s r far = elim (Bool-cases s.child_stopped) [
  | inl halted ↦ (continue_child, s, rw halted refl, far)
  | inr none_halted ↦ (fork_child, s, rw none_halted refl, far)
]

options-Nearer :
    (c : Config) (s : Server) (r : ℕ)
    → s.child_stopped ≡ false
    → s.already_read_first ≡ false
    → 4 < r
    → Nearer r (after_options c s)
unfolding after_options loop_head after_request
options-Nearer c s r unstopped arf far = elim (Bool-cases c.is_persistent) [
  | inl persistent ↦
      simp (persistent, unstopped)
        (after_reap-Nearer (record s { child_stopped = false; already_read_first = false }) r far)
  | inr plain ↦ simp (plain, arf) (read_request, s, refl, omega (arith, far))
]

reap-Lower :
    (c : Config) (s : Server) (p : Process)
    → fits reap s p ≡ true
    → Lower c reap s (reaped s.child_pid p)
unfolding reaped answer
reap-Lower c s absent h = ground arith
reap-Lower c s (running q) h = ground arith
reap-Lower c s (stopped q st) h = ground arith
reap-Lower c s (dead q st) h =
    let same : (q == s.child_pid) ≡ true = ground arith in
    rw same (after_reap-Nearer (record s { status = st }) 5 (omega arith))

wait-Lower :
    (c : Config) (persistent : Bool) (s : Server) (p : Process)
    → fits wait_child s p ≡ true
    → Lower c wait_child s (waited persistent s.child_pid p)
unfolding waited reaped answer
wait-Lower c persistent s absent h = ground arith
wait-Lower c true s (running q) h = ground arith
wait-Lower c false s (running q) h = ground arith
wait-Lower c true s (stopped q st) h =
    let same : (q == s.child_pid) ≡ true = ground arith in
    rw same (write_status, _, refl, omega arith)
wait-Lower c false s (stopped q st) h = ground arith
wait-Lower c true s (dead q st) h =
    let same : (q == s.child_pid) ≡ true = ground arith in
    rw same (write_status, _, refl, omega arith)
wait-Lower c false s (dead q st) h =
    let same : (q == s.child_pid) ≡ true = ground arith in
    rw same (write_status, _, refl, omega arith)

fork-Lower :
    (c : Config) (pid : ℕ) (s : Server)
    → Lower c fork_child s (if pid == 0 then none else some (done pid, running pid))
unfolding answer after_fork
fork-Lower c pid s = elim (Bool-cases (pid == 0)) [
  | inl zero_pid ↦ rw zero_pid tt
  | inr some_pid ↦ simp some_pid (write_pid, record s { child_pid = pid }, refl, omega arith)
]

hello-Lower :
    (c : Config) (n : ℕ) (s : Server)
    → s.already_read_first ≡ false
    → Nearer 8 (answer c write_hello s (done n))
unfolding answer
hello-Lower c n s arf = elim (Bool-cases c.sharedmem_fuzzing) [
  | inl shared ↦ rw shared (read_options, s, refl, omega arith)
  | inr plain ↦ rw plain (head-Nearer s 8 arf (omega arith))
]

read-Lower :
    (c : Config) (w : ℕ) (s : Server)
    → s.child_stopped ≡ false
    → s.already_read_first ≡ false
    → Nearer 7 (answer c read_options s (done w))
unfolding answer
read-Lower c w s unstopped arf = elim (Bool-cases (c.accepts_sharedmem w)) [
  | inl accepted ↦ rw accepted (map_fuzz, record s { was_killed = w }, refl, omega arith)
  | inr refused ↦
      rw refused (options-Nearer c (record s { was_killed = w }) 7 unstopped arf (omega arith))
]

pub respond-Lower :
    (c : Config) (n : ℕ) (call : SystemCall) (s : Server) (p : Process)
    → Fits (waits call s) p
    → 0 < rank call
    → Lower c call s (respond c (give n) call s p)
unfolding respond answer
respond-Lower c n reap s p h far = reap-Lower c s p h.0
respond-Lower c n wait_child s p h far = wait-Lower c c.is_persistent s p h.0
respond-Lower c n continue_child s p h far =
    (write_pid, record s { child_stopped = false }, refl, omega arith)
respond-Lower c n read_request s p h far = absurd (omega (arith, far))
respond-Lower c n fork_child s p h far = fork-Lower c n s
respond-Lower c n write_hello s p h far = hello-Lower c n s h.1
respond-Lower c n read_options s p h far = read-Lower c n s (ground arith) h.1
respond-Lower c n map_fuzz s p h far = options-Nearer c s 6 (ground arith) h.1 (omega arith)
respond-Lower c n write_pid s p h far = (wait_child, s, refl, omega arith)
respond-Lower c n write_status s p h far = head-Nearer s 1 h.1 (omega arith)
