-- ===== src/ForkServer/Safety.antt =====
-- The calls of `__afl_start_forkserver` that wait for a process, make one or let it go on.

use pe_ar_honours.Prelude.{
  ℕ, ◌≡◌, ◌⊎◌, refl, arith, Bool, true, false, Option, none, some, inl, inr,
}
use pe_ar_honours.ForkServer.{
  Config, Server, SystemCall, write_hello, reap, fork_child, continue_child, write_pid, wait_child,
  Answer, failed, done, Point, waits, exits, resumes, at_exit,
}
use pe_ar_honours.ForkServer.System.{
  Process, absent, running, stopped, dead, System, reaped, waited, without, Reach,
}
use pe_ar_honours.ForkServer.Sound.{is_halted, has_pid, fits, Fits}
use pe_ar_honours.ForkServer.Invariant.{Reach-IsSound}

abbrev pub is_done : Option (Answer × Process) → Bool
is_done none = false
is_done (some (failed, p)) = false
is_done (some (done st, p)) = true

abbrev pub is_failed : Option (Answer × Process) → Bool
is_failed none = false
is_failed (some (failed, p)) = true
is_failed (some (done st, p)) = false

-- fork is called when there is no process, SIGCONT goes to a child that has stopped, and may have been
-- killed since, the pid that is sent is the child's, the waitpid for a child that was killed returns at
-- once, and that for the child does not fail.
abbrev pub IsSafeCall : Config → SystemCall → Server → Process → Type 0
IsSafeCall c fork_child s p = p ≡ absent
IsSafeCall c continue_child s p = is_halted true s.child_pid p ≡ true
IsSafeCall c write_pid s p = has_pid s.child_pid p ≡ true
IsSafeCall c reap s p = is_done (reaped s.child_pid p) ≡ true
IsSafeCall c wait_child s p = is_failed (waited c.is_persistent s.child_pid p) ≡ false
IsSafeCall c call s p = Unit

-- Also, if SIGTERM reaches the server then no process is left.
abbrev pub IsSafe : Config → Point → Process → Type 0
IsSafe c (waits call s) p = IsSafeCall c call s p × (without (at_exit s) p ≡ absent)
IsSafe c point p = Unit

fork-absent : (s : Server) (p : Process) → fits fork_child s p ≡ true → p ≡ absent
fork-absent s absent h = refl
fork-absent s (running q) h = ground arith
fork-absent s (stopped q st) h = ground arith
fork-absent s (dead q st) h = ground arith

reap-is_done :
    (s : Server) (p : Process) → fits reap s p ≡ true → is_done (reaped s.child_pid p) ≡ true
unfolding reaped
reap-is_done s absent h = ground arith
reap-is_done s (running q) h = ground arith
reap-is_done s (stopped q st) h = ground arith
reap-is_done s (dead q st) h = ground arith

wait-is_failed :
    (persistent : Bool) (s : Server) (p : Process)
    → fits wait_child s p ≡ true
    → is_failed (waited persistent s.child_pid p) ≡ false
unfolding waited reaped
wait-is_failed true s absent h = ground arith
wait-is_failed false s absent h = ground arith
wait-is_failed true s (running q) h = ground arith
wait-is_failed false s (running q) h = ground arith
wait-is_failed true s (stopped q st) h = ground arith
wait-is_failed false s (stopped q st) h = ground arith
wait-is_failed true s (dead q st) h = ground arith
wait-is_failed false s (dead q st) h = ground arith

call-IsSafeCall :
    (c : Config) (call : SystemCall) (s : Server) (p : Process)
    → fits call s p ≡ true
    → IsSafeCall c call s p
call-IsSafeCall c fork_child s p h = fork-absent s p h
call-IsSafeCall c continue_child s p h = ground arith
call-IsSafeCall c write_pid s p h = ground arith
call-IsSafeCall c reap s p h = reap-is_done s p h
call-IsSafeCall c wait_child s p h = wait-is_failed c.is_persistent s p h
call-IsSafeCall c call s p h = tt

-- A process that is there has the pid that the server knows.
fits-has_pid :
    (call : SystemCall) (s : Server) (p : Process)
    → fits call s p ≡ true
    → (p ≡ absent) ⊎ (has_pid s.child_pid p ≡ true)
fits-has_pid write_pid s p h = inr (ground arith)
fits-has_pid call s absent h = inl refl
fits-has_pid write_hello s (running q) h = ground arith
fits-has_pid call s (running q) h = ground arith
fits-has_pid write_hello s (stopped q st) h = ground arith
fits-has_pid call s (stopped q st) h = ground arith
fits-has_pid write_hello s (dead q st) h = ground arith
fits-has_pid call s (dead q st) h = ground arith

without-has_pid :
    (s : Server) (p : Process) → has_pid s.child_pid p ≡ true → without (at_exit s) p ≡ absent
unfolding without at_exit
without-has_pid s absent h = cc
without-has_pid s (running q) h = ground arith
without-has_pid s (stopped q st) h = ground arith
without-has_pid s (dead q st) h = ground arith

without-absent : (pid : Option ℕ) → without pid absent ≡ absent
unfolding without
without-absent none = refl
without-absent (some pid) = refl

without-at_exit :
    (call : SystemCall) (s : Server) (p : Process)
    → fits call s p ≡ true
    → without (at_exit s) p ≡ absent
without-at_exit call s p h = elim (fits-has_pid call s p h) [
  | inl gone ↦ rw gone (without-absent (at_exit s))
  | inr there ↦ without-has_pid s p there
]

point-IsSafe : (c : Config) (point : Point) (p : Process) → Fits point p → IsSafe c point p
point-IsSafe c (waits call s) p h = (call-IsSafeCall c call s p h.0, without-at_exit call s p h.0)
point-IsSafe c (exits n) p h = tt
point-IsSafe c resumes p h = tt

-- In every state that the fork server, its child and afl-fuzz reach, in any order of their steps: no
-- process was left behind when another was forked; fork is called only when there is none, SIGCONT goes
-- only to a child that has stopped, and may have been killed since, the pid that is sent is the child's,
-- the waitpid for a child that was killed returns at once, that for the child does not fail; and if SIGTERM
-- reaches the server, no process is left.
pub Reach-IsSafe : {c : Config} {t : System} → Reach c t → (t.lost ≡ 0) × IsSafe c t.point t.child
Reach-IsSafe {c} {t} r =
    let sound = Reach-IsSound r in (sound.none_lost, point-IsSafe c t.point t.child sound.fitting)
