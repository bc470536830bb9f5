-- ===== src/ForkServer/Sound.antt =====
-- What holds whenever the server waits.
use pe_ar_honours.Prelude.{
  ℕ, ◌==◌, ◌≡◌, refl, arith, Bool, true, false, not, ◌&&◌, ◌||◌, Option, none, some, if◌then◌else◌,
  Bool-cases, inl, inr,
}
use pe_ar_honours.ForkServer.{
  Config, Server, SystemCall, write_hello, read_options, map_fuzz, read_request, reap, fork_child,
  continue_child, write_pid, wait_child, write_status, Answer, done, Point, waits, is_stopped,
  answer, after_request, after_reap, loop_head, after_options, after_fork,
}
use pe_ar_honours.ForkServer.System.{
  Process, absent, running, stopped, dead, Choice, fail, give, is_alive, extra, reaped, waited,
  resumed, respond, forgotten,
}

-- The server knows of a child that has stopped, and then it is that process, which may have been
-- killed since; otherwise there is no process.
abbrev pub is_halted : Bool → ℕ → Process → Bool
is_halted true pid (stopped q st) = q == pid && not (pid == 0)
is_halted true pid (dead q st) = q == pid && not (pid == 0)
is_halted false pid absent = true
is_halted _ pid _ = false

abbrev pub has_pid : ℕ → Process → Bool
has_pid pid absent = false
has_pid pid (running q) = q == pid && not (pid == 0)
has_pid pid (stopped q st) = q == pid && not (pid == 0)
has_pid pid (dead q st) = q == pid && not (pid == 0)

abbrev pub is_dead : ℕ → Process → Bool
is_dead pid (dead q st) = q == pid && not (pid == 0)
is_dead pid _ = false

abbrev pub fits : SystemCall → Server → Process → Bool
fits read_request s p = is_halted s.child_stopped s.child_pid p
fits reap s p = not s.child_stopped && is_dead s.child_pid p
fits continue_child s p = s.child_stopped && is_halted true s.child_pid p
fits write_pid s p = not s.child_stopped && has_pid s.child_pid p
fits wait_child s p = not s.child_stopped && has_pid s.child_pid p
fits write_status s p = is_halted s.child_stopped s.child_pid p
fits _ s p = not s.child_stopped && is_halted false s.child_pid p

-- What waitpid will report is what has become of the child.
unfoldable pub has_status : Process → Bool
unfolding is_stopped
has_status (stopped pid st) = is_stopped st
has_status (dead pid st) = not (is_stopped st)
has_status _ = true

-- The first request has been dealt with before the server waits again.
abbrev pub Fits : Point → Process → Type 0
Fits (waits call s) p = (fits call s p ≡ true) × (s.already_read_first ≡ false)
Fits _ p = Unit

after_request-Fits :
    (s : Server) (p : Process)
    → is_halted s.child_stopped s.child_pid p ≡ true
    → s.already_read_first ≡ false
    → (s.was_killed == 0 || not (is_alive p)) ≡ true
    → Fits (after_request s) p
unfolding after_request after_reap is_alive
after_request-Fits s absent h k l = ground arith
after_request-Fits s (running pid) h k l = ground arith
after_request-Fits s (stopped pid st) h k l = ground arith
after_request-Fits s (dead pid st) h k l = ground arith

after_options-Fits :
    (c : Config) (s : Server)
    → s.child_stopped ≡ false
    → s.already_read_first ≡ false
    → Fits (after_options c s) absent
unfolding after_options loop_head after_request after_reap
after_options-Fits c s h k = ground arith

loop_head-Fits :
    (s : Server) (p : Process)
    → is_halted s.child_stopped s.child_pid p ≡ true
    → s.already_read_first ≡ false
    → Fits (loop_head s) p
unfolding loop_head
loop_head-Fits s p h k = ground arith

-- What is true after a call: the new state fits, and no process is forgotten.
abbrev pub Kept : Config → SystemCall → Server → Process → Option (Answer × Process) → Type 0
Kept c call s p none = Unit
Kept c call s p (some (a, q)) =
    Fits (answer c call s a) q × (forgotten call p ≡ 0) × (has_status q ≡ true)

reap-Kept :
    (c : Config) (s : Server) (p : Process)
    → Fits (waits reap s) p
    → Kept c reap s p (reaped s.child_pid p)
unfolding answer forgotten reaped after_reap has_status
reap-Kept c s absent h = ground arith
reap-Kept c s (running pid) h = ground arith
reap-Kept c s (stopped pid st) h = ground arith
reap-Kept c s (dead pid st) h = ground arith

wait-Kept :
    (c : Config) (persistent : Bool) (s : Server) (p : Process)
    → Fits (waits wait_child s) p
    → has_status p ≡ true
    → Kept c wait_child s p (waited persistent s.child_pid p)
unfolding answer forgotten waited reaped has_status is_stopped
wait-Kept c persistent s absent h k = ground arith
wait-Kept c true s (running pid) h k = ground arith
wait-Kept c false s (running pid) h k = ground arith
wait-Kept c true s (stopped pid st) h k = ground arith
wait-Kept c false s (stopped pid st) h k = ground arith
wait-Kept c true s (dead pid st) h k = ground arith
wait-Kept c false s (dead pid st) h k = ground arith

fork-Kept :
    (c : Config) (pid : ℕ) (s : Server) (p : Process)
    → Fits (waits fork_child s) p
    → Kept c fork_child s p (if pid == 0 then none else some (done pid, running pid))
unfolding answer forgotten extra after_fork has_status
fork-Kept c pid s absent h = ground arith
fork-Kept c pid s (running q) h = ground arith
fork-Kept c pid s (stopped q st) h = ground arith
fork-Kept c pid s (dead q st) h = ground arith

continue-Kept :
    (c : Config) (s : Server) (p : Process)
    → Fits (waits continue_child s) p
    → has_status p ≡ true
    → Kept c continue_child s p (some (done 0, resumed s.child_pid p))
unfolding answer forgotten resumed has_status
continue-Kept c s absent h k = ground arith
continue-Kept c s (running q) h k = ground arith
continue-Kept c s (stopped q st) h k = ground arith
continue-Kept c s (dead q st) h k = ground arith

request-Kept :
    (c : Config) (w : ℕ) (s : Server) (p : Process)
    → Fits (waits read_request s) p
    → has_status p ≡ true
    → Kept c read_request s p (if w == 0 || not (is_alive p) then some (done w, p) else none)
unfolding answer forgotten
request-Kept c w s p h k = elim (Bool-cases (w == 0 || not (is_alive p))) [
  | inl possible ↦
      rw possible (after_request-Fits (record s { was_killed = w }) p h.0 h.1 possible, refl, k)
  | inr impossible ↦ rw impossible tt
]

hello-Kept :
    (c : Config) (n : ℕ) (s : Server)
    → Fits (waits write_hello s) absent
    → Kept c write_hello s absent (some (done n, absent))
unfolding answer forgotten loop_head has_status
hello-Kept c n s h = ground arith

options-Kept :
    (c : Config) (w : ℕ) (s : Server)
    → Fits (waits read_options s) absent
    → Kept c read_options s absent (some (done w, absent))
unfolding answer forgotten has_status
options-Kept c w s h = elim (Bool-cases (c.accepts_sharedmem w)) [
  | inl accepted ↦ rw accepted (h, refl, refl)
  | inr refused ↦
      rw refused (after_options-Fits c (record s { was_killed = w }) (ground arith) h.1, refl, refl)
]

pub respond-Kept :
    (c : Config) (choice : Choice) (call : SystemCall) (s : Server) (p : Process)
    → Fits (waits call s) p
    → has_status p ≡ true
    → Kept c call s p (respond c choice call s p)
unfolding respond answer forgotten
respond-Kept c choice reap s p h k = reap-Kept c s p h
respond-Kept c choice wait_child s p h k = wait-Kept c c.is_persistent s p h k
respond-Kept c choice continue_child s p h k = continue-Kept c s p h k
respond-Kept c fail write_hello s p h k = (tt, refl, k)
respond-Kept c fail read_options s p h k = (tt, refl, k)
respond-Kept c fail map_fuzz s p h k = (tt, refl, k)
respond-Kept c fail read_request s p h k = (tt, refl, k)
respond-Kept c fail fork_child s p h k = ground arith
respond-Kept c fail write_pid s p h k = (tt, refl, k)
respond-Kept c fail write_status s p h k = (tt, refl, k)
respond-Kept c (give w) read_request s p h k = request-Kept c w s p h k
respond-Kept c (give pid) fork_child s p h k = fork-Kept c pid s p h
respond-Kept c (give n) write_hello s absent h k = hello-Kept c n s h
respond-Kept c (give n) write_hello s (running q) h k = ground arith
respond-Kept c (give n) write_hello s (stopped q st) h k = ground arith
respond-Kept c (give n) write_hello s (dead q st) h k = ground arith
respond-Kept c (give n) read_options s absent h k = options-Kept c n s h
respond-Kept c (give n) read_options s (running q) h k = ground arith
respond-Kept c (give n) read_options s (stopped q st) h k = ground arith
respond-Kept c (give n) read_options s (dead q st) h k = ground arith
respond-Kept c (give n) map_fuzz s absent h k = (after_options-Fits c s (ground arith) h.1, refl, k)
respond-Kept c (give n) map_fuzz s (running q) h k = ground arith
respond-Kept c (give n) map_fuzz s (stopped q st) h k = ground arith
respond-Kept c (give n) map_fuzz s (dead q st) h k = ground arith
respond-Kept c (give n) write_pid s p h k = ((h.0, h.1), refl, k)
respond-Kept c (give n) write_status s p h k = (loop_head-Fits s p h.0 h.1, refl, k)
