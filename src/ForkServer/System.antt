-- ===== src/ForkServer/System.antt =====
-- The fork server beside its child and afl-fuzz, in any order of their steps.
use pe_ar_honours.Prelude.{
  ℕ, ◌+◌, ◌==◌, ◌≡◌, Bool, true, false, not, ◌||◌, Option, none, some, if◌then◌else◌,
}
use pe_ar_honours.ForkServer.{
  Config, Server, SystemCall, read_request, reap, fork_child, continue_child, wait_child, Answer,
  failed, done, Point, waits, exits, is_stopped, answer, start_forkserver, at_exit,
}

-- The process that was forked last: reaped or not yet there, running, stopped or dead, with its pid, and the
-- status that waitpid reports.
pub data Process : Type 0 where
  absent : Process
  running : ℕ → Process
  stopped dead : ℕ → ℕ → Process

-- `lost` counts the processes that were neither reaped nor waited for when another was forked.
pub record System : Type 0 where
  pub point : Point
  pub child : Process
  pub lost : ℕ

-- A call fails, or gives a number of the other side's choice.
pub data Choice : Type 0 where
  fail : Choice
  give : ℕ → Choice

unfoldable pub is_alive : Process → Bool
is_alive absent = false
is_alive (dead pid st) = false
is_alive _ = true

unfoldable pub extra : Process → ℕ
extra absent = 0
extra _ = 1

-- waitpid for a dead child.
unfoldable pub reaped : ℕ → Process → Option (Answer × Process)
reaped pid absent = some (failed, absent)
reaped pid (dead q st) = if q == pid then some (done st, absent) else some (failed, dead q st)
reaped pid (running q) = if q == pid then none else some (failed, running q)
reaped pid (stopped q st) = if q == pid then none else some (failed, stopped q st)

-- waitpid with WUNTRACED also reports that the child has stopped.
unfoldable pub waited : Bool → ℕ → Process → Option (Answer × Process)
unfolding reaped
waited true pid (stopped q st) =
    if q == pid then some (done st, stopped q st) else some (failed, stopped q st)
waited _ pid p = reaped pid p

unfoldable pub resumed : ℕ → Process → Process
resumed pid (stopped q st) = if q == pid then running q else stopped q st
resumed pid p = p

-- What the system answers, and what becomes of the child; `none` if the call blocks, or the choice is
-- not possible. afl-fuzz says that it has killed the child only if no child is alive.
unfoldable pub respond : Config → Choice → SystemCall → Server → Process → Option (Answer × Process)
unfolding is_alive reaped waited resumed
respond c choice reap s p = reaped s.child_pid p
respond c choice wait_child s p = waited c.is_persistent s.child_pid p
respond c choice continue_child s p = some (done 0, resumed s.child_pid p)
respond c fail call s p = some (failed, p)
respond c (give w) read_request s p = if w == 0 || not (is_alive p) then some (done w, p) else none
respond c (give pid) fork_child s p = if pid == 0 then none else some (done pid, running pid)
respond c (give n) call s p = some (done n, p)

unfoldable pub forgotten : SystemCall → Process → ℕ
unfolding extra
forgotten fork_child p = extra p
forgotten _ p = 0

-- Who steps: the server, as far as a call returns; the child, which stops itself or dies, also by the
-- hand of afl-fuzz; or SIGTERM reaches the server.
pub data Move : Type 0 where
  serves : Choice → Move
  stops dies : ℕ → Move
  terminated : Move

unfoldable pub serve :
    Config → System → SystemCall → Server → Option (Answer × Process) → Option System
unfolding answer forgotten
serve c t call s none = none
serve c t call s (some (a, p)) =
    some (record { point = answer c call s a; child = p; lost = t.lost + forgotten call t.child })

unfoldable pub stop_child : ℕ → Process → Option Process
unfolding is_stopped
stop_child st (running pid) = if is_stopped st then some (stopped pid st) else none
stop_child st _ = none

unfoldable pub kill_child : ℕ → Process → Option Process
unfolding is_stopped
kill_child st (running pid) = if is_stopped st then none else some (dead pid st)
kill_child st (stopped pid old) = if is_stopped st then none else some (dead pid st)
kill_child st _ = none

abbrev pub with_child : System → Option Process → Option System
with_child t none = none
with_child t (some p) = some (record t { child = p })

-- `at_exit` kills the process with the pid and waits for it.
unfoldable pub without : Option ℕ → Process → Process
without none p = p
without (some pid) absent = absent
without (some pid) (running q) = if q == pid then absent else running q
without (some pid) (stopped q st) = if q == pid then absent else stopped q st
without (some pid) (dead q st) = if q == pid then absent else dead q st

unfoldable pub terminate : System → Point → Option System
unfolding at_exit without
terminate t (waits call s) =
    some (record t { point = exits 0; child = without (at_exit s) t.child })
terminate t _ = none

unfoldable pub serve_at : Config → Choice → System → Point → Option System
unfolding serve respond
serve_at c choice t (waits call s) = serve c t call s (respond c choice call s t.child)
serve_at c choice t _ = none

unfoldable pub move : Config → Move → System → Option System
unfolding serve_at stop_child kill_child terminate
move c (serves choice) t = serve_at c choice t t.point
move c (stops st) t = with_child t (stop_child st t.child)
move c (dies st) t = with_child t (kill_child st t.child)
move c terminated t = terminate t t.point

pub data Step (c : Config) (t : System) (u : System) : Type 0 where
  by : (m : Move) → move c m t ≡ some u → Step c t u

unfoldable pub begin : Bool → System
begin already_initialized = record {
  point = start_forkserver already_initialized;
  child = absent;
  lost = 0;
}

pub data Reach (c : Config) : System → Type 0 where
  first : (already_initialized : Bool) → Reach c (begin already_initialized)
  later : {t u : System} → Reach c t → Step c t u → Reach c u
