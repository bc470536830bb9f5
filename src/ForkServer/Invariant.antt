-- ===== src/ForkServer/Invariant.antt =====
-- What holds of the fork server, its child and afl-fuzz in every state that they reach.
use mathlib.Core.Path.{subst}
use mathlib.Core.Option.{some-injective}
use pe_ar_honours.Prelude.{ℕ, ◌≡◌, refl, arith, Bool, true, false, Option, none, some}
use pe_ar_honours.ForkServer.{
  Config, Server, SystemCall, write_pid, Answer, Point, waits, exits, resumes, start_forkserver,
  at_exit,
}
use pe_ar_honours.ForkServer.System.{
  Process, absent, running, stopped, dead, System, Choice, respond, Move, serves, stops, dies,
  terminated, serve, stop_child, kill_child, with_child, without, terminate, serve_at, move, by,
  begin, Reach, first, later,
}
use pe_ar_honours.ForkServer.Sound.{fits, has_status, Fits, Kept, respond-Kept}

-- The server knows its child, waitpid reports what has become of it, and no process was left behind.
pub record IsSound (t : System) : Type 0 where
  pub fitting : Fits t.point t.child
  pub told : has_status t.child ≡ true
  pub none_lost : t.lost ≡ 0

serve-IsSound :
    (c : Config) (t u : System) (call : SystemCall) (s : Server) (r : Option (Answer × Process))
    → Kept c call s t.child r
    → t.lost ≡ 0
    → serve c t call s r ≡ some u
    → IsSound u
unfolding serve
serve-IsSound c t u call s none kept lost e = cc
serve-IsSound c t u call s (some (a, p)) kept lost e =
    subst IsSound (some-injective _ _ e)
      (record { fitting = kept.0; told = kept.2; none_lost = omega (arith, kept.1) })

serve_at-IsSound :
    (c : Config) (choice : Choice) (t u : System) (point : Point)
    → Fits point t.child
    → has_status t.child ≡ true
    → t.lost ≡ 0
    → serve_at c choice t point ≡ some u
    → IsSound u
unfolding serve_at
serve_at-IsSound c choice t u (waits call s) fitting told lost e =
    serve-IsSound c t u call s (respond c choice call s t.child)
      (respond-Kept c choice call s t.child fitting told) lost e
serve_at-IsSound c choice t u (exits n) fitting told lost e = cc
serve_at-IsSound c choice t u resumes fitting told lost e = cc

-- A step of the child keeps what the server knows.
abbrev StillFits : SystemCall → Server → Option Process → Type 0
StillFits call s none = Unit
StillFits call s (some q) = fits call s q ≡ true

stop_child-StillFits :
    (st : ℕ) (call : SystemCall) (s : Server) (p : Process)
    → fits call s p ≡ true
    → StillFits call s (stop_child st p)
unfolding stop_child
stop_child-StillFits st write_pid s (running pid) h = ground arith
stop_child-StillFits st call s (running pid) h = ground arith
stop_child-StillFits st call s absent h = tt
stop_child-StillFits st call s (stopped pid old) h = tt
stop_child-StillFits st call s (dead pid old) h = tt

kill_child-StillFits :
    (st : ℕ) (call : SystemCall) (s : Server) (p : Process)
    → fits call s p ≡ true
    → StillFits call s (kill_child st p)
unfolding kill_child
kill_child-StillFits st write_pid s (running pid) h = ground arith
kill_child-StillFits st call s (running pid) h = ground arith
kill_child-StillFits st write_pid s (stopped pid old) h = ground arith
kill_child-StillFits st call s (stopped pid old) h = ground arith
kill_child-StillFits st call s absent h = tt
kill_child-StillFits st call s (dead pid old) h = tt

abbrev IsTold : Option Process → Type 0
IsTold none = Unit
IsTold (some q) = has_status q ≡ true

stop_child-IsTold : (st : ℕ) (p : Process) → IsTold (stop_child st p)
unfolding stop_child has_status
stop_child-IsTold st (running pid) = ground arith
stop_child-IsTold st p = tt

kill_child-IsTold : (st : ℕ) (p : Process) → IsTold (kill_child st p)
unfolding kill_child has_status
kill_child-IsTold st (running pid) = ground arith
kill_child-IsTold st (stopped pid old) = ground arith
kill_child-IsTold st p = tt

point-Fits :
    (point : Point) (p q : Process)
    → ((call : SystemCall) (s : Server) → fits call s p ≡ true → fits call s q ≡ true)
    → Fits point p
    → Fits point q
point-Fits (waits call s) p q kept h = (kept call s h.0, h.1)
point-Fits (exits n) p q kept h = tt
point-Fits resumes p q kept h = tt

child-IsSound :
    (t u : System) (r : Option Process)
    → ((call : SystemCall) (s : Server) → fits call s t.child ≡ true → StillFits call s r)
    → IsTold r
    → IsSound t
    → with_child t r ≡ some u
    → IsSound u
child-IsSound t u none kept told sound e = cc
child-IsSound t u (some q) kept told sound e = subst IsSound (some-injective _ _ e) (record {
  fitting = point-Fits t.point t.child q kept sound.fitting;
  told = told;
  none_lost = sound.none_lost;
})

without-has_status :
    (pid : Option ℕ) (p : Process) → has_status p ≡ true → has_status (without pid p) ≡ true
unfolding without has_status
without-has_status none p h = h
without-has_status (some pid) absent h = refl
without-has_status (some pid) (running q) h = ground arith
without-has_status (some pid) (stopped q st) h = ground arith
without-has_status (some pid) (dead q st) h = ground arith

terminate-IsSound :
    (t u : System) (point : Point) → IsSound t → terminate t point ≡ some u → IsSound u
unfolding terminate
terminate-IsSound t u (waits call s) sound e = subst IsSound (some-injective _ _ e) (record {
  fitting = tt;
  told = without-has_status (at_exit s) t.child sound.told;
  none_lost = sound.none_lost;
})
terminate-IsSound t u (exits n) sound e = cc
terminate-IsSound t u resumes sound e = cc

pub move-IsSound :
    (c : Config) (m : Move) (t u : System) → IsSound t → move c m t ≡ some u → IsSound u
unfolding move
move-IsSound c (serves choice) t u sound e =
    serve_at-IsSound c choice t u t.point sound.fitting sound.told sound.none_lost e
move-IsSound c (stops st) t u sound e =
    child-IsSound t u (stop_child st t.child) (λ call s h. stop_child-StillFits st call s t.child h)
      (stop_child-IsTold st t.child) sound e
move-IsSound c (dies st) t u sound e =
    child-IsSound t u (kill_child st t.child) (λ call s h. kill_child-StillFits st call s t.child h)
      (kill_child-IsTold st t.child) sound e
move-IsSound c terminated t u sound e = terminate-IsSound t u t.point sound e

begin-IsSound : (already_initialized : Bool) → IsSound (begin already_initialized)
unfolding begin start_forkserver has_status
begin-IsSound true = record { fitting = tt; told = refl; none_lost = refl }
begin-IsSound false = record { fitting = (refl, refl); told = refl; none_lost = refl }

pub Reach-IsSound : {c : Config} {t : System} → Reach c t → IsSound t
Reach-IsSound (first already_initialized) = begin-IsSound already_initialized
Reach-IsSound {c} (later {t} {u} r (by m e)) = move-IsSound c m t u (Reach-IsSound r) e
