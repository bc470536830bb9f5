-- ===== src/ForkServer/Progress.antt =====
-- The fork server gets to the next request, in whatever order it and its child step.
use mathlib.Core.Path.{subst}
use mathlib.Core.Option.{some-injective}
use pe_ar_honours.Prelude.{
  sym, ◌∙◌, ℕ, zero, suc, ◌+◌, ◌*◌, ◌<◌, ◌≤◌, ◌==◌, ◌≡◌, refl, ap, arith, Bool, true, false, ◌||◌,
  Option, none, some, Bool-cases, inl, inr,
}
use pe_ar_honours.ForkServer.{
  Config, Server, SystemCall, write_hello, read_options, map_fuzz, read_request, reap, fork_child,
  continue_child, write_pid, wait_child, write_status, Answer, Point, waits, answer, after_reap,
  is_stopped,
}
use pe_ar_honours.ForkServer.System.{
  Process, absent, running, stopped, dead, System, give, fail, reaped, waited, respond, Move,
  serves, stops, dies, terminated, serve, stop_child, kill_child, with_child, serve_at, move, Reach,
}
use pe_ar_honours.ForkServer.Sound.{fits, Fits}
use pe_ar_honours.ForkServer.Invariant.{IsSound, Reach-IsSound, move-IsSound}
use pe_ar_honours.ForkServer.Nearer.{
  rank, steps, weight, Lower, steps-le, rank-cases, respond-Lower,
}

-- A call that returns with a number, or a step of the child.
abbrev pub helps : Move → Bool
helps (serves (give n)) = true
helps (stops st) = true
helps (dies st) = true
helps _ = false

-- The server gets to the next request: it is there; or such a step is possible, and each of them leads to
-- where it gets there.
pub data Asks (c : Config) : System → Type 0 where
  now :
      (s : Server) (p : Process) (l : ℕ)
      → Asks c (record { point = waits read_request s; child = p; lost = l })
  later :
      {t : System} (m : Move) (u : System)
      → helps m ≡ true
      → move c m t ≡ some u
      → ((m : Move) (u : System) → helps m ≡ true → move c m t ≡ some u → Asks c u)
      → Asks c t

abbrev at : SystemCall → Server → Process → ℕ → System
at call s p l = record { point = waits call s; child = p; lost = l }

-- A step leads to a state in which the server waits, and that is nearer.
Descends : ℕ → System → Type 0
Descends n u =
    (call : SystemCall) × (s : Server) × (u.point ≡ waits call s) × (weight call u.child < n)

serve-Descends :
    (c : Config) (t u : System) (call : SystemCall) (s : Server) (r : Option (Answer × Process))
    → Lower c call s r
    → serve c t call s r ≡ some u
    → Descends (3 * rank call) u
unfolding serve Descends
serve-Descends c t u call s none lower e = cc
serve-Descends c t u call s (some (a, p)) (next, v, there, nearer) e =
    subst (Descends (3 * rank call)) (some-injective _ _ e)
      (next, v, there, omega (arith, steps-le p, nearer))

Fewer : Process → Option Process → Type 0
Fewer p none = Unit
Fewer p (some q) = steps q < steps p

stop_child-Fewer : (st : ℕ) (p : Process) → Fewer p (stop_child st p)
unfolding stop_child Fewer
stop_child-Fewer st absent = tt
stop_child-Fewer st (dead q old) = tt
stop_child-Fewer st (stopped q old) = tt
stop_child-Fewer st (running q) = ground arith

kill_child-Fewer : (st : ℕ) (p : Process) → Fewer p (kill_child st p)
unfolding kill_child Fewer
kill_child-Fewer st absent = tt
kill_child-Fewer st (dead q old) = tt
kill_child-Fewer st (stopped q old) = ground arith
kill_child-Fewer st (running q) = ground arith

child-Descends :
    (call : SystemCall) (s : Server) (p : Process) (l : ℕ) (u : System) (r : Option Process)
    → Fewer p r
    → with_child (at call s p l) r ≡ some u
    → Descends (weight call p) u
unfolding Fewer Descends
child-Descends call s p l u none fewer e = cc
child-Descends call s p l u (some q) fewer e =
    subst (Descends (weight call p)) (some-injective _ _ e) (call, s, refl, omega (arith, fewer))

Descends-mono : (m n : ℕ) (u : System) → m ≤ n → Descends m u → Descends n u
unfolding Descends
Descends-mono m n u h (call, s, there, less) = (call, s, there, omega (arith, less, h))

move-Descends :
    (c : Config) (m : Move) (call : SystemCall) (s : Server) (p : Process) (l : ℕ) (u : System)
    → Fits (waits call s) p
    → 0 < rank call
    → helps m ≡ true
    → move c m (at call s p l) ≡ some u
    → Descends (weight call p) u
unfolding move serve_at
move-Descends c (serves fail) call s p l u fitting far h e = cc
move-Descends c (serves (give n)) call s p l u fitting far h e =
    Descends-mono (3 * rank call) (weight call p) u (omega arith)
      (serve-Descends c (at call s p l) u call s _ (respond-Lower c n call s p fitting far) e)
move-Descends c (stops st) call s p l u fitting far h e =
    child-Descends call s p l u _ (stop_child-Fewer st p) e
move-Descends c (dies st) call s p l u fitting far h e =
    child-Descends call s p l u _ (kill_child-Fewer st p) e
move-Descends c terminated call s p l u fitting far h e = cc

-- Such a step is possible.
CanStep : Config → System → Type 0
CanStep c t = (m : Move) × (u : System) × (helps m ≡ true) × (move c m t ≡ some u)

CanStep-reap :
    (c : Config) (s : Server) (p : Process) (l : ℕ)
    → fits reap s p ≡ true
    → CanStep c (at reap s p l)
unfolding CanStep move serve_at serve respond reaped answer
CanStep-reap c s absent l h = ground arith
CanStep-reap c s (running q) l h = ground arith
CanStep-reap c s (stopped q st) l h = ground arith
CanStep-reap c s (dead q st) l h =
    let same : (q == s.child_pid) ≡ true = ground arith in
    (
      serves (give 0),
      record { point = after_reap (record s { status = st }); child = absent; lost = l + 0 },
      refl,
      simp same refl,
    )

CanStep-wait :
    (c : Config) (s : Server) (p : Process) (l : ℕ)
    → fits wait_child s p ≡ true
    → CanStep c (at wait_child s p l)
unfolding CanStep move serve_at serve respond waited reaped kill_child is_stopped
CanStep-wait c s absent l h = ground arith
CanStep-wait c s (running q) l h = (dies 0, _, refl, refl)
CanStep-wait c s (stopped q st) l h = (dies 0, _, refl, refl)
CanStep-wait c s (dead q st) l h =
    let same : (q == s.child_pid) ≡ true = ground arith in
    elim (Bool-cases c.is_persistent) [
      | inl persistent ↦ (
        serves (give 0),
        at write_status (record s { status = st; child_stopped = s.child_stopped || is_stopped st })
            absent (l + 0),
        refl,
        simp (persistent, same) refl,
      )
      | inr plain ↦ (
        serves (give 0),
        at write_status (record s { status = st; child_stopped = s.child_stopped || is_stopped st })
            absent (l + 0),
        refl,
        simp (plain, same) refl,
      )
    ]

at-CanStep :
    (c : Config) (call : SystemCall) (s : Server) (p : Process) (l : ℕ)
    → Fits (waits call s) p
    → 0 < rank call
    → CanStep c (at call s p l)
unfolding CanStep move serve_at serve respond
at-CanStep c reap s p l h far = CanStep-reap c s p l h.0
at-CanStep c wait_child s p l h far = CanStep-wait c s p l h.0
at-CanStep c continue_child s p l h far = (serves (give 0), _, refl, refl)
at-CanStep c read_request s p l h far = absurd (omega (arith, far))
at-CanStep c fork_child s p l h far = (serves (give 1), _, refl, refl)
at-CanStep c write_hello s p l h far = (serves (give 4), _, refl, refl)
at-CanStep c read_options s p l h far = (serves (give 0), _, refl, refl)
at-CanStep c map_fuzz s p l h far = (serves (give 0), _, refl, refl)
at-CanStep c write_pid s p l h far = (serves (give 4), _, refl, refl)
at-CanStep c write_status s p l h far = (serves (give 4), _, refl, refl)

sound-Asks :
    (c : Config) (n : ℕ) (call : SystemCall) (s : Server) (t : System)
    → t.point ≡ waits call s
    → weight call t.child < n
    → IsSound t
    → Asks c t
unfolding CanStep Descends
sound-Asks c zero call s t e less sound = absurd (omega (arith, less))
sound-Asks c (suc n) call s t e less sound =
    let fitting : Fits (waits call s) t.child =
      subst (λ (x : Point). Fits x t.child) e sound.fitting in
    let same : at call s t.child t.lost ≡ t =
      ap (λ x. record { point = x; child = t.child; lost = t.lost }) (sym e) in
    elim (rank-cases call) [
      | inl here ↦
          subst (Asks c) (ap (λ x. at x s t.child t.lost) (sym here) ∙ same) (now s t.child t.lost)
      | inr far ↦
          let (m, u, helping, possible) = at-CanStep c call s t.child t.lost fitting far in
          later m u helping (subst (λ (x : System). move c m x ≡ some u) same possible)
            (λ m u helping there.
              let (next, v, waiting, nearer) =
                move-Descends c m call s t.child t.lost u fitting far helping
                  (subst (λ (x : System). move c m x ≡ some u) (sym same) there) in
              sound-Asks c n next v u waiting (omega (arith, nearer, less))
                (move-IsSound c m t u sound there))
    ]

-- In every state that the fork server, its child and afl-fuzz reach, in any order of their steps, with the
-- server at a system call: as long as no call fails and no SIGTERM comes, the server gets to the next request, in
-- whatever order it and its child step, whatever its calls return, and whether its child stops or ends: a step
-- is possible until it is there, and it is there after finitely many.
pub Reach-Asks :
    {c : Config} {t : System} (call : SystemCall) (s : Server)
    → Reach c t
    → t.point ≡ waits call s
    → Asks c t
Reach-Asks {c} {t} call s r e =
    sound-Asks c (suc (weight call t.child)) call s t e (omega arith) (Reach-IsSound r)
