-- ===== src/ForkServer/Session.antt =====
-- Runs of `__afl_start_forkserver` whose children call `__afl_persistent_loop`.
use pe_ar_honours.Prelude.{
  ℕ, zero, suc, ◌+◌, ◌/◌, ◌%◌, ◌==◌, Bool, true, false, not, Option, none, some, List, [], ◌∷◌,
  ◌++◌, if◌then◌else◌,
}
use pe_ar_honours.Persistent.{Round, afl_persistent_loop}
use pe_ar_honours.ForkServer.{Config}
use pe_ar_honours.ForkServer.System.{
  Process, stopped, System, give, Move, serves, stops, dies, begin,
}
use pe_ar_honours.ForkServer.Protocol.{Traffic, greeting, options, request, pid, status, play}

-- The system where the server has read a request, what the last call of the loop in the child left, and
-- the number of children so far.
pub record Session : Type 0 where
  pub system : System
  pub round : Round
  pub forks : ℕ

unfoldable pub is_held : Process → Bool
is_held (stopped child st) = true
is_held _ = false

-- The first call of `__afl_persistent_loop` in a new child, with `first_pass` and `cycle_cnt` as in
-- `.data`.
unfoldable pub born : ℕ → Round
born n = afl_persistent_loop n 1 0

-- fork gives the pid, or the child goes on; the child runs the function and calls
-- `__afl_persistent_loop`, where it stops itself, or it returns 0 and the program ends with status 0; the
-- server sends both numbers, and reads the next request. The status 0x137f is that of a stop by SIGSTOP.
unfoldable pub turn : Bool → ℕ → Bool → List Move
turn held new goes_on =
    serves (give (if held then 0 else new))
    ∷ serves (give 4)
    ∷ (if goes_on then stops 0x137f else dies 0)
    ∷ serves (give 0)
    ∷ serves (give 4)
    ∷ serves (give 0)
    ∷ []

unfoldable pub after_turn :
    Round → ℕ → Option (System × List Traffic) → Option (Session × List Traffic)
after_turn round forks none = none
after_turn round forks (some (t, log)) =
    some (record { system = t; round = round; forks = forks }, log)

unfoldable pub serve_turn : Config → ℕ → (ℕ → ℕ) → Session → Option (Session × List Traffic)
unfolding is_held after_turn
serve_turn c n pids t =
    let held = is_held t.system.child in
    let last : Round = if held then t.round else born n in
    let next : Round = afl_persistent_loop n last.first_pass last.cycle_cnt in
    after_turn next (if held then t.forks else t.forks + 1)
      (play c (turn held (pids t.forks) (not (next.result == 0))) t.system)

unfoldable pub before :
    List Traffic → Option (Session × List Traffic) → Option (Session × List Traffic)
before log none = none
before log (some (t, later)) = some (t, log ++ later)

unfoldable pub serve_turns : Config → ℕ → (ℕ → ℕ) → ℕ → Session → Option (Session × List Traffic)
unfolding before
serve_turns c n pids zero t = some (t, [])
serve_turns c n pids (suc r) t = elim (serve_turn c n pids t) [
  | none ↦ none
  | some (u, log) ↦ before log (serve_turns c n pids r u)
]

-- From the greeting to the first request: with shared memory, the answer to the greeting.
unfoldable pub opening : Config → ℕ → List Move
opening c w =
    if c.sharedmem_fuzzing
    then serves (give 4)
      ∷ serves (give w)
      ∷ (if c.accepts_sharedmem w then serves (give 0) ∷ [] else [])
    else serves (give 4) ∷ serves (give 0) ∷ []

-- The server is started and serves r requests.
unfoldable pub serve_all : Config → ℕ → (ℕ → ℕ) → ℕ → ℕ → Option (Session × List Traffic)
unfolding after_turn before
serve_all c n pids w r = elim (after_turn (born n) 0 (play c (opening c w) (begin false))) [
  | none ↦ none
  | some (t, log) ↦ before log (serve_turns c n pids r t)
]

-- What afl-fuzz is told of a request, and its next request. A child serves n.
unfoldable pub exchanges : ℕ → (ℕ → ℕ) → ℕ → ℕ → List Traffic
exchanges n pids i zero = []
exchanges n pids i (suc r) =
    pid (pids (i / n))
    ∷ status (if not ((i + 1) % n == 0) then 0x137f else 0)
    ∷ request 0
    ∷ exchanges n pids (i + 1) r

abbrev pub opened : Config → ℕ → List Traffic
opened c w = greeting ∷ (if c.sharedmem_fuzzing then options w else request 0) ∷ []
