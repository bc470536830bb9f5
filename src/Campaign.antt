-- ===== src/Campaign.antt =====
-- The fork server and the loop of instrumentation/afl-instrumentation.c with the trampolines of add_afl.py: what
-- afl-fuzz gets to know of one test case after the other.
pub mod Turn
pub mod Covered
mod Tests
use pe_ar_honours.Prelude.{
  ℕ, ◌+◌, Bool, true, false, Option, none, some, List, [], ◌∷◌, ◌++◌, if◌then◌else◌,
}
use pe_ar_honours.Trampoline.{Flags, Op}
use pe_ar_honours.Runtime.{Process, Called, returns_one, stops, returns_zero, persistent_loop}
use pe_ar_honours.Runtime.Loop.{run_blocks, continued}
use pe_ar_honours.ForkServer.{Config}
use pe_ar_honours.ForkServer.System.{System, begin}
use pe_ar_honours.ForkServer.Protocol.{Traffic, play}
use pe_ar_honours.ForkServer.Session.{is_held, turn, opening}

-- The system where the server has read a request, the memory of its child, and the number of children so
-- far.
pub record Session : Type 0 where
  pub system : System
  pub child : Process
  pub forks : ℕ

-- A run of the function: whether the process goes on, its memory, and what afl-fuzz finds in memory.
pub record Ran : Type 0 where
  pub goes_on : Bool
  pub process : Process
  pub seen : ℕ → ℕ

-- What has passed over the pipes, and what afl-fuzz has found in memory after each test case.
pub record Log : Type 0 where
  pub traffic : List Traffic
  pub maps : List (ℕ → ℕ)

-- `reset` is what afl-fuzz does to the memory while a child has stopped. The memory that a child finds, with the
-- map that it shares, and the blocks that run before the loop and behind it are given by the number of
-- children.
module _ (arithmetic_flags : Op → ℕ → Flags) (return_address : ℕ) (reset : (ℕ → ℕ) → ℕ → ℕ)
    (memory : ℕ → ℕ → ℕ) (before later : ℕ → List ℕ) where
  -- A new child, up to the first run of the function.
  unfoldable pub entered : Called → Option Process
  entered (returns_one p) = some p
  entered _ = none

  -- The call of the loop after a run.
  unfoldable pub ran : List ℕ → Called → Option Ran
  unfolding run_blocks
  ran behind (stops p) = some (record { goes_on = true; process = p; seen = p.cpu.bytes })
  ran behind (returns_zero p) = some (record {
    goes_on = false;
    process = p;
    seen = (run_blocks arithmetic_flags return_address behind p).cpu.bytes;
  })
  ran behind (returns_one p) = none

  unfoldable pub made :
      ℕ → Ran → Option (System × List Traffic) → Option (Session × List Traffic × (ℕ → ℕ))
  made forks r none = none
  made forks r (some (t, log)) =
      some (record { system = t; child = r.process; forks = forks }, log, r.seen)

  module _ (c : Config) (n : ℕ) (pids : ℕ → ℕ) (parent : Process) where
    -- A child has the registers and variables of its parent.
    unfoldable pub forked : ℕ → Process
    forked q = record parent { cpu = record parent.cpu { bytes = memory q } }

    -- The child is forked, or continued.
    unfoldable pub ready : Bool → Session → Option Process
    unfolding entered run_blocks continued forked
    ready true t = some (continued reset t.child)
    ready false t = entered (
        persistent_loop n
          (run_blocks arithmetic_flags return_address (before t.forks) (forked t.forks)))

    unfoldable pub after_run :
        Bool → Session → Option Ran → Option (Session × List Traffic × (ℕ → ℕ))
    unfolding made
    after_run held t none = none
    after_run held t (some r) =
        made (if held then t.forks else t.forks + 1) r
          (play c (turn held (pids t.forks) r.goes_on) t.system)

    unfoldable pub after_ready :
        Bool → Session → List ℕ → Option Process → Option (Session × List Traffic × (ℕ → ℕ))
    unfolding after_run ran run_blocks
    after_ready held t ids none = none
    after_ready held t ids (some p) =
        after_run held t (
          ran (later t.forks)
            (persistent_loop n (run_blocks arithmetic_flags return_address ids p)))

    -- One test case, with which the function runs the blocks with these ids.
    unfoldable pub fuzz_turn : Session → List ℕ → Option (Session × List Traffic × (ℕ → ℕ))
    unfolding ready after_ready is_held
    fuzz_turn t ids = let held = is_held t.system.child in after_ready held t ids (ready held t)

    unfoldable pub extended :
        List Traffic → (ℕ → ℕ) → Option (Session × Log) → Option (Session × Log)
    extended traffic map none = none
    extended traffic map (some (t, log)) =
        some (t, record { traffic = traffic ++ log.traffic; maps = map ∷ log.maps })

    unfoldable pub fuzz_turns : List (List ℕ) → Session → Option (Session × Log)
    unfolding fuzz_turn extended
    fuzz_turns [] t = some (t, record { traffic = []; maps = [] })
    fuzz_turns (ids ∷ inputs) t = elim (fuzz_turn t ids) [
      | none ↦ none
      | some (u, traffic, map) ↦ extended traffic map (fuzz_turns inputs u)
    ]

    unfoldable pub opened_with : List Traffic → Option (Session × Log) → Option (Session × Log)
    opened_with traffic none = none
    opened_with traffic (some (t, log)) = some (t, record log { traffic = traffic ++ log.traffic })

    -- The server is started in a process with this memory, and gets the test cases.
    unfoldable pub fuzz : ℕ → List (List ℕ) → Option (Session × Log)
    unfolding fuzz_turns opened_with
    fuzz w inputs = elim (play c (opening c w) (begin false)) [
      | none ↦ none
      | some (t, traffic) ↦
          opened_with traffic (fuzz_turns inputs (record { system = t; child = parent; forks = 0 }))
    ]
