-- ===== src/Runtime/Loop.antt =====
-- A process that calls `__afl_persistent_loop` before each run of the function, and the maps that
-- afl-fuzz sees.
use pe_ar_honours.Prelude.{ℕ, ◌+◌, ◌%◌, ◌<◌, ◌==◌, ◌≡◌, arith, List, [], ◌∷◌, if◌then◌else◌}
use pe_ar_honours.Trampoline.{Flags, Op}
use pe_ar_honours.Trampoline.Edges.{hits, run_trampolines}
use pe_ar_honours.Persistent.{Round, afl_persistent_loop}
use pe_ar_honours.Runtime.{
  Process, Called, returns_one, stops, returns_zero, after_stop, persistent_loop,
}

-- The variables of the loop and its result are those of the model that the patch is run with.
abbrev round_of : Called → Round
round_of (returns_one p) = record { first_pass = p.first_pass; cycle_cnt = p.cycle_cnt; result = 1 }
round_of (stops p) = record { first_pass = p.first_pass; cycle_cnt = p.cycle_cnt; result = 1 }
round_of (returns_zero p) = record {
  first_pass = p.first_pass;
  cycle_cnt = p.cycle_cnt;
  result = 0;
}

persistent_loop-afl_persistent_loop :
    (n : ℕ) (p : Process)
    → round_of (persistent_loop n p) ≡ afl_persistent_loop n p.first_pass p.cycle_cnt
unfolding persistent_loop afl_persistent_loop
persistent_loop-afl_persistent_loop n p = ground arith

-- Byte k of the map after a run of blocks with these ids from a clean slate, in which only the first byte
-- is 1.
unfoldable pub coverage : List ℕ → ℕ → ℕ
coverage ids k = ((if k == 0 then 1 else 0) + hits ids 0 k) % 256

-- `reset` is what afl-fuzz does to the memory while the process has stopped.
unfoldable pub continued : ((ℕ → ℕ) → ℕ → ℕ) → Process → Process
unfolding after_stop
continued reset p = after_stop (record p { cpu = record p.cpu { bytes = reset p.cpu.bytes } })

module _ (arithmetic_flags : Op → ℕ → Flags) (return_address : ℕ) where
  -- Blocks with these ids run.
  unfoldable pub run_blocks : List ℕ → Process → Process
  run_blocks ids p = record p { cpu = run_trampolines arithmetic_flags return_address ids p.cpu }

  -- The memory at the end of the process, if the loop is over.
  unfoldable pub ended : List ℕ → Called → List (ℕ → ℕ)
  unfolding run_blocks
  ended behind (returns_zero p) = (run_blocks behind p).cpu.bytes ∷ []
  ended behind _ = []

  module _ (reset : (ℕ → ℕ) → ℕ → ℕ) where
    -- The memory at each stop and at the end of the process. The blocks of each run of the function are
    -- given, and those after the loop.
    unfoldable pub run_loop : ℕ → List (List ℕ) → List ℕ → Process → List (ℕ → ℕ)
    unfolding ended run_blocks continued
    run_loop max_cnt [] behind p = ended behind (persistent_loop max_cnt p)
    run_loop max_cnt (ids ∷ runs) behind p = elim (persistent_loop max_cnt p) [
      | returns_one q ↦ run_loop max_cnt runs behind (run_blocks ids q)
      | stops q ↦ q.cpu.bytes ∷ run_loop max_cnt runs behind (run_blocks ids (continued reset q))
      | returns_zero q ↦ ended behind (returns_zero q)
    ]

-- The map at an address, byte for byte, after each run in turn: that of the run alone.
abbrev pub IsCovered : ℕ → ℕ → List (List ℕ) → List (ℕ → ℕ) → Type 0
IsCovered area map_size [] [] = Unit
IsCovered area map_size (ids ∷ runs) (bytes ∷ later) =
    ((k : ℕ) → k < map_size → bytes (area + k) ≡ coverage ids k)
    × IsCovered area map_size runs later
IsCovered area map_size _ _ = ⊥
