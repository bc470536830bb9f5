-- ===== src/Persistent/Runs.antt =====
-- A call of the function with its patch, to its end.
use pe_ar_honours.Prelude.{
  ℕ, zero, suc, ◌+◌, ◌-◌, ◌%◌, ◌^◌, ◌==◌, ◌<◌, ◌≤◌, ◌≡◌, refl, ◌∙◌, sym, ap, arith, Bool, true,
  false, none, some, List, [], ◌∷◌, All, length, ==_iff, Outcome, ok,
}
use pe_ar_honours.Text.{Text, codes, text_eq}
use pe_ar_honours.Machine.{higher}
use pe_ar_honours.Registers.{backup_register_asm}
use pe_ar_honours.Registers.Saved.{saved}
use pe_ar_honours.Persistent.{
  Machine, World, Instruction, moves, load_first_pass, pop, save_return, setup_loop, starts, same,
  afl_persistent_loop, set, exec, exec_all, run, persistent_mode_patch,
}
use pe_ar_honours.Persistent.Calls.{KeepsStack}
use pe_ar_honours.Persistent.Loop.{Ended, return, after_run, run_function}
use pe_ar_honours.Persistent.Between.{
  KeepsLoop, IsStarted, HasReturned, IsBetween, lines, rest_of_round, last_round, next_round,
}

module _ (w : World) (loc_is_persistent : Bool) (name : Text) (n : ℕ) (m : Machine) where
  module _ (abi : KeepsStack w (codes "__afl_persistent_loop"))
      (hook_abi : loc_is_persistent ≡ true → KeepsStack w name) (keeps : KeepsLoop w)
      (small : n < 2 ^ 32) (room : 167 ≤ m.rsp) (bound : m.rsp + 8 < 2 ^ 64) where
    patch_again :
        (z : Machine)
        → z.first_pass ≡ 0
        → run w (some setup_loop) (lines w loc_is_persistent name n m) z
          ≡ rest_of_round w loc_is_persistent name n m abi hook_abi keeps small room bound
              (exec w load_first_pass z)
    unfolding run same exec exec_all set text_eq persistent_mode_patch
    patch_again z pass = rw pass refl

    called_first : List Instruction
    called_first =
        moves backup_register_asm ∷ load_first_pass ∷ pop (codes "rax") ∷ save_return ∷ []

    patch_first :
        m.first_pass ≡ 1
        → run w none (lines w loc_is_persistent name n m) m
          ≡ rest_of_round w loc_is_persistent name n m abi hook_abi keeps small room bound
              (exec_all w called_first m)
    unfolding run same exec exec_all set text_eq persistent_mode_patch called_first
    patch_first pass = rw pass refl

    -- Rounds with a function that is started again.
    abbrev Ends : ℕ → Outcome Ended → Type 0
    Ends k o =
        (e : Ended) × (o ≡ ok e)
        × (length e.started ≡ k)
        × All (IsStarted w loc_is_persistent name n m) e.started
        × HasReturned w loc_is_persistent name n m e

    after_run-starts :
        (again : Machine → Outcome Ended) (k : ℕ) (s : Machine)
        → IsStarted w loc_is_persistent name n m s
        → Ends k (again (return (w.function_body s)))
        → Ends (suc k) (after_run w again (starts s))
    unfolding after_run
    after_run-starts again k s started (e, ran, many, all, returned) =
        let (same_rsp, same_cell, _, _, _, _) = keeps s in
        let done = w.function_body s in
        let address : done.cell done.rsp ≡ w.setup_address =
          ap done.cell same_rsp ∙ same_cell ∙ started.1 in
        (
          record e { started = s ∷ e.started },
          rw ((==_iff (done.cell done.rsp) w.setup_address).1 address, ran) refl,
          rw many refl,
          (started, all),
          returned,
        )

    recount :
        (j k : ℕ) (z : Machine)
        → j ≡ k
        → IsBetween w loc_is_persistent name n m 0 j z
        → IsBetween w loc_is_persistent name n m 0 k z
    recount j k z e (rsp, address, pass, count, backup) = (rsp, address, pass, count ∙ e, backup)

    left_lem : (k : ℕ) → suc k < 2 ^ 32 - 1 → (suc (suc k) + (2 ^ 32 - 1)) % 2 ^ 32 ≡ suc k
    left_lem k h = omega arith

    suc_test : (k : ℕ) → (suc k == 0) ≡ false
    suc_test k = ground arith

    rounds :
        (k : ℕ) (z : Machine)
        → k < 2 ^ 32 - 1
        → IsBetween w loc_is_persistent name n m 0 (suc k) z
        → Ends k (run_function w (lines w loc_is_persistent name n m) (suc k) (some setup_loop) z)
    unfolding run_function exec set afl_persistent_loop
    rounds zero z few between =
        let (e, ran, none_started, returned) =
          last_round w loc_is_persistent name n m abi hook_abi keeps small room bound
            (run_function w (lines w loc_is_persistent name n m) zero (some setup_loop))
            (exec w load_first_pass z) between in
        (e, rw (patch_again z between.2) ran, rw none_started refl, rw none_started tt, returned)
    rounds (suc k) z few between =
        let again = run_function w (lines w loc_is_persistent name n m) (suc k) (some setup_loop) in
        let left : (suc (suc k) + (2 ^ 32 - 1)) % 2 ^ 32 ≡ suc k = left_lem k few in
        let (s, ran, started, after_body) =
          next_round w loc_is_persistent name n m abi hook_abi keeps small room bound 0
            (suc (suc k)) (exec w load_first_pass z) between (rw (left, suc_test k) refl) in
        let back = return (w.function_body s) in
        rw (patch_again z between.2, ran)
          (after_run-starts again k s started
            (rounds k back (omega arith) (recount _ (suc k) back left after_body)))

    rounds_left :
        (k j : ℕ) (z : Machine)
        → j ≡ suc k
        → k < 2 ^ 32 - 1
        → IsBetween w loc_is_persistent name n m 0 j z
        → Ends k (run_function w (lines w loc_is_persistent name n m) j (some setup_loop) z)
    rounds_left k j z e few between = rw e (rounds k z few (rw e at between))

    all_rounds :
        (c : ℕ)
        → n ≡ suc c
        → m.first_pass ≡ 1
        → Ends (suc c) (run_function w (lines w loc_is_persistent name n m) (suc n) none m)
    unfolding run_function exec exec_all set text_eq afl_persistent_loop called_first
    all_rounds c positive pass =
        let first = exec_all w called_first m in
        let above : higher m.rsp 8 ≡ m.rsp + 8 = omega arith in
        let between : IsBetween w loc_is_persistent name n m 1 m.cycle_cnt first =
          (above, refl, pass, refl, λ h. saved m.registers) in
        let (s, ran, started, after_body) =
          next_round w loc_is_persistent name n m abi hook_abi keeps small room bound 1 m.cycle_cnt
            first between refl in
        rw (patch_first pass, ran)
          (after_run-starts
            (run_function w (lines w loc_is_persistent name n m) n (some setup_loop)) c s started
            (rounds_left c n (return (w.function_body s)) positive (omega arith) after_body))

  -- With a count from 1 to 2 ^ 32 - 1, on the first call and with 167 bytes of stack, if the runtime,
  -- the hook and the function return with their stack kept, and the function keeps the variables of
  -- the loop: the function's own code is started as
  -- often as the count says, each time with the stack pointer of the call and the registers restored,
  -- those of xmm in their lower 8 bytes, and in the end it returns to its caller with the registers
  -- restored. `n + 1` rounds of fuel are enough.
  pub persistent_mode_patch-returns :
      KeepsStack w (codes "__afl_persistent_loop")
      → (loc_is_persistent ≡ true → KeepsStack w name)
      → KeepsLoop w
      → 1 ≤ n
      → n < 2 ^ 32
      → 167 ≤ m.rsp
      → m.rsp + 8 < 2 ^ 64
      → m.first_pass ≡ 1
      → (e : Ended) × (run_function w
            (persistent_mode_patch loc_is_persistent name n)
            (n + 1)
            none
            m
          ≡ ok e)
        × (length e.started ≡ n)
        × All (IsStarted w loc_is_persistent name n m) e.started
        × HasReturned w loc_is_persistent name n m e
  persistent_mode_patch-returns abi hook_abi keeps positive small room bound pass =
      let before : n ≡ suc (n - 1) = omega arith in
      let fuel : n + 1 ≡ suc n = omega arith in
      let (e, ran, many, all, returned) =
        all_rounds abi hook_abi keeps small room bound (n - 1) before pass in
      (e, rw fuel ran, many ∙ sym before, all, returned)
