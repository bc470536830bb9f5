-- ===== src/Persistent/Between.antt =====
-- What holds between the rounds of the patch, and what a round does.
use pe_ar_honours.Prelude.{
  ℕ, ◌+◌, ◌%◌, ◌^◌, ◌<◌, ◌≤◌, ◌≡◌, refl, ◌∙◌, ap, arith, Bool, true, false, none, List, [], All,
  All-map2, Outcome, ok,
}
use pe_ar_honours.Text.{Text, codes}
use pe_ar_honours.Registers.{backup_register_asm}
use pe_ar_honours.Registers.Saved.{register_of, offset_of}
use pe_ar_honours.Persistent.{
  Machine, World, Line, Stop, starts, afl_persistent_loop, value, run, persistent_mode_patch,
}
use pe_ar_honours.Persistent.Calls.{KeepsStack}
use pe_ar_honours.Persistent.Loop.{Ended, return, after_run}
use pe_ar_honours.Persistent.Rounds.{
  asked, asked-lem, loop_end, stopped, resumed, run-stops, run-resumes,
}

-- The function returns to where its stack says, and leaves the variables of the patch. (A function that
-- calls itself runs the patch again and does not.)
abbrev pub KeepsLoop : World → Type 0
KeepsLoop w =
    (m : Machine)
    → let done = w.function_body m in
      (done.rsp ≡ m.rsp)
      × (done.cell m.rsp ≡ m.cell m.rsp)
      × (done.return_address ≡ m.return_address)
      × (done.first_pass ≡ m.first_pass)
      × (done.cycle_cnt ≡ m.cycle_cnt)
      × (done.registers.backup ≡ m.registers.backup)

module _ (w : World) (loc_is_persistent : Bool) (name : Text) (n : ℕ) (m : Machine) where
  -- The registers that are saved have the values that they had when the function was called, or, with
  -- a hook, those in `p_mode_reg_backup`.
  abbrev pub AreRestored : Machine → Type 0
  AreRestored z =
      All (λ r. value (register_of r) z ≡ z.registers.backup (offset_of r)) backup_register_asm
      × (loc_is_persistent ≡ false
          → All (λ r. value (register_of r) z ≡ value (register_of r) m) backup_register_asm)

  -- The function's own code starts with the stack pointer of the call, and a return address in the
  -- patch.
  abbrev pub IsStarted : Machine → Type 0
  IsStarted z = (z.rsp ≡ m.rsp) × (z.cell z.rsp ≡ w.setup_address) × AreRestored z

  -- It returns to the caller.
  abbrev pub HasReturned : Ended → Type 0
  HasReturned e = (e.address ≡ m.cell m.rsp) × (e.machine.rsp ≡ m.rsp + 8) × AreRestored e.machine

  -- Before each round.
  abbrev pub AreSaved : Machine → Type 0
  AreSaved z =
      loc_is_persistent ≡ false
      → All (λ r. z.registers.backup (offset_of r) ≡ value (register_of r) m) backup_register_asm

  abbrev pub IsBetween : ℕ → ℕ → Machine → Type 0
  IsBetween first_pass cycle_cnt z =
      (z.rsp ≡ m.rsp + 8)
      × (z.return_address ≡ m.cell m.rsp)
      × (z.first_pass ≡ first_pass)
      × (z.cycle_cnt ≡ cycle_cnt)
      × AreSaved z

  restored-saved :
      (z : Machine)
      → All (λ r. value (register_of r) z ≡ z.registers.backup (offset_of r)) backup_register_asm
      → AreSaved z
      → AreRestored z
  restored-saved z read backup =
      (read, λ h. All-map2 _ _ _ backup_register_asm (λ r e f. e ∙ f) read (backup h))

  abbrev pub lines : List Line
  lines = persistent_mode_patch loc_is_persistent name n

  module _ (abi : KeepsStack w (codes "__afl_persistent_loop"))
      (hook_abi : loc_is_persistent ≡ true → KeepsStack w name) (keeps : KeepsLoop w)
      (small : n < 2 ^ 32) (room : 167 ≤ m.rsp) (bound : m.rsp + 8 < 2 ^ 64) where
    abbrev pub after : Machine → Machine
    after z = asked w loc_is_persistent name n z

    abbrev pub rest_of_round : Machine → Stop
    rest_of_round z = run w none (loop_end w loc_is_persistent name n) (after z)

    -- A round in which `__afl_persistent_loop` returns 0.
    pub last_round :
        (again : Machine → Outcome Ended) (z : Machine)
        → IsBetween 0 1 z
        → (e : Ended) × (after_run w again (rest_of_round z) ≡ ok e)
          × (e.started ≡ [])
          × HasReturned e
    unfolding after_run return afl_persistent_loop
    last_round again z (rsp, address, pass, count, backup) =
        let (stack, cell, rax, backed, returned, _, _) =
          asked-lem w loc_is_persistent name n z abi small (omega arith) (omega arith) in
        let (ran, (top, old, _, _, _, kept, read)) =
          run-stops w loc_is_persistent name n (after z) (omega arith)
            (rax ∙ rw (pass, count) refl) in
        let s = stopped w loc_is_persistent name n (after z) in
        (
          record { started = []; address = s.cell s.rsp; machine = return s },
          rw ran refl,
          refl,
          (
            ap s.cell top ∙ old ∙ returned ∙ address,
            omega arith,
            restored-saved s read (λ h. rw (kept h ∙ backed) (backup h)),
          ),
        )

    -- A round in which it returns 1.
    pub next_round :
        (first_pass cycle_cnt : ℕ) (z : Machine)
        → IsBetween first_pass cycle_cnt z
        → let round = afl_persistent_loop n first_pass cycle_cnt in
          round.result ≡ 1
          → (s : Machine) × (rest_of_round z ≡ starts s)
            × IsStarted s
            × IsBetween round.first_pass round.cycle_cnt (return (w.function_body s))
    unfolding return
    next_round first_pass cycle_cnt z (rsp, address, pass, count, backup) one =
        let (stack, cell, rax, backed, returned, passed, counted) =
          asked-lem w loc_is_persistent name n z abi small (omega arith) (omega arith) in
        let result : value (codes "rax") (after z) % 2 ^ 32 ≡ 1 = rax ∙ rw (pass, count) one in
        let (ran, (top, old, kept_address, kept_pass, kept_count, kept, read)) =
          run-resumes w loc_is_persistent name n (after z) hook_abi (omega arith) (omega arith)
            (rw result refl) in
        let s = resumed w loc_is_persistent name n (after z) in
        let (same_rsp, same_cell, same_address, same_pass, same_count, same_backup) = keeps s in
        let saved_again : AreSaved s = λ h. rw (kept h ∙ backed) (backup h) in
        (
          s,
          ran,
          (
            omega arith,
            ap s.cell top ∙ old ∙ ap (after z).cell stack ∙ cell,
            restored-saved s read saved_again,
          ),
          (
            omega arith,
            same_address ∙ kept_address ∙ returned ∙ address,
            same_pass ∙ kept_pass ∙ passed ∙ rw (pass, count) refl,
            same_count ∙ kept_count ∙ counted ∙ rw (pass, count) refl,
            λ h. rw same_backup (saved_again h),
          ),
        )
