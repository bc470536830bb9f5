-- ===== src/Persistent/Rounds.antt =====
-- One round of the patch: from `.Lnot_first_pass` to the function's own code, or to its return.
use pe_ar_honours.Prelude.{
  ℕ, ◌+◌, ◌-◌, ◌%◌, ◌^◌, ◌==◌, ◌<◌, ◌≤◌, ◌≡◌, refl, ◌∙◌, ap, arith, Bool, true, false, none, List,
  [], ◌∷◌, ◌++◌, map, All,
}
use pe_ar_honours.Text.{Text, codes, text_eq}
use pe_ar_honours.Machine.{lower, higher}
use pe_ar_honours.Machine.Frames.{lower-le, store-eq}
use pe_ar_honours.Registers.{backup_register_asm, restore_register_asm}
use pe_ar_honours.Registers.Saved.{register_of, offset_of, backup-restore, reloaded}
use pe_ar_honours.Persistent.{
  Machine, World, Instruction, moves, load_return, load_setup_loop, push, raise_rsp, set_edi,
  call_persistent_loop, Line, does, label, jne_eax, ret, start_func, starts, returns, same,
  afl_persistent_loop, value, set, exec, exec_all, run, sharedmem_hook_call,
}
use pe_ar_honours.Persistent.Calls.{
  KeepsStack, exec_all-append, enter, leave, KeepsAligned, enter-CallsAs,
}
use pe_ar_honours.Persistent.Hook.{call_sharedmem_hook_asm-CallsAs}

-- In `eax`.
low_result : (a r : ℕ) → r ≤ 1 → (a - a % 2 ^ 32 + r) % 2 ^ 32 ≡ r
low_result a r h = omega arith

result-le :
    (max_cnt first_pass cycle_cnt : ℕ)
    → (afl_persistent_loop max_cnt first_pass cycle_cnt).result ≤ 1
unfolding afl_persistent_loop
result-le max_cnt first_pass cycle_cnt = ground arith

-- The call of the hook, if there is one.
hook-kept :
    (w : World) (name : Text) (loc_is_persistent : Bool) (m : Machine)
    → (loc_is_persistent ≡ true → KeepsStack w name)
    → 159 ≤ m.rsp
    → m.rsp < 2 ^ 64
    → let after = exec_all w (sharedmem_hook_call loc_is_persistent name) m in
      (after.rsp ≡ m.rsp)
      × (after.cell m.rsp ≡ m.cell m.rsp)
      × (after.return_address ≡ m.return_address)
      × (after.first_pass ≡ m.first_pass)
      × (after.cycle_cnt ≡ m.cycle_cnt)
      × (loc_is_persistent ≡ false → after.registers.backup ≡ m.registers.backup)
unfolding exec_all exec set sharedmem_hook_call
hook-kept w name false m abi room bound = (refl, refl, refl, refl, refl, λ h. refl)
hook-kept w name true m abi room bound =
    let (stack, cells, rax, backup, address, pass, count) =
      call_sharedmem_hook_asm-CallsAs w name m (abi refl) room bound in
    (stack, cells m.rsp (omega arith), address, pass, count, λ h. cc)

module _ (w : World) (loc_is_persistent : Bool) (name : Text) (n : ℕ) where
  abbrev ask : List Instruction
  ask = set_edi n ∷ call_persistent_loop ∷ []

  -- The return address is put on the stack and `__afl_persistent_loop` is called.
  abbrev pub asked : Machine → Machine
  asked m = exec_all w (load_setup_loop ∷ push (codes "rax") ∷ (enter w ++ (ask ++ leave w))) m

  abbrev pub loop_end : List Line
  loop_end =
      jne_eax start_func
      ∷ does load_return
      ∷ does (raise_rsp 8)
      ∷ does (push (codes "rax"))
      ∷ does (moves restore_register_asm)
      ∷ ret
      ∷ label start_func
      ∷ (map does (sharedmem_hook_call loc_is_persistent name)
          ++ does (moves restore_register_asm) ∷ [])

  ask-KeepsAligned : KeepsStack w (codes "__afl_persistent_loop") → KeepsAligned w ask
  unfolding exec_all exec set
  ask-KeepsAligned abi m aligned = (refl, abi (exec w (set_edi n) m) aligned)

  pub asked-lem :
      (m : Machine)
      → KeepsStack w (codes "__afl_persistent_loop")
      → n < 2 ^ 32
      → 167 ≤ m.rsp
      → m.rsp < 2 ^ 64
      → let round = afl_persistent_loop n m.first_pass m.cycle_cnt in
        ((asked m).rsp ≡ m.rsp - 8)
        × ((asked m).cell (m.rsp - 8) ≡ w.setup_address)
        × (value (codes "rax") (asked m) % 2 ^ 32 ≡ round.result)
        × ((asked m).registers.backup ≡ m.registers.backup)
        × ((asked m).return_address ≡ m.return_address)
        × ((asked m).first_pass ≡ round.first_pass)
        × ((asked m).cycle_cnt ≡ round.cycle_cnt)
  unfolding exec_all exec set text_eq
  asked-lem m abi small room bound =
      let pushed = exec w (push (codes "rax")) (exec w load_setup_loop m) in
      let low : lower m.rsp 8 ≡ m.rsp - 8 = lower-le m.rsp 8 (omega arith) bound in
      let edi : n % 2 ^ 32 % 2 ^ 32 ≡ n = omega arith in
      let few = result-le (n % 2 ^ 32 % 2 ^ 32) m.first_pass m.cycle_cnt in
      let round = λ (k : ℕ). afl_persistent_loop k m.first_pass m.cycle_cnt in
      let (stack, cells, rax, backup, address, pass, count) =
        enter-CallsAs w ask pushed (ask-KeepsAligned abi) (omega arith) (omega arith) in
      (
        stack ∙ low,
        cells (m.rsp - 8) (omega arith) ∙ (rw low (store-eq (m.rsp - 8) w.setup_address m.cell)),
        low_result _ _ few ∙ ap (λ k. (round k).result) edi,
        backup,
        address,
        pass ∙ ap (λ k. (round k).first_pass) edi,
        count ∙ ap (λ k. (round k).cycle_cnt) edi,
      )

  run-does :
      (is : List Instruction) (ls : List Line) (m : Machine)
      → run w none (map does is ++ ls) m ≡ run w none ls (exec_all w is m)
  unfolding run exec_all
  run-does [] ls m = refl
  run-does (i ∷ is) ls m = run-does is ls _

  -- The stack of `m`, with a return address on it; what else of `m` is kept.
  abbrev pub PutsBack : ℕ → Machine → Machine → Type 0
  PutsBack address m after =
      (after.rsp ≡ m.rsp)
      × (after.cell m.rsp ≡ address)
      × (after.return_address ≡ m.return_address)
      × (after.first_pass ≡ m.first_pass)
      × (after.cycle_cnt ≡ m.cycle_cnt)
      × (loc_is_persistent ≡ false → after.registers.backup ≡ m.registers.backup)
      × All (λ r. value (register_of r) after ≡ after.registers.backup (offset_of r))
          backup_register_asm

  -- The end of the loop.
  abbrev pub stopped : Machine → Machine
  stopped m =
      exec_all w (load_return ∷ raise_rsp 8 ∷ push (codes "rax") ∷ moves restore_register_asm ∷ [])
        m

  pub run-stops :
      (m : Machine)
      → m.rsp + 8 < 2 ^ 64
      → value (codes "rax") m % 2 ^ 32 ≡ 0
      → (run w none loop_end m ≡ returns (stopped m)) × PutsBack m.return_address m (stopped m)
  unfolding run exec_all exec set text_eq
  run-stops m bound zero_result =
      let before = exec_all w (load_return ∷ raise_rsp 8 ∷ push (codes "rax") ∷ []) m in
      let top : lower (higher m.rsp 8) 8 ≡ m.rsp = omega arith in
      (
        rw zero_result refl,
        (
          top,
          rw top (store-eq m.rsp m.return_address m.cell),
          refl,
          refl,
          refl,
          λ h. backup-restore before.registers,
          reloaded before.registers,
        ),
      )

  -- The start of the function's own code.
  abbrev pub resumed : Machine → Machine
  resumed m =
      exec_all w (sharedmem_hook_call loc_is_persistent name ++ moves restore_register_asm ∷ []) m

  pub run-resumes :
      (m : Machine)
      → (loc_is_persistent ≡ true → KeepsStack w name)
      → 159 ≤ m.rsp
      → m.rsp < 2 ^ 64
      → (value (codes "rax") m % 2 ^ 32 == 0) ≡ false
      → (run w none loop_end m ≡ starts (resumed m)) × PutsBack (m.cell m.rsp) m (resumed m)
  unfolding run exec_all exec set same
  run-resumes m abi room bound result =
      let hook = sharedmem_hook_call loc_is_persistent name in
      let restore = moves restore_register_asm ∷ [] in
      let (stack, cell, address, pass, count, backup) =
        hook-kept w name loc_is_persistent m abi room bound in
      (
        rw (result, run-does hook (map does restore) m, exec_all-append w hook restore m) refl,
        rw (exec_all-append w hook restore m) (
          stack,
          cell,
          address,
          pass,
          count,
          λ h. backup-restore (exec_all w hook m).registers ∙ backup h,
          reloaded (exec_all w hook m).registers,
        ),
      )
