-- ===== src/Persistent/Hook.antt =====
-- The call of the shared memory hook.
use pe_ar_honours.Prelude.{ℕ, ◌%◌, ◌^◌, ◌<◌, ◌≤◌, ◌≡◌, refl, List, [], ◌∷◌, ◌++◌, All}
use pe_ar_honours.Text.{Text, codes, text_eq}
use pe_ar_honours.Registers.{backup_register_asm, restore_register_asm}
use pe_ar_honours.Registers.Saved.{register_of, offset_of, saved, loaded}
use pe_ar_honours.Persistent.{
  Machine, World, Instruction, moves, load_reg_backup, load_fuzz_ptr, load_fuzz_len, load_length,
  call_hook, value, set, exec, exec_all, call_sharedmem_hook_asm, setup_and_call_sharedmem_hook_asm,
}
use pe_ar_honours.Persistent.Calls.{
  KeepsStack, enter, leave, exec_all-append, entered, entered-lem, KeepsAligned, CallsAs,
  enter-CallsAs,
}

abbrev load_arguments : List Instruction
load_arguments = load_reg_backup ∷ load_fuzz_ptr ∷ load_fuzz_len ∷ load_length ∷ []

module _ (w : World) where
  -- The machine with which the hook is called.
  abbrev pub hook_machine : Machine → Machine
  hook_machine m = exec_all w load_arguments (entered w m)

  hook-KeepsAligned :
      (name : Text) → KeepsStack w name → KeepsAligned w (load_arguments ++ call_hook name ∷ [])
  unfolding exec_all exec set
  hook-KeepsAligned name abi m aligned = (refl, abi (exec_all w load_arguments m) aligned)

  pub call_sharedmem_hook_asm-CallsAs :
      (name : Text) (m : Machine)
      → KeepsStack w name
      → 159 ≤ m.rsp
      → m.rsp < 2 ^ 64
      → CallsAs w m
          (exec w (call_hook name) (hook_machine m))
          (exec_all w (call_sharedmem_hook_asm name) m)
  unfolding call_sharedmem_hook_asm exec_all
  call_sharedmem_hook_asm-CallsAs name m abi room bound =
      enter-CallsAs w (load_arguments ++ call_hook name ∷ []) m (hook-KeepsAligned name abi) room
        bound

  -- The arguments of the hook: the saved registers, the test case and its length.
  abbrev pub GetsArguments : Machine → Type 0
  GetsArguments at =
      (at.rsp % 16 ≡ 0)
      × (value (codes "rdi") at ≡ w.reg_backup)
      × (value (codes "rsi") at ≡ w.fuzz_ptr)
      × (value (codes "rdx") at ≡ w.word w.fuzz_len % 2 ^ 32)

  pub hook_machine-GetsArguments :
      (m : Machine) → 159 ≤ m.rsp → m.rsp < 2 ^ 64 → GetsArguments (hook_machine m)
  unfolding exec_all exec set text_eq
  hook_machine-GetsArguments m room bound = ((entered-lem w m room bound).0, refl, refl, refl)

  -- The code calls the hook in this machine.
  abbrev pub IsCalledAt : Text → List Instruction → Machine → Machine → Type 0
  IsCalledAt name code m at =
      (ahead : List Instruction) × (behind : List Instruction) × (code
        ≡ ahead ++ call_hook name ∷ behind)
      × (at ≡ exec_all w ahead m)

  -- With 159 bytes of stack, and a hook that keeps the stack: the hook is called with its arguments
  -- on an aligned stack and finds the registers saved; then the stack is as before, and the registers
  -- that were saved are as the hook has left them in the place where they were saved.
  pub setup_and_call_sharedmem_hook_asm-lem :
      (name : Text) (m : Machine)
      → KeepsStack w name
      → 159 ≤ m.rsp
      → m.rsp < 2 ^ 64
      → let after = exec_all w (setup_and_call_sharedmem_hook_asm name) m in
        (at : Machine) × IsCalledAt name (setup_and_call_sharedmem_hook_asm name) m at
        × GetsArguments at
        × All (λ r. at.registers.backup (offset_of r) ≡ value (register_of r) m) backup_register_asm
        × (after.rsp ≡ m.rsp)
        × ((a : ℕ) → m.rsp ≤ a → after.cell a ≡ m.cell a)
        × All
            (λ r. value (register_of r) after ≡ w.hooked name at (offset_of r))
            backup_register_asm
  unfolding setup_and_call_sharedmem_hook_asm call_sharedmem_hook_asm exec_all exec set
  setup_and_call_sharedmem_hook_asm-lem name m abi room bound =
      let backed = exec w (moves backup_register_asm) m in
      let at = hook_machine backed in
      let (stack, cells, _, backup, _, _, _) =
        call_sharedmem_hook_asm-CallsAs name backed abi room bound in
      rw (exec_all-append w (call_sharedmem_hook_asm name) (moves restore_register_asm ∷ []) backed)
        (
          at,
          (
            moves backup_register_asm ∷ (enter w ++ load_arguments),
            leave w ++ moves restore_register_asm ∷ [],
            refl,
            refl,
          ),
          hook_machine-GetsArguments backed room bound,
          saved m.registers,
          stack,
          cells,
          rw backup at (loaded (exec_all w (call_sharedmem_hook_asm name) backed).registers),
        )
