-- ===== src/HookTemplate/Tests.antt =====
-- A hook that is called with a test case of three bytes.
use pe_ar_honours.Prelude.{
  ℕ, ◌+◌, ◌%◌, ◌<◌, ◌≡◌, ◌≢◌, true, refl, arith, All, [], ◌∷◌, map, some, inr,
}
use pe_ar_honours.Text.{codes, text_eq}
use pe_ar_honours.Registers.{backup_register_asm}
use pe_ar_honours.Registers.Saved.{register_of, offset_of}
use pe_ar_honours.Globals.{data_variables, locate, space}
use pe_ar_honours.Persistent.{Machine, value, exec_all, setup_and_call_sharedmem_hook_asm}
use pe_ar_honours.Persistent.Hook.{IsCalledAt, GetsArguments}
use pe_ar_honours.Persistent.Example.{world, machine}
use pe_ar_honours.HookTemplate.{
  x86_64_regs, total_size, offset, beyond, field, memset_zero, memcpy, afl_rewrite_sharedmem_hook,
}
use pe_ar_honours.HookTemplate.Layout.{saved_at, backup_register_asm-x86_64_regs}
use pe_ar_honours.HookTemplate.Filled.{held, afl_rewrite_sharedmem_hook-filled}

-- Every register holds the address 9, the test case is at 7000.
behind_buffer : (j : ℕ) → j < 100 → 109 ≢ 9 + j
behind_buffer j h e = omega arith

afl_rewrite_sharedmem_hook-filled_example :
    (at : Machine) × IsCalledAt world
      (codes "hook")
      (setup_and_call_sharedmem_hook_asm (codes "hook"))
      machine
      at
    × GetsArguments world at
    × (let memory =
          afl_rewrite_sharedmem_hook at.registers.backup
            (value (codes "rsi") at)
            (value (codes "rdx") at)
            (λ a. a % 256) in
        (memory (9 + 2) ≡ held 7000 3 (λ a. a % 256) 2) × (memory 109 ≡ 109))
    × All
        (λ r.
          value
            (register_of r)
            (exec_all world (setup_and_call_sharedmem_hook_asm (codes "hook")) machine)
          ≡ 9)
        backup_register_asm
afl_rewrite_sharedmem_hook-filled_example =
    afl_rewrite_sharedmem_hook-filled world (codes "hook") machine (λ a. a % 256) 2 109
      (λ m aligned a h. refl) (omega arith) (omega arith) (λ at. refl) (inr (omega arith))
      (omega arith) behind_buffer

backup_register_asm-x86_64_regs_example :
    All (λ m. offset (register_of m) x86_64_regs ≡ some (offset_of m)) backup_register_asm
    × All (λ x. saved_at x.name backup_register_asm ≡ offset x.name x86_64_regs) x86_64_regs
    × ((base : ℕ) × (locate (codes "p_mode_reg_backup") (data_variables true true)
          ≡ some (base, space (total_size x86_64_regs))))
backup_register_asm-x86_64_regs_example = backup_register_asm-x86_64_regs true true

-- The bytes 2, 3, 50 and 100 behind the start of the buffer.
hook_run :
    map
      (λ i. afl_rewrite_sharedmem_hook (λ n. 9) 7000 3 (λ a. a % 256) (9 + i))
      (2 ∷ 3 ∷ 50 ∷ 100 ∷ [])
    ≡ 90 ∷ 0 ∷ 0 ∷ 109 ∷ []
unfolding afl_rewrite_sharedmem_hook field offset x86_64_regs beyond memset_zero memcpy text_eq
hook_run = refl
