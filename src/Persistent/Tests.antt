-- ===== src/Persistent/Tests.antt =====
-- The example in persistent mode, with a count of 2.
use pe_ar_honours.Prelude.{ℕ, ◌+◌, ◌≤◌, ◌≡◌, refl, arith, true, none, All, length, ok}
use pe_ar_honours.Text.{codes}
use pe_ar_honours.Registers.{backup_register_asm}
use pe_ar_honours.Registers.Saved.{register_of, offset_of}
use pe_ar_honours.Persistent.{
  Machine, exec_all, value, persistent_mode_patch, setup_and_call_sharedmem_hook_asm,
}
use pe_ar_honours.Persistent.Example.{world, machine}
use pe_ar_honours.Persistent.Hook.{IsCalledAt, GetsArguments, setup_and_call_sharedmem_hook_asm-lem}
use pe_ar_honours.Persistent.Loop.{Ended, run_function}
use pe_ar_honours.Persistent.Between.{IsStarted, HasReturned}
use pe_ar_honours.Persistent.Runs.{persistent_mode_patch-returns}

two_rounds :
    (e : Ended) × (run_function world (persistent_mode_patch true (codes "hook") 2) 3 none machine
      ≡ ok e)
    × (length e.started ≡ 2)
    × All (IsStarted world true (codes "hook") 2 machine) e.started
    × HasReturned world true (codes "hook") 2 machine e
two_rounds =
    persistent_mode_patch-returns world true (codes "hook") 2 machine (λ m aligned a h. refl)
      (λ e m aligned a h. refl) (λ m. (refl, refl, refl, refl, refl, refl)) (omega arith)
      (omega arith) (omega arith) (omega arith) refl

hook_found :
    let after = exec_all world (setup_and_call_sharedmem_hook_asm (codes "hook")) machine in
    (at : Machine) × IsCalledAt world
      (codes "hook")
      (setup_and_call_sharedmem_hook_asm (codes "hook"))
      machine
      at
    × GetsArguments world at
    × All (λ r. at.registers.backup (offset_of r) ≡ 9) backup_register_asm
    × (after.rsp ≡ 4096)
    × ((a : ℕ) → 4096 ≤ a → after.cell a ≡ a + 1)
    × All (λ r. value (register_of r) after ≡ at.registers.backup (offset_of r)) backup_register_asm
hook_found =
    setup_and_call_sharedmem_hook_asm-lem world (codes "hook") machine (λ m aligned a h. refl)
      (omega arith) (omega arith)
