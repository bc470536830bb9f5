-- ===== src/HookTemplate/Layout.antt =====
-- The struct of the hook and the places in which the patches of add_afl.py save the registers.
use pe_ar_honours.Prelude.{
  ℕ, if◌then◌else◌, ◌≡◌, refl, arith, Bool, Option, some, none, List, [], ◌∷◌, All,
}
use pe_ar_honours.Text.{Text, codes, text_eq}
use pe_ar_honours.Registers.{Move, backup_register_asm}
use pe_ar_honours.Registers.Saved.{register_of, offset_of}
use pe_ar_honours.Globals.{data_variables, locate, behind, size, space}
use pe_ar_honours.HookTemplate.{x86_64_regs, total_size, offset, beyond}

-- Where a register is saved.
unfoldable pub saved_at : Text → List Move → Option ℕ
unfolding text_eq
saved_at name [] = none
saved_at name (m ∷ ms) =
    let later = saved_at name ms in
    if text_eq name (register_of m) then some (offset_of m) else later

-- Each register that the patches save is where the struct has its field, each field of the struct is saved, and the
-- struct fills the space that the data reserves, whatever the flags.
pub backup_register_asm-x86_64_regs :
    (f p : Bool)
    → All (λ m. offset (register_of m) x86_64_regs ≡ some (offset_of m)) backup_register_asm
      × All (λ x. saved_at x.name backup_register_asm ≡ offset x.name x86_64_regs) x86_64_regs
      × ((base : ℕ) × (locate (codes "p_mode_reg_backup") (data_variables f p)
            ≡ some (base, space (total_size x86_64_regs))))
unfolding offset x86_64_regs backup_register_asm total_size beyond text_eq saved_at locate behind
    size data_variables
backup_register_asm-x86_64_regs f p = (ground arith, ground arith, (98, refl))
