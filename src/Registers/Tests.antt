-- ===== src/Registers/Tests.antt =====
-- Registers that hold 5 and are all overwritten with 9.
use pe_ar_honours.Prelude.{◌≡◌, false, any, All}
use pe_ar_honours.Text.{Text, text_eq}
use pe_ar_honours.Registers.{Registers, run, backup_register_asm, restore_register_asm}
use pe_ar_honours.Registers.Saved.{register_of, IsWithin, restore_register_asm-restored}

abbrev fives : Registers
fives = record { read = λ r. 5; backup = λ n. 0 }

abbrev reloaded : Registers
reloaded = run restore_register_asm (record (run backup_register_asm fives) { read = λ r. 9 })

restore_register_asm-restored_example :
    All (λ m. reloaded.read (register_of m) ≡ 5) backup_register_asm
    × ((q : Text)
        → any (λ m. text_eq q (register_of m)) restore_register_asm ≡ false
        → reloaded.read q ≡ 9)
    × All IsWithin backup_register_asm
restore_register_asm-restored_example = restore_register_asm-restored fives (λ r. 9)
