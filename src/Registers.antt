-- ===== src/Registers.antt =====
-- The registers that the patches of add_afl.py save in `p_mode_reg_backup` and load again, by
-- `backup_register_asm` and `restore_register_asm` of `AddAFLPass`.
pub mod Saved
mod Tests
use pe_ar_honours.Prelude.{ℕ, ◌==◌, List, [], ◌∷◌, if◌then◌else◌}
use pe_ar_honours.Text.{Text, codes, text_eq}

-- Registers by name; of the registers xmm the lower 8 bytes, which movq moves. `backup` has the
-- 8-byte words at offsets into `p_mode_reg_backup`.
pub record Registers : Type 0 where
  pub read : Text → ℕ
  pub backup : ℕ → ℕ

-- mov [rip+p_mode_reg_backup + n], r and mov r, [rip+p_mode_reg_backup + n], or movq
pub data Move : Type 0 where
  save load : Text → ℕ → Move

unfoldable pub move : Move → Registers → Registers
unfolding text_eq
move (save r n) s = record s { backup = λ m. if m == n then s.read r else s.backup m }
move (load r n) s = record s { read = λ q. if text_eq q r then s.backup n else s.read q }

unfoldable pub run : List Move → Registers → Registers
unfolding move
run [] s = s
run (m ∷ ms) s = run ms (move m s)

-- `backup_register_asm`
unfoldable pub backup_register_asm : List Move
backup_register_asm =
    save (codes "rax") 0
    ∷ save (codes "rbx") 8
    ∷ save (codes "rcx") 16
    ∷ save (codes "rdx") 24
    ∷ save (codes "rdi") 32
    ∷ save (codes "rsi") 40
    ∷ save (codes "r8") 48
    ∷ save (codes "r9") 56
    ∷ save (codes "r10") 64
    ∷ save (codes "r11") 72
    ∷ save (codes "r12") 80
    ∷ save (codes "r13") 88
    ∷ save (codes "r14") 96
    ∷ save (codes "r15") 104
    ∷ save (codes "xmm0") 112
    ∷ save (codes "xmm1") 128
    ∷ save (codes "xmm2") 144
    ∷ save (codes "xmm3") 160
    ∷ save (codes "xmm4") 176
    ∷ save (codes "xmm5") 192
    ∷ save (codes "xmm6") 208
    ∷ save (codes "xmm7") 224
    ∷ save (codes "xmm8") 240
    ∷ save (codes "xmm9") 256
    ∷ save (codes "xmm10") 272
    ∷ save (codes "xmm11") 288
    ∷ save (codes "xmm12") 304
    ∷ save (codes "xmm13") 320
    ∷ save (codes "xmm14") 336
    ∷ save (codes "xmm15") 352
    ∷ []

-- `restore_register_asm`
unfoldable pub restore_register_asm : List Move
restore_register_asm =
    load (codes "rax") 0
    ∷ load (codes "rbx") 8
    ∷ load (codes "rcx") 16
    ∷ load (codes "rdx") 24
    ∷ load (codes "rdi") 32
    ∷ load (codes "rsi") 40
    ∷ load (codes "r8") 48
    ∷ load (codes "r9") 56
    ∷ load (codes "r10") 64
    ∷ load (codes "r11") 72
    ∷ load (codes "r12") 80
    ∷ load (codes "r13") 88
    ∷ load (codes "r14") 96
    ∷ load (codes "r15") 104
    ∷ load (codes "xmm0") 112
    ∷ load (codes "xmm1") 128
    ∷ load (codes "xmm2") 144
    ∷ load (codes "xmm3") 160
    ∷ load (codes "xmm4") 176
    ∷ load (codes "xmm5") 192
    ∷ load (codes "xmm6") 208
    ∷ load (codes "xmm7") 224
    ∷ load (codes "xmm8") 240
    ∷ load (codes "xmm9") 256
    ∷ load (codes "xmm10") 272
    ∷ load (codes "xmm11") 288
    ∷ load (codes "xmm12") 304
    ∷ load (codes "xmm13") 320
    ∷ load (codes "xmm14") 336
    ∷ load (codes "xmm15") 352
    ∷ []
