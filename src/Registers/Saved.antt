-- ===== src/Registers/Saved.antt =====
-- What is saved is loaded again.
use pe_ar_honours.Prelude.{
  ℕ, ◌+◌, ◌≤◌, ◌≡◌, refl, ◌∙◌, false, List, [], ◌∷◌, any, All, arith, ◌%◌, Bool-cases, inl, inr,
}
use pe_ar_honours.Text.{Text, text_eq}
use pe_ar_honours.Registers.{
  Registers, Move, save, load, run, backup_register_asm, restore_register_asm,
}

abbrev pub register_of : Move → Text
register_of (save r n) = r
register_of (load r n) = r

abbrev pub offset_of : Move → ℕ
offset_of (save r n) = n
offset_of (load r n) = n

restored :
    (s : Registers) (between : Text → ℕ)
    → All
        (λ m.
          (run restore_register_asm (record (run backup_register_asm s) { read = between })).read
            (register_of m)
          ≡ s.read (register_of m))
        backup_register_asm
unfolding run backup_register_asm restore_register_asm
restored s between = ground arith

pub saved :
    (s : Registers)
    → All
        (λ m. (run backup_register_asm s).backup (offset_of m) ≡ s.read (register_of m))
        backup_register_asm
unfolding run backup_register_asm
saved s = ground arith

pub loaded :
    (s : Registers)
    → All
        (λ m. (run restore_register_asm s).read (register_of m) ≡ s.backup (offset_of m))
        backup_register_asm
unfolding run backup_register_asm restore_register_asm
loaded s = ground arith

pub backup-restore : (s : Registers) → (run restore_register_asm s).backup ≡ s.backup
unfolding run restore_register_asm
backup-restore s = refl

pub reloaded :
    (s : Registers)
    → let after = run restore_register_asm s in
      All (λ m. after.read (register_of m) ≡ after.backup (offset_of m)) backup_register_asm
reloaded s = rw (backup-restore s) (loaded s)

not_loaded :
    (q : Text) (ms : List Move) (s : Registers)
    → any (λ m. text_eq q (register_of m)) ms ≡ false
    → (run ms s).read q ≡ s.read q
unfolding run
not_loaded q [] s h = refl
not_loaded q (save r n ∷ ms) s h = not_loaded q ms _ (ground arith)
not_loaded q (load r n ∷ ms) s h = elim (Bool-cases (text_eq q r)) [
  | inl same ↦ ground arith
  | inr other ↦ not_loaded q ms _ (rw other at h) ∙ rw other refl
]

-- An aligned word of the 0x170 bytes that are reserved.
abbrev pub IsWithin : Move → Type 0
IsWithin m = (offset_of m % 8 ≡ 0) × (offset_of m + 8 ≤ 368)

within : All IsWithin backup_register_asm
unfolding backup_register_asm
within = ground arith

-- Whatever was put into the registers in between, each register that is saved has its value again,
-- those of xmm in their lower 8 bytes, any other keeps the value from in between, and each is saved in
-- an aligned word of the reserved bytes.
pub restore_register_asm-restored :
    (s : Registers) (between : Text → ℕ)
    → let after =
        run restore_register_asm (record (run backup_register_asm s) { read = between }) in
      All (λ m. after.read (register_of m) ≡ s.read (register_of m)) backup_register_asm
      × ((q : Text)
          → any (λ m. text_eq q (register_of m)) restore_register_asm ≡ false
          → after.read q ≡ between q)
      × All IsWithin backup_register_asm
restore_register_asm-restored s between =
    (restored s between, λ q h. not_loaded q restore_register_asm _ h, within)
