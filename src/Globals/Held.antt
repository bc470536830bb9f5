-- ===== src/Globals/Held.antt =====
-- What the patch for persistent mode reads and writes is in the variables that it names.
use pe_ar_honours.Prelude.{
  ℕ, ◌+◌, ◌-◌, ◌<◌, ◌≤◌, ◌≡◌, refl, ◌⊎◌, ◌∙◌, sym, ap, arith, ltb, lt→ltb, Bool, true, false,
  Bool-cases, inl, inr, Option, some, Option-cases, List, [], ◌∷◌, ◌++◌, map, All, All-map,
  All-append,
}
use pe_ar_honours.Text.{Text, codes, text_eq}
use pe_ar_honours.Text.Laws.{text_eq_iff}
use pe_ar_honours.Registers.{Move, backup_register_asm, restore_register_asm}
use pe_ar_honours.Registers.Saved.{offset_of}
use pe_ar_honours.Persistent.{
  Instruction, moves, load_first_pass, save_return, load_return, load_fuzz_ptr, load_fuzz_len, Line,
  does, persistent_mode_patch, sharedmem_hook_call, call_sharedmem_hook_asm,
}
use pe_ar_honours.Globals.{
  Directive, byte, space, size, Variable, data_variables, behind, locate, holder,
}

-- Bytes of a variable that an instruction reads or writes.
pub record Access : Type 0 where
  pub label : Text
  pub from : ℕ
  pub width : ℕ

abbrev pub move_access : Move → Access
move_access m = record { label = codes "p_mode_reg_backup"; from = offset_of m; width = 8 }

abbrev pub accesses_of : Instruction → List Access
accesses_of (moves ms) = map move_access ms
accesses_of load_first_pass = record { label = codes "first_pass"; from = 0; width = 1 } ∷ []
accesses_of save_return =
    record { label = codes "p_mode_ret_addr_backup"; from = 0; width = 8 } ∷ []
accesses_of load_return =
    record { label = codes "p_mode_ret_addr_backup"; from = 0; width = 8 } ∷ []
accesses_of load_fuzz_ptr = record { label = codes "__afl_fuzz_ptr"; from = 0; width = 8 } ∷ []
accesses_of load_fuzz_len = record { label = codes "__afl_fuzz_len"; from = 0; width = 8 } ∷ []
accesses_of _ = []

abbrev pub accesses : List Line → List Access
accesses [] = []
accesses (does i ∷ ls) = accesses_of i ++ accesses ls
accesses (_ ∷ ls) = accesses ls

-- Each byte is one of the variable.
abbrev pub IsHeld : List Variable → Access → Type 0
IsHeld vs a =
    (base : ℕ) × (d : Directive) × (locate a.label vs ≡ some (base, d))
    × ((i : ℕ) → i < a.width → holder (base + (a.from + i)) vs ≡ some a.label)

some-pair :
    (a b : ℕ) (c d : Directive)
    → ◌≡◌ {A = Option (ℕ × Directive)} (some (a, c)) (some (b, d))
    → (b ≡ a) × (d ≡ c)
some-pair a b c d e = ground arith

locate-cases :
    (v : Variable) (vs : List Variable) (l : Text) (base : ℕ) (d : Directive)
    → locate l (v ∷ vs) ≡ some (base, d)
    → ((v.label ≡ l) × (base ≡ 0) × (d ≡ v.directive))
      ⊎ ((distance : ℕ) × (locate l vs ≡ some (distance, d)) × (base ≡ size v.directive + distance))
unfolding locate behind
locate-cases v vs l base d e = elim (Bool-cases (text_eq l v.label)) [
  | inl same ↦ inl (
      let same_pair = some-pair 0 base v.directive d (rw same at e) in
      (sym ((text_eq_iff l v.label).0 same), same_pair.0, same_pair.1))
  | inr other ↦ elim (Option-cases (locate l vs)) [
    | inl missing ↦ absurd (ground arith)
    | inr ((distance, d2), found) ↦ inr (
        let same_pair =
          some-pair (size v.directive + distance) base d2 d (rw (other, found) at e) in
        (distance, found ∙ ap (λ x. some (distance, x)) (sym same_pair.1), same_pair.0))
  ]
]

holder-first :
    (v : Variable) (vs : List Variable) (b : ℕ)
    → b < size v.directive
    → holder b (v ∷ vs) ≡ some v.label
unfolding holder
holder-first v vs b h = rw (lt→ltb b (size v.directive) h) refl

holder-later :
    (v : Variable) (vs : List Variable) (distance i : ℕ)
    → holder (size v.directive + distance + i) (v ∷ vs) ≡ holder (distance + i) vs
unfolding holder
holder-later v vs distance i =
    let outside : ltb (size v.directive + distance + i) (size v.directive) ≡ false = ground arith in
    let rest : size v.directive + distance + i - size v.directive ≡ distance + i = omega arith in
    rw (outside, rest) refl

holder-locate :
    (vs : List Variable) (l : Text) (base : ℕ) (d : Directive) (i : ℕ)
    → locate l vs ≡ some (base, d)
    → i < size d
    → holder (base + i) vs ≡ some l
unfolding locate holder
holder-locate [] l base d i e h = ground arith
holder-locate (v ∷ vs) l base d i e h = elim (locate-cases v vs l base d e) [
  | inl (same, first, here) ↦
      let start : base + i ≡ i = omega arith in
      rw start (holder-first v vs i (rw here at h)) ∙ ap some same
  | inr (distance, found, further) ↦
      rw further (holder-later v vs distance i) ∙ holder-locate vs l distance d i found h
]

-- An access within its variable.
abbrev IsInside : List Variable → Access → Type 0
IsInside vs a =
    (base : ℕ) × (d : Directive) × (locate a.label vs ≡ some (base, d))
    × (a.from + a.width ≤ size d)

IsInside-IsHeld : (vs : List Variable) (a : Access) → IsInside vs a → IsHeld vs a
IsInside-IsHeld vs a (base, d, found, room) =
    (base, d, found, λ i h. holder-locate vs a.label base d (a.from + i) found (omega arith))

moves-IsInside :
    (vs : List Variable) (base : ℕ) (ms : List Move)
    → locate (codes "p_mode_reg_backup") vs ≡ some (base, space 368)
    → All (λ m. offset_of m + 8 ≤ 368) ms
    → All (IsInside vs) (map move_access ms)
unfolding size
moves-IsInside vs base [] found fits = tt
moves-IsInside vs base (m ∷ ms) found fits =
    ((base, space 368, found, fits.0), moves-IsInside vs base ms found fits.1)

-- The variables that the patch names.
record Names (vs : List Variable) : Type 0 where
  reg_backup : ℕ
  at_reg_backup : locate (codes "p_mode_reg_backup") vs ≡ some (reg_backup, space 368)
  first_pass : IsInside vs (record { label = codes "first_pass"; from = 0; width = 1 })
  ret_addr : IsInside vs (record { label = codes "p_mode_ret_addr_backup"; from = 0; width = 8 })
  fuzz_ptr : IsInside vs (record { label = codes "__afl_fuzz_ptr"; from = 0; width = 8 })
  fuzz_len : IsInside vs (record { label = codes "__afl_fuzz_len"; from = 0; width = 8 })

names : (f p : Bool) → Names (data_variables f p)
unfolding data_variables locate size behind text_eq
names f p = record {
  reg_backup = 98;
  at_reg_backup = refl;
  first_pass = (97, byte 1, refl, omega arith);
  ret_addr = (466, space 8, refl, omega arith);
  fuzz_ptr = (482, space 8, refl, omega arith);
  fuzz_len = (474, space 8, refl, omega arith);
}

saves_fit : All (λ m. offset_of m + 8 ≤ 368) backup_register_asm
unfolding backup_register_asm
saves_fit = ground arith

loads_fit : All (λ m. offset_of m + 8 ≤ 368) restore_register_asm
unfolding restore_register_asm
loads_fit = ground arith

patch-IsInside :
    (vs : List Variable) (loc_is_persistent : Bool) (name : Text) (n : ℕ)
    → Names vs
    → All (IsInside vs) (accesses (persistent_mode_patch loc_is_persistent name n))
unfolding persistent_mode_patch sharedmem_hook_call call_sharedmem_hook_asm
patch-IsInside vs false name n k =
    let loads = moves-IsInside vs k.reg_backup restore_register_asm k.at_reg_backup loads_fit in
    All-append _ (map move_access backup_register_asm) _
      (moves-IsInside vs k.reg_backup backup_register_asm k.at_reg_backup saves_fit)
      (
        k.first_pass,
        (
          k.ret_addr,
          (
            k.ret_addr,
            All-append _ (map move_access restore_register_asm) _ loads
                (All-append _ (map move_access restore_register_asm) [] loads tt),
          ),
        ),
      )
patch-IsInside vs true name n k =
    let loads = moves-IsInside vs k.reg_backup restore_register_asm k.at_reg_backup loads_fit in
    All-append _ (map move_access backup_register_asm) _
      (moves-IsInside vs k.reg_backup backup_register_asm k.at_reg_backup saves_fit)
      (
        k.first_pass,
        (
          k.ret_addr,
          (
            k.ret_addr,
            All-append _ (map move_access restore_register_asm) _ loads (
              k.fuzz_ptr,
              (k.fuzz_len, All-append _ (map move_access restore_register_asm) [] loads tt),
            ),
          ),
        ),
      )

-- Whatever the flags, each byte of `.data` that the instructions of the patch read or write by name is
-- one of the variable that they name.
pub persistent_mode_patch-IsHeld :
    (is_sharedmem_fuzzing is_persistent loc_is_persistent : Bool) (name : Text) (n : ℕ)
    → All
        (IsHeld (data_variables is_sharedmem_fuzzing is_persistent))
        (accesses (persistent_mode_patch loc_is_persistent name n))
persistent_mode_patch-IsHeld f p loc_is_persistent name n =
    let vs = data_variables f p in
    All-map (IsInside vs) (IsHeld vs) (accesses (persistent_mode_patch loc_is_persistent name n))
      (IsInside-IsHeld vs) (patch-IsInside vs loc_is_persistent name n (names f p))
