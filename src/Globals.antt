-- ===== src/Globals.antt =====
-- The variables that `AddAFLGlobalDataPass.begin_module` adds to `.data`, in their order.
pub mod Held
pub mod Started
mod Tests
use pe_ar_honours.Prelude.{
  ℕ, ◌+◌, ◌-◌, ltb, Bool, true, false, Option, none, some, List, [], ◌∷◌, if◌then◌else◌,
}
use pe_ar_honours.Text.{Text, codes, text_eq}

-- .quad v, .byte v and .space n
pub data Directive : Type 0 where
  quad byte space : ℕ → Directive

-- The bytes that a directive takes, and the number that they hold at first.
unfoldable pub size : Directive → ℕ
size (quad v) = 8
size (byte v) = 1
size (space n) = n

unfoldable pub initially : Directive → ℕ
initially (quad v) = v
initially (byte v) = v
initially (space n) = 0

pub record Variable : Type 0 where
  pub label : Text
  pub directive : Directive

unfoldable pub data_variables : Bool → Bool → List Variable
data_variables is_sharedmem_fuzzing is_persistent =
    record { label = codes "__afl_area_ptr_dummy"; directive = quad 0 }
    ∷ record { label = codes "__afl_area_ptr"; directive = quad 0 }
    ∷ record { label = codes "__afl_debug"; directive = quad 0 }
    ∷ record { label = codes "__afl_already_initialized_shm"; directive = quad 0 }
    ∷ record { label = codes "__afl_prev_loc"; directive = quad 0 }
    ∷ record { label = codes "__afl_already_initialized_forkserver"; directive = quad 0 }
    ∷ record { label = codes "__afl_map_size"; directive = quad 65536 }
    ∷ record { label = codes "child_pid"; directive = quad 0 }
    ∷ record { label = codes "old_sigterm_handler"; directive = space 8 }
    ∷ record { label = codes "__afl_connected"; directive = quad 0 }
    ∷ record {
      label = codes "__afl_sharedmem_fuzzing";
      directive = quad (if is_sharedmem_fuzzing then 1 else 0);
    }
    ∷ record { label = codes "is_persistent"; directive = byte (if is_persistent then 1 else 0) }
    ∷ record { label = codes "cycle_cnt"; directive = quad 0 }
    ∷ record { label = codes "first_pass"; directive = byte 1 }
    ∷ record { label = codes "p_mode_reg_backup"; directive = space 368 }
    ∷ record { label = codes "p_mode_ret_addr_backup"; directive = space 8 }
    ∷ record { label = codes "__afl_fuzz_len"; directive = space 8 }
    ∷ record { label = codes "__afl_fuzz_ptr"; directive = space 8 }
    ∷ record { label = codes "__document_mutation_counter"; directive = space 4 }
    ∷ []

unfoldable pub behind : ℕ → Option (ℕ × Directive) → Option (ℕ × Directive)
behind n none = none
behind n (some (distance, d)) = some (n + distance, d)

-- Where a label is: the distance from the first variable, and its directive.
unfoldable pub locate : Text → List Variable → Option (ℕ × Directive)
unfolding text_eq size behind
locate l [] = none
locate l (v ∷ vs) =
    let later = behind (size v.directive) (locate l vs) in
    if text_eq l v.label then some (0, v.directive) else later

-- The variable that has a byte.
unfoldable pub holder : ℕ → List Variable → Option Text
unfolding size
holder b [] = none
holder b (v ∷ vs) =
    let later = holder (b - size v.directive) vs in
    if ltb b (size v.directive) then some v.label else later

-- What a variable holds at first.
unfoldable pub initial_value : Text → List Variable → Option ℕ
unfolding locate initially
initial_value l vs = elim (locate l vs) [ none ↦ none | some (distance, d) ↦ some (initially d) ]
