-- ===== src/Globals/Started.antt =====
-- Persistent mode, from the command line and the data to the end of the loop.
use pe_ar_honours.Prelude.{
  ℕ, ◌+◌, ◌^◌, ◌<◌, ◌≤◌, ◌≡◌, ◌∙◌, sym, ap, arith, Bool, true, none, some, All, length, ok,
}
use pe_ar_honours.Text.{Text, codes, text_eq}
use pe_ar_honours.Number.Int.{pos}
use pe_ar_honours.Args.{Options, Args, get_args, given_int}
use pe_ar_honours.Args.Checks.{get_args-IsConsistent}
use pe_ar_honours.Persistent.{Machine, World, persistent_mode_patch}
use pe_ar_honours.Persistent.Calls.{KeepsStack}
use pe_ar_honours.Persistent.Loop.{Ended, run_function}
use pe_ar_honours.Persistent.Between.{KeepsLoop, IsStarted, HasReturned}
use pe_ar_honours.Persistent.Runs.{persistent_mode_patch-returns}
use pe_ar_honours.Globals.{data_variables, initial_value, locate, behind, size, initially}

pub first_pass-one :
    (f p : Bool) (v : ℕ) → initial_value (codes "first_pass") (data_variables f p) ≡ some v → v ≡ 1
unfolding initial_value locate behind size initially data_variables text_eq
first_pass-one f p v e = ground arith

positive : (n : ℕ) → given_int (some (pos n)) ≡ true → 1 ≤ n
positive n h = ground arith

-- If `get_args` accepts persistent mode, and the machine's `first_pass` is that of the data which is
-- made for its flags, then the loop for its count, below 2 ^ 32, ends: the function's own code is
-- started as often as the count says, and then it returns to its caller, each time with the registers
-- restored, those of xmm in their lower 8 bytes. The runtime, the hook and the function return with
-- their stack kept, the function keeps the variables of the loop, and there are 167 bytes of stack.
pub get_args-persistent_mode_patch :
    (w : World) (o : Options) (a : Args) (name : Text) (n : ℕ) (m : Machine)
    → get_args o ≡ ok a
    → a.is_persistent ≡ true
    → a.persistent_mode_count ≡ some (pos n)
    → n < 2 ^ 32
    → initial_value (codes "first_pass") (data_variables a.is_sharedmem_fuzzing a.is_persistent)
      ≡ some m.first_pass
    → KeepsStack w (codes "__afl_persistent_loop")
    → (a.is_hook_loc_persistent ≡ true → KeepsStack w name)
    → KeepsLoop w
    → 167 ≤ m.rsp
    → m.rsp + 8 < 2 ^ 64
    → (e : Ended) × (run_function w
          (persistent_mode_patch a.is_hook_loc_persistent name n)
          (n + 1)
          none
          m
        ≡ ok e)
      × (length e.started ≡ n)
      × All (IsStarted w a.is_hook_loc_persistent name n m) e.started
      × HasReturned w a.is_hook_loc_persistent name n m e
get_args-persistent_mode_patch w o a name n m e persistent count small first abi hook_abi keeps room
      bound =
    let counted = (get_args-IsConsistent o a e).counted persistent in
    persistent_mode_patch-returns w a.is_hook_loc_persistent name n m abi hook_abi keeps
      (positive n (sym (ap given_int count) ∙ counted)) small room bound
      (first_pass-one a.is_sharedmem_fuzzing a.is_persistent m.first_pass first)
