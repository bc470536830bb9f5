-- ===== src/Main/Flags.antt =====
-- The flags that `main` reads from the options fit the pass that it makes of them.
use pe_ar_honours.Prelude.{◌≡◌, true, ok, arith, Outcome-cases, inl, inr}
use pe_ar_honours.Args.{Options, Args, get_args, read_hook, convert}
use pe_ar_honours.Args.Checks.{get_args-IsConsistent}
use pe_ar_honours.AddAfl.{afl_pass, is_deferred}

-- The flags of the options are those of AddAFLPass: persistent mode and deferred initialisation exactly, and
-- shared memory at least.
pub afl_pass-flags :
    (o : Options) (a : Args)
    → get_args o ≡ ok a
    → ((afl_pass a).persistent_mode ≡ a.is_persistent)
      × (is_deferred (afl_pass a) ≡ a.is_deferred)
      × (a.is_sharedmem_fuzzing ≡ true → (afl_pass a).sharedmem_fuzzing ≡ true)
unfolding get_args afl_pass is_deferred
afl_pass-flags o a e =
    elim (Outcome-cases (read_hook o.sharedmem_hook_location o.sharedmem_hook_func_name)) [
      | inr (failure, refused) ↦ ground arith
      | inl (hook, read) ↦ elim (Outcome-cases (convert 10 o.persistent_mode_count)) [
        | inr (failure, refused) ↦ ground arith
        | inl (count, counted) ↦
            (ground arith, unfold is_deferred in ground arith, (get_args-IsConsistent o a e).named)
      ]
    ]
