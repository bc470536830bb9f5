-- ===== src/Main/Returns.antt =====
-- When `main` returns, with options that name functions and no addresses.
use pe_ar_honours.Prelude.{
  ℕ, ◌-◌, ◌%◌, ◌^◌, ◌<◌, ◌≡◌, refl, ◌∙◌, false, List, any, All, Outcome, ok, raise, ◌>>=◌, is_ok,
  system_exit,
}
use pe_ar_honours.Number.{decimal}
use pe_ar_honours.Number.Int.{pos}
use pe_ar_honours.Gtirb.{Gtirb}
use pe_ar_honours.Sorting.Distinct.{Distinct}
use pe_ar_honours.Args.{Options, Args, get_args, given_int}
use pe_ar_honours.Rewriting.{Call}
use pe_ar_honours.AddressMap.File.{load_mappings-create_address_map}
use pe_ar_honours.PatchFiles.{patch_calls}
use pe_ar_honours.AddAfl.{afl_pass}
use pe_ar_honours.AddAfl.Pass.{begin_module}
use pe_ar_honours.AddAfl.Pass.Returns.{HasEntry, starts_in, begin_module-is_ok}
use pe_ar_honours.Rodata.{ShiftPass}
use pe_ar_honours.Rodata.Alignment.{main_shift-aligned}
use pe_ar_honours.Main.{Module, Surroundings, main}
use pe_ar_honours.Main.Calls.{afl_input, main_results, main_lem}

-- A last step that returns changes neither that a run returns nor its error.
is_ok-last : {A B : Type 0} (m : Outcome A) (f : A → B) → is_ok (m >>= λ a. ok (f a)) ≡ is_ok m
is_ok-last (ok a) f = refl
is_ok-last (raise e) f = refl

module _ (G : Gtirb) (w : Surroundings G) (modules : ℕ → Module G) where
  open G use {Block, address, uuid}

  -- With blocks of distinct addresses and 128-bit identities, patch files that are found under the path of
  -- the patch directory, no address in the options and an entry block in each function: `main` returns
  -- exactly if a function, other than that with the entry point, has the name of the function in which the
  -- fork server is to start; if none has, it ends with status 1.
  pub main-is_ok :
      (o : Options) (a : Args) (n : ℕ) (patches : List (Call Block))
      → get_args o ≡ ok a
      → given_int a.forkserver_init_address ≡ false
      → given_int a.persistent_mode_address ≡ false
      → given_int a.hook_loc_address ≡ false
      → Distinct address (modules 0).code_blocks
      → All (λ b. uuid b < 2 ^ 128) (modules 0).code_blocks
      → patch_calls w.disk a.patch_dir ≡ ok patches
      → All (HasEntry G (afl_pass a) (afl_input G w modules)) (modules 2).functions
      → let found = any (starts_in G (afl_pass a) (afl_input G w modules)) (modules 2).functions in
        (is_ok (main G o (decimal n) w modules) ≡ found)
        × (found ≡ false → main G o (decimal n) w modules ≡ raise (system_exit 1))
  unfolding afl_pass
  main-is_ok o a n patches read no_init no_loop no_hook distinct small selects entries =
      let (returns, ends) =
        begin_module-is_ok G (afl_pass a) (afl_input G w modules) _ patches
          (load_mappings-create_address_map G (modules 0).code_blocks distinct small) selects
          no_init no_loop no_hook entries in
      let shift : ShiftPass = record { bytes_to_add = pos (16 - n % 16); alignment = pos 16 } in
      let run = begin_module G (afl_pass a) (afl_input G w modules) in
      rw (main_lem G w modules o (decimal n), read, (main_shift-aligned false false n).0)
        (
          is_ok-last run (λ r. main_results G w modules a shift r.0 r.1) ∙ returns,
          λ none_found. rw (ends none_found) refl,
        )
