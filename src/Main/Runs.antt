-- ===== src/Main/Runs.antt =====
-- What a run of `main` that returns has done, all passes together.
use pe_ar_honours.Prelude.{
  ℕ, ◌-◌, ◌%◌, ◌≡◌, Bool, true, false, sym, ◌∙◌, none, some, List, [], ◌∷◌, length, Outcome, ok,
  ◌>>=◌, >>=-eq-ok, ok-injective,
}
use pe_ar_honours.Number.{decimal}
use pe_ar_honours.Number.Int.{pos}
use pe_ar_honours.Args.{Options, Args, get_args}
use pe_ar_honours.Gtirb.{Gtirb}
use pe_ar_honours.Rewriting.{Call, global_data, rodata_space, insert_at_entry}
use pe_ar_honours.AddAfl.{afl_pass, is_deferred}
use pe_ar_honours.AddAfl.Pass.{Report, begin_module}
use pe_ar_honours.AddAfl.Pass.Tracing.{trampolines, with_bits, traced}
use pe_ar_honours.AddAfl.Pass.Instrumented.{begin_module-trampolines}
use pe_ar_honours.AddAfl.Pass.Forkserver.{forkserver_starts, begin_module-starts}
use pe_ar_honours.Rodata.Alignment.{main_shift-aligned}
use pe_ar_honours.Main.{Result, Module, Surroundings, main}
use pe_ar_honours.Main.Flags.{afl_pass-flags}
use pe_ar_honours.Main.Calls.{afl_input, main_results, main_lem}

-- A chain of two steps that returns.
two_steps :
    {A B R : Type 0} (m : Outcome A) (f : A → Outcome B) (g : A → B → R) {r : R}
    → (m >>= λ a. f a >>= λ b. ok (g a b)) ≡ ok r
    → (a : A) × (b : B) × (m ≡ ok a) × (f a ≡ ok b) × (r ≡ g a b)
two_steps m f g e =
    let (a, first, rest) = >>=-eq-ok m _ e in
    let (b, second, done) = >>=-eq-ok (f a) _ rest in (a, b, first, second, sym (ok-injective done))

module _ (G : Gtirb) (w : Surroundings G) (modules : ℕ → Module G) where
  open G use {Block}

  -- A run of `main` with the number `n` in `added_bytes_rodata`.
  pub record Ran (o : Options) (n : ℕ) (results : List (Result Block)) : Type 0 where
    pub args : Args
    pub is_persistent : Bool
    pub is_deferred_start : Bool
    pub is_sharedmem : Bool
    pub calls : List (Call Block)
    pub report : Report
    pub options_read : get_args o ≡ ok args
    -- The map, the data, the instrumentation and the padding, each at the entry point of the module as it
    -- then is.
    pub splits :
        results
        ≡ record { calls = []; report = none }
          ∷ record {
            calls =
                insert_at_entry
                  (modules 1).entry_point
                  (global_data is_persistent is_deferred_start is_sharedmem)
                ∷ [];
            report = none;
          }
          ∷ record { calls = calls; report = some report }
          ∷ record {
            calls = insert_at_entry (modules 3).entry_point (rodata_space (pos (16 - n % 16))) ∷ [];
            report = none;
          }
          ∷ []
    -- The data are those of what AddAFLPass is made to do.
    pub persistent_fits : is_persistent ≡ (afl_pass args).persistent_mode
    pub deferred_fits : is_deferred_start ≡ is_deferred (afl_pass args)
    pub sharedmem_fits : is_sharedmem ≡ true → (afl_pass args).sharedmem_fuzzing ≡ true
    -- One start of the fork server, and a trampoline for each group of blocks of the module as
    -- AddAFLPass finds it, as many as it prints.
    pub starts : forkserver_starts calls ≡ 1
    pub traces :
        trampolines calls
        ≡ with_bits w.random_bits 0 (traced G (modules 2).entry_point (modules 2).functions)
    pub counts :
        report.instrumented ≡ length (traced G (modules 2).entry_point (modules 2).functions)

  -- Each run of `main` that returns, with the number n in `added_bytes_rodata`, is that of four passes, of
  -- which the first only writes its map: the data, with the signatures and variables for persistent mode and
  -- for deferred initialisation exactly if AddAFLPass is made for these, and for shared memory only if it is;
  -- then one start of the fork server and the trampolines of all functions but the entry's, with the random
  -- numbers in turn, as many as it prints; then 16 - n % 16 bytes of padding.
  pub main-Ran :
      (o : Options) (n : ℕ) (results : List (Result Block))
      → main G o (decimal n) w modules ≡ ok results
      → Ran o n results
  main-Ran o n results e =
      let (a, r, read, ran, done) =
        two_steps (get_args o) (λ a. begin_module G (afl_pass a) (afl_input G w modules))
          (λ a r.
            main_results G w modules a
              (record { bytes_to_add = pos (16 - n % 16); alignment = pos 16 }) r.0 r.1)
          (rw (main_shift-aligned false false n).0 at
            (sym (main_lem G w modules o (decimal n)) ∙ e)) in
      let (persistent, deferred, sharedmem) = afl_pass-flags o a read in
      let (traces, counts) =
        begin_module-trampolines G (afl_pass a) (afl_input G w modules) r.0 r.1 ran in
      record {
        args = a;
        is_persistent = a.is_persistent;
        is_deferred_start = a.is_deferred;
        is_sharedmem = a.is_sharedmem_fuzzing;
        calls = r.0;
        report = r.1;
        options_read = read;
        splits = done;
        persistent_fits = sym persistent;
        deferred_fits = sym deferred;
        sharedmem_fits = sharedmem;
        starts = begin_module-starts G (afl_pass a) (afl_input G w modules) r.0 r.1 ran;
        traces = traces;
        counts = counts;
      }
