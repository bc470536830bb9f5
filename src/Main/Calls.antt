-- ===== src/Main/Calls.antt =====
-- What `main` asks the rewriting contexts for.
use pe_ar_honours.Prelude.{
  ℕ, ◌≡◌, refl, List, [], ◌∷◌, none, some, ok, ◌>>=◌, Outcome-cases, inl, inr,
}
use pe_ar_honours.Text.{Text, text_eq}
use pe_ar_honours.Args.{Options, Args, get_args}
use pe_ar_honours.Gtirb.{Gtirb}
use pe_ar_honours.Rewriting.{Call, global_data, rodata_space, insert_at_entry}
use pe_ar_honours.AddressMap.{create_address_map}
use pe_ar_honours.AddAfl.{afl_pass}
use pe_ar_honours.AddAfl.Pass.{Input, Report, begin_module}
use pe_ar_honours.Rodata.{ShiftPass, main_shift}
use pe_ar_honours.Main.{
  main_passes, Result, Module, Surroundings, read_file, run_pass, run_passes, main,
}
use pe_ar_honours.Dict.{put}

module _ (G : Gtirb) (w : Surroundings G) (modules : ℕ → Module G) where
  open G use {Block}

  -- What AddAFLPass is given: the third module, with the addresses of the first.
  abbrev pub afl_input : Input G
  afl_input = record {
    entry_point = (modules 2).entry_point;
    code_blocks = (modules 2).code_blocks;
    functions = (modules 2).functions;
    mappings_file = create_address_map G (modules 0).code_blocks;
    disk = w.disk;
    random_bits = w.random_bits;
  }

  abbrev pub main_results : Args → ShiftPass → List (Call Block) → Report → List (Result Block)
  main_results a shift calls report =
      record { calls = []; report = none }
      ∷ record {
        calls =
            insert_at_entry (modules 1).entry_point
              (global_data a.is_persistent a.is_deferred a.is_sharedmem_fuzzing)
            ∷ [];
        report = none;
      }
      ∷ record { calls = calls; report = some report }
      ∷ record {
        calls = insert_at_entry (modules 3).entry_point (rodata_space shift.bytes_to_add) ∷ [];
        report = none;
      }
      ∷ []

  -- `main` is the checking of the arguments, the reading of the number of bytes and AddAFLPass with
  -- the addresses of the module before any change, between two passes that add their data: it ends
  -- with an error exactly if one of the three does, with the first such error.
  pub main_lem :
      (o : Options) (added_bytes : Text)
      → main G o added_bytes w modules ≡ (
          get_args o >>= λ a. main_shift added_bytes >>= λ shift.
          begin_module G (afl_pass a) afl_input >>= λ r. ok (main_results a shift r.0 r.1))
  unfolding main main_passes run_passes run_pass read_file put text_eq
  main_lem o added_bytes = elim (Outcome-cases (get_args o)) [
    | inr (failure, q) ↦ rw q refl
    | inl (a, q) ↦ rw q (elim (Outcome-cases (main_shift added_bytes)) [
      | inr (failure, r) ↦ rw r refl
      | inl (shift, r) ↦ rw r (elim (Outcome-cases (begin_module G (afl_pass a) afl_input)) [
        | inr (failure, s) ↦ rw s refl
        | inl (result, s) ↦ rw s refl
      ])
    ])
  ]
