-- ===== src/AddAfl/Pass/Returns.antt =====
-- When `begin_module` returns, and when it ends the program.
use pe_ar_honours.Prelude.{
  ◌≡◌, refl, ◌∙◌, arith, Bool, true, false, not, ◌&&◌, ◌||◌, Bool-cases, inl, inr, Option, none,
  some, List, [], ◌∷◌, ◌++◌, any, keep, All, ok, raise, is_ok, system_exit,
}
use pe_ar_honours.Text.{codes}
use pe_ar_honours.Number.Int.{ℤ}
use pe_ar_honours.Gtirb.{Gtirb}
use pe_ar_honours.Args.{given_int}
use pe_ar_honours.Sorting.{sorted}
use pe_ar_honours.Blocks.Leaders.{starts_group}
use pe_ar_honours.Rewriting.{
  Patch, afl_trace, sharedmem_hook, Call, insert_function, insert_at_entry,
}
use pe_ar_honours.AddressMap.{Mappings, load_mappings}
use pe_ar_honours.PatchFiles.{patch_calls}
use pe_ar_honours.AddAfl.{
  AflPass, extern_calls, equals, entry_function, setup_patch, forkserver_patch, handler_patch,
  Progress,
}
use pe_ar_honours.AddAfl.Pass.{
  Input, first_entry, last_entry, hook_calls, start_in_function, loop_in_function, is_start, visit,
  visit_all, insert_at_address, start_at_address, loop_at_address, prepare, finish, begin_module,
}
use pe_ar_honours.AddAfl.Pass.Tracing.{after_tracing, trace_groups-get_basic_blocks}

module _ (G : Gtirb) (p : AflPass) (i : Input G) where
  open G use {Block, Function, address, get_name, get_all_blocks, get_entry_blocks}

  abbrev pub HasEntry : Function → Type 0
  HasEntry f = (b : Block) × (bs : List Block) × (get_entry_blocks f ≡ b ∷ bs)

  -- The functions in which the fork server may start.
  abbrev pub starts_in : Function → Bool
  starts_in f = not (is_start G i.entry_point f) && equals (get_name f) (entry_function p)

  last_entry-ok : (b : Block) (bs : List Block) → (c : Block) × (last_entry (b ∷ bs) ≡ ok c)
  unfolding last_entry
  last_entry-ok b [] = (b, refl)
  last_entry-ok b (c ∷ bs) = last_entry-ok c bs

  start_in_function-ok :
      (f : Function) (s : Progress Block)
      → HasEntry f
      → (t : Progress Block) × (start_in_function G p f s ≡ ok t)
        × (t.added_entrypoint ≡ s.added_entrypoint || equals (get_name f) (entry_function p))
  unfolding start_in_function first_entry
  start_in_function-ok f s (b, bs, entries) =
      elim (Bool-cases (not s.added_entrypoint && equals (get_name f) (entry_function p))) [
        | inl here ↦ (
          record s {
            calls =
                s.calls ++ insert_at_entry b forkserver_patch ∷ hook_calls G p (insert_at_entry b);
            added_entrypoint = true;
          },
          rw (here, entries) refl,
          ground arith,
        )
        | inr other ↦ (s, rw other refl, ground arith)
      ]

  loop_in_function-ok :
      (f : Function) (s : Progress Block)
      → HasEntry f
      → (t : Progress Block) × (loop_in_function G p f s ≡ ok t)
        × (t.added_entrypoint ≡ s.added_entrypoint)
  unfolding loop_in_function
  loop_in_function-ok f s (b, bs, entries) =
      elim (Bool-cases (equals (get_name f) p.persistent_mode_func)) [
        | inl here ↦
            let (c, last) = last_entry-ok b bs in
            (
              record s {
                calls = s.calls ++ insert_at_entry c (handler_patch p) ∷ [];
                added_persistent_mode = true;
              },
              rw (here, entries, last) refl,
              refl,
            )
        | inr other ↦ (s, rw other refl, refl)
      ]

  visit-ok :
      (f : Function) (s : Progress Block)
      → HasEntry f
      → (t : Progress Block) × (visit G p i f s ≡ ok t)
        × (t.added_entrypoint ≡ s.added_entrypoint || starts_in f)
  unfolding visit
  visit-ok f s entry = elim (Bool-cases (is_start G i.entry_point f)) [
    | inl start ↦ (s, rw start refl, rw start (ground arith))
    | inr other ↦
        let (u, started, added) = start_in_function-ok f s entry in
        let (v, looped, kept) = loop_in_function-ok f u entry in
        (
          after_tracing G i.random_bits
              (keep (starts_group G f) (sorted address (get_all_blocks f))) v,
          rw (other, started, looped, trace_groups-get_basic_blocks G i.random_bits f v) refl,
          rw other (kept ∙ added),
        )
  ]

  visit_all-ok :
      (functions : List Function) (s : Progress Block)
      → All HasEntry functions
      → (t : Progress Block) × (visit_all G p i functions s ≡ ok t)
        × (t.added_entrypoint ≡ s.added_entrypoint || any starts_in functions)
  unfolding visit_all
  visit_all-ok [] s entries = (s, refl, ground arith)
  visit_all-ok (f ∷ functions) s entries =
      let (u, visited, added) = visit-ok f s entries.0 in
      let (t, rest, added_later) = visit_all-ok functions u entries.1 in
      (t, rw visited rest, ground arith)

  insert_at_address-none :
      (m : Mappings) (place : Option ℤ) (patch : Patch) (calls : List (Call Block))
      → given_int place ≡ false
      → insert_at_address G m i place patch calls ≡ ok calls
  unfolding insert_at_address
  insert_at_address-none m none patch calls h = refl
  insert_at_address-none m (some z) patch calls h = rw h refl

  start_at_address-none :
      (m : Mappings) (calls : List (Call Block))
      → given_int p.init_addr ≡ false
      → start_at_address G p m i calls
        ≡ ok (record {
          calls = calls;
          instrumented_locations = 0;
          added_entrypoint = false;
          added_persistent_mode = false;
        })
  unfolding start_at_address
  start_at_address-none m calls h = elim (Bool-cases p.sharedmem_loc_is_init) [
    | inl hooked ↦
        rw
          (
            insert_at_address-none m p.init_addr forkserver_patch calls h,
            hooked,
            insert_at_address-none m p.init_addr (sharedmem_hook p.sharedmem_hook_name) calls h,
            h,
          )
          refl
    | inr unhooked ↦
        rw (insert_at_address-none m p.init_addr forkserver_patch calls h, unhooked, h) refl
  ]

  loop_at_address-none :
      (m : Mappings) (s : Progress Block)
      → given_int p.persistent_mode_addr ≡ false
      → loop_at_address G p m i s ≡ ok s
  unfolding loop_at_address
  loop_at_address-none m s h = elim (Bool-cases s.added_persistent_mode) [
    | inl looped ↦ rw looped refl
    | inr open_loop ↦ rw (open_loop, h) refl
  ]

  -- What `finish` makes of the last state.
  finish-is_ok :
      (t : Progress Block) (added : Bool)
      → t.added_entrypoint ≡ false || added
      → (is_ok (finish G p t t.calls) ≡ added)
        × (added ≡ false → finish G p t t.calls ≡ raise (system_exit 1))
  unfolding finish
  finish-is_ok t added e = rw e (elim (Bool-cases added) [
    | inl true_added ↦ (rw true_added refl, λ h. cc)
    | inr no_added ↦ (rw no_added refl, λ h. rw no_added refl)
  ])

  -- With no address given for the fork server, persistent mode and the hook, with a map that can be loaded,
  -- patch files that are found under the path of the patch directory and an entry block in each function:
  -- `begin_module` returns exactly if a function, other than that with the module's entry point, has the name
  -- of the function in which the fork server is to start; if none has, the program ends with status 1.
  pub begin_module-is_ok :
      (mappings : Mappings) (patches : List (Call Block))
      → load_mappings i.mappings_file ≡ ok mappings
      → patch_calls i.disk p.patch_dir ≡ ok patches
      → given_int p.init_addr ≡ false
      → given_int p.persistent_mode_addr ≡ false
      → given_int p.sharedmem_loc_address ≡ false
      → All HasEntry i.functions
      → (is_ok (begin_module G p i) ≡ any starts_in i.functions)
        × (any starts_in i.functions ≡ false → begin_module G p i ≡ raise (system_exit 1))
  unfolding begin_module prepare
  begin_module-is_ok mappings patches loads selects no_init no_loop no_hook entries =
      let prepared =
        extern_calls p.sharedmem_hook_name
        ++ (insert_function (codes "__afl_trace") afl_trace
            ∷ (patches ++ insert_at_entry i.entry_point setup_patch ∷ [])) in
      let started : Progress Block = record {
        calls = prepared;
        instrumented_locations = 0;
        added_entrypoint = false;
        added_persistent_mode = false;
      } in
      let (t, visited, added) = visit_all-ok i.functions started entries in
      rw
        (
          loads,
          selects,
          start_at_address-none mappings prepared no_init,
          visited,
          loop_at_address-none mappings t no_loop,
          insert_at_address-none mappings p.sharedmem_loc_address
              (sharedmem_hook p.sharedmem_hook_name) t.calls no_hook,
        )
        (finish-is_ok t (any starts_in i.functions) added)
