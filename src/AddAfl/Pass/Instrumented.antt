-- ===== src/AddAfl/Pass/Instrumented.antt =====
-- The blocks that a run of `begin_module` instruments for tracing.
use pe_ar_honours.Prelude.{
  ◌≡◌, refl, ◌∙◌, ap, Option, List, [], ◌∷◌, arith, length, All, ok, >>=-eq-ok, Outcome-cases,
  Bool-cases, inl, inr,
}
use mathlib.Core.List.{append-nil}
use pe_ar_honours.Number.Int.{ℤ}
use pe_ar_honours.Gtirb.{Gtirb}
use pe_ar_honours.Rewriting.{
  Patch, sharedmem_hook, Call, extern_symbol, insert_function, insert_at_entry, insert_at,
}
use pe_ar_honours.AddressMap.{Mappings}
use pe_ar_honours.AddAfl.{AflPass, forkserver_patch, handler_patch, Progress}
use pe_ar_honours.AddAfl.Pass.{
  Input, Report, report, prepare, insert_at_address, start_at_address, loop_at_address,
  begin_module,
}
use pe_ar_honours.AddAfl.Pass.Tracing.{trampolines, with_bits, trampolines-append, traced}
use pe_ar_honours.AddAfl.Pass.Traced.{visit_all-Traced}
use pe_ar_honours.AddAfl.Pass.Addresses.{
  IsDeclaration, prepare-eq-ok, insert_at_address-eq-ok, begin_module-eq-ok,
}

module _ {Block : Type 0} where
  trampolines-IsDeclaration : (ds : List (Call Block)) → All IsDeclaration ds → trampolines ds ≡ []
  trampolines-IsDeclaration [] h = refl
  trampolines-IsDeclaration (extern_symbol n l ∷ ds) h = trampolines-IsDeclaration ds h.1
  trampolines-IsDeclaration (insert_function n q ∷ ds) h = trampolines-IsDeclaration ds h.1
  trampolines-IsDeclaration (insert_at_entry b q ∷ ds) h = absurd h.0
  trampolines-IsDeclaration (insert_at b z q ∷ ds) h = absurd h.0

module _ (G : Gtirb) (p : AflPass) (i : Input G) where
  open G use {Block}

  prepare-untraced : (calls : List (Call Block)) → prepare G p i ≡ ok calls → trampolines calls ≡ []
  prepare-untraced calls e =
      let (ds, declared, split) = prepare-eq-ok G p i e in
      rw (split, trampolines-append, trampolines-IsDeclaration ds declared)

  insert_at_address-untraced :
      (m : Mappings) (place : Option ℤ) (patch : Patch) (calls t : List (Call Block))
      → insert_at_address G m i place patch calls ≡ ok t
      → trampolines t ≡ trampolines calls
  insert_at_address-untraced m place patch calls t e =
      elim (insert_at_address-eq-ok G p i m place patch calls e) [
        | inl h ↦ ap trampolines h.1
        | inr (_, (b, z, h)) ↦ rw (h, trampolines-append, append-nil)
      ]

  start_at_address-untraced :
      (m : Mappings) (calls : List (Call Block)) (s : Progress Block)
      → start_at_address G p m i calls ≡ ok s
      → (trampolines s.calls ≡ trampolines calls) × (s.instrumented_locations ≡ 0)
  unfolding start_at_address
  start_at_address-untraced m calls s e =
      let (started, q, r) =
        >>=-eq-ok (insert_at_address G m i p.init_addr forkserver_patch calls) _ e in
      let before = insert_at_address-untraced m p.init_addr forkserver_patch calls started q in
      elim (Bool-cases p.sharedmem_loc_is_init) [
        | inl yes_hook ↦
            let (hooked, q', r') =
              >>=-eq-ok
                (insert_at_address G m i p.init_addr (sharedmem_hook p.sharedmem_hook_name) started)
                _ (rw yes_hook at r) in
            let behind =
              insert_at_address-untraced m p.init_addr (sharedmem_hook p.sharedmem_hook_name)
                started hooked q' in
            ground arith
        | inr no_hook ↦ ground arith
      ]

  loop_at_address-untraced :
      (m : Mappings) (s t : Progress Block)
      → loop_at_address G p m i s ≡ ok t
      → (trampolines t.calls ≡ trampolines s.calls)
        × (t.instrumented_locations ≡ s.instrumented_locations)
  unfolding loop_at_address
  loop_at_address-untraced m s t e =
      elim (Outcome-cases
        (insert_at_address G m i p.persistent_mode_addr (handler_patch p) s.calls)) [
          | inr (failure, q) ↦ ground arith
          | inl (calls, q) ↦ ground (
            arith,
            insert_at_address-untraced m p.persistent_mode_addr (handler_patch p) s.calls calls q,
          )
        ]

  -- A run that returns has put a trampoline at the entry of each block that starts a group, of each
  -- function but that of the entry point, in the order of the functions and of the addresses, each
  -- with the next random number, and nowhere else. It reports their number.
  pub begin_module-trampolines :
      (calls : List (Call Block)) (r : Report)
      → begin_module G p i ≡ ok (calls, r)
      → (trampolines calls ≡ with_bits i.random_bits 0 (traced G i.entry_point i.functions))
        × (r.instrumented ≡ length (traced G i.entry_point i.functions))
  unfolding report
  begin_module-trampolines calls r e =
      let run = begin_module-eq-ok G p i calls r e in
      let before = start_at_address-untraced run.mappings run.prepared run.started run.starts in
      let traces = visit_all-Traced G p i i.functions run.started run.visited run.visits in
      let after = loop_at_address-untraced run.mappings run.visited run.looped run.loops in
      let last =
        insert_at_address-untraced run.mappings p.sharedmem_loc_address _ run.looped.calls calls
          run.hooks in
      (
        last
            ∙ after.0
            ∙ traces.0
            ∙ rw (before.0, before.1, prepare-untraced run.prepared run.prepares),
        rw (run.reports, report, after.1, traces.1, before.1) (omega arith),
      )
