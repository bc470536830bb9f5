-- ===== src/AddAfl/Pass/Forkserver.antt =====
-- How often a run of `begin_module` starts the fork server.
use pe_ar_honours.Prelude.{
  ℕ, ◌+◌, ◌≡◌, refl, sym, ◌∙◌, ap, Bool, Option, List, [], ◌∷◌, ◌++◌, arith, if◌then◌else◌, keep,
  All, ok, >>=-eq-ok, ok-injective, Outcome-cases, Bool-cases, inl, inr,
}
use pe_ar_honours.Text.{codes, text_eq}
use pe_ar_honours.Number.Int.{ℤ}
use pe_ar_honours.Args.{given_int}
use pe_ar_honours.Gtirb.{Gtirb}
use pe_ar_honours.Rewriting.{
  Patch, call_function, sharedmem_hook, Call, extern_symbol, insert_function, insert_at_entry,
  insert_at,
}
use pe_ar_honours.Sorting.{sorted}
use pe_ar_honours.Blocks.Leaders.{starts_group}
use pe_ar_honours.AddressMap.{Mappings}
use pe_ar_honours.AddAfl.{AflPass, setup_patch, forkserver_patch, handler_patch, Progress}
use pe_ar_honours.AddAfl.Pass.{
  Input, Report, first_entry, last_entry, hook_calls, start_in_function, loop_in_function, is_start,
  visit, visit_all, prepare, insert_at_address, start_at_address, loop_at_address, begin_module,
}
use pe_ar_honours.AddAfl.Pass.Tracing.{trampoline_calls}
use pe_ar_honours.AddAfl.Pass.Traced.{visit-start, visit-other}
use pe_ar_honours.AddAfl.Pass.Addresses.{
  IsDeclaration, prepare-eq-ok, insert_at_address-eq-ok, begin_module-eq-ok,
}

-- 1 for the patch that calls `__afl_start_forkserver`.
abbrev pub starts : Patch → ℕ
starts (call_function name) = if text_eq name (codes "__afl_start_forkserver") then 1 else 0
starts _ = 0

-- How many of the calls insert that patch.
abbrev pub forkserver_starts : {Block : Type 0} → List (Call Block) → ℕ
forkserver_starts [] = 0
forkserver_starts (insert_at_entry b patch ∷ calls) = starts patch + forkserver_starts calls
forkserver_starts (insert_at b z patch ∷ calls) = starts patch + forkserver_starts calls
forkserver_starts (_ ∷ calls) = forkserver_starts calls

abbrev flag : Bool → ℕ
flag b = if b then 1 else 0

starts-forkserver_patch : starts forkserver_patch ≡ 1
unfolding text_eq
starts-forkserver_patch = refl

starts-setup_patch : starts setup_patch ≡ 0
unfolding text_eq
starts-setup_patch = refl

module _ {Block : Type 0} where
  forkserver_starts-append :
      (cs ds : List (Call Block))
      → forkserver_starts (cs ++ ds) ≡ forkserver_starts cs + forkserver_starts ds
  forkserver_starts-append [] ds = omega arith
  forkserver_starts-append (insert_at_entry b q ∷ cs) ds =
      omega (arith, forkserver_starts-append cs ds)
  forkserver_starts-append (insert_at b z q ∷ cs) ds = omega (arith, forkserver_starts-append cs ds)
  forkserver_starts-append (extern_symbol n l ∷ cs) ds = forkserver_starts-append cs ds
  forkserver_starts-append (insert_function n q ∷ cs) ds = forkserver_starts-append cs ds

  forkserver_starts-IsDeclaration :
      (ds : List (Call Block)) → All IsDeclaration ds → forkserver_starts ds ≡ 0
  forkserver_starts-IsDeclaration [] h = refl
  forkserver_starts-IsDeclaration (extern_symbol n l ∷ ds) h =
      forkserver_starts-IsDeclaration ds h.1
  forkserver_starts-IsDeclaration (insert_function n q ∷ ds) h =
      forkserver_starts-IsDeclaration ds h.1
  forkserver_starts-IsDeclaration (insert_at_entry b q ∷ ds) h = absurd h.0
  forkserver_starts-IsDeclaration (insert_at b z q ∷ ds) h = absurd h.0

module _ (G : Gtirb) (p : AflPass) (i : Input G) where
  open G use {Block, Function, address, get_all_blocks}

  -- The fork server is started exactly when `added_entrypoint` is set.
  abbrev Balanced : Progress Block → Progress Block → Type 0
  Balanced s t =
      forkserver_starts t.calls + flag s.added_entrypoint
      ≡ forkserver_starts s.calls + flag t.added_entrypoint

  starts-trampoline_calls :
      (bits : ℕ → ℕ) (k : ℕ) (bs : List Block)
      → forkserver_starts (trampoline_calls G bits k bs) ≡ 0
  starts-trampoline_calls bits k [] = refl
  starts-trampoline_calls bits k (b ∷ bs) = omega (arith, starts-trampoline_calls bits (k + 1) bs)

  starts-hook_calls : (b : Block) → forkserver_starts (hook_calls G p (insert_at_entry b)) ≡ 0
  unfolding hook_calls
  starts-hook_calls b = ground arith

  start_in_function-Balanced :
      (f : Function) (s t : Progress Block) → start_in_function G p f s ≡ ok t → Balanced s t
  unfolding start_in_function
  start_in_function-Balanced f s t e = elim (Outcome-cases (first_entry (G.get_entry_blocks f))) [
    | inr (failure, q) ↦ ground arith
    | inl (b, q) ↦ ground (
      arith,
      forkserver_starts-append s.calls
          (insert_at_entry b forkserver_patch ∷ hook_calls G p (insert_at_entry b)),
      starts-hook_calls b,
      starts-forkserver_patch,
    )
  ]

  loop_in_function-Balanced :
      (f : Function) (s t : Progress Block) → loop_in_function G p f s ≡ ok t → Balanced s t
  unfolding loop_in_function handler_patch
  loop_in_function-Balanced f s t e = elim (Outcome-cases (last_entry (G.get_entry_blocks f))) [
    | inr (failure, q) ↦ ground arith
    | inl (b, q) ↦
        ground (arith, forkserver_starts-append s.calls (insert_at_entry b (handler_patch p) ∷ []))
  ]

  visit-Balanced : (f : Function) (s t : Progress Block) → visit G p i f s ≡ ok t → Balanced s t
  visit-Balanced f s t e = elim (Bool-cases (is_start G i.entry_point f)) [
    | inl start ↦
        let same : s ≡ t = ok-injective (sym (visit-start G p i f s start) ∙ e) in ground arith
    | inr other ↦
        let (u, v, q, r, done) = visit-other G p i f s t other e in
        rw done (
          omega (
            arith,
            start_in_function-Balanced f s u q,
            loop_in_function-Balanced f u v r,
            forkserver_starts-append v.calls (
                trampoline_calls G i.random_bits v.instrumented_locations
                  (keep (starts_group G f) (sorted address (get_all_blocks f)))),
            starts-trampoline_calls i.random_bits v.instrumented_locations
                (keep (starts_group G f) (sorted address (get_all_blocks f))),
          ))
  ]

  visit_all-Balanced :
      (functions : List Function) (s t : Progress Block)
      → visit_all G p i functions s ≡ ok t
      → Balanced s t
  unfolding visit_all
  visit_all-Balanced [] s t e = let same : s ≡ t = ok-injective e in ground arith
  visit_all-Balanced (f ∷ functions) s t e =
      let (u, q, rest) = >>=-eq-ok (visit G p i f s) (visit_all G p i functions) e in
      omega (arith, visit-Balanced f s u q, visit_all-Balanced functions u t rest)

  insert_at_address-starts :
      (m : Mappings) (place : Option ℤ) (patch : Patch) (calls t : List (Call Block))
      → insert_at_address G m i place patch calls ≡ ok t
      → forkserver_starts t
        ≡ forkserver_starts calls + (if given_int place then starts patch else 0)
  insert_at_address-starts m place patch calls t e =
      elim (insert_at_address-eq-ok G p i m place patch calls e) [
        | inl h ↦ rw (h.0, h.1) (omega arith)
        | inr (h, (b, z, same)) ↦
            rw (h, same) (omega (arith, forkserver_starts-append calls (insert_at b z patch ∷ [])))
      ]

  -- A patch of another kind.
  insert_at_address-no_starts :
      (m : Mappings) (place : Option ℤ) (patch : Patch) (calls t : List (Call Block))
      → starts patch ≡ 0
      → insert_at_address G m i place patch calls ≡ ok t
      → forkserver_starts t ≡ forkserver_starts calls
  insert_at_address-no_starts m place patch calls t none_starts e =
      ground (arith, insert_at_address-starts m place patch calls t e)

  starts-handler_patch : starts (handler_patch p) ≡ 0
  unfolding handler_patch
  starts-handler_patch = refl

  start_at_address-starts :
      (m : Mappings) (calls : List (Call Block)) (s : Progress Block)
      → start_at_address G p m i calls ≡ ok s
      → forkserver_starts s.calls ≡ forkserver_starts calls + flag s.added_entrypoint
  unfolding start_at_address
  start_at_address-starts m calls s e =
      let (started, q, r) =
        >>=-eq-ok (insert_at_address G m i p.init_addr forkserver_patch calls) _ e in
      let before = insert_at_address-starts m p.init_addr forkserver_patch calls started q in
      elim (Outcome-cases
        (insert_at_address G m i p.init_addr (sharedmem_hook p.sharedmem_hook_name) started)) [
          | inl (hooked, q') ↦
              let behind =
                insert_at_address-starts m p.init_addr (sharedmem_hook p.sharedmem_hook_name)
                  started hooked q' in
              ground (arith, starts-forkserver_patch)
          | inr (failure, q') ↦ ground (arith, starts-forkserver_patch)
        ]

  loop_at_address-Balanced :
      (m : Mappings) (s t : Progress Block) → loop_at_address G p m i s ≡ ok t → Balanced s t
  unfolding loop_at_address
  loop_at_address-Balanced m s t e =
      elim (Outcome-cases
        (insert_at_address G m i p.persistent_mode_addr (handler_patch p) s.calls)) [
          | inr (failure, q) ↦ ground arith
          | inl (calls, q) ↦ ground (
            arith,
            insert_at_address-no_starts m p.persistent_mode_addr (handler_patch p) s.calls calls
                starts-handler_patch q,
          )
        ]

  prepare-starts :
      (calls : List (Call Block)) → prepare G p i ≡ ok calls → forkserver_starts calls ≡ 0
  prepare-starts calls e =
      let (ds, declared, split) = prepare-eq-ok G p i e in
      rw split (
        omega (
          arith,
          forkserver_starts-append ds (insert_at_entry i.entry_point setup_patch ∷ []),
          forkserver_starts-IsDeclaration ds declared,
          starts-setup_patch,
        ))

  -- A run that returns has put in exactly one call of the fork server, whichever way the place for
  -- it was given.
  pub begin_module-starts :
      (calls : List (Call Block)) (r : Report)
      → begin_module G p i ≡ ok (calls, r)
      → forkserver_starts calls ≡ 1
  begin_module-starts calls r e =
      let run = begin_module-eq-ok G p i calls r e in
      let entry : flag run.looped.added_entrypoint ≡ 1 = ap flag run.has_entrypoint in
      omega (
        arith,
        prepare-starts run.prepared run.prepares,
        start_at_address-starts run.mappings run.prepared run.started run.starts,
        visit_all-Balanced i.functions run.started run.visited run.visits,
        loop_at_address-Balanced run.mappings run.visited run.looped run.loops,
        insert_at_address-no_starts run.mappings p.sharedmem_loc_address
            (sharedmem_hook p.sharedmem_hook_name) run.looped.calls calls refl run.hooks,
      )
