-- ===== src/AddAfl/Pass/Addresses.antt =====
-- What the steps of `begin_module` outside the loop over the functions add to the calls.
use pe_ar_honours.Prelude.{
  ◌≡◌, refl, sym, ◌∙◌, ap, true, false, ◌⊎◌, Option, none, some, List, [], ◌∷◌, ◌++◌, map, arith,
  All, All-append, Outcome, ok, ◌>>=◌, >>=-eq-ok, ok-injective, Bool-cases, inl, inr,
}
use mathlib.Core.List.{append_assoc}
use pe_ar_honours.Text.{Text, codes}
use pe_ar_honours.Number.Int.{ℤ, is_nonzero}
use pe_ar_honours.Args.{given_int}
use pe_ar_honours.Gtirb.{Gtirb}
use pe_ar_honours.Rewriting.{
  Patch, afl_trace, sharedmem_hook, Call, extern_symbol, insert_function, insert_at_entry,
  insert_at,
}
use pe_ar_honours.AddressMap.{Mappings, load_mappings}
use pe_ar_honours.AddressMap.Lookup.{insert_patch_at_address-eq-ok}
use pe_ar_honours.PatchFiles.{
  Disk, list_dir, read_patch, insert_files, select, patch_number, patch_calls,
}
use pe_ar_honours.Sorting.{sorted}
use pe_ar_honours.AddAfl.{AflPass, extern_calls, hook_symbol, extern_names, setup_patch, Progress}
use pe_ar_honours.AddAfl.Pass.{
  Input, Report, report, visit_all, prepare, insert_at_address, start_at_address, loop_at_address,
  finish, begin_module,
}

-- A call that makes a symbol or a function known to the module.
abbrev pub IsDeclaration : {Block : Type 0} → Call Block → Type 0
IsDeclaration (extern_symbol name library) = Unit
IsDeclaration (insert_function name patch) = Unit
IsDeclaration _ = ⊥

module _ (Block : Type 0) where
  map-All :
      {A : Type 0} (f : A → Call Block)
      → ((x : A) → IsDeclaration (f x))
      → (xs : List A) → All IsDeclaration (map f xs)
  map-All f h [] = tt
  map-All f h (x ∷ xs) = (h x, map-All f h xs)

  insert_files-All :
      (disk : Disk) (dir : Text) (files : List Text) {calls : List (Call Block)}
      → insert_files disk dir files ≡ ok calls
      → All IsDeclaration calls
  unfolding insert_files
  insert_files-All disk dir [] e = rw (sym (ok-injective e)) tt
  insert_files-All disk dir (f ∷ files) e =
      let (patch, _, q) = >>=-eq-ok (read_patch disk (dir ++ f)) _ e in
      let (later, rest, done) = >>=-eq-ok (insert_files disk dir files) _ q in
      rw (sym (ok-injective done)) (tt, insert_files-All disk dir files rest)

  patch_calls-All :
      (disk : Disk) (dir : Text) {calls : List (Call Block)}
      → patch_calls disk dir ≡ ok calls
      → All IsDeclaration calls
  unfolding patch_calls
  patch_calls-All disk dir e =
      let (listed, _, q) = >>=-eq-ok (list_dir disk dir) _ e in
      let (selected, _, r) = >>=-eq-ok (select listed) _ q in
      insert_files-All disk dir (sorted patch_number selected) r

  hook_symbol-All : (hook : Option Text) → All IsDeclaration (hook_symbol {Block = Block} hook)
  unfolding hook_symbol
  hook_symbol-All none = tt
  hook_symbol-All (some []) = tt
  hook_symbol-All (some (c ∷ s)) = (tt, tt)

  extern_calls-All : (hook : Option Text) → All IsDeclaration (extern_calls {Block = Block} hook)
  unfolding extern_calls
  extern_calls-All hook =
      All-append IsDeclaration (map (λ name. extern_symbol name (codes "libc.so.6")) extern_names)
        (hook_symbol hook)
        (map-All (λ name. extern_symbol name (codes "libc.so.6")) (λ name. tt) extern_names)
        (hook_symbol-All hook)

-- Inversion of a chain of the shape of `begin_module`.
chain-eq-ok :
    {A B C D E F R : Type 0} (a : Outcome A) (b : Outcome B) (c : A → B → Outcome C)
    (d : C → Outcome D) (e : A → D → Outcome E) (f : A → E → Outcome F) (g : E → F → Outcome R)
    {r : R}
    → (a >>= λ x. b >>= λ y. c x y >>= λ z. d z >>= λ w. e x w >>= λ v. f x v >>= λ u. g v u) ≡ ok r
    → (x : A) × (y : B) × (z : C) × (w : D) × (v : E) × (u : F) × (a ≡ ok x)
      × (b ≡ ok y)
      × (c x y ≡ ok z)
      × (d z ≡ ok w)
      × (e x w ≡ ok v)
      × (f x v ≡ ok u)
      × (g v u ≡ ok r)
chain-eq-ok a b c d e f g h =
    let (x, p0, h0) = >>=-eq-ok a _ h in
    let (y, p1, h1) = >>=-eq-ok b _ h0 in
    let (z, p2, h2) = >>=-eq-ok (c x y) _ h1 in
    let (w, p3, h3) = >>=-eq-ok (d z) _ h2 in
    let (v, p4, h4) = >>=-eq-ok (e x w) _ h3 in
    let (u, p5, h5) = >>=-eq-ok (f x v) _ h4 in (x, y, z, w, v, u, p0, p1, p2, p3, p4, p5, h5)

module _ (G : Gtirb) (p : AflPass) (i : Input G) where
  open G use {Block}

  -- First come declarations, then the call of `__afl_setup` at the entry point.
  pub prepare-eq-ok :
      {calls : List (Call Block)}
      → prepare G p i ≡ ok calls
      → (ds : List (Call Block)) × All IsDeclaration ds
        × (calls ≡ ds ++ insert_at_entry i.entry_point setup_patch ∷ [])
  unfolding prepare
  prepare-eq-ok e =
      let (patches, q, r) = >>=-eq-ok (patch_calls i.disk p.patch_dir) _ e in
      (
        extern_calls p.sharedmem_hook_name
            ++ (insert_function (codes "__afl_trace") afl_trace ∷ patches),
        All-append IsDeclaration (extern_calls p.sharedmem_hook_name)
            (insert_function (codes "__afl_trace") afl_trace ∷ patches)
            (extern_calls-All Block p.sharedmem_hook_name)
            (tt, patch_calls-All Block i.disk p.patch_dir q),
        sym (ok-injective r) ∙ sym (append_assoc (extern_calls p.sharedmem_hook_name) _ _),
      )

  pub insert_at_address-eq-ok :
      (m : Mappings) (place : Option ℤ) (patch : Patch) (calls : List (Call Block))
      {t : List (Call Block)}
      → insert_at_address G m i place patch calls ≡ ok t
      → ((given_int place ≡ false) × (t ≡ calls))
        ⊎ ((given_int place ≡ true)
            × ((b : Option Block) × (z : ℤ) × (t ≡ calls ++ insert_at b z patch ∷ [])))
  unfolding insert_at_address
  insert_at_address-eq-ok m none patch calls e = inl (refl, cc)
  insert_at_address-eq-ok m (some z) patch calls e = elim (Bool-cases (is_nonzero z)) [
    | inl true_z ↦
        inr (true_z, insert_patch_at_address-eq-ok G patch i.code_blocks calls z m (rw true_z at e))
    | inr false_z ↦ inl (false_z, sym (ok-injective (rw false_z at e)))
  ]

  -- The values that a run passes through.
  pub record Run (calls : List (Call Block)) (r : Report) : Type 0 where
    pub mappings : Mappings
    pub prepared : List (Call Block)
    pub started : Progress Block
    pub visited : Progress Block
    pub looped : Progress Block
    pub loads : load_mappings i.mappings_file ≡ ok mappings
    pub prepares : prepare G p i ≡ ok prepared
    pub starts : start_at_address G p mappings i prepared ≡ ok started
    pub visits : visit_all G p i i.functions started ≡ ok visited
    pub loops : loop_at_address G p mappings i visited ≡ ok looped
    pub hooks :
        insert_at_address G mappings i p.sharedmem_loc_address
          (sharedmem_hook p.sharedmem_hook_name)
          looped.calls
        ≡ ok calls
    pub has_entrypoint : looped.added_entrypoint ≡ true
    pub reports : r ≡ report p looped.instrumented_locations looped.added_persistent_mode

  finish-eq-ok :
      (s : Progress Block) (calls t : List (Call Block)) (r : Report)
      → finish G p s calls ≡ ok (t, r)
      → (s.added_entrypoint ≡ true)
        × (calls ≡ t)
        × (r ≡ report p s.instrumented_locations s.added_persistent_mode)
  unfolding finish
  finish-eq-ok s calls t r e = elim (Bool-cases s.added_entrypoint) [
    | inl h ↦
        let same : (calls, report p s.instrumented_locations s.added_persistent_mode) ≡ (t, r) =
          ok-injective (rw h at e) in
        (h, ap (λ x. x.0) same, sym (ap (λ x. x.1) same))
    | inr h ↦ absurd (ground arith)
  ]

  pub begin_module-eq-ok :
      (calls : List (Call Block)) (r : Report) → begin_module G p i ≡ ok (calls, r) → Run calls r
  unfolding begin_module
  begin_module-eq-ok calls r e =
      let (m, prepared, started, visited, looped, hooked, q0, q1, q2, q3, q4, q5, rest) =
        chain-eq-ok (load_mappings i.mappings_file) (prepare G p i)
          (λ m prepared. start_at_address G p m i prepared) (visit_all G p i i.functions)
          (λ m visited. loop_at_address G p m i visited)
          (λ m looped.
            insert_at_address G m i p.sharedmem_loc_address (sharedmem_hook p.sharedmem_hook_name)
              looped.calls)
          (finish G p) {r = (calls, r)} e in
      let (entry, same, reported) = finish-eq-ok looped hooked calls r rest in
      record {
        mappings = m;
        prepared = prepared;
        started = started;
        visited = visited;
        looped = looped;
        loads = q0;
        prepares = q1;
        starts = q2;
        visits = q3;
        loops = q4;
        hooks = q5 ∙ ap ok same;
        has_entrypoint = entry;
        reports = reported;
      }
