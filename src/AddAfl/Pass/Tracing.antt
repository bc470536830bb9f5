-- ===== src/AddAfl/Pass/Tracing.antt =====
-- Which blocks `begin_module` instruments for tracing.
use pe_ar_honours.Prelude.{
  ℕ, suc, ◌+◌, ◌≡◌, refl, sym, ◌∙◌, ap, some, List, [], ◌∷◌, ◌++◌, map, arith, if◌then◌else◌, keep,
  length, ok,
}
use mathlib.Core.List.{append_assoc, append-nil}
use pe_ar_honours.Gtirb.{Gtirb}
use pe_ar_honours.Rewriting.{afl_trampoline, Call, insert_at_entry}
use pe_ar_honours.Sorting.{sorted}
use pe_ar_honours.Blocks.{get_basic_blocks}
use pe_ar_honours.Blocks.Leaders.{first, starts_group, first-get_basic_blocks}
use pe_ar_honours.AddAfl.{Progress}
use pe_ar_honours.AddAfl.Pass.{trace_groups, is_start}

-- The blocks that get an `AFLTrampolinePatch`, each with its identity.
abbrev pub trampolines : {Block : Type 0} → List (Call Block) → List (Block × ℕ)
trampolines [] = []
trampolines (insert_at_entry b (afl_trampoline block_id) ∷ calls) =
    (b, block_id) ∷ trampolines calls
trampolines (_ ∷ calls) = trampolines calls

-- The blocks with the random numbers from the `k`-th on.
abbrev pub with_bits : {Block : Type 0} → (ℕ → ℕ) → ℕ → List Block → List (Block × ℕ)
with_bits bits k [] = []
with_bits bits k (b ∷ bs) = (b, bits k) ∷ with_bits bits (k + 1) bs

module _ {Block : Type 0} where
  pub trampolines-append :
      (cs ds : List (Call Block)) → trampolines (cs ++ ds) ≡ trampolines cs ++ trampolines ds
  trampolines-append [] ds = refl
  trampolines-append (insert_at_entry b (afl_trampoline n) ∷ cs) ds =
      ap (◌∷◌ (b, n)) (trampolines-append cs ds)
  trampolines-append (_ ∷ cs) ds = trampolines-append cs ds

  pub with_bits-append :
      (bits : ℕ → ℕ) (k : ℕ) (bs cs : List Block)
      → with_bits bits k (bs ++ cs) ≡ with_bits bits k bs ++ with_bits bits (k + length bs) cs
  with_bits-append bits k [] cs = ap (λ j. with_bits bits j cs) (omega arith)
  with_bits-append bits k (b ∷ bs) cs = ap (◌∷◌ (b, bits k)) (
      with_bits-append bits (k + 1) bs cs
      ∙ ap (λ j. with_bits bits (k + 1) bs ++ with_bits bits j cs) (omega arith))

module _ (G : Gtirb) where
  open G use {Block, Function, address, get_all_blocks}

  -- The blocks of the functions that start a group, less the function of the entry point.
  abbrev pub traced_in : Block → Function → List Block
  traced_in entry_point f =
      if is_start G entry_point f
      then []
      else keep (starts_group G f) (sorted address (get_all_blocks f))

  abbrev pub traced : Block → List Function → List Block
  traced entry_point [] = []
  traced entry_point (f ∷ functions) = traced_in entry_point f ++ traced entry_point functions

  -- The calls for the blocks, with the random numbers from the `k`-th on.
  abbrev pub trampoline_calls : (ℕ → ℕ) → ℕ → List Block → List (Call Block)
  trampoline_calls bits k [] = []
  trampoline_calls bits k (b ∷ bs) =
      insert_at_entry b (afl_trampoline (bits k)) ∷ trampoline_calls bits (k + 1) bs

  pub trampolines-trampoline_calls :
      (bits : ℕ → ℕ) (k : ℕ) (bs : List Block)
      → trampolines (trampoline_calls bits k bs) ≡ with_bits bits k bs
  trampolines-trampoline_calls bits k [] = refl
  trampolines-trampoline_calls bits k (b ∷ bs) =
      ap (◌∷◌ (b, bits k)) (trampolines-trampoline_calls bits (k + 1) bs)

  abbrev pub after_tracing : (ℕ → ℕ) → List Block → Progress Block → Progress Block
  after_tracing bits bs s = record s {
    calls = s.calls ++ trampoline_calls bits s.instrumented_locations bs;
    instrumented_locations = s.instrumented_locations + length bs;
  }

  -- `add_afl_block_tracing` treats the first block of each group, and cannot fail.
  trace_groups-first :
      (bits : ℕ → ℕ) (groups : List (List Block)) (bs : List Block) (s : Progress Block)
      → map first groups ≡ map some bs
      → trace_groups G bits groups s ≡ ok (after_tracing bits bs s)
  unfolding trace_groups
  trace_groups-first bits [] [] s e =
      ap ok
        (λ i. record s { calls = sym (append-nil s.calls) i; instrumented_locations = counted i })
    where
      counted : s.instrumented_locations ≡ s.instrumented_locations + 0
      counted = omega arith
  trace_groups-first bits [] (b ∷ bs) s e = cc
  trace_groups-first bits ([] ∷ groups) [] s e = cc
  trace_groups-first bits ([] ∷ groups) (b ∷ bs) s e = cc
  trace_groups-first bits ((b ∷ g) ∷ groups) [] s e = cc
  trace_groups-first bits ((b ∷ g) ∷ groups) (c ∷ bs) s e =
      let same : b ≡ c = cc in
      rw same (
        trace_groups-first bits groups bs _ (cc)
        ∙ ap ok (λ i. record s {
          calls =
              append_assoc s.calls
                (insert_at_entry c (afl_trampoline (bits s.instrumented_locations)) ∷ [])
                (trampoline_calls bits (s.instrumented_locations + 1) bs) i;
          instrumented_locations = counted i;
        }))
    where
      counted :
          s.instrumented_locations + 1 + length bs ≡ s.instrumented_locations + suc (length bs)
      counted = omega arith

  pub trace_groups-get_basic_blocks :
      (bits : ℕ → ℕ) (f : Function) (s : Progress Block)
      → trace_groups G bits (get_basic_blocks G f) s
        ≡ ok (after_tracing bits (keep (starts_group G f) (sorted address (get_all_blocks f))) s)
  trace_groups-get_basic_blocks bits f s =
      trace_groups-first bits (get_basic_blocks G f) _ s (first-get_basic_blocks G f)
