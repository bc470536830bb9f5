-- ===== src/AddAfl/Pass/Traced.antt =====
-- What each step of `begin_module` adds to the trampolines.
use pe_ar_honours.Prelude.{
  ◌+◌, ◌≡◌, refl, sym, ◌∙◌, true, false, List, [], ◌∷◌, ◌++◌, arith, keep, length, length-append,
  ok, >>=-eq-ok, Outcome-cases, Bool-cases, inl, inr,
}
use mathlib.Core.List.{append_assoc, append-nil}
use pe_ar_honours.Gtirb.{Gtirb}
use pe_ar_honours.Rewriting.{Patch, sharedmem_hook, Call, insert_at_entry}
use pe_ar_honours.Sorting.{sorted}
use pe_ar_honours.Blocks.Leaders.{starts_group}
use pe_ar_honours.AddAfl.{AflPass, forkserver_patch, handler_patch, Progress}
use pe_ar_honours.AddAfl.Pass.{
  Input, first_entry, last_entry, hook_calls, start_in_function, loop_in_function, is_start, visit,
  visit_all,
}
use pe_ar_honours.AddAfl.Pass.Tracing.{
  trampolines, with_bits, trampolines-append, with_bits-append, traced_in, traced, trampoline_calls,
  trampolines-trampoline_calls, after_tracing, trace_groups-get_basic_blocks,
}

module _ (G : Gtirb) where
  open G use {Block, Function, address, get_all_blocks}

  module _ (p : AflPass) (i : Input G) where
    -- The trampolines and their number are those of the other state.
    abbrev Untraced : Progress Block → Progress Block → Type 0
    Untraced s t =
        (trampolines t.calls ≡ trampolines s.calls)
        × (t.instrumented_locations ≡ s.instrumented_locations)

    trampolines-hook_calls :
        (place : Patch → Call Block)
        → trampolines (place (sharedmem_hook p.sharedmem_hook_name) ∷ []) ≡ []
        → trampolines (hook_calls G p place) ≡ []
    unfolding hook_calls
    trampolines-hook_calls place h = ground arith

    start_in_function-Untraced :
        (f : Function) (s t : Progress Block) → start_in_function G p f s ≡ ok t → Untraced s t
    unfolding start_in_function
    start_in_function-Untraced f s t e = elim (Outcome-cases (first_entry (G.get_entry_blocks f))) [
      | inr (failure, q) ↦ ground arith
      | inl (b, q) ↦ ground (
        arith,
        trampolines-append s.calls
            (insert_at_entry b forkserver_patch ∷ hook_calls G p (insert_at_entry b)),
        trampolines-hook_calls (insert_at_entry b) refl,
        append-nil (trampolines s.calls),
      )
    ]

    loop_in_function-Untraced :
        (f : Function) (s t : Progress Block) → loop_in_function G p f s ≡ ok t → Untraced s t
    unfolding loop_in_function handler_patch
    loop_in_function-Untraced f s t e = elim (Outcome-cases (last_entry (G.get_entry_blocks f))) [
      | inr (failure, q) ↦ ground arith
      | inl (b, q) ↦ ground (
        arith,
        trampolines-append s.calls (insert_at_entry b (handler_patch p) ∷ []),
        append-nil (trampolines s.calls),
      )
    ]

    -- What the loop over functions adds.
    abbrev pub Traced : List Block → Progress Block → Progress Block → Type 0
    Traced bs s t =
        (trampolines t.calls
          ≡ trampolines s.calls ++ with_bits i.random_bits s.instrumented_locations bs)
        × (t.instrumented_locations ≡ s.instrumented_locations + length bs)

    after_tracing-Traced :
        (bs : List Block) (s t : Progress Block)
        → Untraced s t
        → Traced bs s (after_tracing G i.random_bits bs t)
    after_tracing-Traced bs s t (e, n) = (
      trampolines-append t.calls (trampoline_calls G i.random_bits t.instrumented_locations bs)
          ∙ rw (trampolines-trampoline_calls G i.random_bits t.instrumented_locations bs, e, n),
      omega (arith, n),
    )

    Untraced-trans : (s t u : Progress Block) → Untraced s t → Untraced t u → Untraced s u
    Untraced-trans s t u a b = (b.0 ∙ a.0, b.1 ∙ a.1)

    pub visit-start :
        (f : Function) (s : Progress Block)
        → is_start G i.entry_point f ≡ true
        → visit G p i f s ≡ ok s
    unfolding visit
    visit-start f s start = rw start

    -- What the calls that it makes return, of which the last one always returns.
    pub visit-other :
        (f : Function) (s t : Progress Block)
        → is_start G i.entry_point f ≡ false
        → visit G p i f s ≡ ok t
        → (u v : Progress Block) × (start_in_function G p f s ≡ ok u)
          × (loop_in_function G p f u ≡ ok v)
          × (t
              ≡ after_tracing G i.random_bits
                  (keep (starts_group G f) (sorted address (get_all_blocks f)))
                  v)
    unfolding visit
    visit-other f s t other e = elim (Outcome-cases (start_in_function G p f s)) [
      | inr (failure, q) ↦ absurd (unfold visit in ground arith)
      | inl (u, q) ↦ elim (Outcome-cases (loop_in_function G p f u)) [
        | inr (failure, r) ↦ absurd (unfold visit in ground arith)
        | inl (v, r) ↦
            (u, v, q, r, ground (arith, trace_groups-get_basic_blocks G i.random_bits f v))
      ]
    ]

    visit-Traced :
        (f : Function) (s t : Progress Block)
        → visit G p i f s ≡ ok t
        → Traced (traced_in G i.entry_point f) s t
    visit-Traced f s t e = elim (Bool-cases (is_start G i.entry_point f)) [
      | inl start ↦ rw start (
          let same : ok s ≡ ok t = sym (visit-start f s start) ∙ e in
          ground (arith, append-nil (trampolines s.calls)))
      | inr other ↦
          let (u, v, q, r, done) = visit-other f s t other e in
          rw (other, done)
            (after_tracing-Traced _ s v (
              Untraced-trans s u v (start_in_function-Untraced f s u q)
                (loop_in_function-Untraced f u v r)))
    ]

    Traced-append :
        (bs cs : List Block) (s u t : Progress Block)
        → Traced bs s u
        → Traced cs u t
        → Traced (bs ++ cs) s t
    Traced-append bs cs s u t (e, n) (e', n') =
        (e' ∙ rw (e, n, with_bits-append, append_assoc), omega (arith, n, n', length-append bs cs))

    pub visit_all-Traced :
        (functions : List Function) (s t : Progress Block)
        → visit_all G p i functions s ≡ ok t
        → Traced (traced G i.entry_point functions) s t
    unfolding visit_all
    visit_all-Traced [] s t e =
        let same : ok s ≡ ok t = e in ground (arith, append-nil (trampolines s.calls))
    visit_all-Traced (f ∷ functions) s t e =
        let (u, q, rest) = >>=-eq-ok (visit G p i f s) (visit_all G p i functions) e in
        Traced-append (traced_in G i.entry_point f) (traced G i.entry_point functions) s u t
          (visit-Traced f s u q) (visit_all-Traced functions u t rest)
