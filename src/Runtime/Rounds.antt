-- ===== src/Runtime/Rounds.antt =====
-- What afl-fuzz sees of each run in persistent mode.
use pe_ar_honours.Prelude.{
  ℕ, ◌+◌, ◌^◌, ◌<◌, ◌≤◌, ◌==◌, ◌≡◌, ◌≢◌, refl, ◌∙◌, arith, false, List, [], ◌∷◌, length, All,
}
use pe_ar_honours.Trampoline.{Flags, Op}
use pe_ar_honours.Runtime.{Process}
use pe_ar_honours.Runtime.Loop.{run_blocks, continued, ended, run_loop, IsCovered}
use pe_ar_honours.Runtime.Clean.{
  IsOn, HasRun, loop-first, loop-more, loop-last, blocks-HasRun, ended-covered, first_called,
  first_called-IsClean, continued-IsClean,
}

module _ (arithmetic_flags : Op → ℕ → Flags) (return_address : ℕ) (reset : (ℕ → ℕ) → ℕ → ℕ)
    (max_cnt area dummy : ℕ) (room : area + 2 ^ 16 ≤ 2 ^ 64) (dummy_room : dummy + 2 ^ 16 ≤ 2 ^ 64)
    (apart : (j k : ℕ) → j < 2 ^ 16 → k < 2 ^ 16 → area + k ≢ dummy + j)
    (resets : (bytes : ℕ → ℕ) (k : ℕ) → k < 2 ^ 16 → reset bytes (area + k) ≡ 0) where
  loop-IsCovered :
      (runs : List (List ℕ)) (ids behind : List ℕ) (p : Process)
      → length runs + 1 < 2 ^ 32
      → All (λ ids. All (λ id. id < 2 ^ 16) ids) runs
      → All (λ id. id < 2 ^ 16) behind
      → HasRun area dummy ids (length runs + 1) p
      → IsCovered area
          (2 ^ 16)
          (ids ∷ runs)
          (run_loop arithmetic_flags return_address reset max_cnt runs behind p)
  unfolding run_loop ended run_blocks
  loop-IsCovered [] ids behind p bound small last h =
      rw (loop-last max_cnt p h.on.passed h.on.left) (
        λ k inside.
            ended-covered arithmetic_flags return_address area dummy room behind ids p k dummy_room
              apart last h inside,
        tt,
      )
  loop-IsCovered (next ∷ runs) ids behind p bound small last h =
      let on : IsOn area dummy (length runs + 1) (record p { cycle_cnt = length runs + 1 }) =
        record {
          at_area = h.on.at_area;
          at_dummy = h.on.at_dummy;
          passed = h.on.passed;
          left = refl;
        } in
      let counted : p.cycle_cnt ≡ length runs + 1 + 1 = h.on.left ∙ omega arith in
      rw
        (
          IsCovered,
          run_loop,
          loop-more max_cnt (length runs + 1) p h.on.passed counted (omega arith) (omega arith),
        )
        (
          h.covered,
          loop-IsCovered runs next behind _ (omega arith) small.1 last (
              blocks-HasRun arithmetic_flags return_address area dummy room next (length runs + 1)
                (continued reset (record p { cycle_cnt = length runs + 1 })) small.0
                (continued-IsClean reset area dummy (length runs + 1) _ resets on)),
        )

  pub run_loop-IsCovered :
      (ids : List ℕ) (runs : List (List ℕ)) (behind : List ℕ) (p : Process)
      → max_cnt ≡ length runs + 1
      → length runs + 1 < 2 ^ 32
      → All (λ ids. All (λ id. id < 2 ^ 16) ids) (ids ∷ runs)
      → All (λ id. id < 2 ^ 16) behind
      → (p.first_pass == 0) ≡ false
      → p.cpu.area_ptr ≡ area
      → p.area_ptr_dummy ≡ dummy
      → p.map_size ≡ 2 ^ 16
      → IsCovered area
          (2 ^ 16)
          (ids ∷ runs)
          (run_loop arithmetic_flags return_address reset max_cnt (ids ∷ runs) behind p)
  unfolding run_loop
  run_loop-IsCovered ids runs behind p count bound small last first at_area at_dummy sized =
      rw (IsCovered, run_loop, loop-first max_cnt p first)
        (loop-IsCovered runs ids behind _ bound small.1 last (
          rw⁻¹ count (
            blocks-HasRun arithmetic_flags return_address area dummy room ids max_cnt
              (first_called max_cnt p) small.0
              (first_called-IsClean area dummy max_cnt p at_area at_dummy sized))))
