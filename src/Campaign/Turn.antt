-- ===== src/Campaign/Turn.antt =====
-- One test case: the child is forked or continued, runs the function, and stops or ends.
use pe_ar_honours.Prelude.{
  ap, ℕ, zero, suc, ◌+◌, ◌-◌, ◌^◌, ◌<◌, ◌≤◌, ◌==◌, ◌≡◌, ◌≢◌, refl, arith, Bool, true, false, not,
  some, List, All, Bool-cases, inl, inr,
}
use pe_ar_honours.Trampoline.{Flags, Op}
use pe_ar_honours.Runtime.{Process, persistent_loop}
use pe_ar_honours.Runtime.Loop.{coverage, run_blocks, continued}
use pe_ar_honours.Runtime.Clean.{IsOn, IsClean, blocks-HasRun, ended-covered, loop-more, loop-last}
use pe_ar_honours.ForkServer.{Config}
use pe_ar_honours.ForkServer.Session.{is_held}
use pe_ar_honours.ForkServer.Turns.{fresh, held, after, told, turn-play, turn-held}
use pe_ar_honours.ForkServer.Served.{not_zero, same, plus_one, children, requests}
use pe_ar_honours.Campaign.{
  Session, Ran, forked, entered, ran, made, ready, after_run, after_ready, fuzz_turn,
}

-- A map that shows these blocks alone.
abbrev pub IsSeen : ℕ → List ℕ → (ℕ → ℕ) → Type 0
IsSeen area ids map = (k : ℕ) → k < 2 ^ 16 → map (area + k) ≡ coverage ids k

-- The session before the test case j of the child q.
abbrev pub IsReady : ℕ → (ℕ → ℕ) → ℕ → ℕ → ℕ → ℕ → Session → Type 0
IsReady n pids area dummy q zero t =
    (old : ℕ) × (w : ℕ) × (st : ℕ) × (process : Process) × (t
      ≡ record { system = fresh old w st; child = process; forks = q })
IsReady n pids area dummy q (suc j) t =
    (process : Process) × (t ≡ record { system = held (pids q); child = process; forks = q + 1 })
    × IsOn area dummy (n - suc j) process

module _ (arithmetic_flags : Op → ℕ → Flags) (return_address : ℕ) (reset : (ℕ → ℕ) → ℕ → ℕ)
    (memory : ℕ → ℕ → ℕ) (before later : ℕ → List ℕ) (n area dummy : ℕ)
    (room : area + 2 ^ 16 ≤ 2 ^ 64) (dummy_room : dummy + 2 ^ 16 ≤ 2 ^ 64)
    (apart : (j k : ℕ) → j < 2 ^ 16 → k < 2 ^ 16 → area + k ≢ dummy + j) where
  -- The run of the function, and the call of the loop behind it.
  ran-last :
      (ids behind : List ℕ) (p : Process)
      → All (λ id. id < 2 ^ 16) ids
      → All (λ id. id < 2 ^ 16) behind
      → IsClean area dummy 1 p
      → (r : Ran) × (ran arithmetic_flags return_address reset memory before later behind
            (persistent_loop n (run_blocks arithmetic_flags return_address ids p))
          ≡ some r)
        × (r.goes_on ≡ false)
        × IsSeen area ids r.seen
  unfolding ran run_blocks
  ran-last ids behind p small last clean =
      let run = blocks-HasRun arithmetic_flags return_address area dummy room ids 1 p small clean in
      (
        _,
        ap (ran arithmetic_flags return_address reset memory before later behind)
            (loop-last n _ run.on.passed run.on.left),
        refl,
        λ k inside.
            ended-covered arithmetic_flags return_address area dummy room behind ids _ k dummy_room
              apart last run inside,
      )

  ran-more :
      (ids behind : List ℕ) (p : Process) (m : ℕ)
      → All (λ id. id < 2 ^ 16) ids
      → 0 < m
      → m + 1 < 2 ^ 32
      → IsClean area dummy (m + 1) p
      → (r : Ran) × (ran arithmetic_flags return_address reset memory before later behind
            (persistent_loop n (run_blocks arithmetic_flags return_address ids p))
          ≡ some r)
        × (r.goes_on ≡ true)
        × IsSeen area ids r.seen
        × IsOn area dummy m r.process
  unfolding ran run_blocks
  ran-more ids behind p m small more bound clean =
      let run =
        blocks-HasRun arithmetic_flags return_address area dummy room ids (m + 1) p small clean in
      (
        _,
        ap (ran arithmetic_flags return_address reset memory before later behind)
            (loop-more n m _ run.on.passed run.on.left more bound),
        refl,
        run.covered,
        record {
          at_area = run.on.at_area;
          at_dummy = run.on.at_dummy;
          passed = run.on.passed;
          left = refl;
        },
      )

  module _ (c : Config) (pids : ℕ → ℕ) (parent : Process) (persistent : c.is_persistent ≡ true)
      (positive : (i : ℕ) → 0 < pids i) where
    pub turn_first :
        (old w st q : ℕ) (child : Process) (ids : List ℕ) (p : Process) (r : Ran) (goes_on : Bool)
        → entered arithmetic_flags return_address reset memory before later (
            persistent_loop n (
              run_blocks arithmetic_flags return_address (before q) (
                forked arithmetic_flags return_address reset memory before later c n pids parent
                  q)))
          ≡ some p
        → ran arithmetic_flags return_address reset memory before later
            (later q)
            (persistent_loop n (run_blocks arithmetic_flags return_address ids p))
          ≡ some r
        → r.goes_on ≡ goes_on
        → fuzz_turn arithmetic_flags return_address reset memory before later c n pids parent
            (record { system = fresh old w st; child = child; forks = q })
            ids
          ≡ some (
            record { system = after (pids q) goes_on; child = r.process; forks = q + 1 },
            told (pids q) goes_on,
            r.seen,
          )
    unfolding forked fuzz_turn ready after_ready after_run made is_held
    turn_first old w st q child ids p r goes_on entering running going =
        rw
          (
            entering,
            running,
            after_run,
            going,
            turn-play c (pids q) (not_zero (pids q) (positive q)) (same (pids q)) persistent,
          )
          refl

    pub turn_later :
        (q : ℕ) (child : Process) (ids : List ℕ) (r : Ran) (goes_on : Bool)
        → ran arithmetic_flags return_address reset memory before later (later (q + 1)) (
            persistent_loop n
              (run_blocks arithmetic_flags return_address ids (continued reset child)))
          ≡ some r
        → r.goes_on ≡ goes_on
        → fuzz_turn arithmetic_flags return_address reset memory before later c n pids parent
            (record { system = held (pids q); child = child; forks = q + 1 })
            ids
          ≡ some (
            record { system = after (pids q) goes_on; child = r.process; forks = q + 1 },
            told (pids q) goes_on,
            r.seen,
          )
    unfolding forked fuzz_turn ready after_ready after_run made is_held
    turn_later q child ids r goes_on running going =
        rw
          (
            running,
            after_run,
            going,
            turn-held c (pids q) (not_zero (pids q) (positive q)) (same (pids q)) persistent,
          )
          refl

    -- The run j of the child q, from a clean map on.
    pub served :
        (q j : ℕ) (p : Process) (ids behind : List ℕ)
        → j < n
        → n < 2 ^ 32
        → All (λ id. id < 2 ^ 16) ids
        → All (λ id. id < 2 ^ 16) behind
        → IsClean area dummy (n - j) p
        → (r : Ran) × (ran arithmetic_flags return_address reset memory before later behind
              (persistent_loop n (run_blocks arithmetic_flags return_address ids p))
            ≡ some r)
          × (r.goes_on ≡ not (j + 1 == n))
          × IsSeen area ids r.seen
          × IsReady n pids area dummy (children n q j) (requests n j) (record {
            system = after (pids q) (not (j + 1 == n));
            child = r.process;
            forks = q + 1;
          })
    served q j p ids behind h bound small last clean = elim (Bool-cases (j + 1 == n)) [
      | inl ends ↦
          let one : n - j ≡ 1 = ground arith in
          let (r, running, going, seen) = ran-last ids behind p small last (rw one at clean) in
          rw ends (r, running, going, seen, (pids q, 0, 0, r.process, refl))
      | inr more ↦
          let step : n - j ≡ n - (j + 1) + 1 = omega arith in
          let left : 0 < n - (j + 1) = ground arith in
          let (r, running, going, seen, on) =
            ran-more ids behind p (n - (j + 1)) small left (omega arith) (rw step at clean) in
          rw (more, plus_one j) (r, running, going, seen, (r.process, refl, rw⁻¹ (plus_one j) on))
    ]
