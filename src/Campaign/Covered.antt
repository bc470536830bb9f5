-- ===== src/Campaign/Covered.antt =====
-- All test cases.
use pe_ar_honours.Prelude.{
  ap, ℕ, zero, suc, ◌+◌, ◌*◌, ◌-◌, ◌^◌, ◌<◌, ◌≤◌, ◌==◌, ◌≡◌, ◌≢◌, refl, ◌∙◌, arith, Bool, true,
  false, not, some, List, [], ◌∷◌, ◌++◌, length, All,
}
use pe_ar_honours.Trampoline.{Flags, Op}
use pe_ar_honours.Runtime.{Process, persistent_loop, Libc, Headers, back, afl_setup}
use pe_ar_honours.Runtime.Loop.{run_blocks, IsCovered}
use pe_ar_honours.Runtime.Isolation.{IsLoaded, HasMaps, afl_setup-IsSetUp}
use pe_ar_honours.Runtime.Clean.{
  IsClean, area-run_trampolines, first_called, first_called-IsClean, continued-IsClean, loop-first,
}
use pe_ar_honours.ForkServer.{Config}
use pe_ar_honours.ForkServer.Session.{exchanges, opened}
use pe_ar_honours.ForkServer.Turns.{fresh, told, opening-play}
use pe_ar_honours.ForkServer.Served.{div_at, wraps, children, requests, next-index}
use pe_ar_honours.Campaign.{
  Session, forked, entered, fuzz_turn, extended, fuzz_turns, opened_with, fuzz,
}
use pe_ar_honours.Campaign.Turn.{IsSeen, IsReady, turn_first, turn_later, served}

module _ (arithmetic_flags : Op → ℕ → Flags) (return_address : ℕ) (reset : (ℕ → ℕ) → ℕ → ℕ)
    (memory : ℕ → ℕ → ℕ) (before later : ℕ → List ℕ) (n area dummy : ℕ)
    (room : area + 2 ^ 16 ≤ 2 ^ 64) (dummy_room : dummy + 2 ^ 16 ≤ 2 ^ 64)
    (apart : (j k : ℕ) → j < 2 ^ 16 → k < 2 ^ 16 → area + k ≢ dummy + j) (c : Config) (pids : ℕ → ℕ)
    (parent : Process) (persistent : c.is_persistent ≡ true) (positive : (i : ℕ) → 0 < pids i)
    (resets : (bytes : ℕ → ℕ) (k : ℕ) → k < 2 ^ 16 → reset bytes (area + k) ≡ 0)
    (bound : n < 2 ^ 32) (last : (i : ℕ) → All (λ id. id < 2 ^ 16) (later i))
    (first : (parent.first_pass == 0) ≡ false) (at_area : parent.cpu.area_ptr ≡ area)
    (at_dummy : parent.area_ptr_dummy ≡ dummy) (sized : parent.map_size ≡ 2 ^ 16) where
  entered-IsClean :
      (q : ℕ)
      → (p : Process) × (entered arithmetic_flags return_address reset memory before later (
            persistent_loop n (
              run_blocks arithmetic_flags return_address (before q) (
                forked arithmetic_flags return_address reset memory before later c n pids parent
                  q)))
          ≡ some p)
        × IsClean area dummy (n - 0) p
  unfolding entered forked run_blocks
  entered-IsClean q =
      let b =
        run_blocks arithmetic_flags return_address (before q)
          (forked arithmetic_flags return_address reset memory before later c n pids parent q) in
      let whole : n - 0 ≡ n = omega arith in
      (
        first_called n b,
        ap (entered arithmetic_flags return_address reset memory before later)
            (loop-first n b first),
        rw whole (
            first_called-IsClean area dummy n b
              (area-run_trampolines arithmetic_flags return_address (before q)
                  (record parent.cpu { bytes = memory q })
                ∙ at_area)
              at_dummy sized),
      )

  fuzz_turn-IsReady :
      (q j : ℕ) (t : Session) (ids : List ℕ)
      → j < n
      → All (λ id. id < 2 ^ 16) ids
      → IsReady n pids area dummy q j t
      → (u : Session) × (map : ℕ → ℕ) × (fuzz_turn arithmetic_flags return_address reset memory
            before later c n pids parent t ids
          ≡ some (u, told (pids q) (not (j + 1 == n)), map))
        × IsReady n pids area dummy (children n q j) (requests n j) u
        × IsSeen area ids map
  fuzz_turn-IsReady q zero t ids h small (old, w, st, child, here) =
      let (p, entering, clean) = entered-IsClean q in
      let (r, running, going, seen, ready) =
        served arithmetic_flags return_address reset memory before later n area dummy room
          dummy_room apart c pids parent persistent positive q 0 p ids (later q) h bound small
          (last q) clean in
      rw here (
        _,
        r.seen,
        turn_first arithmetic_flags return_address reset memory before later n area dummy room
            dummy_room apart c pids parent persistent positive old w st q child ids p r
            (not (0 + 1 == n)) entering running going,
        ready,
        seen,
      )
  fuzz_turn-IsReady q (suc j) t ids h small (child, here, on) =
      let (r, running, going, seen, ready) =
        served arithmetic_flags return_address reset memory before later n area dummy room
          dummy_room apart c pids parent persistent positive q (suc j) _ ids (later (q + 1)) h bound
          small (last (q + 1)) (continued-IsClean reset area dummy (n - suc j) child resets on) in
      rw here (
        _,
        r.seen,
        turn_later arithmetic_flags return_address reset memory before later n area dummy room
            dummy_room apart c pids parent persistent positive q child ids r (not (suc j + 1 == n))
            running going,
        ready,
        seen,
      )

  fuzz_turns-IsCovered :
      (inputs : List (List ℕ)) (q j : ℕ) (t : Session)
      → j < n
      → All (λ ids. All (λ id. id < 2 ^ 16) ids) inputs
      → IsReady n pids area dummy q j t
      → (u : Session) × (maps : List (ℕ → ℕ)) × (fuzz_turns arithmetic_flags return_address reset
            memory before later c n pids parent inputs t
          ≡ some
              (u, record { traffic = exchanges n pids (q * n + j) (length inputs); maps = maps }))
        × IsCovered area (2 ^ 16) inputs maps
  unfolding fuzz_turns exchanges extended
  fuzz_turns-IsCovered [] q j t h small ready = (t, [], refl, tt)
  fuzz_turns-IsCovered (ids ∷ inputs) q j t h small ready =
      let (u, map, turn, then_ready, seen) = fuzz_turn-IsReady q j t ids h small.0 ready in
      let (index, room) = next-index n q j h in
      let (v, maps, rest, covered) =
        fuzz_turns-IsCovered inputs (children n q j) (requests n j) u room small.1 then_ready in
      (
        v,
        map ∷ maps,
        rw (fuzz_turns, turn, rest, exchanges, index, div_at n q j h, wraps n q j h) refl,
        (seen, covered),
      )

-- `__afl_setup`, then `__afl_start_forkserver`, in persistent mode with a count n from 1 to 2 ^ 32 - 1, with one
-- test case after the other and each child forked from the process that was set up; blocks have 16-bit ids,
-- and where a child stops afl-fuzz sets the map to 0. If malloc and shmat give maps that are apart, all calls
-- of the server succeed and no child is killed, afl-fuzz is told of test case i the pid of child i / n and that it has
-- stopped, or that it has ended if i + 1 is a multiple of n, and the map that it then reads is that of
-- test case i alone: what a child found in memory, and what the blocks did that ran before the loop, in other
-- test cases or behind the loop, is not in it.
pub fuzz-IsCovered :
    (arithmetic_flags : Op → ℕ → Flags) (return_address : ℕ) (reset : (ℕ → ℕ) → ℕ → ℕ)
    (memory : ℕ → ℕ → ℕ) (before later : ℕ → List ℕ) (l : Libc) (h : Headers) (area dummy : ℕ)
    (f v : Bool) (p : Process) (c : Config) (n : ℕ) (pids : ℕ → ℕ) (w : ℕ) (inputs : List (List ℕ))
    → HasMaps l h area dummy
    → IsLoaded f v p
    → ((bytes : ℕ → ℕ) (k : ℕ) → k < 2 ^ 16 → reset bytes (area + k) ≡ 0)
    → c.is_persistent ≡ true
    → 0 < n
    → n < 2 ^ 32
    → ((i : ℕ) → 0 < pids i)
    → ((i : ℕ) → All (λ id. id < 2 ^ 16) (later i))
    → All (λ ids. All (λ id. id < 2 ^ 16) ids) inputs
    → (q : Process) × (afl_setup l h p ≡ back q)
      × (u : Session) × (maps : List (ℕ → ℕ)) × (fuzz arithmetic_flags return_address reset memory
            before later c n pids q w inputs
          ≡ some (
            u,
            record { traffic = opened c w ++ exchanges n pids 0 (length inputs); maps = maps },
          ))
      × IsCovered area (2 ^ 16) inputs maps
unfolding fuzz opened_with
fuzz-IsCovered arithmetic_flags return_address reset memory before later l h area dummy f v p c n
      pids w inputs maps loaded resets persistent some_turn bound positive last small =
    let (q, set, first, at_area, at_dummy, sized) =
      afl_setup-IsSetUp l h area dummy maps f v p loaded in
    let (killed, start) = opening-play c w persistent in
    let (u, seen, log, covered) =
      fuzz_turns-IsCovered arithmetic_flags return_address reset memory before later n area dummy
        maps.room maps.dummy_room maps.apart c pids q persistent positive resets bound last first
        at_area at_dummy sized inputs 0 0
        (record { system = fresh 0 killed 0; child = q; forks = 0 }) some_turn small
        (0, killed, 0, q, refl) in
    let index : 0 * n + 0 ≡ 0 = omega arith in
    (q, set, u, seen, rw (fuzz, start, log, index) refl, covered)
