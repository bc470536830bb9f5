-- ===== src/Campaign/Tests.antt =====
-- Three test cases and two children.
use pe_ar_honours.Prelude.{
  ℕ, ◌+◌, ◌^◌, ◌≡◌, refl, arith, true, false, some, List, [], ◌∷◌, ◌++◌, Option, none, map,
}
use pe_ar_honours.Runtime.{Process, back, afl_setup, persistent_loop, cleared, after_stop}
use pe_ar_honours.Runtime.Loop.{IsCovered, continued, run_blocks}
use pe_ar_honours.Runtime.Tests.{left, headers, libc, fresh, zeroed, libc-HasMaps, fresh-IsLoaded}
use pe_ar_honours.ForkServer.{
  Config, start_forkserver, answer, is_stopped, loop_head, after_request, after_reap, after_fork,
  after_options,
}
use pe_ar_honours.ForkServer.System.{
  begin, move, serve_at, serve, respond, stop_child, kill_child, waited, reaped, resumed, forgotten,
  extra, is_alive,
}
use pe_ar_honours.ForkServer.Protocol.{play, said, passes}
use pe_ar_honours.Trampoline.{run, exec, trampoline_asm, trace_asm, xor}
use pe_ar_honours.Trampoline.Edges.{run_trampolines}
use pe_ar_honours.ForkServer.Session.{exchanges, opened, is_held, turn, opening}
use pe_ar_honours.Campaign.{
  Session, Log, fuzz, fuzz_turns, fuzz_turn, opened_with, extended, ready, after_ready, after_run,
  made, entered, ran, forked,
}
use pe_ar_honours.Campaign.Covered.{fuzz-IsCovered}

abbrev config : Config
config = record { is_persistent = true; sharedmem_fuzzing = true; accepts_sharedmem = λ w. true }

abbrev inputs : List (List ℕ)
inputs = (5 ∷ 7 ∷ []) ∷ (5 ∷ []) ∷ (5 ∷ 5 ∷ []) ∷ []

fuzz-IsCovered_example :
    (q : Process) × (afl_setup libc headers fresh ≡ back q)
    × (u : Session) × (maps : List (ℕ → ℕ)) × (fuzz left 0 zeroed
          (λ q a. 4)
          (λ q. 6 ∷ [])
          (λ q. 9 ∷ [])
          config
          2
          (λ i. 57 + i)
          q
          0
          inputs
        ≡ some
            (u, record { traffic = opened config 0 ++ exchanges 2 (λ i. 57 + i) 0 3; maps = maps }))
    × IsCovered 2000000 (2 ^ 16) inputs maps
fuzz-IsCovered_example =
    fuzz-IsCovered left 0 zeroed (λ q a. 4) (λ q. 6 ∷ []) (λ q. 9 ∷ []) libc headers 2000000 1000000
      false true fresh config 2 (λ i. 57 + i) 0 inputs libc-HasMaps fresh-IsLoaded
      (λ bytes k h. refl) refl (omega arith) (omega arith) (λ i. omega arith)
      (λ i. (omega arith, tt))
      (
        (omega arith, (omega arith, tt)),
        ((omega arith, tt), ((omega arith, (omega arith, tt)), tt)),
      )

-- What afl-fuzz finds in byte 5 of the map after each, where an edge leads from the blocks before the loop
-- and from those behind it too.
abbrev byte_five : Option (Session × Log) → List ℕ
byte_five none = []
byte_five (some (t, log)) = map (λ bytes. bytes 2000005) log.maps

fifth :
    byte_five (
      fuzz left 0 zeroed
        (λ q a. 4)
        (λ q. 5 ∷ [])
        (λ q. 5 ∷ [])
        config
        2
        (λ i. 57 + i)
        (record fresh { cpu = record fresh.cpu { area_ptr = 2000000 }; area_ptr_dummy = 1000000 })
        0
        inputs)
    ≡ 4 ∷ 2 ∷ 2 ∷ []
unfolding fuzz fuzz_turns fuzz_turn opened_with extended ready after_ready after_run made entered
    ran forked is_held play turn opening begin start_forkserver move serve_at serve respond answer
    is_stopped said passes stop_child kill_child waited reaped resumed forgotten extra is_alive
    loop_head after_request after_reap after_fork after_options persistent_loop cleared after_stop
    continued run_blocks run_trampolines run exec trampoline_asm trace_asm xor
fifth = refl
