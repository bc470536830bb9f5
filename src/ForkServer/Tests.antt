-- ===== src/ForkServer/Tests.antt =====
-- The fork server on examples.
use pe_ar_honours.Prelude.{ℕ, ◌+◌, ◌<◌, ◌≡◌, refl, arith, true, false, some, List, [], ◌∷◌, ◌++◌}
use pe_ar_honours.ForkServer.{
  Server, Config, waits, reap, answer, after_reap, after_request, loop_head, after_fork,
  start_forkserver, is_stopped,
}
use pe_ar_honours.ForkServer.System.{
  dead, System, give, Move, serves, stops, dies, by, begin, Reach, first, later, move, serve_at,
  serve, respond, reaped, waited, resumed, forgotten, extra, is_alive, stop_child, kill_child,
}
use pe_ar_honours.ForkServer.Safety.{IsSafe, Reach-IsSafe}
use pe_ar_honours.ForkServer.Progress.{Asks, Reach-Asks}
use pe_ar_honours.ForkServer.Protocol.{Traffic, greeting, request, pid, status, play, said, passes}
use pe_ar_honours.ForkServer.Session.{Session, serve_all, exchanges, opened}
use pe_ar_honours.ForkServer.Served.{serve_all-exchanges}

abbrev config : Config
config = record { is_persistent = true; sharedmem_fuzzing = false; accepts_sharedmem = λ w. true }

-- The child stops itself, and is killed before the next request.
abbrev race : List Move
race =
    serves (give 4)
    ∷ serves (give 0)
    ∷ serves (give 57)
    ∷ serves (give 4)
    ∷ stops 0x137f
    ∷ serves (give 0)
    ∷ serves (give 4)
    ∷ dies 9
    ∷ serves (give 1)
    ∷ []

abbrev raced : System
raced = record {
  point = waits reap (record {
    child_pid = 57;
    child_stopped = false;
    already_read_first = false;
    was_killed = 1;
    status = 0x137f;
  });
  child = dead 57 9;
  lost = 0;
}

abbrev race_log : List Traffic
race_log = greeting ∷ request 0 ∷ pid 57 ∷ status 0x137f ∷ request 1 ∷ []

race-play : play config race (begin false) ≡ some (raced, race_log)
unfolding play begin start_forkserver move serve_at serve respond answer is_stopped said passes
    stop_child kill_child waited reaped resumed forgotten extra is_alive loop_head after_request
    after_reap after_fork
race-play = refl

raced-Reach : Reach config raced
unfolding play begin start_forkserver move serve_at serve respond answer is_stopped said passes
    stop_child kill_child waited reaped resumed forgotten extra is_alive loop_head after_request
    after_reap after_fork
raced-Reach =
    later
      (later
        (later
          (later
            (later
              (later
                (later
                  (later (later (first false) (by (serves (give 4)) refl))
                    (by (serves (give 0)) refl))
                  (by (serves (give 57)) refl))
                (by (serves (give 4)) refl))
              (by (stops 0x137f) refl))
            (by (serves (give 0)) refl))
          (by (serves (give 4)) refl))
        (by (dies 9) refl))
      (by (serves (give 1)) refl)

Reach-IsSafe_example : (raced.lost ≡ 0) × IsSafe config raced.point raced.child
Reach-IsSafe_example = Reach-IsSafe raced-Reach

abbrev raced_server : Server
raced_server = record {
  child_pid = 57;
  child_stopped = false;
  already_read_first = false;
  was_killed = 1;
  status = 0x137f;
}

Reach-Asks_example : Asks config raced
Reach-Asks_example = Reach-Asks reap raced_server raced-Reach refl

above-zero : (i : ℕ) → 0 < 100 + i
above-zero i = omega arith

serve_all-exchanges_example :
    (u : Session) × (serve_all config 3 (λ i. 100 + i) 0 4
      ≡ some (u, opened config 0 ++ exchanges 3 (λ i. 100 + i) 0 4))
serve_all-exchanges_example =
    serve_all-exchanges config 3 (λ i. 100 + i) 0 4 refl (omega arith) (omega arith) above-zero

four_exchanges :
    exchanges 3 (λ i. 100 + i) 0 4
    ≡ pid 100
      ∷ status 0x137f
      ∷ request 0
      ∷ pid 100
      ∷ status 0x137f
      ∷ request 0
      ∷ pid 100
      ∷ status 0
      ∷ request 0
      ∷ pid 101
      ∷ status 0x137f
      ∷ request 0
      ∷ []
unfolding exchanges
four_exchanges = refl
