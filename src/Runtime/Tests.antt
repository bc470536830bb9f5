-- ===== src/Runtime/Tests.antt =====
-- The runtime on examples.
use pe_ar_honours.Prelude.{
  ℕ, ◌+◌, ◌-◌, ◌^◌, ◌≡◌, refl, arith, true, false, none, some, [], ◌∷◌, if◌then◌else◌, map,
}
use pe_ar_honours.Text.{codes, text_eq}
use pe_ar_honours.Trampoline.{Flags, Op, run, exec, trampoline_asm, trace_asm, xor}
use pe_ar_honours.Trampoline.Edges.{run_trampolines}
use pe_ar_honours.Globals.{data_variables, initial_value, locate, behind, size, initially}
use pe_ar_honours.Runtime.{
  Libc, Headers, Process, back, exit, afl_setup, afl_map_shm, attach, is_mapped,
  send_forkserver_error, persistent_loop, cleared, after_stop, afl_map_shm_fuzz,
}
use pe_ar_honours.Runtime.Loop.{run_blocks, run_loop, continued, ended, IsCovered}
use pe_ar_honours.Runtime.Isolation.{HasMaps, IsLoaded, afl_setup-IsCovered}

abbrev no_flags : Flags
no_flags = record { sf = false; zf = false; af = false; pf = false; cf = false; of = false }

abbrev pub left : Op → ℕ → Flags
left o value = no_flags

abbrev pub headers : Headers
headers = record {
  shm_env_var = codes "__AFL_SHM_ID";
  shm_fuzz_env_var = codes "__AFL_SHM_FUZZ_ID";
  error_shmat = 8;
  error_shm_open = 4;
  error_word = λ error. 0xf800008f + error;
}

abbrev pub libc : Libc
libc = record {
  malloc = λ n. 1000000;
  getenv = λ name. if text_eq name (codes "__AFL_SHM_ID") then some (codes "7") else none;
  atoi = λ t. 7;
  shmat = λ id. 2000000;
}

abbrev pub fresh : Process
fresh = record {
  cpu = record {
    rsp = 4096;
    rdx = 11;
    rcx = 12;
    rax_high = 0;
    ah = 3;
    al = 7;
    eflags = no_flags;
    cell = λ a. a;
    bytes = λ a. 4;
    area_ptr = 0;
    prev_loc = 0;
  };
  area_ptr_dummy = 0;
  debug = 0;
  already_initialized_shm = 0;
  map_size = 65536;
  first_pass = 1;
  cycle_cnt = 0;
  fuzz_len = 0;
  fuzz_ptr = 0;
}

abbrev pub zeroed : (ℕ → ℕ) → ℕ → ℕ
zeroed bytes a = 0

pub libc-HasMaps : HasMaps libc headers 2000000 1000000
unfolding text_eq
libc-HasMaps = record {
  allocated = refl;
  id = codes "7";
  named = refl;
  attached = refl;
  real_area = omega arith;
  real_dummy = omega arith;
  room = omega arith;
  dummy_room = omega arith;
  apart = λ j k below inside e. omega arith;
}

pub fresh-IsLoaded : IsLoaded false true fresh
unfolding initial_value locate behind size initially data_variables text_eq
fresh-IsLoaded = (refl, refl, refl)

afl_setup-IsCovered_example :
    (q : Process) × (afl_setup libc headers fresh ≡ back q)
    × IsCovered 2000000 (2 ^ 16) ((5 ∷ 7 ∷ []) ∷ (5 ∷ []) ∷ []) (
        run_loop left 0 zeroed 2
          ((5 ∷ 7 ∷ []) ∷ (5 ∷ []) ∷ [])
          (9 ∷ [])
          (run_blocks left 0 (6 ∷ []) q))
afl_setup-IsCovered_example =
    afl_setup-IsCovered left 0 zeroed libc headers 2000000 1000000 false true fresh (5 ∷ 7 ∷ [])
      ((5 ∷ []) ∷ []) (6 ∷ []) (9 ∷ []) libc-HasMaps fresh-IsLoaded (λ bytes k h. refl)
      (omega arith) ((omega arith, (omega arith, tt)), ((omega arith, tt), tt)) (omega arith, tt)

-- Without malloc, and without the shared memory.
no_malloc : afl_setup (record libc { malloc = λ n. 0 }) headers fresh ≡ exit none 1
unfolding afl_setup
no_malloc = refl

no_shmat :
    afl_setup (record libc { shmat = λ id. 2 ^ 64 - 1 }) headers fresh ≡ exit (some 0xf8000097) 1
unfolding afl_setup afl_map_shm attach is_mapped send_forkserver_error text_eq
no_shmat = refl

no_fuzz_id : afl_map_shm_fuzz libc headers fresh ≡ exit (some 0xf8000093) 1
unfolding afl_map_shm_fuzz is_mapped send_forkserver_error text_eq
no_fuzz_id = refl

-- The process with its maps, and what afl-fuzz reads at byte 5 of the map.
abbrev ready : Process
ready = record fresh { cpu = record fresh.cpu { area_ptr = 2000000 }; area_ptr_dummy = 1000000 }

seen :
    map
      (λ bytes. bytes 2000005)
      (run_loop left 0 zeroed 2 ((5 ∷ 7 ∷ []) ∷ (5 ∷ []) ∷ []) (5 ∷ []) ready)
    ≡ 4 ∷ 2 ∷ []
unfolding run_loop persistent_loop cleared after_stop continued ended run_blocks run_trampolines run
    exec trampoline_asm trace_asm xor
seen = refl
