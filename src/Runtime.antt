-- ===== src/Runtime.antt =====
-- The runtime of instrumentation/afl-instrumentation.c but for the fork server: `__afl_setup`,
-- `__afl_map_shm`, `__afl_map_shm_fuzz`, `send_forkserver_error`, and `__afl_persistent_loop` with what it
-- does to the map of AFL.
pub mod Loop
pub mod Clean
pub mod Rounds
pub mod Isolation
pub mod Tests
use pe_ar_honours.Prelude.{
  ℕ, ◌+◌, ◌-◌, ◌%◌, ◌^◌, ◌==◌, ltb, leb, Bool, true, false, not, ◌&&◌, ◌||◌, Option, none, some,
  if◌then◌else◌,
}
use pe_ar_honours.Text.{Text, codes}
use pe_ar_honours.Machine.{higher, store}
use pe_ar_honours.Trampoline.{Cpu}

-- What the functions call: the address that `malloc` gives, 0 for NULL; the variables of the
-- environment; `atoi`, as an unsigned number of 32 bits; and the address that `shmat` gives for an id,
-- 2 ^ 64 - 1 for its error.
pub record Libc : Type 0 where
  pub malloc : ℕ → ℕ
  pub getenv : Text → Option Text
  pub atoi : Text → ℕ
  pub shmat : ℕ → ℕ

-- The macros of the headers of AFL++: SHM_ENV_VAR, SHM_FUZZ_ENV_VAR, FS_ERROR_SHMAT, FS_ERROR_SHM_OPEN, and
-- FS_OPT_ERROR | FS_OPT_SET_ERROR(error).
pub record Headers : Type 0 where
  pub shm_env_var : Text
  pub shm_fuzz_env_var : Text
  pub error_shmat : ℕ
  pub error_shm_open : ℕ
  pub error_word : ℕ → ℕ

-- `__afl_area_ptr`, `__afl_prev_loc` and the memory are in `cpu`, the other variables beside it.
-- `__afl_prev_loc` is set to 0 as a whole: in C it has 4 bytes, in the data 8, of which ids of 16 bits leave
-- the upper ones 0.
pub record Process : Type 0 where
  pub cpu : Cpu
  pub area_ptr_dummy : ℕ
  pub debug : ℕ
  pub already_initialized_shm : ℕ
  pub map_size : ℕ
  pub first_pass : ℕ
  pub cycle_cnt : ℕ
  pub fuzz_len : ℕ
  pub fuzz_ptr : ℕ

-- A function returns, or the process ends with a status, and what was sent to afl-fuzz, if anything.
pub data Finish : Type 0 where
  back : Process → Finish
  exit : Option ℕ → ℕ → Finish

unfoldable pub send_forkserver_error : Headers → ℕ → Option ℕ
send_forkserver_error h error =
    if error == 0 || ltb 0xffff error then none else some (h.error_word error)

unfoldable pub is_mapped : ℕ → Bool
is_mapped address = not (address == 0 || address == 2 ^ 64 - 1)

-- `__afl_map_shm` from the `shmat` on.
unfoldable pub attach : Headers → Process → ℕ → Finish
unfolding is_mapped send_forkserver_error
attach h p address =
    if is_mapped address
    then back (record p {
      cpu = record p.cpu { area_ptr = address; bytes = store address 1 p.cpu.bytes };
    })
    else exit (send_forkserver_error h h.error_shmat) 1

unfoldable pub afl_map_shm : Libc → Headers → Process → Finish
unfolding attach
afl_map_shm l h p =
    if p.already_initialized_shm == 0
    then elim (l.getenv h.shm_env_var) [
      | none ↦ back (record p { already_initialized_shm = 1 })
      | some id ↦ attach h (record p { already_initialized_shm = 1 }) (l.shmat (l.atoi id))
    ]
    else back p

unfoldable pub afl_setup : Libc → Headers → Process → Finish
unfolding afl_map_shm
afl_setup l h p =
    let dummy = l.malloc 0x10000 in
    let debug : ℕ = elim (l.getenv (codes "AFL_DEBUG")) [ none ↦ p.debug | some v ↦ 1 ] in
    if dummy == 0
    then exit none 1
    else afl_map_shm l h (record p {
      cpu = record p.cpu { area_ptr = dummy };
      area_ptr_dummy = dummy;
      debug = debug;
    })

unfoldable pub afl_map_shm_fuzz : Libc → Headers → Process → Finish
unfolding is_mapped send_forkserver_error
afl_map_shm_fuzz l h p = elim (l.getenv h.shm_fuzz_env_var) [
  | none ↦ exit (send_forkserver_error h h.error_shm_open) 1
  | some id ↦
      let map = l.shmat (l.atoi id) in
      if is_mapped map
      then back (record p { fuzz_len = map; fuzz_ptr = higher map 4 })
      else exit (send_forkserver_error h h.error_shm_open) 1
]

-- memset to 0.
unfoldable pub cleared : ℕ → ℕ → (ℕ → ℕ) → ℕ → ℕ
cleared from n bytes a = if leb from a && ltb a (from + n) then 0 else bytes a

-- A call of `__afl_persistent_loop`: it returns 1; it raises SIGSTOP, and when it is continued goes on with
-- `after_stop`; or it returns 0.
pub data Called : Type 0 where
  returns_one stops returns_zero : Process → Called

abbrev first_cell : Process → (ℕ → ℕ) → Process
first_cell p bytes = record p {
  cpu = record p.cpu { bytes = store p.cpu.area_ptr 1 bytes; prev_loc = 0 };
}

unfoldable pub after_stop : Process → Process
after_stop p = first_cell p p.cpu.bytes

unfoldable pub persistent_loop : ℕ → Process → Called
unfolding cleared
persistent_loop max_cnt p =
    let left = (p.cycle_cnt + (2 ^ 32 - 1)) % 2 ^ 32 in
    if not (p.first_pass == 0)
    then returns_one (record (first_cell p (cleared p.cpu.area_ptr p.map_size p.cpu.bytes)) {
      first_pass = 0;
      cycle_cnt = max_cnt;
    })
    else if not (left == 0)
    then stops (record p { cycle_cnt = left })
    else returns_zero
        (record p { cpu = record p.cpu { area_ptr = p.area_ptr_dummy }; cycle_cnt = left })
