-- ===== src/Runtime/Isolation.antt =====
-- From `__afl_setup` on, afl-fuzz sees each run of the function alone.
use pe_ar_honours.Prelude.{
  ℕ, ◌+◌, ◌-◌, ◌^◌, ◌<◌, ◌≤◌, ◌==◌, ◌≡◌, ◌≢◌, refl, ◌∙◌, arith, Bool, true, false, not, none, some,
  List, ◌∷◌, length, All, ◌||◌,
}
use pe_ar_honours.Text.{Text, codes, text_eq}
use pe_ar_honours.Machine.{store}
use pe_ar_honours.Trampoline.{Flags, Op}
use pe_ar_honours.Trampoline.Edges.{map_size-eq}
use pe_ar_honours.Globals.{data_variables, initial_value, locate, behind, size, initially}
use pe_ar_honours.Globals.Started.{first_pass-one}
use pe_ar_honours.Runtime.{Libc, Headers, Process, back, afl_setup, afl_map_shm, attach, is_mapped}
use pe_ar_honours.Runtime.Loop.{run_blocks, run_loop, IsCovered}
use pe_ar_honours.Runtime.Clean.{area-run_trampolines}
use pe_ar_honours.Runtime.Rounds.{run_loop-IsCovered}

-- The variables of the runtime are as in the data, whatever the flags.
abbrev pub IsLoaded : Bool → Bool → Process → Type 0
IsLoaded f v p =
    (initial_value (codes "first_pass") (data_variables f v) ≡ some p.first_pass)
    × (initial_value (codes "__afl_map_size") (data_variables f v) ≡ some p.map_size)
    × (initial_value (codes "__afl_already_initialized_shm") (data_variables f v)
        ≡ some p.already_initialized_shm)

not_initialized :
    (f p : Bool) (v : ℕ)
    → initial_value (codes "__afl_already_initialized_shm") (data_variables f p) ≡ some v
    → v ≡ 0
unfolding initial_value locate behind size initially data_variables text_eq
not_initialized f p v e = ground arith

-- `malloc` and `shmat` give two maps that are apart and do not wrap.
pub record HasMaps (l : Libc) (h : Headers) (area dummy : ℕ) : Type 0 where
  pub allocated : l.malloc 0x10000 ≡ dummy
  pub id : Text
  pub named : l.getenv h.shm_env_var ≡ some id
  pub attached : l.shmat (l.atoi id) ≡ area
  pub real_area : 0 < area
  pub real_dummy : 0 < dummy
  pub room : area + 2 ^ 16 ≤ 2 ^ 64
  pub dummy_room : dummy + 2 ^ 16 ≤ 2 ^ 64
  pub apart : (j k : ℕ) → j < 2 ^ 16 → k < 2 ^ 16 → area + k ≢ dummy + j

not_zero : (a : ℕ) → 0 < a → (a == 0) ≡ false
not_zero a h = ground arith

real_address : (a : ℕ) → 0 < a → a + 2 ^ 16 ≤ 2 ^ 64 → not (a == 0 || a == 2 ^ 64 - 1) ≡ true
real_address a h room = ground arith

module _ (l : Libc) (h : Headers) (area dummy : ℕ) (maps : HasMaps l h area dummy) where
  set_up : Process → Process
  set_up p = record p {
    cpu = record p.cpu { area_ptr = area; bytes = store area 1 p.cpu.bytes };
    area_ptr_dummy = dummy;
    debug = elim (l.getenv (codes "AFL_DEBUG")) [ none ↦ p.debug | some v ↦ 1 ];
    already_initialized_shm = 1;
  }

  afl_setup-eq :
      (p : Process) → (p.already_initialized_shm == 0) ≡ true → afl_setup l h p ≡ back (set_up p)
  unfolding afl_setup afl_map_shm attach is_mapped set_up
  afl_setup-eq p fresh =
      let real : (dummy == 0) ≡ false = not_zero dummy maps.real_dummy in
      let mapped : not (area == 0 || area == 2 ^ 64 - 1) ≡ true =
        real_address area maps.real_area maps.room in
      simp (maps.allocated, real, fresh, maps.named, maps.attached, mapped) refl

  -- What the set-up leaves for the loop.
  pub afl_setup-IsSetUp :
      (f v : Bool) (p : Process)
      → IsLoaded f v p
      → (q : Process) × (afl_setup l h p ≡ back q)
        × ((q.first_pass == 0) ≡ false)
        × (q.cpu.area_ptr ≡ area)
        × (q.area_ptr_dummy ≡ dummy)
        × (q.map_size ≡ 2 ^ 16)
  unfolding set_up
  afl_setup-IsSetUp f v p loaded = (
    set_up p,
    afl_setup-eq p (rw (not_initialized f v p.already_initialized_shm loaded.2) refl),
    rw (first_pass-one f v p.first_pass loaded.0) refl,
    refl,
    refl,
    map_size-eq f v p.map_size loaded.1,
  )

-- The set-up, then blocks that run before the loop, then the loop with as many runs of the function as its
-- count says, from 1 to 2 ^ 32 - 1, then blocks that run behind it; blocks have 16-bit ids, and where the
-- process stops afl-fuzz sets the map to 0. The set-up returns if malloc and shmat give maps that are apart;
-- and at each stop and at the end, the map that afl-fuzz reads is that of the run before alone: what ran
-- before the loop, in other runs or behind the loop is not in it.
pub afl_setup-IsCovered :
    (arithmetic_flags : Op → ℕ → Flags) (return_address : ℕ) (reset : (ℕ → ℕ) → ℕ → ℕ) (l : Libc)
    (h : Headers) (area dummy : ℕ) (f v : Bool) (p : Process) (ids : List ℕ) (runs : List (List ℕ))
    (before later : List ℕ)
    → HasMaps l h area dummy
    → IsLoaded f v p
    → ((bytes : ℕ → ℕ) (k : ℕ) → k < 2 ^ 16 → reset bytes (area + k) ≡ 0)
    → length runs + 1 < 2 ^ 32
    → All (λ ids. All (λ id. id < 2 ^ 16) ids) (ids ∷ runs)
    → All (λ id. id < 2 ^ 16) later
    → (q : Process) × (afl_setup l h p ≡ back q)
      × IsCovered area (2 ^ 16) (ids ∷ runs) (
          run_loop arithmetic_flags return_address reset
            (length runs + 1)
            (ids ∷ runs)
            later
            (run_blocks arithmetic_flags return_address before q))
unfolding run_blocks
afl_setup-IsCovered arithmetic_flags return_address reset l h area dummy f v p ids runs before later
      maps loaded resets bound small last =
    let (q, set, first, at_area, at_dummy, sized) =
      afl_setup-IsSetUp l h area dummy maps f v p loaded in
    (
      q,
      set,
      run_loop-IsCovered arithmetic_flags return_address reset (length runs + 1) area dummy
          maps.room maps.dummy_room maps.apart resets ids runs later
          (run_blocks arithmetic_flags return_address before q) refl bound small last first
          (area-run_trampolines arithmetic_flags return_address before q.cpu ∙ at_area) at_dummy
          sized,
    )
