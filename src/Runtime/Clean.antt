-- ===== src/Runtime/Clean.antt =====
-- The map of AFL from a clean slate, and the three ways in which `__afl_persistent_loop` goes.
use pe_ar_honours.Prelude.{
  ℕ, ◌+◌, ◌-◌, ◌%◌, ◌^◌, ◌<◌, ◌≤◌, ◌==◌, ◌≡◌, ◌≢◌, refl, ◌∙◌, arith, false, List, [], ◌∷◌, All,
  if◌then◌else◌,
}
use pe_ar_honours.Machine.{store}
use pe_ar_honours.Trampoline.{Flags, Op, Cpu, trampoline_asm, run}
use pe_ar_honours.Trampoline.Coverage.{trampoline_asm-coverage}
use pe_ar_honours.Trampoline.Edges.{
  run_trampolines, run_trampolines-hits, run_trampolines-untraced, area_kept,
}
use pe_ar_honours.Runtime.{
  Process, returns_one, stops, returns_zero, after_stop, persistent_loop, cleared,
}
use pe_ar_honours.Runtime.Loop.{coverage, run_blocks, continued}

-- The byte 1 at the start of memory that is 0.
store-clean :
    (from area k : ℕ) (bytes : ℕ → ℕ)
    → from ≡ area
    → bytes (area + k) ≡ 0
    → store from 1 bytes (area + k) ≡ (if k == 0 then 1 else 0)
store-clean from area k bytes here zeroed = ground arith

-- The first call of the loop.
abbrev pub first_called : ℕ → Process → Process
first_called n p = record p {
  cpu = record p.cpu {
    bytes = store p.cpu.area_ptr 1 (cleared p.cpu.area_ptr p.map_size p.cpu.bytes);
    prev_loc = 0;
  };
  first_pass = 0;
  cycle_cnt = n;
}

pub loop-first :
    (n : ℕ) (p : Process)
    → (p.first_pass == 0) ≡ false
    → persistent_loop n p ≡ returns_one (first_called n p)
unfolding persistent_loop
loop-first n p first = simp first refl

pub loop-more :
    (n m : ℕ) (p : Process)
    → p.first_pass ≡ 0
    → p.cycle_cnt ≡ m + 1
    → 0 < m
    → m + 1 < 2 ^ 32
    → persistent_loop n p ≡ stops (record p { cycle_cnt = m })
unfolding persistent_loop
loop-more n m p passed count more bound =
    let left : (m + 1 + (2 ^ 32 - 1)) % 2 ^ 32 ≡ m = omega arith in
    let positive : (m == 0) ≡ false = ground arith in simp (passed, count, left, positive) refl

pub loop-last :
    (n : ℕ) (p : Process)
    → p.first_pass ≡ 0
    → p.cycle_cnt ≡ 1
    → persistent_loop n p
      ≡ returns_zero
          (record p { cpu = record p.cpu { area_ptr = p.area_ptr_dummy }; cycle_cnt = 0 })
unfolding persistent_loop
loop-last n p passed count = simp (passed, count) refl

cleared-zero :
    (from n k area : ℕ) (bytes : ℕ → ℕ) → from ≡ area → k < n → cleared from n bytes (area + k) ≡ 0
unfolding cleared
cleared-zero from n k area bytes here inside = ground arith

-- Between two calls of the loop, before m - 1 more that return 1.
pub record IsOn (area dummy m : ℕ) (p : Process) : Type 0 where
  pub at_area : p.cpu.area_ptr ≡ area
  pub at_dummy : p.area_ptr_dummy ≡ dummy
  pub passed : p.first_pass ≡ 0
  pub left : p.cycle_cnt ≡ m

pub record IsClean (area dummy m : ℕ) (p : Process) : Type 0 where
  pub on : IsOn area dummy m p
  pub start : p.cpu.prev_loc ≡ 0
  pub clean : (k : ℕ) → k < 2 ^ 16 → p.cpu.bytes (area + k) ≡ (if k == 0 then 1 else 0)

pub record HasRun (area dummy : ℕ) (ids : List ℕ) (m : ℕ) (p : Process) : Type 0 where
  pub on : IsOn area dummy m p
  pub prev : p.cpu.prev_loc < 2 ^ 16
  pub covered : (k : ℕ) → k < 2 ^ 16 → p.cpu.bytes (area + k) ≡ coverage ids k

module _ (arithmetic_flags : Op → ℕ → Flags) (return_address : ℕ) where
  pub area-run_trampolines :
      (ids : List ℕ) (c : Cpu)
      → (run_trampolines arithmetic_flags return_address ids c).area_ptr ≡ c.area_ptr
  unfolding run_trampolines
  area-run_trampolines [] c = refl
  area-run_trampolines (id ∷ ids) c =
      area-run_trampolines ids (run arithmetic_flags return_address (trampoline_asm id) c)
      ∙ area_kept arithmetic_flags return_address id c

  prev_loc-run_trampolines :
      (ids : List ℕ) (c : Cpu)
      → All (λ id. id < 2 ^ 16) ids
      → c.prev_loc < 2 ^ 16
      → (run_trampolines arithmetic_flags return_address ids c).prev_loc < 2 ^ 16
  unfolding run_trampolines
  prev_loc-run_trampolines [] c small prev = prev
  prev_loc-run_trampolines (id ∷ ids) c small prev =
      let location =
        (trampoline_asm-coverage arithmetic_flags return_address id c (omega (arith, small.0))).0 in
      prev_loc-run_trampolines ids (run arithmetic_flags return_address (trampoline_asm id) c)
        small.1 (rw location (omega (arith, small.0)))

  run_trampolines-coverage :
      (ids : List ℕ) (c : Cpu) (area k : ℕ)
      → All (λ id. id < 2 ^ 16) ids
      → c.area_ptr ≡ area
      → c.prev_loc ≡ 0
      → area + 2 ^ 16 ≤ 2 ^ 64
      → c.bytes (area + k) ≡ (if k == 0 then 1 else 0)
      → (run_trampolines arithmetic_flags return_address ids c).bytes (area + k) ≡ coverage ids k
  unfolding coverage
  run_trampolines-coverage ids c area k small here start room clean =
      let byte : c.bytes (c.area_ptr + k) < 256 = rw (here, clean) (ground arith) in
      simp (here, start, clean) at
        (run_trampolines-hits arithmetic_flags return_address ids c k small (rw start (omega arith))
          (rw here room) byte)

  module _ (area dummy : ℕ) (room : area + 2 ^ 16 ≤ 2 ^ 64) where
    pub blocks-HasRun :
        (ids : List ℕ) (m : ℕ) (p : Process)
        → All (λ id. id < 2 ^ 16) ids
        → IsClean area dummy m p
        → HasRun area dummy ids m (run_blocks arithmetic_flags return_address ids p)
    unfolding run_blocks coverage
    blocks-HasRun ids m p small h = record {
      on = record {
        at_area = area-run_trampolines ids p.cpu ∙ h.on.at_area;
        at_dummy = h.on.at_dummy;
        passed = h.on.passed;
        left = h.on.left;
      };
      prev = prev_loc-run_trampolines ids p.cpu small (rw h.start (omega arith));
      covered = λ k inside.
          run_trampolines-coverage ids p.cpu area k small h.on.at_area h.start room
            (h.clean k inside);
    }

    -- Behind the loop the map is no longer written.
    pub ended-covered :
        (later ids : List ℕ) (p : Process) (k : ℕ)
        → dummy + 2 ^ 16 ≤ 2 ^ 64
        → ((j k : ℕ) → j < 2 ^ 16 → k < 2 ^ 16 → area + k ≢ dummy + j)
        → All (λ id. id < 2 ^ 16) later
        → HasRun area dummy ids 1 p
        → k < 2 ^ 16
        → (run_trampolines arithmetic_flags return_address later
              (record p.cpu { area_ptr = p.area_ptr_dummy })).bytes
            (area + k)
          ≡ coverage ids k
    ended-covered later ids p k dummy_room apart small h inside =
        run_trampolines-untraced arithmetic_flags return_address later
          (record p.cpu { area_ptr = p.area_ptr_dummy }) (area + k) small h.prev
          (rw h.on.at_dummy dummy_room) (λ j below. rw h.on.at_dummy (apart j k below inside))
        ∙ h.covered k inside

pub first_called-IsClean :
    (area dummy n : ℕ) (p : Process)
    → p.cpu.area_ptr ≡ area
    → p.area_ptr_dummy ≡ dummy
    → p.map_size ≡ 2 ^ 16
    → IsClean area dummy n (first_called n p)
first_called-IsClean area dummy n p at_area at_dummy sized = record {
  on = record { at_area = at_area; at_dummy = at_dummy; passed = refl; left = refl };
  start = refl;
  clean = λ k inside.
      store-clean p.cpu.area_ptr area k (cleared p.cpu.area_ptr p.map_size p.cpu.bytes) at_area
        (cleared-zero p.cpu.area_ptr p.map_size k area p.cpu.bytes at_area (rw sized inside));
}

pub continued-IsClean :
    (reset : (ℕ → ℕ) → ℕ → ℕ) (area dummy m : ℕ) (p : Process)
    → ((bytes : ℕ → ℕ) (k : ℕ) → k < 2 ^ 16 → reset bytes (area + k) ≡ 0)
    → IsOn area dummy m p
    → IsClean area dummy m (continued reset p)
unfolding continued after_stop
continued-IsClean reset area dummy m p resets h = record {
  on = record { at_area = h.at_area; at_dummy = h.at_dummy; passed = h.passed; left = h.left };
  start = refl;
  clean = λ k inside.
      store-clean p.cpu.area_ptr area k (reset p.cpu.bytes) h.at_area (resets p.cpu.bytes k inside);
}
