-- ===== src/Trampoline/Edges.antt =====
-- What the trampolines of one run of the program leave in the map of AFL.
use pe_ar_honours.Prelude.{
  ℕ, zero, suc, ◌+◌, ◌/◌, ◌%◌, ◌^◌, ◌<◌, ◌≤◌, ◌≡◌, ◌≢◌, ◌==◌, refl, ◌∙◌, ap, arith, Bool,
  Bool-cases, inl, inr, some, List, [], ◌∷◌, All, if◌then◌else◌,
}
use pe_ar_honours.Text.{codes, text_eq}
use pe_ar_honours.Globals.{data_variables, initial_value, locate, behind, size, initially}
use pe_ar_honours.Trampoline.{xor, Flags, Cpu, Op, exec, run, trace_asm, trampoline_asm}
use pe_ar_honours.Trampoline.Coverage.{edge, trampoline_asm-coverage}

xor-zero : (w : ℕ) → xor w 0 0 ≡ 0
unfolding xor
xor-zero zero = refl
xor-zero (suc w) = ground (arith, xor-zero w)

xor-small : (w a b : ℕ) → a < 1 → b < 1 → xor w a b < 1
xor-small w a b h g =
    let first : a ≡ 0 = omega arith in
    let second : b ≡ 0 = omega arith in rw (first, second, xor-zero w) (omega arith)

xor-lt : (w k a b : ℕ) → a < 2 ^ k → b < 2 ^ k → xor w a b < 2 ^ k
unfolding xor
xor-lt zero k a b h g = ground arith
xor-lt (suc w) zero a b h g = xor-small (suc w) a b h g
xor-lt (suc w) (suc k) a b h g = ground (arith, xor-lt w k (a / 2) (b / 2))

-- How much the blocks with these ids, run in this order after a location, add to place i of the map: one
-- for each edge there to a block with an even id, two to one with an odd id.
unfoldable pub hits : List ℕ → ℕ → ℕ → ℕ
hits [] prev i = 0
hits (id ∷ ids) prev i =
    let rest = hits ids (id / 2) i in (if xor 64 id prev == i then 1 + id % 2 else 0) + rest

pub map_size-eq :
    (f p : Bool) (v : ℕ)
    → initial_value (codes "__afl_map_size") (data_variables f p) ≡ some v
    → v ≡ 2 ^ 16
unfolding initial_value locate behind size initially data_variables text_eq
map_size-eq f p v e = ground arith

pub no_prev_loc :
    (f p : Bool) (v : ℕ)
    → initial_value (codes "__afl_prev_loc") (data_variables f p) ≡ some v
    → v ≡ 0
unfolding initial_value locate behind size initially data_variables text_eq
no_prev_loc f p v e = ground arith

add_mod : (b x r : ℕ) → ((b + x) % 256 + r) % 256 ≡ (b + (x + r)) % 256
add_mod b x r = omega arith

module _ (arithmetic_flags : Op → ℕ → Flags) (return_address : ℕ) where
  unfoldable pub run_trampolines : List ℕ → Cpu → Cpu
  run_trampolines [] c = c
  run_trampolines (id ∷ ids) c =
      run_trampolines ids (run arithmetic_flags return_address (trampoline_asm id) c)

  pub area_kept :
      (id : ℕ) (c : Cpu)
      → (run arithmetic_flags return_address (trampoline_asm id) c).area_ptr ≡ c.area_ptr
  unfolding run exec trampoline_asm trace_asm
  area_kept id c = refl

  module _ (id : ℕ) (c : Cpu) (small : id < 2 ^ 16) (prev : c.prev_loc < 2 ^ 16)
      (room : c.area_ptr + 2 ^ 16 ≤ 2 ^ 64) where
    edge-eq : (i : ℕ) → xor 64 id c.prev_loc ≡ i → edge id c ≡ c.area_ptr + i
    edge-eq i e = let place = xor-lt 64 16 id c.prev_loc small prev in omega arith

    traced :
        (i : ℕ)
        → c.bytes (c.area_ptr + i) < 256
        → (run arithmetic_flags return_address (trampoline_asm id) c).bytes (c.area_ptr + i)
          ≡ (c.bytes (c.area_ptr + i) + (if xor 64 id c.prev_loc == i then 1 + id % 2 else 0)) % 256
    traced i byte =
        let (location, there, elsewhere) =
          trampoline_asm-coverage arithmetic_flags return_address id c (omega arith) in
        let whole = edge-eq (xor 64 id c.prev_loc) refl in
        elim (Bool-cases (xor 64 id c.prev_loc == i)) [
          | inl same ↦
              rw same ((rw (edge-eq i (ground arith)) at there) ∙ ap (λ x. x % 256) (omega arith))
          | inr other ↦ rw other (elsewhere (c.area_ptr + i) (λ e. ground arith) ∙ omega arith)
        ]

    untraced :
        (a : ℕ)
        → ((i : ℕ) → i < 2 ^ 16 → a ≢ c.area_ptr + i)
        → (run arithmetic_flags return_address (trampoline_asm id) c).bytes a ≡ c.bytes a
    untraced a outside =
        let (location, there, elsewhere) =
          trampoline_asm-coverage arithmetic_flags return_address id c (omega arith) in
        let place = xor-lt 64 16 id c.prev_loc small prev in
        elsewhere a
          (λ e. outside (xor 64 id c.prev_loc) place (e ∙ edge-eq (xor 64 id c.prev_loc) refl))

  pub run_trampolines-hits :
      (ids : List ℕ) (c : Cpu) (i : ℕ)
      → All (λ id. id < 2 ^ 16) ids
      → c.prev_loc < 2 ^ 16
      → c.area_ptr + 2 ^ 16 ≤ 2 ^ 64
      → c.bytes (c.area_ptr + i) < 256
      → (run_trampolines ids c).bytes (c.area_ptr + i)
        ≡ (c.bytes (c.area_ptr + i) + hits ids c.prev_loc i) % 256
  unfolding run_trampolines hits
  run_trampolines-hits [] c i small prev room byte = omega arith
  run_trampolines-hits (id ∷ ids) c i small prev room byte =
      let after = run arithmetic_flags return_address (trampoline_asm id) c in
      let here = traced id c small.0 prev room i byte in
      let location =
        (trampoline_asm-coverage arithmetic_flags return_address id c (omega (arith, small.0))).0 in
      let same = area_kept id c in
      let later =
        run_trampolines-hits ids after i small.1 (rw location (omega (arith, small.0)))
          (rw same room) (rw (same, here) (omega arith)) in
      (simp (same, location, here) at later) ∙ add_mod (c.bytes (c.area_ptr + i)) _ _

  pub run_trampolines-untraced :
      (ids : List ℕ) (c : Cpu) (a : ℕ)
      → All (λ id. id < 2 ^ 16) ids
      → c.prev_loc < 2 ^ 16
      → c.area_ptr + 2 ^ 16 ≤ 2 ^ 64
      → ((i : ℕ) → i < 2 ^ 16 → a ≢ c.area_ptr + i)
      → (run_trampolines ids c).bytes a ≡ c.bytes a
  unfolding run_trampolines
  run_trampolines-untraced [] c a small prev room outside = refl
  run_trampolines-untraced (id ∷ ids) c a small prev room outside =
      let after = run arithmetic_flags return_address (trampoline_asm id) c in
      let location =
        (trampoline_asm-coverage arithmetic_flags return_address id c (omega (arith, small.0))).0 in
      let same = area_kept id c in
      run_trampolines-untraced ids after a small.1 (rw location (omega (arith, small.0)))
        (rw same room) (rw same outside)
      ∙ untraced id c small.0 prev room a outside

  -- The map of AFL after a run of blocks with 16-bit ids, from the `__afl_prev_loc` of the data and in
  -- memory where a map of `__afl_map_size` bytes does not wrap: each byte of the map has grown, modulo
  -- 256, by one for each edge there into a block with an even id and by two for each into one with an odd
  -- id; no byte outside the map has changed.
  pub run_trampolines-data_variables :
      (f p : Bool) (ids : List ℕ) (c : Cpu) (map_size i a : ℕ)
      → initial_value (codes "__afl_map_size") (data_variables f p) ≡ some map_size
      → initial_value (codes "__afl_prev_loc") (data_variables f p) ≡ some c.prev_loc
      → All (λ id. id < 2 ^ 16) ids
      → c.area_ptr + map_size ≤ 2 ^ 64
      → ((b : ℕ) → c.bytes b < 256)
      → i < map_size
      → ((j : ℕ) → j < map_size → a ≢ c.area_ptr + j)
      → ((run_trampolines ids c).bytes (c.area_ptr + i)
          ≡ (c.bytes (c.area_ptr + i) + hits ids 0 i) % 256)
        × ((run_trampolines ids c).bytes a ≡ c.bytes a)
  run_trampolines-data_variables f p ids c map_size i a sized started small room bytes inside
        outside =
      let whole = map_size-eq f p map_size sized in
      let none_before = no_prev_loc f p c.prev_loc started in
      let prev : c.prev_loc < 2 ^ 16 = rw none_before (omega arith) in
      let fits = rw whole at room in
      (
        run_trampolines-hits ids c i small prev fits (bytes (c.area_ptr + i))
            ∙ ap (λ x. (c.bytes (c.area_ptr + i) + hits ids x i) % 256) none_before,
        run_trampolines-untraced ids c a small prev fits (rw whole at outside),
      )
