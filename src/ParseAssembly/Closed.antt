-- ===== src/ParseAssembly/Closed.antt =====
-- For which files parse_assembly.py ends with its patches, and for which with an error.
use pe_ar_honours.Prelude.{
  ℕ, suc, zero, ◌<◌, ◌≡◌, refl, ◌+◌, ◌∙◌, ◌≤◌, ◌⊎◌, inl, inr, Bool, true, false, List, [], ◌∷◌,
  ◌++◌, map, if◌then◌else◌, arith, length, Outcome, ok, raise, is_ok, index_error, Bool-cases,
}
use pe_ar_honours.Text.{Text}
use pe_ar_honours.ParseAssembly.Lines.{rstrip, is_function_start, is_function_end, is_cfi_directive}
use pe_ar_honours.ParseAssembly.{
  Body, take_body, take_function, functions_from, Found, find_functions, parse_assembly, drop_last,
  rodata_lines, scan_up,
}

-- Where a line stands: outside of the functions, behind the start of one, or in its code.
pub data Place : Type 0 where
  outside behind_start inside : Place

place_after : Place → Text → Place
place_after outside l = if is_function_start l then behind_start else outside
place_after behind_start l = inside
place_after inside l = if is_function_end l then outside else inside

-- All functions are closed: one pass over the lines, with the place as its state.
unfoldable pub is_closed : Place → List Text → Bool
unfolding place_after
is_closed outside [] = true
is_closed behind_start [] = false
is_closed inside [] = false
is_closed place (l ∷ ls) = is_closed (place_after place l) ls

-- The result that the pass announces.
abbrev Announced : {A : Type 0} → Bool → Outcome A → Type 0
Announced {A} closed r =
    ((closed ≡ true) × ((a : A) × (r ≡ ok a))) ⊎ ((closed ≡ false) × (r ≡ raise index_error))

abbrev BodyAnnounced : List Text → Outcome Body → Type 0
BodyAnnounced lines r =
    ((b : Body) × (r ≡ ok b)
      × (is_closed inside lines ≡ is_closed outside b.behind)
      × (length b.behind < length lines))
    ⊎ ((r ≡ raise index_error) × (is_closed inside lines ≡ false))

take_body-Announced : (passed lines : List Text) → BodyAnnounced lines (take_body passed lines)
unfolding take_body is_closed
take_body-Announced passed [] = inr (refl, refl)
take_body-Announced passed (l ∷ lines) = elim (Bool-cases (is_function_end l)) [
  | inl last ↦ rw last (
      inl (record { func_code = []; passed = l ∷ passed; behind = lines }, refl, refl, omega arith))
  | inr code ↦ rw code (elim (take_body-Announced (l ∷ passed) lines) [
    | inl (b, found, closed, shorter) ↦ inl (
      record b { func_code = (if is_cfi_directive l then [] else l ∷ []) ++ b.func_code },
      rw found refl,
      closed,
      omega arith,
    )
    | inr (missing, closed) ↦ inr (rw missing refl, closed)
  ])
]

take_function-Announced :
    (further : List Text → List Text → Outcome Found) (n : ℕ) (start : Text)
    (above lines : List Text)
    → ((above rest : List Text)
        → length rest < n
        → Announced (is_closed outside rest) (further above rest))
    → length lines ≤ n
    → Announced (is_closed behind_start lines) (take_function further start above lines)
unfolding take_function is_closed
take_function-Announced further n start above [] next h = inr (refl, refl)
take_function-Announced further n start above (label ∷ lines) next h =
    elim (take_body-Announced (label ∷ start ∷ above) lines) [
      | inr (missing, closed) ↦ inr (closed, rw missing refl)
      | inl (b, found, closed, shorter) ↦ elim (next b.passed b.behind (omega arith)) [
        | inr (open_there, failed) ↦ inr (closed ∙ open_there, rw (found, failed) refl)
        | inl (closed_there, (f, rest)) ↦ inl (
          closed ∙ closed_there,
          (
            record {
              functions =
                  record {
                    func_name = drop_last label;
                    func_code = b.func_code;
                    func_rodata = rodata_lines (scan_up (start ∷ above));
                  }
                  ∷ f.functions;
              total_rodata_len = (scan_up (start ∷ above)).bytes + f.total_rodata_len;
            },
            rw (found, rest) refl,
          ),
        )
      ]
    ]

functions_from-Announced :
    (fuel : ℕ) (above lines : List Text)
    → length lines < fuel
    → Announced (is_closed outside lines) (functions_from fuel above lines)
unfolding functions_from is_closed
functions_from-Announced zero above lines h = absurd (omega arith)
functions_from-Announced (suc fuel) above [] h =
    inl (refl, (record { functions = []; total_rodata_len = 0 }, refl))
functions_from-Announced (suc fuel) above (l ∷ lines) h = elim (Bool-cases (is_function_start l)) [
  | inr other ↦ rw other (functions_from-Announced fuel (l ∷ above) lines (omega arith))
  | inl start ↦ rw start (
      take_function-Announced (functions_from fuel) fuel l above lines
        (λ above rest k. functions_from-Announced fuel above rest k) (omega arith))
]

-- parse_assembly.py ends on every file: with its patches if each function that is started has a
-- label and an end, and with the error of an index that is out of range if one has not.
pub parse_assembly-closed :
    (file : List Text)
    → (is_ok (parse_assembly file) ≡ is_closed outside (map rstrip file))
      × ((is_closed outside (map rstrip file) ≡ false) → parse_assembly file ≡ raise index_error)
unfolding parse_assembly find_functions
parse_assembly-closed file =
    elim (functions_from-Announced (suc (length (map rstrip file))) [] (map rstrip file)
      (omega arith)) [
        | inl (closed, (f, found)) ↦ (rw (found, closed) refl, λ e. cc)
        | inr (left_open, failed) ↦ (rw (failed, left_open) refl, λ e. rw failed refl)
      ]
