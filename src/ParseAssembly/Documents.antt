-- ===== src/ParseAssembly/Documents.antt =====
-- What an assembly file consists of, described from the top down, and what parse_assembly.py is to
-- make of it.
pub mod Sections
pub mod Parsed
use pe_ar_honours.Prelude.{
  ℕ, suc, ◌+◌, ◌≡◌, Bool, true, false, not, List, [], ◌∷◌, ◌++◌, if◌then◌else◌, keep, All,
}
use pe_ar_honours.Text.{Text}
use pe_ar_honours.ParseAssembly.Lines.{
  is_function_start, is_function_end, is_cfi_directive, is_rodata_start, is_skipped, string_bytes,
}
use pe_ar_honours.ParseAssembly.{Function, Found, drop_last}

-- The lines before a function, its `.type` line, its label, its code and its `.cfi_endproc`.
pub record Part : Type 0 where
  pub gap : List Text
  pub start : Text
  pub label : Text
  pub body : List Text
  pub end_line : Text

pub record IsPart (p : Part) : Type 0 where
  pub gap_plain : All (λ l. (is_function_start l ≡ false) × (is_function_end l ≡ false)) p.gap
  pub is_start : is_function_start p.start ≡ true
  pub body_open : All (λ l. is_function_end l ≡ false) p.body
  pub is_end : is_function_end p.end_line ≡ true

abbrev pub lines_of : List Part → List Text → List Text
lines_of [] tail = tail
lines_of (p ∷ ps) tail = p.gap ++ (p.start ∷ p.label ∷ (p.body ++ (p.end_line ∷ lines_of ps tail)))

-- The lines from the last start of a read-only section on, if there is one; else all lines.
abbrev pub last_section : List Text → List Text × Bool
last_section [] = ([], false)
last_section (l ∷ ls) =
    let (section, found) = last_section ls in
    if found then (section, true) else (l ∷ ls, is_rodata_start l)

abbrev pub total_bytes : List Text → ℕ
total_bytes [] = 0
total_bytes (l ∷ ls) = string_bytes l + total_bytes ls

-- The function of a part: its code without the directives of call frames, and the last read-only
-- section before it without the directives on types, alignment and the section of code.
abbrev pub part_function : Part → Function
part_function p = record {
  func_name = drop_last p.label;
  func_code = keep (λ l. not (is_cfi_directive l)) p.body;
  func_rodata =
      let (section, found) = last_section p.gap in
      if found then keep (λ l. not (is_skipped l)) section else [];
}

abbrev pub parts_found : List Part → Found
parts_found [] = record { functions = []; total_rodata_len = 0 }
parts_found (p ∷ ps) = record {
  functions = part_function p ∷ (parts_found ps).functions;
  total_rodata_len = total_bytes (last_section p.gap).0 + (parts_found ps).total_rodata_len;
}
