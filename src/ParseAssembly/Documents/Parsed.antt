-- ===== src/ParseAssembly/Documents/Parsed.antt =====
-- parse_assembly.py takes a file apart as it is described.
use pe_ar_honours.Prelude.{
  ℕ, suc, zero, ◌+◌, ◌<◌, ◌≡◌, refl, ◌∙◌, true, false, not, List, [], ◌∷◌, ◌++◌, map, keep, All,
  arith, length, length-append, All-append, ◌-◌, ok,
}
use mathlib.Core.List.{reverse, reverse-cons, append_assoc, reverse-reverse}
use native.Mathlib.Nat.{zero-add}
use pe_ar_honours.Text.{Text, codes}
use pe_ar_honours.Number.{decimal}
use pe_ar_honours.ParseAssembly.Lines.{rstrip, is_function_start, is_function_end, is_cfi_directive}
use pe_ar_honours.ParseAssembly.Directives.{
  is_function_start-string_bytes, is_function_end-string_bytes, is_function_start-end,
  is_function_start-rodata_start, is_function_end-rodata_start, is_function_start-skipped,
}
use pe_ar_honours.ParseAssembly.{
  scan_up, take_body, take_function, functions_from, Found, function_files, find_functions,
  parse_assembly,
}
use pe_ar_honours.ParseAssembly.Documents.{
  Part, IsPart, lines_of, last_section, total_bytes, part_function, parts_found,
}
use pe_ar_honours.ParseAssembly.Documents.Sections.{
  IsFloor, Finds, scan_up-Finds, rodata_lines-Finds,
}

-- The lines, last one first, on top of others.
abbrev onto : List Text → List Text → List Text
onto [] above = above
onto (l ∷ ls) above = onto ls (l ∷ above)

onto-reverse : (ls above : List Text) → onto ls above ≡ reverse ls ++ above
onto-reverse [] above = refl
onto-reverse (l ∷ ls) above = onto-reverse ls (l ∷ above) ∙ rw (reverse-cons, append_assoc)

functions_from-gap :
    (gap rest above : List Text) (fuel left : ℕ)
    → All (λ l. (is_function_start l ≡ false) × (is_function_end l ≡ false)) gap
    → fuel ≡ length gap + left
    → functions_from fuel above (gap ++ rest) ≡ functions_from left (onto gap above) rest
unfolding functions_from
functions_from-gap [] rest above fuel left h e = let q : fuel ≡ left = omega arith in rw q
functions_from-gap (l ∷ gap) rest above zero left h e = absurd (omega arith)
functions_from-gap (l ∷ gap) rest above (suc fuel) left h e =
    rw h.0.0 (functions_from-gap gap rest (l ∷ above) fuel left h.1 (omega arith))

take_body-body :
    (body passed rest : List Text) (e : Text)
    → All (λ l. is_function_end l ≡ false) body
    → is_function_end e ≡ true
    → take_body passed (body ++ (e ∷ rest))
      ≡ ok (record {
        func_code = keep (λ l. not (is_cfi_directive l)) body;
        passed = e ∷ onto body passed;
        behind = rest;
      })
unfolding take_body
take_body-body [] passed rest e h is_end = rw is_end
take_body-body (l ∷ body) passed rest e h is_end =
    rw (h.0, take_body-body body (l ∷ passed) rest e h.1 is_end) (ground arith)

-- Above a function there is always a line.
onto-cons :
    (ls : List Text) (t : Text) (ts : List Text)
    → (u : Text) × (us : List Text) × (onto ls (t ∷ ts) ≡ u ∷ us)
onto-cons [] t ts = (t, ts, refl)
onto-cons (l ∷ ls) t ts = onto-cons ls l (t ∷ ts)

end_line-IsFloor :
    (e u : Text) (us : List Text) → is_function_end e ≡ true → IsFloor (scan_up (e ∷ u ∷ us))
unfolding scan_up
end_line-IsFloor e u us h =
    rw (is_function_end-rodata_start e h, h, is_function_end-string_bytes e h) (refl, refl)

start-scan :
    (start u : Text) (us : List Text)
    → is_function_start start ≡ true
    → scan_up (start ∷ u ∷ us) ≡ scan_up (u ∷ us)
unfolding scan_up
start-scan start u us h =
    rw
      (
        is_function_start-rodata_start start h,
        is_function_start-end start h,
        is_function_start-string_bytes start h,
        is_function_start-skipped start h,
        zero-add,
      )
      refl

All-reverse : (P : Text → Type 0) (ls : List Text) → All P ls → All P (reverse ls)
All-reverse P [] a = tt
All-reverse P (l ∷ ls) a =
    rw reverse-cons (All-append P (reverse ls) (l ∷ []) (All-reverse P ls a.1) (a.0, tt))

All-ends :
    (ls : List Text)
    → All (λ l. (is_function_start l ≡ false) × (is_function_end l ≡ false)) ls
    → All (λ l. is_function_end l ≡ false) ls
All-ends [] a = tt
All-ends (l ∷ ls) a = (a.0.1, All-ends ls a.1)

gap-Finds :
    (gap : List Text) (start t : Text) (ts : List Text)
    → All (λ l. (is_function_start l ≡ false) × (is_function_end l ≡ false)) gap
    → is_function_start start ≡ true
    → IsFloor (scan_up (t ∷ ts))
    → Finds (last_section gap) (scan_up (start ∷ onto gap (t ∷ ts)))
gap-Finds gap start t ts plain is_start floor =
    let (u, us, q) = onto-cons gap t ts in
    let found : Finds (last_section (reverse (reverse gap))) (scan_up (reverse gap ++ (t ∷ ts))) =
      scan_up-Finds (reverse gap) t ts (All-reverse _ gap (All-ends gap plain)) floor in
    let here : Finds (last_section gap) (scan_up (u ∷ us)) =
      rw (reverse-reverse, ← onto-reverse gap (t ∷ ts), q) at found in
    rw (q, start-scan start u us is_start) here

take_function-part :
    (p : Part) (k : ℕ) (t : Text) (ts rest : List Text) (f : Found)
    → IsPart p
    → IsFloor (scan_up (t ∷ ts))
    → functions_from k (p.end_line ∷ onto p.body (p.label ∷ p.start ∷ onto p.gap (t ∷ ts))) rest
      ≡ ok f
    → take_function
        (functions_from k)
        p.start
        (onto p.gap (t ∷ ts))
        (p.label ∷ (p.body ++ (p.end_line ∷ rest)))
      ≡ ok (record {
        functions = part_function p ∷ f.functions;
        total_rodata_len = total_bytes (last_section p.gap).0 + f.total_rodata_len;
      })
unfolding take_function
take_function-part p k t ts rest f part floor next =
    let found = gap-Finds p.gap p.start t ts part.gap_plain part.is_start floor in
    rw
      (
        take_body-body p.body (p.label ∷ p.start ∷ onto p.gap (t ∷ ts)) rest p.end_line
            part.body_open part.is_end,
        next,
        rodata_lines-Finds (last_section p.gap) (scan_up (p.start ∷ onto p.gap (t ∷ ts))) found,
        found.sees,
      )
      refl

functions_from-tail :
    (tail above : List Text) (fuel : ℕ)
    → All (λ l. is_function_start l ≡ false) tail
    → length tail < fuel
    → functions_from fuel above tail ≡ ok (record { functions = []; total_rodata_len = 0 })
unfolding functions_from
functions_from-tail tail above zero h l = absurd (omega arith)
functions_from-tail [] above (suc fuel) h l = refl
functions_from-tail (t ∷ tail) above (suc fuel) h l =
    rw h.0 (functions_from-tail tail (t ∷ above) fuel h.1 (omega arith))

functions_from-start :
    (k : ℕ) (above : List Text) (line : Text) (lines : List Text)
    → is_function_start line ≡ true
    → functions_from (suc k) above (line ∷ lines)
      ≡ take_function (functions_from k) line above lines
functions_from-start k above line lines h = unfold functions_from in rw h refl

functions_from-parts :
    (ps : List Part) (tail : List Text) (t : Text) (ts : List Text) (fuel : ℕ)
    → All IsPart ps
    → All (λ l. is_function_start l ≡ false) tail
    → IsFloor (scan_up (t ∷ ts))
    → length (lines_of ps tail) < fuel
    → functions_from fuel (t ∷ ts) (lines_of ps tail) ≡ ok (parts_found ps)
functions_from-parts [] tail t ts fuel h plain floor enough =
    functions_from-tail tail (t ∷ ts) fuel plain enough
functions_from-parts (p ∷ ps) tail t ts fuel h plain floor enough =
    let rest = lines_of ps tail in
    let k = fuel - length p.gap - 1 in
    let (u, us, q) = onto-cons p.body p.label (p.start ∷ onto p.gap (t ∷ ts)) in
    let size : length (p.gap ++ (p.start ∷ p.label ∷ (p.body ++ (p.end_line ∷ rest))))
        ≡ length p.gap + (2 + length p.body + 1 + length rest) =
      omega (
        arith,
        length-append p.gap (p.start ∷ p.label ∷ (p.body ++ (p.end_line ∷ rest))),
        length-append p.body (p.end_line ∷ rest),
      ) in
    functions_from-gap p.gap (p.start ∷ p.label ∷ (p.body ++ (p.end_line ∷ rest))) (t ∷ ts) fuel
      (suc k) h.0.gap_plain (omega arith)
    ∙ functions_from-start k (onto p.gap (t ∷ ts)) p.start _ h.0.is_start
    ∙ take_function-part p k t ts rest (parts_found ps) h.0 floor (
        rw q (
          functions_from-parts ps tail p.end_line (u ∷ us) k h.1 plain
            (end_line-IsFloor p.end_line u us h.0.is_end) (omega arith)))

header-IsFloor : (header : Text) → IsFloor (scan_up (header ∷ []))
unfolding scan_up
header-IsFloor header = (refl, refl)

functions_from-header :
    (header : Text) (lines : List Text) (f : Found)
    → is_function_start header ≡ false
    → functions_from (suc (length lines)) (header ∷ []) lines ≡ ok f
    → functions_from (suc (length (header ∷ lines))) [] (header ∷ lines) ≡ ok f
functions_from-header header lines f h e = unfold functions_from in rw h e

-- A file with a first line, functions with what belongs to them and a rest gives the functions as
-- they are described, one file for each in turn, and the file with the number of bytes. The first
-- line and the rest start no function.
pub parse_assembly-parts :
    (file : List Text) (header : Text) (ps : List Part) (tail : List Text)
    → map rstrip file ≡ header ∷ lines_of ps tail
    → is_function_start header ≡ false
    → All IsPart ps
    → All (λ l. is_function_start l ≡ false) tail
    → parse_assembly file
      ≡ ok (
          function_files 0 (parts_found ps).functions
          ++ record {
            name = codes "added_bytes_rodata";
            contents = decimal (parts_found ps).total_rodata_len;
          }
            ∷ [])
unfolding parse_assembly find_functions
parse_assembly-parts file header ps tail lines plain_header h plain =
    rw
      (
        lines,
        functions_from-header header (lines_of ps tail) (parts_found ps) plain_header (
            functions_from-parts ps tail header [] (suc (length (lines_of ps tail))) h plain
              (header-IsFloor header) (omega arith)),
      )
      refl
