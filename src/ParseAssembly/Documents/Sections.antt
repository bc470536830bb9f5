-- ===== src/ParseAssembly/Documents/Sections.antt =====
-- The search upwards finds the last read-only section of the lines above.
use pe_ar_honours.Prelude.{
  ◌+◌, ◌≡◌, refl, sym, ◌∙◌, ap, Bool, true, false, not, List, [], ◌∷◌, ◌++◌, if◌then◌else◌, keep,
  All, arith, Bool-cases, inl, inr,
}
use mathlib.Core.List.{reverse, reverse-cons, reverse-append, append-nil, reverse-reverse}
use pe_ar_honours.Text.{Text}
use pe_ar_honours.ParseAssembly.Lines.{is_function_end, is_rodata_start, is_skipped, string_bytes}
use pe_ar_honours.ParseAssembly.{Scan, scan_up, rodata_lines}
use pe_ar_honours.ParseAssembly.Documents.{last_section, total_bytes}

total_bytes-snoc :
    (ls : List Text) (l : Text) → total_bytes (ls ++ l ∷ []) ≡ string_bytes l + total_bytes ls
total_bytes-snoc [] l = omega arith
total_bytes-snoc (k ∷ ls) l = omega (arith, total_bytes-snoc ls l)

keep-snoc :
    (p : Text → Bool) (ls : List Text) (l : Text)
    → keep p (ls ++ l ∷ []) ≡ keep p ls ++ (if p l then l ∷ [] else [])
keep-snoc p [] l = refl
keep-snoc p (k ∷ ls) l = ground (arith, keep-snoc p ls l)

last_section-snoc :
    (ls : List Text) (l : Text)
    → last_section (ls ++ l ∷ []) ≡ (
        if is_rodata_start l
        then (l ∷ [], true)
        else ((last_section ls).0 ++ l ∷ [], (last_section ls).1))
last_section-snoc [] l = ground arith
last_section-snoc (k ∷ ls) l = ground (arith, last_section-snoc ls l)

-- One round of the search, over what the rest of it leaves.
round : Text → Scan → Scan
round line rest =
    let taken = if is_skipped line then [] else line ∷ [] in
    if is_rodata_start line
    then record { func_rodata = taken; bytes = string_bytes line; found_rodata = true }
    else if is_function_end line
    then record { func_rodata = taken; bytes = string_bytes line; found_rodata = false }
    else record {
      func_rodata = taken ++ rest.func_rodata;
      bytes = string_bytes line + rest.bytes;
      found_rodata = rest.found_rodata;
    }

scan_up-round :
    (line : Text) (ls : List Text) (t : Text) (ts : List Text)
    → scan_up (line ∷ (ls ++ (t ∷ ts))) ≡ round line (scan_up (ls ++ (t ∷ ts)))
unfolding scan_up round
scan_up-round line [] t ts = refl
scan_up-round line (l ∷ ls) t ts = refl

-- The search takes nothing from here.
abbrev pub IsFloor : Scan → Type 0
IsFloor s = (s.bytes ≡ 0) × (s.found_rodata ≡ false)

-- What the search leaves, if the lines hold this section.
pub record Finds (section : List Text × Bool) (s : Scan) : Type 0 where
  pub sees : s.bytes ≡ total_bytes section.0
  pub finds : s.found_rodata ≡ section.1
  pub takes : section.1 ≡ true → s.func_rodata ≡ reverse (keep (λ l. not (is_skipped l)) section.0)

reverse-snoc : (ls : List Text) (l : Text) → reverse (ls ++ l ∷ []) ≡ l ∷ reverse ls
reverse-snoc ls l = reverse-append ls (l ∷ [])

taken-reverse :
    (ls : List Text) (l : Text)
    → (if is_skipped l then [] else l ∷ []) ++ reverse (keep (λ k. not (is_skipped k)) ls)
      ≡ reverse (keep (λ k. not (is_skipped k)) (ls ++ l ∷ []))
taken-reverse ls l = elim (Bool-cases (is_skipped l)) [
  | inl skip ↦ rw (keep-snoc (λ k. not (is_skipped k)) ls l, skip, append-nil) refl
  | inr take ↦ rw (keep-snoc (λ k. not (is_skipped k)) ls l, take, reverse-snoc _ l) refl
]

round-Finds :
    (section : List Text × Bool) (line : Text) (s : Scan)
    → is_function_end line ≡ false
    → Finds section s
    → Finds
        (if is_rodata_start line then (line ∷ [], true) else (section.0 ++ line ∷ [], section.1))
        (round line s)
unfolding round
round-Finds section line s e f = elim (Bool-cases (is_rodata_start line)) [
  | inl start ↦ rw start (record {
    sees = omega arith;
    finds = refl;
    takes = λ q. sym (append-nil _) ∙ taken-reverse [] line;
  })
  | inr other ↦
      rw (other, e)
        (record {
          sees = omega (arith, total_bytes-snoc section.0 line, f.sees);
          finds = f.finds;
          takes = λ q.
              ap (λ ks. (if is_skipped line then [] else line ∷ []) ++ ks) (f.takes q)
              ∙ taken-reverse section.0 line;
        })
]

pub scan_up-Finds :
    (ls : List Text) (t : Text) (ts : List Text)
    → All (λ l. is_function_end l ≡ false) ls
    → IsFloor (scan_up (t ∷ ts))
    → Finds (last_section (reverse ls)) (scan_up (ls ++ (t ∷ ts)))
scan_up-Finds [] t ts h floor = record { sees = floor.0; finds = floor.1; takes = λ e. cc }
scan_up-Finds (l ∷ ls) t ts h floor =
    rw (reverse-cons, last_section-snoc (reverse ls) l, scan_up-round l ls t ts)
      (round-Finds (last_section (reverse ls)) l (scan_up (ls ++ (t ∷ ts))) h.0
        (scan_up-Finds ls t ts h.1 floor))

-- The lines that are written are those of the section.
pub rodata_lines-Finds :
    (section : List Text × Bool) (s : Scan)
    → Finds section s
    → rodata_lines s ≡ (if section.1 then keep (λ l. not (is_skipped l)) section.0 else [])
unfolding rodata_lines
rodata_lines-Finds section s f = elim (Bool-cases section.1) [
  | inl found ↦ rw (f.finds, found) (rw (f.takes found) (reverse-reverse _))
  | inr missing ↦ rw (f.finds, missing) refl
]
