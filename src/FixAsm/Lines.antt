-- ===== src/FixAsm/Lines.antt =====
-- The lines of the file stay what they are, but for the braces of the instruction.
use pe_ar_honours.Prelude.{
  ℕ, ◌≡◌, ◌≢◌, refl, ◌∙◌, ap, true, false, ◌⊎◌, inl, inr, List, [], ◌∷◌, ◌++◌, map, ◌==◌,
  if◌then◌else◌, All, arith, Bool-cases,
}
use mathlib.Core.Bool.{false≢true}
use pe_ar_honours.Text.{Text, codes, remove_all, starts_with}
use pe_ar_honours.FixAsm.{
  split_lines, prepend, contains, instruction, open_brace, fix_line, join, fixup,
}

-- `s.replace('}', '')` leaves out the character.
without : Text → Text
without [] = []
without (c ∷ s) = let rest = without s in if b'}' == c then rest else c ∷ rest

remove_all-without : (s : Text) → remove_all (codes "}") s ≡ without s
unfolding remove_all without
remove_all-without [] = refl
remove_all-without (c ∷ s) = ground (arith, remove_all-without s)

-- One line break, at the end.
abbrev IsLine : Text → Type 0
IsLine [] = ⊥
IsLine (c ∷ []) = c ≡ b'\n'
IsLine (c ∷ d ∷ s) = (c ≢ b'\n') × IsLine (d ∷ s)

-- No line break, and not empty.
abbrev IsLast : Text → Type 0
IsLast [] = ⊥
IsLast (c ∷ s) = All (λ d. d ≢ b'\n') (c ∷ s)

-- Lines, of which the last one may have no line break.
abbrev AreLines : List Text → Type 0
AreLines [] = Unit
AreLines (l ∷ []) = IsLine l ⊎ IsLast l
AreLines (l ∷ k ∷ ls) = IsLine l × AreLines (k ∷ ls)

prepend-AreLines : (c : ℕ) (ls : List Text) → c ≢ b'\n' → AreLines ls → AreLines (prepend c ls)
unfolding prepend
prepend-AreLines c [] h a = inr (h, tt)
prepend-AreLines c ((d ∷ l) ∷ []) h (inl line) = inl (h, line)
prepend-AreLines c ((d ∷ l) ∷ []) h (inr last) = inr (h, last)
prepend-AreLines c ((d ∷ l) ∷ k ∷ ls) h a = ((h, a.0), a.1)
prepend-AreLines c ([] ∷ []) h (inl line) = absurd line
prepend-AreLines c ([] ∷ []) h (inr last) = absurd last
prepend-AreLines c ([] ∷ k ∷ ls) h a = absurd a.0

cons-AreLines : (l : Text) (ls : List Text) → IsLine l → AreLines ls → AreLines (l ∷ ls)
cons-AreLines l [] h a = inl h
cons-AreLines l (k ∷ ls) h a = (h, a)

split_lines-AreLines : (s : Text) → AreLines (split_lines s)
unfolding split_lines
split_lines-AreLines [] = tt
split_lines-AreLines (c ∷ s) = elim (Bool-cases (c == b'\n')) [
  | inl break ↦
      rw break (cons-AreLines (c ∷ []) (split_lines s) (ground arith) (split_lines-AreLines s))
  | inr other ↦
      rw other (prepend-AreLines c (split_lines s) (λ e. ground arith) (split_lines-AreLines s))
]

split_lines-line : (l rest : Text) → IsLine l → split_lines (l ++ rest) ≡ l ∷ split_lines rest
unfolding split_lines prepend
split_lines-line [] rest h = absurd h
split_lines-line (c ∷ []) rest h = ground arith
split_lines-line (c ∷ d ∷ l) rest h = ground (arith, split_lines-line (d ∷ l) rest h.1)

split_lines-last : (l : Text) → IsLast l → split_lines (l ++ []) ≡ l ∷ []
unfolding split_lines prepend
split_lines-last [] h = absurd h
split_lines-last (c ∷ []) h = ground arith
split_lines-last (c ∷ d ∷ l) h = ground (arith, split_lines-last (d ∷ l) h.1)

split_lines-join : (ls : List Text) → AreLines ls → split_lines (join ls) ≡ ls
unfolding join
split_lines-join [] a = unfold split_lines in refl
split_lines-join (l ∷ []) (inl line) = split_lines-line l [] line ∙ (unfold split_lines in refl)
split_lines-join (l ∷ []) (inr last) = split_lines-last l last
split_lines-join (l ∷ k ∷ ls) a =
    split_lines-line l (join (k ∷ ls)) a.0 ∙ ap (λ rest. l ∷ rest) (split_lines-join (k ∷ ls) a.1)

-- A line of the instruction, as it is written.
fixed : Text → Text
fixed l = map open_brace (without l)

cons-IsLine : (c : ℕ) (l : Text) → c ≢ b'\n' → IsLine l → IsLine (c ∷ l)
cons-IsLine c [] h line = absurd line
cons-IsLine c (d ∷ l) h line = (h, line)

open_brace-ne : (c : ℕ) → c ≢ b'\n' → open_brace c ≢ b'\n'
unfolding open_brace
open_brace-ne c h e = ground arith

fixed-IsLine : (l : Text) → IsLine l → IsLine (fixed l)
unfolding fixed without open_brace
fixed-IsLine [] h = absurd h
fixed-IsLine (c ∷ []) h = ground arith
fixed-IsLine (c ∷ d ∷ l) h = elim (Bool-cases (b'}' == c)) [
  | inl brace ↦ rw brace (fixed-IsLine (d ∷ l) h.1)
  | inr other ↦
      rw other (
        cons-IsLine (open_brace c) (fixed (d ∷ l)) (open_brace-ne c h.0) (fixed-IsLine (d ∷ l) h.1))
]

fixed-All : (l : Text) → All (λ c. c ≢ b'\n') l → All (λ c. c ≢ b'\n') (fixed l)
unfolding fixed without open_brace
fixed-All [] h = tt
fixed-All (c ∷ l) h = elim (Bool-cases (b'}' == c)) [
  | inl brace ↦ rw brace (fixed-All l h.1)
  | inr other ↦ rw other ((λ e. ground (arith, h.0)), fixed-All l h.1)
]

no_braces : (l : Text) → All (λ c. (c ≢ b'{') × (c ≢ b'}')) (fixed l)
unfolding fixed without open_brace
no_braces [] = tt
no_braces (c ∷ l) = elim (Bool-cases (b'}' == c)) [
  | inl brace ↦ rw brace (no_braces l)
  | inr other ↦ rw other (((λ e. ground arith), (λ e. ground arith)), no_braces l)
]

not_at_brace : (c : ℕ) (l : Text) → (b'}' == c) ≡ true → starts_with instruction (c ∷ l) ≡ false
unfolding starts_with
not_at_brace c l h = let e : (b'v' == c) ≡ false = ground arith in rw e refl

-- The letter `v` stays.
fixed-nonempty :
    (l : Text) → contains instruction l ≡ true → (c : ℕ) × (m : Text) × (fixed l ≡ c ∷ m)
unfolding fixed without contains
fixed-nonempty [] h = absurd (unfold starts_with in cc)
fixed-nonempty (c ∷ l) h = elim (Bool-cases (b'}' == c)) [
  | inl brace ↦ rw brace (fixed-nonempty l (rw (not_at_brace c l brace) at h))
  | inr other ↦ rw other (open_brace c, map open_brace (without l), refl)
]

fix_line-fixed : (l : Text) → fix_line l ≡ (if contains instruction l then fixed l else l)
unfolding fix_line fixed
fix_line-fixed l = rw (remove_all-without l) refl

fix_line-IsLine : (l : Text) → IsLine l → IsLine (fix_line l)
fix_line-IsLine l h = elim (Bool-cases (contains instruction l)) [
  | inl has ↦ rw (fix_line-fixed l, has) (fixed-IsLine l h)
  | inr other ↦ rw (fix_line-fixed l, other) h
]

IsLast-parts : (l : Text) → IsLast l → All (λ c. c ≢ b'\n') l
IsLast-parts [] h = absurd h
IsLast-parts (c ∷ l) h = h

nonempty-IsLast : (c : ℕ) (m l : Text) → l ≡ c ∷ m → All (λ d. d ≢ b'\n') l → IsLast l
nonempty-IsLast c m [] e a = absurd (cc)
nonempty-IsLast c m (d ∷ l) e a = a

fix_line-IsLast : (l : Text) → IsLast l → IsLast (fix_line l)
fix_line-IsLast l h = elim (Bool-cases (contains instruction l)) [
  | inl has ↦
      let (c, m, e) = fixed-nonempty l has in
      rw (fix_line-fixed l, has) (nonempty-IsLast c m (fixed l) e (fixed-All l (IsLast-parts l h)))
  | inr other ↦ rw (fix_line-fixed l, other) h
]

map-AreLines : (ls : List Text) → AreLines ls → AreLines (map fix_line ls)
map-AreLines [] a = tt
map-AreLines (l ∷ []) (inl line) = inl (fix_line-IsLine l line)
map-AreLines (l ∷ []) (inr last) = inr (fix_line-IsLast l last)
map-AreLines (l ∷ k ∷ ls) a = (fix_line-IsLine l a.0, map-AreLines (k ∷ ls) a.1)

-- A line of the instruction has no braces.
abbrev pub IsFixed : Text → Type 0
IsFixed l = contains instruction l ≡ true → All (λ c. (c ≢ b'{') × (c ≢ b'}')) l

fix_line-IsFixed : (l : Text) → IsFixed (fix_line l)
fix_line-IsFixed l = elim (Bool-cases (contains instruction l)) [
  | inl has ↦ rw (fix_line-fixed l, has) (λ h. no_braces l)
  | inr other ↦ rw (fix_line-fixed l, other) (λ h. absurd (false≢true (rw other at h)))
]

map-IsFixed : (ls : List Text) → All IsFixed (map fix_line ls)
map-IsFixed [] = tt
map-IsFixed (l ∷ ls) = (fix_line-IsFixed l, map-IsFixed ls)

-- The lines of the result are those of the file, one for one, each as `fix_line` leaves it, and none
-- that has the instruction has a brace.
pub split_lines-fixup :
    (text : Text)
    → (split_lines (fixup text) ≡ map fix_line (split_lines text))
      × All IsFixed (split_lines (fixup text))
unfolding fixup
split_lines-fixup text =
    let same = split_lines-join _ (map-AreLines (split_lines text) (split_lines-AreLines text)) in
    (same, rw same (map-IsFixed (split_lines text)))
