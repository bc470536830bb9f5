-- ===== src/FixAsm.antt =====
-- scripts/fix-vpcmpnleuq-asm.py: the braces of one instruction are taken out of an assembly file.
pub mod Lines
mod Tests
use pe_ar_honours.Prelude.{
  ℕ, Bool, true, false, ◌||◌, List, [], ◌∷◌, ◌++◌, map, ◌==◌, if◌then◌else◌,
}
use pe_ar_honours.Text.{Text, codes, starts_with, remove_all}

prepend : ℕ → List Text → List Text
prepend c [] = (c ∷ []) ∷ []
prepend c (l ∷ ls) = (c ∷ l) ∷ ls

-- `for line in f`: the lines, each with its line break.
unfoldable pub split_lines : Text → List Text
unfolding prepend
split_lines [] = []
split_lines (c ∷ s) =
    let rest = split_lines s in if c == b'\n' then (c ∷ []) ∷ rest else prepend c rest

-- `word in text`
unfoldable pub contains : Text → Text → Bool
unfolding starts_with
contains word [] = starts_with word []
contains word (c ∷ s) = starts_with word (c ∷ s) || contains word s

abbrev pub instruction : Text
instruction = codes "vpcmpnleuq"

-- `line.replace('{', ',')`, for one character.
unfoldable pub open_brace : ℕ → ℕ
open_brace c = if c == b'{' then b',' else c

unfoldable pub fix_line : Text → Text
unfolding remove_all open_brace
fix_line line =
    if contains instruction line then map open_brace (remove_all (codes "}") line) else line

-- `new += line`, over the lines.
unfoldable pub join : List Text → Text
join [] = []
join (l ∷ ls) = l ++ join ls

-- What is written to the second file, from the text of the first.
unfoldable pub fixup : Text → Text
unfolding join split_lines fix_line
fixup text = join (map fix_line (split_lines text))
