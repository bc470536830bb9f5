-- ===== src/ParseAssembly/Lines.antt =====
-- The regular expressions of instrumentation/parse_assembly.py, over lines without a line break.
use pe_ar_honours.Prelude.{
  ℕ, ◌+◌, Bool, true, false, not, ◌&&◌, ◌||◌, Option, none, some, [], ◌∷◌, ◌==◌, leb, if◌then◌else◌,
  length,
}
use mathlib.Core.List.{reverse}
use pe_ar_honours.Text.{Text, codes, starts_with, strip_left}
use pe_ar_honours.Number.{is_space}

-- `line.rstrip()`
unfoldable pub rstrip : Text → Text
unfolding strip_left is_space
rstrip line = reverse (strip_left is_space (reverse line))

-- `\W` on ASCII: neither a letter nor a digit nor an underscore.
unfoldable pub non_word : ℕ → Bool
non_word c =
    not (
      leb b'a' c && leb c b'z' || leb b'A' c && leb c b'Z' || leb b'0' c && leb c b'9' || c == b'_')

-- What follows the word that the text starts with.
unfoldable pub after_word : Text → Text → Option Text
after_word [] s = some s
after_word (c ∷ w) [] = none
after_word (c ∷ w) (d ∷ s) = let rest = after_word w s in if c == d then rest else none

-- The rest of a match: the next part is tried on what follows.
unfoldable pub followed : (Text → Bool) → Option Text → Bool
followed next none = false
followed next (some s) = next s

-- `\W*`, the word, and the next part.
unfoldable pub matches : Text → (Text → Bool) → Text → Bool
unfolding non_word after_word followed
matches word next [] = false
matches word next (c ∷ s) =
    followed next (after_word word (c ∷ s)) || (non_word c && matches word next s)

unfoldable pub anything : Text → Bool
anything s = true

-- `.*function`
unfoldable pub contains_function : Text → Bool
contains_function [] = false
contains_function (c ∷ s) = starts_with (codes "function") (c ∷ s) || contains_function s

-- re_function_start, re_function_end, re_cfi_directive, re_rodata_start, re_type_directive,
-- re_text_section, re_align_directive
unfoldable pub is_function_start : Text → Bool
unfolding contains_function matches starts_with
is_function_start = matches (codes ".type") contains_function

unfoldable pub is_function_end : Text → Bool
unfolding matches anything
is_function_end = matches (codes ".cfi_endproc") anything

unfoldable pub is_cfi_directive : Text → Bool
unfolding matches anything
is_cfi_directive = matches (codes ".cfi") anything

unfoldable pub is_rodata_start : Text → Bool
unfolding matches anything
is_rodata_start = matches (codes ".section") (matches (codes ".rodata") anything)

unfoldable pub is_type_directive : Text → Bool
unfolding matches anything
is_type_directive = matches (codes ".type") anything

unfoldable pub is_text_section : Text → Bool
unfolding matches anything
is_text_section = matches (codes ".text") anything

unfoldable pub is_align_directive : Text → Bool
unfolding matches anything
is_align_directive = matches (codes ".align") anything

-- The lines that are left out of the read-only data.
unfoldable pub is_skipped : Text → Bool
unfolding is_type_directive is_text_section is_align_directive
is_skipped line = is_type_directive line || is_text_section line || is_align_directive line

-- `(.*)"$`: all but the last character, if that is a quotation mark.
unfoldable pub closed : Text → Option Text
closed [] = none
closed (c ∷ []) = if c == b'"' then some [] else none
closed (c ∷ d ∷ s) = elim (closed (d ∷ s)) [ none ↦ none | some t ↦ some (c ∷ t) ]

unfoldable pub first_of : Option Text → Option Text → Option Text
first_of none other = other
first_of (some t) other = some t

-- `\W*"(.*)"$`, with as many characters before the quotation mark as possible.
unfoldable pub quoted : Text → Option Text
unfolding non_word closed first_of
quoted [] = none
quoted (c ∷ s) =
    let later = quoted s in
    first_of (if non_word c then later else none) (if c == b'"' then closed s else none)

unfoldable pub quoted_after : Option Text → Option Text
quoted_after none = none
quoted_after (some s) = quoted s

-- The group of re_string, `^\W*\.string\W*"(.*)"$`.
unfoldable pub string_group : Text → Option Text
unfolding non_word quoted quoted_after first_of after_word
string_group [] = none
string_group (c ∷ s) =
    let later = string_group s in
    first_of (if non_word c then later else none)
      (quoted_after (after_word (codes ".string") (c ∷ s)))

-- `s.replace('\\n', '\n')`
unfoldable pub replace_newlines : Text → Text
replace_newlines [] = []
replace_newlines (c ∷ []) = c ∷ []
replace_newlines (c ∷ d ∷ s) =
    let found = b'\n' ∷ replace_newlines s in
    let kept = c ∷ replace_newlines (d ∷ s) in if c == b'\\' && d == b'n' then found else kept

group_bytes : Option Text → ℕ
group_bytes none = 0
group_bytes (some s) = length (replace_newlines s) + 1

-- What a line adds to `total_rodata_len`.
unfoldable pub string_bytes : Text → ℕ
unfolding string_group replace_newlines group_bytes
string_bytes line = group_bytes (string_group line)
