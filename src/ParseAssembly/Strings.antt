-- ===== src/ParseAssembly/Strings.antt =====
-- The number of bytes that is counted for a line with a string, as a compiler writes it.
use pe_ar_honours.Prelude.{
  ℕ, suc, ◌+◌, ◌≡◌, refl, ◌∙◌, ap, arith, Bool, true, false, not, none, some, [], ◌∷◌, ◌++◌, ◌==◌,
  if◌then◌else◌, All, length, ==_iff, sym, Bool-cases, inl, inr,
}
use pe_ar_honours.Text.{Text, codes}
use pe_ar_honours.ParseAssembly.Lines.{
  non_word, after_word, closed, first_of, quoted, quoted_after, string_group, replace_newlines,
  string_bytes,
}

-- A text in a string literal, if it has no characters that need another escape.
abbrev pub escaped : Text → Text
escaped [] = []
escaped (c ∷ s) = if c == b'\n' then b'\\' ∷ b'n' ∷ escaped s else c ∷ escaped s

-- The line `.string "..."`, behind a tab.
abbrev pub string_line : Text → Text
string_line s = b'\t' ∷ (codes ".string" ++ (b'\t' ∷ b'"' ∷ (escaped s ++ b'"' ∷ [])))

abbrev pub IsPlain : ℕ → Type 0
IsPlain c = ((c == b'\\') ≡ false) × ((c == b'"') ≡ false)

closed-append : (s : Text) → closed (s ++ b'"' ∷ []) ≡ some s
unfolding closed
closed-append [] = refl
closed-append (c ∷ []) = refl
closed-append (c ∷ d ∷ s) = rw (closed-append (d ∷ s)) refl

replace_newlines-other :
    (c : ℕ) (s : Text) → (c == b'\\') ≡ false → replace_newlines (c ∷ s) ≡ c ∷ replace_newlines s
unfolding replace_newlines
replace_newlines-other c [] h = refl
replace_newlines-other c (d ∷ s) h = rw h refl

length-replace_newlines :
    (s : Text) → All IsPlain s → length (replace_newlines (escaped s)) ≡ length s
unfolding replace_newlines
length-replace_newlines [] h = refl
length-replace_newlines (c ∷ s) h = elim (Bool-cases (c == b'\n')) [
  | inl line_break ↦ rw line_break (ap (λ n. suc n) (length-replace_newlines s h.1))
  | inr other ↦ rw other (
      ap length (replace_newlines-other c (escaped s) h.0.0)
      ∙ ap (λ n. suc n) (length-replace_newlines s h.1))
]

-- A text that is empty or starts with a letter, a digit or an underscore.
abbrev pub starts_word : Text → Bool
starts_word [] = true
starts_word (c ∷ s) = not (non_word c)

not_word : (c d : ℕ) → non_word c ≡ false → non_word d ≡ true → (c == d) ≡ false
not_word c d h k = elim (Bool-cases (c == d)) [
  | inl same ↦ let both : true ≡ false = sym k ∙ ap non_word (sym ((==_iff c d).0 same)) ∙ h in cc
  | inr other ↦ other
]

quoted-word : (c : ℕ) (s : Text) → non_word c ≡ false → quoted (c ∷ s) ≡ none
unfolding quoted first_of
quoted-word c s h = rw (h, not_word c b'"' h refl) refl

group-string_line :
    (s : Text)
    → starts_word s ≡ true
    → All IsPlain s
    → string_group (string_line s) ≡ some (escaped s)
unfolding string_group quoted_after after_word first_of quoted non_word
group-string_line [] h k = refl
group-string_line (c ∷ s) h k =
    let word : non_word c ≡ false = ground arith in
    rw
      (
        not_word c b'\n' word refl,
        quoted-word c (escaped s ++ b'"' ∷ []) word,
        closed-append (c ∷ escaped s),
      )
      refl

-- The line of a text that is empty or starts with a letter, a digit or an underscore, and has neither
-- a quotation mark nor a backslash, with its line breaks as `\n`, counts the characters of the text and
-- the 0 at its end.
pub string_bytes-string_line :
    (s : Text) → starts_word s ≡ true → All IsPlain s → string_bytes (string_line s) ≡ length s + 1
unfolding string_bytes
string_bytes-string_line s h k =
    rw (group-string_line s h k) (ap (λ n. n + 1) (length-replace_newlines s k))
