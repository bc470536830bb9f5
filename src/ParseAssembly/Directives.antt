-- ===== src/ParseAssembly/Directives.antt =====
-- A line starts with at most one directive.
use pe_ar_honours.Prelude.{
  ℕ, ◌≡◌, ◌≢◌, refl, sym, ◌∙◌, Bool, true, false, Option, none, some, [], ◌∷◌, if◌then◌else◌, arith,
  Bool-cases, Option-cases, inl, inr,
}
use pe_ar_honours.Text.{Text, codes}
use pe_ar_honours.ParseAssembly.Lines.{
  non_word, after_word, followed, matches, anything, contains_function, first_of, quoted_after,
  is_function_start, is_function_end, is_rodata_start, is_skipped, is_type_directive, string_group,
  string_bytes,
}

-- The first character of a word.
first_letter : Text → Option ℕ
first_letter [] = none
first_letter (c ∷ s) = let later = first_letter s in if non_word c then later else some c

t_word : non_word b't' ≡ false
unfolding non_word
t_word = refl

c_word : non_word b'c' ≡ false
unfolding non_word
c_word = refl

s_word : non_word b's' ≡ false
unfolding non_word
s_word = refl

some-injective : {a b : ℕ} → some a ≡ some b → a ≡ b
some-injective e = cc

-- The first letter behind a directive's dot is the line's.
first_letter-after_word :
    (a : ℕ) (w s r : Text)
    → non_word a ≡ false
    → after_word (b'.' ∷ a ∷ w) s ≡ some r
    → first_letter s ≡ some a
unfolding first_letter after_word non_word
first_letter-after_word a w [] r h e = absurd (cc)
first_letter-after_word a w (c ∷ []) r h e = ground arith
first_letter-after_word a w (c ∷ d ∷ s) r h e = ground arith

first_letter-matches :
    (a : ℕ) (w : Text) (next : Text → Bool) (s : Text)
    → non_word a ≡ false
    → matches (b'.' ∷ a ∷ w) next s ≡ true
    → first_letter s ≡ some a
unfolding matches followed first_letter
first_letter-matches a w next [] h e = absurd (cc)
first_letter-matches a w next (c ∷ s) h e =
    elim (Option-cases (after_word (b'.' ∷ a ∷ w) (c ∷ s))) [
      | inl other ↦ ground (arith, first_letter-matches a w next s h, rw other at e)
      | inr (r, found) ↦ first_letter-after_word a w (c ∷ s) r h found
    ]

-- What the text behind the first letter's word is not: the directive of a string.
string_group-none :
    (a : ℕ) (s : Text)
    → non_word a ≡ false
    → a ≢ b's'
    → first_letter s ≡ some a
    → string_group s ≡ none
unfolding string_group first_letter first_of quoted_after
string_group-none a [] h ne e = refl
string_group-none a (c ∷ s) h ne e = elim (Option-cases (after_word (codes ".string") (c ∷ s))) [
  | inr (r, found) ↦ absurd (
      ne (
        some-injective
          (sym e ∙ first_letter-after_word b's' (codes "tring") (c ∷ s) r s_word found)))
  | inl other ↦ elim (Bool-cases (non_word c)) [
    | inl skipped ↦ rw (string_group-none a s h ne (rw skipped at e), skipped, other) refl
    | inr word ↦ rw (word, other) refl
  ]
]

start_letter : (s : Text) → is_function_start s ≡ true → first_letter s ≡ some b't'
unfolding is_function_start
start_letter s e = first_letter-matches b't' (codes "ype") contains_function s t_word e

end_letter : (s : Text) → is_function_end s ≡ true → first_letter s ≡ some b'c'
unfolding is_function_end
end_letter s e = first_letter-matches b'c' (codes "fi_endproc") anything s c_word e

rodata_letter : (s : Text) → is_rodata_start s ≡ true → first_letter s ≡ some b's'
unfolding is_rodata_start
rodata_letter s e = first_letter-matches b's' (codes "ection") _ s s_word e

-- Two tests that want different first letters.
other_letter :
    (a b : ℕ) (s : Text) (test : Bool)
    → a ≢ b
    → first_letter s ≡ some a
    → (test ≡ true → first_letter s ≡ some b)
    → test ≡ false
other_letter a b s true ne e f = absurd (ne (some-injective (sym e ∙ f refl)))
other_letter a b s false ne e f = refl

no_string :
    (a : ℕ) (s : Text)
    → non_word a ≡ false
    → a ≢ b's'
    → first_letter s ≡ some a
    → string_bytes s ≡ 0
unfolding string_bytes
no_string a s h ne e = rw (string_group-none a s h ne e) refl

pub is_function_start-string_bytes : (s : Text) → is_function_start s ≡ true → string_bytes s ≡ 0
is_function_start-string_bytes s e = no_string b't' s t_word (λ q. omega arith) (start_letter s e)

pub is_function_end-string_bytes : (s : Text) → is_function_end s ≡ true → string_bytes s ≡ 0
is_function_end-string_bytes s e = no_string b'c' s c_word (λ q. omega arith) (end_letter s e)

pub is_function_start-end : (s : Text) → is_function_start s ≡ true → is_function_end s ≡ false
is_function_start-end s e =
    other_letter b't' b'c' s (is_function_end s) (λ q. omega arith) (start_letter s e)
      (end_letter s)

pub is_function_start-rodata_start :
    (s : Text) → is_function_start s ≡ true → is_rodata_start s ≡ false
is_function_start-rodata_start s e =
    other_letter b't' b's' s (is_rodata_start s) (λ q. omega arith) (start_letter s e)
      (rodata_letter s)

pub is_function_end-rodata_start : (s : Text) → is_function_end s ≡ true → is_rodata_start s ≡ false
is_function_end-rodata_start s e =
    other_letter b'c' b's' s (is_rodata_start s) (λ q. omega arith) (end_letter s e)
      (rodata_letter s)

followed-anything :
    (next : Text → Bool) (r : Option Text) → followed next r ≡ true → followed anything r ≡ true
unfolding followed anything
followed-anything next none e = e
followed-anything next (some s) e = refl

matches-anything :
    (w : Text) (next : Text → Bool) (s : Text)
    → matches w next s ≡ true
    → matches w anything s ≡ true
unfolding matches
matches-anything w next [] e = e
matches-anything w next (c ∷ s) e =
    ground (arith, followed-anything next (after_word w (c ∷ s)), matches-anything w next s)

pub is_function_start-skipped : (s : Text) → is_function_start s ≡ true → is_skipped s ≡ true
unfolding is_function_start is_skipped is_type_directive
is_function_start-skipped s e = rw (matches-anything (codes ".type") contains_function s e) refl
