-- ===== src/Text/Laws.antt =====
-- Laws of the string methods.
use pe_ar_honours.Prelude.{
  ℕ, ◌≡◌, refl, ◌↔◌, Bool, true, false, [], ◌∷◌, arith, All, All-append, ◌==◌,
}
use pe_ar_honours.Text.{Text, text_eq, strip_left, strip, remove_all}
use mathlib.Core.List.{reverse, reverse-reverse, reverse-cons}

pub text_eq_iff : (s t : Text) → (text_eq s t ≡ true) ↔ (s ≡ t)
unfolding text_eq
text_eq_iff [] [] = ground arith
text_eq_iff (c ∷ s) (d ∷ t) = ground (arith, text_eq_iff s t)
text_eq_iff [] (d ∷ t) = ground arith
text_eq_iff (c ∷ s) [] = ground arith

All-reverse : (P : ℕ → Type 0) (s : Text) → All P s → All P (reverse s)
All-reverse P [] a = tt
All-reverse P (c ∷ s) a =
    rw reverse-cons (All-append P (reverse s) (c ∷ []) (All-reverse P s a.1) (a.0, tt))

strip_left_none :
    (drops : ℕ → Bool) (s : Text) → All (λ c. drops c ≡ false) s → strip_left drops s ≡ s
unfolding strip_left
strip_left_none drops [] a = refl
strip_left_none drops (c ∷ s) a = rw a.0

-- A text with none of the characters is not changed.
pub strip_none : (drops : ℕ → Bool) (s : Text) → All (λ c. drops c ≡ false) s → strip drops s ≡ s
unfolding strip
strip_none drops s a = rw (
  strip_left_none drops s a,
  strip_left_none drops (reverse s) (All-reverse _ s a),
  reverse-reverse,
)

-- A text without the first character of `p` has no occurrence of `p`.
pub remove_all_none :
    (d : ℕ) (p s : Text) → All (λ c. (d == c) ≡ false) s → remove_all (d ∷ p) s ≡ s
unfolding remove_all
remove_all_none d p [] a = refl
remove_all_none d p (c ∷ s) a = ground (arith, remove_all_none d p s)
