-- ===== src/Text.antt =====
-- Texts as lists of code points, and the string methods of Python that the programs call.
pub mod Laws
use Prim.Native.Char.{code}
use Prim.Native.String.{String}
use pe_ar_honours.Prelude.{
  ℕ, ◌-◌, Bool, true, false, not, ◌&&◌, ◌||◌, List, [], ◌∷◌, ◌==◌, if◌then◌else◌, length, any,
}
use mathlib.Core.List.{reverse}

abbrev pub Text : Type 0
Text = List ℕ

abbrev pub codes : String → Text
codes String.[] = []
codes (String.◌∷◌ c s) = code c ∷ codes s

-- `==`
unfoldable pub text_eq : Text → Text → Bool
text_eq [] [] = true
text_eq (c ∷ s) (d ∷ t) = c == d && text_eq s t
text_eq _ _ = false

-- `s.startswith(p)`, with the prefix first.
unfoldable pub starts_with : Text → Text → Bool
starts_with [] s = true
starts_with (c ∷ p) [] = false
starts_with (c ∷ p) (d ∷ s) = c == d && starts_with p s

-- `s.lstrip(chars)`
unfoldable pub strip_left : (ℕ → Bool) → Text → Text
strip_left drops [] = []
strip_left drops (c ∷ s) = let rest = strip_left drops s in if drops c then rest else c ∷ s

-- `s.strip(chars)`
unfoldable pub strip : (ℕ → Bool) → Text → Text
unfolding strip_left
strip drops s = reverse (strip_left drops (reverse (strip_left drops s)))

-- The rest of `s.replace(p, '')`, while `n` characters of an occurrence are still to be skipped.
unfoldable pub remove_from : ℕ → Text → Text → Text
unfolding starts_with
remove_from n p [] = []
remove_from n p (c ∷ s) =
    let skipped = remove_from (n - 1) p s in
    let found = remove_from (length p - 1) p s in
    let kept = c ∷ remove_from 0 p s in
    if not (n == 0) then skipped else if starts_with p (c ∷ s) then found else kept

-- `s.replace(p, '')`
unfoldable pub remove_all : Text → Text → Text
unfolding remove_from
remove_all p s = remove_from 0 p s
