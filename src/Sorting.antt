-- ===== src/Sorting.antt =====
-- Python's `sorted(items, key=...)`: ascending by the key, and stable.
pub mod Canonical
pub mod Distinct
use pe_ar_honours.Prelude.{ℕ, Bool, List, [], ◌∷◌, leb, if◌then◌else◌}

module _ {ℓ} {A : Type ℓ} (key : A → ℕ) where
  -- Puts `x` in front of the first element whose key is not smaller.
  unfoldable pub insert : A → List A → List A
  insert x [] = x ∷ []
  insert x (y ∷ ys) = if leb (key x) (key y) then x ∷ y ∷ ys else y ∷ insert x ys

  unfoldable pub sorted : List A → List A
  unfolding insert
  sorted [] = []
  sorted (x ∷ xs) = insert x (sorted xs)
