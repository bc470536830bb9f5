-- ===== src/Sorting/Canonical.antt =====
-- `sorted` gives an ascending rearrangement, and with distinct keys the order of its input does not
-- matter.
use pe_ar_honours.Prelude.{
  ℕ, ◌≤◌, ◌≡◌, refl, ◌∙◌, ◌≢◌, List, [], ◌∷◌, arith, leb, All, Bool-cases, inl, inr,
}
use mathlib.Core.List.{Permᴰ, Pairwise, Pairwise-cons, rel_of_Pairwise-cons, mem-cons_self}
use mathlib.Core.List.Permᴰ
use mathlib.Core.Path.{sym, ap₂}
use mathlib.Core.HLevel.{¬_prop}
use pe_ar_honours.Sorting.{insert, sorted}

module _ {ℓ} {A : Type ℓ} (key : A → ℕ) where
  -- Ascending by the key.
  abbrev pub IsAscending : List A → Type 0
  IsAscending [] = Unit
  IsAscending (x ∷ xs) = All (λ y. key x ≤ key y) xs × IsAscending xs

  insert-All :
      (n : ℕ) (x : A) (ys : List A)
      → n ≤ key x
      → All (λ y. n ≤ key y) ys
      → All (λ y. n ≤ key y) (insert key x ys)
  unfolding insert
  insert-All n x [] h a = (h, tt)
  insert-All n x (y ∷ ys) h a = ground (arith, insert-All n x ys h a.1)

  All-le : (m n : ℕ) (ys : List A) → m ≤ n → All (λ y. n ≤ key y) ys → All (λ y. m ≤ key y) ys
  All-le m n [] h a = tt
  All-le m n (y ∷ ys) h a = (omega arith, All-le m n ys h a.1)

  insert-IsAscending : (x : A) (ys : List A) → IsAscending ys → IsAscending (insert key x ys)
  unfolding insert
  insert-IsAscending x [] s = (tt, tt)
  insert-IsAscending x (y ∷ ys) s = elim (Bool-cases (leb (key x) (key y))) [
    | inl le ↦ rw le ((ground arith, All-le (key x) (key y) ys (ground arith) s.0), s)
    | inr gt ↦ rw gt (insert-All (key y) x ys (ground arith) s.0, insert-IsAscending x ys s.1)
  ]

  pub sorted-IsAscending : (xs : List A) → IsAscending (sorted key xs)
  unfolding sorted
  sorted-IsAscending [] = tt
  sorted-IsAscending (x ∷ xs) = insert-IsAscending x (sorted key xs) (sorted-IsAscending xs)

  insert-perm : (x : A) (ys : List A) → Permᴰ (insert key x ys) (x ∷ ys)
  unfolding insert
  insert-perm x [] = Permᴰ.refl _
  insert-perm x (y ∷ ys) = elim (Bool-cases (leb (key x) (key y))) [
    | inl le ↦ rw le (Permᴰ.refl _)
    | inr gt ↦ rw gt (Permᴰ.trans (Permᴰ.cons refl (insert-perm x ys)) (Permᴰ.swap refl refl))
  ]

  pub sorted-perm : (xs : List A) → Permᴰ (sorted key xs) xs
  unfolding sorted
  sorted-perm [] = Permᴰ.nil
  sorted-perm (x ∷ xs) = Permᴰ.trans (insert-perm x _) (Permᴰ.cons refl (sorted-perm xs))

  insert_comm :
      (x y : A) (l : List A)
      → key x ≢ key y
      → insert key x (insert key y l) ≡ insert key y (insert key x l)
  unfolding insert
  insert_comm x y [] h = ground arith
  insert_comm x y (z ∷ l) h = ground (arith, insert_comm x y l h)

  -- No two elements share a key.
  abbrev pub DistinctKeys : List A → Type ℓ
  DistinctKeys = Pairwise (λ a b. key a ≢ key b)

  -- Two lists of the same elements with distinct keys are sorted alike.
  pub sorted_canonicalᴰ : {l m : List A} → Permᴰ l m → DistinctKeys l → sorted key l ≡ sorted key m
  unfolding sorted
  sorted_canonicalᴰ Permᴰ.nil d = refl
  sorted_canonicalᴰ (Permᴰ.cons e p) d =
      ap₂ (insert key) e (sorted_canonicalᴰ p (Pairwise-cons.0 d).1)
  sorted_canonicalᴰ (Permᴰ.swap {a = a} {b = b} {l = l} e f) d =
      insert_comm a b (sorted key l) (rel_of_Pairwise-cons d mem-cons_self)
      ∙ ap₂ (λ x y. insert key x (insert key y (sorted key l))) f e
  sorted_canonicalᴰ (Permᴰ.trans p q) d =
      sorted_canonicalᴰ p d
      ∙ sorted_canonicalᴰ q (Permᴰ.pairwise (λ a b. ¬_prop) (λ x y h e. h (sym e)) p d)
