-- ===== src/Sorting/Distinct.antt =====
-- Lists whose elements have distinct keys, before and after `sorted`.
use pe_ar_honours.Prelude.{
  ℕ, ◌≤◌, ◌<◌, ◌≡◌, ◌≢◌, ◌∙◌, ap, List, [], ◌∷◌, arith, leb, All, Bool-cases, inl, inr,
}
use pe_ar_honours.Sorting.{insert, sorted}
use pe_ar_honours.Sorting.Canonical.{
  IsAscending, sorted-IsAscending, DistinctKeys, sorted_canonicalᴰ,
}
use mathlib.Core.List.{Permᴰ, Pairwise, Mem, not-mem-nil, eq-or-mem_of_mem-cons}
use mathlib.Core.HLevel.{⊥_prop}
use mathlib.Core.Logic.Or

module _ {A : Type 0} (key : A → ℕ) where
  abbrev pub Distinct : List A → Type 0
  Distinct [] = Unit
  Distinct (x ∷ xs) = All (λ y. key x ≢ key y) xs × Distinct xs

  -- Each key is below those behind it.
  abbrev pub IsIncreasing : List A → Type 0
  IsIncreasing [] = Unit
  IsIncreasing (x ∷ xs) = All (λ y. key x < key y) xs × IsIncreasing xs

  pub insert-All : (P : A → Type 0) (x : A) (ys : List A) → P x → All P ys → All P (insert key x ys)
  unfolding insert
  insert-All P x [] h a = (h, tt)
  insert-All P x (y ∷ ys) h a = elim (Bool-cases (leb (key x) (key y))) [
    | inl le ↦ rw le (h, a)
    | inr gt ↦ rw gt (a.0, insert-All P x ys h a.1)
  ]

  pub sorted-All : (P : A → Type 0) (xs : List A) → All P xs → All P (sorted key xs)
  unfolding sorted
  sorted-All P [] a = tt
  sorted-All P (x ∷ xs) a = insert-All P x (sorted key xs) a.0 (sorted-All P xs a.1)

  insert-Distinct :
      (x : A) (ys : List A) → All (λ y. key x ≢ key y) ys → Distinct ys → Distinct (insert key x ys)
  unfolding insert
  insert-Distinct x [] h d = (tt, tt)
  insert-Distinct x (y ∷ ys) h d = elim (Bool-cases (leb (key x) (key y))) [
    | inl le ↦ rw le (h, d)
    | inr gt ↦ rw gt (
      insert-All (λ z. key y ≢ key z) x ys (λ e. h.0 (omega arith)) d.0,
      insert-Distinct x ys h.1 d.1,
    )
  ]

  pub sorted-Distinct : (xs : List A) → Distinct xs → Distinct (sorted key xs)
  unfolding sorted
  sorted-Distinct [] d = tt
  sorted-Distinct (x ∷ xs) d =
      insert-Distinct x (sorted key xs) (sorted-All (λ y. key x ≢ key y) xs d.0)
        (sorted-Distinct xs d.1)

  All-lt :
      (x : A) (ys : List A)
      → All (λ y. key x ≤ key y) ys
      → All (λ y. key x ≢ key y) ys
      → All (λ y. key x < key y) ys
  All-lt x [] a b = tt
  All-lt x (y ∷ ys) a b = (omega (arith, a.0, b.0), All-lt x ys a.1 b.1)

  increasing : (xs : List A) → IsAscending key xs → Distinct xs → IsIncreasing xs
  increasing [] a d = tt
  increasing (x ∷ xs) a d = (All-lt x xs a.0 d.0, increasing xs a.1 d.1)

  -- Distinct keys are sorted into an increasing order.
  pub sorted-IsIncreasing : (xs : List A) → Distinct xs → IsIncreasing (sorted key xs)
  sorted-IsIncreasing xs d =
      increasing (sorted key xs) (sorted-IsAscending key xs) (sorted-Distinct xs d)

  Distinct-ne :
      (x : A) (ys : List A) → All (λ y. key x ≢ key y) ys → (y : A) → Mem y ys → key x ≢ key y
  Distinct-ne x [] a y m e = not-mem-nil m
  Distinct-ne x (z ∷ zs) a y m e =
      Or.elim ⊥_prop (eq-or-mem_of_mem-cons m) (λ q. a.0 (e ∙ ap key q))
        (λ n. Distinct-ne x zs a.1 y n e)

  Distinct-DistinctKeys : (xs : List A) → Distinct xs → DistinctKeys key xs
  Distinct-DistinctKeys [] d = Pairwise.nil
  Distinct-DistinctKeys (x ∷ xs) d =
      Pairwise.cons (Distinct-ne x xs d.0) (Distinct-DistinctKeys xs d.1)

  -- Two lists of the same elements with distinct keys are sorted alike.
  pub sorted_canonical : {l m : List A} → Permᴰ l m → Distinct l → sorted key l ≡ sorted key m
  sorted_canonical p d = sorted_canonicalᴰ key p (Distinct-DistinctKeys _ d)
