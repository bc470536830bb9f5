-- ===== src/Dict.antt =====
-- Python's ordered dictionaries as lists of items in the order of insertion.
use pe_ar_honours.Prelude.{
  ◌≡◌, refl, ◌∙◌, Bool, false, List, [], ◌∷◌, ◌++◌, if◌then◌else◌, All, All-middle,
}
use mathlib.Core.List.{append-nil, append_assoc}

-- `beq` is the equality of keys.
module _ {K V : Type 0} (beq : K → K → Bool) where
  -- `d[k] = v`: a key that is there keeps its place.
  unfoldable pub put : K → V → List (K × V) → List (K × V)
  put k v [] = (k, v) ∷ []
  put k v ((j, w) ∷ d) = if beq j k then (j, v) ∷ d else (j, w) ∷ put k v d

  -- All items of a list of pairs, in turn.
  unfoldable pub put_all : List (K × V) → List (K × V) → List (K × V)
  put_all d [] = d
  put_all d ((k, v) ∷ items) = put_all (put k v d) items

  abbrev pub NodupKeys : List (K × V) → Type 0
  NodupKeys [] = Unit
  NodupKeys ((k, v) ∷ d) = All (λ e. beq k e.0 ≡ false) d × NodupKeys d

  put_fresh :
      (d : List (K × V)) (k : K) (v : V) (items : List (K × V))
      → NodupKeys (d ++ ((k, v) ∷ items))
      → put k v d ≡ d ++ (k, v) ∷ []
  unfolding put
  put_fresh [] k v items u = refl
  put_fresh ((j, w) ∷ d) k v items u =
      rw (All-middle (λ e. beq j e.0 ≡ false) d (k, v) items u.0) (rw (put_fresh d k v items u.1))

  -- Items with distinct keys are kept as they come.
  pub put_all_distinct :
      (d items : List (K × V)) → NodupKeys (d ++ items) → put_all d items ≡ d ++ items
  unfolding put_all
  put_all_distinct d [] u = rw append-nil
  put_all_distinct d ((k, v) ∷ items) u =
      rw (put_fresh d k v items u)
        (put_all_distinct (d ++ (k, v) ∷ []) items (rw append_assoc u) ∙ append_assoc d _ items)
