-- ===== src/Blocks/Edges.antt =====
-- What the tests of `get_basic_blocks` say of a block's edges.
use pe_ar_honours.Prelude.{
  ◌≡◌, ◌↔◌, ◌⊎◌, inl, inr, Bool, true, false, not, ◌||◌, none, some, List, [], ◌∷◌, map, arith, any,
  All, Any, ◌≢◌, ◌+◌, ◌++◌, length, refl, Bool-cases, Option-cases, ℕ,
}
use pe_ar_honours.Gtirb.{
  Gtirb, EdgeType, branch, call, fallthrough, is_branch, is_call, is_fallthrough,
}
use pe_ar_honours.Blocks.{
  is_call_and_fallthrough, falls_from_call, call_source, continues, append_to, place, is_detached,
}

module _ {A : Type 0} (p : A → Bool) (P : A → Type 0) where
  any-Any : ((x : A) → (p x ≡ true) ↔ P x) → (xs : List A) → (any p xs ≡ true) ↔ Any P xs
  any-Any h [] = ground arith
  any-Any h (x ∷ xs) = ground (arith, h x, any-Any h xs)

  any-All : ((x : A) → (p x ≡ false) ↔ P x) → (xs : List A) → (any p xs ≡ false) ↔ All P xs
  any-All h [] = ground arith
  any-All h (x ∷ xs) = ground (arith, h x, any-All h xs)

is_call_iff : (t : EdgeType) → (is_call t ≡ true) ↔ (t ≡ call)
is_call_iff call = ground arith
is_call_iff _ = ground arith

is_fallthrough_iff : (t : EdgeType) → (is_fallthrough t ≡ true) ↔ (t ≡ fallthrough)
is_fallthrough_iff call = ground arith
is_fallthrough_iff _ = ground arith

call_or_fallthrough :
    (t : EdgeType)
    → (not (is_call t || is_fallthrough t) ≡ false) ↔ ((t ≡ call) ⊎ (t ≡ fallthrough))
call_or_fallthrough call = ground arith
call_or_fallthrough _ = ground arith

is_branch_iff : (t : EdgeType) → (is_branch t ≡ false) ↔ (¬ (t ≡ branch))
is_branch_iff branch = ground arith
is_branch_iff _ = ground arith

-- The kinds are calls and fallthroughs, both present.
abbrev pub IsCallAndFallthrough : List EdgeType → Type 0
IsCallAndFallthrough ts =
    Any (λ t. t ≡ call) ts
    × Any (λ t. t ≡ fallthrough) ts
    × All (λ t. (t ≡ call) ⊎ (t ≡ fallthrough)) ts

is_call_and_fallthrough_iff :
    (ts : List EdgeType) → (is_call_and_fallthrough ts ≡ true) ↔ IsCallAndFallthrough ts
unfolding is_call_and_fallthrough
is_call_and_fallthrough_iff ts = ground (
  arith,
  any-Any _ _ is_call_iff ts,
  any-Any _ _ is_fallthrough_iff ts,
  any-All _ _ call_or_fallthrough ts,
)

module _ (G : Gtirb) where
  open G use {Block, Edge, Function, edge_type, incoming_edges, outgoing_edges}

  -- The edge falls through, out of a block that ends with a call.
  abbrev pub FallsFromCall : Edge → Type 0
  FallsFromCall e =
      (edge_type e ≡ fallthrough)
      × IsCallAndFallthrough (map edge_type (outgoing_edges (G.source e)))

  -- The block is reached by no branch, and by falling through from a call.
  abbrev pub ContinuesCall : Block → Type 0
  ContinuesCall b =
      All (λ e. ¬ (edge_type e ≡ branch)) (incoming_edges b) × Any FallsFromCall (incoming_edges b)

  falls_from_call_iff : (e : Edge) → (falls_from_call G e ≡ true) ↔ FallsFromCall e
  unfolding falls_from_call
  falls_from_call_iff e = ground (
    arith,
    is_fallthrough_iff (edge_type e),
    is_call_and_fallthrough_iff (map edge_type (outgoing_edges (G.source e))),
  )

  call_source_iff : (es : List Edge) → (call_source G es ≢ none) ↔ Any FallsFromCall es
  unfolding call_source
  call_source_iff [] = ground arith
  call_source_iff (e ∷ es) = ground (arith, falls_from_call_iff e, call_source_iff es)

  falls-any : (es : List Edge) → Any FallsFromCall es → any is_fallthrough (map edge_type es) ≡ true
  falls-any [] h = absurd h
  falls-any (e ∷ es) (inl h) = ground (arith, is_fallthrough_iff (edge_type e))
  falls-any (e ∷ es) (inr h) = ground (arith, falls-any es h)

  no_branch_iff :
      (es : List Edge)
      → (any is_branch (map edge_type es) ≡ false) ↔ All (λ e. ¬ (edge_type e ≡ branch)) es
  no_branch_iff [] = ground arith
  no_branch_iff (e ∷ es) = ground (arith, is_branch_iff (edge_type e), no_branch_iff es)

  pub continues_iff : (b : Block) → (continues G b ≢ none) ↔ ContinuesCall b
  unfolding continues
  continues_iff b = ground (
    arith,
    call_source_iff (incoming_edges b),
    falls-any (incoming_edges b),
    no_branch_iff (incoming_edges b),
  )

  length-append_to :
      (a : ℕ) (b : Block) (blocks : List (List Block))
      → length (append_to G a b blocks) ≡ length blocks
  unfolding append_to
  length-append_to a b [] = refl
  length-append_to a b (blocklist ∷ blocks) = omega (arith, length-append_to a b blocks)

  length-snoc : {A : Type 0} (xs : List A) (x : A) → length (xs ++ x ∷ []) ≡ length xs + 1
  length-snoc [] x = refl
  length-snoc (y ∷ xs) x = omega (arith, length-snoc xs x)

  -- In one round of `get_basic_blocks` the number of groups stays as it is exactly when the block is detached,
  -- or no branch edge reaches it and a fallthrough edge does whose source's outgoing edges are calls and
  -- fallthroughs, with both kinds present; and it grows by one exactly when neither is so.
  pub place-length :
      (f : Function) (blocks : List (List Block)) (b : Block)
      → ((length (place G f blocks b) ≡ length blocks)
          ↔ ((is_detached G f b ≡ true) ⊎ ContinuesCall b))
        × ((length (place G f blocks b) ≡ length blocks + 1)
            ↔ ((is_detached G f b ≡ false) × (¬ (ContinuesCall b))))
  unfolding place
  place-length f blocks b = elim (Bool-cases (is_detached G f b)) [
    | inl there ↦
        let same : length (place G f blocks b) ≡ length blocks = rw there refl in ground arith
    | inr attached ↦ elim (Option-cases (continues G b)) [
      | inl none_found ↦
          let grown : length (place G f blocks b) ≡ length blocks + 1 =
            rw (attached, none_found) (length-snoc blocks (b ∷ [])) in
          ground (arith, continues_iff b)
      | inr (p, parent_found) ↦
          let same : length (place G f blocks b) ≡ length blocks =
            rw (attached, parent_found) (length-append_to (G.address p) b blocks) in
          ground (arith, continues_iff b)
    ]
  ]

  -- The block falls out of `p`, and `p` ends with a call.
  abbrev pub FallsFrom : Block → Block → Type 0
  FallsFrom b p = Any (λ e. FallsFromCall e × (G.source e ≡ p)) (incoming_edges b)

  call_source-some :
      (es : List Edge) (p : Block)
      → call_source G es ≡ some p
      → Any (λ e. FallsFromCall e × (G.source e ≡ p)) es
  unfolding call_source
  call_source-some [] p h = cc
  call_source-some (e ∷ es) p h = ground (arith, falls_from_call_iff e, call_source-some es p)

  pub continues-some : (b p : Block) → continues G b ≡ some p → FallsFrom b p
  unfolding continues
  continues-some b p h = ground (arith, call_source-some (incoming_edges b) p)
