-- ===== src/Args/Checks.antt =====
-- Which options `get_args` accepts, and what holds of the arguments that it returns.
use pe_ar_honours.Prelude.{
  ℕ, ◌+◌, ◌≡◌, inl, inr, refl, Bool, true, false, not, ◌&&◌, ◌||◌, Option, none, some, [], ◌∷◌,
  arith, if◌then◌else◌, Outcome, ok, raise, ◌>>=◌, stop_if, OnOk, is_ok, Outcome-cases, system_exit,
}
use pe_ar_honours.Text.{Text, codes, text_eq, starts_with}
use pe_ar_honours.Number.{parse_int}
use pe_ar_honours.Number.Int.{ℤ}
use pe_ar_honours.Args.{
  Options, Args, Hook, given, given_int, read_hook, convert, default_count, get_args,
}

abbrev flag : Bool → ℕ
flag b = if b then 1 else 0

abbrev is_some {ℓ} : {A : Type ℓ} → Option A → Bool
is_some none = false
is_some (some a) = true

-- What the rest of the program relies on.
pub record IsConsistent (a : Args) : Type 0 where
  pub one_init : (given a.forkserver_init_func && given_int a.forkserver_init_address) ≡ false
  pub one_persistent : (given a.persistent_mode_func && given_int a.persistent_mode_address) ≡ false
  pub counted : a.is_persistent ≡ true → given_int a.persistent_mode_count ≡ true
  pub one_location :
      flag a.is_hook_loc_persistent + flag a.is_hook_loc_init + flag a.is_hook_loc_address
      ≡ flag a.is_sharedmem_fuzzing
  pub named : a.is_sharedmem_fuzzing ≡ true → given a.sharedmem_hook_func_name ≡ true
  pub located : a.is_hook_loc_address ≡ is_some a.hook_loc_address

record IsHook (h : Hook) : Type 0 where
  one_location :
      flag h.is_persistent + flag h.is_init + flag h.is_address ≡ flag h.is_sharedmem_fuzzing
  named : h.is_sharedmem_fuzzing ≡ true → given h.func_name ≡ true
  located : h.is_address ≡ is_some h.address

read_hook-IsHook : (loc name : Option Text) → OnOk IsHook (read_hook loc name)
unfolding read_hook
read_hook-IsHook none name = ground arith
read_hook-IsHook (some []) name = ground arith
read_hook-IsHook (some (c ∷ s)) name = ground arith

pub convert-not_given : (base : ℕ) (t : Option Text) → given t ≡ false → convert base t ≡ ok none
unfolding convert
convert-not_given base none h = refl
convert-not_given base (some []) h = refl
convert-not_given base (some (c ∷ s)) h = cc

default_count-given : (v : Option ℤ) (p : Bool) → p ≡ true → given_int (default_count v p) ≡ true
unfolding default_count
default_count-given v p h = ground arith

-- Arguments that `get_args` returns are consistent: no function and address for one feature, a
-- nonzero count with persistent mode, and one place and a name for the hook if there is one.
pub get_args-IsConsistent : (o : Options) (a : Args) → get_args o ≡ ok a → IsConsistent a
unfolding get_args
get_args-IsConsistent o a e =
    elim (Outcome-cases (read_hook o.sharedmem_hook_location o.sharedmem_hook_func_name)) [
      | inr (f, refused) ↦ ground arith
      | inl (hook, read) ↦ elim (Outcome-cases (convert 10 o.persistent_mode_count)) [
        | inr (f, refused) ↦ ground arith
        | inl (count, counted) ↦ ground (
          arith,
          read_hook-IsHook o.sharedmem_hook_location o.sharedmem_hook_func_name,
          convert-not_given 16 o.persistent_mode_address,
          convert-not_given 16 o.forkserver_init_address,
          default_count-given count
              (given o.persistent_mode_address || given o.persistent_mode_func),
        )
      ]
    ]

-- The text is not given, or `int(text, base)` reads it.
abbrev pub is_number : ℕ → Option Text → Bool
is_number base none = true
is_number base (some []) = true
is_number base (some (c ∷ s)) = is_ok (parse_int base (c ∷ s))

-- The hook's place is not given, or is one of those that the help text lists.
abbrev pub is_place : Option Text → Bool
is_place none = true
is_place (some []) = true
is_place (some (c ∷ s)) =
    text_eq (c ∷ s) (codes "PERSISTENT_LOOP")
    || text_eq (c ∷ s) (codes "FORKSERVER_INIT")
    || (starts_with (codes "0x") (c ∷ s) && is_ok (parse_int 16 (c ∷ s)))

-- A function and an address for the same feature.
abbrev pub conflicts : Options → Bool
conflicts o =
    (given o.forkserver_init_func && given o.forkserver_init_address)
    || (given o.persistent_mode_address && given o.persistent_mode_func)

read_hook-is_ok : (loc name : Option Text) → is_ok (read_hook loc name) ≡ is_place loc
unfolding read_hook
read_hook-is_ok none name = refl
read_hook-is_ok (some []) name = refl
read_hook-is_ok (some (c ∷ s)) name = ground arith

convert-is_ok : (base : ℕ) (t : Option Text) → is_ok (convert base t) ≡ is_number base t
unfolding convert
convert-is_ok base none = refl
convert-is_ok base (some []) = refl
convert-is_ok base (some (c ∷ s)) = ground arith

is_ok-chain :
    {A B C D E : Type 0} (r : Outcome A) (p q : Bool) (c : Outcome B) (d : Outcome C)
    (e : Outcome D) (k : A → B → C → D → E)
    → is_ok (
        r >>= λ a.
        stop_if p
          (system_exit 1)
          (stop_if q (system_exit 1) (c >>= λ b. d >>= λ x. e >>= λ y. ok (k a b x y))))
      ≡ (is_ok r && not (p || q) && is_ok c && is_ok d && is_ok e)
is_ok-chain (raise f) p q c d e k = refl
is_ok-chain (ok a) true q c d e k = refl
is_ok-chain (ok a) false true c d e k = refl
is_ok-chain (ok a) false false (raise f) d e k = refl
is_ok-chain (ok a) false false (ok b) (raise f) e k = refl
is_ok-chain (ok a) false false (ok b) (ok x) (raise f) k = refl
is_ok-chain (ok a) false false (ok b) (ok x) (ok y) k = refl

-- `get_args` returns exactly if the hook's place is known, no feature has both a function and an
-- address, and the numbers given can be read.
pub get_args-is_ok :
    (o : Options)
    → is_ok (get_args o) ≡ (
        is_place o.sharedmem_hook_location
        && not (conflicts o)
        && is_number 10 o.persistent_mode_count
        && is_number 16 o.persistent_mode_address
        && is_number 16 o.forkserver_init_address)
unfolding get_args
get_args-is_ok o =
    rw
      (
        ← read_hook-is_ok o.sharedmem_hook_location o.sharedmem_hook_func_name,
        ← convert-is_ok 10 o.persistent_mode_count,
        ← convert-is_ok 16 o.persistent_mode_address,
        ← convert-is_ok 16 o.forkserver_init_address,
      )
      (is_ok-chain (read_hook o.sharedmem_hook_location o.sharedmem_hook_func_name)
        (given o.forkserver_init_func && given o.forkserver_init_address)
        (given o.persistent_mode_address && given o.persistent_mode_func)
        (convert 10 o.persistent_mode_count) (convert 16 o.persistent_mode_address)
        (convert 16 o.forkserver_init_address) _)
