-- ===== src/PatchFiles/Directory.antt =====
-- The directory of patches as parse_assembly.py leaves it, read by `begin_module`.
use pe_ar_honours.Prelude.{
  ℕ, suc, ◌+◌, ◌<◌, ◌≤◌, ◌≢◌, if◌then◌else◌, ◌≡◌, refl, ◌∙◌, ap, Bool, true, false, List, [], ◌∷◌,
  ◌++◌, map, arith, length, keep, All, Outcome, ok, raise, some,
}
use mathlib.Core.List.{Permᴰ}
use mathlib.Core.List.Permᴰ
use mathlib.Core.Path.{sym, subst}
use pe_ar_honours.Text.{Text, codes}
use pe_ar_honours.Rewriting.{Call, insert_function, file_patch}
use pe_ar_honours.Sorting.{insert, sorted}
use pe_ar_honours.Sorting.Canonical.{IsAscending}
use pe_ar_honours.Sorting.Distinct.{Distinct, sorted_canonical}
use pe_ar_honours.PatchFiles.{
  Disk, read_patch, insert_files, is_patch_file, select, patch_number, patch_calls, patch_file_name,
  numbered,
}
use pe_ar_honours.PatchFiles.Names.{patch_file_name_lem}

chosen_of : Outcome Bool → Bool
chosen_of (ok b) = b
chosen_of (raise e) = false

chosen : Text → Bool
chosen f = chosen_of (is_patch_file f)

-- Its name can be tested.
abbrev IsTested : Text → Type 0
IsTested f = is_patch_file f ≡ ok (chosen f)

select-IsTested : (fs : List Text) → All IsTested fs → select fs ≡ ok (keep chosen fs)
unfolding select
select-IsTested [] a = refl
select-IsTested (f ∷ fs) a = rw (a.0, select-IsTested fs a.1)

All-perm : {A : Type 0} (P : A → Type 0) {xs ys : List A} → Permᴰ xs ys → All P ys → All P xs
All-perm P Permᴰ.nil a = a
All-perm P (Permᴰ.cons e p) a = (subst P (sym e) a.0, All-perm P p a.1)
All-perm P (Permᴰ.swap e f) a = (subst P (sym e) a.1.0, (subst P (sym f) a.0, a.1.1))
All-perm P (Permᴰ.trans p q) a = All-perm P p (All-perm P q a)

kept-cons :
    {A : Type 0} (v w : Bool) (a b : A) {l m : List A}
    → v ≡ w
    → a ≡ b
    → Permᴰ l m
    → Permᴰ (if v then a ∷ l else l) (if w then b ∷ m else m)
kept-cons true true a b q e h = Permᴰ.cons e h
kept-cons true false a b q e h = absurd cc
kept-cons false true a b q e h = absurd cc
kept-cons false false a b q e h = h

kept-swap :
    {A : Type 0} (v w : Bool) (a b a' b' : A) (l : List A)
    → a ≡ b'
    → b ≡ a'
    → Permᴰ
        (if v then a ∷ (if w then b ∷ l else l) else (if w then b ∷ l else l))
        (if w then a' ∷ (if v then b' ∷ l else l) else (if v then b' ∷ l else l))
kept-swap true true a b a' b' l e f = Permᴰ.swap e f
kept-swap true false a b a' b' l e f = Permᴰ.cons e (Permᴰ.refl _)
kept-swap false true a b a' b' l e f = Permᴰ.cons f (Permᴰ.refl _)
kept-swap false false a b a' b' l e f = Permᴰ.refl _

keep-perm :
    {A : Type 0} (p : A → Bool) {xs ys : List A} → Permᴰ xs ys → Permᴰ (keep p xs) (keep p ys)
keep-perm p Permᴰ.nil = Permᴰ.nil
keep-perm p (Permᴰ.cons {a} {b} e h) = kept-cons (p a) (p b) a b (ap p e) e (keep-perm p h)
keep-perm p (Permᴰ.swap {a} {b} {a'} {b'} {l} e f) =
    rw (sym (ap p f), sym (ap p e)) (kept-swap (p a) (p b) a b a' b' (keep p l) e f)
keep-perm p (Permᴰ.trans h k) = Permᴰ.trans (keep-perm p h) (keep-perm p k)

insert-first :
    (key : Text → ℕ) (x : Text) (ys : List Text)
    → All (λ y. key x ≤ key y) ys
    → insert key x ys ≡ x ∷ ys
unfolding insert
insert-first key x [] a = refl
insert-first key x (y ∷ ys) a = ground arith

sorted_ascending : (key : Text → ℕ) (xs : List Text) → IsAscending key xs → sorted key xs ≡ xs
unfolding sorted
sorted_ascending key [] a = refl
sorted_ascending key (x ∷ xs) a = rw (sorted_ascending key xs a.1) (insert-first key x xs a.0)

number_of : (k : ℕ) (f : Text) → k < 10 → patch_number (patch_file_name k f) ≡ k
number_of k f h = (patch_file_name_lem k f h).1

numbered-All :
    (P : ℕ → Type 0) (k : ℕ) (fs : List Text)
    → k + length fs ≤ 10
    → ((n : ℕ) → k ≤ n → P n)
    → All (λ g. P (patch_number g)) (numbered k fs)
unfolding numbered
numbered-All P k [] h a = tt
numbered-All P k (f ∷ fs) h a = (
  rw (number_of k f (omega arith)) (a k (omega arith)),
  numbered-All P (suc k) fs (omega arith) (λ n l. a n (omega arith)),
)

numbered-IsAscending :
    (k : ℕ) (fs : List Text) → k + length fs ≤ 10 → IsAscending patch_number (numbered k fs)
unfolding numbered
numbered-IsAscending k [] h = tt
numbered-IsAscending k (f ∷ fs) h = (
  rw (number_of k f (omega arith))
      (numbered-All (λ n. k ≤ n) (suc k) fs (omega arith) (λ n l. omega arith)),
  numbered-IsAscending (suc k) fs (omega arith),
)

numbered-Distinct :
    (k : ℕ) (fs : List Text) → k + length fs ≤ 10 → Distinct patch_number (numbered k fs)
unfolding numbered
numbered-Distinct k [] h = tt
numbered-Distinct k (f ∷ fs) h = (
  rw (number_of k f (omega arith))
      (numbered-All (λ n. k ≢ n) (suc k) fs (omega arith) (λ n l e. absurd (omega arith))),
  numbered-Distinct (suc k) fs (omega arith),
)

added_bytes-IsTested : IsTested (codes "added_bytes_rodata")
unfolding chosen chosen_of is_patch_file
added_bytes-IsTested = refl

numbered-chosen :
    (k : ℕ) (fs : List Text)
    → k + length fs ≤ 10
    → All IsTested (numbered k fs) × (keep chosen (numbered k fs) ≡ numbered k fs)
unfolding numbered chosen chosen_of
numbered-chosen k [] h = (tt, refl)
numbered-chosen k (f ∷ fs) h =
    let file = (patch_file_name_lem k f (omega arith)).0 in
    let (tested, same) = numbered-chosen (suc k) fs (omega arith) in
    ((rw file refl, tested), rw (file, same) refl)

-- Functions with the texts of their patches, as calls.
abbrev pub insert_functions : {Block : Type 0} → List (Text × Text) → List (Call Block)
insert_functions fs = map (λ f. insert_function f.0 (file_patch f.1)) fs

abbrev pub names : List (Text × Text) → List Text
names fs = map (λ f. f.0) fs

-- The files for these functions, from number k on.
abbrev pub AreWritten : Disk → Text → ℕ → List (Text × Text) → Type 0
AreWritten disk dir k [] = Unit
AreWritten disk dir k (f ∷ fs) =
    (disk.contents (dir ++ patch_file_name k f.0) ≡ some f.1) × AreWritten disk dir (suc k) fs

insert_files-numbered :
    (Block : Type 0) (disk : Disk) (dir : Text) (k : ℕ) (fs : List (Text × Text))
    → k + length fs ≤ 10
    → AreWritten disk dir k fs
    → insert_files {Block = Block} disk dir (numbered k (names fs)) ≡ ok (insert_functions fs)
unfolding numbered insert_files read_patch
insert_files-numbered Block disk dir k [] h written = refl
insert_files-numbered Block disk dir k (f ∷ fs) h written =
    rw
      (
        written.0,
        insert_files-numbered Block disk dir (suc k) fs (omega arith) written.1,
        (patch_file_name_lem k f.0 (omega arith)).2,
      )
      refl

length-names : (fs : List (Text × Text)) → length (names fs) ≡ length fs
length-names [] = refl
length-names (f ∷ fs) = omega (arith, length-names fs)

-- A directory with the files for at most ten functions and the file `added_bytes_rodata`, listed in
-- any order, gives one call for each function, in the order in which the files were written.
pub patch_calls-numbered :
    (Block : Type 0) (disk : Disk) (dir : Text) (listed : List Text) (fs : List (Text × Text))
    → length fs ≤ 10
    → disk.listing dir ≡ some listed
    → Permᴰ listed (codes "added_bytes_rodata" ∷ numbered 0 (names fs))
    → AreWritten disk dir 0 fs
    → patch_calls {Block = Block} disk dir ≡ ok (insert_functions fs)
unfolding patch_calls chosen chosen_of is_patch_file
patch_calls-numbered Block disk dir listed fs h there p written =
    let few : 0 + length (names fs) ≤ 10 = omega (arith, length-names fs) in
    let (tested, same) = numbered-chosen 0 (names fs) few in
    let all = All-perm IsTested p (added_bytes-IsTested, tested) in
    let files : Permᴰ (numbered 0 (names fs)) (keep chosen listed) =
      rw same at (Permᴰ.symm (keep-perm chosen p)) in
    let ordered : sorted patch_number (keep chosen listed) ≡ numbered 0 (names fs) =
      sym (sorted_canonical patch_number files (numbered-Distinct 0 (names fs) few))
      ∙ sorted_ascending patch_number _ (numbered-IsAscending 0 (names fs) few) in
    rw (there, select-IsTested listed all, ordered)
      (insert_files-numbered Block disk dir 0 fs (omega arith) written)
