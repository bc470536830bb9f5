-- ===== src/Number.antt =====
-- Python's `int(text, base)`, over ASCII texts, and `str(n)` of a natural number.
pub mod Int
pub mod RoundTrip
use pe_ar_honours.Prelude.{
  ℕ, zero, suc, ◌+◌, ◌-◌, ◌*◌, ◌/◌, ◌%◌, Bool, true, false, ◌&&◌, ◌||◌, Option, none, some, List,
  [], ◌∷◌, ◌++◌, ◌==◌, leb, ltb, if◌then◌else◌, Outcome, ok, raise, value_error,
}
use pe_ar_honours.Text.{Text, strip}
use Int.{ℤ, pos, negsuc}

-- `str.isspace` on ASCII.
unfoldable pub is_space : ℕ → Bool
is_space c = leb 9 c && leb c 13 || leb 28 c && leb c 32

letter_value : ℕ → ℕ
letter_value c =
    if leb b'0' c && leb c b'9'
    then c - b'0'
    else if leb b'a' c && leb c b'z'
    then c - b'a' + 10
    else if leb b'A' c && leb c b'Z'
    then c - b'A' + 10
    else 36

-- The value of a digit, or `none` if the base has no such digit.
unfoldable pub digit_value : ℕ → ℕ → Option ℕ
unfolding letter_value
digit_value base c = let v = letter_value c in if ltb v base then some v else none

-- The digits read so far are `acc`; single underscores may stand between digits, so the flag says
-- that a digit was the last character.
unfoldable pub read_digits : ℕ → ℕ → Bool → Text → Option ℕ
unfolding digit_value
read_digits base acc after [] = if after then some acc else none
read_digits base acc after (c ∷ s) =
    let next = read_digits base acc false s in
    if c == b'_' then (if after then next else none) else elim (digit_value base c) [
      | none ↦ none
      | some v ↦ read_digits base (acc * base + v) true s
    ]

drop_underscore : Text → Text
drop_underscore [] = []
drop_underscore (c ∷ s) = if c == b'_' then s else c ∷ s

-- In base 16 the digits may follow `0x`.
unfoldable pub skip_prefix : ℕ → Text → Text
unfolding drop_underscore
skip_prefix base (c ∷ d ∷ s) =
    if base == 16 && c == b'0' && (d == b'x' || d == b'X') then drop_underscore s else c ∷ d ∷ s
skip_prefix base s = s

unfoldable pub read_natural : ℕ → Text → Option ℕ
unfolding skip_prefix read_digits
read_natural base s = read_digits base 0 false (skip_prefix base s)

negate : ℕ → ℤ
negate zero = pos zero
negate (suc n) = negsuc n

signed : (ℕ → ℤ) → Option ℕ → Outcome ℤ
signed sign none = raise value_error
signed sign (some n) = ok (sign n)

unfoldable pub read_signed : ℕ → Text → Outcome ℤ
unfolding read_natural signed negate
read_signed base [] = raise value_error
read_signed base (c ∷ s) =
    if c == b'-'
    then signed negate (read_natural base s)
    else if c == b'+'
    then signed pos (read_natural base s)
    else signed pos (read_natural base (c ∷ s))

-- `int(text, base)`
unfoldable pub parse_int : ℕ → Text → Outcome ℤ
unfolding is_space strip read_signed
parse_int base s = read_signed base (strip is_space s)

-- The decimal digits of `n`; any fuel above `n` serves.
unfoldable pub decimal_digits : ℕ → ℕ → Text
decimal_digits zero n = []
decimal_digits (suc fuel) n =
    let rest = decimal_digits fuel (n / 10) in
    if ltb n 10 then (b'0' + n) ∷ [] else rest ++ (b'0' + n % 10) ∷ []

-- `str(n)`
unfoldable pub decimal : ℕ → Text
unfolding decimal_digits
decimal n = decimal_digits (suc n) n
