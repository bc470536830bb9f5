-- ===== src/Uuid.antt =====
-- `uuid.UUID`, as its 128-bit integer: the `hex` attribute and the constructor from a text.
pub mod RoundTrip
use pe_ar_honours.Prelude.{
  ℕ, zero, suc, ◌+◌, ◌-◌, ◌/◌, ◌%◌, ◌^◌, Bool, ◌||◌, List, [], ◌∷◌, ◌++◌, ◌==◌, ltb, if◌then◌else◌,
  length, Outcome, ok, raise, ◌>>=◌, value_error,
}
use pe_ar_honours.Text.{Text, codes, strip, remove_all}
use pe_ar_honours.Number.{parse_int}
use pe_ar_honours.Number.Int.{ℤ, pos, negsuc}

hex_digit : ℕ → ℕ
hex_digit v = if ltb v 10 then b'0' + v else b'a' + v - 10

unfoldable pub hex_digits : ℕ → ℕ → Text
unfolding hex_digit
hex_digits zero n = []
hex_digits (suc width) n = hex_digits width (n / 16) ++ hex_digit (n % 16) ∷ []

-- `'%032x' % self.int`
unfoldable pub hex : ℕ → Text
hex u = hex_digits 32 u

unfoldable pub is_brace : ℕ → Bool
is_brace c = c == b'{' || c == b'}'

-- The text without `urn:`, `uuid:`, braces at its ends and dashes.
unfoldable pub plain_hex : Text → Text
unfolding is_brace strip remove_all
plain_hex s =
    remove_all (codes "-")
      (strip is_brace (remove_all (codes "uuid:") (remove_all (codes "urn:") s)))

in_range : ℤ → Outcome ℕ
in_range (negsuc n) = raise value_error
in_range (pos n) = if ltb n (2 ^ 128) then ok n else raise value_error

-- `uuid.UUID(text)`
unfoldable pub parse_uuid : Text → Outcome ℕ
unfolding plain_hex parse_int in_range
parse_uuid s =
    let h = plain_hex s in
    if length h == 32 then (parse_int 16 h >>= in_range) else raise value_error
