-- ===== src/Payments/Money.antt =====
-- money.ts of the MCP server: atomic amounts and decimal texts.
pub mod Laws
use verivyx_monorepo.Prelude.{
  ℕ, zero, suc, ◌+◌, ◌-◌, ◌*◌, ◌^◌, max, Bool, true, false, ◌&&◌, Option, none, some, List, [], ◌∷◌,
  ◌++◌, Text, codes, ◌==◌, length, take, drop, replicate, if◌then◌else◌,
}
use verivyx_monorepo.Prelude.Int.{ℤ, pos, negsuc, ◌+ℤ◌, times, quotient, remainder}
use verivyx_monorepo.Prelude.Parse.{split, big_int}
use verivyx_monorepo.Prelude.Decimal.{is_digit, show, pad_start}

-- `t.replace(/^0+(?=\d)/, '')`.
unfoldable pub strip_leading : Text → Text
strip_leading [] = []
strip_leading (c ∷ []) = c ∷ []
strip_leading (c ∷ d ∷ t) =
    let rest = strip_leading (d ∷ t) in if (c == b'0') && is_digit d then rest else c ∷ d ∷ t

abbrev pub strip_step : ℕ → Text → Text
strip_step c [] = if c == b'0' then [] else c ∷ []
strip_step c (d ∷ t) = c ∷ d ∷ t

-- `t.replace(/0+$/, '')`.
unfoldable pub strip_end : Text → Text
strip_end [] = []
strip_end (c ∷ t) = strip_step c (strip_end t)

abbrev pub or_zero_text : Text → Text
or_zero_text [] = codes "0"
or_zero_text (c ∷ t) = c ∷ t

-- The integer part, and the fraction after a point if there is one.
abbrev pub point : Text → Text → Text
point whole [] = whole
point whole (c ∷ frac) = whole ++ b'.' ∷ c ∷ frac

abbrev pub fraction_of : ℕ → Text → Text
unfolding strip_end
fraction_of decimals padded =
    if decimals == 0 then [] else strip_end (drop (length padded - decimals) padded)

abbrev pub unsigned_atoms : Text → ℕ → Text
unfolding strip_leading fraction_of pad_start
unsigned_atoms digits decimals =
    let padded = pad_start (decimals + 1) (strip_leading digits) in
    point (or_zero_text (take (length padded - decimals) padded)) (fraction_of decimals padded)

unfoldable pub atoms_to_decimal_string : Text → ℕ → Text
unfolding unsigned_atoms
atoms_to_decimal_string [] decimals = unsigned_atoms [] decimals
atoms_to_decimal_string (c ∷ t) decimals =
    if c == b'-' then b'-' ∷ unsigned_atoms t decimals else unsigned_atoms (c ∷ t) decimals

-- `const [intPart, fracPart = ""] = value.split(".")`.
abbrev pub parts_of : List Text → Text × Text
parts_of [] = ([], [])
parts_of (whole ∷ []) = (whole, [])
parts_of (whole ∷ frac ∷ rest) = (whole, frac)

abbrev pub sum_of : Option ℤ → Option ℤ → ℕ → Option ℤ
sum_of (some a) (some b) scale = some (times a scale +ℤ b)
sum_of _ _ scale = none

abbrev pub scaled : Text × Text → ℕ → Option ℤ
unfolding big_int
scaled parts decimals =
    sum_of (big_int parts.0)
      (big_int (or_zero_text (take decimals (parts.1 ++ replicate decimals b'0')))) (10 ^ decimals)

-- `decimalToBaseUnits`, and `toScaled`, which has the same body; `none` is a SyntaxError.
unfoldable pub decimal_to_base_units : Text → ℕ → Option ℤ
unfolding scaled split
decimal_to_base_units value decimals = scaled (parts_of (split b'.' value)) decimals

-- The length of what is after the first point.
unfoldable pub fraction_length : Text → ℕ
fraction_length [] = 0
fraction_length (c ∷ t) = let rest = fraction_length t in if c == b'.' then length t else rest

abbrev show_integer : ℤ → Text
unfolding show
show_integer (pos n) = show n
show_integer (negsuc n) = b'-' ∷ show (n + 1)

unfoldable pub format_scaled : ℤ → ℕ → ℕ → Text
unfolding show_integer strip_end pad_start
format_scaled n scale decimals =
    point (show_integer (quotient n scale))
      (strip_end (pad_start decimals (show_integer (remainder n scale))))

abbrev format_sum : Option ℤ → Option ℤ → ℕ → Option Text
unfolding format_scaled
format_sum (some a) (some b) decimals = some (format_scaled (a +ℤ b) (10 ^ decimals) decimals)
format_sum _ _ decimals = none

unfoldable pub add_decimal_strings : Text → Text → Option Text
unfolding fraction_length decimal_to_base_units format_sum
add_decimal_strings a b =
    let decimals = max (fraction_length a) (fraction_length b) in
    format_sum (decimal_to_base_units a decimals) (decimal_to_base_units b decimals) decimals
