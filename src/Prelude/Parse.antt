-- ===== src/Prelude/Parse.antt =====
-- What the services use of JavaScript's string library: trimming, splitting, `BigInt(text)`.
pub mod Laws
use verivyx_monorepo.Prelude.{
  ℕ, zero, suc, ◌+◌, ◌-◌, ◌*◌, Text, Bool, ◌&&◌, ◌||◌, Option, none, some, or_default, List, [],
  ◌∷◌, if◌then◌else◌, ◌==◌, leb, ltb,
}
use verivyx_monorepo.Prelude.Int.{ℤ, pos, negsuc}

-- WhiteSpace and LineTerminator of ECMAScript.
unfoldable pub is_space : ℕ → Bool
is_space c =
    leb 9 c && leb c 13
    || c == 32
    || c == 160
    || c == 0x1680
    || leb 0x2000 c && leb c 0x200a
    || c == 0x2028
    || c == 0x2029
    || c == 0x202f
    || c == 0x205f
    || c == 0x3000
    || c == 0xfeff

unfoldable pub trim_start : Text → Text
unfolding is_space
trim_start [] = []
trim_start (c ∷ t) = let rest = trim_start t in if is_space c then rest else c ∷ t

unfoldable pub trim_end_step : ℕ → Text → Text
unfolding is_space
trim_end_step c [] = if is_space c then [] else c ∷ []
trim_end_step c (d ∷ t) = c ∷ d ∷ t

unfoldable pub trim_end : Text → Text
unfolding trim_end_step
trim_end [] = []
trim_end (c ∷ t) = trim_end_step c (trim_end t)

unfoldable pub trim : Text → Text
unfolding trim_start trim_end
trim t = trim_end (trim_start t)

abbrev pub cons_head : ℕ → List Text → List Text
cons_head c [] = (c ∷ []) ∷ []
cons_head c (w ∷ ws) = (c ∷ w) ∷ ws

-- `t.split(sep)` at a separator of one code unit.
unfoldable pub split : ℕ → Text → List Text
split sep [] = [] ∷ []
split sep (c ∷ t) = let rest = split sep t in if c == sep then [] ∷ rest else cons_head c rest

-- ASCII letters only.
unfoldable pub to_lower : ℕ → ℕ
to_lower c = if leb 65 c && leb c 90 then c + 32 else c

abbrev pub digit_value : ℕ → Option ℕ
digit_value c =
    if leb 48 c && leb c 57
    then some (c - 48)
    else if leb 97 c && leb c 102
    then some (c - 87)
    else if leb 65 c && leb c 70
    then some (c - 55)
    else none

abbrev pub in_radix : ℕ → Option ℕ → Option ℕ
in_radix radix none = none
in_radix radix (some d) = if ltb d radix then some d else none

unfoldable pub digits_from : ℕ → ℕ → Text → Option ℕ
digits_from radix acc [] = some acc
digits_from radix acc (c ∷ t) = elim (in_radix radix (digit_value c)) [
  | none ↦ none
  | some d ↦ digits_from radix (acc * radix + d) t
]

-- One digit or more.
unfoldable pub digits_value : ℕ → Text → Option ℕ
unfolding digits_from
digits_value radix [] = none
digits_value radix (c ∷ t) = digits_from radix 0 (c ∷ t)

abbrev pub positive : Option ℕ → Option ℤ
positive none = none
positive (some n) = some (pos n)

abbrev negative : Option ℕ → Option ℤ
negative none = none
negative (some zero) = some (pos 0)
negative (some (suc n)) = some (negsuc n)

abbrev pub prefixed : ℕ → Option ℕ
prefixed c =
    if c == b'x' || c == b'X'
    then some 16
    else if c == b'o' || c == b'O'
    then some 8
    else if c == b'b' || c == b'B'
    then some 2
    else none

-- After the leading zero: a literal with a prefix, or a decimal one.
unfoldable pub after_zero : Text → Option ℤ
unfolding digits_value
after_zero [] = some (pos 0)
after_zero (c ∷ t) = elim (prefixed c) [
  | some radix ↦ positive (digits_value radix t)
  | none ↦ positive (digits_value 10 (c ∷ t))
]

unfoldable pub string_integer : Text → Option ℤ
unfolding digits_value after_zero
string_integer [] = some (pos 0)
string_integer (c ∷ t) =
    if c == b'-'
    then negative (digits_value 10 t)
    else if c == b'+'
    then positive (digits_value 10 t)
    else if c == b'0'
    then after_zero t
    else positive (digits_value 10 (c ∷ t))

-- `BigInt(text)`; `none` is a SyntaxError.
unfoldable pub big_int : Text → Option ℤ
unfolding trim string_integer
big_int t = string_integer (trim t)

-- The digits at the start of a text, as a number; `none` if there is none.
abbrev pub digits_prefix_from : ℕ → Option ℕ → Text → Option ℕ
digits_prefix_from radix acc [] = acc
digits_prefix_from radix acc (c ∷ t) = elim (in_radix radix (digit_value c)) [
  | none ↦ acc
  | some d ↦ digits_prefix_from radix (some (or_default acc 0 * radix + d)) t
]

abbrev without_hex_prefix : Text → Text
without_hex_prefix (z ∷ x ∷ t) = if (z == b'0') && (x == b'x' || x == b'X') then t else z ∷ x ∷ t
without_hex_prefix t = t

unfoldable pub unsigned_prefix : ℕ → Text → Option ℕ
unsigned_prefix radix t =
    digits_prefix_from radix none (if radix == 16 then without_hex_prefix t else t)

unfoldable pub signed_prefix : ℕ → Text → Option ℤ
unfolding unsigned_prefix
signed_prefix radix [] = none
signed_prefix radix (c ∷ t) =
    if c == b'-'
    then negative (unsigned_prefix radix t)
    else if c == b'+'
    then positive (unsigned_prefix radix t)
    else positive (unsigned_prefix radix (c ∷ t))

-- `parseInt(text, radix)` for the radix 10 or 16; `none` is NaN, and -0 is 0.
unfoldable pub parse_int : ℕ → Text → Option ℤ
unfolding trim_start signed_prefix
parse_int radix t = signed_prefix radix (trim_start t)
