-- ===== src/Relayer/Amount.antt =====
-- atomicToStellar of payment-relayer/src/validation.ts: stroops to an amount with seven decimals.
pub mod Laws
use verivyx_monorepo.Prelude.{
  ℕ, ◌+◌, ◌-◌, ◌*◌, Bool, true, false, ◌&&◌, Option, none, some, List, [], ◌∷◌, ◌++◌, Text, ltb,
  leb, ◌==◌, all, length, take, drop, replicate, if◌then◌else◌,
}
use verivyx_monorepo.Prelude.Decimal.{is_digit, pad_start}

-- `/^\d+$/.test(digits)`.
abbrev pub all_digits : Text → Bool
all_digits [] = false
all_digits (c ∷ t) = all is_digit (c ∷ t)

-- `t.replace(/^0+/, '')`.
unfoldable pub strip_zeros : Text → Text
strip_zeros [] = []
strip_zeros (c ∷ t) = let rest = strip_zeros t in if c == b'0' then rest else c ∷ t

abbrev or_zero : Text → Text
or_zero [] = b'0' ∷ []
or_zero (c ∷ t) = c ∷ t

-- For digits alone: the integer part without leading zeros, a point, and seven digits.
unfoldable pub format_stroops : Text → Text
unfolding pad_start strip_zeros
format_stroops digits =
    let padded = pad_start 8 digits in
    let cut = length padded - 7 in or_zero (strip_zeros (take cut padded)) ++ b'.' ∷ drop cut padded

abbrev checked : Text → Option Text
unfolding format_stroops
checked digits = if all_digits digits then some (format_stroops digits) else none

abbrev signed : Option Text → Option Text
signed none = none
signed (some t) = some (b'-' ∷ t)

-- `none` is the thrown error.
unfoldable pub atomic_to_stellar : Text → Option Text
unfolding checked
atomic_to_stellar [] = checked []
atomic_to_stellar (c ∷ t) = if c == b'-' then signed (checked t) else checked (c ∷ t)
