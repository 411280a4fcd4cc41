-- ===== src/Prelude/Decimal.antt =====
-- Decimal texts: the number that digits stand for, and `String(n)`.
pub mod Laws
use verivyx_monorepo.Prelude.{
  ℕ, zero, suc, ◌+◌, ◌-◌, ◌*◌, ◌/◌, ◌%◌, ◌≡◌, ◌≢◌, ◌⊎◌, Text, Bool, true, false, ◌&&◌, List, [],
  ◌∷◌, ◌++◌, ltb, leb, all, length, replicate, if◌then◌else◌,
}

abbrev pub is_digit : ℕ → Bool
is_digit c = leb b'0' c && leb c b'9'

-- The number that digits stand for, after a number that stands before them.
abbrev pub value_from : ℕ → Text → ℕ
value_from acc [] = acc
value_from acc (c ∷ t) = value_from (acc * 10 + (c - b'0')) t

abbrev pub value : Text → ℕ
value t = value_from 0 t

-- No leading zero, but for the text "0".
abbrev pub IsCanonical : Text → Type 0
IsCanonical [] = ⊥
IsCanonical (c ∷ t) = (c ≢ b'0') ⊎ (t ≡ [])

-- The digits of a number below the fuel.
unfoldable pub show_fuel : ℕ → ℕ → Text
show_fuel zero n = []
show_fuel (suc fuel) n =
    let rest = show_fuel fuel (n / 10) in
    if ltb n 10 then (b'0' + n) ∷ [] else rest ++ (b'0' + n % 10) ∷ []

-- `String(n)`.
unfoldable pub show : ℕ → Text
unfolding show_fuel
show n = show_fuel (suc n) n

-- `t.padStart(n, '0')`.
unfoldable pub pad_start : ℕ → Text → Text
pad_start n t = replicate (n - length t) b'0' ++ t
