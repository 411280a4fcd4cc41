-- ===== src/Relayer/Amount/Laws.antt =====
-- Proofs about atomicToStellar: the value that an amount text stands for.
use verivyx_monorepo.Prelude.{
  ℕ, ◌+◌, ◌-◌, ◌*◌, ◌^◌, ◌≡◌, ◌≢◌, refl, ◌∙◌, true, false, none, some, [], ◌∷◌, ◌++◌, Text, length,
  take, drop, length-drop, arith, ◌==◌, inr,
}
use verivyx_monorepo.Prelude.Decimal.{pad_start, value, IsCanonical}
use verivyx_monorepo.Prelude.Decimal.Laws.{value_split, length-pad_start, value-pad_start}
use verivyx_monorepo.Relayer.Amount.{
  all_digits, strip_zeros, or_zero, format_stroops, atomic_to_stellar,
}

value-strip_zeros : (t : Text) → value (strip_zeros t) ≡ value t
unfolding strip_zeros
value-strip_zeros [] = refl
value-strip_zeros (c ∷ t) = ground (arith, value-strip_zeros t)

value-or_zero : (t : Text) → value (or_zero t) ≡ value t
value-or_zero [] = refl
value-or_zero (c ∷ t) = refl

strip_zeros-IsCanonical : (t : Text) → IsCanonical (or_zero (strip_zeros t))
unfolding strip_zeros
strip_zeros-IsCanonical [] = inr refl
strip_zeros-IsCanonical (c ∷ t) = ground (arith, strip_zeros-IsCanonical t)

-- An integer part in canonical form, a point, and seven digits, together worth the stroops.
pub record IsAmountOf (digits result : Text) : Type 0 where
  pub whole : Text
  pub frac : Text
  pub shape : result ≡ whole ++ b'.' ∷ frac
  pub seven : length frac ≡ 7
  pub canonical : IsCanonical whole
  pub exact : value whole * 10 ^ 7 + value frac ≡ value digits

format_stroops-IsAmountOf : (digits : Text) → IsAmountOf digits (format_stroops digits)
unfolding format_stroops
format_stroops-IsAmountOf digits =
    let padded = pad_start 8 digits in
    let cut = length padded - 7 in
    let seven : length (drop cut padded) ≡ 7 =
      omega (arith, length-drop cut padded, length-pad_start 8 digits) in
    record {
      whole = or_zero (strip_zeros (take cut padded));
      frac = drop cut padded;
      shape = refl;
      seven = seven;
      canonical = strip_zeros-IsCanonical (take cut padded);
      exact =
          rw (value-or_zero, value-strip_zeros)
            (value_split cut 7 padded seven ∙ value-pad_start 8 digits);
    }

no_minus : (c : ℕ) (t : Text) → all_digits (c ∷ t) ≡ true → (c == b'-') ≡ false
no_minus c t h = ground arith

-- A text of digits is converted: to an integer part without leading zeros, a point and exactly
-- seven digits, which read together as a number are the number of the digits, however large; with
-- a minus before the digits the result is that of the digits with a minus before it.
pub atomic_to_stellar-IsAmountOf :
    (digits : Text)
    → all_digits digits ≡ true
    → (result : Text) × (atomic_to_stellar digits ≡ some result)
      × (atomic_to_stellar (b'-' ∷ digits) ≡ some (b'-' ∷ result))
      × IsAmountOf digits result
unfolding atomic_to_stellar
atomic_to_stellar-IsAmountOf [] h = cc
atomic_to_stellar-IsAmountOf (c ∷ t) h =
    (format_stroops (c ∷ t), rw (no_minus c t h) (rw h), rw h, format_stroops-IsAmountOf (c ∷ t))

-- A text that is no digits, after a minus or without one, is refused.
pub atomic_to_stellar_refuses :
    (c : ℕ) (t : Text) → c ≢ b'-' → all_digits (c ∷ t) ≡ false → atomic_to_stellar (c ∷ t) ≡ none
unfolding atomic_to_stellar
atomic_to_stellar_refuses c t h k = ground arith
