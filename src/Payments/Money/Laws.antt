-- ===== src/Payments/Money/Laws.antt =====
-- Proofs about amounts: printing atomic units and reading them back.
use verivyx_monorepo.Prelude.{
  ℕ, zero, suc, ◌+◌, ◌-◌, ◌*◌, ◌^◌, ◌≤◌, ◌<◌, ◌≡◌, refl, inl, inr, sym, subst, ap, ◌∙◌, true, false,
  none, some, [], ◌∷◌, ◌++◌, Text, ◌==◌, all, length, take, drop, replicate, length-drop,
  length-append, take-append-drop, Bool-cases, arith,
}
use verivyx_monorepo.Prelude.Int.{pos}
use verivyx_monorepo.Prelude.Parse.{
  split, big_int, trim, trim_start, trim_end, trim_end_step, is_space, string_integer, after_zero,
  prefixed, digits_value, digits_from,
}
use verivyx_monorepo.Prelude.Parse.Laws.{lacks, split-lacks, split-append}
use verivyx_monorepo.Prelude.Decimal.{is_digit, value, value_from, IsCanonical, pad_start}
use verivyx_monorepo.Prelude.Decimal.Laws.{
  value_split, length-pad_start, value-pad_start, all_of_append, all-append,
}
use verivyx_monorepo.Payments.Money.{
  strip_leading, strip_step, strip_end, or_zero_text, point, fraction_of, unsigned_atoms,
  atoms_to_decimal_string, parts_of, sum_of, scaled, decimal_to_base_units,
}

digits_from-digits :
    (acc : ℕ) (t : Text) → all is_digit t ≡ true → digits_from 10 acc t ≡ some (value_from acc t)
unfolding digits_from
digits_from-digits acc [] h = refl
digits_from-digits acc (c ∷ t) h = ground (arith, digits_from-digits (acc * 10 + (c - b'0')) t)

trim_end-digits : (t : Text) → all is_digit t ≡ true → trim_end t ≡ t
unfolding trim_end trim_end_step is_space
trim_end-digits [] h = refl
trim_end-digits (c ∷ []) h = ground arith
trim_end-digits (c ∷ d ∷ t) h =
    let rest : trim_end (d ∷ t) ≡ d ∷ t = trim_end-digits (d ∷ t) (ground arith) in rw rest refl

trim_start-digit : (c : ℕ) (t : Text) → is_digit c ≡ true → trim_start (c ∷ t) ≡ c ∷ t
unfolding trim_start is_space
trim_start-digit c t h = ground arith

trim-digits : (t : Text) → all is_digit t ≡ true → trim t ≡ t
unfolding trim
trim-digits [] h = refl
trim-digits (c ∷ t) h =
    ap trim_end (trim_start-digit c t (ground arith)) ∙ trim_end-digits (c ∷ t) h

after_zero-digits : (t : Text) → all is_digit t ≡ true → after_zero t ≡ some (pos (value t))
unfolding after_zero digits_value
after_zero-digits [] h = refl
after_zero-digits (c ∷ t) h =
    let other : prefixed c ≡ none = ground arith in
    rw (other, after_zero, digits_from-digits 0 (c ∷ t) h) refl

string_integer-digits : (t : Text) → all is_digit t ≡ true → string_integer t ≡ some (pos (value t))
unfolding string_integer digits_value
string_integer-digits [] h = refl
string_integer-digits (c ∷ t) h =
    let minus : (c == b'-') ≡ false = ground arith in
    let plus : (c == b'+') ≡ false = ground arith in
    elim (Bool-cases (c == b'0')) [
      | inl leads ↦
          let digit : c ≡ b'0' = ground arith in
          rw (minus, plus, leads, digit) (after_zero-digits t (ground arith))
      | inr other ↦ rw (minus, plus, other, digits_from-digits 0 (c ∷ t) h) refl
    ]

big_int-digits : (t : Text) → all is_digit t ≡ true → big_int t ≡ some (pos (value t))
unfolding big_int
big_int-digits t h = ap string_integer (trim-digits t h) ∙ string_integer-digits t h

strip_leading-IsCanonical : (t : Text) → IsCanonical t → strip_leading t ≡ t
unfolding strip_leading
strip_leading-IsCanonical [] h = refl
strip_leading-IsCanonical (c ∷ []) h = refl
strip_leading-IsCanonical (c ∷ d ∷ t) (inl nonzero) = ground arith
strip_leading-IsCanonical (c ∷ d ∷ t) (inr single) = cc

-- Zeros at the end come back when the text is filled up.
take-strip_end :
    (f : Text) (n : ℕ) → length f ≤ n → take (length f) (strip_end f ++ replicate n b'0') ≡ f
unfolding strip_end
take-strip_end [] n h = refl
take-strip_end (c ∷ f) zero h = absurd (omega arith)
take-strip_end (c ∷ f) (suc n) h =
    by_rest (strip_end f) (take-strip_end f n (omega arith))
      (take-strip_end f (suc n) (omega arith))
  where
    by_rest :
        (rest : Text)
        → take (length f) (rest ++ replicate n b'0') ≡ f
        → take (length f) (rest ++ replicate (suc n) b'0') ≡ f
        → take (suc (length f)) (strip_step c rest ++ replicate (suc n) b'0') ≡ c ∷ f
    by_rest [] fewer more = elim (Bool-cases (c == b'0')) [
      | inl zeros ↦
          let digit : c ≡ b'0' = ground arith in rw (zeros, digit) (ap (λ r. b'0' ∷ r) fewer)
      | inr other ↦ rw other (ap (λ r. c ∷ r) more)
    ]
    by_rest (d ∷ t) fewer more = ap (λ r. c ∷ r) more

lacks-digits : (t : Text) → all is_digit t ≡ true → lacks b'.' t ≡ true
lacks-digits [] h = refl
lacks-digits (c ∷ t) h = ground (arith, lacks-digits t)

strip_end-digits : (t : Text) → all is_digit t ≡ true → all is_digit (strip_end t) ≡ true
unfolding strip_end
strip_end-digits [] h = refl
strip_end-digits (c ∷ t) h = by_rest (strip_end t) (strip_end-digits t (ground arith))
  where
    by_rest : (rest : Text) → all is_digit rest ≡ true → all is_digit (strip_step c rest) ≡ true
    by_rest [] r = ground arith
    by_rest (d ∷ u) r = ground arith

parts_of-point :
    (whole frac : Text)
    → lacks b'.' whole ≡ true
    → lacks b'.' frac ≡ true
    → parts_of (split b'.' (point whole frac)) ≡ (whole, frac)
parts_of-point whole [] h k = ap parts_of (split-lacks b'.' whole h)
parts_of-point whole (c ∷ frac) h k =
    ap parts_of
      (split-append b'.' whole (c ∷ frac) h ∙ ap (λ r. whole ∷ r) (split-lacks b'.' (c ∷ frac) k))

all-replicate : (n : ℕ) → all is_digit (replicate n b'0') ≡ true
all-replicate zero = refl
all-replicate (suc n) = all-replicate n

pad_start-digits : (n : ℕ) (t : Text) → all is_digit t ≡ true → all is_digit (pad_start n t) ≡ true
unfolding pad_start
pad_start-digits n t h =
    all-append is_digit (replicate (n - length t) b'0') t (all-replicate (n - length t)) h

or_zero_text_lem : (t : Text) → 0 < length t → or_zero_text t ≡ t
or_zero_text_lem [] h = absurd (omega arith)
or_zero_text_lem (c ∷ t) h = refl

value-or_zero_text : (t : Text) → value (or_zero_text t) ≡ value t
value-or_zero_text [] = refl
value-or_zero_text (c ∷ t) = refl

or_zero_text-digits : (t : Text) → all is_digit t ≡ true → all is_digit (or_zero_text t) ≡ true
or_zero_text-digits [] h = refl
or_zero_text-digits (c ∷ t) h = h

empty-length : (t : Text) → length t ≡ 0 → strip_end t ≡ []
unfolding strip_end
empty-length [] h = refl
empty-length (c ∷ t) h = absurd (omega arith)

fraction_of_lem :
    (decimals : ℕ) (padded : Text)
    → decimals ≤ length padded
    → fraction_of decimals padded ≡ strip_end (drop (length padded - decimals) padded)
unfolding fraction_of
fraction_of_lem decimals padded h = elim (Bool-cases (decimals == 0)) [
  | inl zeros ↦
      let none_left = length-drop (length padded - decimals) padded in
      let exact : decimals ≡ 0 = ground arith in
      rw zeros (sym (empty-length (drop (length padded - decimals) padded) (omega arith)))
  | inr some_left ↦ rw some_left refl
]

scaled-read :
    (parts : Text × Text) (whole frac : Text) (decimals : ℕ)
    → parts ≡ (whole, strip_end frac)
    → all is_digit whole ≡ true
    → all is_digit frac ≡ true
    → length frac ≡ decimals
    → scaled parts decimals ≡ some (pos (value whole * 10 ^ decimals + value frac))
unfolding scaled
scaled-read parts whole frac decimals shape whole_digits frac_digits size =
    let filled : take decimals (strip_end frac ++ replicate decimals b'0') ≡ frac =
      subst (λ n. take n (strip_end frac ++ replicate decimals b'0') ≡ frac) size
        (take-strip_end frac decimals (omega arith)) in
    let read_whole = big_int-digits whole whole_digits in
    let read_frac : big_int (or_zero_text frac) ≡ some (pos (value frac)) =
      big_int-digits (or_zero_text frac) (or_zero_text-digits frac frac_digits)
      ∙ ap (λ n. some (pos n)) (value-or_zero_text frac) in
    ap
      (λ q.
        sum_of (big_int q.0)
          (big_int (or_zero_text (take decimals (q.1 ++ replicate decimals b'0')))) (10 ^ decimals))
      shape
    ∙ ap (λ f. sum_of (big_int whole) (big_int (or_zero_text f)) (10 ^ decimals)) filled
    ∙ ap (λ o. sum_of o (big_int (or_zero_text frac)) (10 ^ decimals)) read_whole
    ∙ ap (λ o. sum_of (some (pos (value whole))) o (10 ^ decimals)) read_frac

-- The integer part and the fraction of a padded text, read back with their scale.
scaled-padded :
    (decimals : ℕ) (padded : Text)
    → decimals + 1 ≤ length padded
    → all is_digit padded ≡ true
    → scaled
        (parts_of (
          split b'.' (
            point
              (or_zero_text (take (length padded - decimals) padded))
              (fraction_of decimals padded))))
        decimals
      ≡ some (pos (value padded))
scaled-padded decimals padded size digits =
    let cut = length padded - decimals in
    let whole = take cut padded in
    let frac = drop cut padded in
    let halves = take-append-drop cut padded in
    let frac_size : length frac ≡ decimals = omega (arith, length-drop cut padded) in
    let (whole_digits, frac_digits) =
      all_of_append is_digit whole frac (subst (λ t. all is_digit t ≡ true) (sym halves) digits) in
    let whole_size : 0 < length whole = omega (arith, length-append whole frac, ap length halves) in
    let shown : point (or_zero_text whole) (fraction_of decimals padded)
        ≡ point whole (strip_end frac) =
      ap (λ w. point w (fraction_of decimals padded)) (or_zero_text_lem whole whole_size)
      ∙ ap (point whole) (fraction_of_lem decimals padded (omega arith)) in
    scaled-read (parts_of (split b'.' (point (or_zero_text whole) (fraction_of decimals padded))))
      whole frac decimals
      (ap (λ t. parts_of (split b'.' t)) shown
        ∙ parts_of-point whole (strip_end frac) (lacks-digits whole whole_digits)
            (lacks-digits (strip_end frac) (strip_end-digits frac frac_digits)))
      whole_digits frac_digits frac_size
    ∙ ap (λ n. some (pos n)) (value_split cut decimals padded frac_size)

-- Printing an amount of atomic units, given as digits without leading zeros, as a decimal text and
-- converting that back gives the amount, whatever the number of decimals.
pub decimal_to_base_units-atoms :
    (digits : Text) (decimals : ℕ)
    → all is_digit digits ≡ true
    → IsCanonical digits
    → decimal_to_base_units (atoms_to_decimal_string digits decimals) decimals
      ≡ some (pos (value digits))
unfolding decimal_to_base_units atoms_to_decimal_string unsigned_atoms
decimal_to_base_units-atoms [] decimals h canonical = absurd canonical
decimal_to_base_units-atoms (c ∷ t) decimals h canonical =
    let unsigned : (c == b'-') ≡ false = ground arith in
    let kept = strip_leading-IsCanonical (c ∷ t) canonical in
    let padded = pad_start (decimals + 1) (c ∷ t) in
    rw (unsigned, kept)
      (scaled-padded decimals padded (length-pad_start (decimals + 1) (c ∷ t))
          (pad_start-digits (decimals + 1) (c ∷ t) h)
        ∙ ap (λ n. some (pos n)) (value-pad_start (decimals + 1) (c ∷ t)))
