-- ===== src/Gate/Ranges/Octets.antt =====
-- The octets of an IPv4 address (crawlerverify.ts).
use verivyx_monorepo.Prelude.{
  ℕ, zero, suc, ◌+◌, ◌-◌, ◌*◌, ◌/◌, ◌%◌, ◌≤◌, ◌<◌, ◌≡◌, refl, ap, ◌∙◌, Text, true, Option, none,
  some, [], ◌∷◌, text_eq_iff, text_eq_refl, length, length-append, all, arith,
}
use verivyx_monorepo.Prelude.Int.{pos}
use verivyx_monorepo.Prelude.Parse.{
  parse_int, is_space, trim_start, signed_prefix, unsigned_prefix, digits_prefix_from,
}
use verivyx_monorepo.Prelude.Decimal.{show, is_digit, value, value_from, show_fuel}
use verivyx_monorepo.Prelude.Decimal.Laws.{value-show, digits-show, length-show}
use verivyx_monorepo.Gate.Ranges.{natural, octet_if, parse_octet}

digits_prefix-digits :
    (acc : ℕ) (t : Text)
    → all is_digit t ≡ true
    → digits_prefix_from 10 (some acc) t ≡ some (value_from acc t)
digits_prefix-digits acc [] h = refl
digits_prefix-digits acc (c ∷ t) h = ground (arith, digits_prefix-digits (acc * 10 + (c - b'0')) t)

parse_int-digits :
    (t : Text) → all is_digit t ≡ true → 0 < length t → parse_int 10 t ≡ some (pos (value t))
unfolding parse_int trim_start is_space signed_prefix unsigned_prefix
parse_int-digits [] digits some_digit = absurd (omega arith)
parse_int-digits (c ∷ t) digits some_digit = ground (arith, digits_prefix-digits (c - b'0') t)

length-show_fuel-1 : (fuel n : ℕ) → n < 10 → length (show_fuel fuel n) ≤ 1
unfolding show_fuel
length-show_fuel-1 zero n h = omega arith
length-show_fuel-1 (suc fuel) n h = ground arith

length-show_fuel-2 : (fuel n : ℕ) → n < 100 → length (show_fuel fuel n) ≤ 2
unfolding show_fuel
length-show_fuel-2 zero n h = omega arith
length-show_fuel-2 (suc fuel) n h = ground (
  arith,
  length-show_fuel-1 fuel (n / 10),
  length-append (show_fuel fuel (n / 10)) ((b'0' + n % 10) ∷ []),
)

length-show_fuel-3 : (fuel n : ℕ) → n < 1000 → length (show_fuel fuel n) ≤ 3
unfolding show_fuel
length-show_fuel-3 zero n h = omega arith
length-show_fuel-3 (suc fuel) n h = ground (
  arith,
  length-show_fuel-2 fuel (n / 10),
  length-append (show_fuel fuel (n / 10)) ((b'0' + n % 10) ∷ []),
)

length-show-octet : (n : ℕ) → n ≤ 255 → length (show n) ≤ 3
unfolding show
length-show-octet n h = length-show_fuel-3 (suc n) n (omega arith)

pub parse_int-show : (n : ℕ) → parse_int 10 (show n) ≡ some (pos n)
parse_int-show n =
    parse_int-digits (show n) (digits-show n) (length-show n)
    ∙ ap (λ m. some (pos m)) (value-show n)

octet-cons :
    (t : Text) → 0 < length t → length t ≤ 3 → parse_octet t ≡ octet_if t (natural (parse_int 10 t))
unfolding parse_octet
octet-cons [] some_digit short = absurd (omega arith)
octet-cons (c ∷ t) some_digit short = ground arith

octet_if-show : (n : ℕ) → n ≤ 255 → octet_if (show n) (some n) ≡ some n
octet_if-show n small = ground (arith, text_eq_refl (show n))

pub parse_octet-show : (n : ℕ) → n ≤ 255 → parse_octet (show n) ≡ some n
parse_octet-show n small =
    octet-cons (show n) (length-show n) (length-show-octet n small)
    ∙ ap (λ o. octet_if (show n) (natural o)) (parse_int-show n)
    ∙ octet_if-show n small

octet_if_sound :
    (t : Text) (o : Option ℕ) (n : ℕ) → octet_if t o ≡ some n → (t ≡ show n) × (n ≤ 255)
octet_if_sound t none n h = cc
octet_if_sound t (some m) n h = ground (arith, text_eq_iff (show m) t)

pub parse_octet_sound : (t : Text) (n : ℕ) → parse_octet t ≡ some n → (t ≡ show n) × (n ≤ 255)
unfolding parse_octet
parse_octet_sound [] n h = cc
parse_octet_sound (c ∷ t) n h =
    ground (arith, octet_if_sound (c ∷ t) (natural (parse_int 10 (c ∷ t))) n)
