-- ===== src/Prelude/Decimal/Laws.antt =====
-- Proofs about decimal texts: printing gives the one canonical text of a number.
use verivyx_monorepo.Prelude.{
  take, drop, replicate, length-replicate, take-append-drop, ◌≡⟨◌⟩◌, ◌∎, ℕ, zero, suc, ◌+◌, ◌-◌,
  ◌*◌, ◌/◌, ◌%◌, ◌^◌, ◌≤◌, ◌<◌, ◌≡◌, ◌≢◌, ◌⊎◌, refl, inl, inr, subst, sym, ap, ◌∙◌, Text, Bool,
  true, false, [], ◌∷◌, ◌++◌, ltb, all, length, length-append, arith,
}
use native.Mathlib.Nat.{pow-suc}
use verivyx_monorepo.Prelude.Decimal.{
  pad_start, is_digit, value_from, value, IsCanonical, show_fuel, show,
}

pub value_from-append :
    (acc : ℕ) (s t : Text) → value_from acc (s ++ t) ≡ value_from (value_from acc s) t
value_from-append acc [] t = refl
value_from-append acc (c ∷ s) t = value_from-append (acc * 10 + (c - b'0')) s t

pub value_from_lem : (acc : ℕ) (t : Text) → value_from acc t ≡ acc * 10 ^ length t + value t
value_from_lem acc [] = omega arith
value_from_lem acc (c ∷ t) =
    rw (value_from_lem (acc * 10 + (c - b'0')) t, value_from_lem (0 * 10 + (c - b'0')) t, pow-suc)
      (omega arith)

pub value_from-ge : (acc : ℕ) (t : Text) → acc ≤ value_from acc t
value_from-ge acc [] = omega arith
value_from-ge acc (c ∷ t) = omega (arith, value_from-ge (acc * 10 + (c - b'0')) t)

pub value-snoc : (s : Text) (d : ℕ) → value (s ++ d ∷ []) ≡ value s * 10 + (d - b'0')
value-snoc s d = value_from-append 0 s (d ∷ [])

pub all-append :
    (p : ℕ → Bool) (s t : Text) → all p s ≡ true → all p t ≡ true → all p (s ++ t) ≡ true
all-append p [] t h k = k
all-append p (c ∷ s) t h k = ground (arith, all-append p s t)

pub all_of_append :
    (p : ℕ → Bool) (s t : Text) → all p (s ++ t) ≡ true → (all p s ≡ true) × (all p t ≡ true)
all_of_append p [] t h = (refl, h)
all_of_append p (c ∷ s) t h = ground (arith, all_of_append p s t)

pub value-show_fuel : (fuel n : ℕ) → n < fuel → value (show_fuel fuel n) ≡ n
unfolding show_fuel
value-show_fuel zero n h = absurd (omega arith)
value-show_fuel (suc fuel) n h =
    ground
      (arith, value-snoc (show_fuel fuel (n / 10)) (b'0' + n % 10), value-show_fuel fuel (n / 10))

-- Printing a number gives a text that stands for it.
pub value-show : (n : ℕ) → value (show n) ≡ n
unfolding show
value-show n = value-show_fuel (suc n) n (omega arith)

digits-show_fuel : (fuel n : ℕ) → all is_digit (show_fuel fuel n) ≡ true
unfolding show_fuel
digits-show_fuel zero n = refl
digits-show_fuel (suc fuel) n = ground (
  arith,
  all-append is_digit (show_fuel fuel (n / 10)) ((b'0' + n % 10) ∷ []),
  digits-show_fuel fuel (n / 10),
)

pub digits-show : (n : ℕ) → all is_digit (show n) ≡ true
unfolding show
digits-show n = digits-show_fuel (suc n) n

pub length-show : (n : ℕ) → 0 < length (show n)
unfolding show show_fuel
length-show n = ground (arith, length-append (show_fuel n (n / 10)) ((b'0' + n % 10) ∷ []))

-- A text from its end.
data Snoc : Text → Type 0 where
  empty : Snoc []
  snoc : (s : Text) (d : ℕ) → Snoc s → Snoc (s ++ d ∷ [])

cons-Snoc : (c : ℕ) (t : Text) → Snoc t → Snoc (c ∷ t)
cons-Snoc c t empty = snoc [] c empty
cons-Snoc c t (snoc s d view) = snoc (c ∷ s) d (cons-Snoc c s view)

to-Snoc : (t : Text) → Snoc t
to-Snoc [] = empty
to-Snoc (c ∷ t) = cons-Snoc c t (to-Snoc t)

-- A canonical text of two digits or more is at least ten.
IsCanonical-init :
    (s : Text) (d : ℕ)
    → all is_digit (s ++ d ∷ []) ≡ true
    → IsCanonical (s ++ d ∷ [])
    → (s ≡ []) ⊎ (IsCanonical s × (10 ≤ value (s ++ d ∷ [])))
IsCanonical-init [] d digits canonical = inl refl
IsCanonical-init (c ∷ s) d digits (inl nonzero) = inr (
  inl nonzero,
  ground (arith, value_from-append (0 + (c - b'0')) s (d ∷ []), value_from-ge (0 + (c - b'0')) s),
)
IsCanonical-init (c ∷ []) d digits (inr single) = cc
IsCanonical-init (c ∷ b ∷ s) d digits (inr single) = cc

snoc-ne-nil : (s : Text) (d : ℕ) → s ++ d ∷ [] ≢ []
snoc-ne-nil [] d h = cc
snoc-ne-nil (c ∷ s) d h = cc

single_digit : (fuel d : ℕ) → is_digit d ≡ true → show_fuel (suc fuel) (value (d ∷ [])) ≡ d ∷ []
unfolding show_fuel
single_digit fuel d h = ground arith

-- The text is its digits but the last, and the last.
snoc_step :
    (fuel n m d : ℕ)
    → 10 ≤ n
    → n ≡ m * 10 + (d - b'0')
    → is_digit d ≡ true
    → show_fuel (suc fuel) n ≡ show_fuel fuel m ++ d ∷ []
unfolding show_fuel
snoc_step fuel n m d big split digit =
    let tenth : n / 10 ≡ m = ground arith in
    let last : b'0' + n % 10 ≡ d = ground arith in
    let large : ltb n 10 ≡ false = ground arith in rw large (rw (tenth, last) refl)

canonical-show_fuel :
    (fuel : ℕ) (t : Text)
    → Snoc t
    → value t < fuel
    → all is_digit t ≡ true
    → IsCanonical t
    → show_fuel fuel (value t) ≡ t
canonical-show_fuel fuel [] empty small digits canonical = absurd canonical
canonical-show_fuel zero _ (snoc s d view) small digits canonical = absurd (omega arith)
canonical-show_fuel (suc fuel) _ (snoc s d view) small digits canonical =
    let (inits, lasts) = all_of_append is_digit s (d ∷ []) digits in
    let digit : is_digit d ≡ true = ground arith in
    let split = value-snoc s d in
    elim (IsCanonical-init s d digits canonical) [
      | inl none_before ↦
          subst (λ r. show_fuel (suc fuel) (value (r ++ d ∷ [])) ≡ r ++ d ∷ []) (sym none_before)
            (single_digit fuel d digit)
      | inr (before, big) ↦
          snoc_step fuel (value (s ++ d ∷ [])) (value s) d big split digit
          ∙ ap (λ r. r ++ d ∷ [])
              (canonical-show_fuel fuel s view (omega (arith, split)) inits before)
    ]

-- A canonical text of digits is the print of the number that it stands for.
pub show-value : (t : Text) → all is_digit t ≡ true → IsCanonical t → show (value t) ≡ t
unfolding show
show-value t digits canonical =
    canonical-show_fuel (suc (value t)) t (to-Snoc t) (omega arith) digits canonical

value_zeros : (n : ℕ) (t : Text) → value (replicate n b'0' ++ t) ≡ value t
value_zeros zero t = refl
value_zeros (suc n) t = value_zeros n t

pub length-pad_start : (n : ℕ) (t : Text) → n ≤ length (pad_start n t)
unfolding pad_start
length-pad_start n t = omega (
  arith,
  length-append (replicate (n - length t) b'0') t,
  length-replicate {A = ℕ} (n - length t) b'0',
)

pub value-pad_start : (n : ℕ) (t : Text) → value (pad_start n t) ≡ value t
unfolding pad_start
value-pad_start n t = value_zeros (n - length t) t

pub value_split :
    (cut n : ℕ) (t : Text)
    → length (drop cut t) ≡ n
    → value (take cut t) * 10 ^ n + value (drop cut t) ≡ value t
value_split cut n t size =
    value (take cut t) * 10 ^ n + value (drop cut t)
    ≡⟨ ap (λ k. value (take cut t) * 10 ^ k + value (drop cut t)) (sym size) ⟩
      value (take cut t) * 10 ^ length (drop cut t) + value (drop cut t)
    ≡⟨ sym (value_from_lem (value (take cut t)) (drop cut t)) ⟩
      value_from (value (take cut t)) (drop cut t)
    ≡⟨ sym (value_from-append 0 (take cut t) (drop cut t)) ⟩ value (take cut t ++ drop cut t)
    ≡⟨ ap value (take-append-drop cut t) ⟩ value t ∎
