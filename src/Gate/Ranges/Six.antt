-- ===== src/Gate/Ranges/Six.antt =====
-- Proofs about IPv6 addresses.
use verivyx_monorepo.Prelude.{
  ℕ, ◌+◌, ◌-◌, ◌*◌, ◌^◌, ◌<◌, ◌≡◌, inl, inr, Text, Option, none, some, Option-cases, Bool-cases,
  List, [], ◌∷◌, ◌++◌, codes, length, any, replicate, ltb, ◌==◌, arith,
}
use verivyx_monorepo.Prelude.Parse.{split, parse_int}
use verivyx_monorepo.Gate.Ranges.{
  natural, group_if, parse_group, groups_from, groups_to_number, groups_of, filled, from_halves,
  parse_ipv6, split_double_colon,
}

group_if_bound : (o : Option ℕ) (n : ℕ) → group_if o ≡ some n → n < 2 ^ 16
group_if_bound none n h = absurd (cc h)
group_if_bound (some m) n h = ground arith

parse_group_bound : (g : Text) (n : ℕ) → parse_group g ≡ some n → n < 2 ^ 16
unfolding parse_group
parse_group_bound [] n h = absurd (cc h)
parse_group_bound (c ∷ t) n h = ground (arith, group_if_bound (natural (parse_int 16 (c ∷ t))) n)

group_step :
    (acc n : ℕ) (g : Text) (gs : List Text)
    → groups_from acc (g ∷ gs) ≡ some n
    → (m : ℕ) × (m < 2 ^ 16) × (groups_from (acc * 2 ^ 16 + m) gs ≡ some n)
unfolding groups_from
group_step acc n g gs h = elim (Option-cases (parse_group g)) [
  | inl failed ↦ absurd (cc (rw (failed, groups_from) at h))
  | inr (m, parsed) ↦ (m, parse_group_bound g m parsed, rw (parsed, groups_from) at h)
]

eight_groups :
    (a b c d e f g h : Text) (n : ℕ)
    → groups_from 0 (a ∷ b ∷ c ∷ d ∷ e ∷ f ∷ g ∷ h ∷ []) ≡ some n
    → n < 2 ^ 128
unfolding groups_from
eight_groups a b c d e f g h n r =
    let (m1, s1, r1) = group_step 0 n a (b ∷ c ∷ d ∷ e ∷ f ∷ g ∷ h ∷ []) r in
    let (m2, s2, r2) = group_step (0 * 2 ^ 16 + m1) n b (c ∷ d ∷ e ∷ f ∷ g ∷ h ∷ []) r1 in
    let (m3, s3, r3) =
      group_step ((0 * 2 ^ 16 + m1) * 2 ^ 16 + m2) n c (d ∷ e ∷ f ∷ g ∷ h ∷ []) r2 in
    let (m4, s4, r4) =
      group_step (((0 * 2 ^ 16 + m1) * 2 ^ 16 + m2) * 2 ^ 16 + m3) n d (e ∷ f ∷ g ∷ h ∷ []) r3 in
    let (m5, s5, r5) =
      group_step ((((0 * 2 ^ 16 + m1) * 2 ^ 16 + m2) * 2 ^ 16 + m3) * 2 ^ 16 + m4) n e
        (f ∷ g ∷ h ∷ []) r4 in
    let (m6, s6, r6) =
      group_step (((((0 * 2 ^ 16 + m1) * 2 ^ 16 + m2) * 2 ^ 16 + m3) * 2 ^ 16 + m4) * 2 ^ 16 + m5) n
        f (g ∷ h ∷ []) r5 in
    let (m7, s7, r7) =
      group_step
        ((((((0 * 2 ^ 16 + m1) * 2 ^ 16 + m2) * 2 ^ 16 + m3) * 2 ^ 16 + m4) * 2 ^ 16 + m5) * 2 ^ 16
          + m6)
        n g (h ∷ []) r6 in
    let (m8, s8, r8) =
      group_step
        (((((((0 * 2 ^ 16 + m1) * 2 ^ 16 + m2) * 2 ^ 16 + m3) * 2 ^ 16 + m4) * 2 ^ 16 + m5) * 2 ^ 16
              + m6)
            * 2 ^ 16
          + m7)
        n h [] r7 in
    let total : (((((((0 * 2 ^ 16 + m1) * 2 ^ 16 + m2) * 2 ^ 16 + m3) * 2 ^ 16 + m4) * 2 ^ 16 + m5)
                    * 2 ^ 16
                  + m6)
                * 2 ^ 16
              + m7)
            * 2 ^ 16
          + m8
        ≡ n =
      ground arith in
    omega (arith, total)

groups_to_number_bound : (gs : List Text) (n : ℕ) → groups_to_number gs ≡ some n → n < 2 ^ 128
unfolding groups_to_number
groups_to_number_bound (a ∷ b ∷ c ∷ d ∷ e ∷ f ∷ g ∷ h ∷ []) n r = eight_groups a b c d e f g h n r
groups_to_number_bound [] n r = absurd (cc r)
groups_to_number_bound (a ∷ []) n r = absurd (cc r)
groups_to_number_bound (a ∷ b ∷ []) n r = absurd (cc r)
groups_to_number_bound (a ∷ b ∷ c ∷ []) n r = absurd (cc r)
groups_to_number_bound (a ∷ b ∷ c ∷ d ∷ []) n r = absurd (cc r)
groups_to_number_bound (a ∷ b ∷ c ∷ d ∷ e ∷ []) n r = absurd (cc r)
groups_to_number_bound (a ∷ b ∷ c ∷ d ∷ e ∷ f ∷ []) n r = absurd (cc r)
groups_to_number_bound (a ∷ b ∷ c ∷ d ∷ e ∷ f ∷ g ∷ []) n r = absurd (cc r)
groups_to_number_bound (a ∷ b ∷ c ∷ d ∷ e ∷ f ∷ g ∷ h ∷ i ∷ gs) n r = ground arith

filled_bound : (left right : List Text) (n : ℕ) → filled left right ≡ some n → n < 2 ^ 128
unfolding filled
filled_bound left right n h = elim (Bool-cases (ltb (length left + length right) 8)) [
  | inl fits ↦
      groups_to_number_bound
        (left ++ replicate (8 - length left - length right) (codes "0") ++ right) n (rw fits at h)
  | inr over ↦ absurd (cc (rw over at h))
]

from_halves_bound :
    (addr : Text) (halves : List Text) (n : ℕ) → from_halves addr halves ≡ some n → n < 2 ^ 128
unfolding from_halves
from_halves_bound addr [] n h = absurd (cc h)
from_halves_bound addr (whole ∷ []) n h = groups_to_number_bound (split b':' addr) n h
from_halves_bound addr (left ∷ right ∷ []) n h = filled_bound (groups_of left) (groups_of right) n h
from_halves_bound addr (a ∷ b ∷ c ∷ rest) n h = absurd (cc h)

-- Whatever text the IPv6 parser accepts, the number it gives has 128 bits.
pub parse_ipv6_bounds : (addr : Text) (n : ℕ) → parse_ipv6 addr ≡ some n → n < 2 ^ 128
unfolding parse_ipv6
parse_ipv6_bounds addr n h = elim (Bool-cases (any (λ c. c == b'.') addr)) [
  | inl dotted ↦ absurd (cc (rw dotted at h))
  | inr plain ↦ from_halves_bound addr (split_double_colon addr) n (rw plain at h)
]
