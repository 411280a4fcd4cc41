-- ===== src/Payments/Guard/Laws.antt =====
-- Proofs about the guard on URLs.
use verivyx_monorepo.Prelude.{
  ℕ, ◌/◌, ◌%◌, ◌^◌, ◌≤◌, ◌<◌, ◌≡◌, ◌↔◌, ◌⊎◌, refl, inl, inr, true, false, Option, none, some, List,
  [], ◌∷◌, Text, codes, text_eq, text_eq_iff, All, Bool-cases, arith,
}
use verivyx_monorepo.Prelude.Parse.{split}
use verivyx_monorepo.Prelude.Decimal.Laws.{value-show}
use verivyx_monorepo.Gate.Ranges.Laws.{address, split-dotted}
use verivyx_monorepo.Payments.Guard.{
  ipv4_to_number, in_range_4, is_blocked_number, is_blocked_v4, Url, Network, safe, is_blocked_ip,
  check_ips, check_resolved, check_url, assert_public_https_url,
}

-- The blocked numbers, as intervals.
abbrev pub IsReserved : ℕ → Type 0
IsReserved n =
    (n < 0x01000000)
    ⊎ ((0x0a000000 ≤ n) × (n < 0x0b000000))
    ⊎ ((0x64400000 ≤ n) × (n < 0x64800000))
    ⊎ ((0x7f000000 ≤ n) × (n < 0x80000000))
    ⊎ ((0xa9fe0000 ≤ n) × (n < 0xa9ff0000))
    ⊎ ((0xac100000 ≤ n) × (n < 0xac200000))
    ⊎ ((0xc0000000 ≤ n) × (n < 0xc0000100))
    ⊎ ((0xc0a80000 ≤ n) × (n < 0xc0a90000))
    ⊎ ((0xc6120000 ≤ n) × (n < 0xc6140000))
    ⊎ ((0xf0000000 ≤ n) × (n < 0x100000000))

is_blocked_number_iff : (n : ℕ) → (is_blocked_number n ≡ true) ↔ IsReserved n
unfolding is_blocked_number in_range_4 ipv4_to_number split
is_blocked_number_iff n = ground arith

ipv4_to_number-address : (n : ℕ) → n < 2 ^ 32 → ipv4_to_number (address n) ≡ n
unfolding ipv4_to_number
ipv4_to_number-address n h =
    let a = n / 2 ^ 24 in
    let b = n / 2 ^ 16 % 256 in
    let c = n / 2 ^ 8 % 256 in
    let d = n % 256 in
    rw (split-dotted a b c d, value-show a, value-show b, value-show c, value-show d) (omega arith)

module _ (net : Network) where
  -- An IPv4 address is blocked exactly when its number is in one of the reserved intervals.
  pub is_blocked_ip-IsReserved :
      (n : ℕ)
      → n < 2 ^ 32
      → net.is_ipv4 (address n) ≡ true
      → (is_blocked_ip net (address n) ≡ true) ↔ IsReserved n
  unfolding is_blocked_ip is_blocked_v4
  is_blocked_ip-IsReserved n small valid =
      rw (valid, ipv4_to_number-address n small) (is_blocked_number_iff n)

  abbrev pub IsOpen : Text → Type 0
  IsOpen ip = is_blocked_ip net ip ≡ false

  -- An https URL whose host has addresses, none of them blocked.
  pub record IsPublic (url : Text) : Type 0 where
    pub parts : Url
    pub first : Text
    pub others : List Text
    pub parsed : net.parse_url url ≡ some parts
    pub https : parts.protocol ≡ codes "https:"
    pub resolved : net.resolve parts.hostname ≡ some (first ∷ others)
    pub all_open : All IsOpen (first ∷ others)

  check_ips-IsOpen : (ips : List Text) → check_ips net ips ≡ safe → All IsOpen ips
  unfolding check_ips
  check_ips-IsOpen [] h = tt
  check_ips-IsOpen (ip ∷ ips) h = elim (Bool-cases (is_blocked_ip net ip)) [
    | inl shut ↦ absurd (cc (rw shut at h))
    | inr clear ↦ (clear, check_ips-IsOpen ips (rw clear at h))
  ]

  check_resolved_inv :
      (o : Option (List Text))
      → check_resolved net o ≡ safe
      → (first : Text) × (others : List Text) × (o ≡ some (first ∷ others))
        × All IsOpen (first ∷ others)
  unfolding check_resolved
  check_resolved_inv none h = absurd (cc h)
  check_resolved_inv (some []) h = absurd (cc h)
  check_resolved_inv (some (ip ∷ ips)) h = (ip, ips, refl, check_ips-IsOpen (ip ∷ ips) h)

  check_url-IsPublic :
      (url : Text) (o : Option Url) → net.parse_url url ≡ o → check_url net o ≡ safe → IsPublic url
  unfolding check_url
  check_url-IsPublic url none parsed h = absurd (cc h)
  check_url-IsPublic url (some parts) parsed h =
      elim (Bool-cases (text_eq parts.protocol (codes "https:"))) [
        | inr other ↦ absurd (cc (rw other at h))
        | inl same ↦
            let (first, others, resolved, all_open) =
              check_resolved_inv (net.resolve parts.hostname) (rw same at h) in
            record {
              parts = parts;
              first = first;
              others = others;
              parsed = parsed;
              https = (text_eq_iff parts.protocol (codes "https:")).0 same;
              resolved = resolved;
              all_open = all_open;
            }
      ]

  -- A URL that the guard lets pass is an https URL whose host resolves, and to no blocked address.
  pub assert_public_https_url-IsPublic :
      (url : Text) → assert_public_https_url net url ≡ safe → IsPublic url
  unfolding assert_public_https_url
  assert_public_https_url-IsPublic url = check_url-IsPublic url (net.parse_url url) refl
