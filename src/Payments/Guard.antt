-- ===== src/Payments/Guard.antt =====
-- ssrf.ts of the MCP server: which URLs may be fetched for a payment.
pub mod Laws
use verivyx_monorepo.Prelude.{
  ℕ, zero, suc, ◌+◌, ◌-◌, ◌*◌, ◌/◌, ◌%◌, ◌^◌, Bool, true, false, not, ◌&&◌, ◌||◌, Option, none,
  some, List, [], ◌∷◌, ◌++◌, Text, codes, text_eq, starts_with, leb, ◌==◌, length, all, any, map,
  drop, replicate, if◌then◌else◌,
}
use verivyx_monorepo.Prelude.Parse.{split, parse_int, to_lower}
use verivyx_monorepo.Prelude.Decimal.{is_digit, value, show}
use verivyx_monorepo.Gate.Ranges.{natural, split_double_colon}

-- `Number` of the octets of a valid address, below 256, so that `|` is `+`.
abbrev pub number_from : List Text → ℕ
number_from (a ∷ b ∷ c ∷ d ∷ rest) = ((value a * 256 + value b) * 256 + value c) * 256 + value d
number_from _ = 0

unfoldable pub ipv4_to_number : Text → ℕ
ipv4_to_number ip = number_from (split b'.' ip)

-- A block: its base, and the bits of its mask. Masked numbers are equal as their leading bits are.
abbrev pub in_range_4 : ℕ → Text × ℕ → Bool
unfolding ipv4_to_number
in_range_4 ip block = ip / 2 ^ (32 - block.1) == ipv4_to_number block.0 / 2 ^ (32 - block.1)

abbrev pub blocked_v4 : List (Text × ℕ)
blocked_v4 =
    (codes "0.0.0.0", 8)
    ∷ (codes "10.0.0.0", 8)
    ∷ (codes "100.64.0.0", 10)
    ∷ (codes "127.0.0.0", 8)
    ∷ (codes "169.254.0.0", 16)
    ∷ (codes "172.16.0.0", 12)
    ∷ (codes "192.0.0.0", 24)
    ∷ (codes "192.168.0.0", 16)
    ∷ (codes "198.18.0.0", 15)
    ∷ (codes "240.0.0.0", 4)
    ∷ []

unfoldable pub is_blocked_number : ℕ → Bool
unfolding in_range_4
is_blocked_number n = any (in_range_4 n) blocked_v4

unfoldable pub is_blocked_v4 : Text → Bool
unfolding is_blocked_number ipv4_to_number
is_blocked_v4 ip = is_blocked_number (ipv4_to_number ip)

-- A group that is NaN is `none`.
abbrev Groups : Type 0
Groups = List (Option ℕ)

abbrev parse_groups : Text → Groups
parse_groups [] = []
parse_groups (c ∷ t) = map (λ g. natural (parse_int 16 g)) (split b':' (c ∷ t))

abbrev zero_groups : ℕ → Groups
zero_groups n = replicate n (some 0)

abbrev before_zone : List Text → Text
before_zone [] = []
before_zone (addr ∷ rest) = addr

abbrev expand_halves : List Text → Groups
expand_halves (whole ∷ []) =
    let groups = parse_groups whole in if length groups == 8 then groups else zero_groups 8
expand_halves (left ∷ right ∷ []) =
    let l = parse_groups left in
    let r = parse_groups right in l ++ zero_groups (8 - length l - length r) ++ r
expand_halves _ = zero_groups 8

-- For an address of at most eight groups, as a valid one has.
unfoldable pub expand_v6 : Text → Groups
expand_v6 ip = expand_halves (split_double_colon (before_zone (split b'%' ip)))

abbrev is_group : ℕ → Option ℕ → Bool
is_group n none = false
is_group n (some g) = g == n

-- The group's leading bits, from a bit on.
abbrev has_bits : ℕ → ℕ → Option ℕ → Bool
has_bits shift bits none = false
has_bits shift bits (some g) = g % 2 ^ 16 / 2 ^ shift == bits

abbrev are_zero : Groups → Bool
are_zero groups = all (is_group 0) groups

-- The last group is this one, and the others are zero.
abbrev zeros_then : ℕ → Groups → Bool
zeros_then n [] = false
zeros_then n (g ∷ []) = is_group n g
zeros_then n (g ∷ h ∷ gs) = is_group 0 g && zeros_then n (h ∷ gs)

abbrev mapped_v4 : ℕ → ℕ → Text
mapped_v4 hi lo =
    show (hi / 256)
    ++ codes "."
    ++ show (hi % 256)
    ++ codes "."
    ++ show (lo / 256)
    ++ codes "."
    ++ show (lo % 256)

abbrev is_blocked_mapped : Groups → Bool
unfolding is_blocked_v4
is_blocked_mapped (a ∷ b ∷ c ∷ d ∷ e ∷ f ∷ some hi ∷ some lo ∷ []) =
    are_zero (a ∷ b ∷ c ∷ d ∷ e ∷ []) && is_group 0xffff f && is_blocked_v4 (mapped_v4 hi lo)
is_blocked_mapped _ = false

abbrev first_blocked : Groups → Bool
first_blocked [] = false
first_blocked (g ∷ gs) = has_bits 9 126 g || has_bits 6 1018 g

unfoldable pub is_blocked_v6 : Text → Bool
unfolding expand_v6 is_blocked_mapped
is_blocked_v6 ip =
    let groups = expand_v6 ip in
    zeros_then 1 groups || are_zero groups || first_blocked groups || is_blocked_mapped groups

abbrev is_quad_part : Text → Bool
is_quad_part t = leb 1 (length t) && leb (length t) 3 && all is_digit t

abbrev is_quad : List Text → Bool
is_quad parts = length parts == 4 && all is_quad_part parts

-- `/^::ffff:(\d{1,3}\.\d{1,3}\.\d{1,3}\.\d{1,3})$/i`.
unfoldable pub mapped_match : Text → Option Text
mapped_match ip =
    if starts_with (map to_lower ip) (codes "::ffff:") && is_quad (split b'.' (drop 7 ip))
    then some (drop 7 ip)
    else none

abbrev blocked_or_mapped : Text → Option Text → Bool
unfolding is_blocked_v4 is_blocked_v6
blocked_or_mapped ip (some tail) = is_blocked_v4 tail
blocked_or_mapped ip none = is_blocked_v6 ip

pub record Url : Type 0 where
  pub protocol : Text
  pub hostname : Text

-- `net.isIPv4` and `net.isIPv6`, `new URL(url)` and the resolver (`none` if it throws).
pub record Network : Type 0 where
  pub is_ipv4 : Text → Bool
  pub is_ipv6 : Text → Bool
  pub parse_url : Text → Option Url
  pub resolve : Text → Option (List Text)

pub data Verdict : Type 0 where
  safe invalid_url not_https resolver_failed unresolved : Verdict
  blocked : Text → Verdict

module _ (net : Network) where
  unfoldable pub is_blocked_ip : Text → Bool
  unfolding mapped_match blocked_or_mapped is_blocked_v4
  is_blocked_ip ip =
      if net.is_ipv4 ip
      then is_blocked_v4 ip
      else if net.is_ipv6 ip
      then blocked_or_mapped ip (mapped_match ip)
      else true

  unfoldable pub check_ips : List Text → Verdict
  unfolding is_blocked_ip
  check_ips [] = safe
  check_ips (ip ∷ ips) = let rest = check_ips ips in if is_blocked_ip ip then blocked ip else rest

  abbrev pub check_resolved : Option (List Text) → Verdict
  unfolding check_ips
  check_resolved none = resolver_failed
  check_resolved (some []) = unresolved
  check_resolved (some (ip ∷ ips)) = check_ips (ip ∷ ips)

  abbrev pub check_url : Option Url → Verdict
  unfolding check_resolved
  check_url none = invalid_url
  check_url (some url) =
      if text_eq url.protocol (codes "https:")
      then check_resolved (net.resolve url.hostname)
      else not_https

  unfoldable pub assert_public_https_url : Text → Verdict
  unfolding check_url
  assert_public_https_url url = check_url (net.parse_url url)
