-- ===== src/Gate/Ranges.antt =====
-- crawlerverify.ts: whether an address is in a published range.
pub mod Octets
pub mod Laws
pub mod Six
use verivyx_monorepo.Prelude.{
  ℕ, zero, suc, ◌+◌, ◌-◌, ◌*◌, ◌/◌, ◌%◌, ◌^◌, ◌≤◌, ◌≡◌, Text, Bool, true, false, not, ◌&&◌, ◌||◌,
  Option, none, some, List, [], ◌∷◌, ◌++◌, codes, text_eq, includes, ltb, leb, ◌==◌, length, any,
  replicate, if◌then◌else◌,
}
use verivyx_monorepo.Prelude.Int.{ℤ, pos, negsuc}
use verivyx_monorepo.Prelude.Parse.{split, parse_int}
use verivyx_monorepo.Prelude.Decimal.{show}

-- A number that is not negative, and not NaN.
abbrev pub natural : Option ℤ → Option ℕ
natural (some (pos n)) = some n
natural _ = none

abbrev pub octet_if : Text → Option ℕ → Option ℕ
octet_if part none = none
octet_if part (some n) = if ltb 255 n then none else if text_eq (show n) part then some n else none

-- One part of an IPv4 address.
unfoldable pub parse_octet : Text → Option ℕ
parse_octet [] = none
parse_octet (c ∷ t) =
    if ltb 3 (length (c ∷ t)) then none else octet_if (c ∷ t) (natural (parse_int 10 (c ∷ t)))

-- `result = (result * 256 + n) >>> 0` for each part.
unfoldable pub octets_to_number : ℕ → List Text → Option ℕ
octets_to_number acc [] = some acc
octets_to_number acc (part ∷ parts) = elim (parse_octet part) [
  | none ↦ none
  | some n ↦ octets_to_number ((acc * 256 + n) % 2 ^ 32) parts
]

unfoldable pub parse_ipv4 : Text → Option ℕ
unfolding octets_to_number
parse_ipv4 addr =
    let parts = split b'.' addr in if length parts == 4 then octets_to_number 0 parts else none

abbrev pub group_if : Option ℕ → Option ℕ
group_if none = none
group_if (some n) = if ltb 0xffff n then none else some n

unfoldable pub parse_group : Text → Option ℕ
parse_group [] = none
parse_group (c ∷ t) =
    if ltb 4 (length (c ∷ t)) then none else group_if (natural (parse_int 16 (c ∷ t)))

unfoldable pub groups_from : ℕ → List Text → Option ℕ
groups_from acc [] = some acc
groups_from acc (g ∷ gs) = elim (parse_group g) [
  | none ↦ none
  | some n ↦ groups_from (acc * 2 ^ 16 + n) gs
]

unfoldable pub groups_to_number : List Text → Option ℕ
unfolding groups_from
groups_to_number groups = if length groups == 8 then groups_from 0 groups else none

abbrev pub cons_first : ℕ → List Text → List Text
cons_first c [] = (c ∷ []) ∷ []
cons_first c (w ∷ ws) = (c ∷ w) ∷ ws

-- `t.split("::")`.
unfoldable pub split_double_colon : Text → List Text
split_double_colon [] = [] ∷ []
split_double_colon (c ∷ []) = (c ∷ []) ∷ []
split_double_colon (c ∷ d ∷ t) = elim ((c == b':') && (d == b':')) [
  | true ↦ [] ∷ split_double_colon t
  | false ↦ cons_first c (split_double_colon (d ∷ t))
]

abbrev pub groups_of : Text → List Text
groups_of [] = []
groups_of (c ∷ t) = split b':' (c ∷ t)

-- `::` stands for at least one group of zeros.
abbrev pub filled : List Text → List Text → Option ℕ
unfolding groups_to_number
filled left right =
    if ltb (length left + length right) 8
    then groups_to_number (left ++ replicate (8 - length left - length right) (codes "0") ++ right)
    else none

abbrev pub from_halves : Text → List Text → Option ℕ
unfolding filled
from_halves addr (left ∷ right ∷ []) = filled (groups_of left) (groups_of right)
from_halves addr (whole ∷ []) = groups_to_number (split b':' addr)
from_halves addr _ = none

unfoldable pub parse_ipv6 : Text → Option ℕ
unfolding split_double_colon from_halves
parse_ipv6 addr =
    if any (λ c. c == b'.') addr then none else from_halves addr (split_double_colon addr)

-- The text before the last `/` and the text after it.
unfoldable pub cut_at_last_slash : Text → Option (Text × Text)
cut_at_last_slash [] = none
cut_at_last_slash (c ∷ t) = elim (cut_at_last_slash t) [
  | some p ↦ some (c ∷ p.0, p.1)
  | none ↦ if c == b'/' then some ([], t) else none
]

-- Both numbers, shifted right by the bits outside of the prefix.
abbrev pub same_prefix : ℕ → ℕ → Option ℕ → Option ℕ → Bool
same_prefix width prefix (some a) (some b) =
    if prefix == 0 then true else a / 2 ^ (width - prefix) == b / 2 ^ (width - prefix)
same_prefix width prefix _ _ = false

abbrev pub in_range : Text → Text → ℕ → Bool
in_range ip addr prefix =
    if any (λ c. c == b':') ip || any (λ c. c == b':') addr
    then (if ltb 128 prefix
        then false
        else same_prefix 128 prefix (parse_ipv6 ip) (parse_ipv6 addr))
    else (if ltb 32 prefix then false else same_prefix 32 prefix (parse_ipv4 ip) (parse_ipv4 addr))

abbrev pub in_cut : Text → Option (Text × Text) → Bool
in_cut ip none = false
in_cut ip (some (addr, prefix)) = elim (natural (parse_int 10 prefix)) [
  | none ↦ false
  | some n ↦ in_range ip addr n
]

unfoldable pub ip_in_cidr : Text → Text → Bool
unfolding parse_ipv4 parse_ipv6 cut_at_last_slash
ip_in_cidr ip cidr = in_cut ip (cut_at_last_slash cidr)
