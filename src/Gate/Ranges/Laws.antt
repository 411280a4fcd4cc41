-- ===== src/Gate/Ranges/Laws.antt =====
-- Proofs about IPv4 addresses and ranges.
use verivyx_monorepo.Prelude.{
  ℕ, zero, suc, ◌+◌, ◌-◌, ◌*◌, ◌/◌, ◌%◌, ◌^◌, ◌≤◌, ◌<◌, ◌≡◌, ◌↔◌, refl, inl, inr, ap, ◌∙◌, Text,
  Bool, true, false, not, ◌||◌, Option, none, some, Option-cases, List, [], ◌∷◌, ◌++◌, map, ltb,
  ◌==◌, length, any, all, if◌then◌else◌, arith, ==_iff,
}
use verivyx_monorepo.Prelude.Parse.{split}
use verivyx_monorepo.Prelude.Parse.Laws.{join, lacks, split-lacks, split-append, split_four}
use verivyx_monorepo.Prelude.Decimal.{show, is_digit}
use verivyx_monorepo.Prelude.Decimal.Laws.{all-append, digits-show}
use verivyx_monorepo.Gate.Ranges.{
  natural, parse_octet, octets_to_number, parse_ipv4, parse_ipv6, cut_at_last_slash, same_prefix,
  in_range, in_cut, ip_in_cidr,
}
use verivyx_monorepo.Gate.Ranges.Octets.{parse_int-show, parse_octet-show, parse_octet_sound}

-- Digits, read by `parseInt`.
-- The dotted text of a number below 2 ^ 32.
abbrev pub octets : ℕ → List ℕ
octets n = n / 2 ^ 24 ∷ n / 2 ^ 16 % 256 ∷ n / 2 ^ 8 % 256 ∷ n % 256 ∷ []

abbrev pub address : ℕ → Text
address n = join b'.' (map show (octets n))

lacks-digits :
    (sep : ℕ) (t : Text) → is_digit sep ≡ false → all is_digit t ≡ true → lacks sep t ≡ true
lacks-digits sep [] h digits = refl
lacks-digits sep (c ∷ t) h digits = ground (arith, lacks-digits sep t)

lacks-show : (sep n : ℕ) → is_digit sep ≡ false → lacks sep (show n) ≡ true
lacks-show sep n h = lacks-digits sep (show n) h (digits-show n)

pub split-dotted :
    (a b c d : ℕ)
    → split b'.' (join b'.' (map show (a ∷ b ∷ c ∷ d ∷ []))) ≡ map show (a ∷ b ∷ c ∷ d ∷ [])
split-dotted a b c d =
    rw
      (
        split-append b'.' (show a) (join b'.' (map show (b ∷ c ∷ d ∷ []))) (lacks-show b'.' a refl),
        split-append b'.' (show b) (join b'.' (map show (c ∷ d ∷ []))) (lacks-show b'.' b refl),
        split-append b'.' (show c) (show d) (lacks-show b'.' c refl),
        split-lacks b'.' (show d) (lacks-show b'.' d refl),
      )
      refl

octet_step :
    (acc n : ℕ) (parts : List Text)
    → n ≤ 255
    → octets_to_number acc (show n ∷ parts) ≡ octets_to_number ((acc * 256 + n) % 2 ^ 32) parts
unfolding octets_to_number
octet_step acc n parts small = rw (parse_octet-show n small, octets_to_number) refl

parse_ipv4-print : (n : ℕ) → n < 2 ^ 32 → parse_ipv4 (address n) ≡ some n
unfolding parse_ipv4 octets_to_number
parse_ipv4-print n bound =
    let a = n / 2 ^ 24 in
    let b = n / 2 ^ 16 % 256 in
    let c = n / 2 ^ 8 % 256 in
    let d = n % 256 in
    rw
      (
        split-dotted a b c d,
        octet_step 0 a (map show (b ∷ c ∷ d ∷ [])) (omega arith),
        octet_step ((0 * 256 + a) % 2 ^ 32) b (map show (c ∷ d ∷ [])) (omega arith),
        octet_step (((0 * 256 + a) % 2 ^ 32 * 256 + b) % 2 ^ 32) c (map show (d ∷ []))
            (omega arith),
        octet_step ((((0 * 256 + a) % 2 ^ 32 * 256 + b) % 2 ^ 32 * 256 + c) % 2 ^ 32) d []
            (omega arith),
      )
      (ap some (omega arith))

-- One part of an address that parses.
octet_inv :
    (acc n : ℕ) (part : Text) (parts : List Text)
    → octets_to_number acc (part ∷ parts) ≡ some n
    → (m : ℕ) × (part ≡ show m)
      × (m ≤ 255)
      × (octets_to_number ((acc * 256 + m) % 2 ^ 32) parts ≡ some n)
unfolding octets_to_number
octet_inv acc n part parts h = elim (Option-cases (parse_octet part)) [
  | inl failed ↦ absurd (cc (rw (failed, octets_to_number) at h))
  | inr (m, parsed) ↦
      let (text, small) = parse_octet_sound part m parsed in
      (m, text, small, rw (parsed, octets_to_number) at h)
]

octets_of_four :
    (a b c d : Text) (n : ℕ)
    → octets_to_number 0 (a ∷ b ∷ c ∷ d ∷ []) ≡ some n
    → (a ∷ b ∷ c ∷ d ∷ [] ≡ map show (octets n)) × (n < 2 ^ 32)
unfolding octets_to_number
octets_of_four a b c d n h =
    let (x, shown_x, small_x, h1) = octet_inv 0 n a (b ∷ c ∷ d ∷ []) h in
    let (y, shown_y, small_y, h2) = octet_inv _ n b (c ∷ d ∷ []) h1 in
    let (z, shown_z, small_z, h3) = octet_inv _ n c (d ∷ []) h2 in
    let (w, shown_w, small_w, h4) = octet_inv _ n d [] h3 in
    let total : n ≡ ((x * 256 + y) * 256 + z) * 256 + w = ground arith in
    let first : x ≡ n / 2 ^ 24 = omega arith in
    let second : y ≡ n / 2 ^ 16 % 256 = omega arith in
    let third : z ≡ n / 2 ^ 8 % 256 = omega arith in
    let fourth : w ≡ n % 256 = omega arith in
    (rw (shown_x, shown_y, shown_z, shown_w, first, second, third, fourth) refl, omega arith)

parse_ipv4_sound : (t : Text) (n : ℕ) → parse_ipv4 t ≡ some n → (t ≡ address n) × (n < 2 ^ 32)
unfolding parse_ipv4
parse_ipv4_sound t n h = four (split b'.' t) refl h
  where
    four :
        (parts : List Text)
        → split b'.' t ≡ parts
        → (if length parts == 4 then octets_to_number 0 parts else none) ≡ some n
        → (t ≡ address n) × (n < 2 ^ 32)
    four [] parts_eq r = cc
    four (a ∷ []) parts_eq r = cc
    four (a ∷ b ∷ []) parts_eq r = cc
    four (a ∷ b ∷ c ∷ []) parts_eq r = cc
    four (a ∷ b ∷ c ∷ d ∷ []) parts_eq r =
        let (shown, bound) = octets_of_four a b c d n r in
        (split_four b'.' t a b c d parts_eq ∙ ap (join b'.') shown, bound)
    four (a ∷ b ∷ c ∷ d ∷ e ∷ parts) parts_eq r = ground arith

-- The IPv4 parser accepts a text as the number n exactly when the text is the canonical dotted
-- address of n, and n is below 2 ^ 32.
pub parse_ipv4-address :
    (t : Text) (n : ℕ) → (parse_ipv4 t ≡ some n) ↔ (t ≡ address n) × (n < 2 ^ 32)
parse_ipv4-address t n = (parse_ipv4_sound t n, λ h. rw h.0 (parse_ipv4-print n h.1))

cut-lacks : (t : Text) → lacks b'/' t ≡ true → cut_at_last_slash t ≡ none
unfolding cut_at_last_slash
cut-lacks [] h = refl
cut-lacks (c ∷ t) h = ground (arith, cut-lacks t)

-- The cut is at the last slash.
cut-append : (s t : Text) → lacks b'/' t ≡ true → cut_at_last_slash (s ++ b'/' ∷ t) ≡ some (s, t)
unfolding cut_at_last_slash
cut-append [] t h = rw (cut-lacks t h) refl
cut-append (c ∷ s) t h = rw (cut-append s t h) refl

lacks-append :
    (sep : ℕ) (s t : Text) → lacks sep s ≡ true → lacks sep t ≡ true → lacks sep (s ++ t) ≡ true
lacks-append sep = all-append (λ c. not (c == sep))

lacks-address :
    (sep n : ℕ) → is_digit sep ≡ false → (b'.' == sep) ≡ false → lacks sep (address n) ≡ true
lacks-address sep n digit dot =
    dotted_lacks (show (n / 2 ^ 24)) (show (n / 2 ^ 16 % 256)) (show (n / 2 ^ 8 % 256))
      (show (n % 256)) (lacks-show sep _ digit) (lacks-show sep _ digit) (lacks-show sep _ digit)
      (lacks-show sep _ digit)
  where
    dotted_lacks :
        (a b c d : Text)
        → lacks sep a ≡ true
        → lacks sep b ≡ true
        → lacks sep c ≡ true
        → lacks sep d ≡ true
        → lacks sep (join b'.' (a ∷ b ∷ c ∷ d ∷ [])) ≡ true
    dotted_lacks a b c d ha hb hc hd = lacks-append sep a (b'.' ∷ join b'.' (b ∷ c ∷ d ∷ [])) ha (
        rw dot (
          lacks-append sep b (b'.' ∷ join b'.' (c ∷ d ∷ [])) hb
            (rw dot (lacks-append sep c (b'.' ∷ d) hc (rw dot hd)))))

any-lacks : (sep : ℕ) (t : Text) → lacks sep t ≡ true → any (λ c. c == sep) t ≡ false
any-lacks sep [] h = refl
any-lacks sep (c ∷ t) h = ground (arith, any-lacks sep t)

same_prefix_iff :
    (m n p : ℕ)
    → m < 2 ^ 32
    → n < 2 ^ 32
    → ((if ltb 32 p then false else same_prefix 32 p (some m) (some n)) ≡ true)
      ↔ (p ≤ 32) × (m / 2 ^ (32 - p) ≡ n / 2 ^ (32 - p))
same_prefix_iff m n zero small_m small_n = (λ h. (omega arith, omega arith), λ h. refl)
same_prefix_iff m n (suc p) small_m small_n =
    ground (arith, ==_iff (m / 2 ^ (32 - suc p)) (n / 2 ^ (32 - suc p)))

in_cut-address :
    (m n p : ℕ)
    → m < 2 ^ 32
    → n < 2 ^ 32
    → in_cut (address m) (some (address n, show p))
      ≡ (if ltb 32 p then false else same_prefix 32 p (some m) (some n))
in_cut-address m n p small_m small_n =
    ap (λ o. elim (natural o) [ none ↦ false | some k ↦ in_range (address m) (address n) k ])
      (parse_int-show p)
    ∙ ap
        (λ b.
          if b || any (λ c. c == b':') (address n)
          then in_six
          else in_four (parse_ipv4 (address m)) (parse_ipv4 (address n)))
        (any-lacks b':' (address m) (lacks-address b':' m refl refl))
    ∙ ap (λ b. if b then in_six else in_four (parse_ipv4 (address m)) (parse_ipv4 (address n)))
        (any-lacks b':' (address n) (lacks-address b':' n refl refl))
    ∙ ap (λ o. in_four o (parse_ipv4 (address n))) (parse_ipv4-print m small_m)
    ∙ ap (in_four (some m)) (parse_ipv4-print n small_n)
  where
    in_six : Bool
    in_six =
        if ltb 128 p
        then false
        else same_prefix 128 p (parse_ipv6 (address m)) (parse_ipv6 (address n))

    in_four : Option ℕ → Option ℕ → Bool
    in_four a b = if ltb 32 p then false else same_prefix 32 p a b

-- An IPv4 address is in a published range `address/prefix` exactly when the prefix is at most 32
-- and the two addresses agree on that many leading bits.
pub ip_in_cidr-prefix :
    (m n p : ℕ)
    → m < 2 ^ 32
    → n < 2 ^ 32
    → (ip_in_cidr (address m) (address n ++ b'/' ∷ show p) ≡ true)
      ↔ (p ≤ 32) × (m / 2 ^ (32 - p) ≡ n / 2 ^ (32 - p))
unfolding ip_in_cidr
ip_in_cidr-prefix m n p small_m small_n =
    rw
      (
        cut-append (address n) (show p) (lacks-show b'/' p refl),
        in_cut-address m n p small_m small_n,
      )
      (same_prefix_iff m n p small_m small_n)
