-- ===== src/AuthService/Checks/Laws.antt =====
-- Proofs about the proof of work and the client's address.
use verivyx_monorepo.Prelude.{
  ℕ, zero, suc, ◌+◌, ◌-◌, ◌*◌, ◌/◌, ◌%◌, ◌^◌, ◌≤◌, ◌<◌, ◌≡◌, ◌↔◌, ◌⊎◌, refl, inl, inr, sym, subst,
  ap, ◌∙◌, Bool, true, false, Option, some, List, [], ◌∷◌, ◌++◌, Text, leb, ltb, ◌==◌, length,
  length-append, filter, map, get_elem?, All, Bool-cases, if◌then◌else◌, arith,
}
use native.Mathlib.Nat.{
  pow-suc, mul-le-mul_right, pow-le-pow_right, mul_assoc, mul_comm, div-eq_of_lt, div-eq_of_lt-le,
}
use verivyx_monorepo.Prelude.Parse.{split, cons_head, trim}
use verivyx_monorepo.Prelude.Parse.Laws.{split-IsSplit}
use verivyx_monorepo.AuthService.Checks.{
  zeros_before, leading_zero_bits, one_header, forwarded_parts, is_not_empty, after_raw, client_ip,
}

-- The number that a digest stands for, its first byte on top.
abbrev pub number_of : List ℕ → ℕ
number_of [] = 0
number_of (byte ∷ buf) = byte * 2 ^ (8 * length buf) + number_of buf

abbrev pub IsBytes : List ℕ → Type 0
IsBytes buf = All (λ b. b < 256) buf

pow-pos : (w : ℕ) → 0 < 2 ^ w
pow-pos zero = omega arith
pow-pos (suc w) = omega (arith, pow-pos w, pow-suc 2 w)

-- The top bit of a number below 2 ^ suc w.
top_bit :
    (w byte : ℕ)
    → byte < 2 ^ suc w
    → (((byte / 2 ^ w % 2 == 1) ≡ true) × (2 ^ w ≤ byte))
      ⊎ (((byte / 2 ^ w % 2 == 1) ≡ false) × (byte < 2 ^ w))
top_bit w byte small =
    let double = pow-suc 2 w in
    elim (Bool-cases (ltb byte (2 ^ w))) [
      | inl below ↦
          let zeros : byte / 2 ^ w ≡ 0 = div-eq_of_lt (ground arith) in
          inr (rw zeros refl, ground arith)
      | inr above ↦
          let one : byte / 2 ^ w ≡ 1 = div-eq_of_lt-le (2 ^ w) (ground arith) (ground arith) in
          inl (rw one refl, ground arith)
    ]

zeros_before_iff :
    (w byte d : ℕ) → byte < 2 ^ w → d ≤ w → (d ≤ zeros_before w byte) ↔ (byte < 2 ^ (w - d))
unfolding zeros_before
zeros_before_iff zero byte d small h =
    let none_left : d ≡ 0 = omega arith in rw none_left (λ r. small, λ r. omega arith)
zeros_before_iff (suc w) byte zero small h =
    let all_bits : suc w - 0 ≡ suc w = omega arith in (λ r. rw all_bits small, λ r. omega arith)
zeros_before_iff (suc w) byte (suc d) small h = elim (top_bit w byte small) [
  | inl (set, above) ↦
      let fewer : 2 ^ (w - d) ≤ 2 ^ w = pow-le-pow_right (omega arith) (omega arith) in
      let shorter : suc w - suc d ≡ w - d = omega arith in
      rw (set, shorter) (λ r. absurd (omega arith), λ r. absurd (omega arith))
  | inr (clear, below) ↦
      let (to, from) = zeros_before_iff w byte d below (omega arith) in
      let shorter : suc w - suc d ≡ w - d = omega arith in
      rw (clear, shorter) (λ r. to (omega arith), λ r. omega (arith, from r))
]

zeros_before-le : (w byte : ℕ) → zeros_before w byte ≤ w
unfolding zeros_before
zeros_before-le zero byte = omega arith
zeros_before-le (suc w) byte = ground (arith, zeros_before-le w byte)

pow-add : (a b : ℕ) → 2 ^ (a + b) ≡ 2 ^ a * 2 ^ b
pow-add zero b = let same : 0 + b ≡ b = omega arith in rw same (omega arith)
pow-add (suc a) b =
    let shape : suc a + b ≡ suc (a + b) = omega arith in
    ap (λ k. 2 ^ k) shape
    ∙ pow-suc 2 (a + b)
    ∙ ap (λ k. k * 2) (pow-add a b)
    ∙ mul_assoc (2 ^ a) (2 ^ b) 2
    ∙ ap (λ k. 2 ^ a * k) (mul_comm (2 ^ b) 2)
    ∙ sym (mul_assoc (2 ^ a) 2 (2 ^ b))
    ∙ ap (λ k. k * 2 ^ b) (sym (pow-suc 2 a))

digit_lt : (b q p m : ℕ) → m < p → (b < q) ↔ (b * p + m < q * p)
digit_lt b q p m small = (
  λ h. omega (arith, mul-le-mul_right p h),
  λ h. elim (Bool-cases (ltb b q)) [
    | inl less ↦ ground arith
    | inr other ↦ let le : q ≤ b = ground arith in absurd (omega (arith, mul-le-mul_right p le))
  ],
)

number_of-lt : (buf : List ℕ) → IsBytes buf → number_of buf < 2 ^ (8 * length buf)
number_of-lt [] h = omega arith
number_of-lt (byte ∷ buf) h =
    let n = 8 * length buf in
    let bits : 8 + n ≡ 8 * length (byte ∷ buf) = omega arith in
    subst (λ k. number_of (byte ∷ buf) < 2 ^ k) bits
      (subst (λ k. number_of (byte ∷ buf) < k) (sym (pow-add 8 n))
        ((digit_lt byte 256 (2 ^ n) (number_of buf) (number_of-lt buf h.1)).0 h.0))

-- The first byte is the top digit; the bound has its bits above those of the rest, or below.
above_rest :
    (byte d n m : ℕ)
    → byte < 256
    → m < 2 ^ n
    → d ≤ 8
    → (d ≤ zeros_before 8 byte) ↔ (byte * 2 ^ n + m < 2 ^ (8 + n - d))
above_rest byte d n m small rest h =
    let bits : (8 - d) + n ≡ 8 + n - d = omega arith in
    let split = pow-add (8 - d) n in
    let (to, from) = zeros_before_iff 8 byte d small h in
    let (up, down) = digit_lt byte (2 ^ (8 - d)) (2 ^ n) m rest in
    subst (λ k. (d ≤ zeros_before 8 byte) ↔ (byte * 2 ^ n + m < 2 ^ k)) bits
      (subst (λ k. (d ≤ zeros_before 8 byte) ↔ (byte * 2 ^ n + m < k)) (sym split)
        (λ r. up (to r), λ r. from (down r)))

below_rest :
    (byte d n m : ℕ) → 0 < byte → 8 < d → d ≤ 8 + n → byte * 2 ^ n + m < 2 ^ (8 + n - d) → ⊥
below_rest byte d n m some_bit beyond bound less =
    let fewer : 2 ^ (8 + n - d) ≤ 2 ^ n = pow-le-pow_right (omega arith) (omega arith) in
    let one : 1 * 2 ^ n ≤ byte * 2 ^ n = mul-le-mul_right (2 ^ n) some_bit in omega arith

zeros_of_zero : zeros_before 8 0 ≡ 8
unfolding zeros_before
zeros_of_zero = refl

leading-cons :
    (byte rest d n m : ℕ)
    → byte < 256
    → m < 2 ^ n
    → d ≤ 8 + n
    → ((e : ℕ) → e ≤ n → (e ≤ rest) ↔ (m < 2 ^ (n - e)))
    → (d ≤ (if byte == 0 then 8 + rest else zeros_before 8 byte))
      ↔ (byte * 2 ^ n + m < 2 ^ (8 + n - d))
leading-cons byte rest d n m small below bound ih = elim (Bool-cases (leb d 8)) [
  | inl within ↦
      let le : d ≤ 8 = ground arith in
      let (to, from) = above_rest byte d n m small below le in
      elim (Bool-cases (byte == 0)) [
        | inl empty ↦
            let none_set : byte ≡ 0 = ground arith in
            let all_zero : d ≤ zeros_before 8 byte = rw (none_set, zeros_of_zero) le in
            rw empty (λ r. to all_zero, λ r. omega arith)
        | inr other ↦ rw other (to, from)
      ]
  | inr beyond ↦
      let gt : 8 < d = ground arith in
      elim (Bool-cases (byte == 0)) [
        | inl empty ↦
            let none_set : byte ≡ 0 = ground arith in
            let (to, from) = ih (d - 8) (omega arith) in
            let shift : n - (d - 8) ≡ 8 + n - d = omega arith in
            let total : byte * 2 ^ n + m ≡ m = rw none_set (omega arith) in
            rw (empty, total, sym shift) (λ r. to (omega arith), λ r. omega (arith, from r))
        | inr other ↦
            let some_bit : 0 < byte = ground arith in
            let at_most = zeros_before-le 8 byte in
            rw other
              (λ r. absurd (omega arith), λ r. absurd (below_rest byte d n m some_bit gt bound r))
      ]
]

-- A digest of bytes starts with d zero bits or more exactly when the number that it stands for is
-- below 2 to its length in bits less d; d is at most that length.
pub leading_zero_bits_iff :
    (buf : List ℕ) (d : ℕ)
    → IsBytes buf
    → d ≤ 8 * length buf
    → (d ≤ leading_zero_bits buf) ↔ (number_of buf < 2 ^ (8 * length buf - d))
unfolding leading_zero_bits
leading_zero_bits_iff [] d h bound =
    let none_left : d ≡ 0 = omega arith in rw none_left (λ r. omega arith, λ r. omega arith)
leading_zero_bits_iff (byte ∷ buf) d h bound =
    let bits : 8 + 8 * length buf ≡ 8 * length (byte ∷ buf) = omega arith in
    subst (λ k. (d ≤ leading_zero_bits (byte ∷ buf)) ↔ (number_of (byte ∷ buf) < 2 ^ (k - d))) bits
      (leading-cons byte (leading_zero_bits buf) d (8 * length buf) (number_of buf) h.0
        (number_of-lt buf h.1) (omega arith) (λ e le. leading_zero_bits_iff buf e h.1 le))

cons_head-append :
    (c : ℕ) (ws vs : List Text) → 0 < length ws → cons_head c (ws ++ vs) ≡ cons_head c ws ++ vs
cons_head-append c [] vs h = absurd (omega arith)
cons_head-append c (w ∷ ws) vs h = refl

length-split : (sep : ℕ) (t : Text) → 0 < length (split sep t)
length-split sep t = rw (split-IsSplit sep t).shape (omega arith)

split-separated : (sep : ℕ) (s t : Text) → split sep (s ++ sep ∷ t) ≡ split sep s ++ split sep t
unfolding split
split-separated sep [] t = ground arith
split-separated sep (c ∷ s) t = elim (Bool-cases (c == sep)) [
  | inl here ↦ rw here (ap (λ r. [] ∷ r) (split-separated sep s t))
  | inr other ↦ rw other (
      ap (cons_head c) (split-separated sep s t)
      ∙ cons_head-append c (split sep s) (split sep t) (length-split sep s))
]

filter-append :
    (p : Text → Bool) (xs ys : List Text) → filter p (xs ++ ys) ≡ filter p xs ++ filter p ys
filter-append p [] ys = refl
filter-append p (x ∷ xs) ys = ground (arith, filter-append p xs ys)

map-append : (f : Text → Text) (xs ys : List Text) → map f (xs ++ ys) ≡ map f xs ++ map f ys
map-append f [] ys = refl
map-append f (x ∷ xs) ys = ap (λ r. f x ∷ r) (map-append f xs ys)

forwarded_parts-append :
    (s t : Text) → forwarded_parts (s ++ b',' ∷ t) ≡ forwarded_parts s ++ forwarded_parts t
unfolding forwarded_parts
forwarded_parts-append s t =
    ap (λ r. filter is_not_empty (map trim r)) (split-separated b',' s t)
    ∙ ap (filter is_not_empty) (map-append trim (split b',' s) (split b',' t))
    ∙ filter-append is_not_empty (map trim (split b',' s)) (map trim (split b',' t))

get_elem?-append :
    (xs ys : List Text) (i : ℕ) → i ≡ length xs → get_elem? (xs ++ ys) i ≡ get_elem? ys 0
get_elem?-append [] ys i h = rw h refl
get_elem?-append (x ∷ xs) ys zero h = absurd (omega arith)
get_elem?-append (x ∷ xs) ys (suc i) h = get_elem?-append xs ys i (omega arith)

-- If the trusted proxies have added as many addresses to the end of the header as there are of them,
-- the client's address is the first of these, whatever a client has sent before them.
pub client_ip-trusted :
    (sent added : Text) (remote : Option Text) (hops : ℕ) (ip : Text) (others : List Text)
    → forwarded_parts added ≡ ip ∷ others
    → hops ≡ length (ip ∷ others)
    → client_ip (one_header (sent ++ b',' ∷ added)) remote hops ≡ some ip
unfolding client_ip after_raw
client_ip-trusted sent added remote hops ip others parts count =
    let all_parts : forwarded_parts (sent ++ b',' ∷ added) ≡ forwarded_parts sent ++ (ip ∷ others) =
      forwarded_parts-append sent added ∙ ap (λ r. forwarded_parts sent ++ r) parts in
    let total = length-append (forwarded_parts sent) (ip ∷ others) in
    let enough : leb hops (length (forwarded_parts sent ++ (ip ∷ others))) ≡ true = ground arith in
    let some_hop : (hops == 0) ≡ false = ground arith in
    rw (all_parts, enough, some_hop)
      (get_elem?-append (forwarded_parts sent) (ip ∷ others)
        (length (forwarded_parts sent ++ (ip ∷ others)) - hops) (omega arith))
