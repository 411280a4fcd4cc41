-- ===== src/AuthService/Checks.antt =====
-- lib.ts of the authentication service.
pub mod Laws
use verivyx_monorepo.Prelude.{
  ℕ, zero, suc, ◌+◌, ◌-◌, ◌*◌, ◌/◌, ◌%◌, ◌^◌, Bool, true, false, not, ◌&&◌, ◌||◌, Option, none,
  some, or_default, List, [], ◌∷◌, ◌++◌, Text, codes, text_eq, starts_with, includes, leb, ltb,
  ◌==◌, length, all, any, filter, map, drop, get_elem?, if◌then◌else◌,
}
use verivyx_monorepo.Prelude.Int.{ℤ, pos, negsuc, ltb_ℤ}
use verivyx_monorepo.Prelude.Parse.{split, trim}
use verivyx_monorepo.Prelude.Parse.Laws.{join}

-- Where a number of a JSON text lies above its floor.
pub data Fraction : Type 0 where
  whole below_half from_half : Fraction

pub record Number : Type 0 where
  pub floor : ℤ
  pub fraction : Fraction

abbrev pub is_whole : Fraction → Bool
is_whole whole = true
is_whole _ = false

abbrev pub lt_integer : Number → ℕ → Bool
lt_integer x n = ltb_ℤ x.floor (pos n)

abbrev pub le_integer : Number → ℕ → Bool
le_integer x n = ltb_ℤ x.floor (pos n) || (is_at x.floor n && is_whole x.fraction)
  where
    is_at : ℤ → ℕ → Bool
    is_at (pos a) b = a == b
    is_at (negsuc a) b = false

-- `toLowerCase` and SHA-256 of the UTF-8 of a text.
pub record Builtins : Type 0 where
  pub lower_case : Text → Text
  pub sha_256 : Text → List ℕ

abbrev is_lower_or_digit : ℕ → Bool
is_lower_or_digit c = leb b'a' c && leb c b'z' || leb b'0' c && leb c b'9'

abbrev is_label_char : ℕ → Bool
is_label_char c = is_lower_or_digit c || c == b'-'

abbrev is_label : Text → Bool
is_label t = leb 1 (length t) && leb (length t) 63 && all is_label_char t

abbrev is_top_level : Text → Bool
is_top_level t = leb 2 (length t) && leb (length t) 63 && all (λ c. leb b'a' c && leb c b'z') t

-- The labels before the last, and the last.
unfoldable pub are_labels : List Text → Bool
are_labels [] = false
are_labels (l ∷ []) = false
are_labels (l ∷ m ∷ []) = is_label l && is_top_level m
are_labels (l ∷ m ∷ n ∷ ls) = is_label l && are_labels (m ∷ n ∷ ls)

-- `DOMAIN_REGEX`, for a text in lower case.
unfoldable pub is_domain : Text → Bool
unfolding are_labels
is_domain t = not (starts_with t (codes "-")) && are_labels (split b'.' t)

abbrev without_prefix : Text → Text → Text
without_prefix t p = if starts_with t p then drop (length p) t else t

-- `replace(/^https?:\/\//, '')`.
abbrev without_scheme : Text → Text
without_scheme t =
    if starts_with t (codes "https://")
    then drop 8 t
    else if starts_with t (codes "http://")
    then drop 7 t
    else t

abbrev is_terminator : ℕ → Bool
is_terminator c = c == 10 || c == 13 || c == 0x2028 || c == 0x2029

-- `replace(/\/.*$/, '')`.
unfoldable pub without_path : Text → Text
without_path [] = []
without_path (c ∷ t) =
    let rest = without_path t in if (c == b'/') && not (any is_terminator t) then [] else c ∷ rest

-- `STELLAR_PUBKEY_REGEX`.
unfoldable pub is_stellar_pubkey : Text → Bool
is_stellar_pubkey [] = false
is_stellar_pubkey (c ∷ t) =
    (c == b'G')
    && length t == 55
    && all (λ d. leb b'A' d && leb d b'Z' || leb b'2' d && leb d b'7') t

abbrev is_slug_end : Text → Bool
is_slug_end [] = false
is_slug_end (c ∷ []) = is_lower_or_digit c
is_slug_end (c ∷ d ∷ t) = is_label_char c && is_slug_end (d ∷ t)

-- `SLUG_REGEX`.
unfoldable pub is_slug : Text → Bool
is_slug [] = false
is_slug (c ∷ t) = is_lower_or_digit c && leb (length t) 63 && is_slug_end (c ∷ t)

-- An input that is no string is `none`.
abbrev checked : (Text → Bool) → Text → Option Text
checked test v = if test v then some v else none

unfoldable pub validate_stellar : Option Text → Option Text
unfolding is_stellar_pubkey
validate_stellar none = none
validate_stellar (some input) = checked is_stellar_pubkey (trim input)

-- The bits before the first one, from the top, of a number below 2 ^ width.
unfoldable pub zeros_before : ℕ → ℕ → ℕ
zeros_before zero byte = 0
zeros_before (suc i) byte =
    let rest = zeros_before i byte in if byte / 2 ^ i % 2 == 1 then 0 else suc rest

unfoldable pub leading_zero_bits : List ℕ → ℕ
unfolding zeros_before
leading_zero_bits [] = 0
leading_zero_bits (byte ∷ buf) =
    let rest = leading_zero_bits buf in if byte == 0 then 8 + rest else zeros_before 8 byte

-- `x-forwarded-for`: absent, one header, or several.
pub data Forwarded : Type 0 where
  absent : Forwarded
  one_header : Text → Forwarded
  several : List Text → Forwarded

abbrev raw_of : Forwarded → Option Text
raw_of absent = none
raw_of (one_header t) = some t
raw_of (several ts) = some (join b',' ts)

abbrev pub is_not_empty : Text → Bool
is_not_empty [] = false
is_not_empty (c ∷ t) = true

unfoldable pub forwarded_parts : Text → List Text
forwarded_parts raw = filter is_not_empty (map trim (split b',' raw))

-- The part so many from the end; `undefined`, `none`, if that is none of them.
abbrev pub part_from_end : List Text → ℕ → Option Text
part_from_end parts hops = if hops == 0 then none else get_elem? parts (length parts - hops)

abbrev pub after_raw : Option Text → Option Text → ℕ → Option Text
unfolding forwarded_parts
after_raw none remote hops = some (or_default remote [])
after_raw (some raw) remote hops =
    if leb hops (length (forwarded_parts raw))
    then part_from_end (forwarded_parts raw) hops
    else some (or_default remote [])

unfoldable pub client_ip : Forwarded → Option Text → ℕ → Option Text
unfolding after_raw
client_ip forwarded remote hops = after_raw (raw_of forwarded) remote hops

-- A field that is no value of its type is `none`; of the languages the code takes the number.
pub record Fingerprint : Type 0 where
  pub webdriver : Bool
  pub languages : Option ℕ
  pub user_agent : Option Text
  pub hardware_concurrency : Option Number
  pub screen_width : Option Number
  pub screen_height : Option Number
  pub webgl_vendor : Option Text
  pub webgl_renderer : Option Text

abbrev any_word : List Text → Text → Bool
any_word words t = any (includes t) words

abbrev headless_words : List Text
headless_words =
    codes "headless"
    ∷ codes "phantomjs"
    ∷ codes "electron/"
    ∷ codes "puppeteer"
    ∷ codes "playwright"
    ∷ codes "selenium"
    ∷ []

abbrev bot_words : List Text
bot_words =
    codes "bot"
    ∷ codes "spider"
    ∷ codes "crawler"
    ∷ codes "scrap"
    ∷ codes "gptbot"
    ∷ codes "claudebot"
    ∷ codes "perplexity"
    ∷ codes "bytespider"
    ∷ codes "google-extended"
    ∷ []

abbrev is_cpu_anomaly : Option Number → Bool
is_cpu_anomaly none = true
is_cpu_anomaly (some n) = le_integer n 0 || not (le_integer n 128)

abbrev is_small : Option Number → Bool
is_small none = true
is_small (some n) = lt_integer n 100

abbrev first_some : Option Text → Option Text → Option Text
first_some (some r) later = some r
first_some none later = later

abbrev pub when : Bool → Text → Option Text
when test reason = if test then some reason else none

module _ (js : Builtins) where
  unfoldable pub normalize_domain : Option Text → Option Text
  unfolding is_domain without_path
  normalize_domain none = none
  normalize_domain (some input) =
      checked is_domain
        (without_path (without_prefix (without_scheme (js.lower_case (trim input))) (codes "www.")))

  unfoldable pub validate_slug : Option Text → Option Text
  unfolding is_slug
  validate_slug none = none
  validate_slug (some input) = checked is_slug (js.lower_case (trim input))

  unfoldable pub pow_digest : Text → Text → Text → List ℕ
  pow_digest challenge salt nonce =
      js.sha_256 (challenge ++ codes ":" ++ salt ++ codes ":" ++ nonce)

  unfoldable pub check_pow : Text → Text → Text → ℕ → Bool
  unfolding pow_digest leading_zero_bits
  check_pow challenge salt nonce difficulty =
      leb difficulty (leading_zero_bits (pow_digest challenge salt nonce))

  abbrev agent_reason : Option Text → Option Text
  agent_reason none = some (codes "bad_user_agent")
  agent_reason (some agent) =
      if ltb (length agent) 8
      then some (codes "bad_user_agent")
      else if any_word headless_words (js.lower_case agent)
      then some (codes "headless_user_agent")
      else if any_word bot_words (js.lower_case agent)
      then some (codes "bot_user_agent")
      else none

  -- For the vendor, and for the renderer.
  abbrev gpu_reason : Option Text → Option Text
  gpu_reason none = none
  gpu_reason (some name) =
      if any_word (codes "swiftshader" ∷ codes "software" ∷ []) (js.lower_case name)
      then some (codes "software_gpu")
      else if any_word (codes "llvmpipe" ∷ codes "virgl" ∷ []) (js.lower_case name)
      then some (codes "vm_gpu")
      else none

  abbrev languages_reason : Option ℕ → Option Text
  languages_reason none = some (codes "no_languages")
  languages_reason (some n) = when (n == 0) (codes "no_languages")

  -- The first reason to refuse a fingerprint, if there is one.
  unfoldable pub fingerprint_reason : Option Fingerprint → Option Text
  fingerprint_reason none = some (codes "fingerprint_missing")
  fingerprint_reason (some fp) = first_some (when fp.webdriver (codes "webdriver_flag_set")) (
      first_some (languages_reason fp.languages) (
        first_some (agent_reason fp.user_agent) (
          first_some (when (is_cpu_anomaly fp.hardware_concurrency) (codes "cpu_anomaly")) (
            first_some
              (when (is_small fp.screen_width || is_small fp.screen_height)
                (codes "screen_anomaly"))
              (first_some (gpu_reason fp.webgl_vendor) (gpu_reason fp.webgl_renderer))))))

-- `!value?.trim()`.
abbrev is_blank : Option Text → Bool
is_blank none = true
is_blank (some t) = not (is_not_empty (trim t))

-- The names that are missing, for the error; `none` if nothing is thrown.
abbrev missing_names : Bool → Bool → Option (List Text)
missing_names true true = some (codes "TURNSTILE_SECRET_KEY" ∷ codes "RESEND_API_KEY" ∷ [])
missing_names true false = some (codes "TURNSTILE_SECRET_KEY" ∷ [])
missing_names false true = some (codes "RESEND_API_KEY" ∷ [])
missing_names false false = none

unfoldable pub require_production_secrets : Bool → Option Text → Option Text → Option (List Text)
require_production_secrets is_production turnstile resend =
    if is_production then missing_names (is_blank turnstile) (is_blank resend) else none
