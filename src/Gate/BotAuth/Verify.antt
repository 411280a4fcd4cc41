-- ===== src/Gate/BotAuth/Verify.antt =====
-- webbotauth.ts: the checks of one signature, the signature base, and the verifier.
pub mod Freshness
pub mod Laws
pub mod Lines
pub mod Binding
mod Tests
use verivyx_monorepo.Prelude.{
  ℕ, ◌+◌, ◌*◌, Bool, true, false, not, ◌&&◌, ◌||◌, Option, none, some, or_default, List, [], ◌∷◌,
  ◌++◌, Text, codes, text_eq, has, leb, ltb, map, if◌then◌else◌,
}
use verivyx_monorepo.Prelude.Int.{ℤ, pos, negsuc, ltb_ℤ, ◌-ℤ◌}
use verivyx_monorepo.Prelude.Parse.{trim}
use verivyx_monorepo.Prelude.Parse.Laws.{join}
use verivyx_monorepo.Prelude.Maps.{map_get}
use verivyx_monorepo.Gate.Types.{Request}
use verivyx_monorepo.Gate.Detect.{lower_case}
use verivyx_monorepo.Gate.BotAuth.Fields.{
  Builtins, ParamMap, SigSpec, parse_signature_input, parse_signature_header,
}
use verivyx_monorepo.Gate.BotAuth.Keys.{
  Jwk, Url, Crypto, Surroundings, Cache, is_text, is_given, resolve_key,
}

abbrev pub max_window_seconds : ℕ
max_window_seconds = 24 * 60 * 60

abbrev pub clock_skew_seconds : ℕ
clock_skew_seconds = 60

abbrev is_ed25519_alg : Option Text → Bool
unfolding lower_case
is_ed25519_alg none = true
is_ed25519_alg (some []) = true
is_ed25519_alg (some (c ∷ t)) = text_eq (lower_case (c ∷ t)) (codes "ed25519")

unfoldable pub is_fresh : ℕ → ℤ → ℤ → Bool
is_fresh now created expires =
    not (ltb_ℤ (pos (now + clock_skew_seconds)) created)
    && not (ltb_ℤ expires (pos now))
    && not (ltb_ℤ expires created)
    && not (ltb_ℤ (pos max_window_seconds) (expires -ℤ created))

abbrev pub is_fresh_if : ℕ → Option ℤ → Option ℤ → Bool
unfolding is_fresh
is_fresh_if now (some created) (some expires) = is_fresh now created expires
is_fresh_if now _ _ = false

unfoldable pub covers_target : List Text → Bool
covers_target components =
    has components (codes "@authority") && has components (codes "@target-uri")

-- The checks before the key is resolved.
unfoldable pub is_acceptable : ℕ → SigSpec → Bool
unfolding is_ed25519_alg is_fresh_if covers_target
is_acceptable now spec =
    is_text spec.params.tag (codes "web-bot-auth")
    && is_given spec.params.keyid
    && is_ed25519_alg spec.params.alg
    && is_fresh_if now spec.params.created spec.params.expires
    && covers_target spec.components

-- The base, or that a component is not to be resolved.
abbrev pub quote : Text → Text
quote c = b'"' ∷ c ++ codes "\""

unfoldable pub inner_list : List Text → Text
inner_list components = join b' ' (map quote components)

abbrev pub authority_line : Url → Text
unfolding lower_case
authority_line url = codes "\"@authority\": " ++ lower_case url.host

abbrev target_line : Url → Text
target_line url = codes "\"@target-uri\": " ++ url.href

abbrev agent_line : Option Text → Option Text
agent_line none = none
agent_line (some v) = some (codes "\"signature-agent\": " ++ trim v)

unfoldable pub line_of : Url → Option Text → Text → Option Text
unfolding authority_line
line_of url agent comp =
    if text_eq comp (codes "@authority")
    then some (authority_line url)
    else if text_eq comp (codes "@target-uri")
    then some (target_line url)
    else if text_eq comp (codes "signature-agent")
    then agent_line agent
    else none

abbrev cons_line : Option Text → Option (List Text) → Option (List Text)
cons_line (some line) (some lines) = some (line ∷ lines)
cons_line _ _ = none

unfoldable pub lines_of : Url → Option Text → Text → List Text → Option (List Text)
unfolding line_of
lines_of url agent last [] = some (last ∷ [])
lines_of url agent last (comp ∷ comps) =
    cons_line (line_of url agent comp) (lines_of url agent last comps)

unfoldable pub params_line : SigSpec → Text
unfolding inner_list
params_line spec =
    codes "\"@signature-params\": ("
    ++ inner_list spec.components
    ++ codes ")"
    ++ spec.param_segment

abbrev joined : Option (List Text) → Option Text
joined none = none
joined (some lines) = some (join 10 lines)

unfoldable pub build_signature_base : Url → Option Text → SigSpec → Option Text
unfolding lines_of params_line
build_signature_base url agent spec = joined (lines_of url agent (params_line spec) spec.components)

abbrev pub signature_agent : Request → Option Text
signature_agent req = req.header (codes "signature-agent")

abbrev pub keyid_of : SigSpec → Text
keyid_of spec = or_default spec.params.keyid []

module _ {Key : Type 0} (crypto : Crypto Key) where
  abbrev pub verified : List ℕ → Text → Option Key → Bool
  verified sig base none = false
  verified sig base (some key) = or_default (crypto.verify_signature key sig base) false

  abbrev pub verify_base : List ℕ → Jwk → Option Text → Bool
  verify_base sig jwk none = false
  verify_base sig jwk (some base) = verified sig base (crypto.import_key jwk)

  -- `none` is an error that is thrown.
  abbrev pub verify_url : Request → SigSpec → List ℕ → Jwk → Option Url → Option Bool
  unfolding build_signature_base
  verify_url req spec sig jwk none = none
  verify_url req spec sig jwk (some url) =
      some (verify_base sig jwk (build_signature_base url (signature_agent req) spec))

  abbrev pub verify_key : Request → SigSpec → List ℕ → Option Jwk → Option Bool
  unfolding verify_url
  verify_key req spec sig none = some false
  verify_key req spec sig (some jwk) = verify_url req spec sig jwk (crypto.parse_url req.url)

  unfoldable pub verify_one :
      Surroundings → ℕ → Request → SigSpec → List ℕ → Cache → Cache × Option Bool
  unfolding is_acceptable resolve_key verify_key
  verify_one env now req spec sig cache =
      let resolved = resolve_key crypto env (keyid_of spec) (signature_agent req) cache in
      if is_acceptable now spec
      then (resolved.0, verify_key req spec sig resolved.1)
      else (cache, some false)

  -- After one signature: the next one is tried only if this one is refused without an error.
  abbrev pub after_one : Cache × Option Bool → (Cache → Cache × Bool) → Cache × Bool
  after_one (cache, some true) rest = (cache, true)
  after_one (cache, some false) rest = rest cache
  after_one (cache, none) rest = (cache, false)

  -- A label without a signature is passed over.
  abbrev pub try_sig :
      Surroundings
      → ℕ
      → Request
      → SigSpec
      → (Cache → Cache × Bool)
      → Option (List ℕ)
      → Cache
      → Cache × Bool
  unfolding verify_one
  try_sig env now req spec rest none cache = rest cache
  try_sig env now req spec rest (some sig) cache =
      after_one (verify_one env now req spec sig cache) rest

  unfoldable pub verify_any :
      (Text → Surroundings)
      → ℕ
      → Request
      → List (Text × List ℕ)
      → List (Text × SigSpec)
      → Cache
      → Cache × Bool
  unfolding try_sig
  verify_any env now req sigs [] cache = (cache, false)
  verify_any env now req sigs ((label, spec) ∷ inputs) cache =
      try_sig (env label) now req spec (verify_any env now req sigs inputs) (map_get sigs label)
        cache

  abbrev pub verify_fields :
      (Text → Surroundings)
      → ℕ
      → Request
      → Option (List (Text × SigSpec))
      → Option (List (Text × List ℕ))
      → Cache
      → Cache × Bool
  unfolding verify_any
  verify_fields env now req (some inputs) (some sigs) cache =
      verify_any env now req sigs inputs cache
  verify_fields env now req _ _ cache = (cache, false)

  abbrev pub parse_if_given : {V : Type 0} → (Text → Option V) → Option Text → Option V
  parse_if_given parse none = none
  parse_if_given parse (some []) = none
  parse_if_given parse (some (c ∷ t)) = parse (c ∷ t)

  -- What the resolution of a label's key sees can differ from label to label.
  unfoldable pub verify_web_bot_auth :
      Builtins → (Text → Surroundings) → ℕ → Request → Cache → Cache × Bool
  unfolding verify_fields
  verify_web_bot_auth js env now req cache =
      verify_fields env now req
        (parse_if_given (parse_signature_input js) (req.header (codes "signature-input")))
        (parse_if_given (parse_signature_header js) (req.header (codes "signature"))) cache
