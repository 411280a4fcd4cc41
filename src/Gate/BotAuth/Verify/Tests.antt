-- ===== src/Gate/BotAuth/Verify/Tests.antt =====
-- A signed request at the verifier, and the theorems at it.
use verivyx_monorepo.Prelude.{
  ℕ, ◌≡◌, ◌++◌, refl, inl, inr, true, false, if◌then◌else◌, Option, none, some, [], ◌∷◌, Text,
  codes, text_eq, has, starts_with, length, All,
}
use verivyx_monorepo.Prelude.Int.{ℤ, pos}
use verivyx_monorepo.Prelude.Parse.{
  trim, trim_start, trim_end, trim_end_step, is_space, to_lower, digits_value,
}
use verivyx_monorepo.Prelude.Maps.{map_get, map_set}
use verivyx_monorepo.Gate.Types.{Request}
use verivyx_monorepo.Gate.Detect.{lower_case}
use verivyx_monorepo.Gate.BotAuth.Items.{
  split_from, split_top_level, is_token, cut_at, quoted, add_item, items_of, parse_inner_list,
}
use verivyx_monorepo.Gate.BotAuth.Fields.{
  Builtins, ParamMap, SigSpec, no_params, assign_string_param, assign_number_param, between_marks,
  assign_parts, parse_params, parse_spec, base64_decode, parse_bytes, members_of, parse_dictionary,
  parse_signature_input, parse_signature_header,
}
use verivyx_monorepo.Gate.BotAuth.Fields.Laws.{parse_spec-print}
use verivyx_monorepo.Gate.BotAuth.Keys.{
  Jwk, Url, Crypto, Surroundings, without_quotes, keys_of_reply, base64_url_encode, canonical_jwk,
  jwk_thumbprint, find_key, default_fetch_directory, fetch_jwks, resolve_key, bare_array,
}
use verivyx_monorepo.Gate.BotAuth.Keys.Laws.{IsNamed}
use verivyx_monorepo.Gate.BotAuth.Verify.{
  is_fresh, covers_target, is_acceptable, inner_list, line_of, lines_of, params_line,
  build_signature_base, verify_one, verify_any, verify_web_bot_auth,
}
use verivyx_monorepo.Gate.BotAuth.Verify.Laws.{
  Accepted, verify_web_bot_auth-Accepted, verify_web_bot_auth-IsNamed,
}
use verivyx_monorepo.Gate.BotAuth.Verify.Lines.{IsPlain}
use verivyx_monorepo.Gate.BotAuth.Verify.Binding.{build_signature_base-binds}

bot_auth_all : Unit {0}
unfolding text_eq has starts_with trim trim_start trim_end trim_end_step is_space to_lower
    digits_value map_get map_set lower_case split_from split_top_level is_token cut_at quoted
    add_item items_of parse_inner_list assign_string_param assign_number_param between_marks
    assign_parts parse_params parse_spec base64_decode parse_bytes members_of parse_dictionary
    parse_signature_input parse_signature_header without_quotes keys_of_reply base64_url_encode
    canonical_jwk jwk_thumbprint find_key default_fetch_directory fetch_jwks resolve_key is_fresh
    covers_target is_acceptable inner_list line_of lines_of params_line build_signature_base
    verify_one verify_any verify_web_bot_auth
bot_auth_all = tt

abbrev number_of : Option ℕ → Option ℤ
number_of none = none
number_of (some n) = some (pos n)

abbrev js : Builtins
js = record { number = λ t. number_of (digits_value 10 t); atob = λ t. some t }

abbrev site : Url
site = record { host = codes "A.example"; href = codes "https://a.example/post" }

-- A signature is the base itself, and a digest the length of its text.
abbrev crypto : Crypto Text
crypto = record {
  sha_256 = λ t. some (length t ∷ []);
  import_key = λ jwk. jwk.x;
  verify_signature = λ key sig base. some (text_eq sig (codes "TUFD"));
  btoa = λ bytes. bytes;
  json_string = λ t. t;
  parse_url = λ t. some site;
  href_at = λ path base. path;
}

abbrev jwk : Jwk
jwk = record {
  kty = some (codes "OKP");
  crv = some (codes "Ed25519");
  x = some (codes "KEY");
  others = [];
}

abbrev surroundings : Text → Surroundings
surroundings label = record {
  now_ms = 1700000000000;
  fetch_directory = none;
  fetch = λ url. bare_array (none ∷ some jwk ∷ []);
}

abbrev signed_header : Text → Option Text
signed_header name =
    if text_eq name (codes "signature-input")
    then some (
        codes "sig1=(\"@authority\" \"@target-uri\");created=1700000000;expires=1700000300"
        ++ codes ";keyid=\"!\";alg=\"ED25519\";tag=\"web-bot-auth\"")
    else if text_eq name (codes "signature")
    then some (codes "sig1=:TUFD:")
    else if text_eq name (codes "signature-agent")
    then some (codes "\"https://agent.example\"")
    else none

abbrev request : Request
request = record {
  url = codes "https://A.example/post";
  pathname = some (codes "/post");
  header = signed_header;
}

accepted : (verify_web_bot_auth crypto js surroundings 1700000100 request []).1 ≡ true
unfolding bot_auth_all
accepted = refl

expired : (verify_web_bot_auth crypto js surroundings 1700000301 request []).1 ≡ false
unfolding bot_auth_all
expired = refl

verify_web_bot_auth-Accepted_example : Accepted crypto js 1700000100 request
verify_web_bot_auth-Accepted_example =
    verify_web_bot_auth-Accepted crypto js surroundings 1700000100 request [] tt accepted

verify_web_bot_auth-IsNamed_example :
    All (IsNamed crypto) (verify_web_bot_auth crypto js surroundings 1700000100 request []).0
verify_web_bot_auth-IsNamed_example =
    verify_web_bot_auth-IsNamed crypto js surroundings 1700000100 request [] tt

abbrev spec : SigSpec
spec = record {
  components = codes "@authority" ∷ codes "@target-uri" ∷ [];
  param_segment = codes ";created=1";
  params = no_params;
}

abbrev twin : Url
twin = record { host = codes "a.example"; href = codes "https://a.example/post" }

abbrev base : Text
base =
    codes "\"@authority\": a.example\n\"@target-uri\": https://a.example/post\n"
    ++ codes "\"@signature-params\": (\"@authority\" \"@target-uri\");created=1"

site-IsPlain : IsPlain site none spec
site-IsPlain = record { host = refl; href = refl; agent_plain = λ v h. cc; segment = refl }

twin-IsPlain : IsPlain twin none spec
twin-IsPlain = record { host = refl; href = refl; agent_plain = λ v h. cc; segment = refl }

built_site : build_signature_base site none spec ≡ some base
unfolding bot_auth_all
built_site = refl

built_twin : build_signature_base twin none spec ≡ some base
unfolding bot_auth_all
built_twin = refl

build_signature_base-binds_example :
    (lower_case site.host ≡ lower_case twin.host) × (site.href ≡ twin.href)
build_signature_base-binds_example =
    build_signature_base-binds site twin none none spec spec base site-IsPlain twin-IsPlain
      (inl refl, inr (inl refl)) built_site built_twin

abbrev created_one : ParamMap
created_one = record no_params { created = some (pos 1) }

one_parsed : parse_params js (codes ";created=1") ≡ some created_one
unfolding bot_auth_all
one_parsed = refl

parse_spec-print_example :
    parse_spec js (b'(' ∷ inner_list spec.components ++ b')' ∷ codes ";created=1")
    ≡ some (record {
      components = spec.components;
      param_segment = codes ";created=1";
      params = created_one;
    })
parse_spec-print_example =
    parse_spec-print js spec.components (codes ";created=1") created_one (refl, (refl, tt))
      (refl, (refl, tt)) one_parsed
