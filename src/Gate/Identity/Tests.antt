-- ===== src/Gate/Identity/Tests.antt =====
-- A search crawler at the classifier with the SDK's verifiers.
use verivyx_monorepo.Prelude.{
  ◌≡◌, refl, if◌then◌else◌, Option, none, some, [], ◌∷◌, Text, codes, text_eq, starts_with,
  includes,
}
use verivyx_monorepo.Prelude.Parse.{
  split, parse_int, signed_prefix, unsigned_prefix, trim, trim_start, trim_end, trim_end_step,
  is_space, to_lower,
}
use verivyx_monorepo.Prelude.Decimal.{show, show_fuel}
use verivyx_monorepo.Prelude.Maps.{map_get, map_set}
use verivyx_monorepo.Gate.Types.{Request, returned}
use verivyx_monorepo.Gate.Detect.{
  crawler, ClassifyResult, extract_ip, lower_case, spaces_then_session, session_after_semicolon,
  has_session_cookie, has_payment_header, has_bearer, has_session, by_ai_needle, by_user_agent,
  classify,
}
use verivyx_monorepo.Gate.Ranges.{
  parse_octet, octets_to_number, parse_ipv4, cut_at_last_slash, ip_in_cidr,
}
use verivyx_monorepo.Gate.Crawlers.{
  prefixes, cidrs_of, cached_ranges, ranges_of, store_reply, any_match, claimed_url,
  verify_crawler_ip,
}
use verivyx_monorepo.Gate.Crawlers.Steps.{start}
use verivyx_monorepo.Gate.BotAuth.Keys.{fetch_failed}
use verivyx_monorepo.Gate.BotAuth.Verify.{verify_web_bot_auth}
use verivyx_monorepo.Gate.Identity.{Verifiers, deps_of, Grounds, classify-Grounds}

identity_all : Unit {0}
unfolding text_eq starts_with includes split parse_int signed_prefix unsigned_prefix trim trim_start
    trim_end trim_end_step is_space to_lower show show_fuel map_get map_set extract_ip lower_case
    spaces_then_session session_after_semicolon has_session_cookie has_payment_header has_bearer
    has_session by_ai_needle by_user_agent classify parse_octet octets_to_number parse_ipv4
    cut_at_last_slash ip_in_cidr cidrs_of cached_ranges ranges_of store_reply any_match claimed_url
    verify_crawler_ip verify_web_bot_auth
identity_all = tt

abbrev verifiers : Verifiers Text
verifiers = record {
  crypto = record {
    sha_256 = λ t. none;
    import_key = λ jwk. none;
    verify_signature = λ key sig base. none;
    btoa = λ bytes. bytes;
    json_string = λ t. t;
    parse_url = λ t. none;
    href_at = λ path base. path;
  };
  builtins = record { number = λ t. none; atob = λ t. none };
  bot_surroundings = λ label. record {
    now_ms = 1700000000000;
    fetch_directory = none;
    fetch = λ url. fetch_failed;
  };
  now_seconds = 1700000000;
  keys = [];
  crawler_deps = record {
    cache_ttl_ms = 86400000;
    googlebot_url = codes "https://g.example/ranges.json";
    bingbot_url = codes "https://b.example/ranges.json";
  };
  ranges = record { cache = []; published = [] };
  range_call = record {
    now = 1000;
    now_after = 1200;
    fetch = λ url.
        prefixes
          (some (record { ipv4_prefix = some (codes "66.249.64.0/19"); ipv6_prefix = none }) ∷ []);
  };
}

abbrev crawler_header : Text → Option Text
crawler_header name =
    if text_eq name (codes "user-agent")
    then some (codes "Mozilla/5.0 (compatible; Googlebot/2.1)")
    else if text_eq name (codes "x-real-ip")
    then some (codes "66.249.66.1")
    else none

abbrev visit : Request
visit = record {
  url = codes "https://a.example/post";
  pathname = some (codes "/post");
  header = crawler_header;
}

abbrev class : ClassifyResult
class = record {
  classification = crawler;
  signals = codes "ua:googlebot" ∷ codes "dns:verified" ∷ [];
}

classified : classify (deps_of verifiers) visit ≡ returned class
unfolding identity_all
classified = refl

classify-Grounds_example : Grounds verifiers visit crawler
classify-Grounds_example = classify-Grounds verifiers visit class tt start classified
