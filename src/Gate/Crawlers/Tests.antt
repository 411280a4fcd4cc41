-- ===== src/Gate/Crawlers/Tests.antt =====
-- Search crawlers at the verifier, and the theorems at them.
use verivyx_monorepo.Prelude.{
  ◌≡◌, ◌↔◌, ◌/◌, ◌^◌, ◌-◌, ◌≤◌, ◌<◌, ◌++◌, refl, arith, true, false, none, some, [], ◌∷◌, Text,
  codes, Any, text_eq, includes, starts_with,
}
use verivyx_monorepo.Prelude.Parse.{
  split, parse_int, trim_start, signed_prefix, unsigned_prefix, is_space, to_lower,
}
use verivyx_monorepo.Prelude.Decimal.{show, show_fuel}
use verivyx_monorepo.Prelude.Maps.{map_get, map_set}
use verivyx_monorepo.Gate.Detect.{lower_case}
use verivyx_monorepo.Gate.Ranges.{
  parse_octet, octets_to_number, parse_ipv4, parse_group, groups_from, groups_to_number,
  split_double_colon, parse_ipv6, cut_at_last_slash, ip_in_cidr,
}
use verivyx_monorepo.Gate.Ranges.Six.{parse_ipv6_bounds}
use verivyx_monorepo.Gate.Ranges.Laws.{address, parse_ipv4-address, ip_in_cidr-prefix}
use verivyx_monorepo.Gate.Crawlers.{
  RangeReply, prefixes, Deps, cidrs_of, cached_ranges, ranges_of, store_reply, any_match,
  claimed_url, RangeCall, verify_crawler_ip,
}
use verivyx_monorepo.Gate.Crawlers.Steps.{
  World, after_reply, Supports, CallStep, arrived, start, step,
}
use verivyx_monorepo.Gate.Crawlers.Laws.{IsStep, crawler-published, verify_crawler_ip-CallStep}

crawlers_all : Unit {0}
unfolding text_eq includes starts_with split parse_int trim_start signed_prefix unsigned_prefix
    is_space to_lower show show_fuel lower_case parse_octet octets_to_number parse_ipv4 parse_group
    groups_from groups_to_number split_double_colon parse_ipv6 cut_at_last_slash ip_in_cidr map_get
    map_set cidrs_of cached_ranges ranges_of store_reply any_match claimed_url verify_crawler_ip
crawlers_all = tt

in_v4 : ip_in_cidr (codes "66.249.66.1") (codes "66.249.64.0/19") ≡ true
unfolding crawlers_all
in_v4 = refl

outside_v4 : ip_in_cidr (codes "66.249.96.1") (codes "66.249.64.0/19") ≡ false
unfolding crawlers_all
outside_v4 = refl

in_v6 : ip_in_cidr (codes "2001:4860:4801::1f") (codes "2001:4860:4801:0::/64") ≡ true
unfolding crawlers_all
in_v6 = refl

leading_zero : parse_ipv4 (codes "66.249.066.1") ≡ none
unfolding crawlers_all
leading_zero = refl

parse_ipv4-address_example :
    (parse_ipv4 (codes "66.249.66.1") ≡ some 1123631617)
    ↔ (codes "66.249.66.1" ≡ address 1123631617) × (1123631617 < 2 ^ 32)
parse_ipv4-address_example = parse_ipv4-address (codes "66.249.66.1") 1123631617

ip_in_cidr-prefix_example :
    (ip_in_cidr (address 1123631617) (address 1123631104 ++ b'/' ∷ show 19) ≡ true)
    ↔ (19 ≤ 32) × (1123631617 / 2 ^ (32 - 19) ≡ 1123631104 / 2 ^ (32 - 19))
ip_in_cidr-prefix_example = ip_in_cidr-prefix 1123631617 1123631104 19 (omega arith) (omega arith)

abbrev deps : Deps
deps = record {
  cache_ttl_ms = 86400000;
  googlebot_url = codes "https://g.example/ranges.json";
  bingbot_url = codes "https://b.example/ranges.json";
}

abbrev published_ranges : RangeReply
published_ranges = prefixes (
    some (record { ipv4_prefix = none; ipv6_prefix = some (codes "2001:4860::/32") })
    ∷ some (record { ipv4_prefix = some (codes "66.249.64.0/19"); ipv6_prefix = none })
    ∷ [])

abbrev agent : Text
agent = codes "Mozilla/5.0 (compatible; Googlebot/2.1)"

abbrev no_world : World
no_world = record { cache = []; published = [] }

abbrev fetched_world : World
unfolding crawlers_all
fetched_world = after_reply no_world deps.googlebot_url 1000 published_ranges

fetched_step : CallStep deps (codes "66.249.66.1") agent 1000 no_world fetched_world true
unfolding crawlers_all
fetched_step = arrived no_world deps.googlebot_url published_ranges refl

cached_step : CallStep deps (codes "66.249.66.2") agent 2000 fetched_world fetched_world true
unfolding crawlers_all
cached_step =
    CallStep.answered fetched_world deps.googlebot_url
      (record { cidrs = codes "2001:4860::/32" ∷ codes "66.249.64.0/19" ∷ []; fetched_at = 1000 })
      refl refl (omega arith)

crawler-published_example :
    (url : Text) × (claimed_url deps agent ≡ some url)
    × Any (Supports deps (codes "66.249.66.2") url 2000) fetched_world.published
crawler-published_example =
    crawler-published deps fetched_world fetched_world (codes "66.249.66.2") agent 2000
      (step no_world fetched_world (codes "66.249.66.1") agent 1000 true start fetched_step)
      cached_step

abbrev range_call : RangeCall
range_call = record { now = 1000; now_after = 1200; fetch = λ url. published_ranges }

verify_crawler_ip-CallStep_example :
    (v : World) × (v.cache ≡ (verify_crawler_ip deps [] range_call (codes "66.249.66.1") agent).0)
    × IsStep deps range_call
        (codes "66.249.66.1")
        agent
        no_world
        v
        (verify_crawler_ip deps [] range_call (codes "66.249.66.1") agent).1
verify_crawler_ip-CallStep_example =
    verify_crawler_ip-CallStep deps no_world range_call (codes "66.249.66.1") agent

parsed_v6 : parse_ipv6 (codes "2001:db8::1") ≡ some 42540766411282592856903984951653826561
unfolding crawlers_all
parsed_v6 = refl

parse_ipv6_bounds_example : 42540766411282592856903984951653826561 < 2 ^ 128
parse_ipv6_bounds_example =
    parse_ipv6_bounds (codes "2001:db8::1") 42540766411282592856903984951653826561 parsed_v6
