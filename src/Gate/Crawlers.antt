-- ===== src/Gate/Crawlers.antt =====
-- crawlerverify.ts: the cache of published ranges, and the verifier of search crawlers on it.
pub mod Steps
pub mod Laws
mod Tests
use verivyx_monorepo.Prelude.{
  ℕ, ◌+◌, ◌≤◌, Bool, true, false, Option, none, some, List, [], ◌∷◌, Text, codes, text_eq, includes,
  leb, any, if◌then◌else◌,
}
use verivyx_monorepo.Prelude.Maps.{map_get, map_set}
use verivyx_monorepo.Gate.Types.{Result, returned, backend_unreachable, failed, ◌>>=◌}
use verivyx_monorepo.Gate.Detect.{lower_case}
use verivyx_monorepo.Gate.Ranges.{ip_in_cidr}

pub record CacheEntry : Type 0 where
  pub cidrs : List Text
  pub fetched_at : ℕ

abbrev pub Cache : Type 0
Cache = List (Text × CacheEntry)

pub record Prefix : Type 0 where
  pub ipv4_prefix : Option Text
  pub ipv6_prefix : Option Text

-- What `fetch` and `json()` give: an error, a status that is not ok, a body that is no JSON, a
-- body without a list of prefixes, or that list, where an entry can be null.
pub data RangeReply : Type 0 where
  network_error not_ok no_json no_prefixes : RangeReply
  prefixes : List (Option Prefix) → RangeReply

pub record Deps : Type 0 where
  pub cache_ttl_ms : ℕ
  pub googlebot_url : Text
  pub bingbot_url : Text

abbrev cidr_of : Prefix → Option Text
cidr_of entry = elim entry.ipv4_prefix [ some c ↦ some c | none ↦ entry.ipv6_prefix ]

abbrev with_cidr : Option Text → List Text → List Text
with_cidr none cidrs = cidrs
with_cidr (some c) cidrs = c ∷ cidrs

-- A null entry throws.
unfoldable pub cidrs_of : List (Option Prefix) → Result (List Text)
cidrs_of [] = returned []
cidrs_of (none ∷ entries) = failed
cidrs_of (some entry ∷ entries) =
    cidrs_of entries >>= λ cidrs. returned (with_cidr (cidr_of entry) cidrs)

-- The ranges of an entry that is not too old.
abbrev pub fresh_ranges : Deps → ℕ → Option CacheEntry → Option (List Text)
fresh_ranges deps now none = none
fresh_ranges deps now (some entry) =
    if leb now (entry.fetched_at + deps.cache_ttl_ms) then some entry.cidrs else none

unfoldable pub cached_ranges : Deps → Cache → Text → ℕ → Option (List Text)
unfolding map_get
cached_ranges deps cache url now = fresh_ranges deps now (map_get cache url)

-- What a reply leads to: the ranges, the last cached ones of the url from now on.
unfoldable pub ranges_of : RangeReply → Result (List Text)
unfolding cidrs_of
ranges_of (prefixes entries) = cidrs_of entries
ranges_of _ = returned []

abbrev stored : Cache → Text → ℕ → Result (List Text) → Cache
unfolding map_set
stored cache url now (returned cidrs) =
    map_set cache url (record { cidrs = cidrs; fetched_at = now })
stored cache url now _ = cache

unfoldable pub store_reply : Cache → Text → ℕ → RangeReply → Cache
unfolding ranges_of stored
store_reply cache url now (prefixes entries) = stored cache url now (ranges_of (prefixes entries))
store_reply cache url now _ = cache

unfoldable pub any_match : Text → List Text → Bool
any_match ip cidrs = any (ip_in_cidr ip) cidrs

-- The list that an agent claims to be on.
unfoldable pub claimed_url : Deps → Text → Option Text
claimed_url deps ua =
    let lower_ua = lower_case ua in
    if includes lower_ua (codes "googlebot")
    then some deps.googlebot_url
    else if includes lower_ua (codes "bingbot")
    then some deps.bingbot_url
    else none

-- `false` on any error.
abbrev pub matched : Text → Result (List Text) → Bool
unfolding any_match
matched ip (returned cidrs) = any_match ip cidrs
matched ip _ = false

-- What a call sees: the clock when it starts and when its reply is read, and the reply.
pub record RangeCall : Type 0 where
  pub now : ℕ
  pub now_after : ℕ
  pub fetch : Text → RangeReply

abbrev pub load_ranges : Cache → Text → RangeCall → Option (List Text) → Cache × Result (List Text)
unfolding store_reply
load_ranges cache url env (some cidrs) = (cache, returned cidrs)
load_ranges cache url env none =
    (store_reply cache url env.now_after (env.fetch url), ranges_of (env.fetch url))

abbrev pub verify_claim : Deps → Cache → RangeCall → Text → Option Text → Cache × Bool
unfolding cached_ranges
verify_claim deps cache env ip none = (cache, false)
verify_claim deps cache env ip (some url) =
    let (after, cidrs) = load_ranges cache url env (cached_ranges deps cache url env.now) in
    (after, matched ip cidrs)

-- One call of the verifier, with no other call between its steps.
unfoldable pub verify_crawler_ip : Deps → Cache → RangeCall → Text → Text → Cache × Bool
unfolding claimed_url verify_claim
verify_crawler_ip deps cache env ip ua = verify_claim deps cache env ip (claimed_url deps ua)
