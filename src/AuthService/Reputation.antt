-- ===== src/AuthService/Reputation.antt =====
-- reputation.ts: counts of humans and bots by cohort in Redis, the score, and the difficulty.
pub mod Laws
use verivyx_monorepo.Prelude.{
  ℕ, ◌+◌, ◌-◌, ◌*◌, ◌/◌, min, max, Bool, true, false, not, ◌&&◌, ◌||◌, Option, none, some,
  or_default, List, [], ◌∷◌, ◌++◌, Text, codes, includes, leb, ltb, ◌==◌, length, any, filter, take,
  if◌then◌else◌,
}
use verivyx_monorepo.Prelude.Parse.{split}
use verivyx_monorepo.Prelude.Parse.Laws.{join}
use verivyx_monorepo.Prelude.Maps.{map_get, map_set}
use verivyx_monorepo.AuthService.Checks.{Builtins, is_not_empty}

pub data Tier : Type 0 where
  trusted standard risky : Tier

pub record RepKey : Type 0 where
  pub ja4 : Option Text
  pub ip : Text
  pub ua : Text

-- The hash at a key, and when it expires.
pub record Counts : Type 0 where
  pub humans : ℕ
  pub bots : ℕ
  pub anomalies : ℕ
  pub last_seen : ℕ
  pub avg_pow_ms : ℕ
  pub expires_at : ℕ

pub record RepRecord : Type 0 where
  pub humans : ℕ
  pub bots : ℕ
  pub anomalies : ℕ
  pub last_seen : ℕ
  pub avg_pow_ms : ℕ
  pub score : ℕ
  pub tier : Tier

pub data VisitOutcome : Type 0 where
  human bot : VisitOutcome

pub record UpdateOpts : Type 0 where
  pub outcome : VisitOutcome
  pub pow_duration_ms : Option ℕ
  pub anomaly : Bool

abbrev pub Store : Type 0
Store = List (Text × Counts)

-- In milliseconds, as the clock.
abbrev pub default_ttl_ms : ℕ
default_ttl_ms = 30 * 24 * 60 * 60 * 1000

abbrev or_unknown : Text → Text
or_unknown [] = codes "unknown"
or_unknown (c ∷ t) = c ∷ t

abbrev first_octets : List Text → Text
first_octets (a ∷ b ∷ parts) = a ++ codes "." ++ b
first_octets _ = codes "unknown"

unfoldable pub ip_prefix : Text → Text
ip_prefix [] = codes "unknown"
ip_prefix (c ∷ t) =
    if any (λ d. d == b':') (c ∷ t)
    then or_unknown (join b':' (take 4 (filter is_not_empty (split b':' (c ∷ t)))))
    else first_octets (split b'.' (c ∷ t))

-- Starts at the middle, drifts by 5, and stays in 0 to 100; the subtraction stops at 0 where the
-- source's `Math.max(0, _)` does.
unfoldable pub score_from_counts : ℕ → ℕ → ℕ
score_from_counts humans bots = min 100 (50 + humans * 5 - bots * 5)

unfoldable pub tier_from_score : ℕ → Tier
tier_from_score score = if leb 70 score then trusted else if ltb score 30 then risky else standard

-- The subtraction stops at 0, below the least difficulty.
abbrev target_difficulty : ℕ → Tier → ℕ
target_difficulty base trusted = base - 2
target_difficulty base standard = base
target_difficulty base risky = base + 4

unfoldable pub adapt_difficulty : ℕ → Tier → ℕ
adapt_difficulty base tier = max 12 (min 26 (target_difficulty base tier))

abbrev no_record : RepRecord
no_record = record {
  humans = 0;
  bots = 0;
  anomalies = 0;
  last_seen = 0;
  avg_pow_ms = 0;
  score = 50;
  tier = standard;
}

abbrev no_counts : Counts
no_counts = record {
  humans = 0;
  bots = 0;
  anomalies = 0;
  last_seen = 0;
  avg_pow_ms = 0;
  expires_at = 0;
}

abbrev live_counts : ℕ → Option Counts → Option Counts
live_counts now none = none
live_counts now (some c) = if ltb now c.expires_at then some c else none

unfoldable pub counts_at : ℕ → Store → Text → Option Counts
counts_at now store key = live_counts now (map_get store key)

abbrev record_of : Option Counts → RepRecord
unfolding score_from_counts tier_from_score
record_of none = no_record
record_of (some c) = record {
  humans = c.humans;
  bots = c.bots;
  anomalies = c.anomalies;
  last_seen = c.last_seen;
  avg_pow_ms = c.avg_pow_ms;
  score = score_from_counts c.humans c.bots;
  tier = tier_from_score (score_from_counts c.humans c.bots);
}

-- `Math.round(prev * 0.8 + ms * 0.2)`.
abbrev next_avg : ℕ → Option ℕ → ℕ
next_avg prev none = prev
next_avg prev (some ms) = if ltb 0 prev then (8 * prev + 2 * ms + 5) / 10 else ms

abbrev count_outcome : VisitOutcome → Counts → Counts
count_outcome human c = record c { humans = c.humans + 1 }
count_outcome bot c = record c { bots = c.bots + 1 }

abbrev pub counted : ℕ → UpdateOpts → Counts → Counts
counted now opts c =
    let seen = count_outcome opts.outcome c in
    record {
      humans = seen.humans;
      bots = seen.bots;
      anomalies = if opts.anomaly then c.anomalies + 1 else c.anomalies;
      last_seen = now;
      avg_pow_ms = next_avg c.avg_pow_ms opts.pow_duration_ms;
      expires_at = now + default_ttl_ms;
    }

module _ (js : Builtins) where
  unfoldable pub ua_cohort : Text → Text
  ua_cohort ua =
      let s = js.lower_case ua in
      if includes s (codes "edg/")
      then codes "edge"
      else if includes s (codes "firefox/")
      then codes "firefox"
      else if includes s (codes "chrome/")
      then codes "chrome"
      else if includes s (codes "safari/")
      then codes "safari"
      else codes "other"

  abbrev ja4_of : Option Text → Text
  ja4_of none = codes "none"
  ja4_of (some []) = codes "none"
  ja4_of (some (c ∷ t)) = c ∷ t

  unfoldable pub rep_key_of : RepKey → Text
  unfolding ip_prefix ua_cohort
  rep_key_of k =
      codes "rep:" ++ ja4_of k.ja4 ++ codes ":" ++ ip_prefix k.ip ++ codes ":" ++ ua_cohort k.ua

  -- Without Redis, the neutral record.
  unfoldable pub rep_lookup : Bool → ℕ → Store → RepKey → RepRecord
  unfolding rep_key_of counts_at record_of
  rep_lookup connected now store k =
      if connected then record_of (counts_at now store (rep_key_of k)) else no_record

  -- One transaction; without Redis, nothing.
  unfoldable pub rep_update : Bool → ℕ → Store → RepKey → UpdateOpts → Store
  unfolding rep_key_of counts_at map_set
  rep_update connected now store k opts =
      if connected
      then map_set store (rep_key_of k)
          (counted now opts (or_default (counts_at now store (rep_key_of k)) no_counts))
      else store
