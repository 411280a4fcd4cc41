-- ===== src/AuthService/Human.antt =====
-- index.ts: the challenge and the proof that a visitor is human.
pub mod Laws
pub mod Work
use verivyx_monorepo.Prelude.{
  ℕ, ◌+◌, ◌*◌, Bool, true, false, not, ◌&&◌, ◌||◌, Option, none, some, or_default, List, [], ◌∷◌,
  ◌++◌, Text, codes, text_eq, leb, ltb, ◌==◌, length, take, if◌then◌else◌,
}
use verivyx_monorepo.Prelude.Int.{ℤ, pos, negsuc}
use verivyx_monorepo.Prelude.Maps.{map_get, map_set}
use verivyx_monorepo.AuthService.Checks.{
  Number, Fraction, whole, below_half, from_half, le_integer, Builtins, Forwarded, client_ip,
  Fingerprint, fingerprint_reason, normalize_domain, validate_slug, check_pow,
}
use verivyx_monorepo.AuthService.Reputation.{
  Tier, RepKey, UpdateOpts, human, bot, Store, adapt_difficulty, rep_lookup, rep_update,
}
use verivyx_monorepo.AuthService.Types.{
  ChallengeClaims, Config, Database, EventType, HumanAnswer, HumanClaims, Jwt, Request,
  ServiceState, Site, Surroundings, VisitEvent, Window, challenge_failed, challenge_passed,
  challenged, pow_speed_anomaly, rejected, server_error, session,
}
use verivyx_monorepo.AuthService.Requests.{
  opened, pass, rate_limit, client_ja4, user_agent_of, unless_empty, req_ip, ip_text, rep_key,
  rounded, pow_ms, is_anomaly, ip_eq,
}

pub record ChallengeBody : Type 0 where
  pub token : Option Text
  pub domain : Option Text
  pub slug : Option Text

pub record VerifyBody : Type 0 where
  pub challenge : Option Text
  pub nonce : Option Text
  pub fingerprint : Option Fingerprint
  pub pow_duration_ms : Option Number

abbrev pub as_bot : Option ℕ → UpdateOpts
as_bot ms = record { outcome = bot; pow_duration_ms = ms; anomaly = true }

abbrev pub as_human : Option ℕ → UpdateOpts
as_human ms = record { outcome = human; pow_duration_ms = ms; anomaly = false }

abbrev pub human_claims : ChallengeClaims → Option Text → Text → HumanClaims
human_claims claims ip ua = record {
  site_id = claims.site_id;
  domain = claims.domain;
  ip = ip;
  ua = ua;
}

abbrev event_of :
    ChallengeClaims → RepKey → Option Text → EventType → Option Text → Option ℕ → ℕ → VisitEvent
event_of claims key ip type agent ms id = record {
  user_id = id;
  type = type;
  session_id = claims.salt;
  ip = ip;
  agent = agent;
  pow_duration_ms = ms;
  ja4 = key.ja4;
}

abbrev with_event : ServiceState → Option (Option ℕ) → (ℕ → VisitEvent) → ServiceState
with_event s none event = s
with_event s (some none) event = s
with_event s (some (some id)) event = record s { events = event id ∷ s.events }

-- `claims.ja4 || clientJa4(req) || null`.
abbrev claimed_or : Text → Text → Option Text
claimed_or [] own = unless_empty own
claimed_or (c ∷ t) own = some (c ∷ t)

module _ (js : Builtins) (jwt : Jwt) (db : Database) (config : Config) where
  abbrev site_by_token : Option Text → Option (Option Site)
  site_by_token token = elim (unless_empty (or_default token [])) [
    | none ↦ some none
    | some t ↦ db.site_of_token t
  ]

  abbrev has_token : ChallengeBody → Bool
  has_token body = not (length (or_default body.token []) == 0)

  abbrev clean_domain_of : ChallengeBody → Option Text
  unfolding normalize_domain
  clean_domain_of body = if has_token body then none else normalize_domain js body.domain

  abbrev site_of : ChallengeBody → Option Text → Option (Option Site)
  site_of body clean_domain =
      if has_token body
      then site_by_token body.token
      else (elim clean_domain [ none ↦ some none | some d ↦ db.site_of_verified_domain d ])

  abbrev is_some : Option Text → Bool
  is_some none = false
  is_some (some t) = true

  abbrev pub challenge_claims :
      Surroundings → ServiceState → Request → Text → Option Text → Site → ChallengeClaims
  unfolding client_ja4 rep_lookup adapt_difficulty
  challenge_claims env s req slug clean_domain site =
      let ip = req_ip config req in
      let ua = user_agent_of req in
      let rep =
        rep_lookup js env.redis_connected env.now s.reputation
          (rep_key (unless_empty (client_ja4 req)) ip ua) in
      record {
        site_id = site.site_id;
        domain = or_default site.domain (or_default clean_domain []);
        slug = slug;
        salt = env.random_hex;
        difficulty = adapt_difficulty config.pow_difficulty rep.tier;
        ip = ip;
        ua = ua;
        ja4 = client_ja4 req;
        tier = rep.tier;
      }

  abbrev pub issue : ℕ → ChallengeClaims → HumanAnswer
  issue now claims = challenged (jwt.sign_challenge claims now) claims.salt claims.difficulty

  abbrev pub limited_challenge :
      Surroundings → ServiceState → Request → Text → Option Text → Site → ServiceState × HumanAnswer
  unfolding rate_limit challenge_claims
  limited_challenge env s req slug clean_domain site =
      let (limits, passed) =
        rate_limit s.limits (ip_text (req_ip config req) ++ codes ":challenge") 10 60000 env.now in
      (
        record s { limits = limits },
        if passed
            then issue env.now (challenge_claims env s req slug clean_domain site)
            else rejected 429 (codes "too_many_challenges"),
      )

  abbrev pub challenge_site :
      Surroundings
      → ServiceState
      → Request
      → Text
      → Option Text
      → Option (Option Site)
      → ServiceState × HumanAnswer
  unfolding limited_challenge
  challenge_site env s req slug clean_domain none = (s, server_error)
  challenge_site env s req slug clean_domain (some none) = (s, rejected 400 (codes "unknown_site"))
  challenge_site env s req slug clean_domain (some (some site)) =
      limited_challenge env s req slug clean_domain site

  abbrev pub challenge_slug :
      Surroundings
      → ServiceState
      → Request
      → ChallengeBody
      → Option Text
      → ServiceState × HumanAnswer
  unfolding clean_domain_of challenge_site
  challenge_slug env s req body none =
      (s, rejected 400 (codes "slug and (token or domain) required"))
  challenge_slug env s req body (some slug) =
      let clean_domain = clean_domain_of body in
      if not (has_token body) && not (is_some clean_domain)
      then (s, rejected 400 (codes "slug and (token or domain) required"))
      else challenge_site env s req slug clean_domain (site_of body clean_domain)

  -- POST /api/v1/auth/challenge.
  unfoldable pub challenge :
      Surroundings → ServiceState → Request → ChallengeBody → ServiceState × HumanAnswer
  unfolding challenge_slug validate_slug
  challenge env s req body = challenge_slug env s req body (validate_slug js body.slug)

  abbrev user_of : ChallengeClaims → Option (Option ℕ)
  user_of claims = elim claims.site_id [
    | some (c ∷ t) ↦ db.user_of_site (c ∷ t)
    | _ ↦ db.user_of_verified_domain claims.domain
  ]

  -- The reputation of the visitor after an outcome.
  abbrev pub counted_as : Surroundings → ServiceState → RepKey → UpdateOpts → ServiceState
  unfolding rep_update
  counted_as env s key opts = record s {
    reputation = rep_update js env.redis_connected env.now s.reputation key opts;
  }

  abbrev pub key_of : Request → ChallengeClaims → RepKey
  unfolding client_ja4
  key_of req claims =
      rep_key (claimed_or claims.ja4 (client_ja4 req)) (req_ip config req) (user_agent_of req)

  -- The session, unless the query before the answer throws.
  abbrev pub session_after : Option (Option ℕ) → Text → HumanAnswer
  session_after none token = server_error
  session_after (some user) token = session token

  abbrev pub judge_fingerprint :
      Surroundings
      → ServiceState
      → Request
      → ChallengeClaims
      → Option ℕ
      → Option Text
      → ServiceState × HumanAnswer
  unfolding counted_as key_of
  judge_fingerprint env s req claims ms (some reason) =
      let key = key_of req claims in
      let ip = req_ip config req in
      (
        with_event (counted_as env s key (as_bot ms)) (user_of claims)
            (event_of claims key ip challenge_failed (some reason) ms),
        rejected 401 reason,
      )
  judge_fingerprint env s req claims ms none =
      let key = key_of req claims in
      let ip = req_ip config req in
      (
        with_event (counted_as env s key (as_human ms)) (user_of claims)
            (event_of claims key ip challenge_passed none ms),
        session_after (user_of claims)
            (jwt.sign_human (human_claims claims ip (user_agent_of req)) env.now),
      )

  abbrev pub judge_time :
      Surroundings
      → ServiceState
      → Request
      → VerifyBody
      → ChallengeClaims
      → Option ℕ
      → ServiceState × HumanAnswer
  unfolding judge_fingerprint fingerprint_reason
  judge_time env s req body claims ms =
      let key = key_of req claims in
      let ip = req_ip config req in
      if is_anomaly config.pow_min_solve_ms ms
      then (
        with_event (counted_as env s key (as_bot ms)) (user_of claims)
            (event_of claims key ip pow_speed_anomaly none ms),
        rejected 401 (codes "pow_too_fast"),
      )
      else judge_fingerprint env s req claims ms (fingerprint_reason js body.fingerprint)

  abbrev pub judge_claims :
      Surroundings
      → ServiceState
      → Request
      → VerifyBody
      → Text
      → Text
      → Option ChallengeClaims
      → ServiceState × HumanAnswer
  unfolding judge_time pow_ms check_pow
  judge_claims env s req body token nonce none =
      (s, rejected 401 (codes "invalid_or_expired_challenge"))
  judge_claims env s req body token nonce (some claims) =
      if not (ip_eq claims.ip (req_ip config req) && text_eq claims.ua (user_agent_of req))
      then (s, rejected 401 (codes "context_mismatch"))
      else if not (check_pow js token claims.salt nonce claims.difficulty)
      then (s, rejected 401 (codes "pow_invalid"))
      else judge_time env s req body claims (pow_ms body.pow_duration_ms)

  abbrev pub judge_body :
      Surroundings
      → ServiceState
      → Request
      → VerifyBody
      → Option Text
      → Option Text
      → ServiceState × HumanAnswer
  unfolding judge_claims
  judge_body env s req body (some token) (some nonce) =
      judge_claims env s req body token nonce (jwt.verify_challenge token env.now)
  judge_body env s req body _ _ = (s, rejected 400 (codes "challenge and nonce required"))

  -- POST /api/v1/auth/verify-human.
  unfoldable pub verify_human :
      Surroundings → ServiceState → Request → VerifyBody → ServiceState × HumanAnswer
  unfolding judge_body
  verify_human env s req body = judge_body env s req body body.challenge body.nonce
