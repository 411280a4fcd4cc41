-- ===== src/AuthService/Human/Work.antt =====
-- Proofs about the work behind a session.
use verivyx_monorepo.Prelude.{
  ℕ, ◌-◌, ◌*◌, ◌^◌, ◌≤◌, ◌<◌, ◌≡◌, ◌++◌, inl, inr, subst, Bool, true, false, not, ◌&&◌, Option,
  none, some, Text, codes, length, Bool-cases, if◌then◌else◌, arith,
}
use verivyx_monorepo.AuthService.Checks.{Builtins, validate_slug, pow_digest}
use verivyx_monorepo.AuthService.Checks.Laws.{number_of, IsBytes, leading_zero_bits_iff}
use verivyx_monorepo.AuthService.Reputation.{Tier, trusted, standard, risky, adapt_difficulty}
use verivyx_monorepo.AuthService.Types.{
  ChallengeClaims, Jwt, Database, Config, Request, ServiceState, Surroundings, Site, HumanAnswer,
  rejected, challenged, session,
}
use verivyx_monorepo.AuthService.Requests.{rate_limit}
use verivyx_monorepo.AuthService.Human.{
  ChallengeBody, VerifyBody, has_token, is_some, clean_domain_of, site_of, issue, challenge_claims,
  limited_challenge, challenge_site, challenge_slug, challenge, verify_human,
}
use verivyx_monorepo.AuthService.Human.Laws.{verify_human-IsHuman}

adapt_difficulty_bounds :
    (base : ℕ) (tier : Tier) → (12 ≤ adapt_difficulty base tier) × (adapt_difficulty base tier ≤ 26)
unfolding adapt_difficulty
adapt_difficulty_bounds base trusted = (omega arith, omega arith)
adapt_difficulty_bounds base standard = (omega arith, omega arith)
adapt_difficulty_bounds base risky = (omega arith, omega arith)

module _ (js : Builtins) (jwt : Jwt) (db : Database) (config : Config) where
  -- A challenge token was made of claims with this difficulty.
  abbrev IsBounded : ℕ → Type 0
  IsBounded difficulty = (12 ≤ difficulty) × (difficulty ≤ 26)

  abbrev AsksBounded : ServiceState × HumanAnswer → Type 0
  AsksBounded r =
      (token salt : Text) (difficulty : ℕ)
      → r.1 ≡ challenged token salt difficulty
      → IsBounded difficulty

  limited_challenge-bounded :
      (env : Surroundings) (s : ServiceState) (req : Request) (slug : Text) (domain : Option Text)
      (site : Site)
      → AsksBounded (limited_challenge js jwt db config env s req slug domain site)
  unfolding limited_challenge challenge_claims
  limited_challenge-bounded env s req slug domain site token salt difficulty h =
      by_pass (rate_limit s.limits _ 10 60000 env.now).1 h
    where
      claims : ChallengeClaims
      claims = challenge_claims js jwt db config env s req slug domain site

      by_pass :
          (passed : Bool)
          → (if passed
              then issue js jwt db config env.now claims
              else rejected 429 (codes "too_many_challenges"))
            ≡ challenged token salt difficulty
          → IsBounded difficulty
      by_pass true r =
          let same : claims.difficulty ≡ difficulty = cc in
          subst IsBounded same (adapt_difficulty_bounds config.pow_difficulty claims.tier)
      by_pass false r = absurd (cc r)

  challenge_slug-bounded :
      (env : Surroundings) (s : ServiceState) (req : Request) (body : ChallengeBody)
      (slug : Option Text)
      → AsksBounded (challenge_slug js jwt db config env s req body slug)
  unfolding challenge_slug challenge_site
  challenge_slug-bounded env s req body none token salt difficulty h = absurd (cc h)
  challenge_slug-bounded env s req body (some slug) token salt difficulty h =
      elim (Bool-cases (
        not (has_token js jwt db config body)
        && not (is_some js jwt db config (clean_domain_of js jwt db config body)))) [
          | inl missing ↦ absurd (cc (rw missing at h))
          | inr present ↦
              by_site (site_of js jwt db config body (clean_domain_of js jwt db config body))
                (rw present at h)
        ]
    where
      by_site :
          (site : Option (Option Site))
          → (challenge_site js jwt db config env s req slug
              (clean_domain_of js jwt db config body)
              site).1
            ≡ challenged token salt difficulty
          → IsBounded difficulty
      by_site none r = absurd (cc r)
      by_site (some none) r = absurd (cc r)
      by_site (some (some site)) r =
          limited_challenge-bounded env s req slug (clean_domain_of js jwt db config body) site
            token salt difficulty r

  -- Every challenge that is given asks for 12 to 26 zero bits.
  pub challenge_bounds :
      (env : Surroundings) (s : ServiceState) (req : Request) (body : ChallengeBody)
      (token salt : Text) (difficulty : ℕ)
      → (challenge js jwt db config env s req body).1 ≡ challenged token salt difficulty
      → (12 ≤ difficulty) × (difficulty ≤ 26)
  unfolding challenge
  challenge_bounds env s req body =
      challenge_slug-bounded env s req body (validate_slug js body.slug)

  -- The token was the answer of the challenge handler, with that salt and difficulty.
  pub record WasGiven (token : Text) (claims : ChallengeClaims) : Type 0 where
    pub env : Surroundings
    pub state : ServiceState
    pub req : Request
    pub body : ChallengeBody
    pub given :
        (challenge js jwt db config env state req body).1
        ≡ challenged token claims.salt claims.difficulty

  -- The work of a session: the digest of the presented challenge, of the salt that this challenge
  -- was given with, and of the nonce, as a number.
  pub record HasWorked (env : Surroundings) (body : VerifyBody) : Type 0 where
    pub token : Text
    pub claims : ChallengeClaims
    pub verified : jwt.verify_challenge token env.now ≡ some claims
    pub origin : WasGiven token claims
    pub nonce : Text
    pub token_given : body.challenge ≡ some token
    pub nonce_given : body.nonce ≡ some nonce
    pub small :
        number_of (js.sha_256 (token ++ codes ":" ++ claims.salt ++ codes ":" ++ nonce)) < 2 ^ 244

  -- Whoever is given a session has presented a challenge that the challenge handler answered with,
  -- and a nonce: the SHA-256 of this challenge, of the salt of that answer and of the nonce is below
  -- 2 ^ 244, as is one digest of 4096; given that a token verifies only if the challenge handler has
  -- answered with it and with its salt and difficulty (nobody else has the secret), and that SHA-256
  -- gives 32 bytes.
  pub verify_human-HasWorked :
      (env : Surroundings) (s : ServiceState) (req : Request) (body : VerifyBody) (token : Text)
      → ((t : Text) (claims : ChallengeClaims)
          → jwt.verify_challenge t env.now ≡ some claims
          → WasGiven t claims)
      → ((t : Text) → (length (js.sha_256 t) ≡ 32) × IsBytes (js.sha_256 t))
      → (verify_human js jwt db config env s req body).1 ≡ session token
      → HasWorked env body
  unfolding pow_digest
  verify_human-HasWorked env s req body token unforged digests h =
      let shown = verify_human-IsHuman js jwt db config env s req body token h in
      let origin = unforged shown.challenge shown.claims shown.verified in
      let (least, most) =
        challenge_bounds origin.env origin.state origin.req origin.body shown.challenge
          shown.claims.salt shown.claims.difficulty origin.given in
      let digest = pow_digest js shown.challenge shown.claims.salt shown.nonce in
      let (size, bytes) = digests _ in
      let below =
        (leading_zero_bits_iff digest 12 bytes (omega (arith, size))).0
          (omega (arith, shown.worked)) in
      record {
        token = shown.challenge;
        claims = shown.claims;
        verified = shown.verified;
        origin = origin;
        nonce = shown.nonce;
        token_given = shown.challenge_given;
        nonce_given = shown.nonce_given;
        small = subst (λ n. number_of digest < 2 ^ (8 * n - 12)) size below;
      }
