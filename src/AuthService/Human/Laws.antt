-- ===== src/AuthService/Human/Laws.antt =====
-- Proofs about who is given a session.
use verivyx_monorepo.Prelude.{
  ℕ, ◌≤◌, ◌≡◌, refl, inl, inr, true, false, ◌&&◌, Option, none, some, Text, codes, text_eq,
  text_eq_iff, leb, Bool-cases, Option-cases, arith,
}
use verivyx_monorepo.AuthService.Checks.{
  Builtins, fingerprint_reason, check_pow, pow_digest, leading_zero_bits,
}
use verivyx_monorepo.AuthService.Reputation.{UpdateOpts, rep_update}
use verivyx_monorepo.AuthService.Types.{
  ChallengeClaims, Jwt, Database, Config, Request, ServiceState, Surroundings, HumanAnswer,
  rejected, server_error, session, VisitEvent,
}
use verivyx_monorepo.AuthService.Requests.{user_agent_of, req_ip, pow_ms, is_anomaly, ip_eq}
use verivyx_monorepo.AuthService.Human.{
  VerifyBody, human_claims, as_bot, as_human, with_event, user_of, key_of, counted_as,
  session_after, judge_fingerprint, judge_time, judge_claims, judge_body, verify_human,
}

ip_eq_sound : (a b : Option Text) → ip_eq a b ≡ true → a ≡ b
ip_eq_sound none none h = refl
ip_eq_sound none (some b) h = cc
ip_eq_sound (some a) none h = cc
ip_eq_sound (some a) (some b) h = ground (arith, text_eq_iff a b)

abbrev pub IsSlow : ℕ → Option ℕ → Type 0
IsSlow least none = Unit
IsSlow least (some ms) = least ≤ ms

is_anomaly-IsSlow : (least : ℕ) (ms : Option ℕ) → is_anomaly least ms ≡ false → IsSlow least ms
is_anomaly-IsSlow least none h = tt
is_anomaly-IsSlow least (some ms) h = ground arith

module _ (js : Builtins) (jwt : Jwt) (db : Database) (config : Config) where
  -- What a visitor has shown to be given this session.
  pub record IsHuman (env : Surroundings) (req : Request) (body : VerifyBody) (token : Text)
      : Type 0 where
    pub challenge : Text
    pub nonce : Text
    pub claims : ChallengeClaims
    pub challenge_given : body.challenge ≡ some challenge
    pub nonce_given : body.nonce ≡ some nonce
    pub verified : jwt.verify_challenge challenge env.now ≡ some claims
    pub same_ip : claims.ip ≡ req_ip config req
    pub same_ua : claims.ua ≡ user_agent_of req
    pub worked : claims.difficulty ≤ leading_zero_bits (pow_digest js challenge claims.salt nonce)
    pub slow : IsSlow config.pow_min_solve_ms (pow_ms body.pow_duration_ms)
    pub plausible : fingerprint_reason js body.fingerprint ≡ none
    pub bound :
        token ≡ jwt.sign_human (human_claims claims (req_ip config req) (user_agent_of req)) env.now

  session_after_inv :
      (user : Option (Option ℕ)) (made token : Text)
      → session_after js jwt db config user made ≡ session token
      → token ≡ made
  session_after_inv none made token h = absurd (cc h)
  session_after_inv (some user) made token h = cc

  judge_fingerprint_inv :
      (env : Surroundings) (s : ServiceState) (req : Request) (claims : ChallengeClaims)
      (ms : Option ℕ) (reason : Option Text) (token : Text)
      → (judge_fingerprint js jwt db config env s req claims ms reason).1 ≡ session token
      → (reason ≡ none)
        × (token
            ≡ jwt.sign_human (human_claims claims (req_ip config req) (user_agent_of req)) env.now)
  unfolding judge_fingerprint
  judge_fingerprint_inv env s req claims ms none token h =
      (refl, session_after_inv (user_of js jwt db config claims) _ token h)
  judge_fingerprint_inv env s req claims ms (some reason) token h = absurd (cc h)

  judge_claims-IsHuman :
      (env : Surroundings) (s : ServiceState) (req : Request) (body : VerifyBody)
      (challenge nonce token : Text) (verdict : Option ChallengeClaims)
      → body.challenge ≡ some challenge
      → body.nonce ≡ some nonce
      → jwt.verify_challenge challenge env.now ≡ verdict
      → (judge_claims js jwt db config env s req body challenge nonce verdict).1 ≡ session token
      → IsHuman env req body token
  unfolding judge_claims judge_time check_pow
  judge_claims-IsHuman env s req body challenge nonce token none c n v h = absurd (cc h)
  judge_claims-IsHuman env s req body challenge nonce token (some claims) c n v h =
      elim (Bool-cases
        (ip_eq claims.ip (req_ip config req) && text_eq claims.ua (user_agent_of req))) [
          | inr other ↦ absurd (cc (rw other at h))
          | inl same ↦
              elim (Bool-cases (
                leb claims.difficulty
                  (leading_zero_bits (pow_digest js challenge claims.salt nonce)))) [
                    | inr lazy ↦ absurd (cc (rw (same, lazy) at h))
                    | inl work ↦
                        elim (Bool-cases
                          (is_anomaly config.pow_min_solve_ms (pow_ms body.pow_duration_ms))) [
                            | inl fast ↦ absurd (cc (rw (same, work, fast) at h))
                            | inr slow ↦
                                let (plausible, bound) =
                                  judge_fingerprint_inv env s req claims
                                    (pow_ms body.pow_duration_ms)
                                    (fingerprint_reason js body.fingerprint) token
                                    (rw (same, work, slow) at h) in
                                record {
                                  challenge = challenge;
                                  nonce = nonce;
                                  claims = claims;
                                  challenge_given = c;
                                  nonce_given = n;
                                  verified = v;
                                  same_ip =
                                      ip_eq_sound claims.ip (req_ip config req) (ground arith);
                                  same_ua =
                                      (text_eq_iff claims.ua (user_agent_of req)).0 (ground arith);
                                  worked = ground arith;
                                  slow =
                                      is_anomaly-IsSlow config.pow_min_solve_ms
                                        (pow_ms body.pow_duration_ms) slow;
                                  plausible = plausible;
                                  bound = bound;
                                }
                          ]
                  ]
        ]

  judge_body-IsHuman :
      (env : Surroundings) (s : ServiceState) (req : Request) (body : VerifyBody) (token : Text)
      (challenge nonce : Option Text)
      → body.challenge ≡ challenge
      → body.nonce ≡ nonce
      → (judge_body js jwt db config env s req body challenge nonce).1 ≡ session token
      → IsHuman env req body token
  unfolding judge_body
  judge_body-IsHuman env s req body token none given c n h = absurd (cc h)
  judge_body-IsHuman env s req body token (some challenge) none c n h = absurd (cc h)
  judge_body-IsHuman env s req body token (some challenge) (some nonce) c n h =
      judge_claims-IsHuman env s req body challenge nonce token
        (jwt.verify_challenge challenge env.now) c n refl h

  -- A session is given only to the address and agent that a valid challenge was given to, for a
  -- nonce with the work that the challenge asks for, with a fingerprint that gives no reason to
  -- refuse; and it is bound to that address, agent and site. If the visitor reports a solve time from
  -- 0 to 120 seconds, this is not below the least one.
  pub verify_human-IsHuman :
      (env : Surroundings) (s : ServiceState) (req : Request) (body : VerifyBody) (token : Text)
      → (verify_human js jwt db config env s req body).1 ≡ session token
      → IsHuman env req body token
  unfolding verify_human
  verify_human-IsHuman env s req body token =
      judge_body-IsHuman env s req body token body.challenge body.nonce refl refl

  -- The claims of the challenge that the visitor presents.
  abbrev pub Presents : Surroundings → VerifyBody → ChallengeClaims → Type 0
  Presents env body claims =
      (challenge : Text) × (body.challenge ≡ some challenge)
      × (jwt.verify_challenge challenge env.now ≡ some claims)

  -- The store after one count for this visitor and challenge.
  abbrev pub IsCounted :
      Surroundings → ServiceState → Request → ChallengeClaims → UpdateOpts → ServiceState → Type 0
  IsCounted env s req claims opts after =
      after.reputation
      ≡ rep_update js env.redis_connected env.now s.reputation (key_of js jwt db config req claims)
          opts

  -- What an attempt leaves: nothing, or one count for the visitor, of a bot if it is refused and of
  -- a human if not; then the answer is the session if the query for the site's owner does not throw.
  pub data Leaves (env : Surroundings) (s : ServiceState) (req : Request) (body : VerifyBody)
      (r : ServiceState × HumanAnswer) : Type 0 where
    nothing :
        (status : ℕ) (reason : Text) → r ≡ (s, rejected status reason) → Leaves env s req body r
    one_bot :
        (claims : ChallengeClaims) (reason : Text)
        → Presents env body claims
        → IsCounted env s req claims (as_bot (pow_ms body.pow_duration_ms)) r.0
        → r.1 ≡ rejected 401 reason
        → Leaves env s req body r
    one_human :
        (claims : ChallengeClaims) (user : Option ℕ)
        → Presents env body claims
        → IsCounted env s req claims (as_human (pow_ms body.pow_duration_ms)) r.0
        → user_of js jwt db config claims ≡ some user
        → r.1
          ≡ session
              (jwt.sign_human (human_claims claims (req_ip config req) (user_agent_of req)) env.now)
        → Leaves env s req body r
    human_unanswered :
        (claims : ChallengeClaims)
        → Presents env body claims
        → IsCounted env s req claims (as_human (pow_ms body.pow_duration_ms)) r.0
        → user_of js jwt db config claims ≡ none
        → r.1 ≡ server_error
        → Leaves env s req body r

  with_event-reputation :
      (s : ServiceState) (user : Option (Option ℕ)) (event : ℕ → VisitEvent)
      → (with_event s user event).reputation ≡ s.reputation
  with_event-reputation s none event = refl
  with_event-reputation s (some none) event = refl
  with_event-reputation s (some (some id)) event = refl

  judge_fingerprint-Leaves :
      (env : Surroundings) (s : ServiceState) (req : Request) (body : VerifyBody)
      (claims : ChallengeClaims) (reason : Option Text)
      → Presents env body claims
      → Leaves env s req body
          (judge_fingerprint js jwt db config env s req claims (pow_ms body.pow_duration_ms) reason)
  unfolding judge_fingerprint counted_as
  judge_fingerprint-Leaves env s req body claims (some reason) shown =
      one_bot claims reason shown (with_event-reputation _ (user_of js jwt db config claims) _) refl
  judge_fingerprint-Leaves env s req body claims none shown =
      elim (Option-cases (user_of js jwt db config claims)) [
        | inl thrown ↦
            human_unanswered claims shown
              (with_event-reputation _ (user_of js jwt db config claims) _) thrown (rw thrown refl)
        | inr (user, found) ↦
            one_human claims user shown
              (with_event-reputation _ (user_of js jwt db config claims) _) found (rw found refl)
      ]

  judge_time-Leaves :
      (env : Surroundings) (s : ServiceState) (req : Request) (body : VerifyBody)
      (claims : ChallengeClaims)
      → Presents env body claims
      → Leaves env s req body
          (judge_time js jwt db config env s req body claims (pow_ms body.pow_duration_ms))
  unfolding judge_time counted_as
  judge_time-Leaves env s req body claims shown =
      elim (Bool-cases (is_anomaly config.pow_min_solve_ms (pow_ms body.pow_duration_ms))) [
        | inl fast ↦ rw fast (
            one_bot claims (codes "pow_too_fast") shown
              (with_event-reputation _ (user_of js jwt db config claims) _) refl)
        | inr slow ↦ rw slow (
            judge_fingerprint-Leaves env s req body claims (fingerprint_reason js body.fingerprint)
              shown)
      ]

  judge_claims-Leaves :
      (env : Surroundings) (s : ServiceState) (req : Request) (body : VerifyBody)
      (challenge nonce : Text) (verdict : Option ChallengeClaims)
      → body.challenge ≡ some challenge
      → jwt.verify_challenge challenge env.now ≡ verdict
      → Leaves env s req body (judge_claims js jwt db config env s req body challenge nonce verdict)
  unfolding judge_claims
  judge_claims-Leaves env s req body challenge nonce none given verified = nothing 401 _ refl
  judge_claims-Leaves env s req body challenge nonce (some claims) given verified =
      elim (Bool-cases
        (ip_eq claims.ip (req_ip config req) && text_eq claims.ua (user_agent_of req))) [
          | inr other ↦ rw other (nothing 401 _ refl)
          | inl same ↦
              elim (Bool-cases (check_pow js challenge claims.salt nonce claims.difficulty)) [
                | inr lazy ↦ rw (same, lazy) (nothing 401 _ refl)
                | inl work ↦
                    rw (same, work)
                      (judge_time-Leaves env s req body claims (challenge, given, verified))
              ]
        ]

  judge_body-Leaves :
      (env : Surroundings) (s : ServiceState) (req : Request) (body : VerifyBody)
      (challenge nonce : Option Text)
      → body.challenge ≡ challenge
      → Leaves env s req body (judge_body js jwt db config env s req body challenge nonce)
  unfolding judge_body
  judge_body-Leaves env s req body none given c = nothing 400 _ refl
  judge_body-Leaves env s req body (some challenge) none c = nothing 400 _ refl
  judge_body-Leaves env s req body (some challenge) (some nonce) c =
      judge_claims-Leaves env s req body challenge nonce (jwt.verify_challenge challenge env.now) c
        refl

  -- Every attempt is answered: with a refusal that leaves the state as it was, or after exactly one
  -- count for the visitor with the valid challenge that was presented: with a 401 if it counts a
  -- bot; and if it counts a human, with the session, or with a 500 if the query for the
  -- owner of the site throws.
  pub verify_human-Leaves :
      (env : Surroundings) (s : ServiceState) (req : Request) (body : VerifyBody)
      → Leaves env s req body (verify_human js jwt db config env s req body)
  unfolding verify_human
  verify_human-Leaves env s req body =
      judge_body-Leaves env s req body body.challenge body.nonce refl
