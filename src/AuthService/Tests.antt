-- ===== src/AuthService/Tests.antt =====
-- Visitors at the authentication service, and the theorems at them.
use verivyx_monorepo.Prelude.{
  ℕ, zero, suc, ◌-◌, ◌*◌, ◌^◌, ◌≤◌, ◌<◌, ◌≡◌, ◌↔◌, refl, Bool, true, false, if◌then◌else◌, none,
  some, List, [], ◌∷◌, ◌++◌, Text, codes, text_eq, text_eq_iff, subst, starts_with, includes,
  length, replicate, arith,
}
use verivyx_monorepo.Prelude.Int.{pos}
use verivyx_monorepo.Prelude.Parse.{split, trim, trim_start, trim_end, trim_end_step, is_space}
use verivyx_monorepo.Prelude.Maps.{map_get, map_set}
use verivyx_monorepo.AuthService.Checks.{
  Number, whole, Builtins, are_labels, is_domain, without_path, is_stellar_pubkey, is_slug,
  validate_stellar, zeros_before, leading_zero_bits, one_header, forwarded_parts, client_ip,
  Fingerprint, normalize_domain, validate_slug, pow_digest, check_pow, fingerprint_reason,
  require_production_secrets,
}
use verivyx_monorepo.AuthService.Checks.Laws.{
  number_of, IsBytes, leading_zero_bits_iff, client_ip-trusted,
}
use verivyx_monorepo.AuthService.Reputation.{
  standard, human, ip_prefix, score_from_counts, tier_from_score, adapt_difficulty, counts_at,
  ua_cohort, rep_key_of, rep_lookup, rep_update,
}
use verivyx_monorepo.AuthService.Reputation.Laws.{
  Visit, after, humans_among, bots_among, IsTierOf, rep_lookup-IsTierOf,
}
use verivyx_monorepo.AuthService.Types.{
  ChallengeClaims, Jwt, Database, Config, Request, ServiceState, Surroundings, rejected,
  server_error, challenged, session,
}
use verivyx_monorepo.AuthService.Requests.{rate_limit, client_ja4, pow_ms}
use verivyx_monorepo.AuthService.Human.{ChallengeBody, VerifyBody, challenge, verify_human}
use verivyx_monorepo.AuthService.Human.Laws.{
  IsHuman, Leaves, verify_human-IsHuman, verify_human-Leaves,
}
use verivyx_monorepo.AuthService.Human.Work.{
  WasGiven, HasWorked, challenge_bounds, verify_human-HasWorked,
}

auth_all : Unit {0}
unfolding text_eq starts_with includes split trim trim_start trim_end trim_end_step is_space map_get
    map_set are_labels is_domain without_path is_stellar_pubkey is_slug validate_stellar
    zeros_before leading_zero_bits forwarded_parts client_ip normalize_domain validate_slug
    pow_digest check_pow fingerprint_reason require_production_secrets ip_prefix score_from_counts
    tier_from_score adapt_difficulty counts_at ua_cohort rep_key_of rep_lookup rep_update rate_limit
    client_ja4 pow_ms challenge verify_human
auth_all = tt

abbrev digest : List ℕ
digest = 0 ∷ 16 ∷ 255 ∷ []

leading_zero_bits_iff_example :
    (11 ≤ leading_zero_bits digest) ↔ (number_of digest < 2 ^ (8 * length digest - 11))
leading_zero_bits_iff_example =
    leading_zero_bits_iff digest 11 (omega arith, (omega arith, (omega arith, tt))) (omega arith)

eleven : leading_zero_bits digest ≡ 11
unfolding auth_all
eleven = refl

added_part : forwarded_parts (codes " 9.9.9.9") ≡ codes "9.9.9.9" ∷ []
unfolding auth_all
added_part = refl

client_ip-trusted_example :
    client_ip (one_header (codes "6.6.6.6, 7.7.7.7" ++ b',' ∷ codes " 9.9.9.9")) none 1
    ≡ some (codes "9.9.9.9")
client_ip-trusted_example =
    client_ip-trusted (codes "6.6.6.6, 7.7.7.7") (codes " 9.9.9.9") none 1 (codes "9.9.9.9") []
      added_part (omega arith)

domain_kept : validate_stellar (some (codes "GA")) ≡ none
unfolding auth_all
domain_kept = refl

abbrev js : Builtins
js = record { lower_case = λ t. t; sha_256 = λ t. replicate 32 0 }

normalized :
    normalize_domain js (some (codes " https://www.blog-1.example/post?x "))
    ≡ some (codes "blog-1.example")
unfolding auth_all
normalized = refl

abbrev config : Config
config = record { pow_difficulty = 18; pow_min_solve_ms = 50; trusted_proxy_hops = 1 }

abbrev visitor : Request
visitor = record {
  x_forwarded_for = one_header (codes "9.9.9.9");
  remote_address = none;
  user_agent = some (codes "Mozilla/5.0 firefox/1");
  x_ja4 = none;
}

abbrev db : Database
db = record {
  site_of_token = λ t. some (some (record { site_id = some (codes "s1"); domain = none }));
  site_of_verified_domain = λ d. some none;
  user_of_site = λ s. some (some 7);
  user_of_verified_domain = λ d. some none;
}

abbrev claims : ChallengeClaims
claims = record {
  site_id = some (codes "s1");
  domain = [];
  slug = codes "post";
  salt = codes "ab12";
  difficulty = 18;
  ip = some (codes "9.9.9.9");
  ua = codes "Mozilla/5.0 firefox/1";
  ja4 = [];
  tier = standard;
}

abbrev jwt : Jwt
jwt = record {
  sign_challenge = λ c now. codes "CHALLENGE";
  verify_challenge = λ t now. if text_eq t (codes "CHALLENGE") then some claims else none;
  sign_human = λ c now. codes "SESSION";
}

abbrev fresh_state : ServiceState
fresh_state = record { limits = []; reputation = []; events = [] }

abbrev env : Surroundings
env = record { now = 1000; random_hex = codes "ab12"; redis_connected = true }

abbrev challenge_body : ChallengeBody
challenge_body = record {
  token = some (codes "wp-token");
  domain = none;
  slug = some (codes "post");
}

given :
    (challenge js jwt db config env fresh_state visitor challenge_body).1
    ≡ challenged (codes "CHALLENGE") (codes "ab12") 18
unfolding auth_all
given = refl

challenge_bounds_example : (12 ≤ 18) × (18 ≤ 26)
challenge_bounds_example =
    challenge_bounds js jwt db config env fresh_state visitor challenge_body (codes "CHALLENGE")
      (codes "ab12") 18 given

abbrev number : ℕ → Number
number n = record { floor = pos n; fraction = whole }

abbrev fingerprint : Fingerprint
fingerprint = record {
  webdriver = false;
  languages = some 2;
  user_agent = some (codes "Mozilla/5.0 firefox/1");
  hardware_concurrency = some (number 8);
  screen_width = some (number 1920);
  screen_height = some (number 1080);
  webgl_vendor = none;
  webgl_renderer = none;
}

abbrev verify_body : VerifyBody
verify_body = record {
  challenge = some (codes "CHALLENGE");
  nonce = some (codes "42");
  fingerprint = some fingerprint;
  pow_duration_ms = some (number 900);
}

passed :
    (verify_human js jwt db config env fresh_state visitor verify_body).1
    ≡ session (codes "SESSION")
unfolding auth_all
passed = refl

-- The owner of the site cannot be looked up.
unanswered :
    (verify_human js jwt
      (record db { user_of_site = λ s. none })
      config
      env
      fresh_state
      visitor
      verify_body).1
    ≡ server_error
unfolding auth_all
unanswered = refl

too_fast :
    (verify_human js jwt db config env fresh_state visitor
      (record verify_body { pow_duration_ms = some (number 3) })).1
    ≡ rejected 401 (codes "pow_too_fast")
unfolding auth_all
too_fast = refl

verify_human-IsHuman_example : IsHuman js jwt db config env visitor verify_body (codes "SESSION")
verify_human-IsHuman_example =
    verify_human-IsHuman js jwt db config env fresh_state visitor verify_body (codes "SESSION")
      passed

verify_human-Leaves_example :
    Leaves js jwt db config env fresh_state visitor verify_body
      (verify_human js jwt db config env fresh_state visitor verify_body)
verify_human-Leaves_example =
    verify_human-Leaves js jwt db config env fresh_state visitor verify_body

unforged :
    (t : Text) (c : ChallengeClaims)
    → jwt.verify_challenge t env.now ≡ some c
    → WasGiven js jwt db config t c
unforged t c h = by_text (text_eq t (codes "CHALLENGE")) refl h
  where
    by_text :
        (same : Bool)
        → text_eq t (codes "CHALLENGE") ≡ same
        → (if same then some claims else none) ≡ some c
        → WasGiven js jwt db config t c
    by_text false e r = absurd (cc r)
    by_text true e r =
        let token : t ≡ codes "CHALLENGE" = (text_eq_iff t (codes "CHALLENGE")).0 e in
        let same : claims ≡ c = cc in
        rw token (
          subst (WasGiven js jwt db config (codes "CHALLENGE")) same (record {
            env = env;
            state = fresh_state;
            req = visitor;
            body = challenge_body;
            given = given;
          }))

zeros-IsBytes : (n : ℕ) → IsBytes (replicate n 0)
zeros-IsBytes zero = tt
zeros-IsBytes (suc n) = (omega arith, zeros-IsBytes n)

digests : (t : Text) → (length (js.sha_256 t) ≡ 32) × IsBytes (js.sha_256 t)
digests t = (refl, zeros-IsBytes 32)

verify_human-HasWorked_example : HasWorked js jwt db config env verify_body
verify_human-HasWorked_example =
    verify_human-HasWorked js jwt db config env fresh_state visitor verify_body (codes "SESSION")
      unforged digests passed

abbrev visit : ℕ → Visit
visit time = record {
  time = time;
  key = record { ja4 = none; ip = codes "9.9.9.9"; ua = codes "firefox/1" };
  opts = record { outcome = human; pow_duration_ms = some 900; anomaly = false };
}

abbrev visits : List Visit
visits = visit 4 ∷ visit 3 ∷ visit 2 ∷ visit 1 ∷ []

rep_lookup-IsTierOf_example :
    IsTierOf
      (humans_among js (rep_key_of js (visit 1).key) visits)
      (bots_among js (rep_key_of js (visit 1).key) visits)
      (rep_lookup js true 5 (after js visits) (visit 1).key).tier
rep_lookup-IsTierOf_example = rep_lookup-IsTierOf js 5 (visit 1).key visits (grind arith)
