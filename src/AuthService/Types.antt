-- ===== src/AuthService/Types.antt =====
-- The values of index.ts: the claims of its tokens, its queries, requests and state.
use verivyx_monorepo.Prelude.{ℕ, Bool, Option, List, Text}
use verivyx_monorepo.AuthService.Checks.{Forwarded}
use verivyx_monorepo.AuthService.Reputation.{Tier, Store}

pub record ChallengeClaims : Type 0 where
  pub site_id : Option Text
  pub domain : Text
  pub slug : Text
  pub salt : Text
  pub difficulty : ℕ
  pub ip : Option Text
  pub ua : Text
  pub ja4 : Text
  pub tier : Tier

pub record HumanClaims : Type 0 where
  pub site_id : Option Text
  pub domain : Text
  pub ip : Option Text
  pub ua : Text

-- jsonwebtoken at a time: the audience and the lifetime are the functions' own.
pub record Jwt : Type 0 where
  pub sign_challenge : ChallengeClaims → ℕ → Text
  pub verify_challenge : Text → ℕ → Option ChallengeClaims
  pub sign_human : HumanClaims → ℕ → Text

pub record Site : Type 0 where
  pub site_id : Option Text
  pub domain : Option Text

-- The queries of the handlers; `none` is one that throws. An insert of an event is taken to succeed.
pub record Database : Type 0 where
  pub site_of_token : Text → Option (Option Site)
  pub site_of_verified_domain : Text → Option (Option Site)
  pub user_of_site : Text → Option (Option ℕ)
  pub user_of_verified_domain : Text → Option (Option ℕ)

-- The settings, where the environment gives natural numbers for them.
pub record Config : Type 0 where
  pub pow_difficulty : ℕ
  pub pow_min_solve_ms : ℕ
  pub trusted_proxy_hops : ℕ

pub record Request : Type 0 where
  pub x_forwarded_for : Forwarded
  pub remote_address : Option Text
  pub user_agent : Option Text
  pub x_ja4 : Option Text

pub record Window : Type 0 where
  pub count : ℕ
  pub reset_at : ℕ

pub data EventType : Type 0 where
  pow_speed_anomaly challenge_failed challenge_passed : EventType

pub record VisitEvent : Type 0 where
  pub user_id : ℕ
  pub type : EventType
  pub session_id : Text
  pub ip : Option Text
  pub agent : Option Text
  pub pow_duration_ms : Option ℕ
  pub ja4 : Option Text

pub record ServiceState : Type 0 where
  pub limits : List (Text × Window)
  pub reputation : Store
  pub events : List VisitEvent

-- What a call sees: the clock, 16 random bytes in hex, and whether Redis is connected.
pub record Surroundings : Type 0 where
  pub now : ℕ
  pub random_hex : Text
  pub redis_connected : Bool

-- `server_error` is the 500 of Express for a handler that throws.
pub data HumanAnswer : Type 0 where
  server_error : HumanAnswer
  rejected : ℕ → Text → HumanAnswer
  challenged : (challenge salt : Text) (difficulty : ℕ) → HumanAnswer
  session : Text → HumanAnswer
