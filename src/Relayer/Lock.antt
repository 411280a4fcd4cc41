-- ===== src/Relayer/Lock.antt =====
-- RedisLock of payment-relayer/src/lock.ts: one Redis key, taken by a token for a time and
-- released by that token.
pub mod Laws
mod Tests
use verivyx_monorepo.Prelude.{
  ℕ, ◌+◌, ◌-◌, ◌≤◌, ◌≡◌, Bool, true, false, not, Option, none, some, List, [], ◌∷◌, Text, text_eq,
  ltb, leb, filter, if◌then◌else◌,
}

-- The key: its value and when it expires.
pub record Held : Type 0 where
  pub token : Text
  pub expires_at : ℕ

-- What a command sees at a time.
abbrev pub live : ℕ → Option Held → Option Held
live now none = none
live now (some held) = if leb held.expires_at now then none else some held

abbrev pub set_if_free : ℕ → ℕ → Text → Option Held → Bool × Option Held
set_if_free now ttl token none = (true, some (record { token = token; expires_at = now + ttl }))
set_if_free now ttl token (some held) = (false, some held)

-- `SET key token PX ttl NX`.
unfoldable pub set_nx : ℕ → ℕ → Text → Option Held → Bool × Option Held
set_nx now ttl token key = set_if_free now ttl token (live now key)

pub data Attempt : Type 0 where
  acquired retry timed_out : Attempt

-- One turn of the loop of acquire.
unfoldable pub acquire_turn :
    (ttl acquire_timeout start now : ℕ) → Text → Option Held → Attempt × Option Held
unfolding set_nx
acquire_turn ttl acquire_timeout start now token key =
    let (ok, key') = set_nx now ttl token key in
    if ok
    then (acquired, key')
    else if ltb acquire_timeout (now - start)
    then (timed_out, key')
    else (retry, key')

abbrev pub delete_if_owned : Text → Option Held → Option Held
delete_if_owned token none = none
delete_if_owned token (some held) = if text_eq held.token token then none else some held

-- RELEASE_SCRIPT.
unfoldable pub release : ℕ → Text → Option Held → Option Held
release now token key = delete_if_owned token (live now key)

-- A body that runs under the lock, by its token, and when it got the lock.
pub record Hold : Type 0 where
  pub token : Text
  pub since : ℕ

abbrev pub without : Text → List Hold → List Hold
without token holds = filter (λ h. not (text_eq h.token token)) holds

-- What instances that share the key can do, with the clock and the bodies that run, the last one
-- first: a turn that acquires starts a body, other turns start none; a body ends with a release,
-- or with one that fails to reach Redis.
pub data Reaches (ttl : ℕ) : ℕ → List Hold → Option Held → Type 0 where
  initial : Reaches ttl 0 [] none
  enter :
      {t : ℕ} {holds : List Hold} {key : Option Held} (now acquire_timeout start : ℕ) (token : Text)
      → Reaches ttl t holds key
      → t ≤ now
      → (acquire_turn ttl acquire_timeout start now token key).0 ≡ acquired
      → Reaches ttl now
          (record { token = token; since = now } ∷ holds)
          (acquire_turn ttl acquire_timeout start now token key).1
  turn_away :
      {t : ℕ} {holds : List Hold} {key : Option Held} (now acquire_timeout start : ℕ) (token : Text)
      → Reaches ttl t holds key
      → t ≤ now
      → ((acquire_turn ttl acquire_timeout start now token key).0 ≡ acquired → ⊥)
      → Reaches ttl now holds (acquire_turn ttl acquire_timeout start now token key).1
  leave :
      {t : ℕ} {holds : List Hold} {key : Option Held} (now : ℕ) (token : Text)
      → Reaches ttl t holds key
      → t ≤ now
      → Reaches ttl now (without token holds) (release now token key)
  lose :
      {t : ℕ} {holds : List Hold} {key : Option Held} (now : ℕ) (token : Text)
      → Reaches ttl t holds key
      → t ≤ now
      → Reaches ttl now (without token holds) key
