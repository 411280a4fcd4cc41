-- ===== src/RateLimit.antt =====
-- The in-memory limiter of services/mcp-server/src/rateLimit.ts.
pub mod Laws
pub mod Counting
mod Tests
use verivyx_monorepo.Prelude.{
  ℕ, ◌+◌, ◌-◌, ◌≤◌, ◌≡◌, Bool, true, false, not, Option, none, some, List, [], ◌∷◌, Text, text_eq,
  ltb, if◌then◌else◌,
}

pub record Bucket : Type 0 where
  pub count : ℕ
  pub reset_at : ℕ

pub record Limiter : Type 0 where
  pub buckets : Text → Option Bucket
  pub last_sweep : ℕ

unfoldable pub set_bucket : (Text → Option Bucket) → Text → Bucket → Text → Option Bucket
set_bucket buckets key b k = if text_eq k key then some b else buckets k

abbrev pub unless_stale : ℕ → Option Bucket → Option Bucket
unless_stale now none = none
unless_stale now (some b) = if ltb b.reset_at now then none else some b

unfoldable pub sweep : ℕ → Limiter → Limiter
sweep now limiter =
    if ltb (now - limiter.last_sweep) 60000
    then limiter
    else record { buckets = λ k. unless_stale now (limiter.buckets k); last_sweep = now }

-- What becomes of the bucket of the key; `none` is a rejection.
abbrev pub hit_bucket : ℕ → ℕ → ℕ → Option Bucket → Option Bucket
hit_bucket now limit window none = some (record { count = 1; reset_at = now + window })
hit_bucket now limit window (some b) =
    if ltb b.reset_at now
    then some (record { count = 1; reset_at = now + window })
    else if ltb b.count limit
    then some (record b { count = b.count + 1 })
    else none

abbrev pub store_hit : Limiter → Text → Option Bucket → Bool × Limiter
store_hit limiter key none = (false, limiter)
store_hit limiter key (some b) =
    (true, record limiter { buckets = set_bucket limiter.buckets key b })

unfoldable pub rate_limit : ℕ → ℕ → ℕ → Text → Limiter → Bool × Limiter
unfolding sweep set_bucket
rate_limit now limit window key limiter =
    let swept = sweep now limiter in
    store_hit swept key (hit_bucket now limit window (swept.buckets key))

-- The limiters that hits lead to, with the clock and, for each hit that was allowed, its key and
-- its time, the last one first. Each key has its limit and its window; the clock does not go back.
pub data Reaches (limit window : Text → ℕ) (start : ℕ)
    : ℕ → List (Text × ℕ) → Limiter → Type 0 where
  initial : Reaches limit window start start [] (record { buckets = λ k. none; last_sweep = start })
  allowed :
      {t : ℕ} {h : List (Text × ℕ)} {s : Limiter} (now : ℕ) (key : Text)
      → Reaches limit window start t h s
      → t ≤ now
      → (rate_limit now (limit key) (window key) key s).0 ≡ true
      → Reaches limit window start now
          ((key, now) ∷ h)
          (rate_limit now (limit key) (window key) key s).1
  rejected :
      {t : ℕ} {h : List (Text × ℕ)} {s : Limiter} (now : ℕ) (key : Text)
      → Reaches limit window start t h s
      → t ≤ now
      → (rate_limit now (limit key) (window key) key s).0 ≡ false
      → Reaches limit window start now h (rate_limit now (limit key) (window key) key s).1
