-- ===== src/RateLimit/Tests.antt =====
-- Hits on a limiter of two per window of a second, and the theorem there.
use verivyx_monorepo.Prelude.{
  ℕ, ◌≤◌, ◌≡◌, refl, true, false, none, List, [], ◌∷◌, Text, codes, text_eq, arith,
}
use verivyx_monorepo.RateLimit.{Limiter, set_bucket, sweep, rate_limit, Reaches, initial, allowed}
use verivyx_monorepo.RateLimit.Counting.{since}
use verivyx_monorepo.RateLimit.Laws.{times, rate_limit_bounds}

limiter_all : Unit {0}
unfolding set_bucket sweep rate_limit since text_eq
limiter_all = tt

abbrev key : Text
key = codes "ip:1"

abbrev fresh : Limiter
fresh = record { buckets = λ k. none; last_sweep = 0 }

abbrev after_two : Limiter
unfolding limiter_all
after_two = (rate_limit 900 2 1000 key (rate_limit 100 2 1000 key fresh).1).1

third_rejected : (rate_limit 950 2 1000 key after_two).0 ≡ false
unfolding limiter_all after_two
third_rejected = refl

next_window : (rate_limit 1101 2 1000 key after_two).0 ≡ true
unfolding limiter_all after_two
next_window = refl

abbrev hits : List (Text × ℕ)
hits = (key, 900) ∷ (key, 100) ∷ []

two_hits : Reaches (λ k. 2) (λ k. 1000) 0 900 hits after_two
unfolding limiter_all after_two
two_hits = allowed 900 key (allowed 100 key initial (omega arith) refl) (omega arith) refl

rate_limit_bounds_example : since 50 (times key hits) ≤ 4
rate_limit_bounds_example =
    rate_limit_bounds (λ k. 2) (λ k. 1000) 0 (λ k. omega arith) key 50 two_hits (omega arith)
