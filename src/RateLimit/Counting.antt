-- ===== src/RateLimit/Counting.antt =====
-- Counting the times of a list that are not before a bound.
use verivyx_monorepo.Prelude.{ℕ, ◌+◌, ◌≤◌, List, [], ◌∷◌, ltb, leb, arith, if◌then◌else◌}

unfoldable pub since : ℕ → List ℕ → ℕ
since from [] = 0
since from (t ∷ ts) = let rest = since from ts in if leb from t then rest + 1 else rest

-- From the first bound, and before the second.
unfoldable pub between : ℕ → ℕ → List ℕ → ℕ
between from to [] = 0
between from to (t ∷ ts) =
    let rest = between from to ts in
    if leb from t then (if ltb t to then rest + 1 else rest) else rest

pub since_monotone : (a b : ℕ) (ts : List ℕ) → a ≤ b → since b ts ≤ since a ts
unfolding since
since_monotone a b [] h = omega arith
since_monotone a b (t ∷ ts) h = ground (arith, since_monotone a b ts h)

pub between-since : (a b : ℕ) (ts : List ℕ) → since a ts ≤ between a b ts + since b ts
unfolding since between
between-since a b [] = omega arith
between-since a b (t ∷ ts) = ground (arith, between-since a b ts)

pub between_bounded : (a b : ℕ) (ts : List ℕ) → between a b ts ≤ since a ts
unfolding since between
between_bounded a b [] = omega arith
between_bounded a b (t ∷ ts) = ground (arith, between_bounded a b ts)
