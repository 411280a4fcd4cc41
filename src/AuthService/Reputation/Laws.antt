-- ===== src/AuthService/Reputation/Laws.antt =====
-- Proofs about the counts and the tiers of visitors.
use verivyx_monorepo.Prelude.{
  ℕ, ◌+◌, ◌-◌, ◌*◌, ◌≤◌, ◌<◌, ◌≡◌, refl, inl, inr, min, true, Option, none, some, or_default, List,
  [], ◌∷◌, Text, text_eq, text_eq_iff, leb, ltb, Bool-cases, if◌then◌else◌, arith,
}
use verivyx_monorepo.Prelude.Maps.{map_get, map_get-map_set, map_get-other}
use verivyx_monorepo.AuthService.Checks.{Builtins}
use verivyx_monorepo.AuthService.Reputation.{
  Tier, trusted, standard, risky, RepKey, Counts, VisitOutcome, human, bot, UpdateOpts, Store,
  default_ttl_ms, score_from_counts, tier_from_score, counts_at, live_counts, record_of, counted,
  no_counts, rep_key_of, rep_lookup, rep_update,
}

-- Trusted from four humans more than bots, risky from five bots more than humans.
abbrev pub IsTierOf : ℕ → ℕ → Tier → Type 0
IsTierOf humans bots trusted = bots + 4 ≤ humans
IsTierOf humans bots risky = humans + 5 ≤ bots
IsTierOf humans bots standard = (humans < bots + 4) × (bots < humans + 5)

tier-IsTierOf :
    (humans bots : ℕ) → IsTierOf humans bots (tier_from_score (score_from_counts humans bots))
unfolding tier_from_score score_from_counts
tier-IsTierOf humans bots =
    let score = min 100 (50 + humans * 5 - bots * 5) in
    elim (Bool-cases (leb 70 score)) [
      | inl high ↦ rw high (ground arith)
      | inr below ↦ elim (Bool-cases (ltb score 30)) [
        | inl low ↦ rw (below, low) (ground arith)
        | inr middle ↦ rw (below, middle) (ground arith)
      ]
    ]

pub record Visit : Type 0 where
  pub time : ℕ
  pub key : RepKey
  pub opts : UpdateOpts

abbrev is_human : VisitOutcome → ℕ
is_human human = 1
is_human bot = 0

abbrev is_bot : VisitOutcome → ℕ
is_bot human = 0
is_bot bot = 1

-- Not after the time, and counted for less than the time to live_counts.
abbrev pub IsWithin : ℕ → Visit → Type 0
IsWithin now v = (v.time ≤ now) × (now < v.time + default_ttl_ms)

module _ (js : Builtins) where
  -- The store after the visits, the last one first.
  unfoldable pub after : List Visit → Store
  after [] = []
  after (v ∷ vs) = rep_update js true v.time (after vs) v.key v.opts

  abbrev pub humans_among : Text → List Visit → ℕ
  humans_among key [] = 0
  humans_among key (v ∷ vs) =
      let rest = humans_among key vs in
      if text_eq (rep_key_of js v.key) key then is_human v.opts.outcome + rest else rest

  abbrev pub bots_among : Text → List Visit → ℕ
  bots_among key [] = 0
  bots_among key (v ∷ vs) =
      let rest = bots_among key vs in
      if text_eq (rep_key_of js v.key) key then is_bot v.opts.outcome + rest else rest

  -- The times go backward from the latest.
  abbrev pub AreWithin : ℕ → List Visit → Type 0
  AreWithin now [] = Unit
  AreWithin now (v ∷ vs) = IsWithin now v × AreWithin v.time vs × AreWithin now vs

  abbrev Matches : ℕ → ℕ → ℕ → Option Counts → Type 0
  Matches now humans bots none = (humans ≡ 0) × (bots ≡ 0)
  Matches now humans bots (some c) = (humans ≡ c.humans) × (bots ≡ c.bots) × (now < c.expires_at)

  counted-Matches :
      (now time humans bots : ℕ) (o : Option Counts) (opts : UpdateOpts)
      → now < time + default_ttl_ms
      → Matches time humans bots o
      → Matches now
          (is_human opts.outcome + humans)
          (is_bot opts.outcome + bots)
          (some (counted time opts (or_default (live_counts time o) no_counts)))
  counted-Matches now time humans bots none opts fresh m = by_outcome opts.outcome refl
    where
      by_outcome :
          (outcome : VisitOutcome)
          → opts.outcome ≡ outcome
          → Matches now
              (is_human opts.outcome + humans)
              (is_bot opts.outcome + bots)
              (some (counted time opts (or_default (live_counts time none) no_counts)))
      by_outcome human e = rw e (omega (arith, m.0), omega (arith, m.1), fresh)
      by_outcome bot e = rw e (omega (arith, m.0), omega (arith, m.1), fresh)
  counted-Matches now time humans bots (some c) opts fresh m = by_outcome opts.outcome refl
    where
      alive : ltb time c.expires_at ≡ true
      alive = ground arith

      by_outcome :
          (outcome : VisitOutcome)
          → opts.outcome ≡ outcome
          → Matches now
              (is_human opts.outcome + humans)
              (is_bot opts.outcome + bots)
              (some (counted time opts (or_default (live_counts time (some c)) no_counts)))
      by_outcome human e = rw (e, alive) (omega (arith, m.0), omega (arith, m.1), fresh)
      by_outcome bot e = rw (e, alive) (omega (arith, m.0), omega (arith, m.1), fresh)

  after-Matches :
      (now : ℕ) (key : Text) (vs : List Visit)
      → AreWithin now vs
      → Matches now (humans_among key vs) (bots_among key vs) (map_get (after vs) key)
  unfolding after rep_update map_get counts_at
  after-Matches now key [] within = (refl, refl)
  after-Matches now key (v ∷ vs) (here, before, rest) =
      elim (Bool-cases (text_eq (rep_key_of js v.key) key)) [
        | inl same ↦
            let this = (text_eq_iff (rep_key_of js v.key) key).0 same in
            let then_counts = after-Matches v.time key vs before in
            let written =
              map_get-map_set (after vs) key
                (counted v.time v.opts (or_default (counts_at v.time (after vs) key) no_counts)) in
            rw same (
              rw this (
                rw written (
                  counted-Matches now v.time (humans_among key vs) (bots_among key vs)
                    (map_get (after vs) key) v.opts here.1 then_counts)))
        | inr other ↦
            let kept =
              map_get-other (after vs) key (rep_key_of js v.key)
                (counted v.time v.opts
                  (or_default (counts_at v.time (after vs) (rep_key_of js v.key)) no_counts))
                other in
            rw other (rw kept (after-Matches now key vs rest))
      ]

  record_of-IsTierOf :
      (now humans bots : ℕ) (o : Option Counts)
      → Matches now humans bots o
      → IsTierOf humans bots (record_of (live_counts now o)).tier
  unfolding record_of tier_from_score score_from_counts
  record_of-IsTierOf now humans bots none m = (omega (arith, m.0, m.1), omega (arith, m.0, m.1))
  record_of-IsTierOf now humans bots (some c) m =
      let alive : ltb now c.expires_at ≡ true = ground arith in
      rw (alive, m.0, m.1) (tier-IsTierOf c.humans c.bots)

  -- After any visits, none of them older than the time to live_counts, a visitor's tier is what the visits
  -- with the same key came to: trusted from four humans more than bots, risky from five bots
  -- more than humans, and standard between.
  pub rep_lookup-IsTierOf :
      (now : ℕ) (key : RepKey) (vs : List Visit)
      → AreWithin now vs
      → IsTierOf
          (humans_among (rep_key_of js key) vs)
          (bots_among (rep_key_of js key) vs)
          (rep_lookup js true now (after vs) key).tier
  unfolding rep_lookup counts_at
  rep_lookup-IsTierOf now key vs within =
      record_of-IsTierOf now (humans_among (rep_key_of js key) vs)
        (bots_among (rep_key_of js key) vs) (map_get (after vs) (rep_key_of js key))
        (after-Matches now (rep_key_of js key) vs within)
