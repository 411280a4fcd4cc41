-- ===== src/RateLimit/Laws.antt =====
-- Proofs about the limiter: what a bucket says of the hits so far.
use verivyx_monorepo.Prelude.{
  ℕ, ◌+◌, ◌-◌, ◌≤◌, ◌<◌, ◌≡◌, refl, inl, inr, subst, sym, true, false, Option, none, some, List, [],
  ◌∷◌, Text, text_eq, text_eq_iff, ltb, arith, if◌then◌else◌, Bool-cases, Option-cases,
}
use verivyx_monorepo.RateLimit.{
  Bucket, Limiter, set_bucket, unless_stale, sweep, hit_bucket, rate_limit, Reaches, initial,
  allowed, rejected,
}
use verivyx_monorepo.RateLimit.Counting.{
  since, between, since_monotone, between-since, between_bounded,
}

-- The times of the hits of a key.
abbrev pub times : Text → List (Text × ℕ) → List ℕ
times key [] = []
times key ((k, t) ∷ h) = if text_eq key k then t ∷ times key h else times key h

-- What the bucket at a time says of the hits so far: its window began with its first hit, its
-- count covers the hits since, and before that no window had more than the limit.
abbrev Fit : ℕ → ℕ → ℕ → List ℕ → Option Bucket → Type 0
Fit limit window now ts none =
    (since now ts ≡ 0) × ((a : ℕ) → now ≤ a + window → since a ts ≤ limit)
Fit limit window now ts (some b) =
    (began : ℕ) × (began + window ≡ b.reset_at)
    × (began ≤ now)
    × (since began ts ≤ b.count)
    × (b.count ≤ limit)
    × (since (b.reset_at + 1) ts ≡ 0)
    × ((a : ℕ) → began ≤ a + window → between a began ts ≤ limit)

module _ (limit window : ℕ) where
  Fit-later :
      (t now : ℕ) (ts : List ℕ) (o : Option Bucket)
      → t ≤ now
      → Fit limit window t ts o
      → Fit limit window now ts o
  Fit-later t now ts none later (none_now, bounded) =
      (omega (arith, since_monotone t now ts later), λ a near. bounded a (omega arith))
  Fit-later t now ts (some b) later (began, reset, started, counted, capped, over, bounded) =
      (began, reset, omega arith, counted, capped, over, bounded)

  Fit-stale :
      (now : ℕ) (ts : List ℕ) (b : Bucket)
      → b.reset_at < now
      → Fit limit window now ts (some b)
      → Fit limit window now ts none
  Fit-stale now ts b stale (began, reset, started, counted, capped, over, bounded) = (
    omega (arith, since_monotone (b.reset_at + 1) now ts (omega arith)),
    λ a near. omega (arith, since_monotone began a ts (omega arith)),
  )

  Fit-unless_stale :
      (now : ℕ) (ts : List ℕ) (o : Option Bucket)
      → Fit limit window now ts o
      → Fit limit window now ts (unless_stale now o)
  Fit-unless_stale now ts none fit = fit
  Fit-unless_stale now ts (some b) fit = elim (Bool-cases (ltb b.reset_at now)) [
    | inl stale ↦ rw stale (Fit-stale now ts b (ground arith) fit)
    | inr fresh ↦ rw fresh fit
  ]

  Fit-first :
      (now : ℕ) (ts : List ℕ)
      → 1 ≤ limit
      → Fit limit window now ts none
      → Fit limit window now (now ∷ ts) (some (record { count = 1; reset_at = now + window }))
  unfolding since between
  Fit-first now ts positive (none_now, bounded) = (
    now,
    refl,
    omega arith,
    ground arith,
    positive,
    ground (arith, since_monotone now (now + window + 1) ts (omega arith)),
    λ a near. ground (arith, between_bounded a now ts, bounded a near),
  )

  Fit-next :
      (now : ℕ) (ts : List ℕ) (b : Bucket)
      → (b.reset_at < now → ⊥)
      → b.count < limit
      → Fit limit window now ts (some b)
      → Fit limit window now (now ∷ ts) (some (record b { count = b.count + 1 }))
  unfolding since between
  Fit-next now ts b fresh room (began, reset, started, counted, capped, over, bounded) = (
    began,
    reset,
    started,
    ground arith,
    omega arith,
    ground arith,
    λ a near. ground (arith, bounded a near),
  )

  Fit-hit_bucket :
      (now : ℕ) (ts : List ℕ) (o : Option Bucket) (b : Bucket)
      → 1 ≤ limit
      → hit_bucket now limit window o ≡ some b
      → Fit limit window now ts o
      → Fit limit window now (now ∷ ts) (some b)
  Fit-hit_bucket now ts none b positive hit fit =
      subst (Fit limit window now (now ∷ ts)) hit (Fit-first now ts positive fit)
  Fit-hit_bucket now ts (some old) b positive hit fit = elim (Bool-cases (ltb old.reset_at now)) [
    | inl stale ↦
        subst (Fit limit window now (now ∷ ts)) (rw stale at hit)
          (Fit-first now ts positive (Fit-stale now ts old (ground arith) fit))
    | inr fresh ↦ elim (Bool-cases (ltb old.count limit)) [
      | inl room ↦
          subst (Fit limit window now (now ∷ ts)) (rw (fresh, room) at hit)
            (Fit-next now ts old (λ early. ground arith) (ground arith) fit)
      | inr full ↦ absurd (ground arith)
    ]
  ]

  -- In a window that ends now.
  Fit-bound :
      (now a : ℕ) (ts : List ℕ) (o : Option Bucket)
      → Fit limit window now ts o
      → now ≤ a + window
      → since a ts ≤ limit + limit
  Fit-bound now a ts none (none_now, bounded) near = omega (arith, bounded a near)
  Fit-bound now a ts (some b) (began, reset, started, counted, capped, over, bounded) near =
      omega (arith, between-since a began ts, bounded a (omega arith))

  Fit-sweep :
      (t now : ℕ) (ts : List ℕ) (s : Limiter) (key : Text)
      → t ≤ now
      → Fit limit window t ts (s.buckets key)
      → Fit limit window now ts ((sweep now s).buckets key)
  unfolding sweep
  Fit-sweep t now ts s key later fit =
      let kept = Fit-later t now ts (s.buckets key) later fit in
      elim (Bool-cases (ltb (now - s.last_sweep) 60000)) [
        | inl recent ↦ rw recent kept
        | inr due ↦ rw due (Fit-unless_stale now ts (s.buckets key) kept)
      ]

allowed_hit :
    (now limit window : ℕ) (key : Text) (s : Limiter)
    → (rate_limit now limit window key s).0 ≡ true
    → (b : Bucket) × (hit_bucket now limit window ((sweep now s).buckets key) ≡ some b)
      × ((rate_limit now limit window key s).1.buckets ≡ set_bucket (sweep now s).buckets key b)
unfolding rate_limit
allowed_hit now limit window key s h =
    elim (Option-cases (hit_bucket now limit window ((sweep now s).buckets key))) [
      | inl refused ↦ absurd (ground arith)
      | inr (b, hit) ↦ (b, hit, rw hit refl)
    ]

rejected_hit :
    (now limit window : ℕ) (key : Text) (s : Limiter)
    → (rate_limit now limit window key s).0 ≡ false
    → (rate_limit now limit window key s).1 ≡ sweep now s
unfolding rate_limit
rejected_hit now limit window key s h =
    elim (Option-cases (hit_bucket now limit window ((sweep now s).buckets key))) [
      | inl refused ↦ rw refused refl
      | inr (b, hit) ↦ absurd (ground arith)
    ]

module _ (limit window : Text → ℕ) (start : ℕ) (positive : (key : Text) → 1 ≤ limit key) where
  Fit-set_bucket :
      (now : ℕ) (h : List (Text × ℕ)) (s : Limiter) (k key : Text) (b : Bucket)
      → hit_bucket now (limit k) (window k) (s.buckets k) ≡ some b
      → Fit (limit key) (window key) now (times key h) (s.buckets key)
      → Fit (limit key) (window key) now (times key ((k, now) ∷ h)) (set_bucket s.buckets k b key)
  unfolding set_bucket
  Fit-set_bucket now h s k key b hit fit = elim (Bool-cases (text_eq key k)) [
    | inl same ↦ rw same (
        Fit-hit_bucket (limit key) (window key) now (times key h) (s.buckets key) b (positive key)
          (subst (λ x. hit_bucket now (limit x) (window x) (s.buckets x) ≡ some b)
            (sym ((text_eq_iff key k).0 same)) hit)
          fit)
    | inr other ↦ rw other fit
  ]

  Fit-Reaches :
      {t : ℕ} {h : List (Text × ℕ)} {s : Limiter} (key : Text)
      → Reaches limit window start t h s
      → Fit (limit key) (window key) t (times key h) (s.buckets key)
  unfolding since
  Fit-Reaches key initial = (refl, λ a near. omega arith)
  Fit-Reaches key (allowed {t = t} {h = h} {s = s} now k before later ok) =
      let (b, hit, after) = allowed_hit now (limit k) (window k) k s ok in
      subst
        (λ (buckets : Text → Option Bucket).
          Fit (limit key) (window key) now (times key ((k, now) ∷ h)) (buckets key))
        (sym after)
        (Fit-set_bucket now h (sweep now s) k key b hit (
          Fit-sweep (limit key) (window key) t now (times key h) s key later
            (Fit-Reaches key before)))
  Fit-Reaches key (rejected {t = t} {h = h} {s = s} now k before later refused) =
      subst (λ (l : Limiter). Fit (limit key) (window key) now (times key h) (l.buckets key))
        (sym (rejected_hit now (limit k) (window k) k s refused))
        (Fit-sweep (limit key) (window key) t now (times key h) s key later
          (Fit-Reaches key before))

  -- With limits of at least one and a clock that does not go back, whatever hits of whatever keys
  -- came before: in any window that reaches up to now, at most twice the limit of a key's hits
  -- were allowed.
  pub rate_limit_bounds :
      {t : ℕ} {h : List (Text × ℕ)} {s : Limiter} (key : Text) (from : ℕ)
      → Reaches limit window start t h s
      → t ≤ from + window key
      → since from (times key h) ≤ limit key + limit key
  rate_limit_bounds {t = t} {h = h} {s = s} key from reached near =
      Fit-bound (limit key) (window key) t from (times key h) (s.buckets key)
        (Fit-Reaches key reached) near
