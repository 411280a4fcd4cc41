-- ===== src/Relayer/Lock/Laws.antt =====
-- Proofs about RedisLock: the bodies that run under it, and the key.
use verivyx_monorepo.Prelude.{
  ℕ, ◌+◌, ◌≤◌, ◌≡◌, ◌⊎◌, refl, inl, inr, true, not, Option, none, some, List, [], ◌∷◌, Text,
  text_eq, text_eq_iff, All, arith, if◌then◌else◌, Bool-cases,
}
use verivyx_monorepo.Relayer.Lock.{
  Held, set_nx, acquired, acquire_turn, release, Hold, without, Reaches, initial, enter, turn_away,
  leave, lose,
}

-- When the key is free at the latest, if it has this token.
abbrev expiry_for : Text → Option Held → ℕ
expiry_for token none = 0
expiry_for token (some held) = if text_eq held.token token then held.expires_at else 0

-- The key still has the token of the body, or its time is over.
abbrev Covered : ℕ → ℕ → Option Held → Hold → Type 0
Covered ttl now key hold = (hold.since + ttl ≤ now) ⊎ (hold.since + ttl ≤ expiry_for hold.token key)

-- Each body began when the time of all the bodies before it was over.
abbrev pub Apart : ℕ → List Hold → Type 0
Apart ttl [] = Unit
Apart ttl (hold ∷ earlier) = All (λ e. e.since + ttl ≤ hold.since) earlier × Apart ttl earlier

module _ (ttl : ℕ) where
  enter-free :
      (now acquire_timeout start : ℕ) (token : Text) (key : Option Held) (hold : Hold)
      → (acquire_turn ttl acquire_timeout start now token key).0 ≡ acquired
      → expiry_for hold.token key ≤ now
  unfolding acquire_turn set_nx
  enter-free now acquire_timeout start token none hold h = omega arith
  enter-free now acquire_timeout start token (some held) hold h = ground arith

  turn_away-Covered :
      (t now acquire_timeout start : ℕ) (token : Text) (key : Option Held) (hold : Hold)
      → t ≤ now
      → ((acquire_turn ttl acquire_timeout start now token key).0 ≡ acquired → ⊥)
      → Covered ttl t key hold
      → Covered ttl now (acquire_turn ttl acquire_timeout start now token key).1 hold
  unfolding acquire_turn set_nx
  turn_away-Covered t now acquire_timeout start token none hold later refused covered =
      absurd (refused refl)
  turn_away-Covered t now acquire_timeout start token (some held) hold later refused covered =
      ground arith

  leave-Covered :
      (t now : ℕ) (token : Text) (key : Option Held) (hold : Hold)
      → t ≤ now
      → not (text_eq hold.token token) ≡ true
      → Covered ttl t key hold
      → Covered ttl now (release now token key) hold
  unfolding release
  leave-Covered t now token none hold later other covered = ground arith
  leave-Covered t now token (some held) hold later other covered = ground (
    arith,
    text_eq_iff held.token token,
    text_eq_iff held.token hold.token,
    text_eq_iff hold.token token,
  )

  lose-Covered :
      (t now : ℕ) (key : Option Held) (hold : Hold)
      → t ≤ now
      → Covered ttl t key hold
      → Covered ttl now key hold
  lose-Covered t now key hold later covered = ground arith

  own_hold-Covered :
      (now acquire_timeout start : ℕ) (token : Text) (key : Option Held)
      → (acquire_turn ttl acquire_timeout start now token key).0 ≡ acquired
      → Covered ttl now
          (acquire_turn ttl acquire_timeout start now token key).1
          (record { token = token; since = now })
  unfolding acquire_turn set_nx
  own_hold-Covered now acquire_timeout start token none h = ground (arith, text_eq_iff token token)
  own_hold-Covered now acquire_timeout start token (some held) h =
      ground (arith, text_eq_iff token token)

  All-map :
      (P Q : Hold → Type 0) (holds : List Hold)
      → ((hold : Hold) → P hold → Q hold)
      → All P holds
      → All Q holds
  All-map P Q [] f all = tt
  All-map P Q (hold ∷ holds) f (p, all) = (f hold p, All-map P Q holds f all)

  All-without :
      (P Q : Hold → Type 0) (token : Text) (holds : List Hold)
      → ((hold : Hold) → not (text_eq hold.token token) ≡ true → P hold → Q hold)
      → All P holds
      → All Q (without token holds)
  All-without P Q token [] f all = tt
  All-without P Q token (hold ∷ holds) f (p, all) =
      elim (Bool-cases (not (text_eq hold.token token))) [
        | inl other ↦ rw other (f hold other p, All-without P Q token holds f all)
        | inr same ↦ rw same (All-without P Q token holds f all)
      ]

  Apart-without :
      (token : Text) (holds : List Hold) → Apart ttl holds → Apart ttl (without token holds)
  Apart-without token [] apart = tt
  Apart-without token (hold ∷ holds) (first, apart) =
      elim (Bool-cases (not (text_eq hold.token token))) [
        | inl other ↦ rw other (
          All-without _ (λ e. e.since + ttl ≤ hold.since) token holds (λ e kept over. over) first,
          Apart-without token holds apart,
        )
        | inr same ↦ rw same (Apart-without token holds apart)
      ]

  Covered-over :
      (t now : ℕ) (key : Option Held) (hold : Hold)
      → t ≤ now
      → expiry_for hold.token key ≤ now
      → Covered ttl t key hold
      → hold.since + ttl ≤ now
  Covered-over t now key hold later free covered = ground arith

  All-Covered :
      {t : ℕ} {holds : List Hold} {key : Option Held}
      → Reaches ttl t holds key
      → All (Covered ttl t key) holds × Apart ttl holds
  All-Covered initial = (tt, tt)
  All-Covered (enter {t = t} {holds = holds} {key = key} now timeout start token before later ok) =
      let (covered, apart) = All-Covered before in
      let over : All (λ (e : Hold). e.since + ttl ≤ now) holds =
        All-map (Covered ttl t key) _ holds
          (λ e c. Covered-over t now key e later (enter-free now timeout start token key e ok) c)
          covered in
      (
        (
          own_hold-Covered now timeout start token key ok,
          All-map (λ e. e.since + ttl ≤ now) _ holds (λ e done. inl done) over,
        ),
        (over, apart),
      )
  All-Covered
        (turn_away {t = t} {holds = holds} {key = key} now timeout start token before later
          refused) =
      let (covered, apart) = All-Covered before in
      (
        All-map (Covered ttl t key) _ holds
            (λ e c. turn_away-Covered t now timeout start token key e later refused c) covered,
        apart,
      )
  All-Covered (leave {t = t} {holds = holds} {key = key} now token before later) =
      let (covered, apart) = All-Covered before in
      (
        All-without (Covered ttl t key) _ token holds
            (λ e other c. leave-Covered t now token key e later other c) covered,
        Apart-without token holds apart,
      )
  All-Covered (lose {t = t} {holds = holds} {key = key} now token before later) =
      let (covered, apart) = All-Covered before in
      (
        All-without (Covered ttl t key) _ token holds
            (λ e other c. lose-Covered t now key e later c) covered,
        Apart-without token holds apart,
      )

-- Whatever the instances do that share the key, and in whatever order, as long as the clock does
-- not go back: a body that runs while an earlier one still does began when the earlier one had
-- held the lock for its whole time to live. So bodies that end within it never overlap.
pub lock-Apart :
    (ttl : ℕ) {t : ℕ} {holds : List Hold} {key : Option Held}
    → Reaches ttl t holds key
    → Apart ttl holds
lock-Apart ttl reached = (All-Covered ttl reached).1
