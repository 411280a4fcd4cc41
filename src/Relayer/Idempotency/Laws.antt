-- ===== src/Relayer/Idempotency/Laws.antt =====
-- Proofs about InMemoryIdempotency: the invariants of its two maps along calls and ends of work.
use verivyx_monorepo.Prelude.{
  ℕ, ◌+◌, ◌≤◌, ◌<◌, ◌≡◌, ◌⊎◌, refl, inl, inr, sym, ap, ◌∙◌, Bool, true, false, Option, none, some,
  List, [], ◌∷◌, Text, text_eq, text_eq_iff, text_eq_refl, All, Any, arith, if◌then◌else◌,
  Bool-cases, Option-cases,
}
use verivyx_monorepo.Relayer.Idempotency.{
  CompletedEntry, State, cached, started, update, join_or_start, settle_once, finish, Event, called,
  finished, Reaches, initial, call, end_of_work,
}

some_inj : {A : Type 0} (a b : A) → some a ≡ some b → a ≡ b
some_inj a b h = cc h

module _ {V : Type 0} where
  -- The last event of the key among its starts and ends is a start.
  abbrev pub running : Text → List (Event V) → Bool
  running key [] = false
  running key (called k now started ∷ h) = if text_eq key k then true else running key h
  running key (called k now _ ∷ h) = running key h
  running key (finished k now outcome ∷ h) = if text_eq key k then false else running key h

  update_in_flight :
      (key : Text) (now : ℕ) (k : Text) (s : State V) (h : List (Event V))
      → s.in_flight key ≡ running key h
      → (settle_once now k s).0.in_flight key
        ≡ running key (called k now (settle_once now k s).1 ∷ h)
  unfolding settle_once join_or_start update
  update_in_flight key now k s h same = elim (Option-cases (s.completed k)) [
    | inl missing ↦ ground arith
    | inr (entry, found) ↦ ground arith
  ]

  in_flight_lem :
      {ttl t : ℕ} {h : List (Event V)} {s : State V} (key : Text)
      → Reaches ttl t h s
      → s.in_flight key ≡ running key h
  unfolding finish update
  in_flight_lem key initial = refl
  in_flight_lem key (call {s = s} now k before later) =
      update_in_flight key now k s _ (in_flight_lem key before)
  in_flight_lem key (end_of_work now k none before later busy) =
      ground (arith, in_flight_lem key before)
  in_flight_lem key (end_of_work now k (some v) before later busy) =
      ground (arith, in_flight_lem key before)

  abbrev expiry_of : Option (CompletedEntry V) → ℕ
  expiry_of none = 0
  expiry_of (some entry) = entry.expires_at

  -- A result is kept in the cache until it expires.
  abbrev Kept : ℕ → ℕ → State V → Event V → Type 0
  Kept ttl t s (called k now answer) = Unit
  Kept ttl t s (finished k u none) = Unit
  Kept ttl t s (finished k u (some v)) =
      (u ≤ t) × ((u + ttl ≤ t) ⊎ (u + ttl ≤ expiry_of (s.completed k)))

  expiry-settle_once :
      (now : ℕ) (key : Text) (s : State V) (k : Text)
      → (expiry_of ((settle_once now key s).0.completed k) ≡ expiry_of (s.completed k))
        ⊎ (expiry_of (s.completed k) ≤ now)
  unfolding settle_once join_or_start update
  expiry-settle_once now key s k = elim (Option-cases (s.completed key)) [
    | inl missing ↦ ground (arith, text_eq_iff k key)
    | inr (entry, found) ↦ ground (arith, text_eq_iff k key)
  ]

  expiry-finish :
      (ttl now : ℕ) (key : Text) (outcome : Option V) (s : State V) (k : Text)
      → (expiry_of ((finish ttl now key outcome s).completed k) ≡ expiry_of (s.completed k))
        ⊎ (expiry_of ((finish ttl now key outcome s).completed k) ≡ now + ttl)
  unfolding finish update
  expiry-finish ttl now key none s k = inl refl
  expiry-finish ttl now key (some w) s k = elim (Bool-cases (text_eq k key)) [
    | inl same ↦ inr (rw same refl)
    | inr other ↦ inl (rw other refl)
  ]

  Kept-settle_once :
      (ttl t now : ℕ) (key : Text) (s : State V) (e : Event V)
      → t ≤ now
      → Kept ttl t s e
      → Kept ttl now (settle_once now key s).0 e
  Kept-settle_once ttl t now key s (called k u answer) later kept = tt
  Kept-settle_once ttl t now key s (finished k u none) later kept = tt
  Kept-settle_once ttl t now key s (finished k u (some v)) later kept =
      ground (arith, expiry-settle_once now key s k)

  Kept-finish :
      (ttl t now : ℕ) (key : Text) (outcome : Option V) (s : State V) (e : Event V)
      → t ≤ now
      → Kept ttl t s e
      → Kept ttl now (finish ttl now key outcome s) e
  Kept-finish ttl t now key outcome s (called k u answer) later kept = tt
  Kept-finish ttl t now key outcome s (finished k u none) later kept = tt
  Kept-finish ttl t now key outcome s (finished k u (some v)) later kept =
      ground (arith, expiry-finish ttl now key outcome s k)

  All-map :
      (P Q : Event V → Type 0) (h : List (Event V))
      → ((e : Event V) → P e → Q e)
      → All P h
      → All Q h
  All-map P Q [] f all = tt
  All-map P Q (e ∷ h) f (p, all) = (f e p, All-map P Q h f all)

  own_result-Kept :
      (ttl now : ℕ) (key : Text) (outcome : Option V) (s : State V)
      → Kept ttl now (finish ttl now key outcome s) (finished key now outcome)
  unfolding finish update
  own_result-Kept ttl now key none s = tt
  own_result-Kept ttl now key (some v) s = rw (text_eq_refl key) (ground arith)

  All-Kept :
      {ttl t : ℕ} {h : List (Event V)} {s : State V} → Reaches ttl t h s → All (Kept ttl t s) h
  All-Kept initial = tt
  All-Kept (call {t = t} {h = h} {s = s} now key before later) =
      (tt, All-map _ _ h (λ e. Kept-settle_once _ t now key s e later) (All-Kept before))
  All-Kept (end_of_work {t = t} {h = h} {s = s} now key outcome before later busy) = (
    own_result-Kept _ now key outcome s,
    All-map _ _ h (λ e. Kept-finish _ t now key outcome s e later) (All-Kept before),
  )

  -- A result for the key whose time is over.
  abbrev pub Lapsed : ℕ → ℕ → Text → Event V → Type 0
  Lapsed ttl now key (called k u answer) = Unit
  Lapsed ttl now key (finished k u none) = Unit
  Lapsed ttl now key (finished k u (some v)) = k ≡ key → u + ttl ≤ now

  started-idle :
      (now : ℕ) (key : Text) (s : State V)
      → (settle_once now key s).1 ≡ started
      → (s.in_flight key ≡ false) × (expiry_of (s.completed key) ≤ now)
  unfolding settle_once join_or_start
  started-idle now key s h = elim (Option-cases (s.completed key)) [
    | inl missing ↦ ground arith
    | inr (entry, found) ↦ ground arith
  ]

  Kept-Lapsed :
      (ttl t now : ℕ) (key : Text) (s : State V) (e : Event V)
      → t ≤ now
      → expiry_of (s.completed key) ≤ now
      → Kept ttl t s e
      → Lapsed ttl now key e
  Kept-Lapsed ttl t now key s (called k u answer) later over kept = tt
  Kept-Lapsed ttl t now key s (finished k u none) later over kept = tt
  Kept-Lapsed ttl t now key s (finished k u (some v)) later over (before, inl gone) =
      λ same. omega arith
  Kept-Lapsed ttl t now key s (finished k u (some v)) later over (before, inr long) =
      λ same. omega (arith, ap (λ x. expiry_of (s.completed x)) same)

  -- Whatever calls and ends of work came before, in whatever order: settleOnce starts the work for
  -- a key only when no earlier start of it is without its end, and when every result of it so far
  -- is at least as old as the time to live.
  pub settle_once_starts :
      {ttl t : ℕ} {h : List (Event V)} {s : State V} (now : ℕ) (key : Text)
      → Reaches ttl t h s
      → t ≤ now
      → (settle_once now key s).1 ≡ started
      → (running key h ≡ false) × All (Lapsed ttl now key) h
  settle_once_starts {ttl = ttl} {t = t} {h = h} {s = s} now key reached later begins =
      let (idle, over) = started-idle now key s begins in
      (
        sym (in_flight_lem key reached) ∙ idle,
        All-map _ _ h (λ e. Kept-Lapsed ttl t now key s e later over) (All-Kept reached),
      )

  -- The end of work for the key that gave the entry.
  abbrev Origin : ℕ → Text → CompletedEntry V → Event V → Type 0
  Origin ttl key entry (finished k u (some v)) =
      (k ≡ key) × (v ≡ entry.result) × (u + ttl ≡ entry.expires_at)
  Origin ttl key entry _ = ⊥

  only_deletes :
      (now : ℕ) (key : Text) (s : State V) (k : Text) (entry : CompletedEntry V)
      → (settle_once now key s).0.completed k ≡ some entry
      → s.completed k ≡ some entry
  unfolding settle_once join_or_start update
  only_deletes now key s k entry h = elim (Option-cases (s.completed key)) [
    | inl missing ↦ ground arith
    | inr (e, found) ↦ ground arith
  ]

  finish_writes :
      (ttl now : ℕ) (key : Text) (v : V) (s : State V) (k : Text) (entry : CompletedEntry V)
      → (finish ttl now key (some v) s).completed k ≡ some entry
      → Origin ttl k entry (finished key now (some v)) ⊎ (s.completed k ≡ some entry)
  unfolding finish update
  finish_writes ttl now key v s k entry h = elim (Bool-cases (text_eq k key)) [
    | inl same ↦ inl (
      sym ((text_eq_iff k key).0 same),
      ap (λ e. e.result) (some_inj _ entry (rw same at h)),
      ap (λ e. e.expires_at) (some_inj _ entry (rw same at h)),
    )
    | inr other ↦ inr (rw other at h)
  ]

  cache-Origin :
      {ttl t : ℕ} {h : List (Event V)} {s : State V} (key : Text) (entry : CompletedEntry V)
      → Reaches ttl t h s
      → s.completed key ≡ some entry
      → Any (Origin ttl key entry) h
  unfolding finish
  cache-Origin key entry initial found = cc
  cache-Origin key entry (call {s = s} now k before later) found =
      inr (cache-Origin key entry before (only_deletes now k s key entry found))
  cache-Origin key entry (end_of_work now k none before later busy) found =
      inr (cache-Origin key entry before found)
  cache-Origin {ttl = ttl} key entry (end_of_work {s = s} now k (some v) before later busy) found =
      elim (finish_writes ttl now k v s key entry found) [
        | inl here ↦ inl here
        | inr earlier ↦ inr (cache-Origin key entry before earlier)
      ]

  -- A result of the key that is not older than the time to live.
  abbrev pub IsResult : ℕ → ℕ → Text → V → Event V → Type 0
  IsResult ttl now key v (finished k u (some w)) = (k ≡ key) × (w ≡ v) × (now < u + ttl)
  IsResult ttl now key v _ = ⊥

  hit :
      (now : ℕ) (key : Text) (s : State V) (v : V)
      → (settle_once now key s).1 ≡ cached v
      → (entry : CompletedEntry V) × (s.completed key ≡ some entry)
        × (entry.result ≡ v)
        × (now < entry.expires_at)
  unfolding settle_once join_or_start
  hit now key s v h = elim (Option-cases (s.completed key)) [
    | inl missing ↦ absurd (ground arith)
    | inr (entry, found) ↦
        (let both : (entry.result ≡ v) × (now < entry.expires_at) = ground arith in
          (entry, found, both.0, both.1))
  ]

  Origin-IsResult :
      (ttl now : ℕ) (key : Text) (entry : CompletedEntry V) (v : V) (h : List (Event V))
      → entry.result ≡ v
      → now < entry.expires_at
      → Any (Origin ttl key entry) h
      → Any (IsResult ttl now key v) h
  Origin-IsResult ttl now key entry v [] same fresh none_there = absurd none_there
  Origin-IsResult ttl now key entry v (called k u answer ∷ h) same fresh (inl wrong) = absurd wrong
  Origin-IsResult ttl now key entry v (finished k u none ∷ h) same fresh (inl wrong) = absurd wrong
  Origin-IsResult ttl now key entry v (finished k u (some w) ∷ h) same fresh (inl (a, b, c)) =
      inl (a, b ∙ same, omega arith)
  Origin-IsResult ttl now key entry v (e ∷ h) same fresh (inr later) =
      inr (Origin-IsResult ttl now key entry v h same fresh later)

  -- What settleOnce answers from its cache is a result that work for this very key ended with,
  -- less than the time to live ago; an error is never answered from the cache.
  pub settle_once_answers :
      {ttl t : ℕ} {h : List (Event V)} {s : State V} (now : ℕ) (key : Text) (v : V)
      → Reaches ttl t h s
      → (settle_once now key s).1 ≡ cached v
      → Any (IsResult ttl now key v) h
  settle_once_answers {ttl = ttl} {h = h} {s = s} now key v reached answer =
      let (entry, found, same, fresh) = hit now key s v answer in
      Origin-IsResult ttl now key entry v h same fresh (cache-Origin key entry reached found)
