-- ===== src/Relayer/Idempotency.antt =====
-- InMemoryIdempotency of payment-relayer/src/idempotency.ts: its cache of results and its map of
-- work in flight.
pub mod Laws
mod Tests
use verivyx_monorepo.Prelude.{
  ℕ, ◌+◌, ◌≤◌, ◌≡◌, Bool, true, false, Option, none, some, List, [], ◌∷◌, Text, text_eq, ltb,
  if◌then◌else◌,
}

pub record CompletedEntry (V : Type 0) : Type 0 where
  pub result : V
  pub expires_at : ℕ

-- completedCache, and the keys of inFlight.
pub record State (V : Type 0) : Type 0 where
  pub completed : Text → Option (CompletedEntry V)
  pub in_flight : Text → Bool

pub data Answer (V : Type 0) : Type 0 where
  cached : V → Answer V
  joined started : Answer V

unfoldable pub update : {B : Type 0} → (Text → B) → Text → B → Text → B
update map key b k = if text_eq k key then b else map k

abbrev pub empty_state : {V : Type 0} → State V
empty_state = record { completed = λ key. none; in_flight = λ key. false }

module _ {V : Type 0} where
  unfoldable pub join_or_start : Text → State V → State V × Answer V
  unfolding update
  join_or_start key s =
      if s.in_flight key
      then (s, joined)
      else (record s { in_flight = update s.in_flight key true }, started)

  abbrev pub after_cache : ℕ → Text → State V → Option (CompletedEntry V) → State V × Answer V
  after_cache now key s none = join_or_start key s
  after_cache now key s (some entry) =
      if ltb now entry.expires_at
      then (s, cached entry.result)
      else join_or_start key (record s { completed = update s.completed key none })

  -- The synchronous part of settleOnce, up to the promise that it returns.
  unfoldable pub settle_once : ℕ → Text → State V → State V × Answer V
  unfolding join_or_start
  settle_once now key s = after_cache now key s (s.completed key)

  -- When the work has ended: with a result, or, for `none`, with an error.
  unfoldable pub finish : ℕ → ℕ → Text → Option V → State V → State V
  unfolding update
  finish ttl now key (some v) s = record {
    completed = update s.completed key (some (record { result = v; expires_at = now + ttl }));
    in_flight = update s.in_flight key false;
  }
  finish ttl now key none s = record s { in_flight = update s.in_flight key false }

pub data Event (V : Type 0) : Type 0 where
  called : (key : Text) (now : ℕ) → Answer V → Event V
  finished : (key : Text) (now : ℕ) → Option V → Event V

-- The states that calls and ends of work lead to, with the clock and the events so far, the last
-- one first. Calls and ends come in any order, as long as the clock does not go back.
pub data Reaches {V : Type 0} (ttl : ℕ) : ℕ → List (Event V) → State V → Type 0 where
  initial : Reaches ttl 0 [] empty_state
  call :
      {t : ℕ} {h : List (Event V)} {s : State V} (now : ℕ) (key : Text)
      → Reaches ttl t h s
      → t ≤ now
      → Reaches ttl now (called key now (settle_once now key s).1 ∷ h) (settle_once now key s).0
  end_of_work :
      {t : ℕ} {h : List (Event V)} {s : State V} (now : ℕ) (key : Text) (outcome : Option V)
      → Reaches ttl t h s
      → t ≤ now
      → s.in_flight key ≡ true
      → Reaches ttl now (finished key now outcome ∷ h) (finish ttl now key outcome s)
