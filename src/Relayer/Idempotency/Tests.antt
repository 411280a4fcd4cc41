-- ===== src/Relayer/Idempotency/Tests.antt =====
-- A key that is started, joined, ended and answered from the cache, and the theorems there.
use verivyx_monorepo.Prelude.{
  ℕ, ◌≡◌, refl, false, some, List, [], ◌∷◌, Text, codes, All, Any, text_eq, arith,
}
use verivyx_monorepo.Relayer.Idempotency.{
  State, joined, started, empty_state, update, join_or_start, settle_once, finish, Event, called,
  finished, Reaches, initial, call, end_of_work,
}
use verivyx_monorepo.Relayer.Idempotency.Laws.{
  running, Lapsed, IsResult, settle_once_starts, settle_once_answers,
}

idempotency_all : Unit {0}
unfolding update join_or_start settle_once finish text_eq
idempotency_all = tt

abbrev key : Text
key = codes "hash"

abbrev ended : State ℕ
unfolding idempotency_all
ended = finish 100 7 key (some 42) (settle_once 5 key empty_state).0

abbrev story : List (Event ℕ)
story = finished key 7 (some 42) ∷ called key 5 started ∷ []

story_happens : Reaches 100 7 story ended
unfolding idempotency_all ended
story_happens = end_of_work 7 key (some 42) (call 5 key initial (omega arith)) (omega arith) refl

joins_while_running : (settle_once 6 key (settle_once {V = ℕ} 5 key empty_state).0).1 ≡ joined
unfolding idempotency_all
joins_while_running = refl

settle_once_answers_example : Any (IsResult 100 106 key 42) story
unfolding idempotency_all ended
settle_once_answers_example = settle_once_answers 106 key 42 story_happens refl

settle_once_starts_example : (running key story ≡ false) × All (Lapsed 100 107 key) story
unfolding idempotency_all ended
settle_once_starts_example = settle_once_starts 107 key story_happens (omega arith) refl
