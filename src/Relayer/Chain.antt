-- ===== src/Relayer/Chain.antt =====
-- The submissions of index.ts: pollSorobanConfirmation, submitFeeSponsorUnlocked,
-- callDistributeUnlocked, submitSoroban, submitClassic, withTimeout and facilitatorLock.run.
use verivyx_monorepo.Prelude.{
  ℕ, zero, suc, ◌+◌, Bool, Option, none, some, List, [], ◌∷◌, ◌++◌, Text, codes, if◌then◌else◌,
}
use verivyx_monorepo.Relayer.Types.{Outcome, ok, rejected, thrown, Transaction}

-- The transactions that the relayer hands to a server, and the hold of the facilitator lock.
pub data Action : Type 0 where
  lock unlock : Action
  send_sponsored : (envelope : Text) → Action
  send_distribute : (contract domain token amount : Text) → Action
  send_soroban : (envelope : Text) → Action
  send_classic : (envelope : Text) → Action

-- What was done, in order, and how it ended.
abbrev pub Run : Type 0 → Type 0
Run A = List Action × Outcome A

abbrev pub then_run : {A B : Type 0} → List Action → Outcome A → (A → Run B) → Run B
then_run trace (ok a) f = let (later, result) = f a in (trace ++ later, result)
then_run trace (rejected reason) f = (trace, rejected reason)
then_run trace (thrown message) f = (trace, thrown message)

infixl 5 ◌>>=◌ ◌>>◌
abbrev pub ◌>>=◌ : {A B : Type 0} → Run A → (A → Run B) → Run B
m >>= f = then_run m.0 m.1 f

abbrev pub ◌>>◌ : {B : Type 0} → Run (Unit {0}) → Run B → Run B
m >> k = m >>= λ _. k

abbrev pub done : {A : Type 0} → A → Run A
done a = ([], ok a)

abbrev pub quietly : {A : Type 0} → Outcome A → Run A
quietly result = ([], result)

pub data TxStatus : Type 0 where
  success failed not_found unreachable : TxStatus

-- The servers and the SDK. The preparations parse, rebuild, simulate, assemble and sign; `sent` is
-- the hash of an action that the server took, `none` its status ERROR or a thrown error;
-- `lock_free` says that the lock is acquired in time; `expires` that a timeout of that label wins
-- its race.
pub record Chain : Type 0 where
  pub parse : Text → Option Transaction
  pub has_facilitator : Bool
  pub prepare_sponsored : Text → Outcome (Unit {0})
  pub prepare_distribute : Text → Text → Text → Text → Outcome (Unit {0})
  pub simulate : Text → Outcome (Unit {0})
  pub sent : Action → Option Text
  pub status : Text → ℕ → TxStatus
  pub lock_free : Bool
  pub expires : Text → Bool

-- The attempts left, after `index` of them.
unfoldable pub poll_soroban : (ℕ → TxStatus) → Text → ℕ → ℕ → Outcome Text
poll_soroban status hash index zero = thrown (codes "Soroban TX timeout waiting for confirmation")
poll_soroban status hash index (suc left) = elim (status index) [
  | success ↦ ok hash
  | failed ↦ thrown (codes "Soroban TX failed")
  | not_found ↦ poll_soroban status hash (index + 1) left
  | unreachable ↦ thrown (codes "getTransaction")
]

unfoldable pub poll_soroban_confirmation : Chain → Text → Outcome Text
unfolding poll_soroban
poll_soroban_confirmation chain hash = poll_soroban (chain.status hash) hash 0 20

abbrev pub after_send : Chain → Option Text → Outcome Text
after_send chain none = thrown (codes "Soroban send error")
after_send chain (some hash) = poll_soroban_confirmation chain hash

abbrev pub send_and_poll : Chain → Action → Run Text
send_and_poll chain action = (action ∷ [], after_send chain (chain.sent action))

abbrev pub need_facilitator : Chain → Run (Unit {0})
need_facilitator chain =
    if chain.has_facilitator
    then done tt
    else quietly (thrown (codes "FACILITATOR_STELLAR_SECRET required"))

unfoldable pub submit_fee_sponsor_unlocked : Chain → Text → Run Text
submit_fee_sponsor_unlocked chain envelope = do
  need_facilitator chain
  quietly (chain.prepare_sponsored envelope)
  send_and_poll chain (send_sponsored envelope)

unfoldable pub call_distribute_unlocked : Chain → Text → Text → Text → Text → Run Text
call_distribute_unlocked chain contract domain token amount = do
  need_facilitator chain
  quietly (chain.prepare_distribute contract domain token amount)
  send_and_poll chain (send_distribute contract domain token amount)

unfoldable pub submit_soroban : Chain → Text → Run Text
submit_soroban chain envelope = send_and_poll chain (send_soroban envelope)

abbrev pub submitted : Option Text → Outcome Text
submitted none = thrown (codes "Horizon submit error")
submitted (some hash) = ok hash

unfoldable pub submit_classic : Chain → Text → Run Text
submit_classic chain envelope =
    (send_classic envelope ∷ [], submitted (chain.sent (send_classic envelope)))

-- Promise.race with a timer. The work that loses the race is not stopped, so what it sends stays
-- in the trace, at the place that it has without the timer; it may be sent later than that, also
-- after the lock is released.
unfoldable pub with_timeout : {A : Type 0} → Chain → Text → Run A → Run A
with_timeout chain label (trace, result) =
    if chain.expires label then (trace, thrown (label ++ codes "_timeout")) else (trace, result)

-- The lock is released when the body ends, also when it throws.
unfoldable pub facilitator_lock_run : {A : Type 0} → Chain → Run A → Run A
facilitator_lock_run chain (trace, result) =
    if chain.lock_free
    then (lock ∷ trace ++ unlock ∷ [], result)
    else quietly (thrown (codes "redis_lock_acquire_timeout"))
