-- ===== src/Relayer/Settle/Traces.antt =====
-- What /settle may send to the chain, as a property of its traces.
use verivyx_monorepo.Prelude.{
  ℕ, zero, suc, ◌+◌, ◌≡◌, ◌<◌, ◌⊎◌, refl, inl, inr, subst, sym, true, false, Option, none, some,
  List, [], ◌∷◌, ◌++◌, Text, codes, length, Listed, All, any, arith, Bool-cases,
}
use verivyx_monorepo.Relayer.Types.{
  ContractCall, invoke_contract, invoke_host_function, Transaction, Requirements, Outcome, ok,
  rejected, thrown,
}
use verivyx_monorepo.Relayer.Operations.{is_soroban_op}
use verivyx_monorepo.Relayer.Operations.Laws.{IsTransferTo}
use verivyx_monorepo.Relayer.Chain.{
  Action, lock, unlock, send_sponsored, send_distribute, send_soroban, send_classic, Run, ◌>>=◌,
  quietly, Chain, TxStatus, poll_soroban, poll_soroban_confirmation, after_send, with_timeout,
  facilitator_lock_run,
}
use verivyx_monorepo.Relayer.Settle.{RelayerConfig}

-- A single `pay` call with three arguments on a listed adapter, or a single transfer of the full
-- amount to a listed paywall contract.
pub record IsAdapterPay (cfg : RelayerConfig) (tx : Transaction) : Type 0 where
  pub call : ContractCall
  pub single : tx.operations ≡ invoke_host_function (invoke_contract call) ∷ []
  pub listed : Listed call.contract_id cfg.allowed_pay_adapters
  pub function : call.function_name ≡ codes "pay"
  pub three : length call.args ≡ 3

pub record IsPaywallTransfer (cfg : RelayerConfig) (requirements : Requirements) (tx : Transaction)
    (contract : Text) : Type 0 where
  pub required : requirements.paywall_contract ≡ some contract
  pub listed : Listed contract cfg.allowed_paywall_contracts
  pub transfer : IsTransferTo tx requirements.asset contract requirements.amount

-- The conditions of the sponsored path, and of the other one.
abbrev pub IsSponsored : Chain → Transaction → Type 0
IsSponsored chain tx =
    (any is_soroban_op tx.operations ≡ true) × (tx.signatures ≡ 0) × (chain.has_facilitator ≡ true)

abbrev pub IsPresigned : Chain → Transaction → Type 0
IsPresigned chain tx =
    (any is_soroban_op tx.operations ≡ false)
    ⊎ (0 < tx.signatures)
    ⊎ (chain.has_facilitator ≡ false)

module _ (chain : Chain) (cfg : RelayerConfig) (requirements : Requirements) (tx : Transaction)
    (envelope : Text) where
  -- A transaction that the relayer may hand over: what it sponsors is the presented, unsigned
  -- envelope of a listed adapter or paywall contract; what it distributes is the amount that this
  -- payment has transferred, after its confirmation; what it sends as it stands is not to be
  -- sponsored, and a Soroban transaction among these has been simulated without an error.
  abbrev pub Allowed : Action → Type 0
  Allowed (send_sponsored e) =
      (e ≡ envelope)
      × IsSponsored chain tx
      × (IsAdapterPay cfg tx ⊎ ((contract : Text) × IsPaywallTransfer cfg requirements tx contract))
  Allowed (send_distribute contract domain token amount) =
      IsPaywallTransfer cfg requirements tx contract
      × (token ≡ requirements.asset)
      × (amount ≡ requirements.amount)
      × (requirements.domain ≡ some domain)
      × ((hash : Text) × (chain.sent (send_sponsored envelope) ≡ some hash)
          × (poll_soroban_confirmation chain hash ≡ ok hash))
  Allowed (send_soroban e) =
      (e ≡ envelope)
      × (any is_soroban_op tx.operations ≡ true)
      × IsPresigned chain tx
      × (chain.simulate envelope ≡ ok tt)
  Allowed (send_classic e) = (e ≡ envelope) × (any is_soroban_op tx.operations ≡ false)
  Allowed lock = Unit
  Allowed unlock = Unit

pub All-append :
    {A : Type 0} (P : A → Type 0) (xs ys : List A) → All P xs → All P ys → All P (xs ++ ys)
All-append P [] ys h k = k
All-append P (x ∷ xs) ys (p, h) k = (p, All-append P xs ys h k)

-- A property of every action passes through a chain of steps.
pub All-bind :
    {A B : Type 0} (P : Action → Type 0) (m : Run A) (f : A → Run B)
    → All P m.0
    → ((a : A) → m.1 ≡ ok a → All P (f a).0)
    → All P (m >>= f).0
All-bind P (trace, ok a) f h k = All-append P trace (f a).0 h (k a refl)
All-bind P (trace, rejected reason) f h k = h
All-bind P (trace, thrown message) f h k = h

pub All-quietly :
    {A B : Type 0} (P : Action → Type 0) (m : Outcome A) (f : A → Run B)
    → ((a : A) → m ≡ ok a → All P (f a).0)
    → All P (quietly m >>= f).0
All-quietly P m f k = All-bind P (quietly m) f tt k

pub All-with_timeout :
    {A : Type 0} (P : Action → Type 0) (chain : Chain) (label : Text) (m : Run A)
    → All P m.0
    → All P (with_timeout chain label m).0
unfolding with_timeout
All-with_timeout P chain label m h = ground arith

pub with_timeout-ok :
    {A : Type 0} (chain : Chain) (label : Text) (m : Run A) (a : A)
    → (with_timeout chain label m).1 ≡ ok a
    → m.1 ≡ ok a
unfolding with_timeout
with_timeout-ok chain label m a h = ground arith

pub All-facilitator_lock_run :
    {A : Type 0} (P : Action → Type 0) (chain : Chain) (m : Run A)
    → P lock
    → P unlock
    → All P m.0
    → All P (facilitator_lock_run chain m).0
unfolding facilitator_lock_run
All-facilitator_lock_run P chain m p q h = elim (Bool-cases chain.lock_free) [
  | inl free ↦ rw free (p, All-append P m.0 (unlock ∷ []) h (q, tt))
  | inr busy ↦ rw busy tt
]

poll_soroban-ok :
    (status : ℕ → TxStatus) (hash : Text) (index left : ℕ) (result : Text)
    → poll_soroban status hash index left ≡ ok result
    → result ≡ hash
unfolding poll_soroban
poll_soroban-ok status hash index zero result h = cc
poll_soroban-ok status hash index (suc left) result h =
    ground (arith, poll_soroban-ok status hash (index + 1) left result)

-- The relayer's own submission went through and was confirmed.
abbrev pub IsConfirmed : Chain → Action → Text → Type 0
IsConfirmed chain action hash =
    (chain.sent action ≡ some hash) × (poll_soroban_confirmation chain hash ≡ ok hash)

pub after_send-ok :
    (chain : Chain) (sent : Option Text) (hash : Text)
    → after_send chain sent ≡ ok hash
    → (sent ≡ some hash) × (poll_soroban_confirmation chain hash ≡ ok hash)
unfolding poll_soroban_confirmation
after_send-ok chain none hash h = cc
after_send-ok chain (some given) hash h =
    let same : hash ≡ given = poll_soroban-ok (chain.status given) given 0 20 hash h in
    (cc same, subst (λ x. poll_soroban (chain.status x) x 0 20 ≡ ok hash) (sym same) h)
