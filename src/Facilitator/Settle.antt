-- ===== src/Facilitator/Settle.antt =====
-- ExactStellarScheme.settle, pollForTransaction and roundRobinSelectSigner.
use verivyx_monorepo.Prelude.{
  ℕ, zero, suc, ◌+◌, ◌%◌, min, ◌≡◌, refl, Bool, true, false, Option, none, some, or_default, List,
  [], ◌∷◌, Text, text_eq, has, length, get_elem?, if◌then◌else◌,
}
use verivyx_monorepo.Facilitator.Types.{
  Native, InvokeOp, Operation, invoke_host_function, Transaction, PaymentRequirements,
  PaymentPayload, Reason, VerifyResponse, valid, invalid,
}
use verivyx_monorepo.Facilitator.Verify.{
  Rpc, SchemeConfig, default_timeout_seconds, network_to_passphrase, get_rpc_url,
  stellar_testnet_caip2, verify,
}

-- What `getTransaction` answers at one attempt; `pending` stands for every other status and `lost`
-- for a thrown error.
pub data PollAnswer : Type 0 where
  confirmed rejected pending lost : PollAnswer

-- `index` is the number of the attempt; the recursion is on the attempts left.
unfoldable pub poll_from : (ℕ → PollAnswer) → ℕ → ℕ → Bool
poll_from answer index zero = false
poll_from answer index (suc left) = elim (answer index) [
  | confirmed ↦ true
  | rejected ↦ false
  | pending ↦ poll_from answer (index + 1) left
  | lost ↦ poll_from answer (index + 1) left
]

unfoldable pub poll_for_transaction : (ℕ → PollAnswer) → ℕ → Bool
unfolding poll_from
poll_for_transaction answer max_poll_attempts = poll_from answer 0 max_poll_attempts

-- `addrs[index++ % addrs.length]`: the address, if there is one, and the next index.
unfoldable pub round_robin_select : ℕ → List Text → Option Text × ℕ
round_robin_select index addrs = (get_elem? addrs (index % length addrs), index + 1)

-- The transaction that the facilitator rebuilds around the client's operation.
pub record RebuiltTx : Type 0 where
  pub source : Text
  pub fee : ℕ
  pub timeout : ℕ
  pub op : InvokeOp
  pub soroban_data : Text
  pub preconditions : Text

-- buildFeeBumpTransaction: who pays, and the base fee.
pub record FeeBump : Type 0 where
  pub source : Text
  pub base_fee : ℕ

-- What goes to the network: the inner transaction, and the fee bump around it.
pub record Submission : Type 0 where
  pub inner : RebuiltTx
  pub fee_bump : Option FeeBump

pub data Signing : Type 0 where
  signed sign_error sign_threw : Signing

-- The signers and the server during settlement; `none` and `false` stand for a thrown error.
-- `soroban_data` reads the envelope's Soroban extension, `send` gives the hash of a pending
-- submission.
pub record Network : Type 0 where
  pub soroban_data : Text → Option (Option Text)
  pub get_account : Text → Bool
  pub sign : Text → Submission → Signing
  pub send : Submission → Option (Option Text)
  pub get_transaction : Text → ℕ → PollAnswer

pub data SettleReason : Type 0 where
  verification : Reason → SettleReason
  malformed signer_selection_failed transaction_signing_failed fee_bump_signing_failed :
      SettleReason
  transaction_submission_failed transaction_failed unexpected_settle_error : SettleReason

-- `rejects` is a promise that rejects: the first two lines stand outside the `try`.
pub data SettleResponse : Type 0 where
  settled : (hash : Text) (payer : Native) → SettleResponse
  unsettled : SettleReason → (hash : Text) (payer : Option Native) → SettleResponse
  rejects : SettleResponse

-- A step that goes on, or ends with a failure and the hash that is then reported.
pub data Step (A : Type 0) : Type 0 where
  cont : A → Step A
  halt : SettleReason → Text → Step A

infixl 5 ◌>>=◌ ◌>>◌
abbrev pub ◌>>=◌ : {A B : Type 0} → Step A → (A → Step B) → Step B
cont a >>= f = f a
halt reason hash >>= f = halt reason hash

abbrev pub ◌>>◌ : {B : Type 0} → Step (Unit {0}) → Step B → Step B
m >> k = m >>= λ _. k

pub bind-cont :
    {A B : Type 0} (m : Step A) (f : A → Step B) {b : B}
    → (m >>= f) ≡ cont b
    → (a : A) × (m ≡ cont a) × (f a ≡ cont b)
bind-cont (cont a) f h = (a, refl, h)
bind-cont (halt reason hash) f h = cc

abbrev pub need : {A : Type 0} → Option A → SettleReason → Text → Step A
need none reason hash = halt reason hash
need (some a) reason hash = cont a

abbrev pub after_signing : Signing → SettleReason → Step (Unit {0})
after_signing signed reason = cont tt
after_signing sign_error reason = halt reason []
after_signing sign_threw reason = halt unexpected_settle_error []

abbrev pub first_invocation : List Operation → Option InvokeOp
first_invocation (invoke_host_function op ∷ _) = some op
first_invocation _ = none

-- Steps 2 and 3: the transaction, its Soroban data and its operation.
unfoldable pub read_envelope : Rpc → Network → Text → Text → Step (Transaction × Text × InvokeOp)
read_envelope rpc net passphrase envelope = do
  found ← need (net.soroban_data envelope) unexpected_settle_error []
  transaction ← need (rpc.parse_transaction envelope passphrase) unexpected_settle_error []
  soroban_data ← need found malformed []
  op ← need (first_invocation transaction.operations) unexpected_settle_error []
  cont (transaction, soroban_data, op)

-- Step 4; the selector may name no signer of the map.
unfoldable pub rebuild :
    Network
    → SchemeConfig
    → (List Text → Text)
    → PaymentRequirements
    → Transaction
    → Text
    → InvokeOp
    → Step RebuiltTx
rebuild net cfg select requirements transaction soroban_data op =
    let signer = select cfg.signing_addresses in
    if has cfg.signing_addresses signer
    then if net.get_account signer
      then cont (record {
        source = signer;
        fee = min transaction.fee cfg.max_transaction_fee_stroops;
        timeout = or_default requirements.max_timeout_seconds default_timeout_seconds;
        op = op;
        soroban_data = soroban_data;
        preconditions = transaction.preconditions;
      })
      else halt unexpected_settle_error []
    else halt signer_selection_failed []

-- Step 6.
unfoldable pub bump : Network → Option Text → RebuiltTx → Step Submission
bump net none inner = cont (record { inner = inner; fee_bump = none })
bump net (some payer) inner = do
  let wrapped : Submission = record {
    inner = inner;
    fee_bump = some (record { source = payer; base_fee = inner.fee });
  }
  after_signing (net.sign payer wrapped) fee_bump_signing_failed
  cont wrapped

abbrev pub confirm : Bool → Text → Step Text
confirm true hash = cont hash
confirm false hash = halt transaction_failed hash

-- Steps 5 to 8.
unfoldable pub submit : Network → Option Text → PaymentRequirements → RebuiltTx → Step Text
submit net fee_bump_signer requirements inner = do
  after_signing (net.sign inner.source (record { inner = inner; fee_bump = none }))
      transaction_signing_failed
  submission ← bump net fee_bump_signer inner
  sent ← need (net.send submission) unexpected_settle_error []
  hash ← need sent transaction_submission_failed []
  confirm
      (poll_for_transaction (net.get_transaction hash)
        (or_default requirements.max_timeout_seconds default_timeout_seconds))
      hash

unfoldable pub settle_steps :
    Rpc
    → Network
    → SchemeConfig
    → (List Text → Text)
    → Option Text
    → PaymentPayload
    → PaymentRequirements
    → Text
    → Step Text
settle_steps rpc net cfg select fee_bump_signer payload requirements passphrase = do
  envelope ← need payload.transaction unexpected_settle_error []
  (transaction, soroban_data, op) ← read_envelope rpc net passphrase envelope
  inner ← rebuild net cfg select requirements transaction soroban_data op
  submit net fee_bump_signer requirements inner

abbrev pub report : Native → Step Text → SettleResponse
report payer (cont hash) = settled hash payer
report payer (halt reason hash) = unsettled reason hash (some payer)

-- Step 1.
abbrev pub after_verify : VerifyResponse → Step Text → SettleResponse
after_verify (invalid reason payer) steps = unsettled (verification reason) [] payer
after_verify (valid payer) steps = report payer steps

-- getRpcClient and getNetworkPassphrase, which stand outside the `try`.
unfoldable pub open_network : Rpc → SchemeConfig → PaymentRequirements → Option Text
unfolding get_rpc_url network_to_passphrase
open_network rpc cfg requirements = elim (get_rpc_url requirements.network cfg.rpc_url) [
  | none ↦ none
  | some url ↦
      if rpc.open_server url (text_eq requirements.network stellar_testnet_caip2)
      then network_to_passphrase requirements.network
      else none
]

abbrev pub finish : Option Text → (Text → Step Text) → VerifyResponse → SettleResponse
finish none steps response = rejects
finish (some passphrase) steps response = after_verify response (steps passphrase)

unfoldable pub settle :
    Rpc
    → Network
    → SchemeConfig
    → (List Text → Text)
    → Option Text
    → PaymentPayload
    → PaymentRequirements
    → SettleResponse
settle rpc net cfg select fee_bump_signer payload requirements =
    finish (open_network rpc cfg requirements)
      (settle_steps rpc net cfg select fee_bump_signer payload requirements)
      (verify rpc cfg payload requirements)
