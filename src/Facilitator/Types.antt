-- ===== src/Facilitator/Types.antt =====
-- What the facilitator reads: transactions as the Stellar SDK decodes them, simulation answers,
-- payment requirements; and the response of `verify` with its reason codes.
use verivyx_monorepo.Prelude.{
  ℕ, ◌≡◌, refl, Bool, true, false, Option, none, some, List, Text, ◌↔◌, text_eq, text_eq_iff, ◌==◌,
  has, arith,
}
use verivyx_monorepo.Prelude.Int.{ℤ, eqb_ℤ, eqb_ℤ_iff}

-- What `scValToNative` gives. The code casts it to `string` or `bigint` without a test, so the
-- other values are kept: primitives equal by value, and objects, which are never `===`.
pub data Native : Type 0 where
  str : Text → Native
  big : ℤ → Native
  primitive : ℕ → Native
  object : Native

-- `a === b`.
unfoldable pub native_eq : Native → Native → Bool
native_eq (str a) (str b) = text_eq a b
native_eq (big a) (big b) = eqb_ℤ a b
native_eq (primitive a) (primitive b) = a == b
native_eq _ _ = false

pub native_eq_str : (v : Native) (t : Text) → (native_eq v (str t) ≡ true) ↔ (v ≡ str t)
unfolding native_eq
native_eq_str (str a) t = ground (arith, text_eq_iff a t)
native_eq_str v t = ground arith

pub native_eq_big : (v : Native) (n : ℤ) → (native_eq v (big n) ≡ true) ↔ (v ≡ big n)
unfolding native_eq
native_eq_big (big a) n = ground (arith, eqb_ℤ_iff a n)
native_eq_big v n = ground arith

pub native_eq_sound : (v w : Native) → native_eq v w ≡ true → v ≡ w
unfolding native_eq
native_eq_sound (str a) (str b) h = ground (arith, text_eq_iff a b)
native_eq_sound (big a) (big b) h = ground (arith, eqb_ℤ_iff a b)
native_eq_sound (primitive a) (primitive b) h = ground arith
native_eq_sound v w h = cc

-- `set.has(v)` for a set of strings.
unfoldable pub has_native : List Text → Native → Bool
has_native ss (str t) = has ss t
has_native ss _ = false

-- `invokeContract()` of a host function; an argument is `none` if its decoding throws.
pub record ContractCall : Type 0 where
  pub contract_address : Text
  pub function_name : Text
  pub args : List (Option Native)

-- The two arms of SorobanCredentials; `signed` says that the signature is not `scvVoid`.
pub data Credentials : Type 0 where
  source_account : Credentials
  address : (who : Text) (signature_expiration_ledger : ℕ) (signed : Bool) → Credentials

-- The root invocation of an entry, which the source does not read, is left out.
pub record AuthEntry : Type 0 where
  pub credentials : Credentials
  pub sub_invocations : ℕ

pub record InvokeOp : Type 0 where
  pub source : Option Text
  pub call : Option ContractCall
  pub auth : List AuthEntry

pub data Operation : Type 0 where
  invoke_host_function : InvokeOp → Operation
  other_operation : Operation

pub record Transaction : Type 0 where
  pub source : Text
  pub operations : List Operation
  pub fee : ℕ
  -- Memo, ledger bounds, minimum sequence conditions and extra signers, which settling copies.
  pub preconditions : Text

-- A topic's symbol, if it is one, and its native value, if its decoding does not throw.
pub record Topic : Type 0 where
  pub symbol : Option Text
  pub native : Option Native

pub record ContractEvent : Type 0 where
  pub topics : List Topic
  pub contract_id : Option Text
  pub payload : Option Native

-- `broken` stands for an event whose accessors throw.
pub data DiagnosticEvent : Type 0 where
  contract : ContractEvent → DiagnosticEvent
  other_event : DiagnosticEvent
  broken : DiagnosticEvent

pub record SimSuccess : Type 0 where
  pub min_resource_fee : ℕ
  pub events : List DiagnosticEvent

pub data SimResponse : Type 0 where
  success : SimSuccess → SimResponse
  failure : SimResponse

pub record PaymentRequirements : Type 0 where
  pub scheme : Text
  pub network : Text
  pub asset : Text
  pub pay_to : Text
  pub amount : Text
  pub max_timeout_seconds : Option ℕ

-- `transaction` is `none` where the payload is missing or its transaction is not a string.
pub record PaymentPayload : Type 0 where
  pub x402_version : ℕ
  pub scheme : Text
  pub network : Text
  pub transaction : Option Text

pub data Reason : Type 0 where
  invalid_x402_version unsupported_scheme network_mismatch invalid_network : Reason
  malformed wrong_operation unsafe_tx_or_op_source wrong_asset wrong_function_name : Reason
  facilitator_is_payer wrong_recipient wrong_amount simulation_failed : Reason
  fee_below_minimum fee_exceeds_maximum : Reason
  event_not_transfer event_missing_contract_id event_wrong_asset no_transfer_events : Reason
  multiple_transfers event_wrong_from event_wrong_to event_wrong_amount : Reason
  no_auth_entries unsupported_credential_type facilitator_in_auth : Reason
  signature_expiration_too_far has_subinvocations missing_payer_signature : Reason
  unexpected_pending_signatures unexpected_verify_error : Reason

pub data VerifyResponse : Type 0 where
  valid : (payer : Native) → VerifyResponse
  invalid : (reason : Reason) (payer : Option Native) → VerifyResponse

-- A check that goes on with a value, or ends `verify` with an invalid response.
pub data Checked (A : Type 0) : Type 0 where
  go : A → Checked A
  stop : (reason : Reason) (payer : Option Native) → Checked A

infixl 5 ◌>>=◌ ◌>>◌
abbrev pub ◌>>=◌ : {A B : Type 0} → Checked A → (A → Checked B) → Checked B
go a >>= f = f a
stop reason payer >>= f = stop reason payer

abbrev pub ◌>>◌ : {B : Type 0} → Checked (Unit {0}) → Checked B → Checked B
m >> k = m >>= λ _. k

-- `if (test) return invalidVerifyResponse(reason, payer)`.
abbrev pub reject_if : Bool → Reason → Option Native → Checked (Unit {0})
reject_if true reason payer = stop reason payer
reject_if false reason payer = go tt

-- A value, or the response where there is none.
abbrev pub expect : {A : Type 0} → Option A → Reason → Option Native → Checked A
expect none reason payer = stop reason payer
expect (some a) reason payer = go a

-- The parts of a chain that goes through.
pub bind-go :
    {A B : Type 0} (m : Checked A) (f : A → Checked B) {b : B}
    → (m >>= f) ≡ go b
    → (a : A) × (m ≡ go a) × (f a ≡ go b)
bind-go (go a) f h = (a, refl, h)
bind-go (stop reason payer) f h = cc
