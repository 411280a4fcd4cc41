-- ===== src/Relayer/Types.antt =====
-- What the relayer reads of a request and of a transaction as the Stellar SDK decodes it, and how
-- its steps end.
use verivyx_monorepo.Prelude.{ℕ, Option, List, Text}

-- A contract invocation; an argument is `String(scValToNative(arg))`, or `none` if that throws.
pub record ContractCall : Type 0 where
  pub contract_id : Text
  pub function_name : Text
  pub args : List (Option Text)

pub data HostFunction : Type 0 where
  invoke_contract : ContractCall → HostFunction
  other_function : HostFunction

pub record PaymentOp : Type 0 where
  pub code : Text
  pub issuer : Option Text
  pub destination : Text
  pub amount : Text

pub data Operation : Type 0 where
  payment : PaymentOp → Operation
  invoke_host_function : HostFunction → Operation
  other_operation : Operation

pub record Transaction : Type 0 where
  pub source : Text
  pub operations : List Operation
  pub signatures : ℕ

pub record Split : Type 0 where
  pub pay_to : Text
  pub amount : Text

-- `asset` is empty where the source reads a missing one as ''; `split_payments` is `none` where
-- `extra` has no array of that name.
pub record Requirements : Type 0 where
  pub asset : Text
  pub amount : Text
  pub split_payments : Option (List Split)
  pub paywall_contract : Option Text
  pub domain : Option Text

-- Why a request gets status 400.
pub data Rejection : Type 0 where
  missing_transaction invalid_xdr missing_signatures : Rejection
  wrong_payment_count : ℕ → Rejection
  missing_split : Split → Rejection
  wrong_asset : Rejection
  no_invoked_op paywall_contract_required paywall_allowlist_empty : Rejection
  paywall_contract_not_allowed adapter_required adapter_allowlist_empty : Rejection
  adapter_not_allowed : Rejection
  wrong_operation_count not_invoke_host_function not_invoke_contract wrong_contract : Rejection
  wrong_function wrong_arg_count wrong_recipient wrong_amount : Rejection

-- A step gives a value, throws a SettleValidationError, or throws another error with a message.
pub data Outcome (A : Type 0) : Type 0 where
  ok : A → Outcome A
  rejected : Rejection → Outcome A
  thrown : Text → Outcome A

infixl 5 ◌>>=◌ ◌>>◌
abbrev pub ◌>>=◌ : {A B : Type 0} → Outcome A → (A → Outcome B) → Outcome B
ok a >>= f = f a
rejected r >>= f = rejected r
thrown m >>= f = thrown m

abbrev pub ◌>>◌ : {B : Type 0} → Outcome (Unit {0}) → Outcome B → Outcome B
m >> k = m >>= λ _. k
